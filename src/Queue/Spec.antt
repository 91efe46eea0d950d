-- ===== src/Queue/Spec.antt =====
-- A queue of packets, oldest first, that is at most `size` bytes long: what the ring promises.
use nabu_iris.Common.{ℕ, ◌+◌, List, [], ◌∷◌, ◌++◌, length, ltb, if◌then◌else◌, enospc, enodata}
use nabu_iris.Queue.Valid.{concat}

abbrev pub Packets : Type 0
Packets = List (List ℕ)

abbrev pub held : Packets → ℕ
held ps = length (concat ps)

unfoldable pub put : ℕ → Packets → List ℕ → ℕ × Packets
put size ps p = if ltb size (held ps + length p) then (enospc, ps) else (0, ps ++ (p ∷ []))

unfoldable pub get : Packets → ℕ × List ℕ × Packets
get [] = (enodata, [], [])
get (p ∷ ps) = (0, p, ps)
