-- ===== src/Queue/Runs.antt =====
-- Sequences of writes and reads on a ring, against the queue of packets of `Spec`.
use nabu_iris.Common.{
  ℕ, ◌+◌, ◌≤◌, ◌<◌, List, [], ◌∷◌, ◌++◌, ◌≡◌, ◌≢◌, ◌∙◌, ap, sym, refl, arith, length, ltb, ◌==◌,
  if◌then◌else◌, inl, inr, Bool-cases, ltb→lt, ltb→le, enospc, enodata,
}
use mathlib.Core.Path.{ap₂}
use nabu_iris.Queue.{IfaceQueue, Buffer, load_u32, queue_write, queue_read}
use nabu_iris.Queue.Bytes.{bytes, length-bytes}
use nabu_iris.Queue.Valid.{used, IsPacket, Holds, stated_length}
use nabu_iris.Queue.Write.{write_refused}
use nabu_iris.Queue.Read.{read_empty, request}
use nabu_iris.Queue.Fifo.{write-Holds, read-Holds, stated_length-bytes}
use nabu_iris.Queue.Spec
use nabu_iris.Queue.Spec.{Packets, held}

-- One call: the writer brings a packet of `n` bytes, or the reader reads.
pub data Call : Type 0 where
  put : Buffer → ℕ → Call
  get : Call

-- The code of a call, and the packet that a read delivers.
abbrev pub Reply : Type 0
Reply = ℕ × List ℕ

-- The packet that a successful read leaves in the buffer, by the length in its first word.
abbrev pub delivered : ℕ → Buffer → List ℕ
delivered ret out = if ret == 0 then bytes out 0 (load_u32 out 0) else []

unfoldable pub run : ℕ → IfaceQueue → Buffer → List Call → List Reply
run size q out [] = []
run size q out (put p n ∷ cs) =
    let (ret, q') = queue_write size q p n in (ret, []) ∷ run size q' out cs
run size q out (get ∷ cs) =
    let (ret, out', q') = queue_read size q out in (ret, delivered ret out') ∷ run size q' out' cs

unfoldable pub spec_run : ℕ → Packets → List Call → List Reply
spec_run size ps [] = []
spec_run size ps (put p n ∷ cs) =
    let (ret, ps') = Spec.put size ps (bytes p 0 n) in (ret, []) ∷ spec_run size ps' cs
spec_run size ps (get ∷ cs) = let (ret, p, ps') = Spec.get ps in (ret, p) ∷ spec_run size ps' cs

-- Every packet written is one that the protocol allows.
abbrev pub ArePut : List Call → Type 0
ArePut [] = Unit
ArePut (put p n ∷ cs) = IsPacket (bytes p 0 n) × ArePut cs
ArePut (get ∷ cs) = ArePut cs

-- No packet brings the queue to `size` bytes exactly.
abbrev pub NeverFills : ℕ → Packets → List Call → Type 0
NeverFills size ps [] = Unit
NeverFills size ps (put p n ∷ cs) =
    (held ps + length (bytes p 0 n) ≢ size) × NeverFills size (Spec.put size ps (bytes p 0 n)).1 cs
NeverFills size ps (get ∷ cs) = NeverFills size (Spec.get ps).2 cs

used-held : (size : ℕ) (q : IfaceQueue) (ps : Packets) → Holds size q ps → used size q ≡ held ps
used-held size q ps h = sym (length-bytes _ 0 (used size q)) ∙ ap length h.filled

put_refines :
    (size : ℕ) (q : IfaceQueue) (p : Buffer) (n : ℕ) (ps : Packets)
    → Holds size q ps
    → IsPacket (bytes p 0 n)
    → held ps + length (bytes p 0 n) ≢ size
    → let (ret, q') = queue_write size q p n in
      let (ret', ps') = Spec.put size ps (bytes p 0 n) in (ret ≡ ret') × Holds size q' ps'
unfolding Spec.put
put_refines size q p n ps h is more = elim (Bool-cases (ltb size (held ps + length packet))) [
  | inl full ↦ rw full (refused (ltb→lt _ _ full))
  | inr room ↦ rw room (kept (ltb→le _ _ room))
]
  where
    packet : List ℕ
    packet = bytes p 0 n

    sizes : (used size q ≡ held ps) × (length packet ≡ n)
    sizes = (used-held size q ps h, length-bytes p 0 n)

    refused :
        size < held ps + length packet
        → let (ret, q') = queue_write size q p n in (ret ≡ enospc) × Holds size q' ps
    refused full =
        let e : queue_write size q p n ≡ (enospc, q) =
          write_refused size q p n h.valid (omega (arith, sizes)) in
        rw e (refl, h)

    kept :
        held ps + length packet ≤ size
        → let (ret, q') = queue_write size q p n in (ret ≡ 0) × Holds size q' (ps ++ (packet ∷ []))
    kept le = write-Holds size q p n ps h is (omega (arith, sizes, more))

get_refines :
    (size : ℕ) (q : IfaceQueue) (out : Buffer) (ps : Packets)
    → Holds size q ps
    → let (ret, out', q') = queue_read size q out in
      let (ret', p, ps') = Spec.get ps in
      (ret ≡ ret') × (delivered ret out' ≡ p) × Holds size q' ps'
unfolding Spec.get
get_refines size q out [] h = rw empty (
  refl,
  refl,
  record {
    valid = record { ring = h.valid.ring; read_in = h.valid.read_in; write_in = h.valid.write_in };
    packets = tt;
    filled = h.filled;
  },
)
  where
    empty :
        queue_read size q out
        ≡ (enodata, out, record q { qhdr = record (q.qhdr) { rx_req = request q } })
    empty = read_empty size q out h.valid (used-held size q [] h)
get_refines size q out (p ∷ ps) h =
    let (ret, packet, rest) = read-Holds size q out p ps h in
    (ret, rw ret (ap (bytes (queue_read size q out).1 0) (stated packet) ∙ packet), rest)
  where
    stated :
        bytes (queue_read size q out).1 0 (length p) ≡ p
        → load_u32 (queue_read size q out).1 0 ≡ length p
    stated packet =
        sym (stated_length-bytes (queue_read size q out).1 (length p) (omega (arith, h.packets.0)))
        ∙ ap stated_length packet
        ∙ h.packets.0.length_first

-- No sequence of writes of valid packets and of reads, in which no packet brings what is held to the
-- size of the ring exactly, tells the ring from a first-in, first-out queue of that many bytes: the
-- same codes and the same packets, in the same order.
pub run_refines :
    (cs : List Call) (size : ℕ) (q : IfaceQueue) (out : Buffer) (ps : Packets)
    → Holds size q ps
    → ArePut cs
    → NeverFills size ps cs
    → run size q out cs ≡ spec_run size ps cs
unfolding run spec_run
run_refines [] size q out ps h are never = refl
run_refines (put p n ∷ cs) size q out ps h are never =
    let (ret, held') = put_refines size q p n ps h are.0 never.0 in
    ap₂ (λ (r : ℕ) (l : List Reply). (r, []) ∷ l) ret
      (run_refines cs size _ out _ held' are.1 never.1)
run_refines (get ∷ cs) size q out ps h are never =
    let (ret, packet, held') = get_refines size q out ps h in
    ap₂ ◌∷◌ (λ i. (ret i, packet i)) (run_refines cs size _ _ _ held' are never)
