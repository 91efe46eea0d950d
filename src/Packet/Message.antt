-- ===== src/Packet/Message.antt =====
-- A message in memory as the packets that it holds.
use nabu_iris.Common.{
  true, ℕ, suc, ◌+◌, ◌-◌, ◌*◌, ◌/◌, ◌^◌, ◌≤◌, ◌<◌, ◌&&◌, ltb, leb, List, [], ◌∷◌, ◌++◌, ◌≡◌, ◌⊎◌,
  inl, refl, sym, ◌∙◌, ap, arith, length, length-append, get_or,
}
use mathlib.Core.Path.{ap₂}
use nabu_iris.Queue.Bytes.{bytes, bytes_congr, bytes-add}
use nabu_iris.Queue.Valid.{concat}
use nabu_iris.Queue.Fifo.{concat-append}
use nabu_iris.Packet.{Words, store, PacketSpec, packet_words, create_packet}

pub store_in :
    (mem : Words) (i : ℕ) (ws : List ℕ) (k : ℕ)
    → k < length ws
    → store mem i ws (i + k) ≡ get_or ws k 0
store_in mem i ws k h = rw (inside, back) refl
  where
    inside : (leb i (i + k) && ltb (i + k) (i + length ws)) ≡ true
    inside = ground arith

    back : i + k - i ≡ k
    back = omega arith

pub store_out :
    (mem : Words) (i : ℕ) (ws : List ℕ) (k : ℕ)
    → (k < i) ⊎ (i + length ws ≤ k)
    → store mem i ws k ≡ mem k
store_out mem i ws k h = ground arith

bytes-get_or : (ws : List ℕ) → bytes (λ k. get_or ws k 0) 0 (length ws) ≡ ws
bytes-get_or [] = refl
bytes-get_or (w ∷ ws) = ap (◌∷◌ w) (
    bytes_congr (λ k. get_or (w ∷ ws) k 0) (λ k. get_or ws k 0) 1 0 (length ws) shifted
    ∙ bytes-get_or ws)
  where
    shifted : (i : ℕ) → i < length ws → get_or (w ∷ ws) (1 + i) 0 ≡ get_or ws (0 + i) 0
    shifted i h =
        ap (λ (j : ℕ). get_or (w ∷ ws) j 0) {x = 1 + i} {y = suc i} (omega arith)
        ∙ ap (λ (j : ℕ). get_or ws j 0) {x = i} {y = 0 + i} (omega arith)

bytes-store : (mem : Words) (i : ℕ) (ws : List ℕ) → bytes (store mem i ws) i (length ws) ≡ ws
bytes-store mem i ws =
    bytes_congr (store mem i ws) (λ k. get_or ws k 0) i 0 (length ws)
      (λ k h.
        store_in mem i ws k h ∙ ap (λ (j : ℕ). get_or ws j 0) {x = k} {y = 0 + k} (omega arith))
    ∙ bytes-get_or ws

-- Each packet is headed by its length in bytes.
abbrev pub AreHeaded : List (List ℕ) → Type 0
AreHeaded [] = Unit
AreHeaded (p ∷ ps) = (8 ≤ length p) × (get_or p 0 0 ≡ 4 * length p) × AreHeaded ps

pub headed-append :
    (ps : List (List ℕ)) (p : List ℕ)
    → AreHeaded ps
    → 8 ≤ length p
    → get_or p 0 0 ≡ 4 * length p
    → AreHeaded (ps ++ (p ∷ []))
headed-append [] p hs l e = (l, e, tt)
headed-append (q ∷ ps) p hs l e = (hs.0, hs.1, headed-append ps p hs.2 l e)

pub headed_count : (ps : List (List ℕ)) → AreHeaded ps → 8 * length ps ≤ length (concat ps)
headed_count [] hs = omega arith
headed_count (p ∷ ps) hs = omega (arith, hs.0, headed_count ps hs.2, length-append p (concat ps))

-- The memory holds just these packets behind its header, in order, and the header counts them.
pub record IsMessage (mem : Words) (ps : List (List ℕ)) : Type 0 where
  pub counted : mem 7 ≡ length ps
  pub sized : mem 0 ≡ 4 * (8 + length (concat ps))
  pub filled : bytes mem 8 (length (concat ps)) ≡ concat ps
  pub headed : AreHeaded ps

pub length-packet_words :
    (p : PacketSpec) (id : ℕ) → length (packet_words p id) ≡ 8 + length p.payload
length-packet_words p id = omega arith

-- A packet that is created stands behind those that the message held, which stay as they are, and
-- the header counts it, as long as the size fits its field.
pub create_packet-IsMessage :
    (mem : Words) (ps : List (List ℕ)) (p : PacketSpec) (id : ℕ)
    → IsMessage mem ps
    → 4 * (16 + length (concat ps) + length p.payload) < 2 ^ 32
    → IsMessage (create_packet mem p id) (ps ++ (packet_words p id ∷ []))
unfolding create_packet
create_packet-IsMessage mem ps p id m room = record {
  counted = omega (
    arith,
    kept 7 (omega (arith, start)),
    m.counted,
    length-append ps (ws ∷ []),
    headed_count ps m.headed,
    room,
  );
  sized = omega (arith, kept 0 (omega (arith, start)), m.sized, grown, room);
  filled = ap (bytes m' 8) grown ∙ whole ∙ sym (concat-append ps ws);
  headed = headed-append ps ws m.headed (omega arith) (omega (arith, room));
}
  where
    ws : List ℕ
    ws = packet_words p id

    m' : Words
    m' = create_packet mem p id

    used : ℕ
    used = length (concat ps)

    start : mem 0 / 4 ≡ 8 + used
    start = omega (arith, m.sized)

    stored : Words
    stored = store mem (mem 0 / 4) ws

    kept : (k : ℕ) → k < mem 0 / 4 → stored k ≡ mem k
    kept k h = store_out mem (mem 0 / 4) ws k (inl h)

    grown : length (concat (ps ++ (ws ∷ []))) ≡ used + length ws
    grown = ap (λ (l : List ℕ). length l) (concat-append ps ws) ∙ length-append (concat ps) ws

    beyond : (k : ℕ) → 8 ≤ k → m' k ≡ stored k
    beyond k h = ground arith

    old : bytes m' 8 used ≡ concat ps
    old =
        bytes_congr m' mem 8 8 used
          (λ i h. beyond (8 + i) (omega arith) ∙ kept (8 + i) (omega (arith, start, h)))
        ∙ m.filled

    new : bytes m' (8 + used) (length ws) ≡ ws
    new =
        bytes_congr m' stored (8 + used) (8 + used) (length ws)
          (λ i h. beyond (8 + used + i) (omega arith))
        ∙ ap (λ (j : ℕ). bytes (store mem j ws) (8 + used) (length ws)) start
        ∙ bytes-store mem (8 + used) ws

    whole : bytes m' 8 (used + length ws) ≡ concat ps ++ ws
    whole = bytes-add m' 8 used (length ws) ∙ ap₂ ◌++◌ old new
