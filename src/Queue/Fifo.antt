-- ===== src/Queue/Fifo.antt =====
-- The ring as a first-in, first-out queue of packets.
use nabu_iris.Common.{
  ℕ, suc, ◌+◌, ◌-◌, ◌*◌, ◌%◌, ◌≤◌, ◌<◌, List, [], ◌∷◌, ◌++◌, ◌≡◌, ◌∙◌, ap, sym, refl, arith, length,
  length-append, enodata,
}
use mathlib.Core.Path.{ap₂}
use mathlib.Core.List.{append_assoc, append-nil}
use nabu_iris.Queue.{IfaceQueue, Buffer, load_u32, queue_write, queue_read}
use nabu_iris.Queue.Bytes.{bytes, around, window, length-bytes}
use nabu_iris.Queue.Valid.{
  IsValid, used, contents, stated_length, IsPacket, ArePackets, concat, Holds,
}
use nabu_iris.Queue.Write.{write_indices, write_contents, write_full}
use nabu_iris.Queue.Read.{read_indices, read_contents, read_empty}

pub concat-append : (ps : List (List ℕ)) (p : List ℕ) → concat (ps ++ (p ∷ [])) ≡ concat ps ++ p
concat-append [] p = append-nil p
concat-append (r ∷ ps) p = ap (◌++◌ r) (concat-append ps p) ∙ sym (append_assoc r (concat ps) p)

ArePackets-append :
    (ps : List (List ℕ)) (p : List ℕ) → ArePackets ps → IsPacket p → ArePackets (ps ++ (p ∷ []))
ArePackets-append [] p hs h = (h, tt)
ArePackets-append (r ∷ ps) p hs h = (hs.0, ArePackets-append ps p hs.1 h)

-- Equal lists split at equal lengths have equal parts.
append_injective :
    (xs ys us vs : List ℕ) → length xs ≡ length ys → xs ++ us ≡ ys ++ vs → (xs ≡ ys) × (us ≡ vs)
append_injective [] [] us vs l e = (refl, e)
append_injective [] (y ∷ ys) us vs l e = absurd (omega arith)
append_injective (x ∷ xs) [] us vs l e = absurd (omega arith)
append_injective (x ∷ xs) (y ∷ ys) us vs l e =
    let rest : (xs ≡ ys) × (us ≡ vs) = append_injective xs ys us vs (omega arith) (cc) in
    (ap₂ ◌∷◌ (cc) rest.0, rest.1)

stated_length-append : (p r : List ℕ) → 4 ≤ length p → stated_length (p ++ r) ≡ stated_length p
stated_length-append (a ∷ b ∷ c ∷ d ∷ p) r h = refl
stated_length-append _ r h = absurd (omega arith)

pub stated_length-bytes :
    (f : Buffer) (n : ℕ)
    → 4 ≤ n
    → stated_length (bytes f 0 n) ≡ f 0 + 0x100 * f 1 + 0x10000 * f 2 + 0x1000000 * f 3
stated_length-bytes f (suc (suc (suc (suc n)))) h = refl
stated_length-bytes f _ h = absurd (omega arith)

-- A word that does not reach past the end is read in place.
load-around :
    (size : ℕ) (ring : Buffer) (r : ℕ)
    → r + 4 ≤ size
    → let f : Buffer = λ k. ring (around size r k) in
      load_u32 ring r ≡ f 0 + 0x100 * f 1 + 0x10000 * f 2 + 0x1000000 * f 3
load-around size ring r h = ground arith

-- A valid packet that leaves room behind it is taken, and stands behind those that the ring held.
pub write-Holds :
    (size : ℕ) (q : IfaceQueue) (packet : Buffer) (n : ℕ) (ps : List (List ℕ))
    → Holds size q ps
    → IsPacket (bytes packet 0 n)
    → used size q + n < size
    → let (ret, q') = queue_write size q packet n in
      (ret ≡ 0) × Holds size q' (ps ++ (bytes packet 0 n ∷ []))
write-Holds size q packet n ps h p room = (
  done.0,
  record {
    valid = done.3;
    packets = ArePackets-append ps (bytes packet 0 n) h.packets p;
    filled =
        write_contents size q packet n h.valid whole room
        ∙ ap (λ c. c ++ bytes packet 0 n) h.filled
        ∙ sym (concat-append ps (bytes packet 0 n));
  },
)
  where
    whole : n % 4 ≡ 0
    whole = omega (arith, p, length-bytes packet 0 n)

    done :
        let (ret, q') = queue_write size q packet n in
        (ret ≡ 0)
        × (q'.qhdr.read_idx ≡ q.qhdr.read_idx)
        × (used size q' ≡ used size q + n)
        × IsValid size q'
    done = write_indices size q packet n h.valid whole room

-- The oldest packet comes out of the ring whole, with code 0, and the others are still there.
pub read-Holds :
    (size : ℕ) (q : IfaceQueue) (packet : Buffer) (p : List ℕ) (ps : List (List ℕ))
    → Holds size q (p ∷ ps)
    → let (ret, packet', q') = queue_read size q packet in
      (ret ≡ 0) × (bytes packet' 0 (length p) ≡ p) × Holds size q' ps
read-Holds size q packet p ps h =
    (done.0, parts.0, record { valid = done.4; packets = h.packets.1; filled = parts.1 })
  where
    f : Buffer
    f k = q.ring (around size (q.qhdr.read_idx * 4) k)

    is_packet : IsPacket p
    is_packet = h.packets.0

    enough : length p ≤ used size q
    enough =
        omega
          (arith, ap length h.filled, length-bytes f 0 (used size q), length-append p (concat ps))

    stated : load_u32 q.ring (q.qhdr.read_idx * 4) ≡ length p
    stated =
        load-around size q.ring (q.qhdr.read_idx * 4) (omega arith)
        ∙ sym (stated_length-bytes f (used size q) (omega (arith, enough, is_packet)))
        ∙ ap stated_length h.filled
        ∙ stated_length-append p (concat ps) is_packet.headed
        ∙ is_packet.length_first

    done :
        let (ret, _, q') = queue_read size q packet in
        (ret ≡ 0)
        × (q'.qhdr.read_idx * 4 ≡ around size (q.qhdr.read_idx * 4) (length p))
        × (q'.qhdr.write_idx ≡ q.qhdr.write_idx)
        × (used size q' ≡ used size q - length p)
        × IsValid size q'
        × (q'.ring ≡ q.ring)
    done =
        read_indices size q packet h.valid (length p) stated is_packet.whole is_packet.headed
          is_packet.fits enough

    parts :
        (bytes (queue_read size q packet).1 0 (length p) ≡ p)
        × (contents size (queue_read size q packet).2 ≡ concat ps)
    parts = append_injective _ p _ (concat ps) (length-bytes _ 0 (length p)) (
        sym (
          read_contents size q packet h.valid (length p) stated is_packet.whole is_packet.headed
            is_packet.fits enough)
        ∙ h.filled)

-- A packet of whole words that fills the ring to the last byte is taken with code 0, and the ring
-- is then empty to the reader: it and every packet before it are lost.
pub exact_fill_lost :
    (size : ℕ) (q : IfaceQueue) (packet out : Buffer) (n : ℕ) (ps : List (List ℕ))
    → Holds size q ps
    → n % 4 ≡ 0
    → 0 < n
    → used size q + n ≡ size
    → let (ret, q') = queue_write size q packet n in
      (ret ≡ 0) × Holds size q' [] × ((queue_read size q' out).0 ≡ enodata)
exact_fill_lost size q packet out n ps h whole pos full =
    let (ret, none_left, valid) = write_full size q packet n h.valid whole pos full in
    (
      ret,
      record {
        valid = valid;
        packets = tt;
        filled = ap (window size q'.ring (q'.qhdr.read_idx * 4)) none_left;
      },
      ap (λ (t : ℕ × Buffer × IfaceQueue). t.0) (read_empty size q' out valid none_left),
    )
  where
    q' : IfaceQueue
    q' = (queue_write size q packet n).1
