-- ===== src/Queue/Read.antt =====
-- iris_hfi_queue_read takes the oldest packet out of the ring.
use nabu_iris.Common.{
  ℕ, ◌+◌, ◌-◌, ◌*◌, ◌%◌, ◌≤◌, ◌<◌, ◌++◌, ◌≡◌, ◌∙◌, ap, sym, arith, if◌then◌else◌, ◌==◌, ltb, u32,
  le→leb, Bool-cases, inl, inr, enodata,
}
use mathlib.Core.Path.{ap₂}
use native.Mathlib.Nat.{zero-add}
use nabu_iris.Queue.{
  IfaceQueue, Buffer, load_u32, core_pkt_size, queue_read, take_packet, msgq_id, memcpy, read_pos,
}
use nabu_iris.Queue.Bytes.{bytes, around, window, bytes_congr, bytes-add}
use nabu_iris.Queue.Valid.{IsValid, used, contents, used-lt}

-- What a read answers to the firmware: the message queue asks for an interrupt.
abbrev pub request : IfaceQueue → ℕ
request q = if q.qhdr.queue_type == msgq_id then 1 else 0

around-around :
    (size r n k : ℕ)
    → r < size
    → n + k < size
    → around size (around size r n) k ≡ around size r (n + k)
around-around size r n k hr hk = ground arith

-- A packet of `n` bytes copied out of the ring from offset `r` on, in one piece or in two.
abbrev copied : ℕ → Buffer → ℕ → ℕ → Buffer → Buffer
copied size ring r n packet =
    if ltb (r + n) size
    then memcpy packet 0 ring r n
    else memcpy (memcpy packet 0 ring r (n - (r + n - size))) (n - (r + n - size)) ring 0
        (r + n - size)

copied_bytes :
    (size : ℕ) (ring : Buffer) (r n : ℕ) (packet : Buffer) (i : ℕ)
    → r < size
    → n ≤ size
    → i < n
    → copied size ring r n packet i ≡ ring (around size r i)
copied_bytes size ring r n packet i hr hn hi = ground arith

take_packet-copied :
    (size : ℕ) (q : IfaceQueue) (packet : Buffer) (n req r : ℕ)
    → read_pos q ≡ r
    → u32 (r + n) ≡ r + n
    → n ≤ core_pkt_size
    → (take_packet size q packet n req).1 ≡ copied size q.ring r n packet
take_packet-copied size q packet n req r e w fits = elim (Bool-cases (ltb (r + n) size)) [
  | inl t ↦ rw (e, w, le→leb n core_pkt_size fits, t)
  | inr t ↦ rw (e, w, le→leb n core_pkt_size fits, t)
]

module _ (size : ℕ) (q : IfaceQueue) (packet : Buffer) (v : IsValid size q) where
  -- The packet at the reader's position: its length in bytes is in its first word.
  module _ (n : ℕ) (stated : load_u32 q.ring (q.qhdr.read_idx * 4) ≡ n) (whole : n % 4 ≡ 0)
      (headed : 4 ≤ n) (fits : n ≤ core_pkt_size) (there : n ≤ used size q) where
    -- None of the checks fires.
    read_passes : queue_read size q packet ≡ take_packet size q packet n (request q)
    unfolding queue_read
    read_passes = ground arith

    pub read_indices :
        let (ret, _, q') = queue_read size q packet in
        (ret ≡ 0)
        × (q'.qhdr.read_idx * 4 ≡ around size (q.qhdr.read_idx * 4) n)
        × (q'.qhdr.write_idx ≡ q.qhdr.write_idx)
        × (used size q' ≡ used size q - n)
        × IsValid size q'
        × (q'.ring ≡ q.ring)
    read_indices = rw read_passes (ground arith)

    read_bytes :
        (i : ℕ)
        → i < n
        → (queue_read size q packet).1 i ≡ q.ring (around size (q.qhdr.read_idx * 4) i)
    read_bytes i hi =
        ap (λ (t : ℕ × Buffer × IfaceQueue). t.1 i) read_passes
        ∙ ap (λ (b : Buffer). b i)
            (take_packet-copied size q packet n (request q) r (omega arith) (omega arith) fits)
        ∙ copied_bytes size q.ring r n packet i (omega arith) (omega arith) hi
      where
        r : ℕ
        r = q.qhdr.read_idx * 4

    -- The packet buffer starts with the first `n` bytes that the ring held, and the ring then holds
    -- the rest.
    pub read_contents :
        let (_, packet', q') = queue_read size q packet in
        contents size q ≡ bytes packet' 0 n ++ contents size q'
    read_contents =
        ap (bytes f 0) {x = used size q} {y = n + (used size q - n)} (omega arith)
        ∙ bytes-add f 0 n (used size q - n)
        ∙ ap₂ ◌++◌ first (rest ∙ sym left)
      where
        r : ℕ
        r = q.qhdr.read_idx * 4

        q' : IfaceQueue
        q' = (queue_read size q packet).2

        f : Buffer
        f k = q.ring (around size r k)

        first : bytes f 0 n ≡ bytes (queue_read size q packet).1 0 n
        first = bytes_congr f _ 0 0 n (λ i hi. rw zero-add (sym (read_bytes i hi)))

        rest :
            bytes f (0 + n) (used size q - n)
            ≡ window size q.ring (around size r n) (used size q - n)
        rest = rw zero-add (
            bytes_congr f _ n 0 (used size q - n) (λ i hi. rw zero-add (
              ap q.ring
                (sym (around-around size r n i (omega arith) (omega (arith, used-lt size q v)))))))

        left : contents size q' ≡ window size q.ring (around size r n) (used size q - n)
        left =
            ap (λ (b : Buffer). window size b (q'.qhdr.read_idx * 4) (used size q')) read_indices.5
            ∙ ap₂ (window size q.ring) read_indices.1 read_indices.3

  -- A ring with nothing in it is reported, and nothing but the reader's request changes.
  pub read_empty :
      used size q ≡ 0
      → queue_read size q packet
        ≡ (enodata, packet, record q { qhdr = record (q.qhdr) { rx_req = request q } })
  unfolding queue_read
  read_empty e = ground arith
