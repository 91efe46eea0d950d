-- ===== src/Queue/Write.antt =====
-- iris_hfi_queue_write appends a packet to what the ring holds.
use nabu_iris.Common.{ℕ, ◌+◌, ◌*◌, ◌%◌, ◌<◌, ◌++◌, ◌≡◌, ◌∙◌, ap, arith, enospc}
use mathlib.Core.Path.{ap₂}
use native.Mathlib.Nat.{zero-add}
use nabu_iris.Queue.{IfaceQueue, Buffer, empty_space, queue_write}
use nabu_iris.Queue.Bytes.{bytes, around, window, bytes_congr, bytes-add}
use nabu_iris.Queue.Valid.{IsValid, used, contents}

module _ (size : ℕ) (q : IfaceQueue) (packet : Buffer) (n : ℕ) (v : IsValid size q) where
  empty_space-used : empty_space size q + used size q ≡ size
  unfolding empty_space
  empty_space-used = ground arith

  -- A packet that leaves at least one byte free is taken.
  module _ (whole : n % 4 ≡ 0) (room : used size q + n < size) where
    pub write_indices :
        let (ret, q') = queue_write size q packet n in
        (ret ≡ 0)
        × (q'.qhdr.read_idx ≡ q.qhdr.read_idx)
        × (used size q' ≡ used size q + n)
        × IsValid size q'
    unfolding queue_write
    write_indices = ground arith

    old_bytes :
        (k : ℕ)
        → k < used size q
        → (queue_write size q packet n).1.ring (around size (q.qhdr.read_idx * 4) k)
          ≡ q.ring (around size (q.qhdr.read_idx * 4) k)
    unfolding queue_write
    old_bytes k hk = ground arith

    new_bytes :
        (i : ℕ)
        → i < n
        → (queue_write size q packet n).1.ring (around size (q.qhdr.read_idx * 4) (used size q + i))
          ≡ packet i
    unfolding queue_write
    new_bytes i hi = ground arith

    -- What the ring holds is extended by the packet's bytes.
    pub write_contents :
        contents size (queue_write size q packet n).1 ≡ contents size q ++ bytes packet 0 n
    write_contents =
        ap₂ (window size q'.ring) (ap (λ r. r * 4) read_same) used_more
        ∙ bytes-add ring' 0 (used size q) n
        ∙ ap₂ ◌++◌ old new
      where
        q' : IfaceQueue
        q' = (queue_write size q packet n).1

        read_same : q'.qhdr.read_idx ≡ q.qhdr.read_idx
        read_same = write_indices.1

        used_more : used size q' ≡ used size q + n
        used_more = write_indices.2

        ring' : Buffer
        ring' k = q'.ring (around size (q.qhdr.read_idx * 4) k)

        old : bytes ring' 0 (used size q) ≡ contents size q
        old = bytes_congr ring' _ 0 0 (used size q) (λ i hi. rw zero-add (old_bytes i hi))

        new : bytes ring' (0 + used size q) n ≡ bytes packet 0 n
        new =
            rw zero-add
              (bytes_congr ring' packet (used size q) 0 n (λ i hi. rw zero-add (new_bytes i hi)))

  -- A packet that is longer than the free space is refused, and nothing is changed.
  pub write_refused : size < used size q + n → queue_write size q packet n ≡ (enospc, q)
  unfolding queue_write
  write_refused full = ground arith

  -- A packet that takes the last free byte moves the writer onto the reader.
  pub write_full :
      n % 4 ≡ 0
      → 0 < n
      → used size q + n ≡ size
      → let (ret, q') = queue_write size q packet n in
        (ret ≡ 0) × (used size q' ≡ 0) × IsValid size q'
  unfolding queue_write
  write_full whole pos full = ground arith
