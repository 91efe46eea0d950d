-- ===== src/Queue/Bounds.antt =====
-- iris_hfi_queue_write and iris_hfi_queue_read stay inside their buffers, whatever the firmware has
-- written into the shared header and ring.
use nabu_iris.Common.{ℕ, ◌^◌, ◌≤◌, ◌≡◌, arith}
use nabu_iris.Queue.{IfaceQueue, Buffer, core_pkt_size, queue_write, queue_read}

-- A write to a ring of at most 2 ^ 30 bytes changes no byte beyond the ring, for any indices in
-- the shared header, if the packet is no longer than the ring.
pub write_in_bounds :
    (size : ℕ) (q : IfaceQueue) (packet : Buffer) (n i : ℕ)
    → size ≤ 2 ^ 30
    → n ≤ size
    → size ≤ i
    → (queue_write size q packet n).1.ring i ≡ q.ring i
unfolding queue_write
write_in_bounds size q packet n i hs hn hi = ground arith

-- A read of a ring of 4 to 2 ^ 30 bytes changes no byte of the packet buffer beyond
-- IFACEQ_CORE_PKT_SIZE, for any indices and any packet length that the firmware has put there.
pub read_in_bounds :
    (size : ℕ) (q : IfaceQueue) (packet : Buffer) (i : ℕ)
    → size ≤ 2 ^ 30
    → 4 ≤ size
    → core_pkt_size ≤ i
    → (queue_read size q packet).1 i ≡ packet i
unfolding queue_read
read_in_bounds size q packet i hs h4 hi = ground arith
