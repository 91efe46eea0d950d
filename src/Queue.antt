-- ===== src/Queue.antt =====
-- iris_hfi_queue.c: one ring of bytes shared with the firmware, with the header that both sides
-- read and write. A buffer is a function from offsets to bytes, so an access out of range is seen;
-- a `u32` load is little-endian, as on arm64. The ring's size IFACEQ_QUEUE_SIZE is the parameter
-- `size`. Barriers order the firmware's view only and have no counterpart.
pub mod Bytes
pub mod Bounds
pub mod Valid
pub mod Write
pub mod Read
pub mod Fifo
pub mod Spec
pub mod Runs
use nabu_iris.Common.{
  ℕ, ◌+◌, ◌-◌, ◌*◌, ◌/◌, ◌&&◌, ◌==◌, ltb, leb, if◌then◌else◌, u32, sub_u32, enospc, einval, enodata,
  ebadmsg,
}

-- `struct iris_hfi_queue_header`
pub record QueueHeader : Type 0 where
  pub status : ℕ
  pub start_addr : ℕ
  pub queue_type : ℕ
  pub header_type : ℕ
  pub q_size : ℕ
  pub pkt_size : ℕ
  pub pkt_drop_cnt : ℕ
  pub rx_wm : ℕ
  pub tx_wm : ℕ
  pub rx_req : ℕ
  pub tx_req : ℕ
  pub rx_irq_status : ℕ
  pub tx_irq_status : ℕ
  pub read_idx : ℕ
  pub write_idx : ℕ

-- A buffer in memory: the byte at each offset from its start.
abbrev pub Buffer : Type 0
Buffer = ℕ → ℕ

-- `struct iris_iface_q_info`, with the memory that `qhdr` and `kernel_vaddr` point to.
pub record IfaceQueue : Type 0 where
  pub qhdr : QueueHeader
  pub device_addr : ℕ
  pub ring : Buffer

-- `memcpy(dst + to, src + from, n)`
abbrev pub memcpy : Buffer → ℕ → Buffer → ℕ → ℕ → Buffer
memcpy dst to src from n i = if leb to i && ltb i (to + n) then src (from + (i - to)) else dst i

-- A `u32` load at an offset.
abbrev pub load_u32 : Buffer → ℕ → ℕ
load_u32 b off = b off + 0x100 * b (off + 1) + 0x10000 * b (off + 2) + 0x1000000 * b (off + 3)

-- IFACEQ_CORE_PKT_SIZE, the size of `core->response_packet`
abbrev pub core_pkt_size : ℕ
core_pkt_size = 1024 * 4

-- `enum iris_iface_queue`
abbrev pub cmdq_id : ℕ
cmdq_id = 0

abbrev pub msgq_id : ℕ
msgq_id = 1

abbrev pub dbgq_id : ℕ
dbgq_id = 2

-- IFACEQ_QUEUE_SIZE
abbrev pub ifaceq_queue_size : ℕ
ifaceq_queue_size = 1024 * 50 * 16

-- `queue->write_idx * sizeof(u32)` and `queue->read_idx * sizeof(u32)`
abbrev pub write_pos : IfaceQueue → ℕ
write_pos q = u32 (q.qhdr.write_idx * 4)

abbrev pub read_pos : IfaceQueue → ℕ
read_pos q = u32 (q.qhdr.read_idx * 4)

module _ (size : ℕ) where
  unfoldable pub empty_space : IfaceQueue → ℕ
  empty_space q =
      if ltb (write_pos q) (read_pos q)
      then read_pos q - write_pos q
      else sub_u32 size (write_pos q - read_pos q)

  -- The part of `iris_hfi_queue_write` behind its checks: the packet goes in one piece or in two.
  abbrev put_packet : IfaceQueue → Buffer → ℕ → IfaceQueue
  put_packet q packet packet_size =
      let new_write_idx = u32 (write_pos q + packet_size) in
      let residue = new_write_idx - size in
      if ltb new_write_idx size
      then record q {
        ring = memcpy q.ring (write_pos q) packet 0 packet_size;
        qhdr = record (q.qhdr) { write_idx = new_write_idx / 4 };
      }
      else record q {
        ring =
            memcpy (memcpy q.ring (write_pos q) packet 0 (packet_size - residue)) 0 packet
              (packet_size - residue) residue;
        qhdr = record (q.qhdr) { write_idx = residue / 4 };
      }

  -- `queue->tx_req = 0`
  abbrev clear_tx_req : IfaceQueue → IfaceQueue
  clear_tx_req q = record q { qhdr = record (q.qhdr) { tx_req = 0 } }

  unfoldable pub queue_write : IfaceQueue → Buffer → ℕ → ℕ × IfaceQueue
  unfolding empty_space
  queue_write q packet packet_size =
      if ltb (empty_space q) packet_size
      then (enospc, q)
      else if ltb size (write_pos q)
      then (einval, clear_tx_req q)
      else (0, put_packet (clear_tx_req q) packet packet_size)

  -- What the header says after a read: the reader's request, and how far it has read.
  abbrev advance : IfaceQueue → ℕ → ℕ → IfaceQueue
  advance q request pos = record q {
    qhdr = record (q.qhdr) { rx_req = request; read_idx = pos / 4 };
  }

  -- The part of `iris_hfi_queue_read` behind its checks.
  abbrev take_packet : IfaceQueue → Buffer → ℕ → ℕ → ℕ × Buffer × IfaceQueue
  take_packet q packet packet_size request =
      let new_read_idx = u32 (read_pos q + packet_size) in
      let residue = new_read_idx - size in
      if leb packet_size core_pkt_size
      then (if ltb new_read_idx size
          then (0, memcpy packet 0 q.ring (read_pos q) packet_size, advance q request new_read_idx)
          else (
            0,
            memcpy (memcpy packet 0 q.ring (read_pos q) (packet_size - residue))
                (packet_size - residue) q.ring 0 residue,
            advance q request residue,
          ))
      else (ebadmsg, packet, advance q request (write_pos q))

  -- The code, what `packet` holds afterwards, and the queue.
  unfoldable pub queue_read : IfaceQueue → Buffer → ℕ × Buffer × IfaceQueue
  queue_read q packet =
      let request : ℕ = if q.qhdr.queue_type == msgq_id then 1 else 0 in
      let packet_size = load_u32 q.ring (read_pos q) in
      if read_pos q == write_pos q
      then (enodata, packet, record q { qhdr = record (q.qhdr) { rx_req = request } })
      else if ltb (size - 4) (read_pos q)
      then (enodata, packet, q)
      else if packet_size == 0
      then (einval, packet, q)
      else take_packet q packet packet_size request
