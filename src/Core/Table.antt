-- ===== src/Core/Table.antt =====
-- iris_hfi_queue.c: the memory that the three rings share with the firmware, from its allocation to
-- its release.
pub mod Layout
use nabu_iris.Common.{ℕ, ◌+◌, ◌-◌, ◌*◌, ◌/◌, if◌then◌else◌, Option, none, some, ◌==◌, u32, enomem}
use nabu_iris.Queue.{QueueHeader, IfaceQueue, ifaceq_queue_size, cmdq_id, msgq_id, dbgq_id}
use nabu_iris.Core.{Platform, Core}

-- ALIGN(x, a) of the kernel, for `a` a power of two.
abbrev pub align : ℕ → ℕ → ℕ
align x a = (x + a - 1) / a * a

-- IFACEQ_NUMQ
abbrev pub num_q : ℕ
num_q = 3

-- SFR_SIZE
abbrev pub sfr_size : ℕ
sfr_size = 4096

-- sizeof(struct iris_hfi_queue_header): thirteen u32 and two u16.
abbrev pub header_size : ℕ
header_size = 13 * 4 + 2 * 2

-- sizeof(struct iris_hfi_legacy_queue_table_header)
abbrev pub legacy_table_size : ℕ
legacy_table_size = 6 * 4 + num_q * header_size

-- sizeof(struct iris_hfi_queue_table_header): a pointer and a name of 256 bytes more.
abbrev pub full_table_size : ℕ
full_table_size = 6 * 4 + 8 + 256 + num_q * header_size

unfoldable pub table_size : Platform → ℕ
table_size p = if p.legacy_vpu5 then legacy_table_size else full_table_size

-- `queue_used`: the table and the three rings.
unfoldable pub queue_used : Platform → ℕ
unfolding table_size
queue_used p = align (table_size p + ifaceq_queue_size * num_q) 4096

unfoldable pub queue_alloc_size : Platform → ℕ
unfolding queue_used
queue_alloc_size p =
    if p.legacy_vpu5 then align (sfr_size + queue_used p) 0x100000 else queue_used p

-- Where ring `id` begins in the table's memory.
unfoldable pub queue_offset : Platform → ℕ → ℕ
unfolding table_size
queue_offset p id = table_size p + id * ifaceq_queue_size

unfoldable pub queue_set_header : ℕ → ℕ → QueueHeader
queue_set_header id device_addr = record {
  status = 1;
  start_addr = u32 device_addr;
  queue_type = id;
  header_type = 0x0101;
  q_size = ifaceq_queue_size / 4;
  pkt_size = 0;
  pkt_drop_cnt = 0;
  rx_wm = 1;
  tx_wm = 1;
  rx_req = if id == dbgq_id then 0 else 1;
  tx_req = 0;
  rx_irq_status = 0;
  tx_irq_status = 0;
  read_idx = 0;
  write_idx = 0;
}

-- The table's memory was cleared before.
unfoldable pub queue_init : Platform → ℕ → ℕ → IfaceQueue
unfolding queue_set_header queue_offset
queue_init p daddr id = record {
  qhdr = queue_set_header id (daddr + queue_offset p id);
  device_addr = daddr + queue_offset p id;
  ring = λ i. 0;
}

-- The two answers are those of `dma_alloc_attrs`: the device address, or none.
unfoldable pub queues_init : Core → Option ℕ → Option ℕ → ℕ × Core
unfolding queue_init queue_alloc_size
queues_init c table_answer sfr_answer = elim table_answer [
  | none ↦ (enomem, record c { iface_q_table = none })
  | some daddr ↦ elim sfr_answer [
    | none ↦ (enomem, record c { iface_q_table = some daddr; sfr = none })
    | some sfr_daddr ↦ (
      0,
      record c {
        iface_q_table = some daddr;
        sfr = some sfr_daddr;
        command_queue = some (queue_init c.platform daddr cmdq_id);
        message_queue = some (queue_init c.platform daddr msgq_id);
        debug_queue = some (queue_init c.platform daddr dbgq_id);
        dma_bytes = c.dma_bytes + queue_alloc_size c.platform + sfr_size;
      },
    )
  ]
]

unfoldable pub queues_deinit : Core → Core
unfolding queue_alloc_size
queues_deinit c = elim c.iface_q_table [
  | none ↦ c
  | some daddr ↦ record c {
    command_queue = none;
    message_queue = none;
    debug_queue = none;
    sfr = none;
    iface_q_table = none;
    dma_bytes = c.dma_bytes - sfr_size - queue_alloc_size c.platform;
  }
]
