-- ===== src/Core/Table/Layout.antt =====
-- Where the shared memory puts the table and the rings, and that the rings start empty.
use nabu_iris.Common.{ℕ, ◌+◌, ◌*◌, ◌%◌, ◌≤◌, ◌<◌, true, [], ◌≡◌, arith, refl, none, some}
use nabu_iris.Queue.{ifaceq_queue_size}
use nabu_iris.Queue.Valid.{Holds}
use nabu_iris.Core.{Platform, Core}
use nabu_iris.Core.Table.{
  align, num_q, sfr_size, full_table_size, table_size, queue_used, queue_alloc_size, queue_offset,
  queue_init, queues_init, queues_deinit,
}

-- Each ring starts behind the table at a whole word and ends before the next one, and the last ends
-- within the memory that is allocated; no offset overflows a u32.
pub rings_apart :
    (p : Platform) (id : ℕ)
    → id < num_q
    → (table_size p ≤ queue_offset p id)
      × (queue_offset p id % 4 ≡ 0)
      × (queue_offset p id + ifaceq_queue_size ≤ queue_offset p (id + 1))
      × (queue_offset p id + ifaceq_queue_size ≤ queue_used p)
      × (queue_used p ≤ queue_alloc_size p)
      × (queue_alloc_size p < 0x100000000)
unfolding queue_offset queue_used queue_alloc_size
rings_apart p id h = ground arith

-- The size that iris_vpu_setup_ucregion_memory_map writes to UC_REGION_SIZE.
pub uc_region_size : ℕ
uc_region_size =
    align (sfr_size + align (full_table_size + ifaceq_queue_size * num_q) 4096) 0x100000

-- On VPU5 the region that the firmware is told of is the region that is allocated.
pub uc_region_allocated :
    (p : Platform) → p.legacy_vpu5 ≡ true → queue_alloc_size p ≡ uc_region_size
unfolding uc_region_size queue_alloc_size
uc_region_allocated p legacy = ground arith

-- A ring that was just set up is valid and holds no packet.
pub queue_init-Holds :
    (p : Platform) (daddr id : ℕ) → Holds ifaceq_queue_size (queue_init p daddr id) []
unfolding queue_init
queue_init-Holds p daddr id = record {
  valid = record {
    ring = record { whole = refl; small = omega arith; roomy = omega arith };
    read_in = omega arith;
    write_in = omega arith;
  };
  packets = tt;
  filled = refl;
}

-- What was allocated for the rings is given back by their teardown.
pub queues_init_deinit :
    (c : Core) (daddr sfr : ℕ)
    → let (ret, c') = queues_init c (some daddr) (some sfr) in
      (ret ≡ 0)
      × ((queues_deinit c').dma_bytes ≡ c.dma_bytes)
      × ((queues_deinit c').iface_q_table ≡ none)
      × ((queues_deinit c').command_queue ≡ none)
unfolding queues_init queues_deinit
queues_init_deinit c daddr sfr = ground arith
