-- ===== src/Core.antt =====
-- `struct iris_core` (iris_core.h), the fields that the modelled code reads or writes, and the
-- constants of its platform data. What the hardware holds for the driver (power votes, firmware in
-- the secure world, DMA memory) is kept beside them as ledgers.
pub mod Table
pub mod Vpu
pub mod Boot
pub mod Access
pub mod Collapse
use nabu_iris.Common.{ℕ, Bool, Option, List}
use nabu_iris.Instance.{Inst}
use nabu_iris.Queue.{IfaceQueue}

-- `enum iris_core_state`
pub data CoreState : Type 0 where
  deinit init error : CoreState

-- `struct iris_platform_data`
pub record Platform : Type 0 where
  pub legacy_vpu5 : Bool
  pub defer_vcodec_power : Bool
  pub max_session_count : ℕ
  pub max_core_mbpf : ℕ
  pub max_core_mbps : ℕ

-- References that are held on the power domains of the controller and of the codec, the
-- interconnect vote, and whether a reference was ever dropped that was not held, which the kernel
-- reports as a usage count underflow.
pub record Rails : Type 0 where
  pub controller : ℕ
  pub codec : ℕ
  pub icc_vote : Bool
  pub underflow : Bool

pub record Core : Type 0 where
  pub platform : Platform
  pub state : CoreState
  pub iface_q_table : Option ℕ  -- iface_q_table_daddr, where iface_q_table_vaddr is not NULL
  pub sfr : Option ℕ  -- sfr_daddr, where sfr_vaddr is not NULL
  pub command_queue : Option IfaceQueue  -- none where qhdr is NULL
  pub message_queue : Option IfaceQueue
  pub debug_queue : Option IfaceQueue
  pub instances : List Inst
  pub recovery_pending : Bool
  pub vpu_suspended : Bool
  pub vpu_powered : Bool
  pub pc_work_queued : Bool
  pub clk_freq : ℕ  -- power.clk_freq
  pub rails : Rails
  pub fw_running : Bool  -- authenticated by the secure world and not shut down
  pub dma_bytes : ℕ  -- held by dma_alloc_attrs for the queues and the SFR
  pub doorbells : ℕ  -- writes of iris_vpu_raise_interrupt
