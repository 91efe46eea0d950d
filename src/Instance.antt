-- ===== src/Instance.antt =====
-- `struct iris_inst` (iris_instance.h), the fields that the modelled code reads or writes, and the
-- instance states (iris_state.h).
pub mod Flags
use nabu_iris.Common.{ℕ, Bool}

-- `enum iris_inst_state`
pub data InstState : Type 0 where
  deinit init input_streaming output_streaming streaming error : InstState

-- `enum domain_type`
pub data Domain : Type 0 where
  encoder decoder : Domain

pub record Inst : Type 0 where
  pub session_id : ℕ
  pub domain : Domain
  pub src_width : ℕ  -- fmt_src->fmt.pix_mp.width
  pub src_height : ℕ  -- fmt_src->fmt.pix_mp.height
  pub crop_width : ℕ
  pub crop_height : ℕ
  pub state : InstState
  pub sub_state : ℕ
  pub hfi_session_opened : Bool
  pub hfi_core_id : ℕ
  pub core_load_reserved : Bool
  pub core_load_rejected : Bool
  pub admission_frame_rate : ℕ
  pub max_input_data_size : ℕ
  pub min_freq : ℕ  -- power.min_freq
  pub icc_bw : ℕ  -- power.icc_bw
  pub frame_rate : ℕ
  pub operating_rate : ℕ
  pub streamoff_pending : Bool
  pub flush_responses_pending : ℕ
  pub last_buffer_dequeued : Bool

-- What the functions of iris_state.c reach through `inst`: the instance, and the flag of its core
-- that `iris_request_core_recovery` raises.
pub record Handle : Type 0 where
  pub inst : Inst
  pub recovery_pending : Bool
