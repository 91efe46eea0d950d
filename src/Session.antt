-- ===== src/Session.antt =====
-- iris_common.c and iris_utils.c: a session of the firmware from its admission to its end, beside
-- the other sessions of the core. `core->instances` is the list, and a `struct iris_inst *` is an
-- index into it, so that an instance that a loop meets and the one that it is called for are the
-- same. What the firmware answers to the commands of a session is a record, for the command
-- functions behind `hfi_ops`.
pub mod Counts
pub mod Admit
pub mod Resized
pub mod Events
pub mod Life
pub mod Close
pub mod Recovery
pub mod Failure
pub mod Heal
pub mod Stream
pub mod Stop
pub mod Files
pub mod Setup
use nabu_iris.Common.{
  ℕ, ◌+◌, ◌-◌, ◌*◌, ◌/◌, ◌%◌, ◌^◌, max, Bool, true, false, not, ◌&&◌, ◌||◌, ◌==◌, ltb, leb,
  if◌then◌else◌, Option, none, some, List, [], ◌∷◌, get_or, set, total, u32, u32_mod, div_round_up,
  eio, enomem, ebusy, einval, etimedout,
}
use nabu_iris.Instance.{Inst, Handle, Domain, InstState}
use nabu_iris.State.{change_state, same_state}
use nabu_iris.Core.{Core, Platform}
use nabu_iris.Core.Boot.{BootAnswers, core_recover}

-- NUM_MBS_PER_FRAME
unfoldable pub num_mbs_per_frame : ℕ → ℕ → ℕ
num_mbs_per_frame height width = u32 (u32 (height + 15) / 16 * (u32 (width + 15) / 16))

-- The bits of the `int` that `iris_get_mbpf` returns.
unfoldable pub get_mbpf : Inst → ℕ
get_mbpf inst =
    num_mbs_per_frame (max inst.src_height inst.crop_height) (max inst.src_width inst.crop_width)

-- An `int` converted to u64, with its sign.
abbrev pub int_to_u64 : ℕ → ℕ
int_to_u64 n = if ltb n (2 ^ 31) then n else n + (2 ^ 64 - 2 ^ 32)

abbrev pub u64 : ℕ → ℕ
u64 n = n % 2 ^ 64

-- IRIS1_4K_MBPF and IRIS1_MAX_4K_SESSIONS
abbrev pub iris1_4k_mbpf : ℕ
iris1_4k_mbpf = div_round_up 2160 16 * div_round_up 3840 16

abbrev pub iris1_max_4k_sessions : ℕ
iris1_max_4k_sessions = 3

-- `get_mbpf inst >= IRIS1_4K_MBPF`, on `int`
abbrev pub is_large : Inst → Bool
is_large inst = ltb (get_mbpf inst) (2 ^ 31) && leb iris1_4k_mbpf (get_mbpf inst)

-- What an index past the list names: never a session.
abbrev pub no_inst : Inst
no_inst = record {
  session_id = 0;
  domain = Domain.decoder;
  src_width = 0;
  src_height = 0;
  crop_width = 0;
  crop_height = 0;
  state = InstState.deinit;
  sub_state = 0;
  hfi_session_opened = false;
  hfi_core_id = 0;
  core_load_reserved = false;
  core_load_rejected = false;
  admission_frame_rate = 0;
  max_input_data_size = 0;
  min_freq = 0;
  icc_bw = 0;
  frame_rate = 0;
  operating_rate = 0;
  streamoff_pending = false;
  flush_responses_pending = 0;
  last_buffer_dequeued = false;
}

abbrev pub instance_at : Core → ℕ → Inst
instance_at c i = get_or c.instances i no_inst

abbrev pub update : Core → ℕ → Inst → Core
update c i inst = record c { instances = set c.instances i inst }

abbrev pub request_core_recovery : Core → Core
request_core_recovery c = record c { recovery_pending = true }

-- `iris_inst_change_state` of an instance of the core.
unfoldable pub change_state_at : Core → ℕ → InstState → ℕ × Core
change_state_at c i s =
    let (ret, h) =
      change_state (record { inst = instance_at c i; recovery_pending = c.recovery_pending }) s in
    (ret, record (update c i h.inst) { recovery_pending = h.recovery_pending })

-- The sums over the list that the admission of a session takes.
abbrev pub opened : Inst → ℕ
opened inst = if inst.hfi_session_opened then 1 else 0

abbrev pub opened_mbpf : Inst → ℕ
opened_mbpf inst = if inst.hfi_session_opened then int_to_u64 (get_mbpf inst) else 0

abbrev pub reserved_mbps : Inst → ℕ
reserved_mbps inst =
    if inst.core_load_reserved
    then u64 (int_to_u64 (get_mbpf inst) * inst.admission_frame_rate)
    else 0

abbrev pub reserved_large : Inst → ℕ
reserved_large inst = if inst.core_load_reserved && is_large inst then 1 else 0

-- The first section of `iris_hfi_session_open` under `core->lock`.
unfoldable pub reserve_session : Core → ℕ → ℕ × Core
reserve_session c i =
    let inst = instance_at c i in
    if leb c.platform.max_session_count (total opened c.instances)
    then (ebusy, c)
    else if ltb c.platform.max_core_mbpf
        (u64 (total opened_mbpf c.instances + int_to_u64 (get_mbpf inst)))
    then (enomem, c)
    else (0, update c i (record inst { hfi_session_opened = true }))

-- The label `release_slot`, and the same section of `iris_hfi_session_close`.
unfoldable pub release_slot : Core → ℕ → Core
release_slot c i = update c i (record (instance_at c i) {
  hfi_session_opened = false;
  hfi_core_id = 0;
  core_load_reserved = false;
  core_load_rejected = false;
  admission_frame_rate = 0;
})

unfoldable pub reserve_core_load : Core → ℕ → ℕ → ℕ × Core
reserve_core_load c i rate =
    let inst = instance_at c i in
    let frame_rate = max rate 1 in
    if inst.core_load_reserved
    then (0, c)
    else if ltb c.platform.max_core_mbps
        (u64 (total reserved_mbps c.instances + get_mbpf inst * frame_rate))
    then (enomem, c)
    else if c.platform.legacy_vpu5
        && (leb iris1_4k_mbpf (get_mbpf inst)
            && leb iris1_max_4k_sessions (total reserved_large c.instances))
    then (enomem, c)
    else (
      0,
      update c i (record inst { admission_frame_rate = frame_rate; core_load_reserved = true }),
    )

unfoldable pub release_core_load : Core → ℕ → Core
release_core_load c i =
    update c i (record (instance_at c i) { core_load_reserved = false; admission_frame_rate = 0 })

-- A pending recovery is run where no session is open: `b` is what the core's start is answered.
unfoldable pub run_pending_core_recovery : Core → BootAnswers → Core
run_pending_core_recovery c b =
    if not c.recovery_pending
    then c
    else if not (total opened c.instances == 0)
    then c
    else (core_recover (record c { recovery_pending = false }) b).1

-- The answer to SESSION_INIT: the code of `hfi_ops->session_open`, and what the instance is then.
pub record OpenAnswer : Type 0 where
  pub ret : ℕ
  pub session_id : ℕ
  pub failed : Bool  -- a handler put the instance in ERROR

abbrev pub after_open : Core → ℕ → OpenAnswer → Core
after_open c i a =
    let inst = record (instance_at c i) { session_id = a.session_id } in
    if a.failed then (change_state_at (update c i inst) i InstState.error).1 else update c i inst

-- `iris_hfi_session_open` behind its reservation.
unfoldable pub open_reserved : Core → ℕ → OpenAnswer → ℕ × Core
open_reserved c i a =
    let c' = after_open c i a in
    if not (a.ret == 0) || same_state (instance_at c' i).state InstState.error
    then (if a.ret == 0 then eio else a.ret, release_slot (request_core_recovery c') i)
    else (let (ret, c'') = change_state_at c' i InstState.init in
        if not (ret == 0) then (ret, release_slot (request_core_recovery c'') i) else (0, c''))

unfoldable pub hfi_session_open : Core → ℕ → BootAnswers → OpenAnswer → ℕ × Core
hfi_session_open c i b a =
    if (instance_at c i).hfi_session_opened
    then (0, c)
    else (let (ret, c') = reserve_session (run_pending_core_recovery c b) i in
        if not (ret == 0) then (ret, c') else open_reserved c' i a)

-- The answer to SESSION_END: the code of `hfi_ops->session_close`, and whether the wait for the
-- response timed out or ended with the instance in ERROR.
pub record CloseAnswer : Type 0 where
  pub ret : ℕ
  pub answered : Bool
  pub failed : Bool

-- `iris_hfi_session_close` up to its label `cleanup`.
unfoldable pub end_session : Core → ℕ → CloseAnswer → ℕ × Core
end_session c i a =
    let was_error = same_state (instance_at c i).state InstState.error in
    let c' = if a.failed then (change_state_at c i InstState.error).1 else c in
    if not (a.ret == 0)
    then (a.ret, c)
    else if not a.answered
    then (etimedout, (change_state_at c i InstState.error).1)
    else if not was_error && same_state (instance_at c' i).state InstState.error
    then (eio, c')
    else if same_state (instance_at c' i).state InstState.error
    then (0, c')
    else change_state_at c' i InstState.deinit

-- The part of `iris_unvote_power` that is kept in the instance.
abbrev pub cleared : Inst → Inst
cleared inst = record inst {
  sub_state = 0;
  streamoff_pending = false;
  flush_responses_pending = 0;
  last_buffer_dequeued = false;
  max_input_data_size = 0;
  min_freq = 0;
  icc_bw = 0;
}

unfoldable pub hfi_session_close : Core → ℕ → CloseAnswer → ℕ × Core
hfi_session_close c i a =
    if not (instance_at c i).hfi_session_opened
    then (0, release_core_load c i)
    else (let (ret, c') = end_session c i a in
        let freed = release_slot c' i in
        let closed = update freed i (cleared (instance_at freed i)) in
        (ret, if not (ret == 0) then request_core_recovery closed else closed))
