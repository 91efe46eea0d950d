-- ===== src/Session/Stream.antt =====
-- iris_common.c: STREAMON and STREAMOFF of a plane, between the commands to the firmware and the
-- two state machines of the instance. The commands behind `hfi_ops`, the internal buffers and the
-- properties are answers; the release of internal buffers may wait with `inst->lock` dropped, and so
-- answers with what it leaves of the instance; a command that the generation of the firmware lacks is none. The power
-- scaling and the list of deferred buffers are left out.
pub mod Input
pub mod Output
use nabu_iris.Common.{
  ℕ, ◌+◌, Bool, true, false, not, ◌&&◌, ◌||◌, ◌==◌, if◌then◌else◌, Option, none, some, einval,
  bit_or,
}
use nabu_iris.Common.Bits.{has}
use nabu_iris.Instance.{Inst, Domain, InstState, Handle}
use nabu_iris.Instance.Flags.{
  first_ipsc, drc, drc_last, drain, drain_last, input_pause, output_pause,
}
use nabu_iris.State.{Plane, same_state, state_change_streamon}
use nabu_iris.SubState.{change_sub_state}

pub record StreamAnswers : Type 0 where
  pub start : ℕ
  pub pause : Option ℕ
  pub resume_drc : ℕ
  pub resume_drain : Option ℕ
  pub internal_buffers : Handle → ℕ × Handle  -- iris_alloc_and_queue_input_int_bufs
  pub stage : ℕ
  pub pipe : ℕ

abbrev pub answer_of : Option ℕ → ℕ
answer_of none = 0
answer_of (some ret) = ret

abbrev pub is_decoder : Domain → Bool
is_decoder Domain.decoder = true
is_decoder Domain.encoder = false

abbrev pub last_not_dequeued : Handle → Handle
last_not_dequeued h = record h { inst = record (h.inst) { last_buffer_dequeued = false } }

-- A source change or a drain that holds the input plane of a decoder back.
abbrev pub input_held : Inst → Bool
input_held inst =
    is_decoder inst.domain
    && (has inst.sub_state drc || (has inst.sub_state drain || has inst.sub_state first_ipsc))

-- The end of both functions: the state, then the flags.
unfoldable pub enter_streaming : Handle → Plane → ℕ → ℕ → ℕ × Handle
enter_streaming h plane clear set =
    let (ret, h') = state_change_streamon h plane in
    if not (ret == 0) then (ret, h') else change_sub_state (last_not_dequeued h') clear set

-- `iris_process_streamon_input` behind the flag that it clears.
unfoldable pub streamon_input_pause : Handle → StreamAnswers → ℕ × Handle
streamon_input_pause h a =
    let pausing = input_held h.inst && not (has h.inst.sub_state input_pause) in
    if pausing && not (answer_of a.pause == 0)
    then (answer_of a.pause, h)
    else enter_streaming h Plane.output_mplane 0 (if pausing then input_pause else 0)

unfoldable pub process_streamon_input : Handle → StreamAnswers → ℕ × Handle
process_streamon_input h a =
    let begun = record h { inst = record (h.inst) { streamoff_pending = false } } in
    if not (a.start == 0)
    then (a.start, begun)
    else if not (has h.inst.sub_state input_pause)
    then streamon_input_pause begun a
    else (let (ret, h') = change_sub_state begun input_pause 0 in
        if not (ret == 0) then (ret, h') else streamon_input_pause h' a)

-- The flags that a STREAMON of the capture plane clears, in the order of the code.
abbrev pub ended_flags : ℕ → ℕ
ended_flags sub =
    if has sub drc && has sub drc_last
    then bit_or drc drc_last
    else if has sub drain && has sub drain_last
    then bit_or drain drain_last
    else 0

abbrev pub resumes : Inst → Bool
resumes inst = same_state inst.state InstState.input_streaming && has inst.sub_state input_pause

-- `ended` is chosen before the internal buffers are made.
abbrev pub cleared_flags : ℕ → Inst → ℕ
cleared_flags ended inst =
    let resumed = if resumes inst then bit_or ended input_pause else ended in
    let found = if has inst.sub_state first_ipsc then bit_or resumed first_ipsc else resumed in
    if has inst.sub_state output_pause then bit_or found output_pause else found

-- What a decoder with its input paused sends first.
unfoldable pub prepare_input : Handle → StreamAnswers → ℕ × Handle
prepare_input h a =
    if is_decoder h.inst.domain && has h.inst.sub_state input_pause
    then (let (ret, h') = a.internal_buffers h in
        if not (ret == 0)
        then (ret, h')
        else if not (a.stage == 0)
        then (a.stage, h')
        else (a.pipe, h'))
    else (0, h)

abbrev pub drain_ended : ℕ → Bool
drain_ended sub = has sub drain && has sub drain_last

abbrev pub resume_input : Bool → Inst → StreamAnswers → ℕ
resume_input drained inst a =
    if resumes inst then (if drained then answer_of a.resume_drain else a.resume_drc) else 0

-- Behind the internal buffers.
unfoldable pub start_output : Bool → ℕ → Handle → StreamAnswers → ℕ × Handle
start_output drained ended h a =
    if not (resume_input drained h.inst a == 0)
    then (resume_input drained h.inst a, h)
    else if not (a.start == 0)
    then (a.start, h)
    else enter_streaming h Plane.capture_mplane (cleared_flags ended h.inst) 0

unfoldable pub process_streamon_output : Handle → StreamAnswers → ℕ × Handle
process_streamon_output h a =
    let (ret, h') = prepare_input h a in
    if not (ret == 0)
    then (ret, h')
    else start_output (drain_ended h.inst.sub_state) (ended_flags h.inst.sub_state) h' a
