-- ===== src/Coding/Commands.antt =====
-- iris_vdec.c, iris_venc.c and iris_vidc.c: START and STOP of a client. The commands behind `hfi_ops`
-- and the queueing of buffers are answers; the wait for a flush drops `inst->lock`, and so answers
-- with what it leaves of the instance; a command that the generation of the firmware lacks is none. The scaling of the power, whose code is dropped, is left out.
use nabu_iris.Common.{
  ℕ, Bool, true, false, not, ◌&&◌, ◌==◌, if◌then◌else◌, Option, einval, ebusy, bit_or,
}
use nabu_iris.Common.Bits.{has}
use nabu_iris.Instance.{InstState, Handle}
use nabu_iris.Instance.Flags.{drc, drc_last, drain, drain_last, input_pause, output_pause}
use nabu_iris.State.{same_state, change_state}
use nabu_iris.SubState.{
  Command, dec_start, enc_start, dec_stop, enc_stop, drc_pending, drain_pending, allow_cmd,
  change_sub_state,
}
use nabu_iris.Session.Stream.{answer_of, last_not_dequeued}

pub record CommandAnswers : Type 0 where
  pub legacy_vpu5 : Bool
  pub capture_format_changed : Bool
  pub flush : Handle → ℕ × Handle  -- iris_wait_for_session_response
  pub resume_drc_input : ℕ
  pub resume_drc_output : ℕ
  pub resume_drain_input : Option ℕ
  pub resume_drain_output : Option ℕ
  pub queue_internal : ℕ
  pub queue_output : ℕ
  pub queue_input : ℕ
  pub drain : ℕ  -- session_drain

-- The first of the codes that is no success.
abbrev pub first_error : ℕ → ℕ → ℕ
first_error a b = if a == 0 then b else a

-- The planes that are paused are resumed, the input first.
abbrev pub resume_code : ℕ → ℕ → ℕ → ℕ
resume_code sub input output =
    first_error (if has sub input_pause then input else 0)
      (if has sub output_pause then output else 0)

-- `clear_sub_state`, from the flags of what ended.
abbrev pub resumed_flags : ℕ → ℕ → ℕ
resumed_flags sub ended =
    let input = if has sub input_pause then bit_or ended input_pause else ended in
    if has sub output_pause then bit_or input output_pause else input

-- What a decoder queues again, on VPU5.
abbrev pub requeue_code : Handle → CommandAnswers → ℕ
requeue_code h a =
    if a.legacy_vpu5 && same_state h.inst.state InstState.streaming
    then first_error (first_error a.queue_internal a.queue_output) a.queue_input
    else 0

-- The end of a START of a decoder, with what ended and the code of the resumes.
unfoldable pub dec_resume : Handle → CommandAnswers → ℕ → ℕ → ℕ × Handle
dec_resume h a ended code =
    if not (code == 0)
    then (code, h)
    else (let (ret, h') = change_sub_state h (resumed_flags h.inst.sub_state ended) 0 in
        if not (ret == 0) then (ret, h') else (requeue_code h' a, last_not_dequeued h'))

-- What a START ends.
unfoldable pub start_pending : Handle → CommandAnswers → ℕ × Handle
start_pending h a =
    if drc_pending h.inst.sub_state
    then dec_resume h a (bit_or drc drc_last)
        (resume_code h.inst.sub_state a.resume_drc_input a.resume_drc_output)
    else if drain_pending h.inst.sub_state
    then dec_resume h a (bit_or drain drain_last) (
        resume_code h.inst.sub_state (answer_of a.resume_drain_input)
          (answer_of a.resume_drain_output))
    else (ebusy, (change_state h InstState.error).1)

-- The wait for a flush that is pending, and then what the instance is left in.
unfoldable pub flushed_start : Handle → CommandAnswers → ℕ × Handle
flushed_start h a =
    let (ret, h') = a.flush h in if not (ret == 0) then (ret, h') else start_pending h' a

unfoldable pub vdec_start_cmd : Handle → CommandAnswers → ℕ × Handle
vdec_start_cmd h a =
    if a.capture_format_changed
    then (einval, h)
    else if same_state h.inst.state InstState.streaming
        && not (has h.inst.sub_state (bit_or drc drain))
    then (0, h)
    else if a.legacy_vpu5 && not (h.inst.flush_responses_pending == 0)
    then flushed_start h a
    else start_pending h a

unfoldable pub vdec_stop_cmd : Handle → CommandAnswers → ℕ × Handle
vdec_stop_cmd h a = if not (a.drain == 0) then (a.drain, h) else change_sub_state h 0 drain

-- With both the drain and its last buffer pending.
unfoldable pub enc_resume : Handle → CommandAnswers → ℕ × Handle
enc_resume h a =
    let code =
      resume_code h.inst.sub_state (answer_of a.resume_drain_input)
        (answer_of a.resume_drain_output) in
    if not (code == 0)
    then (code, h)
    else change_sub_state (last_not_dequeued h)
        (resumed_flags h.inst.sub_state (bit_or drain drain_last)) 0

unfoldable pub venc_start_cmd : Handle → CommandAnswers → ℕ × Handle
venc_start_cmd h a =
    if drain_pending h.inst.sub_state
    then enc_resume h a
    else (ebusy, (change_state h InstState.error).1)

unfoldable pub venc_stop_cmd : Handle → CommandAnswers → ℕ × Handle
venc_stop_cmd h a = if not (a.drain == 0) then (a.drain, h) else change_sub_state h 0 drain

abbrev pub run_dec : Command → Handle → CommandAnswers → ℕ × Handle
run_dec dec_start h a = vdec_start_cmd h a
run_dec dec_stop h a = vdec_stop_cmd h a
run_dec _ h a = (einval, h)

abbrev pub run_enc : Command → Handle → CommandAnswers → ℕ × Handle
run_enc enc_start h a = venc_start_cmd h a
run_enc enc_stop h a = venc_stop_cmd h a
run_enc _ h a = (einval, h)

abbrev pub is_dec : Command → Bool
is_dec dec_start = true
is_dec dec_stop = true
is_dec _ = false

abbrev pub is_enc : Command → Bool
is_enc enc_start = true
is_enc enc_stop = true
is_enc _ = false

-- The two flags are what `vb2_is_streaming` answers on the source and the destination queue.
unfoldable pub dec_cmd : Handle → Bool → Bool → Command → CommandAnswers → ℕ × Handle
dec_cmd h src_streaming dst_streaming cmd a =
    if not (is_dec cmd)
    then (einval, h)
    else if same_state h.inst.state InstState.deinit
    then (0, h)
    else if not (allow_cmd h src_streaming dst_streaming cmd)
    then (ebusy, h)
    else run_dec cmd h a

unfoldable pub enc_cmd : Handle → Bool → Bool → Command → CommandAnswers → ℕ × Handle
enc_cmd h src_streaming dst_streaming cmd a =
    if not (is_enc cmd)
    then (einval, h)
    else if same_state h.inst.state InstState.deinit
    then (0, h)
    else if not (allow_cmd h src_streaming dst_streaming cmd)
    then (ebusy, h)
    else run_enc cmd h a
