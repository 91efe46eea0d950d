-- ===== src/Coding/Unchanged.antt =====
-- START and STOP of a client leave the state of an instance as it is.
use nabu_iris.Common.{
  ℕ, Bool, true, false, ◌||◌, bit_or, ebusy, ◌≡◌, inl, inr, arith, refl, Bool-cases,
}
use nabu_iris.Common.Bits.{has, has-bit_or}
use nabu_iris.Instance.{InstState, Handle}
use nabu_iris.Instance.Flags.{drc, drc_last, drain, drain_last}
use nabu_iris.SubState.{
  Command, dec_start, enc_start, dec_stop, enc_stop, other, drc_pending, drain_pending, allow_cmd,
  change_sub_state,
}
use nabu_iris.Session.Stream.{answer_of, last_not_dequeued}
use nabu_iris.Coding.Commands.{
  CommandAnswers, resume_code, resumed_flags, dec_resume, start_pending, vdec_start_cmd,
  vdec_stop_cmd, enc_resume, venc_start_cmd, venc_stop_cmd, dec_cmd, enc_cmd,
}

-- A change of the flags keeps the state.
change_sub_state_state :
    (h : Handle) (clear set : ℕ) → (change_sub_state h clear set).1.inst.state ≡ h.inst.state
unfolding change_sub_state
change_sub_state_state h clear set = ground arith

module _ (h : Handle) (a : CommandAnswers) where
  dec_resume_state : (ended code : ℕ) → (dec_resume h a ended code).1.inst.state ≡ h.inst.state
  unfolding dec_resume
  dec_resume_state ended code =
      ground (arith, change_sub_state_state h (resumed_flags h.inst.sub_state ended) 0)

  enc_resume_state : (enc_resume h a).1.inst.state ≡ h.inst.state
  unfolding enc_resume
  enc_resume_state = ground (
    arith,
    change_sub_state_state (last_not_dequeued h)
        (resumed_flags h.inst.sub_state (bit_or drain drain_last)) 0,
  )

  vdec_start_state :
      drc_pending h.inst.sub_state || drain_pending h.inst.sub_state ≡ true
      → h.inst.flush_responses_pending ≡ 0
      → (vdec_start_cmd h a).1.inst.state ≡ h.inst.state
  unfolding vdec_start_cmd start_pending
  vdec_start_state p still = ground (
    arith,
    dec_resume_state (bit_or drc drc_last)
        (resume_code h.inst.sub_state a.resume_drc_input a.resume_drc_output),
    dec_resume_state (bit_or drain drain_last) (
        resume_code h.inst.sub_state (answer_of a.resume_drain_input)
          (answer_of a.resume_drain_output)),
    p,
  )

  venc_start_state :
      drain_pending h.inst.sub_state ≡ true → (venc_start_cmd h a).1.inst.state ≡ h.inst.state
  unfolding venc_start_cmd
  venc_start_state p = ground (arith, enc_resume_state, p)

  stop_state : (vdec_stop_cmd h a).1.inst.state ≡ h.inst.state
  unfolding vdec_stop_cmd
  stop_state = ground (arith, change_sub_state_state h 0 drain)

  pub admitted_start :
      (src dst : Bool)
      → allow_cmd h src dst dec_start ≡ true
      → drc_pending h.inst.sub_state || drain_pending h.inst.sub_state ≡ true
  unfolding allow_cmd
  admitted_start src dst ok = ground arith

-- No START and no STOP of a client changes the state of a decoder that waits for no response to a
-- flush: a START that `iris_allow_cmd` lets through does not reach the branch that sets ERROR.
pub dec_cmd_state :
    (h : Handle) (src dst : Bool) (cmd : Command) (a : CommandAnswers)
    → h.inst.flush_responses_pending ≡ 0
    → (dec_cmd h src dst cmd a).1.inst.state ≡ h.inst.state
unfolding dec_cmd
dec_cmd_state h src dst dec_start a still = elim (Bool-cases (allow_cmd h src dst dec_start)) [
  | inl ok ↦ ground (arith, ok, vdec_start_state h a (admitted_start h a src dst ok) still)
  | inr refused ↦ ground (arith, refused)
]
dec_cmd_state h src dst dec_stop a still = ground (arith, stop_state h a)
dec_cmd_state h src dst enc_start a still = refl
dec_cmd_state h src dst enc_stop a still = refl
dec_cmd_state h src dst other a still = refl

-- The same for an encoder, whose flags have no source change.
pub enc_cmd_state :
    (h : Handle) (src dst : Bool) (cmd : Command) (a : CommandAnswers)
    → has h.inst.sub_state drc ≡ false
    → (enc_cmd h src dst cmd a).1.inst.state ≡ h.inst.state
unfolding enc_cmd venc_stop_cmd
enc_cmd_state h src dst enc_start a none = elim (Bool-cases (drain_pending h.inst.sub_state)) [
  | inl p ↦ ground (arith, venc_start_state h a p)
  | inr q ↦ unfold allow_cmd drc_pending in ground (arith, q, none)
]
enc_cmd_state h src dst enc_stop a none = ground (arith, change_sub_state_state h 0 drain)
enc_cmd_state h src dst dec_start a none = refl
enc_cmd_state h src dst dec_stop a none = refl
enc_cmd_state h src dst other a none = refl

-- The code of a START of a decoder that streams with no source change and no drain is EBUSY.
pub dec_start_running :
    (h : Handle) (src dst : Bool) (a : CommandAnswers)
    → h.inst.state ≡ InstState.streaming
    → has h.inst.sub_state (bit_or drc drain) ≡ false
    → dec_cmd h src dst dec_start a ≡ (ebusy, h)
unfolding dec_cmd allow_cmd
dec_start_running h src dst a s f = ground (arith, has-bit_or h.inst.sub_state drc drain)
