-- ===== src/Coding/Resumed.antt =====
-- What a START of a decoder leaves behind.
use nabu_iris.Common.{
  ℕ, Bool, true, false, not, ◌&&◌, ◌||◌, ◌==◌, if◌then◌else◌, bit_or, ◌≡◌, ◌≢◌, ◌⊎◌, inl, inr,
  arith, refl, Bool-cases, sym, ap, ◌∙◌,
}
use mathlib.Core.Path.{subst}
use nabu_iris.Common.Bits.{has, has-bit_or}
use nabu_iris.Instance.{InstState, Handle}
use nabu_iris.Instance.Flags.{drc, drc_last, drain, drain_last, input_pause, output_pause}
use nabu_iris.SubState.{dec_start, drc_pending, drain_pending, allow_cmd, change_sub_state}
use nabu_iris.SubState.Update.{change_sub_state_flags}
use nabu_iris.Session.Stream.{answer_of, last_not_dequeued}
use nabu_iris.Coding.Commands.{
  CommandAnswers, resume_code, resumed_flags, dec_resume, start_pending, flushed_start,
  vdec_start_cmd, dec_cmd,
}
use nabu_iris.Coding.Unchanged.{admitted_start}

-- What ended: a source change, or a drain.
abbrev Ended : ℕ → Type 0
Ended e = (e ≡ bit_or drc drc_last) ⊎ (e ≡ bit_or drain drain_last)

-- The flags that a resume clears: of what ended, and those of a pause that were set.
module _ (sub : ℕ) where
  resumed_input :
      (e : ℕ) → Ended e → has sub input_pause ≡ true → has (resumed_flags sub e) input_pause ≡ true
  resumed_input e (inl d) p = elim (Bool-cases (has sub output_pause)) [
    | inl q ↦ rw (d, p, q) refl
    | inr q ↦ rw (d, p, q) refl
  ]
  resumed_input e (inr d) p = elim (Bool-cases (has sub output_pause)) [
    | inl q ↦ rw (d, p, q) refl
    | inr q ↦ rw (d, p, q) refl
  ]

  resumed_output :
      (e : ℕ)
      → Ended e
      → has sub output_pause ≡ true
      → has (resumed_flags sub e) output_pause ≡ true
  resumed_output e (inl d) p = elim (Bool-cases (has sub input_pause)) [
    | inl q ↦ rw (d, p, q) refl
    | inr q ↦ rw (d, p, q) refl
  ]
  resumed_output e (inr d) p = elim (Bool-cases (has sub input_pause)) [
    | inl q ↦ rw (d, p, q) refl
    | inr q ↦ rw (d, p, q) refl
  ]

  resumed_drc : has (resumed_flags sub (bit_or drc drc_last)) drc ≡ true
  resumed_drc = ground arith

  resumed_drain : has (resumed_flags sub (bit_or drain drain_last)) drain ≡ true
  resumed_drain = ground arith

-- No pause is left, nothing of what ended, and the last buffer is not marked as dequeued.
pub record IsResumed (ended : Bool) (h : Handle) : Type 0 where
  pub input : has h.inst.sub_state input_pause ≡ false
  pub output : has h.inst.sub_state output_pause ≡ false
  pub over :
      (if ended then drc_pending h.inst.sub_state else drain_pending h.inst.sub_state) ≡ false
  pub last : h.inst.last_buffer_dequeued ≡ false

module _ (h : Handle) (a : CommandAnswers) (live : h.inst.state ≢ InstState.error) where
  cleared_input :
      (e : ℕ)
      → Ended e
      → (change_sub_state h (resumed_flags h.inst.sub_state e) 0).0 ≡ 0
      → has (change_sub_state h (resumed_flags h.inst.sub_state e) 0).1.inst.sub_state input_pause
        ≡ false
  cleared_input e d ok = ground (
    arith,
    change_sub_state_flags h (resumed_flags h.inst.sub_state e) 0 5 live (omega arith) ok,
    resumed_input h.inst.sub_state e d,
  )

  cleared_output :
      (e : ℕ)
      → Ended e
      → (change_sub_state h (resumed_flags h.inst.sub_state e) 0).0 ≡ 0
      → has (change_sub_state h (resumed_flags h.inst.sub_state e) 0).1.inst.sub_state output_pause
        ≡ false
  cleared_output e d ok = ground (
    arith,
    change_sub_state_flags h (resumed_flags h.inst.sub_state e) 0 6 live (omega arith) ok,
    resumed_output h.inst.sub_state e d,
  )

  -- A resume that returns 0 changed the flags.
  dec_resume_done :
      (e code : ℕ)
      → (dec_resume h a e code).0 ≡ 0
      → let (ret, h') = change_sub_state h (resumed_flags h.inst.sub_state e) 0 in
        (ret ≡ 0) × ((dec_resume h a e code).1 ≡ last_not_dequeued h')
  unfolding dec_resume
  dec_resume_done e code ok = ground arith

  drc-IsResumed :
      (code : ℕ)
      → (dec_resume h a (bit_or drc drc_last) code).0 ≡ 0
      → IsResumed true (dec_resume h a (bit_or drc drc_last) code).1
  unfolding drc_pending
  drc-IsResumed code ok =
      let done = dec_resume_done (bit_or drc drc_last) code ok in
      let clear = resumed_flags h.inst.sub_state (bit_or drc drc_last) in
      subst (IsResumed true) (sym done.1) (record {
        input = cleared_input (bit_or drc drc_last) (inl refl) done.0;
        output = cleared_output (bit_or drc drc_last) (inl refl) done.0;
        over = ground (
          arith,
          change_sub_state_flags h clear 0 1 live (omega arith) done.0,
          resumed_drc h.inst.sub_state,
        );
        last = refl;
      })

  drain-IsResumed :
      (code : ℕ)
      → (dec_resume h a (bit_or drain drain_last) code).0 ≡ 0
      → IsResumed false (dec_resume h a (bit_or drain drain_last) code).1
  unfolding drain_pending
  drain-IsResumed code ok =
      let done = dec_resume_done (bit_or drain drain_last) code ok in
      let clear = resumed_flags h.inst.sub_state (bit_or drain drain_last) in
      subst (IsResumed false) (sym done.1) (record {
        input = cleared_input (bit_or drain drain_last) (inr refl) done.0;
        output = cleared_output (bit_or drain drain_last) (inr refl) done.0;
        over = ground (
          arith,
          change_sub_state_flags h clear 0 3 live (omega arith) done.0,
          resumed_drain h.inst.sub_state,
        );
        last = refl;
      })

  drc_start :
      drc_pending h.inst.sub_state ≡ true
      → start_pending h a
        ≡ dec_resume h a
            (bit_or drc drc_last)
            (resume_code h.inst.sub_state a.resume_drc_input a.resume_drc_output)
  unfolding start_pending
  drc_start p = ground (arith, p)

  drain_start :
      drc_pending h.inst.sub_state ≡ false
      → (start_pending h a).0 ≡ 0
      → start_pending h a
        ≡ dec_resume h a (bit_or drain drain_last) (
            resume_code h.inst.sub_state
              (answer_of a.resume_drain_input)
              (answer_of a.resume_drain_output))
  unfolding start_pending
  drain_start none ok = ground (arith, none)

  start_resumes :
      (b : Bool)
      → drc_pending h.inst.sub_state ≡ b
      → (start_pending h a).0 ≡ 0
      → IsResumed b (start_pending h a).1
  start_resumes true p ok =
      let same = drc_start p in
      subst (λ (r : ℕ × Handle). IsResumed true r.1) (sym same)
        (drc-IsResumed _ (sym (ap (λ (r : ℕ × Handle). r.0) same) ∙ ok))
  start_resumes false p ok =
      let same = drain_start p ok in
      subst (λ (r : ℕ × Handle). IsResumed false r.1) (sym same)
        (drain-IsResumed _ (sym (ap (λ (r : ℕ × Handle). r.0) same) ∙ ok))

-- The instance behind the wait for a flush, where there is one.
abbrev pub waited : Handle → CommandAnswers → Handle
waited h a = if a.legacy_vpu5 && not (h.inst.flush_responses_pending == 0) then (a.flush h).1 else h

pending_flags :
    (h : Handle)
    → drc_pending h.inst.sub_state || drain_pending h.inst.sub_state ≡ true
    → has h.inst.sub_state (bit_or drc drain) ≡ true
unfolding drc_pending drain_pending
pending_flags h p = ground (arith, has-bit_or h.inst.sub_state drc drain)

-- A START that returns 0 went on from there.
start_waited :
    (h : Handle) (a : CommandAnswers)
    → has h.inst.sub_state (bit_or drc drain) ≡ true
    → (vdec_start_cmd h a).0 ≡ 0
    → vdec_start_cmd h a ≡ start_pending (waited h a) a
unfolding vdec_start_cmd flushed_start
start_waited h a f ok = ground (arith, f)

-- A START of a decoder that returns 0, of an instance that is neither in DEINIT nor in ERROR, and that
-- is not in ERROR behind the wait for a flush, where the command waits for one: both planes are
-- resumed, the last buffer is no longer marked as dequeued, and what ended is over: the source change,
-- or the drain where behind the wait no source change is pending.
pub dec_start_resumes :
    (h : Handle) (src dst : Bool) (a : CommandAnswers)
    → h.inst.state ≢ InstState.error
    → h.inst.state ≢ InstState.deinit
    → (waited h a).inst.state ≢ InstState.error
    → (dec_cmd h src dst dec_start a).0 ≡ 0
    → IsResumed (drc_pending (waited h a).inst.sub_state) (dec_cmd h src dst dec_start a).1
unfolding dec_cmd
dec_start_resumes h src dst a live there live' ok =
    let admitted : allow_cmd h src dst dec_start ≡ true = ground arith in
    let same : dec_cmd h src dst dec_start a ≡ vdec_start_cmd h a = ground (arith, admitted) in
    let began : (vdec_start_cmd h a).0 ≡ 0 = sym (ap (λ (r : ℕ × Handle). r.0) same) ∙ ok in
    let onward = start_waited h a (pending_flags h (admitted_start h a src dst admitted)) began in
    subst (λ (r : ℕ × Handle). IsResumed (drc_pending (waited h a).inst.sub_state) r.1)
      (sym (same ∙ onward))
      (start_resumes (waited h a) a live' (drc_pending (waited h a).inst.sub_state) refl
        (sym (ap (λ (r : ℕ × Handle). r.0) onward) ∙ began))
