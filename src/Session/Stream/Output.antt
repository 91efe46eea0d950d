-- ===== src/Session/Stream/Output.antt =====
-- STREAMON of the capture plane.
use nabu_iris.Common.{
  ℕ, ◌<◌, ◌^◌, Bool, false, not, ◌&&◌, ◌==◌, if◌then◌else◌, ◌≡◌, ◌⊎◌, ap, ◌∙◌, Bool-cases, ==→ne,
  inl, inr, arith, bit_or, sym,
}
use mathlib.Core.Path.{ap₂, subst}
use nabu_iris.Common.Bits.{has, zero-bit_and}
use nabu_iris.Instance.{InstState, Handle}
use nabu_iris.Instance.Flags.{
  first_ipsc, drc, drc_last, drain, drain_last, input_pause, output_pause,
}
use nabu_iris.State.{Plane, state_change_streamon, same_state}
use nabu_iris.SubState.{change_sub_state, update_sub_state, drc_pending}
use nabu_iris.SubState.Update.{has-update}
use nabu_iris.Session.Stream.{
  StreamAnswers, ended_flags, cleared_flags, resumes, drain_ended, prepare_input, resume_input,
  enter_streaming, start_output, process_streamon_output,
}

-- The flags to clear, by the five tests that choose them.
abbrev flags_by : Bool → Bool → Bool → Bool → Bool → ℕ
flags_by changed drained resumed found paused =
    let ended =
      (if changed then bit_or drc drc_last else if drained then bit_or drain drain_last else 0) in
    let resumed' = (if resumed then bit_or ended input_pause else ended) in
    let found' = (if found then bit_or resumed' first_ipsc else resumed') in
    if paused then bit_or found' output_pause else found'

flags_by_tests :
    (changed drained resumed found paused : Bool)
    → let flags = flags_by changed drained resumed found paused in
      (flags < 2 ^ 32)
      × (has flags first_ipsc ≡ found)
      × (has flags drc ≡ changed)
      × (has flags drc_last ≡ changed)
      × (has flags input_pause ≡ resumed)
      × (has flags output_pause ≡ paused)
flags_by_tests changed drained resumed found paused = ground arith

-- What is left of flag `i`.
after_clear :
    (sub clear i : ℕ)
    → i < 32
    → clear < 2 ^ 32
    → has (if clear == 0 then sub else update_sub_state sub clear 0) (2 ^ i)
      ≡ (has sub (2 ^ i) && not (has clear (2 ^ i)))
after_clear sub clear i hi hc = ground (arith, has-update i sub clear 0 hi hc, zero-bit_and (2 ^ i))

abbrev pub AtRest : InstState → Type 0
AtRest s = (s ≡ InstState.init) ⊎ (s ≡ InstState.input_streaming)

abbrev pub Streams : InstState → Type 0
Streams s = (s ≡ InstState.output_streaming) ⊎ (s ≡ InstState.streaming)

enter_output :
    (h : Handle) (clear : ℕ)
    → AtRest h.inst.state
    → (enter_streaming h Plane.capture_mplane clear 0).0 ≡ 0
    → let h' = (enter_streaming h Plane.capture_mplane clear 0).1 in
      Streams h'.inst.state
      × (h'.inst.sub_state
          ≡ (if clear == 0 then h.inst.sub_state else update_sub_state h.inst.sub_state clear 0))
      × (h'.inst.last_buffer_dequeued ≡ false)
unfolding enter_streaming state_change_streamon change_sub_state
enter_output h clear rest ok = ground arith

not_both : (b c : Bool) → ((b && not (b && c)) && (c && not (b && c))) ≡ false
not_both b c = ground arith

and_not : (b : Bool) → (b && not b) ≡ false
and_not b = ground arith

and_not_and : (b c : Bool) → (b && not (c && b)) ≡ (b && not c)
and_not_and b c = ground arith

-- The end of the function, behind its commands.
capture_flags :
    (h : Handle)
    → AtRest h.inst.state
    → (enter_streaming h Plane.capture_mplane
        (cleared_flags (ended_flags h.inst.sub_state) h.inst)
        0).0
      ≡ 0
    → let h' =
        (enter_streaming h Plane.capture_mplane
          (cleared_flags (ended_flags h.inst.sub_state) h.inst)
          0).1 in
      Streams h'.inst.state
      × (drc_pending h'.inst.sub_state ≡ false)
      × (has h'.inst.sub_state first_ipsc ≡ false)
      × (has h'.inst.sub_state output_pause ≡ false)
      × (has h'.inst.sub_state input_pause ≡ (
          has h.inst.sub_state input_pause
          && not (same_state h.inst.state InstState.input_streaming)))
      × (h'.inst.last_buffer_dequeued ≡ false)
unfolding drc_pending
capture_flags h rest ok = (
  entered.0,
  ap₂ ◌&&◌ (left 1 tests.2 (omega arith)) (left 2 tests.3 (omega arith))
      ∙ not_both (has sub drc) (has sub drc_last),
  left 0 tests.1 (omega arith) ∙ and_not (has sub first_ipsc),
  left 6 tests.5 (omega arith) ∙ and_not (has sub output_pause),
  left 5 tests.4 (omega arith)
      ∙ and_not_and (has sub input_pause) (same_state h.inst.state InstState.input_streaming),
  entered.2,
)
  where
    sub : ℕ
    sub = h.inst.sub_state

    clear : ℕ
    clear = cleared_flags (ended_flags h.inst.sub_state) h.inst

    h' : Handle
    h' = (enter_streaming h Plane.capture_mplane clear 0).1

    entered :
        Streams h'.inst.state
        × (h'.inst.sub_state ≡ (if clear == 0 then sub else update_sub_state sub clear 0))
        × (h'.inst.last_buffer_dequeued ≡ false)
    entered = enter_output h clear rest ok

    tests :
        (clear < 2 ^ 32)
        × (has clear first_ipsc ≡ has sub first_ipsc)
        × (has clear drc ≡ (has sub drc && has sub drc_last))
        × (has clear drc_last ≡ (has sub drc && has sub drc_last))
        × (has clear input_pause ≡ resumes h.inst)
        × (has clear output_pause ≡ has sub output_pause)
    tests =
        flags_by_tests (has sub drc && has sub drc_last) (has sub drain && has sub drain_last)
          (resumes h.inst) (has sub first_ipsc) (has sub output_pause)

    left :
        (i : ℕ) {b : Bool}
        → has clear (2 ^ i) ≡ b
        → i < 32
        → has h'.inst.sub_state (2 ^ i) ≡ (has sub (2 ^ i) && not b)
    left i e hi =
        ap (λ n. has n (2 ^ i)) entered.1
        ∙ after_clear sub clear i hi tests.0
        ∙ ap (λ c. has sub (2 ^ i) && not c) e

prepare_input_still :
    (h : Handle) (a : StreamAnswers) → (a.internal_buffers h).1 ≡ h → (prepare_input h a).1 ≡ h
unfolding prepare_input
prepare_input_still h a still = ground arith

-- Where the capture plane was at rest, the making of the internal buffers leaves the instance as it
-- is, and the STREAMON of the plane succeeds, the plane streams and is not
-- paused, a source change that was complete is over, as is one found before the plane streamed, and
-- an input plane that streamed already is not paused either.
pub streamon_output_resumes :
    (h : Handle) (a : StreamAnswers)
    → AtRest h.inst.state
    → (a.internal_buffers h).1 ≡ h
    → (process_streamon_output h a).0 ≡ 0
    → let h' = (process_streamon_output h a).1 in
      Streams h'.inst.state
      × (drc_pending h'.inst.sub_state ≡ false)
      × (has h'.inst.sub_state first_ipsc ≡ false)
      × (has h'.inst.sub_state output_pause ≡ false)
      × (has h'.inst.sub_state input_pause ≡ (
          has h.inst.sub_state input_pause
          && not (same_state h.inst.state InstState.input_streaming)))
      × (h'.inst.last_buffer_dequeued ≡ false)
unfolding process_streamon_output start_output
streamon_output_resumes h a rest still ok = outcome ok
  where
    Done : ℕ × Handle → Type 0
    Done r =
        r.0 ≡ 0
        → let h' = r.1 in
          Streams h'.inst.state
          × (drc_pending h'.inst.sub_state ≡ false)
          × (has h'.inst.sub_state first_ipsc ≡ false)
          × (has h'.inst.sub_state output_pause ≡ false)
          × (has h'.inst.sub_state input_pause ≡ (
              has h.inst.sub_state input_pause
              && not (same_state h.inst.state InstState.input_streaming)))
          × (h'.inst.last_buffer_dequeued ≡ false)

    drained : Bool
    drained = drain_ended h.inst.sub_state

    ended : ℕ
    ended = ended_flags h.inst.sub_state

    started : Done (start_output drained ended h a)
    started = elim (Bool-cases (resume_input drained h.inst a == 0)) [
      | inr bad ↦ rw bad (λ e. absurd (==→ne _ _ bad e))
      | inl good ↦ rw good (elim (Bool-cases (a.start == 0)) [
        | inr bad ↦ rw bad (λ e. absurd (==→ne _ _ bad e))
        | inl sent ↦ rw sent (capture_flags h rest)
      ])
    ]

    outcome : Done (process_streamon_output h a)
    outcome = elim (Bool-cases ((prepare_input h a).0 == 0)) [
      | inr bad ↦ rw bad (λ e. absurd (==→ne _ _ bad e))
      | inl good ↦ rw good (
          subst (λ g. Done (start_output drained ended g a)) (sym (prepare_input_still h a still))
            started)
    ]
