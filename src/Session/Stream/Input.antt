-- ===== src/Session/Stream/Input.antt =====
-- STREAMON of the input plane.
use nabu_iris.Common.{
  zero, suc, ℕ, Bool, true, false, not, ◌&&◌, ◌||◌, ◌==◌, if◌then◌else◌, ◌≡◌, ◌⊎◌, ap, ◌∙◌, sym,
  Bool-cases, ==→ne, inl, inr, arith,
}
use mathlib.Core.Path.{subst, ap₂}
use nabu_iris.Common.Bits.{has, zero-bit_and}
use nabu_iris.Instance.{InstState, Handle}
use nabu_iris.Instance.Flags.{input_pause}
use nabu_iris.State.{Plane, state_change_streamon}
use nabu_iris.SubState.{change_sub_state, update_sub_state}
use nabu_iris.SubState.Update.{has-update}
use nabu_iris.Session.Stream.{
  StreamAnswers, input_held, answer_of, enter_streaming, streamon_input_pause,
  process_streamon_input,
}

or_false : (b : Bool) → b ≡ (b || false)
or_false b = ground arith

or_and_not : (b c : Bool) → (b || (c && not b)) ≡ (b || c)
or_and_not b c = ground arith

abbrev pub AtRest : InstState → Type 0
AtRest s = (s ≡ InstState.init) ⊎ (s ≡ InstState.output_streaming)

abbrev pub Streams : InstState → Type 0
Streams s = (s ≡ InstState.input_streaming) ⊎ (s ≡ InstState.streaming)

-- The end of the STREAMON of a plane at rest.
enter_input :
    (h : Handle) (set : ℕ)
    → AtRest h.inst.state
    → (enter_streaming h Plane.output_mplane 0 set).0 ≡ 0
    → let h' = (enter_streaming h Plane.output_mplane 0 set).1 in
      Streams h'.inst.state
      × (h'.inst.sub_state
          ≡ (if set == 0 then h.inst.sub_state else update_sub_state h.inst.sub_state 0 set))
      × (h'.inst.streamoff_pending ≡ h.inst.streamoff_pending)
      × (h'.inst.last_buffer_dequeued ≡ false)
unfolding enter_streaming state_change_streamon change_sub_state
enter_input h set rest ok = ground arith

paused :
    (sub : ℕ) → has (update_sub_state sub 0 input_pause) input_pause ≡ (has sub input_pause || true)
paused sub = ground (arith, has-update 5 sub 0 input_pause (omega arith) (omega arith))

-- The same with the pause command before it, where it is sent.
abbrev pause_and_enter : Handle → Bool → ℕ → ℕ × Handle
pause_and_enter h pausing answer =
    if pausing && not (answer == 0)
    then (answer, h)
    else enter_streaming h Plane.output_mplane 0 (if pausing then input_pause else 0)

pause_or_not :
    (h : Handle) (pausing : Bool) (answer : ℕ)
    → AtRest h.inst.state
    → (pause_and_enter h pausing answer).0 ≡ 0
    → let h' = (pause_and_enter h pausing answer).1 in
      Streams h'.inst.state
      × (has h'.inst.sub_state input_pause ≡ (has h.inst.sub_state input_pause || pausing))
      × (h'.inst.streamoff_pending ≡ h.inst.streamoff_pending)
      × (h'.inst.last_buffer_dequeued ≡ false)
pause_or_not h false answer rest ok =
    let (s, flags, off, last) = enter_input h 0 rest ok in
    (s, ap (λ n. has n input_pause) flags ∙ or_false (has h.inst.sub_state input_pause), off, last)
pause_or_not h true zero rest ok =
    let (s, flags, off, last) = enter_input h input_pause rest ok in
    (s, ap (λ n. has n input_pause) flags ∙ paused h.inst.sub_state, off, last)
pause_or_not h true (suc n) rest ok = absurd (refused n ok)
  where
    refused : (n : ℕ) → (pause_and_enter h true (suc n)).0 ≡ 0 → ⊥
    refused n e = grind arith

-- What the part behind the resume command does to the pause flag.
pause_input :
    (h : Handle) (a : StreamAnswers)
    → AtRest h.inst.state
    → (streamon_input_pause h a).0 ≡ 0
    → let h' = (streamon_input_pause h a).1 in
      Streams h'.inst.state
      × (has h'.inst.sub_state input_pause
          ≡ (has h.inst.sub_state input_pause || input_held h.inst))
      × (h'.inst.streamoff_pending ≡ h.inst.streamoff_pending)
      × (h'.inst.last_buffer_dequeued ≡ false)
unfolding streamon_input_pause
pause_input h a rest ok =
    let pausing : Bool = input_held h.inst && not (has h.inst.sub_state input_pause) in
    let (s, flags, off, last) = pause_or_not h pausing (answer_of a.pause) rest ok in
    (s, flags ∙ or_and_not (has h.inst.sub_state input_pause) (input_held h.inst), off, last)

-- A pause that is over is taken back first, and the other flags are kept.
unpause :
    (h : Handle)
    → AtRest h.inst.state
    → let (ret, h') = change_sub_state h input_pause 0 in
      (ret ≡ 0)
      × (h'.inst.state ≡ h.inst.state)
      × (h'.inst.streamoff_pending ≡ h.inst.streamoff_pending)
      × (has h'.inst.sub_state input_pause ≡ false)
      × (input_held h'.inst ≡ input_held h.inst)
unfolding change_sub_state
unpause h rest = ground (
  arith,
  has-update 0 h.inst.sub_state input_pause 0 (omega arith) (omega arith),
  has-update 1 h.inst.sub_state input_pause 0 (omega arith) (omega arith),
  has-update 3 h.inst.sub_state input_pause 0 (omega arith) (omega arith),
  has-update 5 h.inst.sub_state input_pause 0 (omega arith) (omega arith),
  zero-bit_and 1,
  zero-bit_and 2,
  zero-bit_and 8,
  zero-bit_and 32,
)

-- Where the input plane was at rest and its STREAMON succeeds, the plane streams, and its pause
-- flag is set just when a source change or a drain holds a decoder's input back.
pub streamon_input_pauses :
    (h : Handle) (a : StreamAnswers)
    → AtRest h.inst.state
    → (process_streamon_input h a).0 ≡ 0
    → let h' = (process_streamon_input h a).1 in
      Streams h'.inst.state
      × (has h'.inst.sub_state input_pause ≡ input_held h.inst)
      × (h'.inst.streamoff_pending ≡ false)
      × (h'.inst.last_buffer_dequeued ≡ false)
unfolding process_streamon_input
streamon_input_pauses h a rest ok = outcome ok
  where
    begun : Handle
    begun = record h { inst = record (h.inst) { streamoff_pending = false } }

    Done : ℕ × Handle → Type 0
    Done r =
        r.0 ≡ 0
        → Streams r.1.inst.state
          × (has r.1.inst.sub_state input_pause ≡ input_held h.inst)
          × (r.1.inst.streamoff_pending ≡ false)
          × (r.1.inst.last_buffer_dequeued ≡ false)

    free : has h.inst.sub_state input_pause ≡ false → Done (streamon_input_pause begun a)
    free clear e =
        let (s, flag, off, last) = pause_input begun a rest e in
        (s, flag ∙ ap (λ b. b || input_held h.inst) clear, off, last)

    resumed : Done (streamon_input_pause (change_sub_state begun input_pause 0).1 a)
    resumed e =
        let (_, state, off, clear, held) = unpause begun rest in
        let (s, flag, off', last) =
          pause_input (change_sub_state begun input_pause 0).1 a (subst AtRest (sym state) rest)
            e in
        (s, flag ∙ ap₂ ◌||◌ clear held, off' ∙ off, last)

    outcome : Done (process_streamon_input h a)
    outcome = elim (Bool-cases (a.start == 0)) [
      | inr bad ↦ rw bad (λ e. absurd (==→ne _ _ bad e))
      | inl sent ↦ rw sent (elim (Bool-cases (has h.inst.sub_state input_pause)) [
        | inr clear ↦ rw clear (free clear)
        | inl paused' ↦ rw (paused', (unpause begun rest).0) resumed
      ])
    ]
