-- ===== src/Session/Stop.antt =====
-- iris_session_streamoff: STREAMOFF of a plane, and the end of the session with its last plane.
use nabu_iris.Common.{
  ℕ, ◌<◌, Bool, true, false, not, ◌==◌, if◌then◌else◌, length, length-set, ◌≡◌, ◌⊎◌, refl, sym, ◌∙◌,
  ap, arith, einval,
}
use mathlib.Core.Path.{subst}
use nabu_iris.Instance.{Inst, InstState, Handle}
use nabu_iris.State.{Plane, same_state, change_state, state_change_streamoff}
use nabu_iris.Core.{Core}
use nabu_iris.Session.{instance_at, update, change_state_at, CloseAnswer, hfi_session_close}
use nabu_iris.Session.Life.{at-update}
use nabu_iris.Session.Close.{Closed, hfi_session_close-Closed}

-- The answers to the stop command, to the release of the internal buffers of each plane, and to the
-- close of the session.
pub record StopAnswers : Type 0 where
  pub stop : ℕ
  pub destroy_input : ℕ
  pub destroy_output : ℕ
  pub close : CloseAnswer

unfoldable pub kill_session : Core → ℕ → Core
kill_session c i =
    if (instance_at c i).session_id == 0 then c else (change_state_at c i InstState.error).1

unfoldable pub state_change_streamoff_at : Core → ℕ → Plane → ℕ × Core
state_change_streamoff_at c i plane =
    let (ret, h) =
      state_change_streamoff
        (record { inst = instance_at c i; recovery_pending = c.recovery_pending }) plane in
    (ret, record (update c i h.inst) { recovery_pending = h.recovery_pending })

abbrev pub is_mplane : Plane → Bool
is_mplane Plane.output_mplane = true
is_mplane Plane.capture_mplane = true
is_mplane _ = false

abbrev pub stopping : Core → ℕ → Core
stopping c i = update c i (record (instance_at c i) { streamoff_pending = true })

-- With both planes at rest the session is given up.
unfoldable pub end_streaming : Core → ℕ → StopAnswers → ℕ × Core
end_streaming c i a =
    if not (same_state (instance_at c i).state InstState.init)
    then (0, c)
    else if not (a.destroy_input == 0)
    then (a.destroy_input, c)
    else if not (a.destroy_output == 0)
    then (a.destroy_output, c)
    else hfi_session_close c i a.close

unfoldable pub session_streamoff : Core → ℕ → Plane → StopAnswers → ℕ × Core
session_streamoff c i plane a =
    if not (is_mplane plane)
    then (einval, c)
    else if not (a.stop == 0)
    then (a.stop, kill_session (stopping c i) i)
    else (let (ret, c') = state_change_streamoff_at (stopping c i) i plane in
        if not (ret == 0) then (ret, kill_session c' i) else end_streaming c' i a)

-- One plane streams, and it is this one.
abbrev pub IsLast : InstState → Plane → Type 0
IsLast s plane =
    (s ≡ InstState.input_streaming) × (plane ≡ Plane.output_mplane)
    ⊎ (s ≡ InstState.output_streaming) × (plane ≡ Plane.capture_mplane)

last_stop :
    (h : Handle) (plane : Plane)
    → IsLast h.inst.state plane
    → let (ret, h') = state_change_streamoff h plane in
      (ret ≡ 0)
      × (h'.inst.state ≡ InstState.init)
      × (h'.inst.hfi_session_opened ≡ h.inst.hfi_session_opened)
      × (is_mplane plane ≡ true)
unfolding state_change_streamoff change_state
last_stop h plane last = ground arith

stop_at :
    (c : Core) (i : ℕ) (plane : Plane)
    → i < length c.instances
    → IsLast (instance_at c i).state plane
    → let (ret, c') = state_change_streamoff_at c i plane in
      (ret ≡ 0)
      × (length c'.instances ≡ length c.instances)
      × ((instance_at c' i).state ≡ InstState.init)
      × ((instance_at c' i).hfi_session_opened ≡ (instance_at c i).hfi_session_opened)
unfolding state_change_streamoff_at
stop_at c i plane there last = (
  stopped.0,
  length-set c.instances i _,
  ap (λ (v : Inst). v.state) same ∙ stopped.1,
  ap (λ (v : Inst). v.hfi_session_opened) same ∙ stopped.2,
)
  where
    h : Handle
    h = record { inst = instance_at c i; recovery_pending = c.recovery_pending }

    stopped :
        let (ret, h') = state_change_streamoff h plane in
        (ret ≡ 0)
        × (h'.inst.state ≡ InstState.init)
        × (h'.inst.hfi_session_opened ≡ h.inst.hfi_session_opened)
        × (is_mplane plane ≡ true)
    stopped = last_stop h plane last

    same :
        instance_at (update c i (state_change_streamoff h plane).1.inst) i
        ≡ (state_change_streamoff h plane).1.inst
    same = at-update c i there (state_change_streamoff h plane).1.inst

-- STREAMOFF of the only plane that streams, of an instance of the core's list whose session is
-- open, ends the session as a close does, where the stop command and the release of the internal
-- buffers succeed.
pub streamoff_last-Closed :
    (c : Core) (i : ℕ) (plane : Plane) (a : StopAnswers)
    → i < length c.instances
    → (instance_at c i).hfi_session_opened ≡ true
    → IsLast (instance_at c i).state plane
    → a.stop ≡ 0
    → a.destroy_input ≡ 0
    → a.destroy_output ≡ 0
    → let (ret, c') = session_streamoff c i plane a in Closed ret c' i
unfolding session_streamoff end_streaming
streamoff_last-Closed c i plane a there held last stop destroy destroy' =
    subst (λ (r : ℕ × Core). Closed r.0 r.1 i) (sym same)
      (hfi_session_close-Closed c' i a.close there' (opened' ∙ held))
  where
    begun : Inst
    begun = record (instance_at c i) { streamoff_pending = true }

    c' : Core
    c' = (state_change_streamoff_at (stopping c i) i plane).1

    begun_there : i < length (stopping c i).instances
    begun_there = omega (arith, length-set c.instances i begun, there)

    at_begun : instance_at (stopping c i) i ≡ begun
    at_begun = at-update c i there begun

    stopped :
        ((state_change_streamoff_at (stopping c i) i plane).0 ≡ 0)
        × (length c'.instances ≡ length (stopping c i).instances)
        × ((instance_at c' i).state ≡ InstState.init)
        × ((instance_at c' i).hfi_session_opened
            ≡ (instance_at (stopping c i) i).hfi_session_opened)
    stopped =
        stop_at (stopping c i) i plane begun_there
          (subst (λ s. IsLast s plane) (sym (ap (λ (v : Inst). v.state) at_begun)) last)

    mplane : is_mplane plane ≡ true
    mplane =
        (last_stop (record { inst = instance_at c i; recovery_pending = c.recovery_pending }) plane
          last).3

    end_is_close : end_streaming c' i a ≡ hfi_session_close c' i a.close
    end_is_close = rw (stopped.2, destroy, destroy') refl

    same : session_streamoff c i plane a ≡ hfi_session_close c' i a.close
    same = rw (mplane, stop, stopped.0) end_is_close

    there' : i < length c'.instances
    there' = omega (arith, stopped.1, begun_there)

    opened' : (instance_at c' i).hfi_session_opened ≡ (instance_at c i).hfi_session_opened
    opened' = stopped.3 ∙ ap (λ (v : Inst). v.hfi_session_opened) at_begun
