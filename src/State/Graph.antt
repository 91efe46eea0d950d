-- ===== src/State/Graph.antt =====
-- iris_inst_change_state against the transition diagram of its instance states.
use nabu_iris.Common.{
  Bool, true, not, ◌&&◌, ◌||◌, if◌then◌else◌, ◌≡◌, ◌≢◌, ◌⊎◌, inl, inr, ◌↔◌, Bool-cases, refl, arith,
  einval,
}
use nabu_iris.Instance.{
  InstState, deinit, init, input_streaming, output_streaming, streaming, error, Handle,
}
use nabu_iris.State.{change_state, same_state, allow_inst_state_change}

-- The transitions between two different states that the driver accepts.
infix 40 ◌⟶◌
pub data ◌⟶◌ : InstState → InstState → Type 0 where
  input_on : init ⟶ input_streaming
  output_on : init ⟶ output_streaming
  output_on_after : input_streaming ⟶ streaming
  input_on_after : output_streaming ⟶ streaming
  input_off : streaming ⟶ output_streaming
  output_off : streaming ⟶ input_streaming
  last_input_off : input_streaming ⟶ init
  last_output_off : output_streaming ⟶ init
  reopen : deinit ⟶ init
  close_init : init ⟶ deinit
  close_input : input_streaming ⟶ deinit
  close_output : output_streaming ⟶ deinit
  close_streaming : streaming ⟶ deinit
  die : {s : InstState} → s ≢ error → s ⟶ error

ruleset edges = (
  input_on, output_on, output_on_after, input_on_after, input_off, output_off, last_input_off,
  last_output_off, reopen, close_init, close_input, close_output, close_streaming, die,
)

-- Whether two states are joined by an edge.
joined : InstState → InstState → Bool
joined s t =
    not (same_state s error)
    && (not (same_state s t) && (same_state t error || allow_inst_state_change s t))

joined-⟶ : (s t : InstState) → joined s t ≡ true → s ⟶ t
unfolding joined allow_inst_state_change
joined-⟶ deinit init h = reopen
joined-⟶ deinit error h = die (λ e. cc)
joined-⟶ init error h = die (λ e. cc)
joined-⟶ input_streaming error h = die (λ e. cc)
joined-⟶ output_streaming error h = die (λ e. cc)
joined-⟶ streaming error h = die (λ e. cc)
joined-⟶ _ _ h = grind (arith, edges)

⟶-joined : {s t : InstState} → s ⟶ t → joined s t ≡ true
unfolding joined allow_inst_state_change
⟶-joined (die {s} h) = ground arith
⟶-joined _ = refl

-- The handle after a change to `req`: a death also asks for a power-cycle of the core.
abbrev pub moved : Handle → InstState → Handle
moved h req = record h {
  inst = record (h.inst) { state = req };
  recovery_pending = same_state req error || h.recovery_pending;
}

change_state-joined :
    (h : Handle) (req : InstState)
    → change_state h req ≡ (
        if joined h.inst.state req then (0, moved h req) else (
          if same_state h.inst.state error || same_state h.inst.state req then 0 else einval,
          h,
        ))
unfolding change_state joined
change_state-joined h req = ground arith

-- Whatever is requested, `iris_inst_change_state` either follows an edge of the diagram to the
-- requested state, returns 0 and raises the recovery flag when that state is ERROR, or there is no
-- such edge and it changes nothing: it then returns 0 in ERROR and in the requested state itself,
-- and -EINVAL elsewhere.
pub change_state-graph :
    (h : Handle) (req : InstState)
    → (h.inst.state ⟶ req) × (change_state h req ≡ (0, moved h req))
      ⊎ (¬ (h.inst.state ⟶ req))
        × (change_state h req ≡ (
          if same_state h.inst.state error || same_state h.inst.state req then 0 else einval,
          h,
        ))
change_state-graph h req = elim (Bool-cases (joined h.inst.state req)) [
  | inl yes_edge ↦ inl (joined-⟶ _ _ yes_edge, ground (arith, change_state-joined h req))
  | inr no_edge ↦ inr (λ e. cc (⟶-joined e), ground (arith, change_state-joined h req))
]

-- The code alone tells what happened to a live instance: 0 exactly when it now is in the requested
-- state.
pub change_state-code :
    (h : Handle) (req : InstState)
    → h.inst.state ≢ error
    → ((change_state h req).0 ≡ 0) ↔ ((change_state h req).1.inst.state ≡ req)
unfolding change_state
change_state-code h req live = ground arith
