-- ===== src/Examples/States.antt =====
-- An instance that streams, drains and dies.
use nabu_iris.Common.{true, false, List, [], ◌∷◌, ◌≡◌, ◌⊎◌, inl, refl, map, einval}
use nabu_iris.Common.Bits.{has}
use nabu_iris.Instance.{InstState, Handle}
use nabu_iris.Instance.Flags.{drain, drain_last, output_pause}
use nabu_iris.State.{change_state, output_mplane, capture_mplane}
use nabu_iris.State.Graph.{◌⟶◌, moved, change_state-graph}
use nabu_iris.State.Runs.{Request, change, streamon, serve_all, IsReported}
use nabu_iris.State.Planes.{view, Switch, request, switch_all, streaming_refines}
use nabu_iris.SubState.{
  change_sub_state, sub_state_change_drain_last, drain_pending, allow_sub_state,
}
use nabu_iris.SubState.Drain.{drain_last_completes}
use nabu_iris.Examples.Data.{handle}

abbrev live : Handle
live = handle InstState.streaming 0

change_state-graph_example :
    (InstState.streaming ⟶ InstState.error)
      × (change_state live InstState.error ≡ (0, moved live InstState.error))
    ⊎ (¬ (InstState.streaming ⟶ InstState.error))
      × (change_state live InstState.error ≡ (einval, live))
change_state-graph_example = change_state-graph live InstState.error

abbrev requests : List Request
requests = streamon capture_mplane ∷ change InstState.init ∷ []

live-IsReported : IsReported live
live-IsReported = record { reported = inl (λ e. cc) }

abbrev switches : List Switch
switches =
    record { on = true; plane = output_mplane }
    ∷ record { on = true; plane = capture_mplane }
    ∷ record { on = false; plane = output_mplane }
    ∷ []

streaming_refines_example :
    view (serve_all (handle InstState.init 0) (map request switches)).inst.state
    ≡ switch_all switches (view InstState.init)
streaming_refines_example = streaming_refines switches (handle InstState.init 0)

abbrev draining : Handle
draining = handle InstState.streaming 8

drain_last_completes_example :
    let sub' = (sub_state_change_drain_last draining).1.inst.sub_state in
    (has 8 drain ≡ true)
    × (has 8 drain_last ≡ false)
    × (drain_pending sub' ≡ true)
    × (has sub' output_pause ≡ true)
unfolding sub_state_change_drain_last change_sub_state allow_sub_state
drain_last_completes_example = drain_last_completes draining (λ e. cc) refl

abbrev changing : Handle
changing = handle InstState.streaming 34
