-- ===== src/SubState/Runs.antt =====
-- Sequences of sub-state changes: the flags stay within the eight that are defined.
use nabu_iris.Common.{ℕ, ◌<◌, List, [], ◌∷◌, arith}
use nabu_iris.Instance.{Handle}
use nabu_iris.State.{Plane}
use nabu_iris.SubState.{
  change_sub_state, sub_state_change_drc, sub_state_change_drain_last, sub_state_change_drc_last,
  sub_state_change_pause,
}
use nabu_iris.SubState.Update.{change_sub_state_cases, update_sub_state-lt}

pub data Change : Type 0 where
  flags : ℕ → ℕ → Change
  drc_found : Change
  drain_last_found : Change
  drc_last_found : Change
  pause : Plane → Change

unfoldable pub apply : Handle → Change → Handle
apply h (flags clear set) = (change_sub_state h clear set).1
apply h drc_found = (sub_state_change_drc h).1
apply h drain_last_found = (sub_state_change_drain_last h).1
apply h drc_last_found = (sub_state_change_drc_last h).1
apply h (pause p) = (sub_state_change_pause h p).1

unfoldable pub apply_all : Handle → List Change → Handle
apply_all h [] = h
apply_all h (c ∷ cs) = apply_all (apply h c) cs

change_sub_state-small :
    (h : Handle) (clear set : ℕ)
    → h.inst.sub_state < 256
    → (change_sub_state h clear set).1.inst.sub_state < 256
change_sub_state-small h clear set b =
    ground
      (arith, change_sub_state_cases h clear set, update_sub_state-lt h.inst.sub_state clear set b)

apply-small : (h : Handle) (c : Change) → h.inst.sub_state < 256 → (apply h c).inst.sub_state < 256
unfolding apply sub_state_change_drc sub_state_change_drain_last sub_state_change_drc_last
    sub_state_change_pause
apply-small h (flags clear set) b = change_sub_state-small h clear set b
apply-small h drc_found b = ground (
  arith,
  update_sub_state-lt h.inst.sub_state 0 33 b,
  update_sub_state-lt h.inst.sub_state 0 34 b,
)
apply-small h drain_last_found b = ground (arith, update_sub_state-lt h.inst.sub_state 0 80 b)
apply-small h drc_last_found b = ground (arith, update_sub_state-lt h.inst.sub_state 0 68 b)
apply-small h (pause p) b = ground (
  arith,
  update_sub_state-lt h.inst.sub_state 0 32 b,
  update_sub_state-lt h.inst.sub_state 0 64 b,
)

-- Whatever changes are asked for, with whatever masks, a sub-state below BIT(8) stays below it.
pub apply_all-small :
    (cs : List Change) (h : Handle) → h.inst.sub_state < 256 → (apply_all h cs).inst.sub_state < 256
unfolding apply_all
apply_all-small [] h b = b
apply_all-small (c ∷ cs) h b = apply_all-small cs (apply h c) (apply-small h c b)
