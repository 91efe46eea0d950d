-- ===== src/Session/Events.antt =====
-- Sessions that run at the same time: each section under `core->lock` is one event, and the events
-- of different instances come in any order. The firmware may change the size of a session's frame at
-- any time, outside of these sections.
use nabu_iris.Common.{ℕ, ◌≤◌, ◌<◌, ◌^◌, List, [], ◌∷◌, false, if◌then◌else◌, ◌≡◌, arith}
use nabu_iris.Instance.{InstState}
use nabu_iris.Core.{Core}
use nabu_iris.Core.Boot.{BootAnswers, core_recover}
use nabu_iris.Core.Boot.Keeps.{Kept, core_recover-Kept}
use nabu_iris.Session.{
  get_mbpf, update, instance_at, reserve_session, release_slot, reserve_core_load,
  release_core_load, change_state_at, run_pending_core_recovery,
}
use nabu_iris.Session.Resized.{resized, recropped}

pub data Event : Type 0 where
  admit : ℕ → Event  -- iris_hfi_session_open of an instance without a session, to its reservation
  free : ℕ → Event  -- the end of a failed open, or of a close
  load : ℕ → ℕ → Event
  unload : ℕ → Event
  enter : ℕ → InstState → Event
  recover : BootAnswers → Event
  resize : ℕ → ℕ → ℕ → ℕ → ℕ → Event  -- a source change, with the sizes of the frame and of its crop
  recrop : ℕ → ℕ → ℕ → Event  -- a change of the crop alone

unfoldable pub apply : Core → Event → Core
apply c (admit i) = if (instance_at c i).hfi_session_opened then c else (reserve_session c i).1
apply c (free i) = release_slot c i
apply c (load i rate) = (reserve_core_load c i rate).1
apply c (unload i) = release_core_load c i
apply c (enter i s) = (change_state_at c i s).1
apply c (recover b) = run_pending_core_recovery c b
apply c (resize i w h cw ch) = update c i (resized (instance_at c i) w h cw ch)
apply c (recrop i w h) = update c i (recropped (instance_at c i) w h)

unfoldable pub apply_all : Core → List Event → Core
apply_all c [] = c
apply_all c (e ∷ es) = apply_all (apply c e) es

-- The rate of each reservation is a u32.
abbrev pub IsRate : Event → Type 0
IsRate (load i rate) = rate < 2 ^ 32
IsRate _ = Unit

abbrev pub AreRates : List Event → Type 0
AreRates [] = Unit
AreRates (e ∷ es) = IsRate e × AreRates es

-- A source change or a change of the crop leaves no more macroblocks in the frame, of a session whose rate is a u32.
abbrev pub IsKept : Core → Event → Type 0
IsKept c (resize i w h cw ch) =
    (get_mbpf (resized (instance_at c i) w h cw ch) ≤ get_mbpf (instance_at c i))
    × ((instance_at c i).admission_frame_rate < 2 ^ 32)
IsKept c (recrop i w h) =
    (get_mbpf (recropped (instance_at c i) w h) ≤ get_mbpf (instance_at c i))
    × ((instance_at c i).admission_frame_rate < 2 ^ 32)
IsKept c _ = Unit

abbrev pub AreKept : Core → List Event → Type 0
AreKept c [] = Unit
AreKept c (e ∷ es) = IsKept c e × AreKept (apply c e) es

pub recover_same :
    (c : Core) (b : BootAnswers)
    → let c' = run_pending_core_recovery c b in
      (c'.instances ≡ c.instances) × (c'.platform ≡ c.platform)
unfolding run_pending_core_recovery
recover_same c b =
    let kept : Kept (record c { recovery_pending = false })
        (core_recover (record c { recovery_pending = false }) b).1 =
      core_recover-Kept (record c { recovery_pending = false }) b in
    ground arith
