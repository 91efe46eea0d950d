-- ===== src/Core/Collapse/Powered.antt =====
-- The VPU's power over a collapse and a return from it.
use nabu_iris.Common.{
  ℕ, Bool, true, false, ◌≡◌, ◌≢◌, ◌⊎◌, inl, inr, [], arith, ◌==◌, Bool-cases, ==→eq, ==→ne,
}
use nabu_iris.Core.{Core}
use nabu_iris.Core.Vpu.{PowerAnswers, vpu_power_on, vpu_power_off}
use nabu_iris.Core.Boot.Resources.{PowerHeld}
use nabu_iris.Core.Collapse.{
  IdleAnswers, WakeAnswers, pc_enter, wake_firmware, leave_collapse, pc_exit, pc_resume,
  pc_schedule, pc_handler, pm_suspend, pm_resume,
}

-- The VPU is on, with each domain held once.
pub record Awake (c : Core) : Type 0 where
  pub deferred : c.platform.defer_vcodec_power ≡ true
  pub running : c.vpu_suspended ≡ false
  pub powered : c.vpu_powered ≡ true
  pub power : PowerHeld 1 c

-- The VPU is collapsed: no domain is held and no session is open.
pub record Asleep (c : Core) : Type 0 where
  pub deferred : c.platform.defer_vcodec_power ≡ true
  pub suspended : c.vpu_suspended ≡ true
  pub power : PowerHeld 0 c
  pub unused : c.instances ≡ []

-- Power is on again, and the flag still says otherwise.
record Woken (c : Core) : Type 0 where
  deferred : c.platform.defer_vcodec_power ≡ true
  suspended : c.vpu_suspended ≡ true
  powered : c.vpu_powered ≡ true
  power : PowerHeld 1 c
  unused : c.instances ≡ []

-- What a collapse keeps: the platform, the shared memory, the loaded firmware, the sessions and the core's state.
pub record Retained (c c' : Core) : Type 0 where
  pub platform : c'.platform ≡ c.platform
  pub table : c'.iface_q_table ≡ c.iface_q_table
  pub memory : c'.dma_bytes ≡ c.dma_bytes
  pub firmware : c'.fw_running ≡ c.fw_running
  pub sessions : c'.instances ≡ c.instances
  pub state : c'.state ≡ c.state

-- One attempt to collapse, of a VPU that is on with no session open: it succeeds and the VPU is
-- asleep, or nothing changes.
pub pc_enter_outcomes :
    (c : Core) (a : IdleAnswers)
    → Awake c
    → c.instances ≡ []
    → let (ret, c') = pc_enter c a in Retained c c' × ((ret ≡ 0) × Asleep c' ⊎ (ret ≢ 0) × (c' ≡ c))
unfolding pc_enter vpu_power_off
pc_enter_outcomes c a w e = ground arith

module _ (c : Core) (a : PowerAnswers) where
  power_on-Woken : Asleep c → (vpu_power_on c a).0 ≡ 0 → Woken (vpu_power_on c a).1
  unfolding vpu_power_on
  power_on-Woken s ok = ground arith

  power_on-Asleep :
      Asleep c → a.controller_get ≡ 0 → (vpu_power_on c a).0 ≢ 0 → Asleep (vpu_power_on c a).1
  unfolding vpu_power_on
  power_on-Asleep s get bad = ground arith

  power_on-Retained : Retained c (vpu_power_on c a).1
  unfolding vpu_power_on
  power_on-Retained = ground arith

-- The outcomes of a return from a collapse.
abbrev pub Returned : ℕ → Core → Type 0
Returned ret c = (ret ≡ 0) × Awake c ⊎ (ret ≢ 0) × Asleep c

module _ (c : Core) (a : WakeAnswers) where
  wake_firmware-Returned : Woken c → let (ret, c') = wake_firmware c a in Returned ret c'
  unfolding wake_firmware vpu_power_off
  wake_firmware-Returned w = ground arith

  wake_firmware-Retained : Retained c (wake_firmware c a).1
  unfolding wake_firmware vpu_power_off
  wake_firmware-Retained = ground arith

Retained-trans : {c d e : Core} → Retained c d → Retained d e → Retained c e
Retained-trans h k = ground arith

pub leave_collapse_outcomes :
    (c : Core) (a : WakeAnswers)
    → Asleep c
    → a.power.controller_get ≡ 0
    → let (ret, c') = leave_collapse c a in Retained c c' × Returned ret c'
unfolding leave_collapse
leave_collapse_outcomes c a s get = elim (Bool-cases ((vpu_power_on c a.power).0 == 0)) [
  | inl ok ↦ rw ok (
    Retained-trans (power_on-Retained c a.power)
        (wake_firmware-Retained (vpu_power_on c a.power).1 a),
    wake_firmware-Returned (vpu_power_on c a.power).1 a (power_on-Woken c a.power s (==→eq _ _ ok)),
  )
  | inr bad ↦ rw bad (
    power_on-Retained c a.power,
    inr (omega arith, power_on-Asleep c a.power s get (==→ne _ _ bad)),
  )
]

-- A return of a VPU that is asleep, on a platform that defers the codec's power, and where the runtime
-- resume of the controller's domain does not fail: it is awake where the code is 0; after an error,
-- whichever of the other steps failed, every power reference is given back and the VPU is asleep as
-- before. Memory, firmware, sessions and the state of the core are kept.
pub pc_exit_outcomes :
    (c : Core) (a : WakeAnswers)
    → Asleep c
    → a.power.controller_get ≡ 0
    → let (ret, c') = pc_exit c a in Retained c c' × Returned ret c'
unfolding pc_exit
pc_exit_outcomes c a s get = ground (arith, leave_collapse_outcomes c a s get)

pub pm_resume_outcomes :
    (enabled : Bool) (c : Core) (a : WakeAnswers)
    → Asleep c
    → a.power.controller_get ≡ 0
    → let (ret, c') = pm_resume enabled c a in Retained c c' × Returned ret c'
unfolding pm_resume
pm_resume_outcomes enabled c a s get = ground (arith, leave_collapse_outcomes c a s get)

pub pc_resume_outcomes :
    (c : Core) (a : WakeAnswers)
    → c.platform.legacy_vpu5 ≡ true
    → Asleep c
    → a.power.controller_get ≡ 0
    → let (ret, c') = pc_resume true c a in Retained c c' × Returned ret c'
unfolding pc_resume
pc_resume_outcomes c a l s get =
    ground (arith, pc_exit_outcomes (record c { pc_work_queued = false }) a (ground arith) get)

-- The delayed work on a VPU that is on: it stays on, or no session is open and it is asleep.
pub pc_handler_outcomes :
    (enabled : Bool) (c : Core) (a : IdleAnswers)
    → Awake c
    → let c' = pc_handler enabled c a in Retained c c' × (Awake c' ⊎ Asleep c')
unfolding pc_handler pc_schedule pc_enter vpu_power_off
pc_handler_outcomes enabled c a w = ground arith

-- The system's suspend of a VPU that is on: with a code, or with a session open, nothing changes;
-- and where it changes something, the VPU is asleep.
pub pm_suspend_outcomes :
    (c : Core) (a : IdleAnswers)
    → Awake c
    → let (ret, c') = pm_suspend c a in Retained c c' × ((c' ≡ c) ⊎ (ret ≡ 0) × Asleep c')
unfolding pm_suspend vpu_power_off
pm_suspend_outcomes c a w = ground arith
