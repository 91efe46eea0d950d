-- ===== src/Session/Files/Balance.antt =====
-- The references and the instances that `iris_open` leaves behind, on every path.
use nabu_iris.Common.{
  either_branch, ℕ, ◌+◌, ◌-◌, Bool, false, not, eacces, ◌==◌, Option, none, some, List, [], ◌∷◌,
  ◌≡◌, ◌≢◌, ◌⊎◌, inl, inr, arith, refl, ◌∙◌, Bool-cases, ==→ne, length, length-append,
}
use mathlib.Core.Path.{subst}
use nabu_iris.Instance.{Inst, Domain}
use nabu_iris.Core.{Core}
use nabu_iris.Core.Vpu.{PowerAnswers, vpu_power_on, vpu_power_off}
use nabu_iris.Core.Boot.{BootAnswers, core_init}
use nabu_iris.Core.Boot.Keeps.{core_init-Kept, core_recover-Kept}
use nabu_iris.Core.Collapse.{WakeAnswers, wake_firmware, leave_collapse, pc_exit, pc_resume}
use nabu_iris.Session.Files.{
  OpenFileAnswers, taken, restart_asleep, retry_start, open_core, open_instance, joined, join_core,
  open_resumed, open_device, open_file,
}

power_on-instances : (c : Core) (a : PowerAnswers) → (vpu_power_on c a).1.instances ≡ c.instances
unfolding vpu_power_on
power_on-instances c a = ground arith

wake_firmware-instances :
    (c : Core) (a : WakeAnswers) → (wake_firmware c a).1.instances ≡ c.instances
unfolding wake_firmware vpu_power_off
wake_firmware-instances c a = ground arith

leave_collapse-instances :
    (c : Core) (a : WakeAnswers) → (leave_collapse c a).1.instances ≡ c.instances
unfolding leave_collapse
leave_collapse-instances c a =
    ground
      (arith, power_on-instances c a.power, wake_firmware-instances (vpu_power_on c a.power).1 a)

pc_resume-instances :
    (enabled : Bool) (c : Core) (a : WakeAnswers)
    → (pc_resume enabled c a).1.instances ≡ c.instances
unfolding pc_resume pc_exit
pc_resume-instances enabled c a =
    ground (arith, leave_collapse-instances (record c { pc_work_queued = false }) a)

restart_asleep-instances :
    (r : ℕ × Core) (b : BootAnswers) → (restart_asleep r b).instances ≡ r.1.instances
restart_asleep-instances r b = ground (arith, core_recover-Kept (taken r.1) b)

retry_start-instances :
    (r : ℕ × Core) (b : BootAnswers) → (retry_start r b).1.instances ≡ r.1.instances
unfolding retry_start
retry_start-instances r b = ground (arith, core_recover-Kept (taken r.1) b)

open_core-instances :
    (enabled : Bool) (c : Core) (a : OpenFileAnswers)
    → (open_core enabled c a).1.instances ≡ c.instances
unfolding open_core
open_core-instances enabled c a =
    let r = pc_resume enabled c a.wake in
    let awake = restart_asleep r a.restart in
    retry_start-instances (core_init awake a.start) a.retry
    ∙ (core_init-Kept awake a.start).0
    ∙ restart_asleep-instances r a.restart
    ∙ pc_resume-instances enabled c a.wake

-- A code 0 comes with an instance and keeps the reference, an error comes without and puts it.
open_instance_outcomes :
    (a : OpenFileAnswers) (d : Domain) (usage : ℕ)
    → let (ret, inst, usage') = open_instance a d usage in
      (ret ≡ 0) × (inst ≢ none) × (usage' ≡ usage)
      ⊎ (ret ≢ 0) × (inst ≡ none) × (usage' ≡ usage - 1)
unfolding open_instance
open_instance_outcomes a d usage = ground arith

length-joined :
    (is : List Inst) (inst : Option Inst) → inst ≢ none → length (joined is inst) ≡ length is + 1
length-joined is none h = absurd (h refl)
length-joined is (some i) h = length-append is (i ∷ [])

-- What an open adds to the count of references and to the instances.
abbrev pub Balanced : Core → ℕ → ℕ × Core × ℕ → Type 0
Balanced c usage r =
    (r.0 ≡ 0) × (r.2 ≡ usage + 1) × (length r.1.instances ≡ length c.instances + 1)
    ⊎ (r.0 ≢ 0) × (r.2 ≡ usage) × (r.1.instances ≡ c.instances)

join_core-Balanced :
    (c : Core) (usage : ℕ) (a : OpenFileAnswers) (d : Domain)
    → Balanced c usage (join_core c (open_instance a d (usage + 1)))
unfolding join_core
join_core-Balanced c usage a d = elim (open_instance_outcomes a d (usage + 1)) [
  | inl (ok, some_inst, held) ↦
      inl (ok, held, length-joined c.instances (open_instance a d (usage + 1)).1 some_inst)
  | inr (bad, no_inst, put) ↦ inr (bad, omega (arith, put), rw no_inst refl)
]

open_resumed-Balanced :
    (enabled : Bool) (c : Core) (usage : ℕ) (a : OpenFileAnswers) (d : Domain)
    → Balanced c usage (open_resumed enabled c (usage + 1) a d)
unfolding open_resumed
open_resumed-Balanced enabled c usage a d =
    let r : ℕ × Core = open_core enabled c a in
    elim (Bool-cases (r.0 == 0)) [
      | inl ok ↦ rw ok (
          subst
            (λ is.
              Balanced (record c { instances = is }) usage
                (join_core r.1 (open_instance a d (usage + 1))))
            (open_core-instances enabled c a) (join_core-Balanced r.1 usage a d))
      | inr bad ↦ rw bad (inr (==→ne _ _ bad, omega arith, open_core-instances enabled c a))
    ]

open_device-Balanced :
    (enabled : Bool) (c : Core) (usage : ℕ) (a : OpenFileAnswers) (d : Option Domain)
    → Balanced c usage (open_device enabled c usage a d)
unfolding open_device
open_device-Balanced enabled c usage a none = inr (omega arith, refl, refl)
open_device-Balanced enabled c usage a (some d) = elim (Bool-cases (a.resume == 0)) [
  | inl ok ↦ rw ok (open_resumed-Balanced enabled c usage a d)
  | inr bad ↦ rw bad (inr (==→ne _ _ bad, refl, refl))
]

-- An open that returns 0 keeps the one reference that it took on the device and adds one instance to
-- the core; one that returns an error has put the reference, if it was taken, and leaves the
-- instances as they were, whichever of its steps failed.
pub open_file-Balanced :
    (enabled : Bool) (c : Core) (usage : ℕ) (a : OpenFileAnswers)
    → Balanced c usage (open_file enabled c usage a)
unfolding open_file
open_file-Balanced enabled c usage a =
    either_branch (Balanced c usage) (not a.allowed) (eacces, c, usage)
      (open_device enabled c usage a a.domain) (inr (omega arith, refl, refl))
      (open_device-Balanced enabled c usage a a.domain)
