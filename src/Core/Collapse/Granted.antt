-- ===== src/Core/Collapse/Granted.antt =====
-- A return from a collapse whose steps all succeed.
use nabu_iris.Common.{ℕ, true, false, ◌≡◌, inl, inr, arith}
use nabu_iris.Core.{Core}
use nabu_iris.Core.Vpu.{PowerAnswers, vpu_power_on, vpu_boot_firmware}
use nabu_iris.Core.Collapse.{WakeAnswers, wake_firmware, leave_collapse, pc_exit, pc_resume}
use nabu_iris.Core.Collapse.Powered.{Awake, Asleep, Retained, Returned, pc_resume_outcomes}

-- A return that succeeded left the VPU awake.
pub returned-Awake : (ret : ℕ) (c : Core) → Returned ret c → ret ≡ 0 → Awake c
returned-Awake ret c (inl (_, awake)) ok = awake
returned-Awake ret c (inr (bad, _)) ok = absurd (bad ok)

-- Every step of a return from a collapse is answered with success.
abbrev pub Granted : WakeAnswers → Type 0
Granted a =
    (a.power.icc ≡ 0)
    × (a.power.controller_get ≡ 0)
    × (a.power.controller ≡ 0)
    × (a.power.codec_get ≡ 0)
    × (a.power.codec ≡ 0)
    × (a.power.opp ≡ 0)
    × (a.hw_state ≡ 0)
    × (vpu_boot_firmware a.status ≡ 0)
    × (a.interframe ≡ 0)

power_on-Granted :
    (c : Core) (a : WakeAnswers)
    → c.platform.defer_vcodec_power ≡ true
    → Granted a
    → (vpu_power_on c a.power).0 ≡ 0
unfolding vpu_power_on
power_on-Granted c a d g = ground arith

wake-Granted : (c : Core) (a : WakeAnswers) → Granted a → (wake_firmware c a).0 ≡ 0
unfolding wake_firmware
wake-Granted c a g = ground arith

leave-Granted :
    (c : Core) (a : WakeAnswers)
    → c.platform.defer_vcodec_power ≡ true
    → Granted a
    → (leave_collapse c a).0 ≡ 0
unfolding leave_collapse
leave-Granted c a d g =
    ground (arith, power_on-Granted c a d g, wake-Granted (vpu_power_on c a.power).1 a g)

resumed-Granted :
    (c : Core) (a : WakeAnswers)
    → c.platform.legacy_vpu5 ≡ true
    → Asleep c
    → Granted a
    → (pc_resume true c a).0 ≡ 0
unfolding pc_resume pc_exit
resumed-Granted c a l s g =
    ground (arith, leave-Granted (record c { pc_work_queued = false }) a s.deferred g)

power_on_got : (c : Core) (a : PowerAnswers) → (vpu_power_on c a).0 ≡ 0 → a.controller_get ≡ 0
unfolding vpu_power_on
power_on_got c a ok = ground arith

left_got : (c : Core) (a : WakeAnswers) → (leave_collapse c a).0 ≡ 0 → a.power.controller_get ≡ 0
unfolding leave_collapse
left_got c a ok = power_on_got c a.power (ground arith)

-- A resume of a VPU that is asleep which succeeds had the controller's domain resumed.
pub pc_resume_got :
    (c : Core) (a : WakeAnswers)
    → c.platform.legacy_vpu5 ≡ true
    → Asleep c
    → (pc_resume true c a).0 ≡ 0
    → a.power.controller_get ≡ 0
unfolding pc_resume pc_exit
pc_resume_got c a l s ok = left_got (record c { pc_work_queued = false }) a (ground arith)

-- The resume for a client then succeeds, and leaves a VPU that was asleep awake.
pub pc_resume-Granted :
    (c : Core) (a : WakeAnswers)
    → c.platform.legacy_vpu5 ≡ true
    → Asleep c
    → Granted a
    → let (ret, c') = pc_resume true c a in Retained c c' × (ret ≡ 0) × Awake c'
pc_resume-Granted c a l s g =
    let (kept, back) = pc_resume_outcomes c a l s g.1 in
    let ok : (pc_resume true c a).0 ≡ 0 = resumed-Granted c a l s g in
    (kept, ok, returned-Awake (pc_resume true c a).0 (pc_resume true c a).1 back ok)
