-- ===== src/Core/Collapse/Trace.antt =====
-- The VPU's power over any sequence of opens, closes, delayed works, suspends and resumes of the
-- system.
use nabu_iris.Common.{true, ◌≡◌, ◌⊎◌, inl, inr, List, [], ◌∷◌, arith, if◌then◌else◌}
use nabu_iris.Instance.{Inst}
use nabu_iris.Core.{Core, CoreState}
use nabu_iris.Core.Vpu.{vpu_power_off}
use nabu_iris.Core.Collapse.{
  IdleAnswers, WakeAnswers, vpu_prepare_pc, pc_enter, pc_resume, pc_schedule, pc_handler,
  pm_suspend, pm_resume, system_suspend, system_resume,
}
use nabu_iris.Core.Collapse.Granted.{Granted, pc_resume-Granted}
use nabu_iris.Core.Collapse.Powered.{
  Awake, Asleep, pc_handler_outcomes, pm_suspend_outcomes, pm_resume_outcomes,
}

-- What happens to a core in INIT. An open that wakes the VPU adds its session, or fails on its
-- instance; an open whose wake fails restarts the core and is no event. A close removes its session
-- and schedules the work; the work runs only where it is queued.
pub data PcEvent : Type 0 where
  work : IdleAnswers → PcEvent
  suspend : IdleAnswers → PcEvent
  wake : WakeAnswers → PcEvent
  opens : WakeAnswers → Inst → PcEvent
  fails : WakeAnswers → PcEvent
  closes : PcEvent

abbrev without_first : List Inst → List Inst
without_first [] = []
without_first (i ∷ is) = is

abbrev pub add_session : Core → Inst → Core
add_session c i = record c { instances = i ∷ c.instances }

unfoldable pub apply_event : Core → PcEvent → Core
apply_event c (work a) = if c.pc_work_queued then pc_handler true c a else c
apply_event c (suspend a) = (system_suspend c a).1
apply_event c (wake a) = (system_resume true c a).1
apply_event c (opens a i) = add_session (pc_resume true c a).1 i
apply_event c (fails a) = (pc_resume true c a).1
apply_event c closes = pc_schedule true (record c { instances = without_first c.instances })

unfoldable pub apply_events : Core → List PcEvent → Core
apply_events c [] = c
apply_events c (e ∷ es) = apply_events (apply_event c e) es

-- A wake for an open succeeds; that of the system may fail, but not on the runtime resume of the
-- controller's domain.
abbrev pub IsAnswered : PcEvent → Type 0
IsAnswered (opens a i) = Granted a
IsAnswered (fails a) = Granted a
IsAnswered (wake a) = a.power.controller_get ≡ 0
IsAnswered _ = Unit

abbrev pub AreAnswered : List PcEvent → Type 0
AreAnswered [] = Unit
AreAnswered (e ∷ es) = IsAnswered e × AreAnswered es

-- The core is in INIT, and its VPU is on, or it is asleep and no session is open.
abbrev pub Settled : Core → Type 0
Settled c = (c.platform.legacy_vpu5 ≡ true) × (c.state ≡ CoreState.init) × (Awake c ⊎ Asleep c)

apply_event-Settled :
    (c : Core) (e : PcEvent) → IsAnswered e → Settled c → Settled (apply_event c e)
unfolding apply_event
apply_event-Settled c (work a) g (l, i, inl w) = ground (arith, pc_handler_outcomes true c a w)
apply_event-Settled c (work a) g (l, i, inr s) = unfold pc_handler pc_schedule in ground arith
apply_event-Settled c (suspend a) g (l, i, inl w) =
    unfold system_suspend in ground (arith, pm_suspend_outcomes c a w)
apply_event-Settled c (suspend a) g (l, i, inr s) = unfold system_suspend pm_suspend in ground arith
apply_event-Settled c (wake a) g (l, i, inl w) = unfold system_resume pm_resume in ground arith
apply_event-Settled c (wake a) g (l, i, inr s) =
    unfold system_resume in ground (arith, pm_resume_outcomes true c a s g)
apply_event-Settled c (opens a n) g (l, i, inl w) = unfold pc_resume in ground arith
apply_event-Settled c (opens a n) g (l, i, inr s) = ground (arith, pc_resume-Granted c a l s g)
apply_event-Settled c (fails a) g (l, i, inl w) = unfold pc_resume in ground arith
apply_event-Settled c (fails a) g (l, i, inr s) = ground (arith, pc_resume-Granted c a l s g)
apply_event-Settled c closes g (l, i, inl w) = unfold pc_schedule in ground arith
apply_event-Settled c closes g (l, i, inr s) = unfold pc_schedule in ground arith

-- On VPU5, with the power collapse enabled, from a core in INIT whose VPU is on with each power
-- domain held once, or asleep with none held and no session open: so it is after any sequence of
-- opens that succeed or fail behind the wake, closes that run no recovery, works, suspends and
-- resumes of the system. The wakes for the opens succeed; those of the system may fail, but not on the
-- runtime resume of the controller's domain.
pub apply_events-Settled :
    (c : Core) (es : List PcEvent) → AreAnswered es → Settled c → Settled (apply_events c es)
unfolding apply_events
apply_events-Settled c [] g s = s
apply_events-Settled c (e ∷ es) g s =
    apply_events-Settled (apply_event c e) es g.1 (apply_event-Settled c e g.0 s)

-- The queued collapse of an idle VPU, once the firmware reports that it is ready and the secure world
-- agrees, switches the power off.
pub queued_collapse_powers_off :
    (c : Core) (a : IdleAnswers)
    → Settled c
    → c.pc_work_queued ≡ true
    → c.instances ≡ []
    → vpu_prepare_pc c.platform.legacy_vpu5 a ≡ 0
    → a.hw_state ≡ 0
    → Asleep (apply_event c (work a))
unfolding apply_event pc_handler pc_enter pc_schedule vpu_power_off
queued_collapse_powers_off c a s q idle ready agreed = ground arith
