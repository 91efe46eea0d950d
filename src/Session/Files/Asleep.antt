-- ===== src/Session/Files/Asleep.antt =====
-- An open of a core whose VPU is asleep: the failures that leave the power in a bad state.
use nabu_iris.Common.{ℕ, true, false, Option, none, [], ◌≡◌, ◌≢◌, arith, refl, ap, sym, ◌∙◌}
use mathlib.Core.Path.{subst}
use nabu_iris.Instance.{Inst, Domain}
use nabu_iris.Core.{Core, CoreState}
use nabu_iris.Core.Vpu.{PowerAnswers, vpu_power_on, vpu_power_off}
use nabu_iris.Core.Table.{queues_deinit}
use nabu_iris.Core.Boot.{BootAnswers, core_init, core_deinit, core_recover, fw_unload}
use nabu_iris.Core.Boot.Underflow.{Marked, core_init-Marked}
use nabu_iris.Core.Collapse.{WakeAnswers, wake_firmware, leave_collapse, pc_exit, pc_resume}
use nabu_iris.Core.Collapse.Granted.{pc_resume_got, returned-Awake}
use nabu_iris.Core.Collapse.Powered.{Awake, Asleep, pc_resume_outcomes}
use nabu_iris.Session.Files.{
  OpenFileAnswers, taken, restart_asleep, retry_start, open_core, open_instance, join_core,
  open_resumed,
}

core_deinit-Marked : (c : Core) → Marked c → Marked (core_deinit c)
unfolding core_deinit queues_deinit vpu_power_off
core_deinit-Marked c m = ground arith

core_recover-Marked : (c : Core) (b : BootAnswers) → Marked c → Marked (core_recover c b).1
unfolding core_recover
core_recover-Marked c b m = core_init-Marked (core_deinit c) b (core_deinit-Marked c m)

retry_start-Marked : (r : ℕ × Core) (b : BootAnswers) → Marked r.1 → Marked (retry_start r b).1
unfolding retry_start
retry_start-Marked r b m = ground (arith, core_recover-Marked (taken r.1) b m)

unheld_power_off : (c : Core) → c.vpu_powered ≡ true → c.rails.codec ≡ 0 → Marked (vpu_power_off c)
unfolding vpu_power_off
unheld_power_off c p z = ground arith

queues_deinit-Marked : (c : Core) → Marked c → Marked (queues_deinit c)
unfolding queues_deinit
queues_deinit-Marked c m = ground arith

-- A shutdown of a core that is marked as powered while it holds no power.
unheld_shutdown :
    (c : Core)
    → c.vpu_powered ≡ true
    → c.rails.codec ≡ 0
    → c.state ≢ CoreState.deinit
    → Marked (core_deinit c)
unfolding core_deinit
unheld_shutdown c p z s =
    ground (
      arith,
      queues_deinit-Marked (vpu_power_off (fw_unload c)) (unheld_power_off (fw_unload c) p z),
    )

unpowered :
    (c : Core) (a : PowerAnswers)
    → Asleep c
    → (vpu_power_on c a).0 ≢ 0
    → let r = vpu_power_on (record c { pc_work_queued = false }) a in
      (r.0 ≢ 0) × (r.1.vpu_powered ≡ true) × (r.1.rails.codec ≡ 0) × (r.1.state ≡ c.state)
unfolding vpu_power_on
unpowered c a s bad = ground arith

unpowered_wake :
    (c : Core) (a : WakeAnswers)
    → c.platform.legacy_vpu5 ≡ true
    → Asleep c
    → (vpu_power_on c a.power).0 ≢ 0
    → let (ret, c') = pc_resume true c a in
      (ret ≢ 0) × (c'.vpu_powered ≡ true) × (c'.rails.codec ≡ 0) × (c'.state ≡ c.state)
unfolding pc_resume pc_exit leave_collapse
unpowered_wake c a l s bad = ground (arith, unpowered c a.power s bad)

-- On VPU5, with the power collapse enabled, the open of a core that is not in DEINIT and whose VPU is
-- asleep, where the VPU's power-on fails: the restart that `iris_open` makes of the core drops power
-- references that are not held.
pub failed_wake_underflows :
    (c : Core) (a : OpenFileAnswers)
    → c.platform.legacy_vpu5 ≡ true
    → Asleep c
    → c.state ≢ CoreState.deinit
    → (vpu_power_on c a.wake.power).0 ≢ 0
    → (open_core true c a).1.rails.underflow ≡ true
unfolding open_core core_recover
failed_wake_underflows c a l s d bad =
    let (failed, powered, unheld, state) = unpowered_wake c a.wake l s bad in
    let resumed : Core = taken (pc_resume true c a.wake).1 in
    let off : Marked (core_deinit resumed) =
      unheld_shutdown resumed powered unheld (ground arith) in
    let awake : Core = restart_asleep (pc_resume true c a.wake) a.restart in
    let restarted : Marked awake =
      ground (arith, core_init-Marked (core_deinit resumed) a.restart off) in
    retry_start-Marked (core_init awake a.start) a.retry (core_init-Marked awake a.start restarted)

power_on_unqueued :
    (c : Core) (a : PowerAnswers) → (vpu_power_on c a).1.pc_work_queued ≡ c.pc_work_queued
unfolding vpu_power_on
power_on_unqueued c a = ground arith

wake_unqueued :
    (c : Core) (a : WakeAnswers) → (wake_firmware c a).1.pc_work_queued ≡ c.pc_work_queued
unfolding wake_firmware vpu_power_off
wake_unqueued c a = ground arith

woken_unqueued :
    (c : Core) (a : WakeAnswers)
    → c.pc_work_queued ≡ false
    → (leave_collapse c a).1.pc_work_queued ≡ false
unfolding leave_collapse
woken_unqueued c a q =
    ground (arith, power_on_unqueued c a.power, wake_unqueued (vpu_power_on c a.power).1 a)

init_running : (c : Core) (b : BootAnswers) → c.state ≡ CoreState.init → core_init c b ≡ (0, c)
unfolding core_init
init_running c b s = ground arith

restart_woken : (r : ℕ × Core) (b : BootAnswers) → r.0 ≡ 0 → restart_asleep r b ≡ r.1
restart_woken r b ok = ground arith

retry_good : (c : Core) (b : BootAnswers) → retry_start (0, c) b ≡ (0, c)
unfolding retry_start
retry_good c b = refl

opened_woken :
    (c : Core) (a : OpenFileAnswers)
    → (pc_resume true c a.wake).0 ≡ 0
    → (pc_resume true c a.wake).1.state ≡ CoreState.init
    → open_core true c a ≡ (0, (pc_resume true c a.wake).1)
unfolding open_core
opened_woken c a ok s =
    let r = pc_resume true c a.wake in
    ap (λ d. retry_start (core_init d a.start) a.retry) (restart_woken r a.restart ok)
    ∙ ap (λ t. retry_start t a.retry) (init_running r.1 a.start s)
    ∙ retry_good r.1 a.retry

resume_unqueued :
    (c : Core) (a : WakeAnswers)
    → c.platform.legacy_vpu5 ≡ true
    → (pc_resume true c a).1.pc_work_queued ≡ false
unfolding pc_resume pc_exit
resume_unqueued c a l = ground (arith, woken_unqueued (record c { pc_work_queued = false }) a)

join_nothing : (c : Core) (r : ℕ × Option Inst × ℕ) → r.1 ≡ none → (join_core c r).1 ≡ c
unfolding join_core
join_nothing c r e = rw e refl

resumed_open :
    (c : Core) (usage : ℕ) (a : OpenFileAnswers) (d : Domain)
    → (open_core true c a).0 ≡ 0
    → (open_instance a d usage).1 ≡ none
    → (open_resumed true c usage a d).1 ≡ (open_core true c a).1
unfolding open_resumed
resumed_open c usage a d ok e =
    rw ok (join_nothing (open_core true c a).1 (open_instance a d usage) e)

-- On VPU5, with the power collapse enabled, an open that finds the VPU asleep under a core in INIT,
-- wakes it and then fails on the instance: the VPU is left on with no session open and no collapse
-- queued.
pub late_failure_stays_on :
    (c : Core) (usage : ℕ) (a : OpenFileAnswers) (d : Domain)
    → c.platform.legacy_vpu5 ≡ true
    → Asleep c
    → c.state ≡ CoreState.init
    → (pc_resume true c a.wake).0 ≡ 0
    → (open_instance a d usage).1 ≡ none
    → let c' = (open_resumed true c usage a d).1 in
      Awake c' × (c'.instances ≡ []) × (c'.pc_work_queued ≡ false)
late_failure_stays_on c usage a d l s i ok e =
    let r = pc_resume true c a.wake in
    let (kept, back) = pc_resume_outcomes c a.wake l s (pc_resume_got c a.wake l s ok) in
    let awake : Awake r.1 = returned-Awake r.0 r.1 back ok in
    let core : open_core true c a ≡ (0, r.1) = opened_woken c a ok (kept.state ∙ i) in
    let left : (open_resumed true c usage a d).1 ≡ r.1 =
      resumed_open c usage a d (ap (λ t. t.0) core) e ∙ ap (λ t. t.1) core in
    subst (λ x. Awake x × (x.instances ≡ []) × (x.pc_work_queued ≡ false)) (sym left)
      (awake, kept.sessions ∙ s.unused, resume_unqueued c a.wake l)
