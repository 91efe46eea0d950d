-- ===== src/Session/Files/Opening.antt =====
-- The core under `iris_open`: a first open, an open of a core in ERROR, and an open whose VPU is
-- asleep.
use nabu_iris.Common.{ℕ, Bool, false, ◌≡◌, ◌≢◌, inl, inr, arith, sym, ap}
use mathlib.Core.Path.{subst}
use nabu_iris.Core.{Core, CoreState}
use nabu_iris.Core.Boot.{BootAnswers, core_init}
use nabu_iris.Core.Boot.Resources.{IsOff, IsUp, Started}
use nabu_iris.Core.Boot.Start.{core_init-Started, core_recover-Started, core_init_error}
use nabu_iris.Core.Collapse.{WakeAnswers, pc_resume}
use nabu_iris.Session.Files.{OpenFileAnswers, taken, restart_asleep, retry_start, open_core}

-- A VPU that is not suspended is left as it is, but for the queued work.
resume_running :
    (enabled : Bool) (c : Core) (a : WakeAnswers)
    → c.vpu_suspended ≡ false
    → pc_resume enabled c a
      ≡ (0, record c { pc_work_queued = (pc_resume enabled c a).1.pc_work_queued })
unfolding pc_resume
resume_running enabled c a s = ground arith

open_core_running :
    (enabled : Bool) (c : Core) (a : OpenFileAnswers)
    → c.vpu_suspended ≡ false
    → open_core enabled c a
      ≡ retry_start
          (core_init
            (record c { pc_work_queued = (pc_resume enabled c a.wake).1.pc_work_queued })
            a.start)
          a.retry
unfolding open_core
open_core_running enabled c a s =
    ap (λ (r : ℕ × Core). retry_start (core_init (restart_asleep r a.restart) a.start) a.retry)
      (resume_running enabled c a.wake s)

retry_start-Started :
    (r : ℕ × Core) (b : BootAnswers)
    → Started r.0 r.1
    → b.power.controller_get ≡ 0
    → Started (retry_start r b).0 (retry_start r b).1
unfolding retry_start
retry_start-Started r b (inl (ok, up, s)) get = ground arith
retry_start-Started r b (inr (inl (bad, up, s))) get =
    ground (arith, core_recover-Started (taken r.1) b (ground arith) (ground arith) get)
retry_start-Started r b (inr (inr (bad, off, s))) get = ground arith

-- On a platform that defers the codec's power, the core's part of the open of a core in DEINIT that
-- holds nothing, with a VPU that is not marked as suspended, and where no runtime resume of the
-- controller's domain fails, ends as a start of the core does, also where the core is power-cycled
-- once because its start ended in ERROR.
pub open_core-Started :
    (enabled : Bool) (c : Core) (a : OpenFileAnswers)
    → IsOff c
    → c.state ≡ CoreState.deinit
    → c.vpu_suspended ≡ false
    → a.start.power.controller_get ≡ 0
    → a.retry.power.controller_get ≡ 0
    → let (ret, c') = open_core enabled c a in Started ret c'
open_core-Started enabled c a off d s get get' =
    let q = (pc_resume enabled c a.wake).1.pc_work_queued in
    let idle : Core = record c { pc_work_queued = q } in
    subst (λ (r : ℕ × Core). Started r.0 r.1) (sym (open_core_running enabled c a s))
      (retry_start-Started (core_init idle a.start) a.retry
        (core_init-Started idle a.start (ground arith) d get) get')

-- The open of a core in ERROR that holds everything fails with no power-cycle and leaves the core in
-- DEINIT with everything still held.
pub open_core_error :
    (enabled : Bool) (c : Core) (a : OpenFileAnswers)
    → IsUp c
    → c.state ≡ CoreState.error
    → c.vpu_suspended ≡ false
    → let (ret, c') = open_core enabled c a in (ret ≢ 0) × (c'.state ≡ CoreState.deinit) × IsUp c'
unfolding retry_start
open_core_error enabled c a up e s =
    let q = (pc_resume enabled c a.wake).1.pc_work_queued in
    let idle : Core = record c { pc_work_queued = q } in
    let (bad, d, up', _) = core_init_error idle a.start (ground arith) e in
    subst (λ (r : ℕ × Core). (r.0 ≢ 0) × (r.1.state ≡ CoreState.deinit) × IsUp r.1)
      (sym (open_core_running enabled c a s)) (ground arith)
