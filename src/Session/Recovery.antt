-- ===== src/Session/Recovery.antt =====
-- The recovery that a failed session asks for: it waits for the last session, and leaves a core
-- that was started anew.
use nabu_iris.Common.{◌<◌, true, false, total, ◌≡◌, ◌≢◌, refl, arith}
use nabu_iris.Core.{Core, CoreState}
use nabu_iris.Core.Boot.{BootAnswers, core_recover}
use nabu_iris.Core.Boot.Resources.{IsUp, Started}
use nabu_iris.Core.Boot.Start.{core_recover-Started}
use nabu_iris.Core.Boot.Keeps.{core_recover-Kept}
use nabu_iris.Session.{opened, run_pending_core_recovery}

-- A core that holds everything, with a recovery pending and no session open.
pub record IsBroken (c : Core) : Type 0 where
  pub up : IsUp c
  pub on : c.state ≢ CoreState.deinit
  pub pending : c.recovery_pending ≡ true
  pub idle : total opened c.instances ≡ 0

-- While a session is open, a pending recovery waits and nothing is changed.
pub recovery_waits :
    (c : Core) (b : BootAnswers) → 0 < total opened c.instances → run_pending_core_recovery c b ≡ c
unfolding run_pending_core_recovery
recovery_waits c b busy = ground arith

-- Once none is, it is run once: the core ends as after a start from nothing, where the runtime resume
-- of the controller's domain does not fail, and the request is gone.
pub recovery_runs :
    (c : Core) (b : BootAnswers)
    → IsBroken c
    → b.power.controller_get ≡ 0
    → let (ret, c') = core_recover (record c { recovery_pending = false }) b in
      (run_pending_core_recovery c b ≡ c') × Started ret c' × (c'.recovery_pending ≡ false)
unfolding run_pending_core_recovery
recovery_runs c b broken get = (
  rw broken.pending (rw broken.idle refl),
  core_recover-Started (record c { recovery_pending = false }) b up broken.on get,
  (core_recover-Kept (record c { recovery_pending = false }) b).2,
)
  where
    up : IsUp (record c { recovery_pending = false })
    up =
        let u : IsUp c = broken.up in
        record {
          queues = record {
            deferred = u.queues.deferred;
            bytes = u.queues.bytes;
            table = u.queues.table;
          };
          power = record {
            controller = u.power.controller;
            codec = u.power.codec;
            balanced = u.power.balanced;
          };
          powered = u.powered;
          firmware = u.firmware;
        }
