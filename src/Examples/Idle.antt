-- ===== src/Examples/Idle.antt =====
-- A core on VPU5 whose VPU collapses and returns, and the opens of its device.
use nabu_iris.Common.{true, false, some, List, [], ◌∷◌, ◌≡◌, ◌≢◌, arith, refl, inl}
use nabu_iris.Instance.{Domain}
use nabu_iris.Core.{Core, CoreState}
use nabu_iris.Core.Vpu.{poll_status, vpu_boot_firmware, vpu_power_on}
use nabu_iris.Core.Boot.Resources.{IsUp, Started}
use nabu_iris.Core.Collapse.{
  IdleAnswers, WakeAnswers, leave_collapse, pc_exit, pc_resume, wake_firmware,
}
use nabu_iris.Core.Collapse.Powered.{Awake, Asleep, Retained, Returned, pc_exit_outcomes}
use nabu_iris.Core.Collapse.Granted.{Granted}
use nabu_iris.Core.Collapse.Trace.{
  PcEvent, work, suspend, wake, opens, fails, closes, apply_events, Settled, AreAnswered,
  apply_events-Settled,
}
use nabu_iris.Session.{no_inst}
use nabu_iris.Session.Files.{OpenFileAnswers, open_core, open_instance, open_resumed, open_file}
use nabu_iris.Session.Files.Opening.{open_core-Started, open_core_error}
use nabu_iris.Session.Files.Balance.{Balanced, open_file-Balanced}
use nabu_iris.Session.Files.Asleep.{failed_wake_underflows, late_failure_stays_on}
use nabu_iris.Examples.Data.{
  off_core, off_core-IsOff, up_core, power_ok, boot_ok, broken_core, broken_core-IsUp,
}

abbrev idle_ok : IdleAnswers
idle_ok = record {
  ctrl_status = 0x40000001;
  cpu_status = 1;
  pc_prep = 0;
  poll_ready = 0;
  poll_wfi = 0;
  hw_state = 0;
}

abbrev wake_ok : WakeAnswers
wake_ok = record { power = power_ok; hw_state = 0; status = λ i. 1; interframe = 0 }

abbrev asleep_core : Core
asleep_core = record up_core {
  instances = [];
  vpu_suspended = true;
  vpu_powered = false;
  rails = record { controller = 0; codec = 0; icc_vote = false; underflow = false };
}

asleep_core-Asleep : Asleep asleep_core
asleep_core-Asleep = record {
  deferred = refl;
  suspended = refl;
  power = record { controller = refl; codec = refl; balanced = refl };
  unused = refl;
}

abbrev busy_core : Core
busy_core = record up_core { instances = no_inst ∷ [] }

busy_core-Settled : Settled busy_core
busy_core-Settled = (
  refl,
  refl,
  inl (record {
    deferred = refl;
    running = refl;
    powered = refl;
    power = record { controller = refl; codec = refl; balanced = refl };
  }),
)

-- The session closes, the VPU collapses, wakes for the next open and for one that fails.
abbrev idle_events : List PcEvent
idle_events =
    closes
    ∷ work idle_ok
    ∷ opens wake_ok no_inst
    ∷ closes
    ∷ suspend idle_ok
    ∷ wake wake_ok
    ∷ fails wake_ok
    ∷ []

booted : vpu_boot_firmware wake_ok.status ≡ 0
unfolding vpu_boot_firmware poll_status
booted = refl

wake_ok-Granted : Granted wake_ok
wake_ok-Granted = (refl, refl, refl, refl, refl, refl, refl, booted, refl)

idle_answered : AreAnswered idle_events
idle_answered = (tt, (tt, (wake_ok-Granted, (tt, (tt, (refl, (wake_ok-Granted, tt)))))))

apply_events-Settled_example : Settled (apply_events busy_core idle_events)
apply_events-Settled_example =
    apply_events-Settled busy_core idle_events idle_answered busy_core-Settled

pc_exit_outcomes_example :
    let (ret, c') = pc_exit asleep_core wake_ok in Retained asleep_core c' × Returned ret c'
pc_exit_outcomes_example = pc_exit_outcomes asleep_core wake_ok asleep_core-Asleep refl

abbrev open_ok : OpenFileAnswers
open_ok = record {
  allowed = true;
  domain = some Domain.decoder;
  resume = 0;
  wake = wake_ok;
  restart = boot_ok;
  start = boot_ok;
  retry = boot_ok;
  inst = some no_inst;
  m2m_dev = true;
  m2m_ctx = true;
  inst_init = 0;
}

open_core-Started_example : let (ret, c') = open_core true off_core open_ok in Started ret c'
open_core-Started_example =
    open_core-Started true off_core open_ok off_core-IsOff refl refl refl refl

open_core_error_example :
    let (ret, c') = open_core true broken_core open_ok in
    (ret ≢ 0) × (c'.state ≡ CoreState.deinit) × IsUp c'
open_core_error_example = open_core_error true broken_core open_ok broken_core-IsUp refl refl

open_file-Balanced_example : Balanced off_core 0 (open_file true off_core 0 open_ok)
open_file-Balanced_example = open_file-Balanced true off_core 0 open_ok

-- An open whose VPU does not power on again.
abbrev dead_open : OpenFileAnswers
dead_open = record open_ok { wake = record wake_ok { power = record power_ok { controller = 5 } } }

failed_wake_underflows_example : (open_core true asleep_core dead_open).1.rails.underflow ≡ true
unfolding vpu_power_on
failed_wake_underflows_example =
    failed_wake_underflows asleep_core dead_open refl asleep_core-Asleep (λ e. cc) (omega arith)

-- An open that fails on the codec's initialisation.
abbrev late_open : OpenFileAnswers
late_open = record open_ok { inst_init = 12 }

woken : (pc_resume true asleep_core wake_ok).0 ≡ 0
unfolding pc_resume pc_exit leave_collapse wake_firmware vpu_power_on vpu_boot_firmware poll_status
woken = refl

late_failure_stays_on_example :
    let c' = (open_resumed true asleep_core 1 late_open Domain.decoder).1 in
    Awake c' × (c'.instances ≡ []) × (c'.pc_work_queued ≡ false)
unfolding open_instance
late_failure_stays_on_example =
    late_failure_stays_on asleep_core 1 late_open Domain.decoder refl asleep_core-Asleep refl woken
      refl
