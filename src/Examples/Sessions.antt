-- ===== src/Examples/Sessions.antt =====
-- Two sessions on a VPU5 core.
use nabu_iris.Common.{true, false, List, [], ◌∷◌, ◌≡◌, ◌≢◌, ◌⊎◌, arith, refl}
use nabu_iris.Instance.{Inst, InstState}
use nabu_iris.Core.{Core}
use nabu_iris.Core.Boot.{core_recover}
use nabu_iris.Core.Boot.Resources.{IsUp, Started}
use nabu_iris.Session.{
  open_reserved, reserve_session, release_slot, no_inst, get_mbpf, num_mbs_per_frame, OpenAnswer,
  CloseAnswer, hfi_session_open, hfi_session_close, run_pending_core_recovery,
}
use nabu_iris.Session.Events.{Event, admit, free, load, recover, enter, resize}
use nabu_iris.Session.Life.{Opened, hfi_session_open-Opened}
use nabu_iris.Session.Close.{Closed, hfi_session_close-Closed}
use nabu_iris.Session.Stop.{StopAnswers}
use nabu_iris.Session.Heal.{open_failure_heals}
use nabu_iris.Power.{check_core_mbpf}
use nabu_iris.Session.Setup.{
  Caps, Hole, SetupAnswers, check_inst_mbpf, check_resolution_supported, check_session_supported,
  setup_hole, setup_load, setup_session, vb2_queue_setup,
}
use nabu_iris.Session.Setup.Admission.{IsAdmitted, vb2_queue_setup-IsAdmitted}
use nabu_iris.Examples.Data.{up_core, boot_ok}

abbrev full_hd : Inst
full_hd = record no_inst {
  src_width = 1920;
  src_height = 1088;
  crop_width = 1920;
  crop_height = 1080;
}

abbrev two_core : Core
two_core = record up_core { instances = full_hd ∷ full_hd ∷ [] }

two_core-IsUp : IsUp two_core
two_core-IsUp = record {
  queues = record { deferred = refl; bytes = refl; table = λ e. cc };
  power = record { controller = refl; codec = refl; balanced = refl };
  powered = refl;
  firmware = refl;
}

abbrev events : List Event
events =
    admit 0
    ∷ resize 0 640 480 0 0
    ∷ load 0 60
    ∷ admit 1
    ∷ enter 1 InstState.error
    ∷ free 1
    ∷ load 1 30
    ∷ free 0
    ∷ recover boot_ok
    ∷ []

abbrev timed_out : OpenAnswer
timed_out = record { ret = 110; session_id = 0; failed = true }

hfi_session_open-Opened_example :
    let (ret, c') = hfi_session_open two_core 0 boot_ok timed_out in
    Opened ret c' 0 ⊎ (ret ≢ 0) × (c' ≡ run_pending_core_recovery two_core boot_ok)
hfi_session_open-Opened_example =
    hfi_session_open-Opened two_core 0 boot_ok timed_out (omega arith) refl

abbrev open_core : Core
open_core = record up_core {
  instances =
      record full_hd {
        state = InstState.init;
        hfi_session_opened = true;
        core_load_reserved = true;
      }
      ∷ [];
}

abbrev unanswered : CloseAnswer
unanswered = record { ret = 0; answered = false; failed = false }

hfi_session_close-Closed_example :
    let (ret, c') = hfi_session_close open_core 0 unanswered in Closed ret c' 0
hfi_session_close-Closed_example =
    hfi_session_close-Closed open_core 0 unanswered (omega arith) refl

open_failure_heals_example :
    let failed = (hfi_session_open two_core 0 boot_ok timed_out).1 in
    let (ret, c') = core_recover (record failed { recovery_pending = false }) boot_ok in
    (run_pending_core_recovery failed boot_ok ≡ c') × Started ret c' × (c'.recovery_pending ≡ false)
unfolding hfi_session_open open_reserved reserve_session run_pending_core_recovery release_slot
    get_mbpf num_mbs_per_frame
open_failure_heals_example =
    open_failure_heals two_core 0 boot_ok boot_ok timed_out two_core-IsUp (λ e. cc) refl refl
      (omega arith) refl refl (omega arith) refl

abbrev streaming_core : Core
streaming_core = record up_core {
  instances = record full_hd { state = InstState.input_streaming; hfi_session_opened = true } ∷ [];
}

abbrev stop_ok : StopAnswers
stop_ok = record { stop = 0; destroy_input = 0; destroy_output = 0; close = unanswered }

abbrev caps : Caps
caps = record {
  min_frame_width = 96;
  max_frame_width = 8192;
  min_frame_height = 96;
  max_frame_height = 8192;
  max_mbpf = 138240;
}

abbrev no_hole : Hole
no_hole = record { vp9_iova_hole_size = 0; dma = 0 }

-- The capture queue of the session that is open.
abbrev capture_setup : SetupAnswers
capture_setup = record {
  is_src = false;
  num_planes = 0;
  size = 0;
  fmt_planes = 1;
  sizeimage = 3133440;
  boot = boot_ok;
  session_open = timed_out;
  admission_fps = 60;
  needs_hole = true;
  hole_ok = true;
}

capture_admitted : (vb2_queue_setup caps open_core 0 no_hole capture_setup).0 ≡ 0
unfolding vb2_queue_setup setup_session check_session_supported check_core_mbpf check_inst_mbpf
    check_resolution_supported hfi_session_open setup_load setup_hole get_mbpf num_mbs_per_frame
capture_admitted = refl

vb2_queue_setup-IsAdmitted_example :
    IsAdmitted 0 (vb2_queue_setup caps open_core 0 no_hole capture_setup)
vb2_queue_setup-IsAdmitted_example =
    vb2_queue_setup-IsAdmitted caps open_core 0 no_hole capture_setup refl refl capture_admitted
