-- ===== src/Examples/Cores.antt =====
-- A core that starts, runs and stops, with every answer good and with some bad.
use nabu_iris.Common.{ℕ, ◌+◌, ◌-◌, ◌<◌, ◌==◌, if◌then◌else◌, some, [], ◌∷◌, ◌≡◌, arith, refl}
use nabu_iris.Queue.{IfaceQueue, ifaceq_queue_size, queue_write}
use nabu_iris.Queue.Bytes.{bytes}
use nabu_iris.Queue.Valid.{Holds, used}
use nabu_iris.Queue.Fifo.{write-Holds}
use nabu_iris.Core.{Core, CoreState}
use nabu_iris.Core.Table.{queue_init, queues_init}
use nabu_iris.Core.Table.Layout.{queue_init-Holds}
use nabu_iris.Core.Vpu.{vpu_boot_firmware}
use nabu_iris.Core.Vpu.Handshake.{boot_answered}
use nabu_iris.Core.Boot.{BootAnswers, core_init, core_deinit, core_recover}
use nabu_iris.Core.Boot.Resources.{Started}
use nabu_iris.Core.Boot.Start.{core_recover-Started}
use nabu_iris.Core.Boot.Leaks.{core_init_leaks}
use nabu_iris.Core.Access.{RuntimePm, cmd_write_locked, cmd_write}
use nabu_iris.Core.Access.Balance.{usage_after, cmd_write_unbalanced}
use nabu_iris.Core.Access.Delivery.{cmd_write_locked-Holds}
use nabu_iris.Examples.Data.{
  small_packet, small_packet-IsPacket, sm8150, off_core, up_core, up_core-IsUp, boot_ok, power_ok,
}

core_recover-Started_example : let (ret, c') = core_recover up_core boot_ok in Started ret c'
core_recover-Started_example = core_recover-Started up_core boot_ok up_core-IsUp (λ e. cc) refl

-- CTRL_STATUS, by the number of the poll.
abbrev at_once : ℕ → ℕ
at_once i = 1

abbrev never : ℕ → ℕ
never i = 0

boot_answered_example : vpu_boot_firmware at_once ≡ 0
boot_answered_example =
    boot_answered at_once 0 (λ i h. absurd (omega arith)) (omega arith) (omega arith)

-- The rings of a core that just started.
abbrev fresh_ring : IfaceQueue
fresh_ring = queue_init sm8150 4096 1

abbrev fresh_core : Core
fresh_core = record up_core { command_queue = some fresh_ring }

fresh_room : used ifaceq_queue_size fresh_ring + 8 < ifaceq_queue_size
unfolding queue_init
fresh_room = omega arith

cmd_write_locked-Holds_example :
    let q' = (queue_write ifaceq_queue_size fresh_ring small_packet 8).1 in
    (cmd_write_locked fresh_core small_packet 8
      ≡ some (0, record fresh_core { command_queue = some q'; doorbells = 1 }))
    × Holds ifaceq_queue_size q' (bytes small_packet 0 8 ∷ [])
cmd_write_locked-Holds_example =
    cmd_write_locked-Holds fresh_core fresh_ring small_packet 8 [] refl refl
      (queue_init-Holds sm8150 4096 1) small_packet-IsPacket fresh_room

abbrev answered_ring : IfaceQueue
answered_ring = (queue_write ifaceq_queue_size fresh_ring small_packet 8).1

abbrev answered_core : Core
answered_core = record up_core { message_queue = some answered_ring }

answered_ring-Holds : Holds ifaceq_queue_size answered_ring (bytes small_packet 0 8 ∷ [])
answered_ring-Holds =
    (write-Holds ifaceq_queue_size fresh_ring small_packet 8 [] (queue_init-Holds sm8150 4096 1)
      small_packet-IsPacket fresh_room).1

-- A device whose references are counted, and whose resume works or does not.
abbrev counted_pm : ℕ → RuntimePm
counted_pm answer = record {
  Device = ℕ;
  usage = λ n. n;
  resume_and_get = λ n. (answer, if answer == 0 then n + 1 else n);
  put = λ n. n - 1;
  resume_ok = λ d ok. ground arith;
  resume_failed = λ d bad. ground arith;
  put_drops = λ d. refl;
}

cmd_write_unbalanced_example :
    usage_after (counted_pm 13) (cmd_write (counted_pm 13) fresh_core 2 small_packet 8) 2 ≡ 1
cmd_write_unbalanced_example =
    cmd_write_unbalanced (counted_pm 13) fresh_core 2 small_packet 8 (omega arith)

-- The runtime resume of the controller's domain fails.
abbrev unresumed : BootAnswers
unresumed = record boot_ok { power = record power_ok { controller_get = 5 } }

core_init_leaks_example :
    let (ret, c') = core_init off_core unresumed in
    (ret ≡ 5)
    × (c'.rails.controller ≡ 0 + 1)
    × (c'.state ≡ CoreState.deinit)
    × (core_deinit c' ≡ c')
unfolding queues_init
core_init_leaks_example = core_init_leaks off_core unresumed refl refl refl refl (omega arith)
