-- ===== src/Core/Boot/Underflow.antt =====
-- The mark that the kernel leaves when a power reference is dropped that is not held: nothing that
-- starts or stops a core takes it away.
use nabu_iris.Common.{not, if◌then◌else◌, ℕ, Option, true, ◌≡◌, arith, ◌==◌, inl, inr, Bool-cases}
use nabu_iris.Core.{Core, CoreState}
use nabu_iris.Core.Table.{queues_init, queues_deinit}
use nabu_iris.Core.Vpu.{PowerAnswers, vpu_power_on, vpu_power_off}
use nabu_iris.Core.Boot.{
  set_core_state, undo_queues, undo_power, FwAnswers, BootAnswers, fw_load,
  wait_for_system_response, set_idle_opp, core_start, core_load, core_power, core_bring_up,
  core_init,
}

abbrev pub Marked : Core → Type 0
Marked c = c.rails.underflow ≡ true

-- What a stage that is made of a call, its undoing and the rest leaves marked.
staged :
    (r : ℕ × Core) (undo : Core) (rest : ℕ × Core)
    → Marked undo
    → Marked rest.1
    → Marked (if not (r.0 == 0) then (r.0, undo) else rest).1
staged r undo rest u n = elim (Bool-cases (r.0 == 0)) [ inl ok ↦ rw ok n | inr bad ↦ rw bad u ]

module _ (c : Core) (m : Marked c) where
  power_on-Marked : (a : PowerAnswers) → Marked (vpu_power_on c a).1
  unfolding vpu_power_on
  power_on-Marked a = ground arith

  fw_load-Marked : (a : FwAnswers) → Marked (fw_load c a).1
  unfolding fw_load
  fw_load-Marked a = ground arith

  queues_init-Marked : (t s : Option ℕ) → Marked (queues_init c t s).1
  unfolding queues_init
  queues_init-Marked t s = ground arith

  undo_power-Marked : Marked (undo_power c)
  unfolding queues_deinit vpu_power_off
  undo_power-Marked = ground arith

  undo_queues-Marked : Marked (undo_queues c)
  unfolding queues_deinit
  undo_queues-Marked = ground arith

  core_start-Marked : (b : BootAnswers) → Marked (core_start c b).1
  unfolding core_start wait_for_system_response set_idle_opp queues_deinit vpu_power_off
  core_start-Marked b = ground arith

core_load-Marked : (c : Core) (b : BootAnswers) → Marked c → Marked (core_load c b).1
unfolding core_load
core_load-Marked c b m =
    let loaded = fw_load-Marked c m b.fw in
    staged (fw_load c b.fw) (undo_power (fw_load c b.fw).1) (core_start (fw_load c b.fw).1 b)
      (undo_power-Marked (fw_load c b.fw).1 loaded) (core_start-Marked (fw_load c b.fw).1 loaded b)

core_power-Marked : (c : Core) (b : BootAnswers) → Marked c → Marked (core_power c b).1
unfolding core_power
core_power-Marked c b m =
    let on = power_on-Marked c m b.power in
    let r : ℕ × Core = vpu_power_on c b.power in
    staged r (undo_queues r.1) (core_load r.1 b) (undo_queues-Marked r.1 on)
      (core_load-Marked r.1 b on)

pub core_init-Marked : (c : Core) (b : BootAnswers) → Marked c → Marked (core_init c b).1
unfolding core_init core_bring_up
core_init-Marked c b m =
    let r : ℕ × Core = queues_init (set_core_state c CoreState.init) b.table_addr b.sfr_addr in
    let held = queues_init-Marked (set_core_state c CoreState.init) m b.table_addr b.sfr_addr in
    let up =
      staged r (set_core_state r.1 CoreState.deinit) (core_power r.1 b) held
        (core_power-Marked r.1 b held) in
    ground arith
