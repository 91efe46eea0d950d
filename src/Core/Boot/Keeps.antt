-- ===== src/Core/Boot/Keeps.antt =====
-- What the start and the shutdown of a core leave as it is: the list of its instances and its
-- platform data.
use nabu_iris.Common.{
  not, if◌then◌else◌, ℕ, Option, ◌≡◌, refl, ◌∙◌, arith, ◌==◌, inl, inr, Bool-cases,
}
use nabu_iris.Core.{Core, CoreState}
use nabu_iris.Core.Table.{queues_init, queues_deinit}
use nabu_iris.Core.Vpu.{PowerAnswers, vpu_power_on, vpu_power_off}
use nabu_iris.Core.Boot.{
  set_core_state, undo_queues, undo_power, FwAnswers, BootAnswers, fw_load,
  wait_for_system_response, set_idle_opp, core_start, core_load, core_power, core_bring_up,
  core_init, core_deinit, core_recover,
}

abbrev pub Kept : Core → Core → Type 0
Kept c c' =
    (c'.instances ≡ c.instances)
    × (c'.platform ≡ c.platform)
    × (c'.recovery_pending ≡ c.recovery_pending)

Kept-trans : (a b c : Core) → Kept a b → Kept b c → Kept a c
Kept-trans a b c h k = (k.0 ∙ h.0, k.1 ∙ h.1, k.2 ∙ h.2)

module _ (c : Core) where
  queues_deinit-Kept : Kept c (queues_deinit c)
  unfolding queues_deinit
  queues_deinit-Kept = ground arith

  vpu_power_off-Kept : Kept c (vpu_power_off c)
  unfolding vpu_power_off
  vpu_power_off-Kept = ground arith

  queues_init-Kept : (t s : Option ℕ) → Kept c (queues_init c t s).1
  unfolding queues_init
  queues_init-Kept t s = ground arith

  vpu_power_on-Kept : (a : PowerAnswers) → Kept c (vpu_power_on c a).1
  unfolding vpu_power_on
  vpu_power_on-Kept a = ground arith

  fw_load-Kept : (a : FwAnswers) → Kept c (fw_load c a).1
  unfolding fw_load
  fw_load-Kept a = ground arith

  core_start-Kept : (b : BootAnswers) → Kept c (core_start c b).1
  unfolding core_start wait_for_system_response set_idle_opp queues_deinit vpu_power_off
  core_start-Kept b = ground arith

  undo_power-Kept : Kept c (undo_power c)
  unfolding queues_deinit vpu_power_off
  undo_power-Kept = ground arith

  undo_queues-Kept : Kept c (undo_queues c)
  unfolding queues_deinit
  undo_queues-Kept = ground arith

-- A stage that fails is undone, one that succeeds is followed by the rest.
staged :
    (c : Core) (r : ℕ × Core) (undo : Core) (rest : ℕ × Core)
    → Kept c r.1
    → Kept r.1 undo
    → Kept r.1 rest.1
    → Kept c (if not (r.0 == 0) then (r.0, undo) else rest).1
staged c r undo rest k u n = elim (Bool-cases (r.0 == 0)) [
  | inl ok ↦ rw ok (Kept-trans c r.1 rest.1 k n)
  | inr bad ↦ rw bad (Kept-trans c r.1 undo k u)
]

core_load-Kept : (c : Core) (b : BootAnswers) → Kept c (core_load c b).1
unfolding core_load
core_load-Kept c b =
    let c' : Core = (fw_load c b.fw).1 in
    staged c (fw_load c b.fw) (undo_power c') (core_start c' b) (fw_load-Kept c b.fw)
      (undo_power-Kept c') (core_start-Kept c' b)

core_power-Kept : (c : Core) (b : BootAnswers) → Kept c (core_power c b).1
unfolding core_power
core_power-Kept c b =
    let c' : Core = (vpu_power_on c b.power).1 in
    staged c (vpu_power_on c b.power) (undo_queues c') (core_load c' b)
      (vpu_power_on-Kept c b.power) (undo_queues-Kept c') (core_load-Kept c' b)

core_bring_up-Kept : (c : Core) (b : BootAnswers) → Kept c (core_bring_up c b).1
unfolding core_bring_up
core_bring_up-Kept c b =
    let r : ℕ × Core = queues_init c b.table_addr b.sfr_addr in
    staged c r (set_core_state r.1 CoreState.deinit) (core_power r.1 b)
      (queues_init-Kept c b.table_addr b.sfr_addr) (refl, refl, refl) (core_power-Kept r.1 b)

-- A start leaves them too.
pub core_init-Kept : (c : Core) (b : BootAnswers) → Kept c (core_init c b).1
unfolding core_init
core_init-Kept c b =
    let started : Kept c (core_bring_up (set_core_state c CoreState.init) b).1 =
      core_bring_up-Kept (set_core_state c CoreState.init) b in
    ground arith

-- A power-cycle leaves the instances, the platform and the request flag as they are.
pub core_recover-Kept : (c : Core) (b : BootAnswers) → Kept c (core_recover c b).1
unfolding core_recover core_deinit queues_deinit vpu_power_off
core_recover-Kept c b =
    Kept-trans c (core_deinit c) (core_recover c b).1 (ground arith)
      (core_init-Kept (core_deinit c) b)
