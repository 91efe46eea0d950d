-- ===== src/Core/Boot/Leaks.antt =====
-- A start of the core where the runtime resume of the controller's domain fails.
use nabu_iris.Common.{◌+◌, true, ◌≡◌, ◌≢◌, arith}
use nabu_iris.Core.{CoreState, Core}
use nabu_iris.Core.Table.{queues_init, queues_deinit}
use nabu_iris.Core.Vpu.{PowerAnswers, vpu_power_on}
use nabu_iris.Core.Boot.{
  BootAnswers, core_power, core_bring_up, core_init, core_deinit, set_core_state, undo_queues,
}

queues_init-idle :
    (c : Core) (b : BootAnswers)
    → let c' = (queues_init c b.table_addr b.sfr_addr).1 in
      (c'.rails ≡ c.rails) × (c'.platform ≡ c.platform)
unfolding queues_init
queues_init-idle c b = ground arith

power_on-leaks :
    (c : Core) (a : PowerAnswers)
    → c.platform.defer_vcodec_power ≡ true
    → a.icc ≡ 0
    → a.controller_get ≢ 0
    → ((vpu_power_on c a).0 ≡ a.controller_get)
      × ((vpu_power_on c a).1.rails.controller ≡ c.rails.controller + 1)
unfolding vpu_power_on
power_on-leaks c a d i get = ground arith

undo_queues-rails : (c : Core) → (undo_queues c).rails ≡ c.rails
unfolding queues_deinit
undo_queues-rails c = ground arith

core_power-leaks :
    (c : Core) (b : BootAnswers)
    → c.platform.defer_vcodec_power ≡ true
    → b.power.icc ≡ 0
    → b.power.controller_get ≢ 0
    → let (ret, c') = core_power c b in
      (ret ≡ b.power.controller_get)
      × (c'.rails.controller ≡ c.rails.controller + 1)
      × (c'.state ≡ CoreState.deinit)
unfolding core_power
core_power-leaks c b d i get =
    let on = power_on-leaks c b.power d i get in
    ground (arith, on, undo_queues-rails (vpu_power_on c b.power).1)

-- On a platform that defers the codec's power, a start of a core in DEINIT whose queues are allocated
-- and whose interconnect vote is taken, and where the runtime resume of the controller's domain then
-- fails, returns that error with one reference on the domain more than before, and a shutdown does
-- not give it back.
pub core_init_leaks :
    (c : Core) (b : BootAnswers)
    → c.platform.defer_vcodec_power ≡ true
    → c.state ≡ CoreState.deinit
    → (queues_init (set_core_state c CoreState.init) b.table_addr b.sfr_addr).0 ≡ 0
    → b.power.icc ≡ 0
    → b.power.controller_get ≢ 0
    → let (ret, c') = core_init c b in
      (ret ≡ b.power.controller_get)
      × (c'.rails.controller ≡ c.rails.controller + 1)
      × (c'.state ≡ CoreState.deinit)
      × (core_deinit c' ≡ c')
unfolding core_init core_bring_up core_deinit
core_init_leaks c b d s queues i get =
    let c' : Core = (queues_init (set_core_state c CoreState.init) b.table_addr b.sfr_addr).1 in
    let idle = queues_init-idle (set_core_state c CoreState.init) b in
    let leaked = core_power-leaks c' b (ground (arith, idle, d)) i get in
    ground (arith, queues, idle, leaked)
