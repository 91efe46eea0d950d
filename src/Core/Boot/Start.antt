-- ===== src/Core/Boot/Start.antt =====
-- iris_core_init, from a core that holds nothing: each stage hands what it took to the next, or the
-- stages before it give theirs back.
use nabu_iris.Common.{
  ℕ, true, false, Option, ◌≡◌, ◌≢◌, inl, inr, arith, ◌==◌, Bool-cases, refl, ==→ne, ==→eq, ◌∙◌, sym,
}
use mathlib.Core.Path.{subst}
use nabu_iris.Core.{CoreState, Core}
use nabu_iris.Core.Table.{queues_init, queues_deinit}
use nabu_iris.Core.Vpu.{PowerAnswers, vpu_power_on, vpu_power_off}
use nabu_iris.Core.Boot.{
  BootAnswers, core_power, core_bring_up, core_init, core_deinit, core_recover, set_core_state,
}
use nabu_iris.Core.Boot.Resources.{
  PowerHeld, IsOff, HasQueues, IsUp, Started, queues_deinit-IsOff, core_load-Started,
}

module _ (c : Core) (a : PowerAnswers) where
  power_on-keeps :
      HasQueues c
      → let c' = (vpu_power_on c a).1 in
        HasQueues c'
        × (c'.fw_running ≡ c.fw_running)
        × (c'.state ≡ c.state)
        × (c'.vpu_powered ≡ true)
  unfolding vpu_power_on
  power_on-keeps q = ground arith

  power_on-held :
      c.platform.defer_vcodec_power ≡ true
      → PowerHeld 0 c
      → (vpu_power_on c a).0 ≡ 0
      → PowerHeld 1 (vpu_power_on c a).1
  unfolding vpu_power_on
  power_on-held d p ok = ground arith

  power_on-failed :
      c.platform.defer_vcodec_power ≡ true
      → PowerHeld 0 c
      → a.controller_get ≡ 0
      → (vpu_power_on c a).0 ≢ 0
      → PowerHeld 0 (vpu_power_on c a).1
  unfolding vpu_power_on
  power_on-failed d p get bad = ground arith

core_power-Started :
    (c : Core) (b : BootAnswers)
    → HasQueues c
    → PowerHeld 0 c
    → c.fw_running ≡ false
    → c.state ≡ CoreState.init
    → b.power.controller_get ≡ 0
    → let (ret, c') = core_power c b in Started ret c'
unfolding core_power
core_power-Started c b q p f s get =
    let (queues, firmware, state, powered) = power_on-keeps c b.power q in
    elim (Bool-cases ((vpu_power_on c b.power).0 == 0)) [
      | inl ok ↦ rw ok (
          core_load-Started (vpu_power_on c b.power).1 b queues
            (power_on-held c b.power q.deferred p (==→eq _ _ ok)) powered (firmware ∙ f)
            (state ∙ s))
      | inr bad ↦ rw bad (
          inr (
            inr (
              ==→ne _ _ bad,
              queues_deinit-IsOff (vpu_power_on c b.power).1 queues
                  (power_on-failed c b.power q.deferred p get (==→ne _ _ bad)) (firmware ∙ f),
              refl,
            )))
    ]

module _ (c : Core) (table sfr : Option ℕ) (off : IsOff c) where
  queues_init-held :
      (queues_init c table sfr).0 ≡ 0
      → let c' = (queues_init c table sfr).1 in
        HasQueues c' × PowerHeld 0 c' × (c'.fw_running ≡ false) × (c'.state ≡ c.state)
  unfolding queues_init
  queues_init-held ok = ground arith

  queues_init-failed :
      (queues_init c table sfr).0 ≢ 0
      → IsOff (set_core_state (queues_init c table sfr).1 CoreState.deinit)
  unfolding queues_init
  queues_init-failed bad = ground arith

core_bring_up-Started :
    (c : Core) (b : BootAnswers)
    → IsOff c
    → c.state ≡ CoreState.init
    → b.power.controller_get ≡ 0
    → let (ret, c') = core_bring_up c b in Started ret c'
unfolding core_bring_up
core_bring_up-Started c b off s get =
    elim (Bool-cases ((queues_init c b.table_addr b.sfr_addr).0 == 0)) [
      | inl ok ↦ rw ok (
          let (queues, power, firmware, state) =
            queues_init-held c b.table_addr b.sfr_addr off (==→eq _ _ ok) in
          core_power-Started (queues_init c b.table_addr b.sfr_addr).1 b queues power firmware
            (state ∙ s) get)
      | inr bad ↦ rw bad (
          inr (
            inr (
              ==→ne _ _ bad,
              queues_init-failed c b.table_addr b.sfr_addr off (==→ne _ _ bad),
              refl,
            )))
    ]

core_init_deinit :
    (c : Core) (b : BootAnswers)
    → c.state ≡ CoreState.deinit
    → core_init c b ≡ core_bring_up (set_core_state c CoreState.init) b
unfolding core_init
core_init_deinit c b s = ground arith

pub core_init-Started :
    (c : Core) (b : BootAnswers)
    → IsOff c
    → c.state ≡ CoreState.deinit
    → b.power.controller_get ≡ 0
    → let (ret, c') = core_init c b in Started ret c'
core_init-Started c b off s get =
    subst (λ (t : ℕ × Core). Started t.0 t.1) (sym (core_init_deinit c b s))
      (core_bring_up-Started (set_core_state c CoreState.init) b (ground arith) refl get)

-- On a platform that defers the codec's power, a core that holds everything gives all of it back
-- when it is shut down, in INIT and in ERROR, and is then in DEINIT.
pub core_deinit-IsOff :
    (c : Core)
    → IsUp c
    → c.state ≢ CoreState.deinit
    → IsOff (core_deinit c) × ((core_deinit c).state ≡ CoreState.deinit)
unfolding core_deinit queues_deinit vpu_power_off
core_deinit-IsOff c up s = ground arith

-- On a platform that defers the codec's power, and where the runtime resume of the controller's
-- domain does not fail, a power-cycle of a core that holds everything, in INIT or in ERROR, ends with
-- everything held once and the core in INIT with code 0 or in ERROR with an error, or with nothing
-- held, an error and the core in DEINIT.
pub core_recover-Started :
    (c : Core) (b : BootAnswers)
    → IsUp c
    → c.state ≢ CoreState.deinit
    → b.power.controller_get ≡ 0
    → let (ret, c') = core_recover c b in Started ret c'
unfolding core_recover
core_recover-Started c b up s get =
    let (off, d) = core_deinit-IsOff c up s in core_init-Started (core_deinit c) b off d get

-- `iris_core_init` of a core in ERROR that holds everything, on a platform that defers the
-- codec's power, fails and leaves it in DEINIT with everything still held: a shutdown then does
-- nothing.
pub core_init_error :
    (c : Core) (b : BootAnswers)
    → IsUp c
    → c.state ≡ CoreState.error
    → let (ret, c') = core_init c b in
      (ret ≢ 0) × (c'.state ≡ CoreState.deinit) × IsUp c' × (core_deinit c' ≡ c')
unfolding core_init core_deinit
core_init_error c b up e = ground arith
