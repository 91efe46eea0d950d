-- ===== src/Core/Boot/Resources.antt =====
-- What a core holds of the hardware: all of it or nothing, on every path through its start.
use nabu_iris.Common.{
  ℕ, ◌+◌, true, false, none, ◌≡◌, ◌≢◌, ◌⊎◌, inl, inr, arith, ◌==◌, Bool-cases, refl, sym, ap, ◌∙◌,
  ==→ne,
}
use mathlib.Core.Path.{subst}
use nabu_iris.Core.{CoreState, Core}
use nabu_iris.Core.Table.{queues_deinit, queue_alloc_size, sfr_size}
use nabu_iris.Core.Vpu.{vpu_power_off}
use nabu_iris.Core.Boot.{
  BootAnswers, FwAnswers, core_start, core_load, undo_queues, undo_power, fw_load,
  wait_for_system_response, set_idle_opp,
}

-- The power of the VPU is held once on each domain, or not at all.
pub record PowerHeld (n : ℕ) (c : Core) : Type 0 where
  pub controller : c.rails.controller ≡ n
  pub codec : c.rails.codec ≡ n
  pub balanced : c.rails.underflow ≡ false

-- Nothing is held. The flag `vpu_powered` is not part of this: a failed power-on leaves it set.
pub record IsOff (c : Core) : Type 0 where
  pub deferred : c.platform.defer_vcodec_power ≡ true
  pub power : PowerHeld 0 c
  pub firmware : c.fw_running ≡ false
  pub memory : c.dma_bytes ≡ 0

-- The shared memory is held, with its table in place.
pub record HasQueues (c : Core) : Type 0 where
  pub deferred : c.platform.defer_vcodec_power ≡ true
  pub bytes : c.dma_bytes ≡ queue_alloc_size c.platform + sfr_size
  pub table : c.iface_q_table ≢ none

-- Memory, power and firmware are held, once each.
pub record IsUp (c : Core) : Type 0 where
  pub queues : HasQueues c
  pub power : PowerHeld 1 c
  pub powered : c.vpu_powered ≡ true
  pub firmware : c.fw_running ≡ true

-- The outcomes of a start of the core.
abbrev pub Started : ℕ → Core → Type 0
Started ret c =
    (ret ≡ 0) × IsUp c × (c.state ≡ CoreState.init)
    ⊎ (ret ≢ 0) × IsUp c × (c.state ≡ CoreState.error)
    ⊎ (ret ≢ 0) × IsOff c × (c.state ≡ CoreState.deinit)

pub queues_deinit-IsOff :
    (c : Core) → HasQueues c → PowerHeld 0 c → c.fw_running ≡ false → IsOff (undo_queues c)
unfolding queues_deinit
queues_deinit-IsOff c q p f = ground arith

pub undo_power-IsOff :
    (c : Core)
    → HasQueues c
    → PowerHeld 1 c
    → c.vpu_powered ≡ true
    → c.fw_running ≡ false
    → IsOff (undo_power c)
unfolding queues_deinit vpu_power_off
undo_power-IsOff c q p v f = ground arith

-- From a core that holds everything, the handshake and the first commands keep all of it, or give
-- all of it back.
core_start-Started :
    (c : Core) (b : BootAnswers)
    → IsUp c
    → c.state ≡ CoreState.init
    → let (ret, c') = core_start c b in Started ret c'
unfolding core_start wait_for_system_response set_idle_opp queues_deinit vpu_power_off
core_start-Started c b up s = ground arith

-- A firmware that is not running runs after a load exactly if the load returns 0.
fw_load-running :
    (c : Core) (a : FwAnswers)
    → c.fw_running ≡ false
    → (fw_load c a).1 ≡ record c { fw_running = (fw_load c a).0 == 0 }
unfolding fw_load
fw_load-running c a f = ground arith

pub core_load-Started :
    (c : Core) (b : BootAnswers)
    → HasQueues c
    → PowerHeld 1 c
    → c.vpu_powered ≡ true
    → c.fw_running ≡ false
    → c.state ≡ CoreState.init
    → let (ret, c') = core_load c b in Started ret c'
unfolding core_load
core_load-Started c b q p v f s = elim (Bool-cases ((fw_load c b.fw).0 == 0)) [
  | inl ok ↦ rw ok (
      subst (λ c'. let (ret, d) = core_start c' b in Started ret d)
        (sym (fw_load-running c b.fw f ∙ ap (λ r. record c { fw_running = r }) ok))
        (core_start-Started (record c { fw_running = true }) b
          (record { queues = ground arith; power = ground arith; powered = v; firmware = refl }) s))
  | inr bad ↦ rw bad (
      inr (
        inr (
          ==→ne _ _ bad,
          subst (λ c'. IsOff (undo_power c'))
              (sym (fw_load-running c b.fw f ∙ ap (λ r. record c { fw_running = r }) bad))
              (undo_power-IsOff (record c { fw_running = false }) (ground arith) (ground arith) v
                refl),
          refl,
        )))
]
