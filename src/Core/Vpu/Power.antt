-- ===== src/Core/Vpu/Power.antt =====
-- Power references are balanced over a power-on and a power-off, and where they are not.
use nabu_iris.Common.{◌+◌, true, false, ◌≡◌, ◌≢◌, arith}
use nabu_iris.Core.{Core}
use nabu_iris.Core.Vpu.{PowerAnswers, vpu_power_on, vpu_power_off}

-- A power-on that succeeds is undone by a power-off: the references on both domains are as before
-- it, the interconnect vote is gone, and no reference is dropped that was not held.
pub power_on_off :
    (c : Core) (a : PowerAnswers)
    → (vpu_power_on c a).0 ≡ 0
    → (vpu_power_off (vpu_power_on c a).1).rails ≡ record (c.rails) { icc_vote = false }
unfolding vpu_power_on vpu_power_off
power_on_off c a ok = ground arith

-- A second power-off changes nothing.
pub power_off_twice : (c : Core) → vpu_power_off (vpu_power_off c) ≡ vpu_power_off c
unfolding vpu_power_off
power_off_twice c = ground arith

-- Where the platform defers the codec's power, a power-on that fails has given back every reference
-- that it took, unless the runtime resume of the controller's domain failed.
pub power_on_fails_clean :
    (c : Core) (a : PowerAnswers)
    → c.platform.defer_vcodec_power ≡ true
    → a.controller_get ≡ 0
    → (vpu_power_on c a).0 ≢ 0
    → ((vpu_power_on c a).1.rails.controller ≡ c.rails.controller)
      × ((vpu_power_on c a).1.rails.codec ≡ c.rails.codec)
      × ((vpu_power_on c a).1.rails.underflow ≡ c.rails.underflow)
unfolding vpu_power_on
power_on_fails_clean c a d get bad = ground arith

-- Where it does not, a rejected OPP vote leaves the codec's domain referenced.
pub power_on_opp_leaks :
    (c : Core) (a : PowerAnswers)
    → c.platform.defer_vcodec_power ≡ false
    → a.icc ≡ 0
    → a.controller_opp ≡ 0
    → a.controller_get ≡ 0
    → a.controller ≡ 0
    → a.codec_opp ≡ 0
    → a.codec_get ≡ 0
    → a.codec ≡ 0
    → a.opp ≢ 0
    → ((vpu_power_on c a).0 ≡ a.opp) × ((vpu_power_on c a).1.rails.codec ≡ c.rails.codec + 1)
unfolding vpu_power_on
power_on_opp_leaks c a d i co cg cc ho hg hc bad = ground arith

-- Where the platform defers the codec's power, a power-on that fails on a VPU whose domains nobody
-- holds still marks it as powered, so that the next power-off drops a reference that is not held.
pub failed_power_on_underflows :
    (c : Core) (a : PowerAnswers)
    → c.platform.defer_vcodec_power ≡ true
    → c.rails.codec ≡ 0
    → (vpu_power_on c a).0 ≢ 0
    → (vpu_power_off (vpu_power_on c a).1).rails.underflow ≡ true
unfolding vpu_power_on vpu_power_off
failed_power_on_underflows c a d l bad = ground arith
