-- ===== src/Core/Vpu.antt =====
-- iris_vpu_common.c: the power of the VPU, switched on and off by steps, and the firmware's boot
-- handshake. A step that is made of clock and reset calls alone is its answer. A failed
-- `pm_runtime_get_sync` keeps the reference that it took. Interrupt masks and the LLCC slices are left
-- out, as is an OPP vote of 0 that fails.
pub mod Power
pub mod Handshake
use nabu_iris.Common.{
  ℕ, zero, suc, ◌+◌, ◌-◌, Bool, true, false, not, ◌&&◌, ◌==◌, leb, if◌then◌else◌, bit_and,
}
use nabu_iris.Core.{Rails, Core}

-- What the calls of one power-on answer: 0, or an errno.
pub record PowerAnswers : Type 0 where
  pub icc : ℕ
  pub controller_opp : ℕ  -- iris_enable_power_domains, its OPP vote; not on a deferring platform
  pub controller_get : ℕ  -- pm_runtime_get_sync; 0 also where it was on already
  pub controller : ℕ  -- the resets and the clocks
  pub codec_opp : ℕ  -- as above
  pub codec_get : ℕ  -- pm_runtime_get_sync, or pm_runtime_resume_and_get on a deferring platform
  pub codec : ℕ  -- the auxiliary domain, the clocks and the control of the hardware
  pub opp : ℕ

-- A reference that is dropped; the kernel keeps the count at 0 and warns.
abbrev pub drop_controller : Rails → Rails
drop_controller r =
    if r.controller == 0
    then record r { underflow = true }
    else record r { controller = r.controller - 1 }

abbrev pub drop_codec : Rails → Rails
drop_codec r =
    if r.codec == 0 then record r { underflow = true } else record r { codec = r.codec - 1 }

abbrev unvote : Rails → Rails
unvote r = record r { icc_vote = false }

abbrev pub set_rails : Core → Rails → Core
set_rails c r = record c { rails = r }

-- `iris_vpu_power_on_controller`, on the rails.
power_on_controller : Bool → PowerAnswers → Rails → ℕ × Rails
power_on_controller deferred a r =
    if not deferred && not (a.controller_opp == 0)
    then (a.controller_opp, r)
    else if not (a.controller_get == 0)
    then (a.controller_get, record r { controller = r.controller + 1 })
    else (a.controller, if a.controller == 0 then record r { controller = r.controller + 1 } else r)

-- `iris_vpu_power_on_hw`, on the rails.
power_on_hw : Bool → PowerAnswers → Rails → ℕ × Rails
power_on_hw deferred a r =
    if not deferred && not (a.codec_opp == 0)
    then (a.codec_opp, r)
    else if not (a.codec_get == 0)
    then (a.codec_get, if deferred then r else record r { codec = r.codec + 1 })
    else (a.codec, if a.codec == 0 then record r { codec = r.codec + 1 } else r)

-- The part of `iris_vpu_power_on` behind the controller's power-on. The codec is powered before the
-- OPP vote, or after it where the platform defers it.
power_on_codec : Bool → PowerAnswers → Rails → ℕ × Rails
unfolding power_on_hw
power_on_codec false a r =
    let (ret, r') = power_on_hw false a r in
    if not (ret == 0)
    then (ret, unvote (drop_controller r'))
    else if not (a.opp == 0)
    then (a.opp, unvote (drop_controller r'))
    else (0, r')
power_on_codec true a r =
    let (ret, r') = power_on_hw true a r in
    if not (a.opp == 0)
    then (a.opp, unvote (drop_controller r))
    else if not (ret == 0)
    then (ret, unvote (drop_controller r'))
    else (0, r')

unfoldable pub vpu_power_on : Core → PowerAnswers → ℕ × Core
unfolding power_on_controller power_on_codec
vpu_power_on c a =
    let attempted = record c { vpu_powered = true } in
    let deferred = c.platform.defer_vcodec_power in
    let (ret, r) = power_on_controller deferred a (record (c.rails) { icc_vote = true }) in
    if not (a.icc == 0)
    then (a.icc, attempted)
    else if not (ret == 0)
    then (ret, set_rails attempted (unvote r))
    else (let (ret', r') = power_on_codec deferred a r in (ret', set_rails attempted r'))

unfoldable pub vpu_power_off : Core → Core
vpu_power_off c =
    if not c.vpu_powered
    then c
    else record c { vpu_powered = false; rails = unvote (drop_controller (drop_codec c.rails)) }

-- CTRL_ERROR_STATUS__M
abbrev pub ctrl_error_status_mask : ℕ
ctrl_error_status_mask = 0xfe

abbrev pub max_tries : ℕ
max_tries = 1000

abbrev pub etime : ℕ
etime = 62

-- The polling loop of `iris_vpu_boot_firmware`: `reads i` is what the i-th read of CTRL_STATUS
-- gives. The answer is the number of polls when the loop is left, with `left` polls to go.
unfoldable pub poll_status : (ℕ → ℕ) → ℕ → ℕ → ℕ → ℕ
poll_status reads zero status count = count
poll_status reads (suc left) status count =
    let next = poll_status reads left (reads count) (count + 1) in
    if not (status == 0)
    then count
    else if bit_and (reads count) ctrl_error_status_mask == 4
    then count
    else next

unfoldable pub vpu_boot_firmware : (ℕ → ℕ) → ℕ
vpu_boot_firmware reads = if leb max_tries (poll_status reads max_tries 0 0) then etime else 0
