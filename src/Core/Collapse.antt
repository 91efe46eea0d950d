-- ===== src/Core/Collapse.antt =====
-- iris_hfi_common.c, iris_probe.c and the preparations in iris_vpu_common.c: the VPU is switched off while nobody
-- uses it, by a delayed work or by the system's suspend, with its memory and firmware kept, and is
-- switched on again for the next user. `core->lock` is held over each function, so that each is one
-- step. `enabled` is the module parameter `power_collapse`.
pub mod Powered
pub mod Granted
pub mod Trace
use nabu_iris.Common.{
  ℕ, Bool, true, false, not, ◌&&◌, ◌||◌, ◌==◌, if◌then◌else◌, List, [], ◌∷◌, eagain, ebusy,
}
use nabu_iris.Common.Bits.{has}
use nabu_iris.Core.{Core, CoreState}
use nabu_iris.Core.Boot.{is_state}
use nabu_iris.Core.Vpu.{PowerAnswers, vpu_power_on, vpu_power_off, vpu_boot_firmware}

-- What one attempt to collapse reads and is answered.
pub record IdleAnswers : Type 0 where
  pub ctrl_status : ℕ
  pub cpu_status : ℕ
  pub pc_prep : ℕ  -- sys_pc_prep
  pub poll_ready : ℕ  -- the poll for CTRL_STATUS_PC_READY; on VPU5 for WFI as well
  pub poll_wfi : ℕ
  pub hw_state : ℕ  -- iris_set_hw_state(core, false)

-- CTRL_STATUS_PC_READY, CTRL_INIT_IDLE_MSG_BMSK (which is BIT(30)) and VPU5_CPU_STATUS_WFI (BIT(0)).
abbrev pub pc_ready : ℕ
pc_ready = 0x100

abbrev pub init_idle : ℕ
init_idle = 0x40000000

abbrev pub cpu_wfi : ℕ
cpu_wfi = 1

-- The codes of `sys_pc_prep` and of the poll are passed on.
unfoldable pub vpu5_prepare_pc : IdleAnswers → ℕ
vpu5_prepare_pc a =
    if has a.ctrl_status pc_ready
    then 0
    else if not (has a.cpu_status cpu_wfi) || not (has a.ctrl_status init_idle)
    then ebusy
    else if not (a.pc_prep == 0)
    then a.pc_prep
    else a.poll_ready

unfoldable pub vpu_prepare_pc : Bool → IdleAnswers → ℕ
unfolding vpu5_prepare_pc
vpu_prepare_pc legacy a =
    if legacy
    then vpu5_prepare_pc a
    else if has a.ctrl_status pc_ready
    then 0
    else if not (has a.cpu_status cpu_wfi) || not (has a.ctrl_status init_idle)
    then eagain
    else if not (a.pc_prep == 0)
    then eagain
    else if not (a.poll_ready == 0)
    then eagain
    else if not (a.poll_wfi == 0)
    then eagain
    else 0

abbrev pub collapsed : Core → Core
collapsed c = record (vpu_power_off c) { vpu_suspended = true }

unfoldable pub pc_enter : Core → IdleAnswers → ℕ × Core
pc_enter c a =
    if not (vpu_prepare_pc c.platform.legacy_vpu5 a == 0)
    then (vpu_prepare_pc c.platform.legacy_vpu5 a, c)
    else if not (a.hw_state == 0)
    then (a.hw_state, c)
    else (0, collapsed c)

-- What one return from a collapse is answered.
pub record WakeAnswers : Type 0 where
  pub power : PowerAnswers
  pub hw_state : ℕ  -- iris_set_hw_state(core, true)
  pub status : ℕ → ℕ  -- the reads of CTRL_STATUS
  pub interframe : ℕ  -- sys_interframe_powercollapse

-- With the power on: the handshake of the firmware, or the label `err_power_off`.
unfoldable pub wake_firmware : Core → WakeAnswers → ℕ × Core
wake_firmware c a =
    if not (a.hw_state == 0)
    then (ebusy, vpu_power_off c)
    else if not (vpu_boot_firmware a.status == 0)
    then (ebusy, vpu_power_off c)
    else if not c.platform.legacy_vpu5 && not (a.interframe == 0)
    then (ebusy, vpu_power_off c)
    else (0, record c { vpu_suspended = false })

-- What `iris_pc_exit` and `iris_hfi_pm_resume` do with a suspended VPU.
unfoldable pub leave_collapse : Core → WakeAnswers → ℕ × Core
leave_collapse c a =
    let (ret, c') = vpu_power_on c a.power in
    if not (ret == 0) then (ebusy, c') else wake_firmware c' a

unfoldable pub pc_exit : Core → WakeAnswers → ℕ × Core
pc_exit c a = if not c.vpu_suspended then (0, c) else leave_collapse c a

unfoldable pub pc_resume : Bool → Core → WakeAnswers → ℕ × Core
pc_resume enabled c a =
    if not c.platform.legacy_vpu5 || not enabled
    then (0, c)
    else if c.vpu_suspended
    then pc_exit (record c { pc_work_queued = false }) a
    else (0, record c { pc_work_queued = false })

abbrev pub is_empty {ℓ} : {A : Type ℓ} → List A → Bool
is_empty [] = true
is_empty (x ∷ xs) = false

unfoldable pub pc_schedule : Bool → Core → Core
pc_schedule enabled c =
    if not c.platform.legacy_vpu5 || not enabled
    then c
    else if not (is_empty c.instances)
    then c
    else record c { pc_work_queued = true }

-- The work is taken off its queue before it runs.
unfoldable pub pc_handler : Bool → Core → IdleAnswers → Core
unfolding pc_schedule
pc_handler enabled c a =
    let c' =
      (if not c.vpu_suspended && is_empty c.instances
        then (pc_enter (record c { pc_work_queued = false }) a).1
        else record c { pc_work_queued = false }) in
    if not c'.vpu_suspended then pc_schedule enabled c' else c'

unfoldable pub pm_suspend : Core → IdleAnswers → ℕ × Core
pm_suspend c a =
    if not (is_empty c.instances)
    then (0, c)
    else if c.vpu_suspended
    then (0, c)
    else if not (vpu_prepare_pc c.platform.legacy_vpu5 a == 0)
    then (if c.platform.legacy_vpu5 then 0 else eagain, c)
    else if not (a.hw_state == 0)
    then (a.hw_state, c)
    else (0, collapsed c)

unfoldable pub pm_resume : Bool → Core → WakeAnswers → ℕ × Core
unfolding pc_schedule
pm_resume enabled c a =
    if not c.vpu_suspended
    then (0, c)
    else (let (ret, c') = leave_collapse c a in
        if not (ret == 0) then (ret, c') else (0, pc_schedule enabled c'))

-- `iris_pm_suspend` and `iris_pm_resume`, which the system calls: a core that is not in INIT is left
-- alone.
unfoldable pub system_suspend : Core → IdleAnswers → ℕ × Core
system_suspend c a = if not (is_state c.state CoreState.init) then (0, c) else pm_suspend c a

unfoldable pub system_resume : Bool → Core → WakeAnswers → ℕ × Core
system_resume enabled c a =
    if not (is_state c.state CoreState.init) then (0, c) else pm_resume enabled c a
