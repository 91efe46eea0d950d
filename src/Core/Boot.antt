-- ===== src/Core/Boot.antt =====
-- iris_core.c and iris_firmware.c: the core from its first open to its power-cycle. What the
-- allocator, the secure world, the firmware and the OPP framework answer during one start of the
-- core is the record `BootAnswers`; `core->lock` is held over each function, so that each is one
-- step, but for the wait at the end of `iris_core_init`.
pub mod Resources
pub mod Start
pub mod Leaks
pub mod Keeps
pub mod Underflow
use nabu_iris.Common.{
  ℕ, Bool, true, false, not, ◌&&◌, ◌||◌, ◌==◌, ◌-◌, ltb, leb, if◌then◌else◌, Option, none, some,
  eio, einval, enomem, etimedout,
}
use nabu_iris.Core.{CoreState, Core}
use nabu_iris.Core.Table.{queues_init, queues_deinit}
use nabu_iris.Core.Vpu.{PowerAnswers, vpu_power_on, vpu_power_off, vpu_boot_firmware}

-- What the calls of `iris_load_fw_to_memory` answer, and those of `iris_fw_load` behind it.
pub record FwAnswers : Type 0 where
  pub name_length : ℕ
  pub node_found : Bool
  pub reserved : Option ℕ  -- the size of the reserved memory, where it is found
  pub request : ℕ
  pub image_size : Option ℕ  -- none for a negative size
  pub mapped : Bool
  pub mdt_load : ℕ
  pub authenticate : ℕ
  pub protect : ℕ

-- MAX_FIRMWARE_NAME_SIZE
abbrev pub max_firmware_name_size : ℕ
max_firmware_name_size = 128

-- The last steps of `iris_load_fw_to_memory`, with the image requested.
abbrev copy_firmware : FwAnswers → ℕ → ℕ
copy_firmware a room = elim a.image_size [
  | none ↦ einval
  | some image ↦
      if ltb room image
      then einval
      else if not a.mapped
      then enomem
      else if not (a.mdt_load == 0)
      then a.mdt_load
      else a.authenticate
]

unfoldable pub load_fw_to_memory : FwAnswers → ℕ
load_fw_to_memory a =
    if leb (max_firmware_name_size - 4) a.name_length
    then einval
    else if not a.node_found
    then einval
    else elim a.reserved [
      | none ↦ einval
      | some room ↦ if not (a.request == 0) then a.request else copy_firmware a room
    ]

-- `qcom_scm_pas_shutdown`
abbrev pub fw_unload : Core → Core
fw_unload c = record c { fw_running = false }

unfoldable pub fw_load : Core → FwAnswers → ℕ × Core
fw_load c a =
    if not (load_fw_to_memory a == 0)
    then (enomem, c)
    else if not (a.protect == 0)
    then (a.protect, fw_unload c)
    else (0, record c { fw_running = true })

pub record BootAnswers : Type 0 where
  pub table_addr : Option ℕ
  pub sfr_addr : Option ℕ
  pub power : PowerAnswers
  pub fw : FwAnswers
  pub hw_state : ℕ  -- iris_set_hw_state(core, true)
  pub status : ℕ → ℕ  -- the reads of CTRL_STATUS
  pub sys_init : ℕ
  pub image_version : ℕ
  pub interframe : ℕ
  pub sys_error : Bool  -- the response handler put the core in ERROR before the wait
  pub answered : Bool  -- core_init_done was signalled in time
  pub min_freq : ℕ  -- iris_vpu_min_freq
  pub set_rate : ℕ  -- dev_pm_opp_set_rate

unfoldable pub hfi_core_init : Bool → BootAnswers → ℕ
hfi_core_init legacy b =
    if legacy
    then b.sys_init
    else if not (b.sys_init == 0)
    then b.sys_init
    else if not (b.image_version == 0)
    then b.image_version
    else b.interframe

abbrev pub set_core_state : Core → CoreState → Core
set_core_state c s = record c { state = s }

abbrev pub is_state : CoreState → CoreState → Bool
is_state CoreState.deinit CoreState.deinit = true
is_state CoreState.init CoreState.init = true
is_state CoreState.error CoreState.error = true
is_state _ _ = false

unfoldable pub wait_for_system_response : Core → BootAnswers → ℕ × Core
wait_for_system_response c b =
    if b.sys_error
    then (eio, set_core_state c CoreState.error)
    else if not b.answered
    then (etimedout, set_core_state c CoreState.error)
    else (0, c)

-- iris_power.c
unfoldable pub set_idle_opp : Core → ℕ → ℕ → Core
set_idle_opp c freq set_rate =
    if (freq == 0) || ((freq == c.clk_freq) || not (set_rate == 0))
    then c
    else record c { clk_freq = freq }

-- The labels `error_queue_deinit`, `error_power_off` and `error_unload_fw` of `iris_core_init`.
abbrev pub undo_queues : Core → Core
undo_queues c = set_core_state (queues_deinit c) CoreState.deinit

abbrev pub undo_power : Core → Core
undo_power c = undo_queues (vpu_power_off c)

abbrev pub undo_fw : Core → Core
undo_fw c = undo_power (fw_unload c)

-- With the firmware loaded: the handshake, the first commands and the wait for their response.
unfoldable pub core_start : Core → BootAnswers → ℕ × Core
core_start c b =
    if c.platform.legacy_vpu5 && not (b.hw_state == 0)
    then (b.hw_state, undo_fw c)
    else if not (vpu_boot_firmware b.status == 0)
    then (vpu_boot_firmware b.status, undo_fw c)
    else if not (hfi_core_init c.platform.legacy_vpu5 b == 0)
    then (hfi_core_init c.platform.legacy_vpu5 b, undo_fw c)
    else (let (ret, c') = wait_for_system_response c b in
        if not (ret == 0) then (ret, c') else (0, set_idle_opp c' b.min_freq b.set_rate))

unfoldable pub core_load : Core → BootAnswers → ℕ × Core
core_load c b =
    let (ret, c') = fw_load c b.fw in
    if not (ret == 0) then (ret, undo_power c') else core_start c' b

unfoldable pub core_power : Core → BootAnswers → ℕ × Core
core_power c b =
    let (ret, c') = vpu_power_on c b.power in
    if not (ret == 0) then (ret, undo_queues c') else core_load c' b

unfoldable pub core_bring_up : Core → BootAnswers → ℕ × Core
core_bring_up c b =
    let (ret, c') = queues_init c b.table_addr b.sfr_addr in
    if not (ret == 0) then (ret, set_core_state c' CoreState.deinit) else core_power c' b

unfoldable pub core_init : Core → BootAnswers → ℕ × Core
core_init c b =
    if is_state c.state CoreState.init
    then (0, c)
    else if is_state c.state CoreState.error
    then (einval, set_core_state c CoreState.deinit)
    else core_bring_up (set_core_state c CoreState.init) b

unfoldable pub core_deinit : Core → Core
core_deinit c =
    if is_state c.state CoreState.deinit
    then c
    else record (queues_deinit (vpu_power_off (fw_unload c))) {
      pc_work_queued = false;
      vpu_suspended = false;
      state = CoreState.deinit;
    }

unfoldable pub core_recover : Core → BootAnswers → ℕ × Core
core_recover c b = core_init (core_deinit c) b
