-- ===== src/Session/Files.antt =====
-- iris_vidc.c: the open and the close of a device file, around the core and the session. `usage` is
-- the count of the references on the runtime power management of the device, and `enabled` the
-- module parameter `power_collapse`.
pub mod Opening
pub mod Balance
pub mod Asleep
use nabu_iris.Common.{
  ℕ, ◌+◌, ◌-◌, Bool, true, false, not, ◌&&◌, ◌==◌, if◌then◌else◌, Option, none, some, List, [], ◌∷◌,
  ◌++◌, zero, suc, eacces, einval, enomem,
}
use nabu_iris.Instance.{Inst, Domain, InstState}
use nabu_iris.Core.{Core, CoreState}
use nabu_iris.Core.Boot.{BootAnswers, core_init, core_recover, is_state}
use nabu_iris.Core.Collapse.{WakeAnswers, pc_resume, pc_schedule}
use nabu_iris.Session.{run_pending_core_recovery, CloseAnswer, hfi_session_close}

-- What one open is answered. `inst` is the instance as `get_instance` and the initialisation of its
-- codec prepare it.
pub record OpenFileAnswers : Type 0 where
  pub allowed : Bool  -- allow_fw_boot
  pub domain : Option Domain  -- by the device's name
  pub resume : ℕ  -- pm_runtime_resume_and_get
  pub wake : WakeAnswers
  pub restart : BootAnswers
  pub start : BootAnswers
  pub retry : BootAnswers
  pub inst : Option Inst
  pub m2m_dev : Bool
  pub m2m_ctx : Bool
  pub inst_init : ℕ

abbrev pub taken : Core → Core
taken c = record c { recovery_pending = false }

-- A core whose VPU did not come back from its collapse is power-cycled.
abbrev pub restart_asleep : ℕ × Core → BootAnswers → Core
restart_asleep r b = if r.0 == 0 then r.1 else (core_recover (taken r.1) b).1

-- A core that is in ERROR after a start that failed is power-cycled once.
unfoldable pub retry_start : ℕ × Core → BootAnswers → ℕ × Core
retry_start r b =
    if not (r.0 == 0) && is_state r.1.state CoreState.error then core_recover (taken r.1) b else r

-- The core's part of `iris_open`, behind its runtime reference.
unfoldable pub open_core : Bool → Core → OpenFileAnswers → ℕ × Core
open_core enabled c a =
    retry_start (core_init (restart_asleep (pc_resume enabled c a.wake) a.restart) a.start) a.retry

-- The label `fail_v4l2_fh_deinit`: the instance is freed and the runtime reference is put.
abbrev pub fail_open : ℕ → ℕ → ℕ × Option Inst × ℕ
fail_open code usage = (code, none, usage - 1)

-- The instance's part, with the core started: the code, the instance that joins the core, and the
-- count of the references.
unfoldable pub open_instance : OpenFileAnswers → Domain → ℕ → ℕ × Option Inst × ℕ
open_instance a d usage = elim a.inst [
  | none ↦ (enomem, none, usage - 1)
  | some inst ↦
      if not a.m2m_dev
      then fail_open einval usage
      else if not a.m2m_ctx
      then fail_open einval usage
      else if not (a.inst_init == 0)
      then fail_open a.inst_init usage
      else (0, some (record inst { domain = d; state = InstState.deinit }), usage)
]

abbrev pub joined : List Inst → Option Inst → List Inst
joined is none = is
joined is (some inst) = is ++ inst ∷ []

-- `iris_add_session`, of an instance that is there.
unfoldable pub join_core : Core → ℕ × Option Inst × ℕ → ℕ × Core × ℕ
join_core c r = (r.0, record c { instances = joined c.instances r.1 }, r.2)

-- With the device's runtime reference held.
unfoldable pub open_resumed : Bool → Core → ℕ → OpenFileAnswers → Domain → ℕ × Core × ℕ
open_resumed enabled c usage a d =
    let r = open_core enabled c a in
    if not (r.0 == 0) then (r.0, r.1, usage - 1) else join_core r.1 (open_instance a d usage)

unfoldable pub open_device : Bool → Core → ℕ → OpenFileAnswers → Option Domain → ℕ × Core × ℕ
open_device enabled c usage a none = (einval, c, usage)
open_device enabled c usage a (some d) =
    if not (a.resume == 0) then (a.resume, c, usage) else open_resumed enabled c (usage + 1) a d

unfoldable pub open_file : Bool → Core → ℕ → OpenFileAnswers → ℕ × Core × ℕ
open_file enabled c usage a =
    if not a.allowed then (eacces, c, usage) else open_device enabled c usage a a.domain

-- `list_del_init` at an index.
abbrev pub remove_at : List Inst → ℕ → List Inst
remove_at [] i = []
remove_at (x ∷ xs) zero = xs
remove_at (x ∷ xs) (suc i) = x ∷ remove_at xs i

unfoldable pub close_file : Bool → Core → ℕ → ℕ → CloseAnswer → BootAnswers → Core × ℕ
close_file enabled c usage i a b =
    let closed = (hfi_session_close c i a).1 in
    let left = record closed { instances = remove_at closed.instances i } in
    (pc_schedule enabled (run_pending_core_recovery left b), usage - 1)
