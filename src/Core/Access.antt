-- ===== src/Core/Access.antt =====
-- iris_hfi_queue.c: the calls of the driver on the three rings. `none` is a fault, the use of a
-- ring that was torn down; the functions that take `core->lock` hold it throughout, so each is one
-- step.
pub mod Balance
pub mod Delivery
use nabu_iris.Common.{
  ℕ, suc, ◌+◌, ◌-◌, ◌||◌, not, ◌==◌, if◌then◌else◌, Option, none, some, ◌≡◌, ◌≢◌, einval, enodata,
}
use nabu_iris.Queue.{IfaceQueue, Buffer, ifaceq_queue_size, queue_write, queue_read}
use nabu_iris.Core.{CoreState, Core}
use nabu_iris.Core.Boot.{is_state}

unfoldable pub cmd_write_locked : Core → Buffer → ℕ → Option (ℕ × Core)
cmd_write_locked c pkt pkt_size =
    if is_state c.state CoreState.error || is_state c.state CoreState.deinit
    then some (einval, c)
    else elim c.command_queue [
      | none ↦ none
      | some q ↦
          let (ret, q') = queue_write ifaceq_queue_size q pkt pkt_size in
          if ret == 0
          then some (0, record c { command_queue = some q'; doorbells = c.doorbells + 1 })
          else some (enodata, record c { command_queue = some q' })
    ]

-- Runtime power management of a device, as the kernel documents it: a reference is taken only by a
-- resume that succeeds, and each put drops one.
pub record RuntimePm : Type 1 where
  pub Device : Type 0
  pub usage : Device → ℕ
  pub resume_and_get : Device → ℕ × Device
  pub put : Device → Device
  pub resume_ok : (d : Device) → (resume_and_get d).0 ≡ 0 → usage (resume_and_get d).1 ≡ usage d + 1
  pub resume_failed : (d : Device) → (resume_and_get d).0 ≢ 0 → usage (resume_and_get d).1 ≡ usage d
  pub put_drops : (d : Device) → usage (put d) ≡ usage d - 1

module _ (pm : RuntimePm) where
  open pm use {Device, usage, resume_and_get, put}

  unfoldable pub cmd_write : Core → Device → Buffer → ℕ → Option (ℕ × Core × Device)
  cmd_write c d pkt pkt_size =
      let (ret, d') = resume_and_get d in
      if not (ret == 0) then some (ret, c, put d') else elim (cmd_write_locked c pkt pkt_size) [
        | none ↦ none
        | some (code, c') ↦ some (code, c', put d')
      ]

unfoldable pub msg_read : Core → Buffer → Option (ℕ × Buffer × Core)
msg_read c pkt =
    if not (is_state c.state CoreState.init) then some (einval, pkt, c) else elim c.message_queue [
      | none ↦ none
      | some q ↦
          let (ret, pkt', q') = queue_read ifaceq_queue_size q pkt in
          some (if ret == 0 then 0 else enodata, pkt', record c { message_queue = some q' })
    ]

unfoldable pub dbg_read : Core → Buffer → Option (ℕ × Buffer × Core)
dbg_read c pkt =
    if not (is_state c.state CoreState.init) then some (einval, pkt, c) else elim c.debug_queue [
      | none ↦ none
      | some q ↦
          let (ret, pkt', q') = queue_read ifaceq_queue_size q pkt in
          some (if ret == 0 then 0 else enodata, pkt', record c { debug_queue = some q' })
    ]
