-- ===== src/Core/Access/Delivery.antt =====
-- The commands and the responses of a core whose rings hold packets.
use nabu_iris.Common.{
  ℕ, ◌+◌, ◌<◌, List, [], ◌∷◌, ◌++◌, some, ◌≡◌, ◌⊎◌, inl, inr, refl, arith, length, einval,
}
use nabu_iris.Queue.{Buffer, IfaceQueue, ifaceq_queue_size, queue_write, queue_read}
use nabu_iris.Queue.Bytes.{bytes}
use nabu_iris.Queue.Valid.{Holds, IsPacket, used}
use nabu_iris.Queue.Fifo.{write-Holds, read-Holds}
use nabu_iris.Core.{Core, CoreState}
use nabu_iris.Core.Access.{cmd_write_locked, msg_read}

-- In INIT, a valid command that leaves room in the command ring is queued behind those before it,
-- with one doorbell, and nothing else of the core is touched.
pub cmd_write_locked-Holds :
    (c : Core) (q : IfaceQueue) (pkt : Buffer) (n : ℕ) (ps : List (List ℕ))
    → c.state ≡ CoreState.init
    → c.command_queue ≡ some q
    → Holds ifaceq_queue_size q ps
    → IsPacket (bytes pkt 0 n)
    → used ifaceq_queue_size q + n < ifaceq_queue_size
    → let q' = (queue_write ifaceq_queue_size q pkt n).1 in
      (cmd_write_locked c pkt n
        ≡ some (0, record c { command_queue = some q'; doorbells = c.doorbells + 1 }))
      × Holds ifaceq_queue_size q' (ps ++ (bytes pkt 0 n ∷ []))
unfolding cmd_write_locked
cmd_write_locked-Holds c q pkt n ps s e h is room =
    let (ret, held) = write-Holds ifaceq_queue_size q pkt n ps h is room in (ground arith, held)

-- Without a started core no command reaches the ring: it is refused, and the core is as it was.
pub cmd_write_locked_refused :
    (c : Core) (pkt : Buffer) (n : ℕ)
    → (c.state ≡ CoreState.deinit) ⊎ (c.state ≡ CoreState.error)
    → cmd_write_locked c pkt n ≡ some (einval, c)
unfolding cmd_write_locked
cmd_write_locked_refused c pkt n (inl s) = rw s refl
cmd_write_locked_refused c pkt n (inr s) = rw s refl

-- In INIT, a read of the message ring delivers its oldest packet and removes it.
pub msg_read-Holds :
    (c : Core) (q : IfaceQueue) (out : Buffer) (p : List ℕ) (ps : List (List ℕ))
    → c.state ≡ CoreState.init
    → c.message_queue ≡ some q
    → Holds ifaceq_queue_size q (p ∷ ps)
    → let (ret, out', q') = queue_read ifaceq_queue_size q out in
      (msg_read c out ≡ some (0, out', record c { message_queue = some q' }))
      × (bytes out' 0 (length p) ≡ p)
      × Holds ifaceq_queue_size q' ps
unfolding msg_read
msg_read-Holds c q out p ps s e h =
    let (ret, packet, rest) = read-Holds ifaceq_queue_size q out p ps h in
    (ground arith, packet, rest)
