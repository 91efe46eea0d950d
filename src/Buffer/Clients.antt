-- ===== src/Buffer/Clients.antt =====
-- iris_vb2.c, iris_buffer.c, iris_common.c and iris_utils.c: the buffers of a client, from their queueing
-- to their return. The two lists are those of v4l2_m2m; `returned` is what v4l2_m2m_buf_done was
-- called with, the latest first. The codes of the queueing commands are answers. The measurement of
-- the rate by a decoder is in Coding/Rate, the time stamps are in Buffer/Stamps, and the scaling of the
-- power is left out.
pub mod Conserved
pub mod Offered
use nabu_iris.Common.{
  ℕ, ◌+◌, Bool, true, false, not, ◌&&◌, ◌||◌, ◌==◌, if◌then◌else◌, List, [], ◌∷◌, ◌++◌, einval,
  ebusy, u32,
}
use nabu_iris.Instance.{InstState, Handle}
use nabu_iris.State.{same_state, change_state}
use nabu_iris.SubState.{drc_pending, drain_pending}

-- `struct iris_buffer` of a client, with the bits of `attr` and `flags`.
pub record Client : Type 0 where
  pub index : ℕ
  pub bytesused : ℕ
  pub deferred : Bool
  pub queued : Bool
  pub buffer_done : Bool
  pub failed : Bool  -- V4L2_BUF_FLAG_ERROR
  pub last : Bool  -- V4L2_BUF_FLAG_LAST

-- `enum vb2_buffer_state`, the states that a buffer is returned in.
pub data Ending : Type 0 where
  done failed queued : Ending

pub record Returned : Type 0 where
  pub is_src : Bool
  pub index : ℕ
  pub ending : Ending

-- The instance, its lists and what it told the client.
pub record Lists : Type 0 where
  pub handle : Handle
  pub src : List Client
  pub dst : List Client
  pub returned : List Returned
  pub stopped : Bool  -- v4l2_m2m_has_stopped
  pub eos_events : ℕ
  pub sequence_cap : ℕ
  pub sequence_out : ℕ

-- `is_src` tells the OUTPUT plane from the CAPTURE plane.
abbrev pub list_of : Lists → Bool → List Client
list_of s is_src = if is_src then s.src else s.dst

abbrev pub set_list : Lists → Bool → List Client → Lists
set_list s true bs = record s { src = bs }
set_list s false bs = record s { dst = bs }

-- v4l2_m2m_buf_done
abbrev pub give_back : Lists → Bool → ℕ → Ending → Lists
give_back s is_src i e = record s {
  returned = record { is_src = is_src; index = i; ending = e } ∷ s.returned;
}

unfoldable pub give_back_all : Lists → Bool → Ending → List Client → Lists
give_back_all s is_src e [] = s
give_back_all s is_src e (b ∷ bs) = give_back_all (give_back s is_src b.index e) is_src e bs

unfoldable pub helper_buffers_done : Lists → Bool → Ending → Lists
helper_buffers_done s is_src e = set_list (give_back_all s is_src e (list_of s is_src)) is_src []

abbrev pub has_index : ℕ → List Client → Bool
has_index i [] = false
has_index i (b ∷ bs) = (b.index == i) || has_index i bs

-- v4l2_m2m_buf_remove_by_idx
unfoldable pub remove_by_idx : ℕ → List Client → List Client
remove_by_idx i [] = []
remove_by_idx i (b ∷ bs) = let rest = remove_by_idx i bs in if b.index == i then bs else b ∷ rest

abbrev pub next_sequence : Lists → Bool → Lists
next_sequence s true = record s { sequence_out = u32 (s.sequence_out + 1) }
next_sequence s false = record s { sequence_cap = u32 (s.sequence_cap + 1) }

-- The end of the stream is told once.
abbrev pub mark_last : Lists → Lists
mark_last s = record s {
  handle = record (s.handle) { inst = record (s.handle.inst) { last_buffer_dequeued = true } };
  stopped = true;
  eos_events = if s.stopped then s.eos_events else s.eos_events + 1;
}

-- `rollback` tells whether a failed start of this plane is being undone.
unfoldable pub vb2_buffer_done : Lists → Bool → Bool → Client → ℕ × Lists
vb2_buffer_done s is_src rollback b =
    let s' = set_list s is_src (remove_by_idx b.index (list_of s is_src)) in
    if not (has_index b.index (list_of s is_src))
    then (einval, s)
    else if rollback
    then (0, give_back s' is_src b.index Ending.queued)
    else if b.failed
    then (0, give_back s' is_src b.index Ending.failed)
    else if b.last
    then (0, give_back (mark_last (next_sequence s' is_src)) is_src b.index Ending.done)
    else (0, give_back (next_sequence s' is_src) is_src b.index Ending.done)

-- The loop over the buffers of a plane that never reached the firmware.
unfoldable pub flush_list : Lists → Bool → Bool → List Client → Lists
flush_list s is_src rollback [] = s
flush_list s is_src rollback (b ∷ bs) =
    let flushed = (vb2_buffer_done s is_src rollback b).1 in
    flush_list (if b.deferred && not b.buffer_done then flushed else s) is_src rollback bs

unfoldable pub flush_deferred_buffers : Lists → Bool → Bool → Lists
flush_deferred_buffers s is_src rollback = flush_list s is_src rollback (list_of s is_src)

-- `iris_queue_buffer` on the deferred buffers of a plane, up to the first error.
unfoldable pub queue_list : (Client → ℕ) → List Client → ℕ × List Client
queue_list ask [] = (0, [])
queue_list ask (b ∷ bs) =
    let rest = queue_list ask bs in
    if not b.deferred
    then (rest.0, b ∷ rest.1)
    else if not (ask b == 0)
    then (ask b, b ∷ bs)
    else (rest.0, record b { deferred = false; queued = true } ∷ rest.1)

unfoldable pub queue_deferred_buffers : Lists → Bool → (Client → ℕ) → ℕ × Lists
queue_deferred_buffers s is_src ask =
    let r = queue_list ask (list_of s is_src) in (r.0, set_list s is_src r.1)

-- The label `exit` of `iris_vb2_buf_queue`, with a code.
abbrev pub refuse_buffer : Lists → Bool → ℕ → ℕ → ℕ × Lists
refuse_buffer s is_src i code = (
  code,
  give_back (record s { handle = (change_state s.handle InstState.error).1 }) is_src i
      Ending.failed,
)

-- `iris_vdec_qbuf` and `iris_venc_qbuf`, with the buffer at the end of its list: `streaming` is what
-- `vb2_is_streaming` answers, and `code` the command's.
unfoldable pub qbuf : Lists → Bool → Client → Bool → ℕ → ℕ × Lists
qbuf s is_src b streaming code =
    let put = λ (c : Client). set_list s is_src (list_of s is_src ++ c ∷ []) in
    let fresh = record b { deferred = false; queued = false; buffer_done = false } in
    if not streaming
    then (0, put (record fresh { deferred = true }))
    else if not (code == 0)
    then refuse_buffer (put fresh) is_src b.index code
    else (0, put (record fresh { queued = true }))

unfoldable pub vb2_buf_queue : Lists → Bool → Client → Bool → ℕ → ℕ × Lists
vb2_buf_queue s is_src b streaming code =
    let inst = s.handle.inst in
    if same_state inst.state InstState.error
    then refuse_buffer s is_src b.index ebusy
    else if (b.bytesused == 0) && is_src
    then refuse_buffer s is_src b.index einval
    else if not inst.last_buffer_dequeued
        && (not is_src && (drc_pending inst.sub_state || drain_pending inst.sub_state))
    then (0, give_back (mark_last (next_sequence s false)) is_src b.index Ending.done)
    else qbuf s is_src b streaming code
