-- ===== src/Buffer/Pool.antt =====
-- iris_buffer.c: the internal buffers of an instance, from their allocation to their release.
-- `inst->buffers` is a list indexed by the kinds; `dma` is what dma_alloc_attrs gave and
-- dma_free_attrs did not take back. The kinds of a plane come from a table of the platform. What the
-- allocators and the commands `session_queue_buf` and `session_release_buf` answer is an argument.
pub mod Account
pub mod Life
pub mod Emptied
use nabu_iris.Common.{
  ℕ, zero, suc, ◌+◌, ◌-◌, max, Bool, true, false, not, ◌&&◌, ◌||◌, ◌==◌, if◌then◌else◌, List, [],
  ◌∷◌, ◌++◌, get_or, set, enomem,
}
use nabu_iris.Instance.{Domain}
use nabu_iris.Buffer.{BufferType, Shape, video_max_frame}
use nabu_iris.Buffer.Size.{is_decoder, vpu_buf_size, vpu_buf_count}

-- `struct iris_buffer`, with the bits of `attr`.
pub record IrisBuffer : Type 0 where
  pub index : ℕ
  pub buffer_size : ℕ
  pub deferred : Bool
  pub pending_release : Bool
  pub queued : Bool

-- `struct iris_buffers`, and `fw_buffer_sizes` for its kind.
pub record Buffers : Type 0 where
  pub bufs : List IrisBuffer
  pub min_count : ℕ
  pub size : ℕ
  pub fw_size : ℕ

pub record Pools : Type 0 where
  pub buffers : List Buffers
  pub dma : ℕ

abbrev pub no_buffers : Buffers
no_buffers = record { bufs = []; min_count = 0; size = 0; fw_size = 0 }

-- The values of `enum iris_buffer_type`.
abbrev pub type_id : BufferType → ℕ
type_id BufferType.input = 1
type_id BufferType.output = 2
type_id BufferType.bin = 3
type_id BufferType.arp = 4
type_id BufferType.comv = 5
type_id BufferType.non_comv = 6
type_id BufferType.line = 7
type_id BufferType.dpb = 8
type_id BufferType.persist = 9
type_id BufferType.scratch_1 = 10
type_id BufferType.scratch_2 = 11
type_id BufferType.vpss = 12

-- BUF_TYPE_MAX
abbrev pub buf_type_max : ℕ
buf_type_max = 13

abbrev pub pool : Pools → BufferType → Buffers
pool p t = get_or p.buffers (type_id t) no_buffers

abbrev pub set_pool : Pools → BufferType → Buffers → Pools
set_pool p t b = record p { buffers = set p.buffers (type_id t) b }

abbrev pub is_dpb : BufferType → Bool
is_dpb t = type_id t == 8

-- The firmware's size is taken as it is on VPU5, where it has given one for a decoder.
unfoldable pub fill_internal_buf_info : Shape → Pools → BufferType → Pools
fill_internal_buf_info s p t =
    let b = pool p t in
    let exact = is_decoder s.domain && (s.legacy_vpu5 && not (b.fw_size == 0)) in
    set_pool p t (record b {
      size = if exact then b.fw_size else max (vpu_buf_size s t) b.fw_size;
      min_count = vpu_buf_count s t;
    })

unfoldable pub get_internal_buffers : Shape → Pools → List BufferType → Pools
unfolding fill_internal_buf_info
get_internal_buffers s p [] = p
get_internal_buffers s p (t ∷ ts) = get_internal_buffers s (fill_internal_buf_info s p t) ts

-- Whether the two allocations for the buffer of a kind with an index succeed.
abbrev pub Allocator : Type 0
Allocator = BufferType → ℕ → Bool

unfoldable pub new_buffer : BufferType → ℕ → ℕ → IrisBuffer
new_buffer t index size = record {
  index = if is_dpb t then video_max_frame + index else index;
  buffer_size = size;
  deferred = false;
  pending_release = false;
  queued = false;
}

unfoldable pub create_internal_buffer : Allocator → Pools → BufferType → ℕ → ℕ × Pools
create_internal_buffer ok p t index =
    let b = pool p t in
    if b.size == 0 then (0, p) else if not (ok t index) then (enomem, p) else (
      0,
      record (set_pool p t (record b { bufs = b.bufs ++ new_buffer t index b.size ∷ [] })) {
        dma = p.dma + b.size;
      },
    )

-- The loop over the indices of one kind.
unfoldable pub create_kind : Allocator → Pools → BufferType → ℕ → ℕ → ℕ × Pools
create_kind ok p t index zero = (0, p)
create_kind ok p t index (suc left) =
    let r = create_internal_buffer ok p t index in
    let rest = create_kind ok r.1 t (index + 1) left in if not (r.0 == 0) then r else rest

-- A loop over kinds that ends at the first error.
unfoldable pub each_kind : (Pools → BufferType → ℕ × Pools) → Pools → List BufferType → ℕ × Pools
each_kind f p [] = (0, p)
each_kind f p (t ∷ ts) =
    let r = f p t in let rest = each_kind f r.1 ts in if not (r.0 == 0) then r else rest

unfoldable pub create_internal_buffers : Allocator → Pools → List BufferType → ℕ × Pools
create_internal_buffers ok = each_kind (λ p t. create_kind ok p t 0 (pool p t).min_count)

-- The code of a command about one buffer.
abbrev pub Commander : Type 0
Commander = BufferType → IrisBuffer → ℕ

-- `iris_queue_buffer`, on the buffer.
abbrev pub queued_buffer : IrisBuffer → IrisBuffer
queued_buffer b = record b { deferred = false; queued = true }

-- What one round of `iris_queue_internal_buffers` does with a buffer: pictures wait for the stream.
unfoldable pub queue_one : Commander → Bool → BufferType → IrisBuffer → ℕ × IrisBuffer
queue_one ask streaming t b =
    if b.pending_release || b.queued
    then (0, b)
    else if is_dpb t && not streaming
    then (0, record b { deferred = true })
    else if not (ask t b == 0)
    then (ask t b, b)
    else (0, queued_buffer b)

-- A loop over the buffers of one kind that ends at the first error.
unfoldable pub each_buffer : (IrisBuffer → ℕ × IrisBuffer) → List IrisBuffer → ℕ × List IrisBuffer
each_buffer f [] = (0, [])
each_buffer f (b ∷ bs) =
    let r = f b in
    let rest = each_buffer f bs in if not (r.0 == 0) then (r.0, b ∷ bs) else (rest.0, r.1 ∷ rest.1)

abbrev pub each_in : (IrisBuffer → ℕ × IrisBuffer) → Pools → BufferType → ℕ × Pools
each_in f p t =
    let r = each_buffer f (pool p t).bufs in (r.0, set_pool p t (record (pool p t) { bufs = r.1 }))

unfoldable pub queue_internal_buffers : Commander → Bool → Pools → List BufferType → ℕ × Pools
queue_internal_buffers ask streaming = each_kind (λ p t. each_in (queue_one ask streaming t) p t)

unfoldable pub queue_deferred_one : Commander → BufferType → IrisBuffer → ℕ × IrisBuffer
queue_deferred_one ask t b =
    if b.pending_release || b.queued
    then (0, b)
    else if not b.deferred
    then (0, b)
    else if not (ask t b == 0)
    then (ask t b, b)
    else (0, queued_buffer b)

unfoldable pub queue_internal_deferred_buffers : Commander → Pools → BufferType → ℕ × Pools
queue_internal_deferred_buffers ask p t = each_in (queue_deferred_one ask t) p t

unfoldable pub release_one : Commander → BufferType → IrisBuffer → ℕ × IrisBuffer
release_one ask t b =
    if b.pending_release || not b.queued
    then (0, b)
    else if not (ask t b == 0)
    then (ask t b, b)
    else (0, record b { pending_release = true })

unfoldable pub release_input_internal_buffers : Commander → Pools → List BufferType → ℕ × Pools
release_input_internal_buffers ask = each_kind (λ p t. each_in (release_one ask t) p t)

-- The buffers of one kind that a destruction leaves, and the bytes that it frees: without force, those
-- that the firmware has are left.
unfoldable pub left_over : Bool → List IrisBuffer → List IrisBuffer
left_over force [] = []
left_over force (b ∷ bs) =
    let rest = left_over force bs in if not force && b.queued then b ∷ rest else rest

unfoldable pub freed_bytes : Bool → List IrisBuffer → ℕ
freed_bytes force [] = 0
freed_bytes force (b ∷ bs) =
    (if not force && b.queued then 0 else b.buffer_size) + freed_bytes force bs

unfoldable pub destroy_kind : Bool → Pools → BufferType → Pools
unfolding left_over freed_bytes
destroy_kind force p t =
    let b = pool p t in
    record (set_pool p t (record b { bufs = left_over force b.bufs })) {
      dma = p.dma - freed_bytes force b.bufs;
    }

unfoldable pub destroy_kinds : Bool → Pools → List BufferType → Pools
destroy_kinds force p [] = p
destroy_kinds force p (t ∷ ts) = destroy_kinds force (destroy_kind force p t) ts

-- The kind that outlives the streams.
abbrev pub lasting_kind : Domain → BufferType
lasting_kind Domain.decoder = BufferType.persist
lasting_kind Domain.encoder = BufferType.arp

unfoldable pub destroy_internal_buffers : Bool → Domain → Pools → List BufferType → Pools
destroy_internal_buffers force d p ts =
    let p' = destroy_kinds force p ts in if force then destroy_kind true p' (lasting_kind d) else p'

abbrev pub is_nil : List IrisBuffer → Bool
is_nil [] = true
is_nil (b ∷ bs) = false

-- Buffers of a lasting kind are queued without waiting for the stream.
unfoldable pub queue_persist_one : Commander → BufferType → IrisBuffer → ℕ × IrisBuffer
queue_persist_one ask t b =
    if b.pending_release || b.queued
    then (0, b)
    else if not (ask t b == 0)
    then (ask t b, b)
    else (0, queued_buffer b)

unfoldable pub alloc_and_queue_persist_bufs :
    Shape → Allocator → Commander → Pools → BufferType → ℕ × Pools
alloc_and_queue_persist_bufs s ok ask p t =
    if not (is_nil (pool p t).bufs)
    then (0, p)
    else (let filled = fill_internal_buf_info s p t in
        let r = create_kind ok filled t 0 (pool filled t).min_count in
        let rest = each_in (queue_persist_one ask t) r.1 t in if not (r.0 == 0) then r else rest)

unfoldable pub alloc_and_queue_input_int_bufs :
    Shape → Allocator → Commander → Commander → Bool → Pools → List BufferType → ℕ × Pools
alloc_and_queue_input_int_bufs s ok release ask streaming p ts =
    let r = release_input_internal_buffers release (get_internal_buffers s p ts) ts in
    let made = create_internal_buffers ok r.1 ts in
    let rest = queue_internal_buffers ask streaming made.1 ts in
    if not (r.0 == 0) then r else if not (made.0 == 0) then made else rest
