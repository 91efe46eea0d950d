-- ===== src/Buffer/Pool/Life.antt =====
-- The internal buffers over a session: every operation on them keeps their account.
use nabu_iris.Common.{ℕ, Bool, false, not, ◌==◌, List, either_branch}
use nabu_iris.Buffer.{BufferType, Shape}
use nabu_iris.Buffer.Pool
use nabu_iris.Buffer.Pool.Account.{
  Among, Within, Accounted, fill-Accounted, get-Accounted, create_kind-Accounted,
  each_kind-Accounted, each_in-Accounted, queue_one-size, queue_deferred_one-size, release_one-size,
  queue_persist_one-size, destroy_kinds-Accounted,
}

-- What a session does with its internal buffers, each with the kinds of its plane.
pub data PoolEvent : Type 0 where
  sizes : List BufferType → PoolEvent
  creates : Pool.Allocator → List BufferType → PoolEvent
  queues : Pool.Commander → Bool → List BufferType → PoolEvent
  defers : Pool.Commander → BufferType → PoolEvent
  releases : Pool.Commander → List BufferType → PoolEvent
  destroys : List BufferType → PoolEvent
  persists : Pool.Allocator → Pool.Commander → BufferType → PoolEvent
  inputs : Pool.Allocator → Pool.Commander → Pool.Commander → Bool → List BufferType → PoolEvent

unfoldable pub apply_event : Shape → Pool.Pools → PoolEvent → Pool.Pools
apply_event s p (sizes ts) = Pool.get_internal_buffers s p ts
apply_event s p (creates ok ts) = (Pool.create_internal_buffers ok p ts).1
apply_event s p (queues ask streaming ts) = (Pool.queue_internal_buffers ask streaming p ts).1
apply_event s p (defers ask t) = (Pool.queue_internal_deferred_buffers ask p t).1
apply_event s p (releases ask ts) = (Pool.release_input_internal_buffers ask p ts).1
apply_event s p (destroys ts) = Pool.destroy_internal_buffers false s.domain p ts
apply_event s p (persists ok ask t) = (Pool.alloc_and_queue_persist_bufs s ok ask p t).1
apply_event s p (inputs ok release ask streaming ts) =
    (Pool.alloc_and_queue_input_int_bufs s ok release ask streaming p ts).1

-- The kinds of an event are those of the session.
abbrev pub Concerns : List BufferType → PoolEvent → Type 0
Concerns ks (sizes ts) = Within ks ts
Concerns ks (creates ok ts) = Within ks ts
Concerns ks (queues ask streaming ts) = Within ks ts
Concerns ks (defers ask t) = Among ks t
Concerns ks (releases ask ts) = Within ks ts
Concerns ks (destroys ts) = Within ks ts
Concerns ks (persists ok ask t) = Among ks t
Concerns ks (inputs ok release ask streaming ts) = Within ks ts

module _ (ks : List BufferType) (s : Shape) where
  create-Accounted :
      (ok : Pool.Allocator) (p : Pool.Pools) (ts : List BufferType)
      → Within ks ts
      → Accounted ks p
      → Accounted ks (Pool.create_internal_buffers ok p ts).1
  unfolding Pool.create_internal_buffers
  create-Accounted ok =
      each_kind-Accounted ks _
        (λ p t m. create_kind-Accounted ks ok p t 0 (Pool.pool p t).min_count m)

  queue-Accounted :
      (ask : Pool.Commander) (b : Bool) (p : Pool.Pools) (ts : List BufferType)
      → Within ks ts
      → Accounted ks p
      → Accounted ks (Pool.queue_internal_buffers ask b p ts).1
  unfolding Pool.queue_internal_buffers
  queue-Accounted ask b =
      each_kind-Accounted ks _
        (λ p t. each_in-Accounted ks (Pool.queue_one ask b t) (λ x. queue_one-size ask t x b) p t)

  release-Accounted :
      (ask : Pool.Commander) (p : Pool.Pools) (ts : List BufferType)
      → Within ks ts
      → Accounted ks p
      → Accounted ks (Pool.release_input_internal_buffers ask p ts).1
  unfolding Pool.release_input_internal_buffers
  release-Accounted ask =
      each_kind-Accounted ks _
        (λ p t. each_in-Accounted ks (Pool.release_one ask t) (λ x. release_one-size ask t x) p t)

  persist-Accounted :
      (ok : Pool.Allocator) (ask : Pool.Commander) (p : Pool.Pools) (t : BufferType)
      → Among ks t
      → Accounted ks p
      → Accounted ks (Pool.alloc_and_queue_persist_bufs s ok ask p t).1
  unfolding Pool.alloc_and_queue_persist_bufs
  persist-Accounted ok ask p t m a =
      let filled = Pool.fill_internal_buf_info s p t in
      let r = Pool.create_kind ok filled t 0 (Pool.pool filled t).min_count in
      let made =
        create_kind-Accounted ks ok filled t 0 (Pool.pool filled t).min_count m
          (fill-Accounted ks s p t m a) in
      either_branch (λ (x : ℕ × Pool.Pools). Accounted ks x.1)
        (not (Pool.is_nil (Pool.pool p t).bufs)) _ _ a
        (either_branch (λ (x : ℕ × Pool.Pools). Accounted ks x.1) (not (r.0 == 0)) _ _ made
          (each_in-Accounted ks (Pool.queue_persist_one ask t) (λ x. queue_persist_one-size ask t x)
            r.1 t m made))

  input-Accounted :
      (ok : Pool.Allocator) (release ask : Pool.Commander) (b : Bool) (p : Pool.Pools)
      (ts : List BufferType)
      → Within ks ts
      → Accounted ks p
      → Accounted ks (Pool.alloc_and_queue_input_int_bufs s ok release ask b p ts).1
  unfolding Pool.alloc_and_queue_input_int_bufs
  input-Accounted ok release ask b p ts m a =
      let r = Pool.release_input_internal_buffers release (Pool.get_internal_buffers s p ts) ts in
      let made = Pool.create_internal_buffers ok r.1 ts in
      let released =
        release-Accounted release (Pool.get_internal_buffers s p ts) ts m
          (get-Accounted ks s p ts m a) in
      let created = create-Accounted ok r.1 ts m released in
      either_branch (λ (x : ℕ × Pool.Pools). Accounted ks x.1) (not (r.0 == 0)) _ _ released
        (either_branch (λ (x : ℕ × Pool.Pools). Accounted ks x.1) (not (made.0 == 0)) _ _ created
          (queue-Accounted ask b made.1 ts m created))

  pub apply_event-Accounted :
      (p : Pool.Pools) (e : PoolEvent)
      → Concerns ks e
      → Accounted ks p
      → Accounted ks (apply_event s p e)
  unfolding apply_event Pool.queue_internal_deferred_buffers Pool.destroy_internal_buffers
  apply_event-Accounted p (sizes ts) m a = get-Accounted ks s p ts m a
  apply_event-Accounted p (creates ok ts) m a = create-Accounted ok p ts m a
  apply_event-Accounted p (queues ask b ts) m a = queue-Accounted ask b p ts m a
  apply_event-Accounted p (defers ask t) m a =
      each_in-Accounted ks (Pool.queue_deferred_one ask t) (λ x. queue_deferred_one-size ask t x) p
        t m a
  apply_event-Accounted p (releases ask ts) m a = release-Accounted ask p ts m a
  apply_event-Accounted p (destroys ts) m a = destroy_kinds-Accounted ks false p ts m a
  apply_event-Accounted p (persists ok ask t) m a = persist-Accounted ok ask p t m a
  apply_event-Accounted p (inputs ok release ask b ts) m a =
      input-Accounted ok release ask b p ts m a
