-- ===== src/Buffer/Pool/Account.antt =====
-- What the allocator gave and did not get back is what the buffers in the lists hold: no path loses a
-- buffer, those of errors included.
use nabu_iris.Common.{
  ℕ, zero, suc, ◌+◌, ◌<◌, ◌≡◌, Bool, true, false, not, ◌||◌, ◌==◌, List, [], ◌∷◌, ◌++◌, length,
  length-set, total, total-set, set, arith, refl, ap, ◌∙◌, inl, ◌⊎◌, either_branch, ◌≤◌,
}
use nabu_iris.Buffer.{BufferType, Shape}
use nabu_iris.Buffer.Pool

abbrev pub bytes : List Pool.IrisBuffer → ℕ
bytes bs = total (λ (b : Pool.IrisBuffer). b.buffer_size) bs

abbrev pub held : Pool.Buffers → ℕ
held b = bytes b.bufs

-- Whether the kind with a number is one of a list.
abbrev pub among : ℕ → List BufferType → Bool
among n [] = false
among n (t ∷ ts) = (Pool.type_id t == n) || among n ts

-- From the kind `n` on, buffers are held for kinds of the list alone.
abbrev pub Only : List BufferType → ℕ → List Pool.Buffers → Type 0
Only ks n [] = Unit {0}
Only ks n (b ∷ bs) = ((among n ks ≡ true) ⊎ (b.bufs ≡ [])) × Only ks (n + 1) bs

abbrev pub Among : List BufferType → BufferType → Type 0
Among ks t = among (Pool.type_id t) ks ≡ true

abbrev pub Within : List BufferType → List BufferType → Type 0
Within ks [] = Unit {0}
Within ks (t ∷ ts) = Among ks t × Within ks ts

-- There is a list for each kind, the lists of other kinds than `ks` are empty, and together they hold
-- what was allocated.
pub record Accounted (ks : List BufferType) (p : Pool.Pools) : Type 0 where
  pub kinds : length p.buffers ≡ Pool.buf_type_max
  pub balance : p.dma ≡ total held p.buffers
  pub only : Only ks 0 p.buffers

-- A write in the list of one of the kinds.
Only-set :
    (ks : List BufferType) (n k : ℕ) (bs : List Pool.Buffers) (b : Pool.Buffers)
    → among (n + k) ks ≡ true
    → Only ks n bs
    → Only ks n (set bs k b)
Only-set ks n k [] b m o = tt
Only-set ks n zero (x ∷ bs) b m o = (inl (ap (λ i. among i ks) (omega arith) ∙ m), o.1)
Only-set ks n (suc k) (x ∷ bs) b m o =
    (o.0, Only-set ks (n + 1) k bs b (ap (λ i. among i ks) (omega arith) ∙ m) o.1)

type_id-lt : (t : BufferType) → Pool.type_id t < Pool.buf_type_max
type_id-lt BufferType.input = omega arith
type_id-lt BufferType.output = omega arith
type_id-lt BufferType.bin = omega arith
type_id-lt BufferType.arp = omega arith
type_id-lt BufferType.comv = omega arith
type_id-lt BufferType.non_comv = omega arith
type_id-lt BufferType.line = omega arith
type_id-lt BufferType.dpb = omega arith
type_id-lt BufferType.persist = omega arith
type_id-lt BufferType.scratch_1 = omega arith
type_id-lt BufferType.scratch_2 = omega arith
type_id-lt BufferType.vpss = omega arith

bytes-snoc :
    (bs : List Pool.IrisBuffer) (b : Pool.IrisBuffer)
    → bytes (bs ++ b ∷ []) ≡ bytes bs + b.buffer_size
bytes-snoc [] b = omega arith
bytes-snoc (x ∷ bs) b = omega (arith, bytes-snoc bs b)

grown :
    (bs : List Pool.IrisBuffer) (b : Pool.IrisBuffer) (dma : ℕ)
    → dma + b.buffer_size + bytes bs ≡ dma + bytes (bs ++ b ∷ [])
grown bs b dma = omega (arith, bytes-snoc bs b)

-- A loop over buffers that changes no size.
each_buffer-bytes :
    (f : Pool.IrisBuffer → ℕ × Pool.IrisBuffer)
    → ((b : Pool.IrisBuffer) → (f b).1.buffer_size ≡ b.buffer_size)
    → (bs : List Pool.IrisBuffer) → bytes (Pool.each_buffer f bs).1 ≡ bytes bs
unfolding Pool.each_buffer
each_buffer-bytes f keep [] = refl
each_buffer-bytes f keep (b ∷ bs) =
    either_branch (λ (r : ℕ × List Pool.IrisBuffer). bytes r.1 ≡ bytes (b ∷ bs))
      (not ((f b).0 == 0)) _ _ refl (omega (arith, keep b, each_buffer-bytes f keep bs))

module _ (ask : Pool.Commander) (t : BufferType) (b : Pool.IrisBuffer) where
  pub queue_one-size : (s : Bool) → (Pool.queue_one ask s t b).1.buffer_size ≡ b.buffer_size
  unfolding Pool.queue_one
  queue_one-size s = ground arith

  pub queue_deferred_one-size : (Pool.queue_deferred_one ask t b).1.buffer_size ≡ b.buffer_size
  unfolding Pool.queue_deferred_one
  queue_deferred_one-size = ground arith

  pub release_one-size : (Pool.release_one ask t b).1.buffer_size ≡ b.buffer_size
  unfolding Pool.release_one
  release_one-size = ground arith

  pub queue_persist_one-size : (Pool.queue_persist_one ask t b).1.buffer_size ≡ b.buffer_size
  unfolding Pool.queue_persist_one
  queue_persist_one-size = ground arith

-- A destruction frees what it does not leave.
left_over-bytes :
    (force : Bool) (bs : List Pool.IrisBuffer)
    → bytes (Pool.left_over force bs) + Pool.freed_bytes force bs ≡ bytes bs
unfolding Pool.left_over Pool.freed_bytes
left_over-bytes force [] = refl
left_over-bytes force (b ∷ bs) = ground (arith, left_over-bytes force bs)

module _ (ks : List BufferType) where
  -- A write of one kind's list, with the ledger moved by as much.
  set_pool-Accounted :
      (p : Pool.Pools) (t : BufferType) (b : Pool.Buffers) (dma : ℕ)
      → Among ks t
      → Accounted ks p
      → dma + held (Pool.pool p t) ≡ p.dma + held b
      → Accounted ks (record (Pool.set_pool p t b) { dma = dma })
  set_pool-Accounted p t b dma m a e = record {
    kinds = length-set p.buffers (Pool.type_id t) b ∙ a.kinds;
    balance = omega (
      arith,
      total-set held p.buffers (Pool.type_id t) b Pool.no_buffers
          (omega (arith, a.kinds, type_id-lt t)),
      a.balance,
    );
    only =
        Only-set ks 0 (Pool.type_id t) p.buffers b (ap (λ i. among i ks) (omega arith) ∙ m) a.only;
  }

  pub fill-Accounted :
      (s : Shape) (p : Pool.Pools) (t : BufferType)
      → Among ks t
      → Accounted ks p
      → Accounted ks (Pool.fill_internal_buf_info s p t)
  unfolding Pool.fill_internal_buf_info
  fill-Accounted s p t m a = set_pool-Accounted p t _ p.dma m a refl

  pub get-Accounted :
      (s : Shape) (p : Pool.Pools) (ts : List BufferType)
      → Within ks ts
      → Accounted ks p
      → Accounted ks (Pool.get_internal_buffers s p ts)
  unfolding Pool.get_internal_buffers
  get-Accounted s p [] m a = a
  get-Accounted s p (t ∷ ts) m a =
      get-Accounted s (Pool.fill_internal_buf_info s p t) ts m.1 (fill-Accounted s p t m.0 a)

  create_one-Accounted :
      (ok : Pool.Allocator) (p : Pool.Pools) (t : BufferType) (i : ℕ)
      → Among ks t
      → Accounted ks p
      → Accounted ks (Pool.create_internal_buffer ok p t i).1
  unfolding Pool.create_internal_buffer Pool.new_buffer
  create_one-Accounted ok p t i m a =
      let b = Pool.pool p t in
      either_branch (λ (r : ℕ × Pool.Pools). Accounted ks r.1) (b.size == 0) _ _ a
        (either_branch (λ (r : ℕ × Pool.Pools). Accounted ks r.1) (not (ok t i)) _ _ a
          (set_pool-Accounted p t _ (p.dma + b.size) m a
            (grown b.bufs (Pool.new_buffer t i b.size) p.dma)))

  pub create_kind-Accounted :
      (ok : Pool.Allocator) (p : Pool.Pools) (t : BufferType) (i n : ℕ)
      → Among ks t
      → Accounted ks p
      → Accounted ks (Pool.create_kind ok p t i n).1
  unfolding Pool.create_kind
  create_kind-Accounted ok p t i zero m a = a
  create_kind-Accounted ok p t i (suc n) m a =
      let r = Pool.create_internal_buffer ok p t i in
      let made = create_one-Accounted ok p t i m a in
      either_branch (λ (r : ℕ × Pool.Pools). Accounted ks r.1) (not (r.0 == 0)) _ _ made
        (create_kind-Accounted ok r.1 t (i + 1) n m made)

  -- A loop over kinds keeps the account where its body does.
  pub each_kind-Accounted :
      (f : Pool.Pools → BufferType → ℕ × Pool.Pools)
      → ((p : Pool.Pools) (t : BufferType) → Among ks t → Accounted ks p → Accounted ks (f p t).1)
      → (p : Pool.Pools) (ts : List BufferType) → Within ks ts
      → Accounted ks p
      → Accounted ks (Pool.each_kind f p ts).1
  unfolding Pool.each_kind
  each_kind-Accounted f keep p [] m a = a
  each_kind-Accounted f keep p (t ∷ ts) m a =
      either_branch (λ (r : ℕ × Pool.Pools). Accounted ks r.1) (not ((f p t).0 == 0)) _ _
        (keep p t m.0 a) (each_kind-Accounted f keep (f p t).1 ts m.1 (keep p t m.0 a))

  pub each_in-Accounted :
      (f : Pool.IrisBuffer → ℕ × Pool.IrisBuffer)
      → ((b : Pool.IrisBuffer) → (f b).1.buffer_size ≡ b.buffer_size)
      → (p : Pool.Pools) (t : BufferType) → Among ks t
      → Accounted ks p
      → Accounted ks (Pool.each_in f p t).1
  each_in-Accounted f keep p t m a =
      set_pool-Accounted p t _ p.dma m a
        (omega (arith, each_buffer-bytes f keep (Pool.pool p t).bufs))

  pool-le-total : (p : Pool.Pools) (t : BufferType) → Accounted ks p → held (Pool.pool p t) ≤ p.dma
  pool-le-total p t a = omega (
    arith,
    total-set held p.buffers (Pool.type_id t) Pool.no_buffers Pool.no_buffers
        (omega (arith, a.kinds, type_id-lt t)),
    a.balance,
  )

  pub destroy_kind-Accounted :
      (force : Bool) (p : Pool.Pools) (t : BufferType)
      → Among ks t
      → Accounted ks p
      → Accounted ks (Pool.destroy_kind force p t)
  unfolding Pool.destroy_kind
  destroy_kind-Accounted force p t m a =
      set_pool-Accounted p t _ _ m a
        (omega (arith, left_over-bytes force (Pool.pool p t).bufs, pool-le-total p t a))

  pub destroy_kinds-Accounted :
      (force : Bool) (p : Pool.Pools) (ts : List BufferType)
      → Within ks ts
      → Accounted ks p
      → Accounted ks (Pool.destroy_kinds force p ts)
  unfolding Pool.destroy_kinds
  destroy_kinds-Accounted force p [] m a = a
  destroy_kinds-Accounted force p (t ∷ ts) m a =
      destroy_kinds-Accounted force (Pool.destroy_kind force p t) ts m.1
        (destroy_kind-Accounted force p t m.0 a)
