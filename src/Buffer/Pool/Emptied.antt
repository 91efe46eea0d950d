-- ===== src/Buffer/Pool/Emptied.antt =====
-- The end of a session in `iris_close`, which destroys the internal buffers of both planes: all memory
-- is given back.
use nabu_iris.Common.{
  ℕ, zero, suc, ◌+◌, ◌≡◌, ◌<◌, true, List, [], ◌∷◌, ◌++◌, total, set, arith, refl, ap, ◌∙◌, inl,
  inr, ◌⊎◌,
}
use nabu_iris.Instance.{Domain}
use nabu_iris.Buffer.{BufferType, Shape}
use nabu_iris.Buffer.Pool
use nabu_iris.Buffer.Pool.Account.{
  bytes, held, among, Only, Within, Accounted, destroy_kinds-Accounted, destroy_kind-Accounted,
}
use nabu_iris.Buffer.Pool.Life.{PoolEvent, apply_event, Concerns, apply_event-Accounted}

among_below :
    (t : BufferType) (ks : List BufferType) (n : ℕ) (bs : List Pool.IrisBuffer)
    → ¬ (Pool.type_id t ≡ n)
    → (among n (t ∷ ks) ≡ true) ⊎ (bs ≡ [])
    → (among n ks ≡ true) ⊎ (bs ≡ [])
among_below t ks n bs h (inr z) = inr z
among_below t ks n bs h (inl m) = inl (ground arith)

-- The kinds below the first one that is looked at do not matter.
Only-below :
    (t : BufferType) (ks : List BufferType) (n : ℕ) (bs : List Pool.Buffers)
    → Pool.type_id t < n
    → Only (t ∷ ks) n bs
    → Only ks n bs
Only-below t ks n [] h o = tt
Only-below t ks n (b ∷ bs) h o = (
  among_below t ks n b.bufs (λ q. omega (arith, h, q)) o.0,
  Only-below t ks (n + 1) bs (omega arith) o.1,
)

-- A kind whose list is emptied is no longer one that may hold buffers.
Only-emptied :
    (t : BufferType) (ks : List BufferType) (n k : ℕ) (bs : List Pool.Buffers) (b : Pool.Buffers)
    → Pool.type_id t ≡ n + k
    → b.bufs ≡ []
    → Only (t ∷ ks) n bs
    → Only ks n (set bs k b)
Only-emptied t ks n k [] b e z o = tt
Only-emptied t ks n zero (x ∷ bs) b e z o =
    (inr z, Only-below t ks (n + 1) bs (omega (arith, e)) o.1)
Only-emptied t ks n (suc k) (x ∷ bs) b e z o = (
  among_below t ks n x.bufs (λ q. omega (arith, e, q)) o.0,
  Only-emptied t ks (n + 1) k bs b (omega (arith, e)) z o.1,
)

Only-none : (n : ℕ) (bs : List Pool.Buffers) → Only [] n bs → total held bs ≡ 0
Only-none n [] o = refl
Only-none n (b ∷ bs) (inl e, o) = cc
Only-none n (b ∷ bs) (inr e, o) = omega (arith, ap bytes e, Only-none (n + 1) bs o)

left_over_forced : (bs : List Pool.IrisBuffer) → Pool.left_over true bs ≡ []
unfolding Pool.left_over
left_over_forced [] = refl
left_over_forced (b ∷ bs) = left_over_forced bs

destroy_kind-Only :
    (t : BufferType) (ks : List BufferType) (p : Pool.Pools)
    → Only (t ∷ ks) 0 p.buffers
    → Only ks 0 (Pool.destroy_kind true p t).buffers
unfolding Pool.destroy_kind
destroy_kind-Only t ks p o =
    Only-emptied t ks 0 (Pool.type_id t) p.buffers _ (omega arith)
      (left_over_forced (Pool.pool p t).bufs) o

destroy_kinds-Only :
    (ts ks : List BufferType) (p : Pool.Pools)
    → Only (ts ++ ks) 0 p.buffers
    → Only ks 0 (Pool.destroy_kinds true p ts).buffers
unfolding Pool.destroy_kinds
destroy_kinds-Only [] ks p o = o
destroy_kinds-Only (t ∷ ts) ks p o =
    destroy_kinds-Only ts ks (Pool.destroy_kind true p t) (destroy_kind-Only t (ts ++ ks) p o)

-- What `iris_close` does with the buffers of both planes.
unfoldable pub close_pools : Domain → Pool.Pools → List BufferType → List BufferType → Pool.Pools
close_pools d p ins outs =
    Pool.destroy_internal_buffers true d (Pool.destroy_internal_buffers true d p ins) outs

abbrev pub session_kinds : Domain → List BufferType → List BufferType → List BufferType
session_kinds d ins outs = ins ++ (Pool.lasting_kind d ∷ (outs ++ (Pool.lasting_kind d ∷ [])))

closed-Only :
    (d : Domain) (p : Pool.Pools) (ins outs : List BufferType)
    → Only (session_kinds d ins outs) 0 p.buffers
    → Only [] 0 (close_pools d p ins outs).buffers
unfolding close_pools Pool.destroy_internal_buffers
closed-Only d p ins outs o =
    let lasting = Pool.lasting_kind d in
    destroy_kind-Only lasting [] _ (
      destroy_kinds-Only outs (lasting ∷ []) _ (
        destroy_kind-Only lasting (outs ++ lasting ∷ []) _
          (destroy_kinds-Only ins (lasting ∷ (outs ++ (lasting ∷ []))) p o)))

abbrev pub apply_events : Shape → Pool.Pools → List PoolEvent → Pool.Pools
apply_events s p [] = p
apply_events s p (e ∷ es) = apply_events s (apply_event s p e) es

-- All the events concern kinds of the session.
abbrev pub AllConcern : List BufferType → List PoolEvent → Type 0
AllConcern ks [] = Unit {0}
AllConcern ks (e ∷ es) = Concerns ks e × AllConcern ks es

Within-grow : (t : BufferType) (ks ts : List BufferType) → Within ks ts → Within (t ∷ ks) ts
Within-grow t ks [] w = tt
Within-grow t ks (x ∷ ts) w = (ground (arith, w.0), Within-grow t ks ts w.1)

Within-after : (xs ys ts : List BufferType) → Within ys ts → Within (xs ++ ys) ts
Within-after [] ys ts w = w
Within-after (x ∷ xs) ys ts w = Within-grow x (xs ++ ys) ts (Within-after xs ys ts w)

Within-first : (xs ys : List BufferType) → Within (xs ++ ys) xs
Within-first [] ys = tt
Within-first (x ∷ xs) ys = (ground arith, Within-grow x (xs ++ ys) xs (Within-first xs ys))

module _ (d : Domain) (ins outs : List BufferType) where
  apply_events-Accounted :
      (s : Shape) (p : Pool.Pools) (es : List PoolEvent)
      → AllConcern (session_kinds d ins outs) es
      → Accounted (session_kinds d ins outs) p
      → Accounted (session_kinds d ins outs) (apply_events s p es)
  apply_events-Accounted s p [] m a = a
  apply_events-Accounted s p (e ∷ es) m a =
      apply_events-Accounted s (apply_event s p e) es m.1
        (apply_event-Accounted (session_kinds d ins outs) s p e m.0 a)

  closed-Accounted :
      (p : Pool.Pools)
      → Accounted (session_kinds d ins outs) p
      → Accounted (session_kinds d ins outs) (close_pools d p ins outs)
  unfolding close_pools Pool.destroy_internal_buffers
  closed-Accounted p a =
      let lasting = Pool.lasting_kind d in
      let tail = lasting ∷ [] in
      let rest = Within-after ins (lasting ∷ (outs ++ tail)) in
      let last =
        (rest tail (
          Within-grow lasting (outs ++ tail) tail
            (Within-after outs tail tail (Within-first tail [])))).0 in
      let ks = session_kinds d ins outs in
      destroy_kind-Accounted ks true _ lasting last (
        destroy_kinds-Accounted ks true _ outs
          (rest outs (Within-grow lasting (outs ++ tail) outs (Within-first outs tail)))
          (destroy_kind-Accounted ks true _ lasting last (
            destroy_kinds-Accounted ks true p ins (Within-first ins (lasting ∷ (outs ++ tail))) a)))

  -- Whatever a session did with its internal buffers, in any order and with any failure of an
  -- allocation or of a command, closing it gives all their memory back.
  pub close_frees_all :
      (s : Shape) (p : Pool.Pools) (es : List PoolEvent)
      → AllConcern (session_kinds d ins outs) es
      → Accounted (session_kinds d ins outs) p
      → (close_pools d (apply_events s p es) ins outs).dma ≡ 0
  close_frees_all s p es m a =
      let done = apply_events-Accounted s p es m a in
      let closed = close_pools d (apply_events s p es) ins outs in
      (closed-Accounted (apply_events s p es) done).balance
      ∙ Only-none 0 closed.buffers (closed-Only d (apply_events s p es) ins outs done.only)
