-- ===== src/Buffer/Clients/Conserved.antt =====
-- Each buffer that a client queued is with the driver or was returned, and how often it was returned.
use nabu_iris.Common.{
  ℕ, ◌+◌, ◌≡◌, ◌≢◌, Bool, true, false, not, ◌&&◌, ◌||◌, ◌==◌, if◌then◌else◌, List, [], ◌∷◌, ◌++◌,
  total, arith, refl, ◌∙◌, either_branch, Bool-cases, inl, inr,
}
use nabu_iris.Instance.{InstState}
use nabu_iris.SubState.{drc_pending, drain_pending}
use nabu_iris.Buffer.Clients.{
  Client, Ending, Returned, Lists, list_of, give_back, give_back_all, helper_buffers_done,
  has_index, remove_by_idx, vb2_buffer_done, flush_list, flush_deferred_buffers, queue_list,
  queue_deferred_buffers, qbuf, vb2_buf_queue,
}

abbrev pub one_if : Bool → ℕ
one_if true = 1
one_if false = 0

abbrev pub same_plane : Bool → Bool → Bool
same_plane true b = b
same_plane false b = not b

-- How often an index stands in a list, and among what was returned of a plane.
abbrev pub in_list : ℕ → List Client → ℕ
in_list i bs = total (λ (b : Client). one_if (b.index == i)) bs

abbrev pub in_returned : Bool → ℕ → List Returned → ℕ
in_returned p i rs = total (λ (r : Returned). one_if (same_plane p r.is_src && (r.index == i))) rs

-- With the driver or returned.
abbrev pub account : Lists → Bool → ℕ → ℕ
account s p i = in_list i (list_of s p) + in_returned p i s.returned

in_list-remove_by_idx :
    (i j : ℕ) (bs : List Client)
    → has_index j bs ≡ true
    → in_list i (remove_by_idx j bs) + one_if (j == i) ≡ in_list i bs
unfolding remove_by_idx
in_list-remove_by_idx i j [] h = absurd (ground arith)
in_list-remove_by_idx i j (b ∷ bs) h = ground (arith, in_list-remove_by_idx i j bs)

pub in_list-append :
    (i : ℕ) (bs : List Client) (b : Client)
    → in_list i (bs ++ b ∷ []) ≡ in_list i bs + one_if (b.index == i)
in_list-append i [] b = omega arith
in_list-append i (x ∷ bs) b = omega (arith, in_list-append i bs b)

-- A buffer that is in the list of its plane is returned from it.
module _ (i : ℕ) (s : Lists) (r : Bool) (b : Client) where
  done_here : (p : Bool) → account (vb2_buffer_done s p r b).1 p i ≡ account s p i
  unfolding vb2_buffer_done
  done_here true = elim (Bool-cases (has_index b.index s.src)) [
    | inl h ↦ ground (arith, h, in_list-remove_by_idx i b.index s.src h)
    | inr h ↦ ground (arith, h)
  ]
  done_here false = elim (Bool-cases (has_index b.index s.dst)) [
    | inl h ↦ ground (arith, h, in_list-remove_by_idx i b.index s.dst h)
    | inr h ↦ ground (arith, h)
  ]

  done_there : (p : Bool) → account (vb2_buffer_done s (not p) r b).1 p i ≡ account s p i
  unfolding vb2_buffer_done
  done_there true = ground arith
  done_there false = ground arith

  buffer_done-account : (p q : Bool) → account (vb2_buffer_done s q r b).1 p i ≡ account s p i
  buffer_done-account true true = done_here true
  buffer_done-account true false = done_there true
  buffer_done-account false true = done_there false
  buffer_done-account false false = done_here false

flush-account :
    (p : Bool) (i : ℕ) (s : Lists) (q r : Bool) (bs : List Client)
    → account (flush_list s q r bs) p i ≡ account s p i
unfolding flush_list
flush-account p i s q r [] = refl
flush-account p i s q r (b ∷ bs) =
    let next : Lists = if b.deferred && not b.buffer_done then (vb2_buffer_done s q r b).1 else s in
    flush-account p i next q r bs
    ∙ either_branch (λ (t : Lists). account t p i ≡ account s p i) (b.deferred && not b.buffer_done)
        (vb2_buffer_done s q r b).1 s (buffer_done-account i s r b p q) refl

queue_list-in_list :
    (i : ℕ) (ask : Client → ℕ) (bs : List Client) → in_list i (queue_list ask bs).1 ≡ in_list i bs
unfolding queue_list
queue_list-in_list i ask [] = refl
queue_list-in_list i ask (b ∷ bs) = ground (arith, queue_list-in_list i ask bs)

deferred-account :
    (p : Bool) (i : ℕ) (s : Lists) (q : Bool) (ask : Client → ℕ)
    → account (queue_deferred_buffers s q ask).1 p i ≡ account s p i
unfolding queue_deferred_buffers
deferred-account true i s true ask = omega (arith, queue_list-in_list i ask s.src)
deferred-account true i s false ask = refl
deferred-account false i s true ask = refl
deferred-account false i s false ask = omega (arith, queue_list-in_list i ask s.dst)

all_returned :
    (i : ℕ) (s : Lists) (p : Bool) (e : Ending) (bs : List Client)
    → (in_returned p i (give_back_all s p e bs).returned
        ≡ in_returned p i s.returned + in_list i bs)
      × ((give_back_all s p e bs).src ≡ s.src)
      × ((give_back_all s p e bs).dst ≡ s.dst)
unfolding give_back_all
all_returned i s p e [] = ground arith
all_returned i s true e (b ∷ bs) =
    ground (arith, all_returned i (give_back s true b.index e) true e bs)
all_returned i s false e (b ∷ bs) =
    ground (arith, all_returned i (give_back s false b.index e) false e bs)

returned_elsewhere :
    (i : ℕ) (s : Lists) (p : Bool) (e : Ending) (bs : List Client)
    → in_returned p i (give_back_all s (not p) e bs).returned ≡ in_returned p i s.returned
unfolding give_back_all
returned_elsewhere i s p e [] = refl
returned_elsewhere i s true e (b ∷ bs) =
    omega (arith, returned_elsewhere i (give_back s false b.index e) true e bs)
returned_elsewhere i s false e (b ∷ bs) =
    omega (arith, returned_elsewhere i (give_back s true b.index e) false e bs)

pub ended-account :
    (p q : Bool) (i : ℕ) (s : Lists) (e : Ending)
    → account (helper_buffers_done s q e) p i ≡ account s p i
unfolding helper_buffers_done
ended-account true true i s e = omega (arith, (all_returned i s true e s.src).0)
ended-account false false i s e = omega (arith, (all_returned i s false e s.dst).0)
ended-account true false i s e =
    ground (arith, all_returned i s false e s.dst, returned_elsewhere i s true e s.dst)
ended-account false true i s e =
    ground (arith, all_returned i s true e s.src, returned_elsewhere i s false e s.src)

-- What the driver does with the buffers that it has.
pub data Step : Type 0 where
  returns : Bool → Bool → Client → Step
  flushes : Bool → Bool → Step
  queues : Bool → (Client → ℕ) → Step
  ends : Bool → Ending → Step

unfoldable pub run : Lists → Step → Lists
run s (returns q rollback b) = (vb2_buffer_done s q rollback b).1
run s (flushes q rollback) = flush_deferred_buffers s q rollback
run s (queues q ask) = (queue_deferred_buffers s q ask).1
run s (ends q e) = helper_buffers_done s q e

pub run-account : (p : Bool) (i : ℕ) (s : Lists) (x : Step) → account (run s x) p i ≡ account s p i
unfolding run flush_deferred_buffers
run-account p i s (returns q r b) = buffer_done-account i s r b p q
run-account p i s (flushes q r) = flush-account p i s q r (list_of s q)
run-account p i s (queues q ask) = deferred-account p i s q ask
run-account p i s (ends q e) = ended-account p q i s e

unfoldable pub run_all : Lists → List Step → Lists
run_all s [] = s
run_all s (x ∷ xs) = run_all (run s x) xs

run_all-account :
    (p : Bool) (i : ℕ) (s : Lists) (xs : List Step) → account (run_all s xs) p i ≡ account s p i
unfolding run_all
run_all-account p i s [] = refl
run_all-account p i s (x ∷ xs) = run_all-account p i (run s x) xs ∙ run-account p i s x

pub ended_empty :
    (p : Bool) (i : ℕ) (s : Lists) (e : Ending)
    → in_list i (list_of (helper_buffers_done s p e) p) ≡ 0
unfolding helper_buffers_done
ended_empty true i s e = refl
ended_empty false i s e = refl

-- Whatever the driver does with the buffers that it has, in any order and with none queued meanwhile,
-- once the plane ends its streaming each buffer was returned as often as it was with the driver or
-- returned before.
pub ended_returns_all :
    (p : Bool) (i : ℕ) (s : Lists) (xs : List Step) (e : Ending)
    → in_returned p i (helper_buffers_done (run_all s xs) p e).returned ≡ account s p i
ended_returns_all p i s xs e = omega (
  arith,
  ended_empty p i (run_all s xs) e,
  ended-account p p i (run_all s xs) e,
  run_all-account p i s xs,
)

failed_qbuf-account :
    (s : Lists) (p : Bool) (b : Client) (code : ℕ)
    → s.handle.inst.state ≢ InstState.error
    → b.bytesused ≢ 0
    → drc_pending s.handle.inst.sub_state || drain_pending s.handle.inst.sub_state ≡ false
    → code ≢ 0
    → account (vb2_buf_queue s p b true code).1 p b.index ≡ account s p b.index + 2
unfolding vb2_buf_queue qbuf
failed_qbuf-account s true b code live used idle bad = ground (
  arith,
  in_list-append b.index s.src (record b { deferred = false; queued = false; buffer_done = false }),
)
failed_qbuf-account s false b code live used idle bad = ground (
  arith,
  in_list-append b.index s.dst (record b { deferred = false; queued = false; buffer_done = false }),
)

-- A buffer of a plane that streams, which the driver takes and whose queueing command then fails, is
-- returned at once and stays in the list: when the plane ends its streaming, it was returned once
-- more.
pub failed_qbuf_twice :
    (s : Lists) (p : Bool) (b : Client) (code : ℕ) (xs : List Step) (e : Ending)
    → s.handle.inst.state ≢ InstState.error
    → b.bytesused ≢ 0
    → drc_pending s.handle.inst.sub_state || drain_pending s.handle.inst.sub_state ≡ false
    → code ≢ 0
    → in_returned p b.index
        (helper_buffers_done (run_all (vb2_buf_queue s p b true code).1 xs) p e).returned
      ≡ account s p b.index + 2
failed_qbuf_twice s p b code xs e live used idle bad =
    ended_returns_all p b.index (vb2_buf_queue s p b true code).1 xs e
    ∙ failed_qbuf-account s p b code live used idle bad
