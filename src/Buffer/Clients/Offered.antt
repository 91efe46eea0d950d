-- ===== src/Buffer/Clients/Offered.antt =====
-- Clients that queue buffers while the driver works with those that it has: how often each is
-- returned.
use nabu_iris.Common.{ℕ, ◌+◌, Bool, true, false, ◌&&◌, ◌==◌, List, [], ◌∷◌, ◌≡◌, arith}
use nabu_iris.Buffer.Clients.{Client, Ending, Lists, helper_buffers_done, qbuf, vb2_buf_queue}
use nabu_iris.Buffer.Clients.Conserved.{
  one_if, same_plane, in_returned, account, in_list-append, Step, run, run-account, ended-account,
  ended_empty,
}

-- The driver's step, or the queueing of a buffer on a plane: whether its queue streams, and the code
-- of the command.
pub data Turn : Type 0 where
  drives : Step → Turn
  offers : Bool → Client → Bool → ℕ → Turn

unfoldable pub apply_turn : Lists → Turn → Lists
apply_turn s (drives x) = run s x
apply_turn s (offers q b streaming code) = (vb2_buf_queue s q b streaming code).1

unfoldable pub apply_turns : Lists → List Turn → Lists
apply_turns s [] = s
apply_turns s (t ∷ ts) = apply_turns (apply_turn s t) ts

-- How often a turn queues a buffer of a plane, by its index.
abbrev pub offered_by : Bool → ℕ → Turn → ℕ
offered_by p i (drives x) = 0
offered_by p i (offers q b streaming code) = one_if (same_plane p q && (b.index == i))

abbrev pub offered : Bool → ℕ → List Turn → ℕ
offered p i [] = 0
offered p i (t ∷ ts) = offered_by p i t + offered p i ts

-- No queueing command fails.
abbrev pub AreTaken : List Turn → Type 0
AreTaken [] = Unit
AreTaken (drives x ∷ ts) = AreTaken ts
AreTaken (offers q b streaming code ∷ ts) = (code ≡ 0) × AreTaken ts

-- The buffer as it joins its list, before its command or after it.
abbrev deferred_copy : Client → Client
deferred_copy b = record b { deferred = true; queued = false; buffer_done = false }

abbrev queued_copy : Client → Client
queued_copy b = record b { deferred = false; queued = true; buffer_done = false }

offers-account :
    (p q : Bool) (i : ℕ) (s : Lists) (b : Client) (streaming : Bool)
    → account (vb2_buf_queue s q b streaming 0).1 p i
      ≡ account s p i + one_if (same_plane p q && (b.index == i))
unfolding vb2_buf_queue qbuf
offers-account true true i s b streaming =
    ground (arith, in_list-append i s.src (deferred_copy b), in_list-append i s.src (queued_copy b))
offers-account true false i s b streaming = ground arith
offers-account false true i s b streaming = ground arith
offers-account false false i s b streaming =
    ground (arith, in_list-append i s.dst (deferred_copy b), in_list-append i s.dst (queued_copy b))

turns-account :
    (p : Bool) (i : ℕ) (s : Lists) (ts : List Turn)
    → AreTaken ts
    → account (apply_turns s ts) p i ≡ account s p i + offered p i ts
unfolding apply_turns apply_turn
turns-account p i s [] taken = omega arith
turns-account p i s (drives x ∷ ts) taken =
    omega (arith, turns-account p i (run s x) ts taken, run-account p i s x)
turns-account p i s (offers q b streaming code ∷ ts) taken = rw taken.0 (
    omega (
      arith,
      turns-account p i (vb2_buf_queue s q b streaming 0).1 ts taken.1,
      offers-account p q i s b streaming,
    ))

-- Whatever a client queues and the driver does with the buffers that it has, in any order, and where
-- no queueing command fails: once the plane ends its streaming, each buffer was returned as often as
-- it was with the driver, was returned or was queued: none is lost and none is returned again.
pub offered_returns_all :
    (p : Bool) (i : ℕ) (s : Lists) (ts : List Turn) (e : Ending)
    → AreTaken ts
    → in_returned p i (helper_buffers_done (apply_turns s ts) p e).returned
      ≡ account s p i + offered p i ts
offered_returns_all p i s ts e taken = omega (
  arith,
  ended_empty p i (apply_turns s ts) e,
  ended-account p p i (apply_turns s ts) e,
  turns-account p i s ts taken,
)
