-- ===== src/Core/Access/Balance.antt =====
-- iris_hfi_queue_cmd_write: the runtime power references that it takes and drops.
use nabu_iris.Common.{ℕ, ◌-◌, Option, none, some, ◌≡◌, ◌≢◌, arith, ne→==, eq→==, refl}
use nabu_iris.Queue.{Buffer}
use nabu_iris.Core.{Core}
use nabu_iris.Core.Access.{RuntimePm, cmd_write_locked, cmd_write}

-- What a call leaves of the references on the device, where it does not fault.
abbrev pub usage_after : (pm : RuntimePm) → Option (ℕ × Core × pm.Device) → ℕ → ℕ
usage_after pm none n = n
usage_after pm (some (_, _, d)) n = pm.usage d

-- Once the device is resumed, a command gives its reference back whatever becomes of it: queued,
-- refused by a full ring, or refused by the state of the core; a fault on a ring that was torn
-- down is left aside.
pub cmd_write_balanced :
    (pm : RuntimePm) (c : Core) (d : pm.Device) (pkt : Buffer) (n : ℕ)
    → (pm.resume_and_get d).0 ≡ 0
    → usage_after pm (cmd_write pm c d pkt n) (pm.usage d) ≡ pm.usage d
unfolding cmd_write
cmd_write_balanced pm c d pkt n ok = rw (eq→== _ _ ok) (after (cmd_write_locked c pkt n))
  where
    drop : pm.usage (pm.put (pm.resume_and_get d).1) ≡ pm.usage d
    drop = omega (arith, pm.resume_ok d ok, pm.put_drops (pm.resume_and_get d).1)

    after :
        (r : Option (ℕ × Core))
        → usage_after pm
            (elim r [
              | none ↦ none
              | some (code, c') ↦ some (code, c', pm.put (pm.resume_and_get d).1)
            ])
            (pm.usage d)
          ≡ pm.usage d
    after none = refl
    after (some _) = drop

-- A command whose resume fails drops a reference that it never took.
pub cmd_write_unbalanced :
    (pm : RuntimePm) (c : Core) (d : pm.Device) (pkt : Buffer) (n : ℕ)
    → (pm.resume_and_get d).0 ≢ 0
    → usage_after pm (cmd_write pm c d pkt n) (pm.usage d) ≡ pm.usage d - 1
unfolding cmd_write
cmd_write_unbalanced pm c d pkt n bad =
    rw (ne→== _ _ bad) (omega (arith, pm.resume_failed d bad, pm.put_drops (pm.resume_and_get d).1))
