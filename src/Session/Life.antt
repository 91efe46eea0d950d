-- ===== src/Session/Life.antt =====
-- The open and the close of a session, and the recovery that they ask for.
use nabu_iris.Common.{
  List, ne→==, ℕ, ◌<◌, Bool, true, false, not, ◌||◌, ◌==◌, if◌then◌else◌, length, length-set,
  get_or-set_self, ◌≡◌, ◌≢◌, ◌⊎◌, inl, inr, refl, ◌∙◌, ap, arith, Bool-cases, ==→eq, ==→ne, eio,
}
use nabu_iris.Instance.{Inst, InstState, Handle}
use nabu_iris.State.{change_state, same_state}
use nabu_iris.Core.{Core}
use nabu_iris.Core.Boot.{BootAnswers}
use nabu_iris.Session.{
  no_inst, instance_at, update, request_core_recovery, change_state_at, reserve_session,
  release_slot, run_pending_core_recovery, OpenAnswer, after_open, open_reserved, hfi_session_open,
}
use nabu_iris.Session.Events.{recover_same}

-- What is left of a session that ended.
pub record IsFree (inst : Inst) : Type 0 where
  pub closed : inst.hfi_session_opened ≡ false
  pub no_core : inst.hfi_core_id ≡ 0
  pub no_load : inst.core_load_reserved ≡ false
  pub not_rejected : inst.core_load_rejected ≡ false
  pub no_rate : inst.admission_frame_rate ≡ 0

change_state_opened :
    (h : Handle) (s : InstState)
    → (change_state h s).1.inst.hfi_session_opened ≡ h.inst.hfi_session_opened
unfolding change_state
change_state_opened h s = ground arith

-- An instance that is not in ERROR enters INIT, or the change is refused.
change_state_init :
    (h : Handle)
    → same_state h.inst.state InstState.error ≡ false
    → (change_state h InstState.init).0 ≡ 0
    → (change_state h InstState.init).1.inst.state ≡ InstState.init
unfolding change_state
change_state_init h ok z = ground arith

module _ (c : Core) (i : ℕ) (there : i < length c.instances) where
  pub at-update : (v : Inst) → instance_at (update c i v) i ≡ v
  at-update v = get_or-set_self c.instances i v no_inst there

  pub release_slot-IsFree : IsFree (instance_at (release_slot c i) i)
  unfolding release_slot
  release_slot-IsFree =
      rw
        (at-update (record (instance_at c i) {
          hfi_session_opened = false;
          hfi_core_id = 0;
          core_load_reserved = false;
          core_load_rejected = false;
          admission_frame_rate = 0;
        }))
        (record {
          closed = refl;
          no_core = refl;
          no_load = refl;
          not_rejected = refl;
          no_rate = refl;
        })

  pub at-change_state :
      (s : InstState)
      → instance_at (change_state_at c i s).1 i
        ≡ (change_state
            (record { inst = instance_at c i; recovery_pending = c.recovery_pending })
            s).1.inst
  unfolding change_state_at
  at-change_state s = at-update _

  pub length-change_state_at :
      (s : InstState) → length (change_state_at c i s).1.instances ≡ length c.instances
  unfolding change_state_at
  length-change_state_at s = length-set c.instances i _

  pub change_state_at_opened :
      (s : InstState)
      → (instance_at (change_state_at c i s).1 i).hfi_session_opened
        ≡ (instance_at c i).hfi_session_opened
  change_state_at_opened s =
      ap (λ (v : Inst). v.hfi_session_opened) (at-change_state s)
      ∙ change_state_opened
          (record { inst = instance_at c i; recovery_pending = c.recovery_pending }) s

  enter_init :
      same_state (instance_at c i).state InstState.error ≡ false
      → (change_state_at c i InstState.init).0 ≡ 0
      → (instance_at (change_state_at c i InstState.init).1 i).state ≡ InstState.init
  unfolding change_state_at
  enter_init ok z =
      ap (λ (v : Inst). v.state) (at-change_state InstState.init)
      ∙ change_state_init (record { inst = instance_at c i; recovery_pending = c.recovery_pending })
          ok z

-- The answer of the firmware leaves the reservation and the list as they are.
pub after_open-keeps :
    (c : Core) (i : ℕ) (a : OpenAnswer)
    → i < length c.instances
    → let c' = after_open c i a in
      (length c'.instances ≡ length c.instances)
      × ((instance_at c' i).hfi_session_opened ≡ (instance_at c i).hfi_session_opened)
after_open-keeps c i a there = elim (Bool-cases a.failed) [
  | inl failed ↦ rw failed (
    length-change_state_at c' i there' InstState.error ∙ same_length,
    change_state_at_opened c' i there' InstState.error ∙ same_opened,
  )
  | inr fine ↦ rw fine (same_length, same_opened)
]
  where
    c' : Core
    c' = update c i (record (instance_at c i) { session_id = a.session_id })

    same_length : length c'.instances ≡ length c.instances
    same_length = length-set c.instances i _

    there' : i < length c'.instances
    there' = omega (arith, same_length, there)

    same_opened : (instance_at c' i).hfi_session_opened ≡ (instance_at c i).hfi_session_opened
    same_opened = ap (λ (v : Inst). v.hfi_session_opened) (at-update c i there _)

-- How an open of a session ends once it is admitted.
abbrev pub Opened : ℕ → Core → ℕ → Type 0
Opened ret c i =
    (ret ≡ 0)
      × ((instance_at c i).hfi_session_opened ≡ true)
      × ((instance_at c i).state ≡ InstState.init)
    ⊎ (ret ≢ 0) × IsFree (instance_at c i) × (c.recovery_pending ≡ true)

release-Opened :
    (ret : ℕ) (c : Core) (i : ℕ)
    → i < length c.instances
    → ret ≢ 0
    → Opened ret (release_slot (request_core_recovery c) i) i
unfolding release_slot
release-Opened ret c i there bad =
    inr (bad, release_slot-IsFree (request_core_recovery c) i there, refl)

open_reserved-Opened :
    (c : Core) (i : ℕ) (a : OpenAnswer)
    → i < length c.instances
    → (instance_at c i).hfi_session_opened ≡ true
    → let (ret, c') = open_reserved c i a in Opened ret c' i
unfolding open_reserved
open_reserved-Opened c i a there held = elim (Bool-cases failed) [
  | inl bad ↦ rw bad (release-Opened (if a.ret == 0 then eio else a.ret) c' i there' (code bad))
  | inr fine ↦ rw fine (elim (Bool-cases ((change_state_at c' i InstState.init).0 == 0)) [
    | inl ok ↦ rw ok (
        inl (
          refl,
          change_state_at_opened c' i there' InstState.init ∙ keeps.1 ∙ held,
          enter_init c' i there' (calm fine) (==→eq _ _ ok),
        ))
    | inr refused ↦ rw refused (
        release-Opened (change_state_at c' i InstState.init).0
          (change_state_at c' i InstState.init).1 i
          (omega (arith, length-change_state_at c' i there' InstState.init, there'))
          (==→ne _ _ refused))
  ])
]
  where
    c' : Core
    c' = after_open c i a

    keeps :
        (length c'.instances ≡ length c.instances)
        × ((instance_at c' i).hfi_session_opened ≡ (instance_at c i).hfi_session_opened)
    keeps = after_open-keeps c i a there

    there' : i < length c'.instances
    there' = omega (arith, keeps.0, there)

    failed : Bool
    failed = not (a.ret == 0) || same_state (instance_at c' i).state InstState.error

    code : failed ≡ true → (if a.ret == 0 then eio else a.ret) ≢ 0
    code bad = ground arith

    calm : failed ≡ false → same_state (instance_at c' i).state InstState.error ≡ false
    calm fine = ground arith

pub reserve_session_cases :
    (c : Core) (i : ℕ)
    → let (ret, c') = reserve_session c i in
      (ret ≡ 0) × (c' ≡ update c i (record (instance_at c i) { hfi_session_opened = true }))
      ⊎ (ret ≢ 0) × (c' ≡ c)
unfolding reserve_session
reserve_session_cases c i = ground arith

-- An open of an instance of the core's list that has no session succeeds with the session open in
-- INIT; or fails with its slot and its load given back and a recovery asked for; or is refused by
-- the limits of the core, and nothing is changed but by a recovery that was pending.
pub hfi_session_open-Opened :
    (c : Core) (i : ℕ) (b : BootAnswers) (a : OpenAnswer)
    → i < length c.instances
    → (instance_at c i).hfi_session_opened ≡ false
    → let (ret, c') = hfi_session_open c i b a in
      Opened ret c' i ⊎ (ret ≢ 0) × (c' ≡ run_pending_core_recovery c b)
unfolding hfi_session_open
hfi_session_open-Opened c i b a there closed = rw closed (go (reserve_session_cases ready i))
  where
    ready : Core
    ready = run_pending_core_recovery c b

    granted : Core
    granted = update ready i (record (instance_at ready i) { hfi_session_opened = true })

    there' : i < length ready.instances
    there' = omega (arith, ap (λ (xs : List Inst). length xs) (recover_same c b).0, there)

    outcome : ℕ × Core → Type 0
    outcome r = Opened r.0 r.1 i ⊎ (r.0 ≢ 0) × (r.1 ≡ ready)

    go :
        let (ret, c') = reserve_session ready i in
        (ret ≡ 0) × (c' ≡ granted) ⊎ (ret ≢ 0) × (c' ≡ ready)
        → outcome (
            if not ((reserve_session ready i).0 == 0)
            then reserve_session ready i
            else open_reserved (reserve_session ready i).1 i a)
    go (inl (ok, e)) = rw ok (
        rw e (
          inl (
            open_reserved-Opened granted i a
              (omega (
                arith,
                length-set ready.instances i
                    (record (instance_at ready i) { hfi_session_opened = true }),
                there',
              ))
              (ap (λ (v : Inst). v.hfi_session_opened) (at-update ready i there' _)))))
    go (inr (bad, e)) = rw (ne→== _ _ bad) (inr (bad, e))
