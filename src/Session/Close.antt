-- ===== src/Session/Close.antt =====
-- iris_hfi_session_close: nothing of a session outlives it.
use nabu_iris.Common.{
  ℕ, ◌<◌, Bool, true, false, not, ◌&&◌, ◌==◌, if◌then◌else◌, length, length-set, ◌≡◌, ◌≢◌, ◌⊎◌, inl,
  inr, refl, ◌∙◌, ap, arith, Bool-cases, ==→eq, ==→ne, eio, etimedout,
}
use nabu_iris.Instance.{Inst, InstState, Handle}
use nabu_iris.State.{change_state, same_state}
use nabu_iris.Core.{Core}
use nabu_iris.Session.{
  instance_at, update, request_core_recovery, change_state_at, release_slot, CloseAnswer,
  end_session, cleared, hfi_session_close,
}
use nabu_iris.Session.Life.{
  IsFree, at-update, at-change_state, length-change_state_at, release_slot-IsFree,
}

-- What a close resets beside the ownership of the slot.
pub record IsCleared (inst : Inst) : Type 0 where
  pub no_flags : inst.sub_state ≡ 0
  pub no_streamoff : inst.streamoff_pending ≡ false
  pub no_flush : inst.flush_responses_pending ≡ 0
  pub no_last : inst.last_buffer_dequeued ≡ false
  pub no_freq : inst.min_freq ≡ 0
  pub no_bw : inst.icc_bw ≡ 0

change_state_deinit :
    (h : Handle)
    → same_state h.inst.state InstState.error ≡ false
    → ((change_state h InstState.deinit).0 ≡ 0)
      × ((change_state h InstState.deinit).1.inst.state ≡ InstState.deinit)
unfolding change_state
change_state_deinit h ok = ground arith

and_false : (b : Bool) → (b && false) ≡ false
and_false b = ground arith

is_error : (s : InstState) → same_state s InstState.error ≡ true → s ≡ InstState.error
is_error s e = ground arith

abbrev pub Over : Inst → Type 0
Over inst = (inst.state ≡ InstState.deinit) ⊎ (inst.state ≡ InstState.error)

abbrev Ended : ℕ → Core → ℕ → Core → Type 0
Ended ret c' i c =
    (length c'.instances ≡ length c.instances) × ((ret ≢ 0) ⊎ (ret ≡ 0) × Over (instance_at c' i))

module _ (c : Core) (i : ℕ) (there : i < length c.instances) where
  leave :
      same_state (instance_at c i).state InstState.error ≡ false
      → ((change_state_at c i InstState.deinit).0 ≡ 0)
        × ((instance_at (change_state_at c i InstState.deinit).1 i).state ≡ InstState.deinit)
  unfolding change_state_at
  leave ok =
      let left =
        change_state_deinit
          (record { inst = instance_at c i; recovery_pending = c.recovery_pending }) ok in
      (left.0, ap (λ (v : Inst). v.state) (at-change_state c i there InstState.deinit) ∙ left.1)

  -- The part of the close behind the response of the firmware.
  answered :
      (was_error : Bool)
      → let (ret, c') =
          (if not was_error && same_state (instance_at c i).state InstState.error
            then (eio, c)
            else if same_state (instance_at c i).state InstState.error
            then (0, c)
            else change_state_at c i InstState.deinit) in
        Ended ret c' i c
  answered was_error = elim (Bool-cases (same_state (instance_at c i).state InstState.error)) [
    | inl failed ↦
        rw failed
          (let e : (instance_at c i).state ≡ InstState.error = is_error _ failed in ground arith)
    | inr fine ↦ rw fine (
        let left = leave fine in
        rw (and_false (not was_error))
          (length-change_state_at c i there InstState.deinit, inr (left.0, inl left.1)))
  ]

end_session-Ended :
    (c : Core) (i : ℕ) (a : CloseAnswer)
    → i < length c.instances
    → let (ret, c') = end_session c i a in Ended ret c' i c
unfolding end_session
end_session-Ended c i a there = elim (Bool-cases (a.ret == 0)) [
  | inr bad ↦ rw bad (failed (a.ret) c (==→ne _ _ bad) refl)
  | inl sent ↦ rw sent (elim (Bool-cases a.answered) [
    | inr late ↦ rw late (
        failed etimedout (change_state_at c i InstState.error).1 (omega arith)
          (length-change_state_at c i there InstState.error))
    | inl came ↦ rw came (elim (Bool-cases a.failed) [
      | inr fine ↦ rw fine (answered c i there was_error)
      | inl bad ↦ rw bad (
          let ended = answered c' i (omega (arith, there, same)) was_error in
          (ended.0 ∙ same, ended.1))
    ])
  ])
]
  where
    was_error : Bool
    was_error = same_state (instance_at c i).state InstState.error

    failed :
        (ret : ℕ) (c' : Core)
        → ret ≢ 0
        → length c'.instances ≡ length c.instances
        → Ended ret c' i c
    failed ret c' bad same = (same, inl bad)

    c' : Core
    c' = (change_state_at c i InstState.error).1

    same : length c'.instances ≡ length c.instances
    same = length-change_state_at c i there InstState.error

-- How a close ends: the slot, the load and the flags are given back whatever the firmware says, and
-- a failure asks for a recovery.
abbrev pub Closed : ℕ → Core → ℕ → Type 0
Closed ret c i =
    let inst = instance_at c i in
    IsFree inst × IsCleared inst × ((ret ≡ 0) × Over inst ⊎ (ret ≢ 0) × (c.recovery_pending ≡ true))

module _ (c : Core) (i : ℕ) (there : i < length c.instances) where
  release_slot_state : (instance_at (release_slot c i) i).state ≡ (instance_at c i).state
  unfolding release_slot
  release_slot_state = ap (λ (v : Inst). v.state) (at-update c i there _)

  length-release_slot : length (release_slot c i).instances ≡ length c.instances
  unfolding release_slot
  length-release_slot = length-set c.instances i _

cleared-IsCleared : (inst : Inst) → IsFree inst → IsFree (cleared inst) × IsCleared (cleared inst)
cleared-IsCleared inst f = ground arith

-- A close of an instance of the core's list whose session is open gives back its slot, its load
-- and its power vote on every path; it succeeds with the session over, or asks for a recovery.
pub hfi_session_close-Closed :
    (c : Core) (i : ℕ) (a : CloseAnswer)
    → i < length c.instances
    → (instance_at c i).hfi_session_opened ≡ true
    → let (ret, c') = hfi_session_close c i a in Closed ret c' i
unfolding hfi_session_close
hfi_session_close-Closed c i a there open' = rw open' (go (Bool-cases (ret == 0)))
  where
    ret : ℕ
    ret = (end_session c i a).0

    c' : Core
    c' = (end_session c i a).1

    freed : Core
    freed = release_slot c' i

    closed : Core
    closed = update freed i (cleared (instance_at freed i))

    ended : Ended ret c' i c
    ended = end_session-Ended c i a there

    there' : i < length c'.instances
    there' = omega (arith, there, ended.0)

    same : instance_at closed i ≡ cleared (instance_at freed i)
    same =
        at-update freed i (omega (arith, there', length-release_slot c' i there'))
          (cleared (instance_at freed i))

    free : IsFree (instance_at closed i) × IsCleared (instance_at closed i)
    free = rw same (cleared-IsCleared (instance_at freed i) (release_slot-IsFree c' i there'))

    over : ret ≡ 0 → Over (instance_at closed i)
    over ok = elim ended.1 [
      | inl bad ↦ absurd (bad ok)
      | inr good ↦
          let e : (instance_at closed i).state ≡ (instance_at c' i).state =
            ap (λ (v : Inst). v.state) same ∙ release_slot_state c' i there' in
          elim good.1 [ inl d ↦ inl (e ∙ d) | inr e' ↦ inr (e ∙ e') ]
    ]

    go :
        ((ret == 0) ≡ true) ⊎ ((ret == 0) ≡ false)
        → Closed ret (if not (ret == 0) then request_core_recovery closed else closed) i
    go (inl ok) = rw ok (free.0, free.1, inl (==→eq _ _ ok, over (==→eq _ _ ok)))
    go (inr bad) = rw bad (free.0, free.1, inr (==→ne _ _ bad, refl))
