-- ===== src/Session/Failure.antt =====
-- What an open that fails leaves of its core: all but one session fewer, and a recovery asked for.
use nabu_iris.Common.{
  ℕ, ◌+◌, ◌<◌, Bool, true, false, if◌then◌else◌, length, length-set, total, total-set, ◌≡◌, ◌≢◌,
  ◌⊎◌, inl, inr, refl, ◌∙◌, ap, arith, Bool-cases,
}
use nabu_iris.Instance.{Inst, InstState, Handle}
use nabu_iris.State.{change_state}
use nabu_iris.Core.{Core}
use nabu_iris.Core.Boot.Resources.{IsUp}
use nabu_iris.Session.{
  no_inst, instance_at, update, request_core_recovery, change_state_at, opened, release_slot,
  OpenAnswer, after_open, open_reserved,
}
use nabu_iris.Session.Counts.{change_state_counts}
use nabu_iris.Session.Life.{length-change_state_at, change_state_at_opened, after_open-keeps}

-- What a core has besides its instances and the request flag.
abbrev pub Framed : Core → Core → Type 0
Framed c c' =
    (c'.platform ≡ c.platform)
    × (c'.state ≡ c.state)
    × (c'.iface_q_table ≡ c.iface_q_table)
    × (c'.dma_bytes ≡ c.dma_bytes)
    × (c'.rails ≡ c.rails)
    × (c'.vpu_powered ≡ c.vpu_powered)
    × (c'.fw_running ≡ c.fw_running)

pub Framed-IsUp : (c c' : Core) → Framed c c' → IsUp c → IsUp c'
Framed-IsUp c c' f up = ground arith

change_state_at-Framed : (c : Core) (i : ℕ) (s : InstState) → Framed c (change_state_at c i s).1
unfolding change_state_at
change_state_at-Framed c i s = (refl, refl, refl, refl, refl, refl, refl)

release_slot-Framed : (c : Core) (i : ℕ) → Framed c (release_slot c i)
unfolding release_slot
release_slot-Framed c i = (refl, refl, refl, refl, refl, refl, refl)

pub open_reserved-Framed : (c : Core) (i : ℕ) (a : OpenAnswer) → Framed c (open_reserved c i a).1
unfolding open_reserved change_state_at release_slot
open_reserved-Framed c i a = ground arith

module _ (c : Core) (i : ℕ) (there : i < length c.instances) where
  total-change_state_at :
      (s : InstState) → total opened (change_state_at c i s).1.instances ≡ total opened c.instances
  unfolding change_state_at
  total-change_state_at s =
      let h : Handle = record { inst = instance_at c i; recovery_pending = c.recovery_pending } in
      omega (
        arith,
        total-set opened c.instances i (change_state h s).1.inst no_inst there,
        (change_state_counts h s).0,
      )

  total-release_slot :
      (instance_at c i).hfi_session_opened ≡ true
      → total opened (release_slot c i).instances + 1 ≡ total opened c.instances
  unfolding release_slot
  total-release_slot held =
      let free : Inst = record (instance_at c i) {
        hfi_session_opened = false;
        hfi_core_id = 0;
        core_load_reserved = false;
        core_load_rejected = false;
        admission_frame_rate = 0;
      } in
      omega (arith, total-set opened c.instances i free no_inst there, ap count held)
    where
      count : Bool → ℕ
      count b = if b then 1 else 0

total-after_open :
    (c : Core) (i : ℕ) (a : OpenAnswer)
    → i < length c.instances
    → total opened (after_open c i a).instances ≡ total opened c.instances
total-after_open c i a there = elim (Bool-cases a.failed) [
  | inl failed ↦ rw failed (total-change_state_at c' i there' InstState.error ∙ same)
  | inr fine ↦ rw fine same
]
  where
    named : Inst
    named = record (instance_at c i) { session_id = a.session_id }

    c' : Core
    c' = update c i named

    there' : i < length c'.instances
    there' = omega (arith, length-set c.instances i named, there)

    same : total opened c'.instances ≡ total opened c.instances
    same = omega (arith, total-set opened c.instances i named no_inst there)

-- The two places from which an open that fails goes to `release_slot`.
open_reserved_cases :
    (c : Core) (i : ℕ) (a : OpenAnswer)
    → let (ret, c') = open_reserved c i a in
      let answered = after_open c i a in
      (ret ≡ 0)
      ⊎ (c' ≡ release_slot (request_core_recovery answered) i)
      ⊎ (c' ≡ release_slot (request_core_recovery (change_state_at answered i InstState.init).1) i)
unfolding open_reserved
open_reserved_cases c i a = ground arith

-- An open that fails behind its reservation leaves one session fewer open.
pub total-open_reserved :
    (c : Core) (i : ℕ) (a : OpenAnswer)
    → i < length c.instances
    → (instance_at c i).hfi_session_opened ≡ true
    → (open_reserved c i a).0 ≢ 0
    → total opened (open_reserved c i a).1.instances + 1 ≡ total opened c.instances
total-open_reserved c i a there held bad = elim (open_reserved_cases c i a) [
  | inl ok ↦ absurd (bad ok)
  | inr (inl e) ↦ rw e (
      total-release_slot (request_core_recovery c') i there' (keeps.1 ∙ held)
      ∙ total-after_open c i a there)
  | inr (inr e) ↦ rw e (
      total-release_slot (request_core_recovery (change_state_at c' i InstState.init).1) i
        (omega (arith, there', length-change_state_at c' i there' InstState.init))
        (change_state_at_opened c' i there' InstState.init ∙ keeps.1 ∙ held)
      ∙ total-change_state_at c' i there' InstState.init
      ∙ total-after_open c i a there)
]
  where
    c' : Core
    c' = after_open c i a

    keeps :
        (length c'.instances ≡ length c.instances)
        × ((instance_at c' i).hfi_session_opened ≡ (instance_at c i).hfi_session_opened)
    keeps = after_open-keeps c i a there

    there' : i < length c'.instances
    there' = omega (arith, keeps.0, there)

pub open_reserved_pending :
    (c : Core) (i : ℕ) (a : OpenAnswer)
    → (open_reserved c i a).0 ≢ 0
    → (open_reserved c i a).1.recovery_pending ≡ true
unfolding open_reserved release_slot
open_reserved_pending c i a bad = ground arith
