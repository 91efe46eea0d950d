-- ===== src/Session/Heal.antt =====
-- A session that cannot be opened on a core without other sessions, and what the next open finds.
use nabu_iris.Common.{
  ℕ, ◌<◌, Bool, true, false, if◌then◌else◌, length, length-set, total, total-set, ◌≡◌, ◌≢◌, inl,
  inr, refl, sym, ◌∙◌, ap, arith,
}
use mathlib.Core.Path.{subst}
use nabu_iris.Instance.{Inst}
use nabu_iris.Core.{Core, CoreState}
use nabu_iris.Core.Boot.{BootAnswers, core_recover}
use nabu_iris.Core.Boot.Resources.{IsUp, Started}
use nabu_iris.Session.{
  no_inst, instance_at, update, opened, reserve_session, run_pending_core_recovery, OpenAnswer,
  open_reserved, hfi_session_open,
}
use nabu_iris.Session.Life.{at-update, reserve_session_cases}
use nabu_iris.Session.Recovery.{IsBroken, recovery_runs}
use nabu_iris.Session.Failure.{
  Framed, Framed-IsUp, open_reserved-Framed, total-open_reserved, open_reserved_pending,
}

-- A core on which one session is open, or reserved, and which holds everything.
record IsAlone (c : Core) (i : ℕ) : Type 0 where
  pub up : IsUp c
  pub on : c.state ≢ CoreState.deinit
  pub one : total opened c.instances ≡ 1
  pub there : i < length c.instances
  pub held : (instance_at c i).hfi_session_opened ≡ true

open_reserved-IsBroken :
    (c : Core) (i : ℕ) (a : OpenAnswer)
    → IsAlone c i
    → (open_reserved c i a).0 ≢ 0
    → IsBroken (open_reserved c i a).1
open_reserved-IsBroken c i a h bad =
    let framed : Framed c (open_reserved c i a).1 = open_reserved-Framed c i a in
    record {
      up = Framed-IsUp c (open_reserved c i a).1 framed h.up;
      on = λ e. h.on (sym framed.1 ∙ e);
      pending = open_reserved_pending c i a bad;
      idle = omega (arith, total-open_reserved c i a h.there h.held bad, h.one);
    }

reserve_session-IsAlone :
    (c : Core) (i : ℕ)
    → IsUp c
    → c.state ≢ CoreState.deinit
    → total opened c.instances ≡ 0
    → i < length c.instances
    → (instance_at c i).hfi_session_opened ≡ false
    → (reserve_session c i).0 ≡ 0
    → IsAlone (reserve_session c i).1 i
reserve_session-IsAlone c i up on idle there closed ok = elim (reserve_session_cases c i) [
  | inr (bad, _) ↦ absurd (bad ok)
  | inl (_, e) ↦
      subst (λ g. IsAlone g i) (sym e)
        (record {
          up = Framed-IsUp c granted (refl, refl, refl, refl, refl, refl, refl) up;
          on = on;
          one =
              omega (
                arith,
                total-set opened c.instances i reserved no_inst there,
                idle,
                ap count closed,
              );
          there = omega (arith, length-set c.instances i reserved, there);
          held = ap (λ (v : Inst). v.hfi_session_opened) (at-update c i there reserved);
        })
]
  where
    count : Bool → ℕ
    count b = if b then 1 else 0

    reserved : Inst
    reserved = record (instance_at c i) { hfi_session_opened = true }

    granted : Core
    granted = update c i reserved

no_recovery :
    (c : Core) (b : BootAnswers) → c.recovery_pending ≡ false → run_pending_core_recovery c b ≡ c
unfolding run_pending_core_recovery
no_recovery c b calm = ground arith

open_admitted :
    (c : Core) (i : ℕ) (b : BootAnswers) (a : OpenAnswer)
    → c.recovery_pending ≡ false
    → (instance_at c i).hfi_session_opened ≡ false
    → (reserve_session c i).0 ≡ 0
    → hfi_session_open c i b a ≡ open_reserved (reserve_session c i).1 i a
unfolding hfi_session_open
open_admitted c i b a calm closed ok = rw closed (rw (no_recovery c b calm) (rw ok refl))

-- On a core that holds everything and is not in DEINIT, with no session open and no recovery
-- pending, the open of an instance of its list that is admitted and then fails leaves the core to
-- be power-cycled by the next open: that one finds the request gone and the core as it is after a
-- start from nothing. The platform defers the codec's power, and the runtime resume of the
-- controller's domain does not fail in the power-cycle.
pub open_failure_heals :
    (c : Core) (i : ℕ) (b b' : BootAnswers) (a : OpenAnswer)
    → IsUp c
    → c.state ≢ CoreState.deinit
    → c.recovery_pending ≡ false
    → total opened c.instances ≡ 0
    → i < length c.instances
    → (instance_at c i).hfi_session_opened ≡ false
    → (reserve_session c i).0 ≡ 0
    → (hfi_session_open c i b a).0 ≢ 0
    → b'.power.controller_get ≡ 0
    → let failed = (hfi_session_open c i b a).1 in
      let (ret, c') = core_recover (record failed { recovery_pending = false }) b' in
      (run_pending_core_recovery failed b' ≡ c') × Started ret c' × (c'.recovery_pending ≡ false)
open_failure_heals c i b b' a up on calm idle there closed ok bad get =
    recovery_runs (hfi_session_open c i b a).1 b'
      (subst (λ (r : ℕ × Core). IsBroken r.1) (sym same)
        (open_reserved-IsBroken (reserve_session c i).1 i a
          (reserve_session-IsAlone c i up on idle there closed ok)
          (λ e. bad (ap (λ (r : ℕ × Core). r.0) same ∙ e))))
      get
  where
    same : hfi_session_open c i b a ≡ open_reserved (reserve_session c i).1 i a
    same = open_admitted c i b a calm closed ok
