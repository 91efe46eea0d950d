-- ===== src/Session/Setup/Admission.antt =====
-- What a setup of the capture queue leaves behind.
use nabu_iris.Common.{
  ℕ, zero, suc, ◌<◌, ◌≡◌, ◌⊎◌, inl, inr, true, false, ◌==◌, List, [], ◌∷◌, length, get_or, arith,
  ap, ◌∙◌, sym, Bool-cases, ==→eq, max, enomem,
}
use mathlib.Core.Path.{subst}
use nabu_iris.Instance.{Inst}
use nabu_iris.Core.{Core}
use nabu_iris.Core.Boot.{BootAnswers}
use nabu_iris.Session.{
  no_inst, instance_at, update, OpenAnswer, hfi_session_open, reserve_core_load,
}
use nabu_iris.Session.Life.{at-update, hfi_session_open-Opened}
use nabu_iris.Session.Setup.{
  Caps, Hole, SetupAnswers, check_session_supported, vp9_release_high_iova_hole, setup_hole,
  setup_load, setup_session, vb2_queue_setup,
}

-- An instance with a session is one of the list.
opened_inside :
    (is : List Inst) (i : ℕ) → (get_or is i no_inst).hfi_session_opened ≡ true → i < length is
opened_inside [] i h = absurd (ground arith)
opened_inside (x ∷ is) zero h = omega arith
opened_inside (x ∷ is) (suc i) h = omega (arith, opened_inside is i h)

opens :
    (c : Core) (i : ℕ) (b : BootAnswers) (a : OpenAnswer)
    → i < length c.instances
    → (hfi_session_open c i b a).0 ≡ 0
    → (instance_at (hfi_session_open c i b a).1 i).hfi_session_opened ≡ true
opens c i b a there ok = elim (Bool-cases (instance_at c i).hfi_session_opened) [
  | inl held ↦ unfold hfi_session_open in rw held held
  | inr closed ↦ ground (arith, hfi_session_open-Opened c i b a there closed, ok)
]

-- The session is open, its load is reserved, and no placeholder is held.
pub record IsAdmitted (i : ℕ) (r : ℕ × Core × Hole) : Type 0 where
  pub session : (instance_at r.1 i).hfi_session_opened ≡ true
  pub load : (instance_at r.1 i).core_load_reserved ≡ true
  pub hole : r.2.vp9_iova_hole_size ≡ 0

released_size : (h : Hole) → (vp9_release_high_iova_hole h).vp9_iova_hole_size ≡ 0
unfolding vp9_release_high_iova_hole
released_size h = ground arith

abbrev reserved : Core → ℕ → ℕ → Core
reserved c i rate =
    update c i
      (record (instance_at c i) { admission_frame_rate = max rate 1; core_load_reserved = true })

reserve_core_load_cases :
    (c : Core) (i rate : ℕ)
    → (instance_at c i).core_load_reserved ≡ false
    → (reserve_core_load c i rate ≡ (enomem, c))
      ⊎ (reserve_core_load c i rate ≡ (0, reserved c i rate))
unfolding reserve_core_load
reserve_core_load_cases c i rate free = ground arith

-- Where the load of a session is reserved, and nothing else of it changed.
abbrev Reserved : Core → ℕ → ℕ × Core → Type 0
Reserved c i r =
    ((instance_at r.1 i).core_load_reserved ≡ true)
    × ((instance_at r.1 i).hfi_session_opened ≡ (instance_at c i).hfi_session_opened)

reserves :
    (c : Core) (i rate : ℕ)
    → i < length c.instances
    → (instance_at c i).core_load_reserved ≡ false
    → (reserve_core_load c i rate).0 ≡ 0
    → Reserved c i (reserve_core_load c i rate)
reserves c i rate there free ok = elim (reserve_core_load_cases c i rate free) [
  | inl refused ↦ absurd (omega (arith, sym (ap (λ (r : ℕ × Core). r.0) refused) ∙ ok))
  | inr granted ↦ subst (Reserved c i) (sym granted) (
      let here = at-update c i there _ in
      (ap (λ (v : Inst). v.core_load_reserved) here, ap (λ (v : Inst). v.hfi_session_opened) here))
]

loads :
    (c : Core) (i : ℕ) (h : Hole) (a : SetupAnswers)
    → a.is_src ≡ false
    → (instance_at c i).hfi_session_opened ≡ true
    → (setup_load c i h a).0 ≡ 0
    → IsAdmitted i (setup_load c i h a)
unfolding setup_load setup_hole
loads c i h a dst held ok = elim (Bool-cases (instance_at c i).core_load_reserved) [
  | inl kept ↦ rw (dst, kept) (record { session = held; load = kept; hole = released_size h })
  | inr free ↦ elim (Bool-cases ((reserve_core_load c i a.admission_fps).0 == 0)) [
    | inl granted ↦
        let there = opened_inside c.instances i held in
        let got = reserves c i a.admission_fps there free (==→eq _ _ granted) in
        rw (dst, free, granted)
          (record { session = got.1 ∙ held; load = got.0; hole = released_size h })
    | inr refused ↦ ground (arith, dst, free, refused, ok)
  ]
]

setup_session-IsAdmitted :
    (caps : Caps) (c : Core) (i : ℕ) (h : Hole) (a : SetupAnswers)
    → a.is_src ≡ false
    → (setup_session caps c i h a).0 ≡ 0
    → IsAdmitted i (setup_session caps c i h a)
unfolding setup_session
setup_session-IsAdmitted caps c i h a dst ok =
    elim (Bool-cases (check_session_supported caps c i == 0)) [
      | inr bad ↦ ground (arith, bad, ok)
      | inl fine ↦ elim (Bool-cases ((hfi_session_open c i a.boot a.session_open).0 == 0)) [
        | inr refused ↦ ground (arith, fine, refused, ok)
        | inl granted ↦
            let there : i < length c.instances =
              unfold check_session_supported in ground (arith, fine) in
            rw (fine, granted)
              (loads (hfi_session_open c i a.boot a.session_open).1 i h a dst
                (opens c i a.boot a.session_open there (==→eq _ _ granted))
                (ground (arith, fine, granted, ok)))
      ]
    ]

-- A setup of the capture queue by a client that leaves the planes to the driver, where it returns 0:
-- the session is open and its load reserved, and the placeholder is given up before the pictures are
-- allocated.
pub vb2_queue_setup-IsAdmitted :
    (caps : Caps) (c : Core) (i : ℕ) (h : Hole) (a : SetupAnswers)
    → a.is_src ≡ false
    → a.num_planes ≡ 0
    → (vb2_queue_setup caps c i h a).0 ≡ 0
    → IsAdmitted i (vb2_queue_setup caps c i h a)
unfolding vb2_queue_setup
vb2_queue_setup-IsAdmitted caps c i h a dst none ok =
    let same : vb2_queue_setup caps c i h a ≡ setup_session caps c i h a =
      ground (arith, dst, none, ok) in
    subst (IsAdmitted i) (sym same) (
      setup_session-IsAdmitted caps c i h a dst (sym (ap (λ (r : ℕ × Core × Hole). r.0) same) ∙ ok))
