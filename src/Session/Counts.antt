-- ===== src/Session/Counts.antt =====
-- The bounds of the admission, and what one instance counts for in them.
use nabu_iris.Common.{
  ◌⊎◌, inl, inr, Bool-cases, ℕ, zero, suc, ◌+◌, ◌*◌, ◌^◌, ◌≤◌, ◌<◌, Bool, true, false, ◌&&◌, leb,
  if◌then◌else◌, List, [], ◌∷◌, get_or, set, total, total-set_le, ◌≡◌, refl, arith,
}
use nabu_iris.Instance.{Inst, InstState, Handle}
use nabu_iris.State.{change_state}
use nabu_iris.Core.{Core}
use nabu_iris.Session.{
  num_mbs_per_frame, get_mbpf, int_to_u64, iris1_4k_mbpf, iris1_max_4k_sessions, no_inst,
  instance_at, update, opened, opened_mbpf, reserved_mbps, reserved_large,
}

pub record Admitted (c : Core) : Type 0 where
  pub sessions : total opened c.instances ≤ c.platform.max_session_count
  pub frames : total opened_mbpf c.instances ≤ c.platform.max_core_mbpf
  pub rate : total reserved_mbps c.instances ≤ c.platform.max_core_mbps
  pub large :
      (c.platform.legacy_vpu5 ≡ false) ⊎ (total reserved_large c.instances ≤ iris1_max_4k_sessions)

-- The platform's limits are u32 fields.
pub record AreWords (c : Core) : Type 0 where
  pub frames_word : c.platform.max_core_mbpf < 2 ^ 32
  pub rate_word : c.platform.max_core_mbps < 2 ^ 32

-- Every instance has a frame whose macroblocks an `int` can count.
abbrev pub AreSized : List Inst → Type 0
AreSized [] = Unit
AreSized (inst ∷ insts) = (get_mbpf inst < 2 ^ 31) × AreSized insts

pub sized-at : (xs : List Inst) (i : ℕ) → AreSized xs → get_mbpf (get_or xs i no_inst) < 2 ^ 31
unfolding get_mbpf num_mbs_per_frame
sized-at [] i h = omega arith
sized-at (x ∷ xs) zero h = h.0
sized-at (x ∷ xs) (suc i) h = sized-at xs i h.1

pub sized-set :
    (xs : List Inst) (i : ℕ) (v : Inst) → AreSized xs → get_mbpf v < 2 ^ 31 → AreSized (set xs i v)
sized-set [] i v h b = tt
sized-set (x ∷ xs) zero v h b = (b, h.1)
sized-set (x ∷ xs) (suc i) v h b = (h.0, sized-set xs i v h.1 b)

pub large_of :
    (c : Core)
    → Admitted c
    → c.platform.legacy_vpu5 ≡ true
    → total reserved_large c.instances ≤ iris1_max_4k_sessions
large_of c a legacy = elim a.large [ inl off ↦ absurd (cc) | inr le ↦ le ]

module _ (c : Core) (i : ℕ) (v : Inst) (a : Admitted c) where
  -- An instance is replaced by another, with room for what that one counts.
  pub update-Admitted :
      total opened c.instances + opened v ≤ c.platform.max_session_count + opened (instance_at c i)
      → total opened_mbpf c.instances + opened_mbpf v
        ≤ c.platform.max_core_mbpf + opened_mbpf (instance_at c i)
      → total reserved_mbps c.instances + reserved_mbps v
        ≤ c.platform.max_core_mbps + reserved_mbps (instance_at c i)
      → (c.platform.legacy_vpu5 ≡ true
          → total reserved_large c.instances + reserved_large v
            ≤ iris1_max_4k_sessions + reserved_large (instance_at c i))
      → Admitted (update c i v)
  update-Admitted o f r l = record {
    sessions = omega (arith, o, total-set_le opened c.instances i v no_inst refl);
    frames = omega (arith, f, total-set_le opened_mbpf c.instances i v no_inst refl);
    rate = omega (arith, r, total-set_le reserved_mbps c.instances i v no_inst refl);
    large = elim (Bool-cases c.platform.legacy_vpu5) [
      | inl on ↦ inr (omega (arith, l on, total-set_le reserved_large c.instances i v no_inst refl))
      | inr off ↦ inl off
    ];
  }

  -- It may always be replaced by one that counts for no more.
  pub shrink-Admitted :
      opened v ≤ opened (instance_at c i)
      → opened_mbpf v ≤ opened_mbpf (instance_at c i)
      → reserved_mbps v ≤ reserved_mbps (instance_at c i)
      → reserved_large v ≤ reserved_large (instance_at c i)
      → Admitted (update c i v)
  shrink-Admitted o f r l =
      update-Admitted (omega (arith, a.sessions)) (omega (arith, a.frames)) (omega (arith, a.rate))
        (λ legacy. omega (arith, large_of c a legacy))

-- The product of a frame that an `int` counts and a u32 rate fits a u64.
pub product-small : (m r : ℕ) → m < 2 ^ 31 → r < 2 ^ 32 → m * r < 2 ^ 63
product-small m r hm hr = grind arith

pub int_to_u64-small : (n : ℕ) → n < 2 ^ 31 → int_to_u64 n ≡ n
int_to_u64-small n h = ground arith

-- What an instance counts for once its load is reserved.
module _ (inst : Inst) (rate : ℕ) (s : get_mbpf inst < 2 ^ 31) where
  pub loaded_mbps :
      rate < 2 ^ 32
      → reserved_mbps (record inst { admission_frame_rate = rate; core_load_reserved = true })
        ≡ get_mbpf inst * rate
  unfolding get_mbpf
  loaded_mbps r =
      rw (int_to_u64-small (get_mbpf inst) s)
        (omega (arith, product-small (get_mbpf inst) rate s r))

  pub loaded_large :
      reserved_large (record inst { admission_frame_rate = rate; core_load_reserved = true })
      ≡ (if leb iris1_4k_mbpf (get_mbpf inst) then 1 else 0)
  unfolding get_mbpf
  loaded_large = ground arith

-- A session that is large is taken only as one of the first three.
pub fourth_room :
    (legacy b : Bool) (t : ℕ)
    → legacy ≡ true
    → (legacy && (b && leb iris1_max_4k_sessions t)) ≡ false
    → t ≤ iris1_max_4k_sessions
    → t + (if b then 1 else 0) ≤ iris1_max_4k_sessions
fourth_room legacy b t on h le = ground arith

-- A change of the state of an instance leaves what the admission counts.
pub change_state_counts :
    (h : Handle) (s : InstState)
    → let v = (change_state h s).1.inst in
      (opened v ≡ opened h.inst)
      × (opened_mbpf v ≡ opened_mbpf h.inst)
      × (reserved_mbps v ≡ reserved_mbps h.inst)
      × (reserved_large v ≡ reserved_large h.inst)
      × (get_mbpf v ≡ get_mbpf h.inst)
unfolding change_state get_mbpf
change_state_counts h s = ground arith
