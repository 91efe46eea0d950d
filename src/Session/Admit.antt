-- ===== src/Session/Admit.antt =====
-- Each section under `core->lock` keeps the bounds of the admission.
use nabu_iris.Common.{
  inl, inr, Bool-cases, ltb→le, leb→lt, ℕ, ◌+◌, ◌*◌, ◌^◌, ◌≤◌, ◌<◌, max, Bool, true, false, ◌&&◌,
  ltb, leb, if◌then◌else◌, total, ◌≡◌, arith,
}
use nabu_iris.Instance.{InstState, Handle}
use nabu_iris.State.{change_state}
use nabu_iris.Core.{Core}
use nabu_iris.Session.{
  get_mbpf, int_to_u64, u64, iris1_4k_mbpf, iris1_max_4k_sessions, instance_at, update, opened,
  opened_mbpf, reserved_mbps, reserved_large, reserve_session, release_slot, reserve_core_load,
  release_core_load, change_state_at,
}
use nabu_iris.Session.Counts.{
  large_of, Admitted, AreWords, update-Admitted, shrink-Admitted, int_to_u64-small, product-small,
  loaded_mbps, loaded_large, fourth_room, change_state_counts,
}

module _ (c : Core) (i : ℕ) (a : Admitted c) where
  -- An instance with a session that was not open, and all else as before.
  opened-Admitted :
      get_mbpf (instance_at c i) < 2 ^ 31
      → (instance_at c i).hfi_session_opened ≡ false
      → total opened c.instances < c.platform.max_session_count
      → total opened_mbpf c.instances + int_to_u64 (get_mbpf (instance_at c i))
        ≤ c.platform.max_core_mbpf
      → Admitted (update c i (record (instance_at c i) { hfi_session_opened = true }))
  unfolding get_mbpf
  opened-Admitted s closed o f =
      update-Admitted c i (record (instance_at c i) { hfi_session_opened = true }) a
        (omega (arith, o)) (omega (arith, f)) (omega (arith, a.rate))
        (λ legacy. omega (arith, large_of c a legacy))

  pub reserve_session-Admitted :
      AreWords c
      → get_mbpf (instance_at c i) < 2 ^ 31
      → (instance_at c i).hfi_session_opened ≡ false
      → Admitted (reserve_session c i).1
  unfolding reserve_session
  reserve_session-Admitted w s closed =
      elim (Bool-cases (leb c.platform.max_session_count (total opened c.instances))) [
        | inl many ↦ rw many a
        | inr few ↦ rw few (elim (Bool-cases (ltb c.platform.max_core_mbpf frames)) [
          | inl wide ↦ rw wide a
          | inr fits ↦ rw fits (opened-Admitted s closed (leb→lt _ _ few) (bound (ltb→le _ _ fits)))
        ])
      ]
    where
      frames : ℕ
      frames = u64 (total opened_mbpf c.instances + int_to_u64 (get_mbpf (instance_at c i)))

      bound :
          frames ≤ c.platform.max_core_mbpf
          → total opened_mbpf c.instances + int_to_u64 (get_mbpf (instance_at c i))
            ≤ c.platform.max_core_mbpf
      bound le = omega (arith, a.frames, w.frames_word, s, int_to_u64-small _ s, le)

  pub release_slot-Admitted : Admitted (release_slot c i)
  unfolding release_slot get_mbpf
  release_slot-Admitted =
      shrink-Admitted c i _ a (omega arith) (omega arith) (omega arith) (omega arith)

  pub release_core_load-Admitted : Admitted (release_core_load c i)
  unfolding release_core_load get_mbpf
  release_core_load-Admitted =
      shrink-Admitted c i _ a (omega arith) (omega arith) (omega arith) (omega arith)

  loaded-Admitted :
      (rate : ℕ)
      → get_mbpf (instance_at c i) < 2 ^ 31
      → rate < 2 ^ 32
      → (instance_at c i).core_load_reserved ≡ false
      → total reserved_mbps c.instances + get_mbpf (instance_at c i) * rate
        ≤ c.platform.max_core_mbps
      → (c.platform.legacy_vpu5
          && (leb iris1_4k_mbpf (get_mbpf (instance_at c i))
              && leb iris1_max_4k_sessions (total reserved_large c.instances)))
        ≡ false
      → Admitted (
          update c i
            (record (instance_at c i) { admission_frame_rate = rate; core_load_reserved = true }))
  unfolding get_mbpf
  loaded-Admitted rate s r free fits few =
      update-Admitted c i
        (record (instance_at c i) { admission_frame_rate = rate; core_load_reserved = true }) a
        (omega (arith, a.sessions)) (omega (arith, a.frames))
        (omega (arith, fits, loaded_mbps (instance_at c i) rate s r))
        (λ legacy. room legacy (loaded_large (instance_at c i) rate s))
    where
      room :
          c.platform.legacy_vpu5 ≡ true
          → reserved_large
              (record (instance_at c i) { admission_frame_rate = rate; core_load_reserved = true })
            ≡ (if leb iris1_4k_mbpf (get_mbpf (instance_at c i)) then 1 else 0)
          → total reserved_large c.instances
              + reserved_large (record (instance_at c i) {
                admission_frame_rate = rate;
                core_load_reserved = true;
              })
            ≤ iris1_max_4k_sessions + reserved_large (instance_at c i)
      room legacy e = rw e (
          omega (
            arith,
            fourth_room c.platform.legacy_vpu5 (leb iris1_4k_mbpf (get_mbpf (instance_at c i)))
                (total reserved_large c.instances) legacy few (large_of c a legacy),
          ))

  pub reserve_core_load-Admitted :
      (rate : ℕ)
      → AreWords c
      → get_mbpf (instance_at c i) < 2 ^ 31
      → rate < 2 ^ 32
      → Admitted (reserve_core_load c i rate).1
  unfolding reserve_core_load
  reserve_core_load-Admitted rate w s r = elim (Bool-cases (instance_at c i).core_load_reserved) [
    | inl held ↦ rw held a
    | inr free ↦ rw free (elim (Bool-cases (ltb c.platform.max_core_mbps load)) [
      | inl fast ↦ rw fast a
      | inr fits ↦ rw fits (elim (Bool-cases fourth) [
        | inl four ↦ rw four a
        | inr few ↦
            rw few
              (loaded-Admitted (max rate 1) s (omega (arith, r)) free (bound (ltb→le _ _ fits)) few)
      ])
    ])
  ]
    where
      load : ℕ
      load = u64 (total reserved_mbps c.instances + get_mbpf (instance_at c i) * max rate 1)

      fourth : Bool
      fourth =
          c.platform.legacy_vpu5
          && (leb iris1_4k_mbpf (get_mbpf (instance_at c i))
              && leb iris1_max_4k_sessions (total reserved_large c.instances))

      bound :
          load ≤ c.platform.max_core_mbps
          → total reserved_mbps c.instances + get_mbpf (instance_at c i) * max rate 1
            ≤ c.platform.max_core_mbps
      bound le =
          let small : get_mbpf (instance_at c i) * max rate 1 < 2 ^ 63 =
            product-small _ _ s (omega (arith, r)) in
          omega (arith, a.rate, w.rate_word, small, le)

  pub change_state_at-Admitted : (s : InstState) → Admitted (change_state_at c i s).1
  unfolding change_state_at
  change_state_at-Admitted s =
      let h : Handle = record { inst = instance_at c i; recovery_pending = c.recovery_pending } in
      let (o, f, r, l, _) = change_state_counts h s in
      let kept : Admitted (update c i (change_state h s).1.inst) =
        shrink-Admitted c i (change_state h s).1.inst a (omega (arith, o)) (omega (arith, f))
          (omega (arith, r)) (omega (arith, l)) in
      record {
        sessions = kept.sessions;
        frames = kept.frames;
        rate = kept.rate;
        large = kept.large;
      }
