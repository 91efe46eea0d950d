-- ===== src/Core/Vpu/Handshake.antt =====
-- The boot handshake of iris_vpu_boot_firmware: which answers of the firmware count as a boot.
use nabu_iris.Common.{
  ℕ, zero, suc, ◌+◌, ◌≤◌, ◌<◌, ◌≡◌, ◌≢◌, ◌⊎◌, inl, inr, ◌-◌, ap, ◌∙◌, refl, sym, arith, bit_and,
}
use native.Mathlib.Decide.{dec_lt, ℕ_discrete}
use mathlib.Core.Path.{subst}
use nabu_iris.Core.Vpu.{vpu_boot_firmware, poll_status, max_tries, etime, ctrl_error_status_mask}

module _ (reads : ℕ → ℕ) where
  poll_answered : (left status count : ℕ) → status ≢ 0 → poll_status reads left status count ≡ count
  unfolding poll_status
  poll_answered zero status count h = refl
  poll_answered (suc left) status count h = ground arith

  poll_error :
      (left count : ℕ)
      → bit_and (reads count) ctrl_error_status_mask ≡ 4
      → poll_status reads (suc left) 0 count ≡ count
  unfolding poll_status
  poll_error left count h = ground arith

  poll_next :
      (left count : ℕ)
      → bit_and (reads count) ctrl_error_status_mask ≢ 4
      → poll_status reads (suc left) 0 count ≡ poll_status reads left (reads count) (count + 1)
  unfolding poll_status
  poll_next left count h = ground arith

  poll_silent :
      (left count : ℕ)
      → reads count ≡ 0
      → poll_status reads (suc left) 0 count ≡ poll_status reads left 0 (count + 1)
  poll_silent left count h =
      poll_next left count (rw h (λ e. omega arith))
      ∙ ap (λ s. poll_status reads left s (count + 1)) h

  -- The loop ended on poll `k`: before its own count on the error status, after it otherwise.
  abbrev Ended : ℕ → ℕ → Type 0
  Ended k n =
      (bit_and (reads k) ctrl_error_status_mask ≡ 4) × (n ≡ k)
      ⊎ (bit_and (reads k) ctrl_error_status_mask ≢ 4) × (n ≡ k + 1)

  poll_here : (k left : ℕ) → reads k ≢ 0 → Ended k (poll_status reads (suc left) 0 k)
  poll_here k left answer = elim (ℕ_discrete (bit_and (reads k) ctrl_error_status_mask) 4) [
    | yes p ↦ inl (p, poll_error left k p)
    | no p ↦ inr (p, poll_next left k p ∙ poll_answered left (reads k) (k + 1) answer)
  ]

  -- The first status that is not 0 ends the loop.
  poll_first :
      (k left count : ℕ)
      → ((i : ℕ) → i < k → reads i ≡ 0)
      → reads k ≢ 0
      → count ≤ k
      → k < count + left
      → Ended k (poll_status reads left 0 count)
  poll_first k zero count silent answer h room = absurd (omega arith)
  poll_first k (suc left) count silent answer h room = elim (dec_lt count k) [
    | yes before ↦
        subst (Ended k) (sym (poll_silent left count (silent count before)))
          (poll_first k left (count + 1) silent answer (omega arith) (omega arith))
    | no not_before ↦
        subst (λ c. Ended k (poll_status reads (suc left) 0 c)) {x = k} {y = count} (omega arith)
          (poll_here k left answer)
  ]

  poll_quiet :
      (left count : ℕ)
      → ((i : ℕ) → i < count + left → reads i ≡ 0)
      → poll_status reads left 0 count ≡ count + left
  unfolding poll_status
  poll_quiet zero count silent = omega arith
  poll_quiet (suc left) count silent =
      poll_silent left count (silent count (omega arith))
      ∙ poll_quiet left (count + 1) (λ i h. silent i (omega arith))
      ∙ omega arith

-- The handshake ends with code 0 where the firmware answers with a status that is not 0 within the
-- first 999 polls, whatever the status says: also where it is the error that the code logs as an
-- invalid uc_region.
pub boot_answered :
    (reads : ℕ → ℕ) (k : ℕ)
    → ((i : ℕ) → i < k → reads i ≡ 0)
    → reads k ≢ 0
    → k + 1 < max_tries
    → vpu_boot_firmware reads ≡ 0
unfolding vpu_boot_firmware
boot_answered reads k silent answer early =
    ground (arith, poll_first reads k max_tries 0 silent answer (omega arith) (omega arith))

-- A firmware that is silent for the first 999 polls has not, even if the last poll finds it ready;
-- the error status alone would be taken for a boot there.
pub boot_timeout :
    (reads : ℕ → ℕ)
    → ((i : ℕ) → i + 1 < max_tries → reads i ≡ 0)
    → bit_and (reads (max_tries - 1)) ctrl_error_status_mask ≢ 4
    → vpu_boot_firmware reads ≡ etime
unfolding vpu_boot_firmware
boot_timeout reads silent last = elim (ℕ_discrete (reads 999) 0) [
  | yes quiet ↦ ground (arith, poll_quiet reads max_tries 0 (λ i h. all_quiet i h quiet))
  | no late ↦ ground (
    arith,
    poll_first reads 999 max_tries 0 (λ i h. silent i (omega arith)) late (omega arith)
        (omega arith),
  )
]
  where
    all_quiet : (i : ℕ) → i < 1000 → reads 999 ≡ 0 → reads i ≡ 0
    all_quiet i h quiet = elim (ℕ_discrete i 999) [
      | yes e ↦ ap reads e ∙ quiet
      | no e ↦ silent i (omega arith)
    ]

-- The status that reports a bad region for the queues counts as a boot.
pub boot_error_accepted :
    (reads : ℕ → ℕ) (k : ℕ)
    → ((i : ℕ) → i < k → reads i ≡ 0)
    → bit_and (reads k) ctrl_error_status_mask ≡ 4
    → k < max_tries
    → vpu_boot_firmware reads ≡ 0
unfolding vpu_boot_firmware
boot_error_accepted reads k silent bad early = ground (
  arith,
  poll_first reads k max_tries 0 silent
      (λ e. not_zero (ap (λ n. bit_and n ctrl_error_status_mask) e)) (omega arith) (omega arith),
)
  where
    not_zero : bit_and (reads k) ctrl_error_status_mask ≡ 0 → ⊥
    not_zero e = omega arith
