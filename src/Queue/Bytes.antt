-- ===== src/Queue/Bytes.antt =====
-- Runs of bytes in a buffer, as lists, and runs that go round the end of a ring.
use nabu_iris.Common.{
  ℕ, zero, suc, ◌+◌, ◌-◌, ◌<◌, List, [], ◌∷◌, ◌++◌, ◌≡◌, refl, ap, ◌∙◌, arith, length, ltb,
  if◌then◌else◌,
}
use mathlib.Core.Path.{ap₂}
use native.Mathlib.Nat.{zero-add, add-zero, suc-add, add-suc}
use nabu_iris.Queue.{Buffer}

-- The `n` bytes from offset `k` on.
abbrev pub bytes : Buffer → ℕ → ℕ → List ℕ
bytes b k zero = []
bytes b k (suc n) = b k ∷ bytes b (suc k) n

pub length-bytes : (b : Buffer) (k n : ℕ) → length (bytes b k n) ≡ n
length-bytes b k zero = refl
length-bytes b k (suc n) = ap suc (length-bytes b (suc k) n)

-- Two buffers that agree on a run, each from its own offset, have the same bytes there.
pub bytes_congr :
    (f g : Buffer) (k m n : ℕ)
    → ((i : ℕ) → i < n → f (k + i) ≡ g (m + i))
    → bytes f k n ≡ bytes g m n
bytes_congr f g k m zero h = refl
bytes_congr f g k m (suc n) h = ap₂ ◌∷◌ first (bytes_congr f g (suc k) (suc m) n rest)
  where
    first : f k ≡ g m
    first =
        ap f {x = k} {y = k + 0} (omega arith)
        ∙ h 0 (omega arith)
        ∙ ap g {x = m + 0} {y = m} (omega arith)

    rest : (i : ℕ) → i < n → f (suc k + i) ≡ g (suc m + i)
    rest i hi =
        ap f {x = suc k + i} {y = k + suc i} (omega arith)
        ∙ h (suc i) (omega arith)
        ∙ ap g {x = m + suc i} {y = suc m + i} (omega arith)

pub bytes-add : (b : Buffer) (k m n : ℕ) → bytes b k (m + n) ≡ bytes b k m ++ bytes b (k + m) n
bytes-add b k zero n = rw (zero-add, add-zero)
bytes-add b k (suc m) n = rw (suc-add, add-suc) (ap (◌∷◌ (b k)) (bytes-add b (suc k) m n) ∙ shift)
  where
    shift :
        b k ∷ (bytes b (suc k) m ++ bytes b (suc k + m) n)
        ≡ (b k ∷ bytes b (suc k) m) ++ bytes b (suc (k + m)) n
    shift = ap (λ j. b k ∷ (bytes b (suc k) m ++ bytes b j n)) (suc-add k m)

-- The offset of byte `k` of a run that starts at `r` in a ring of `size` bytes.
abbrev pub around : ℕ → ℕ → ℕ → ℕ
around size r k = if ltb (r + k) size then r + k else r + k - size

-- The `n` bytes from offset `r` on, going round at `size`.
abbrev pub window : ℕ → Buffer → ℕ → ℕ → List ℕ
window size b r n = bytes (λ k. b (around size r k)) 0 n
