-- ===== src/Common/Bits.antt =====
-- The bits of a word, and the laws of `bit_and`, `bit_or` and of a complemented mask, bit by bit.
use Prim.Native.Nat.{
  ℕ, zero, suc, ◌+◌, ◌-◌, ◌*◌, ◌/◌, ◌%◌, ◌^◌, ◌≤◌, ◌<◌, min, max, bit_and, bit_or, digits,
  bit_and-bitwise, bit_or-bitwise,
}
use mathlib.Core.Path.{◌≡◌, refl, ap, ◌∙◌}
use mathlib.Core.Bool.{Bool, not, ◌&&◌, ◌||◌}
use native.Mathlib.Nat.{pow-suc}
use native.Mathlib.Omega.{arith}
use nabu_iris.Common.Tests.{◌==◌}

-- A bitwise operation, by what it does to a pair of digits and to the digits of its right operand
-- that are past the left one.
module _ (past : ℕ → ℕ) (digit f : ℕ → ℕ → ℕ) where
  -- Once there are rounds enough for the left operand, their number does not matter.
  enough_rounds : (r s a b : ℕ) → a ≤ min r s → digits past digit r a b ≡ digits past digit s a b
  enough_rounds zero zero a b h = refl
  enough_rounds (suc r) (suc s) zero b h = refl
  enough_rounds (suc r) (suc s) (suc a) b h =
      let rest : digits past digit r (suc a / 2) (b / 2) ≡ digits past digit s (suc a / 2) (b / 2) =
        enough_rounds r s (suc a / 2) (b / 2) (omega (arith, h)) in
      omega (arith, rest)
  enough_rounds zero (suc s) zero b h = refl
  enough_rounds (suc r) zero zero b h = refl
  enough_rounds _ _ (suc a) b h = absurd (omega (arith, h))

  -- Such an operation acts on the low digits apart from the others.
  low_digit :
      ((a b : ℕ) → f a b ≡ digits past digit a a b)
      → ((b : ℕ) → past b ≡ past (b / 2) * 2 + digit 0 (b % 2))
      → (a b : ℕ) → f a b ≡ f (a / 2) (b / 2) * 2 + digit (a % 2) (b % 2)
  low_digit bitwise tail zero b = omega (arith, bitwise 0 b, bitwise 0 (b / 2), tail b)
  low_digit bitwise tail (suc a) b = omega (
    arith,
    bitwise (suc a) b,
    bitwise (suc a / 2) (b / 2),
    enough_rounds (suc a / 2) a (suc a / 2) (b / 2) (omega arith),
  )

pub bit_and_step : (a b : ℕ) → bit_and a b ≡ bit_and (a / 2) (b / 2) * 2 + min (a % 2) (b % 2)
bit_and_step = low_digit (λ b. 0) min bit_and bit_and-bitwise (λ b. omega arith)

pub bit_or_step : (a b : ℕ) → bit_or a b ≡ bit_or (a / 2) (b / 2) * 2 + max (a % 2) (b % 2)
bit_or_step = low_digit (λ b. b) max bit_or bit_or-bitwise (λ b. omega arith)

pub zero-bit_and : (b : ℕ) → bit_and 0 b ≡ 0
zero-bit_and b = bit_and-bitwise 0 b

zero-bit_or : (b : ℕ) → bit_or 0 b ≡ b
zero-bit_or b = bit_or-bitwise 0 b

-- Bit `i` of `x`.
abbrev pub test_bit : ℕ → ℕ → Bool
test_bit x zero = x % 2 == 1
test_bit x (suc i) = test_bit (x / 2) i

-- A parity is 0 or 1, so the low bit of a combination is that of the parities.
low_and : (a b c : ℕ) → ((c * 2 + min (a % 2) (b % 2)) % 2 == 1) ≡ ((a % 2 == 1) && (b % 2 == 1))
low_and a b c = ground arith

low_or : (a b c : ℕ) → ((c * 2 + max (a % 2) (b % 2)) % 2 == 1) ≡ ((a % 2 == 1) || (b % 2 == 1))
low_or a b c = ground arith

pub test_bit-bit_and : (i a b : ℕ) → test_bit (bit_and a b) i ≡ (test_bit a i && test_bit b i)
test_bit-bit_and zero a b = rw (bit_and_step a b) (low_and a b (bit_and (a / 2) (b / 2)))
test_bit-bit_and (suc i) a b = ap (λ n. test_bit n i) half ∙ test_bit-bit_and i (a / 2) (b / 2)
  where
    half : bit_and a b / 2 ≡ bit_and (a / 2) (b / 2)
    half = omega (arith, bit_and_step a b)

pub test_bit-bit_or : (i a b : ℕ) → test_bit (bit_or a b) i ≡ (test_bit a i || test_bit b i)
test_bit-bit_or zero a b = rw (bit_or_step a b) (low_or a b (bit_or (a / 2) (b / 2)))
test_bit-bit_or (suc i) a b = ap (λ n. test_bit n i) half ∙ test_bit-bit_or i (a / 2) (b / 2)
  where
    half : bit_or a b / 2 ≡ bit_or (a / 2) (b / 2)
    half = omega (arith, bit_or_step a b)

-- `~x` on a word of `k` bits.
abbrev pub complement : ℕ → ℕ → ℕ
complement k x = 2 ^ k - 1 - x

low_not : (x p c : ℕ) → x < p → p ≡ 2 * c → ((p - 1 - x) % 2 == 1) ≡ not (x % 2 == 1)
low_not x p c h e = ground arith

pub test_bit-complement :
    (k i x : ℕ) → i < k → x < 2 ^ k → test_bit (complement k x) i ≡ not (test_bit x i)
test_bit-complement zero i x h b = absurd (omega arith)
test_bit-complement (suc k) zero x h b =
    low_not x (2 ^ suc k) (2 ^ k) b (omega (arith, pow-suc 2 k))
test_bit-complement (suc k) (suc i) x h b =
    ap (λ n. test_bit n i) half
    ∙ test_bit-complement k i (x / 2) (omega arith) (omega (arith, pow-suc 2 k))
  where
    half : (2 ^ suc k - 1 - x) / 2 ≡ 2 ^ k - 1 - x / 2
    half = omega (arith, pow-suc 2 k, b)

-- Both results stay within the width of the left operand, or of both.
pub bit_and-lt : (k a b : ℕ) → a < 2 ^ k → bit_and a b < 2 ^ k
bit_and-lt zero a b h =
    omega (arith, bit_and_step a b, ap (λ n. bit_and n b) zero_a, zero-bit_and b)
  where
    zero_a : a ≡ 0
    zero_a = omega arith
bit_and-lt (suc k) a b h = omega (
  arith,
  bit_and_step a b,
  pow-suc 2 k,
  bit_and-lt k (a / 2) (b / 2) (omega (arith, pow-suc 2 k)),
)

pub bit_or-lt : (k a b : ℕ) → a < 2 ^ k → b < 2 ^ k → bit_or a b < 2 ^ k
bit_or-lt zero a b ha hb = omega (arith, ap (λ n. bit_or n b) zero_a, zero-bit_or b)
  where
    zero_a : a ≡ 0
    zero_a = omega arith
bit_or-lt (suc k) a b ha hb = omega (
  arith,
  bit_or_step a b,
  pow-suc 2 k,
  bit_or-lt k (a / 2) (b / 2) (omega (arith, pow-suc 2 k)) (omega (arith, pow-suc 2 k)),
)

digits_of_zero : (r a : ℕ) → digits (λ b. zero) min r a 0 ≡ 0
digits_of_zero zero zero = refl
digits_of_zero zero (suc a) = refl
digits_of_zero (suc r) zero = refl
digits_of_zero (suc r) (suc a) = omega (arith, digits_of_zero r (suc a / 2))

bit_and-zero : (a : ℕ) → bit_and a 0 ≡ 0
bit_and-zero a = bit_and-bitwise a 0 ∙ digits_of_zero a a

half_double : (p c : ℕ) → p ≡ c * 2 → p / 2 ≡ c
half_double p c e = omega arith

not-not : (b : Bool) → not (not b) ≡ b
not-not b = ground arith

-- `x & mask` is not 0: what C tests by `if (x & mask)`.
abbrev pub has : ℕ → ℕ → Bool
has x mask = not (bit_and x mask == 0)

-- A mask of the one bit `i` tests that bit.
bit_and-pow : (i x : ℕ) → (bit_and x (2 ^ i) == 0) ≡ not (test_bit x i)
bit_and-pow zero x = ground (arith, bit_and_step x 1, bit_and-zero (x / 2))
bit_and-pow (suc i) x = even ∙ bit_and-pow i (x / 2)
  where
    even : (bit_and x (2 ^ suc i) == 0) ≡ (bit_and (x / 2) (2 ^ i) == 0)
    even = ground (
      arith,
      bit_and_step x (2 ^ suc i),
      pow-suc 2 i,
      ap (λ n. bit_and (x / 2) n) (half_double (2 ^ suc i) (2 ^ i) (pow-suc 2 i)),
    )

pub has-pow : (i x : ℕ) → has x (2 ^ i) ≡ test_bit x i
has-pow i x = ap not (bit_and-pow i x) ∙ not-not (test_bit x i)

-- A union of masks is tested by either.
bit_and-bit_or_fuel :
    (n x a b : ℕ)
    → x ≤ n
    → (bit_and x (bit_or a b) == 0) ≡ ((bit_and x a == 0) && (bit_and x b == 0))
bit_and-bit_or_fuel zero x a b h = ground (
  arith,
  ap (λ n. bit_and n (bit_or a b)) zero_x,
  ap (λ n. bit_and n a) zero_x,
  ap (λ n. bit_and n b) zero_x,
  zero-bit_and (bit_or a b),
  zero-bit_and a,
  zero-bit_and b,
)
  where
    zero_x : x ≡ 0
    zero_x = omega arith
bit_and-bit_or_fuel (suc n) x a b h = ground (
  arith,
  bit_and_step x (bit_or a b),
  ap (λ c. bit_and (x / 2) c) half,
  bit_or_step a b,
  bit_and_step x a,
  bit_and_step x b,
  bit_and-bit_or_fuel n (x / 2) (a / 2) (b / 2) (omega arith),
)
  where
    half : bit_or a b / 2 ≡ bit_or (a / 2) (b / 2)
    half = omega (arith, bit_or_step a b)

pub has-bit_or : (x a b : ℕ) → has x (bit_or a b) ≡ (has x a || has x b)
has-bit_or x a b = rw (bit_and-bit_or_fuel x x a b (omega arith)) (ground arith)
