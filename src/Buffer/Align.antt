-- ===== src/Buffer/Align.antt =====
-- Multiples of DMA_ALIGNMENT under the arithmetic of u32.
use nabu_iris.Common.{
  ℕ, ◌+◌, ◌*◌, ◌/◌, ◌%◌, ◌≡◌, Bool, true, false, if◌then◌else◌, max, u32, arith, ap, refl,
}
use nabu_iris.Buffer.{align_u32}

-- A multiple of 256. A shut record, so that a proof names the rules that it uses.
pub record IsDma (n : ℕ) : Type 0 where
  pub whole : n % 256 ≡ 0

pub align-IsDma : (x : ℕ) → IsDma (align_u32 x 256)
align-IsDma x = record { whole = omega arith }

pub u32-IsDma : (n : ℕ) → IsDma n → IsDma (u32 n)
u32-IsDma n h = record { whole = omega arith }

pub add-IsDma : (a b : ℕ) → IsDma a → IsDma b → IsDma (a + b)
add-IsDma a b h k = record { whole = omega arith }

whole_blocks : (a : ℕ) → a % 256 ≡ 0 → a ≡ 256 * (a / 256)
whole_blocks a h = omega arith

pub mul-IsDma : (a b : ℕ) → IsDma a → IsDma (a * b)
mul-IsDma a b h = record { whole = omega (arith, ap (λ (t : ℕ). t * b) (whole_blocks a h.whole)) }

pub double-IsDma : (a : ℕ) → IsDma a → IsDma (2 * a)
double-IsDma a h = record { whole = omega arith }

pub max-IsDma : (a b : ℕ) → IsDma a → IsDma b → IsDma (max a b)
max-IsDma a b h k = record { whole = omega arith }

pub if-IsDma : (b : Bool) (x y : ℕ) → IsDma x → IsDma y → IsDma (if b then x else y)
if-IsDma true x y h k = h
if-IsDma false x y h k = k

-- A coarser alignment is one too.
pub align512-IsDma : (x : ℕ) → IsDma (align_u32 x 512)
align512-IsDma x = record { whole = omega arith }

pub align4096-IsDma : (x : ℕ) → IsDma (align_u32 x 4096)
align4096-IsDma x = record { whole = omega arith }

-- The constants that are added.
pub block_512 : IsDma 512
block_512 = record { whole = refl }

pub block_4096 : IsDma 4096
block_4096 = record { whole = refl }

pub block_0 : IsDma 0
block_0 = record { whole = refl }

pub ruleset dma_rules = (
  align-IsDma, align512-IsDma, align4096-IsDma, u32-IsDma, add-IsDma, mul-IsDma, double-IsDma,
  max-IsDma, if-IsDma, block_512, block_4096, block_0,
)
