-- ===== src/Common/Words.antt =====
-- C integers. A `u32` is a number below 2 ^ 32, with the wrap-around of each operation written out.
-- A return code of type `int` is 0 or a negated errno, and is modelled by the errno itself.
use Prim.Native.Nat.{ℕ, ◌≤◌, ◌*◌, ◌+◌, ◌-◌, ◌/◌, ◌%◌, ◌^◌}
use native.Mathlib.Omega.{arith}

pub mul_mono : (a b c d : ℕ) → a ≤ b → c ≤ d → a * c ≤ b * d
mul_mono a b c d p q = grind arith

abbrev pub u32_mod : ℕ
u32_mod = 2 ^ 32

abbrev pub u32 : ℕ → ℕ
u32 n = n % u32_mod

-- `a - b` on u32
abbrev pub sub_u32 : ℕ → ℕ → ℕ
sub_u32 a b = (a + u32_mod - b) % u32_mod

abbrev pub div_round_up : ℕ → ℕ → ℕ
div_round_up n d = (n + d - 1) / d

abbrev pub eio : ℕ
eio = 5

abbrev pub eagain : ℕ
eagain = 11

abbrev pub enomem : ℕ
enomem = 12

abbrev pub eacces : ℕ
eacces = 13

abbrev pub ebusy : ℕ
ebusy = 16

abbrev pub einval : ℕ
einval = 22

abbrev pub enospc : ℕ
enospc = 28

abbrev pub enodata : ℕ
enodata = 61

abbrev pub ebadmsg : ℕ
ebadmsg = 74

abbrev pub etimedout : ℕ
etimedout = 110
