-- ===== src/SubState/Update.antt =====
-- What a change of the sub-state does to each flag, and that a refused change does nothing.
use nabu_iris.Common.{ℕ, ◌^◌, ◌<◌, false, not, ◌&&◌, ◌||◌, ◌≡◌, ◌≢◌, ◌⊎◌, arith, bit_or, bit_and}
use nabu_iris.Common.Bits.{
  complement, has, has-pow, test_bit-bit_and, test_bit-bit_or, test_bit-complement, bit_and-lt,
  bit_or-lt, zero-bit_and,
}
use nabu_iris.Instance.{error, Handle}
use nabu_iris.SubState.{change_sub_state, set_sub_state, update_sub_state}

-- After a change, flag `i` is what it was, or one of the flags to set, unless it is one to clear.
pub has-update :
    (i sub clear set : ℕ)
    → i < 32
    → clear < 2 ^ 32
    → has (update_sub_state sub clear set) (2 ^ i)
      ≡ ((has sub (2 ^ i) || has set (2 ^ i)) && not (has clear (2 ^ i)))
unfolding update_sub_state
has-update i sub clear set hi hc = ground (
  arith,
  has-pow i (bit_and (bit_or sub set) (complement 32 clear)),
  has-pow i sub,
  has-pow i set,
  has-pow i clear,
  test_bit-bit_and i (bit_or sub set) (complement 32 clear),
  test_bit-bit_or i sub set,
  test_bit-complement 32 i clear hi hc,
)

pub update_sub_state-lt :
    (sub clear set : ℕ) → sub < 256 → set < 256 → update_sub_state sub clear set < 256
unfolding update_sub_state
update_sub_state-lt sub clear set hs ht =
    bit_and-lt 8 (bit_or sub set) (complement 32 clear) (bit_or-lt 8 sub set hs ht)

-- A change is made whole or not at all: the handle stays as it was, or its flags are the updated
-- ones, the code is 0, and the two sets of flags are in range and disjoint.
pub change_sub_state_cases :
    (h : Handle) (clear set : ℕ)
    → let (ret, h') = change_sub_state h clear set in
      (h' ≡ h)
      ⊎ (h' ≡ set_sub_state h (update_sub_state h.inst.sub_state clear set))
        × (ret ≡ 0)
        × (set < 256)
        × (clear < 256)
        × (has clear set ≡ false)
unfolding change_sub_state
change_sub_state_cases h clear set = ground arith

-- Where a change of a live instance returns 0, each of its eight flags is then what it was, or one
-- of the flags to set, unless it is one to clear.
pub change_sub_state_flags :
    (h : Handle) (clear set i : ℕ)
    → h.inst.state ≢ error
    → i < 8
    → (change_sub_state h clear set).0 ≡ 0
    → has (change_sub_state h clear set).1.inst.sub_state (2 ^ i)
      ≡ ((has h.inst.sub_state (2 ^ i) || has set (2 ^ i)) && not (has clear (2 ^ i)))
unfolding change_sub_state
change_sub_state_flags h clear set i live hi ok =
    ground (arith, has-update i h.inst.sub_state clear set (omega arith), zero-bit_and (2 ^ i))
