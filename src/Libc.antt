-- ===== src/Libc.antt =====
-- `ffsl` of the C library, which `find_first_set` of onestl/bitset.cpp calls where the build
-- found it, and the loop that bitset.cpp falls back to elsewhere.
pub mod Fallback
use onejit.Base.{
  ℕ, zero, suc, ◌+◌, ◌-◌, ◌/◌, ◌%◌, ◌^◌, ◌≤◌, ◌<◌, true, false, ◌==◌, if◌then◌else◌, ◌≡◌,
}
use onejit.Word.Bit.{testbit}

-- `r` is one more than the position of the lowest bit that is set in `w`.
pub record IsLowest (w r : ℕ) : Type 0 where
  pub positive : 1 ≤ r
  pub is_set : testbit w (r - 1) ≡ true
  pub below : (j : ℕ) → j < r - 1 → testbit w j ≡ false

-- The documented behaviour of `ffsl` on the words that `find` passes to it.
pub record Libc : Type 0 where
  pub ffsl : ℕ → ℕ
  pub ffsl_lowest : (w : ℕ) → 0 < w → w < 2 ^ 64 → IsLowest w (ffsl w)

-- `while ((i & 1) == 0) { ret++; i >>= 1; } return ret;`
unfoldable pub skip_zeros : ℕ → ℕ → ℕ → ℕ
skip_zeros zero i ret = ret
skip_zeros (suc fuel) i ret =
    let rest = skip_zeros fuel (i / 2) (ret + 1) in if i % 2 == 0 then rest else ret

-- The fallback: whole zero bytes are skipped first. 8 rounds for the bytes of a word, and 8 for
-- the bits of a byte.
unfoldable pub fallback_loop : ℕ → ℕ → ℕ → ℕ
unfolding skip_zeros
fallback_loop zero i ret = 0
fallback_loop (suc fuel) i ret =
    let rest = fallback_loop fuel (i / 2 ^ 8) (ret + 8) in
    if i == 0 then 0 else if i % 2 ^ 8 == 0 then rest else skip_zeros 8 i ret

unfoldable pub fallback_find_first_set : ℕ → ℕ
unfolding fallback_loop
fallback_find_first_set i = fallback_loop 8 i 0
