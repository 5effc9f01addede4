-- ===== src/Base/Word.antt =====
-- lua_Integer (64 bits, two's complement) and lua_Unsigned: a lua_Integer is an integer in range, a
-- lua_Unsigned a number below 2 ^ 64. `l_castS2U`, `l_castU2S` and `intop` of lua/src/llimits.h and
-- lvm.h.
use Prim.Native.Nat.{ℕ, ◌-◌, ◌/◌, ◌^◌, ◌<◌, bit_xor}
use mathlib.Core.Path.{◌≡◌, refl}
use mathlib.Core.Bool.{Bool, true, false, xor, not}
use native.Mathlib.Omega.{arith}
use luava.Base.Tests.{ltb, ◌==◌, if◌then◌else◌}
use luava.Base.Bits.{bit_xor-div_pow}
use luava.Base.Int.{ℤ, pos, negsuc, ◌≤ℤ◌}

abbrev pub min_integer : ℤ
min_integer = negsuc (2 ^ 63 - 1)

abbrev pub max_integer : ℤ
max_integer = pos (2 ^ 63 - 1)

abbrev pub IsInteger : ℤ → Type 0
IsInteger x = (min_integer ≤ℤ x) × (x ≤ℤ max_integer)

unfoldable pub cast_s2u : ℤ → ℕ
cast_s2u (pos n) = n
cast_s2u (negsuc n) = 2 ^ 64 - 1 - n

unfoldable pub cast_u2s : ℕ → ℤ
cast_u2s u = if ltb u (2 ^ 63) then pos u else negsuc (2 ^ 64 - 1 - u)

pub cast_u2s-cast_s2u : (x : ℤ) → IsInteger x → cast_u2s (cast_s2u x) ≡ x
unfolding cast_u2s cast_s2u
cast_u2s-cast_s2u (pos n) h = ground arith
cast_u2s-cast_s2u (negsuc n) h = ground arith

pub cast_s2u-cast_u2s : (u : ℕ) → u < 2 ^ 64 → cast_s2u (cast_u2s u) ≡ u
unfolding cast_u2s cast_s2u
cast_s2u-cast_u2s u h = ground arith

pub cast_s2u-lt : (x : ℤ) → IsInteger x → cast_s2u x < 2 ^ 64
unfolding cast_s2u
cast_s2u-lt (pos n) h = omega arith
cast_s2u-lt (negsuc n) h = omega arith

pub cast_u2s-IsInteger : (u : ℕ) → u < 2 ^ 64 → IsInteger (cast_u2s u)
unfolding cast_u2s
cast_u2s-IsInteger u h = ground arith

-- The sign of a number with the pattern `u`.
abbrev pub is_neg : ℤ → Bool
is_neg (pos n) = false
is_neg (negsuc n) = true

-- `(m ^ n) < 0` in lua_Integer: the signs differ.
unfoldable pub xor_is_neg : ℤ → ℤ → Bool
xor_is_neg m n = is_neg (cast_u2s (bit_xor (cast_s2u m) (cast_s2u n)))

top_bit : (x : ℤ) → IsInteger x → cast_s2u x / 2 ^ 63 ≡ (if is_neg x then 1 else 0)
unfolding cast_s2u
top_bit (pos n) h = omega arith
top_bit (negsuc n) h = omega arith

is_neg-cast_u2s : (u : ℕ) → is_neg (cast_u2s u) ≡ not (u / 2 ^ 63 == 0)
unfolding cast_u2s
is_neg-cast_u2s u = ground arith

pub xor_is_neg_lem :
    (m n : ℤ) → IsInteger m → IsInteger n → xor_is_neg m n ≡ xor (is_neg m) (is_neg n)
unfolding xor_is_neg xor
xor_is_neg_lem m n hm hn =
    rw (is_neg-cast_u2s, bit_xor-div_pow 63 (cast_s2u m) (cast_s2u n), top_bit m hm, top_bit n hn)
      (signs (is_neg m) (is_neg n))
  where
    signs : (a b : Bool) → not (bit_xor (if a then 1 else 0) (if b then 1 else 0) == 0) ≡ xor a b
    signs true true = refl
    signs true false = refl
    signs false true = refl
    signs false false = refl
