-- ===== src/Arith.antt =====
-- Integer arithmetic of the virtual machine: luaV_idiv, luaV_mod, luaV_shiftl and luaV_shiftr of
-- lua/src/lvm.c and lvm.h, and intarith of lobject.c. A lua_Integer is an integer in the range of
-- 64 bits (Base/Word).
pub mod Division
pub mod Shifts
mod Tests
use luava.Base.{ℕ, ◌+◌, ◌-◌, ◌*◌, ◌/◌, ◌%◌, ◌^◌, bit_and, bit_or, bit_xor}
use luava.Base.{Bool, true, false, not, ◌&&◌, leb, ◌==◌, if◌then◌else◌}
use luava.Base.Int.{ℤ, pos, negsuc, sub_ℕ, ltb_ℤ, ◌+ℤ◌, ◌-ℤ◌}
use luava.Base.Word.{cast_s2u, cast_u2s, xor_is_neg, is_neg}

-- The messages of luaG_runerror.
pub data ArithError : Type 0 where
  divide_by_zero modulo_by_zero : ArithError

pub data Outcome : Type 0 where
  ok : ℤ → Outcome
  err : ArithError → Outcome

-- intop(-, 0, m): the negation wraps at the least integer.
unfoldable pub int_neg : ℤ → ℤ
int_neg m = cast_u2s ((2 ^ 64 - cast_s2u m) % 2 ^ 64)

-- C division and remainder: truncation towards zero, and a remainder with the sign of `m`.
unfoldable pub c_div : ℤ → ℤ → ℤ
c_div (pos a) (pos b) = pos (a / b)
c_div (pos a) (negsuc b) = sub_ℕ 0 (a / (b + 1))
c_div (negsuc a) (pos b) = sub_ℕ 0 ((a + 1) / b)
c_div (negsuc a) (negsuc b) = pos ((a + 1) / (b + 1))

unfoldable pub c_mod : ℤ → ℤ → ℤ
c_mod (pos a) (pos b) = pos (a % b)
c_mod (pos a) (negsuc b) = pos (a % (b + 1))
c_mod (negsuc a) (pos b) = sub_ℕ 0 ((a + 1) % b)
c_mod (negsuc a) (negsuc b) = sub_ℕ 0 ((a + 1) % (b + 1))

abbrev pub is_zero : ℤ → Bool
is_zero (pos n) = n == 0
is_zero (negsuc n) = false

-- `l_castS2U(n) + 1u <= 1u`: the divisor is 0 or -1.
unfoldable pub is_special : ℤ → Bool
is_special n = leb ((cast_s2u n + 1) % 2 ^ 64) 1

-- luaV_idiv
unfoldable pub idiv : ℤ → ℤ → Outcome
idiv m n =
    if is_special n
    then (if is_zero n then err divide_by_zero else ok (int_neg m))
    else let q = c_div m n in
      if xor_is_neg m n && not (is_zero (c_mod m n)) then ok (q -ℤ pos 1) else ok q

-- luaV_mod
unfoldable pub imod : ℤ → ℤ → Outcome
imod m n =
    if is_special n
    then (if is_zero n then err modulo_by_zero else ok (pos 0))
    else let r = c_mod m n in if not (is_zero r) && xor_is_neg r n then ok (r +ℤ n) else ok r

-- luaV_shiftl; a negative count shifts right, filling with zeros. NBITS is 64.
unfoldable pub shiftl : ℤ → ℤ → ℤ
shiftl x (negsuc k) = if leb 64 (k + 1) then pos 0 else cast_u2s (cast_s2u x / 2 ^ (k + 1))
shiftl x (pos k) = if leb 64 k then pos 0 else cast_u2s (cast_s2u x * 2 ^ k % 2 ^ 64)

-- The macro luaV_shiftr.
unfoldable pub shiftr : ℤ → ℤ → ℤ
shiftr x y = shiftl x (int_neg y)

pub data ArithOp : Type 0 where
  add sub mul modulo floor_div band bor bxor shl shr unm bnot : ArithOp

-- intarith; the other operators (`/` and `^`) are asserted away. `~l_castS2U(0)` is all ones.
unfoldable pub intarith : ArithOp → ℤ → ℤ → Outcome
intarith ArithOp.add a b = ok (cast_u2s ((cast_s2u a + cast_s2u b) % 2 ^ 64))
intarith ArithOp.sub a b = ok (cast_u2s ((cast_s2u a + 2 ^ 64 - cast_s2u b) % 2 ^ 64))
intarith ArithOp.mul a b = ok (cast_u2s (cast_s2u a * cast_s2u b % 2 ^ 64))
intarith ArithOp.modulo a b = imod a b
intarith ArithOp.floor_div a b = idiv a b
intarith ArithOp.band a b = ok (cast_u2s (bit_and (cast_s2u a) (cast_s2u b)))
intarith ArithOp.bor a b = ok (cast_u2s (bit_or (cast_s2u a) (cast_s2u b)))
intarith ArithOp.bxor a b = ok (cast_u2s (bit_xor (cast_s2u a) (cast_s2u b)))
intarith ArithOp.shl a b = ok (shiftl a b)
intarith ArithOp.shr a b = ok (shiftr a b)
intarith ArithOp.unm a b = ok (int_neg a)
intarith ArithOp.bnot a b = ok (cast_u2s (bit_xor (2 ^ 64 - 1) (cast_s2u a)))
