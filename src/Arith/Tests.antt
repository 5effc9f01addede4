-- ===== src/Arith/Tests.antt =====
-- Runs of the integer operators, and the theorems at concrete operands.
use luava.Base.{◌-◌, ◌^◌, ◌≡◌, refl, inl, arith}
use luava.Base.Int.{pos, negsuc, ◌+ℤ◌, ◌-ℤ◌, ◌*ℤ◌}
use luava.Base.Word.{cast_s2u, cast_u2s, xor_is_neg}
use luava.Arith.{
  ok, ArithOp, c_div, c_mod, is_special, int_neg, idiv, imod, shiftl, shiftr, intarith,
}
use luava.Arith.Division.{Floored, floor_division}
use luava.Arith.Shifts.{intarith_exact, true_result}

-- -7 // 2 is -4 and -7 % 2 is 1; 7 // -2 is -4 and 7 % -2 is -1.
floors :
    (idiv (negsuc 6) (pos 2) ≡ ok (negsuc 3))
    × (imod (negsuc 6) (pos 2) ≡ ok (pos 1))
    × (idiv (pos 7) (negsuc 1) ≡ ok (negsuc 3))
    × (imod (pos 7) (negsuc 1) ≡ ok (negsuc 0))
unfolding idiv imod c_div c_mod is_special cast_s2u cast_u2s xor_is_neg ◌+ℤ◌ ◌-ℤ◌
floors = (refl, refl, refl, refl)

-- -1 >> 1 fills with a zero.
logical : shiftr (negsuc 0) (pos 1) ≡ pos (2 ^ 63 - 1)
unfolding shiftr shiftl int_neg cast_s2u cast_u2s
logical = refl

floor_division_example : Floored (negsuc 6) (pos 2)
floor_division_example =
    floor_division (negsuc 6) (pos 2) (omega arith) (omega arith) (λ e. cc) (inl (λ e. cc))

intarith_exact_example : intarith ArithOp.mul (negsuc 6) (pos 3) ≡ ok (negsuc 20)
unfolding true_result ◌*ℤ◌
intarith_exact_example =
    intarith_exact ArithOp.mul (negsuc 6) (pos 3) (negsuc 20) (omega arith) (omega arith) refl
      (omega arith)
