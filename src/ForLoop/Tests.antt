-- ===== src/ForLoop/Tests.antt =====
-- Runs of the loops with whole numbers in the place of doubles, and the theorems at concrete loops.
use luava.Base.{
  ◌+◌, ◌^◌, ◌≡◌, refl, arith, Bool, [], ◌∷◌, map, Option, none, some, not, ◌&&◌, ◌||◌,
  if◌then◌else◌, ◌-◌,
}
use luava.Base.Int.{ℤ, pos, negsuc, ltb_ℤ, ◌+ℤ◌}
use luava.Base.Word.{cast_s2u, cast_u2s, min_integer, max_integer}
use luava.ForLoop.{Floats, ok, int, flt, str, skips}
use luava.Numeral.{str2int, skip_spaces, isneg, is_hex, dec_loop, finish}
use luava.Chars.{entry_at}
use luava.ForLoop.{
  forprep, forprep_on, forprep_int, forprep_float, forlimit, tointeger, tointegerns, tonumber,
  strton, str2num, loop_count, rounds, forloop, forloop_on,
}
use luava.ForLoop.Counting.{naive}
use luava.ForLoop.Integer.{run_loop, int_loop, int_loop-ends}

-- Whole numbers as doubles: an exact fragment, without infinities.
abbrev whole : Floats
whole = record {
  Float = ℤ;
  zero_float = pos 0;
  floor = λ x. x;
  eq = λ x y. if_same x y;
  lt = λ x y. ltb_ℤ x y;
  le = λ x y. not (ltb_ℤ y x);
  add = λ x y. x +ℤ y;
  one = pos 1;
  of_integer = λ i. i;
  number_to_integer = λ x. if_integer x;
  str2d = λ s. none;
}
  where
    if_same : ℤ → ℤ → Bool
    if_same x y = not (ltb_ℤ x y) && not (ltb_ℤ y x)

    if_integer : ℤ → Option ℤ
    if_integer x = if ltb_ℤ x min_integer || ltb_ℤ max_integer x then none else some x

-- for i = 10, 1, -4
descends : naive 5 (pos 10) (pos 1) (negsuc 3) ≡ pos 10 ∷ pos 6 ∷ pos 2 ∷ []
unfolding naive ◌+ℤ◌ skips
descends = refl

-- for i = 1, "7", 3
string_limit :
    run_loop whole 5 (record { ra = int (pos 1); ra1 = str (55 ∷ []); ra2 = int (pos 3) })
    ≡ ok (int (pos 1) ∷ int (pos 4) ∷ int (pos 7) ∷ [])
unfolding run_loop forprep forprep_on forprep_int forlimit tointeger tointegerns strton str2num
    str2int skip_spaces isneg is_hex dec_loop finish entry_at skips loop_count rounds forloop
    forloop_on cast_s2u cast_u2s
string_limit = refl

-- for i = 1.0, 2.0, 1.0
float_loop :
    run_loop whole 5 (record { ra = flt (pos 1); ra1 = flt (pos 2); ra2 = flt (pos 1) })
    ≡ ok (flt (pos 1) ∷ flt (pos 2) ∷ [])
unfolding run_loop forprep forprep_on forprep_float tonumber rounds forloop forloop_on ◌+ℤ◌
float_loop = refl

-- A last value from which another step would wrap.
int_loop_example :
    run_loop whole 9
      (record { ra = int (pos (2 ^ 63 - 4)); ra1 = int max_integer; ra2 = int (pos 2) })
    ≡ ok (map int (naive 9 (pos (2 ^ 63 - 4)) max_integer (pos 2)))
int_loop_example =
    int_loop whole 9 (pos (2 ^ 63 - 4)) max_integer (pos 2) (omega arith) (omega arith)
      (omega arith) (λ e. cc)

int_loop-ends_example :
    run_loop whole
      (2 ^ 64 + 1)
      (record { ra = int min_integer; ra1 = int max_integer; ra2 = int (pos 1) })
    ≡ run_loop whole
        (2 ^ 64)
        (record { ra = int min_integer; ra1 = int max_integer; ra2 = int (pos 1) })
int_loop-ends_example =
    int_loop-ends whole (2 ^ 64 + 1) min_integer max_integer (pos 1) (omega arith) (omega arith)
      (omega arith) (λ e. cc) (omega arith)
