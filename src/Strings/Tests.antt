-- ===== src/Strings/Tests.antt =====
-- Calls of the string functions, and the theorems at concrete arguments.
use luava.Base.{ℕ, ◌^◌, ◌≡◌, refl, arith, map, none, some, List, [], ◌∷◌, ◌++◌}
use luava.Base.Int.{pos, negsuc}
use luava.Strings.{
  ok, str_byte, str_char, str_sub, str_rep, copies, totallen, posrelat_i, getendpos, str_reverse,
  reverse_loop,
}
use luava.Strings.Repetition.{IsFilled, str_rep-IsFilled}
use luava.Strings.Slices.{sub-halves, str_char-str_byte}
use luava.Stack.{LuaStack}

abbrev letters : List ℕ
letters = 97 ∷ 98 ∷ 99 ∷ []

calls :
    (str_sub letters (negsuc 1) none ≡ 98 ∷ 99 ∷ [])
    × (str_reverse letters ≡ 99 ∷ 98 ∷ 97 ∷ [])
    × (str_rep (120 ∷ []) (pos 3) (44 ∷ []) ≡ ok (5, 120 ∷ 44 ∷ 120 ∷ 44 ∷ 120 ∷ []))
unfolding str_sub posrelat_i getendpos str_reverse reverse_loop str_rep copies totallen
calls = (refl, refl, refl)

str_rep-IsFilled_example : IsFilled (str_rep letters (pos (2 ^ 62)) (44 ∷ []))
str_rep-IsFilled_example = str_rep-IsFilled letters (pos (2 ^ 62)) (44 ∷ [])

sub-halves_example :
    str_sub letters (pos 1) (some (pos 2)) ++ str_sub letters (pos 3) none ≡ letters
sub-halves_example = sub-halves letters 2

abbrev some_stack : LuaStack
some_stack = record { size = 45; used = 4 }

str_char-str_byte_example :
    (str_byte some_stack letters (some (pos 1)) (some (negsuc 0)) ≡ ok letters)
    × (str_char (map pos letters) ≡ ok letters)
str_char-str_byte_example =
    str_char-str_byte some_stack letters (omega arith)
      (record { some_used = omega arith; within = omega arith; limited = omega arith })
      (omega arith)
