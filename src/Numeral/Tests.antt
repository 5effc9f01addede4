-- ===== src/Numeral/Tests.antt =====
-- Numerals read, and the theorems at concrete numerals.
use luava.Base.{ℕ, ◌-◌, ◌^◌, ◌≡◌, refl, arith, true, List, [], ◌∷◌, ◌++◌, none, some}
use luava.Base.Int.{pos, negsuc}
use luava.Base.Word.{cast_u2s}
use luava.Chars.{entry_at, lisdigit, lisspace, lisxdigit, lislalpha, lislalnum, lisprint}
use luava.Chars.Classes.{ctype_lem, is_digit, is_space, is_xdigit, is_alpha, is_alnum, is_print}
use luava.Numeral.{str2int, skip_spaces, isneg, is_hex, dec_loop, hex_loop, hexavalue, finish}
use luava.Numeral.Decimal.{minus, plus, sign_text, dec_value, str2int-decimal}
use luava.Numeral.Hexadecimal.{mark, hex_value, str2int-hexadecimal}

-- "0xfF" is 255, "12a" is no numeral.
reads :
    (str2int (48 ∷ 120 ∷ 102 ∷ 70 ∷ []) ≡ some (pos 255, [])) × (str2int (49 ∷ 50 ∷ 97 ∷ []) ≡ none)
unfolding str2int skip_spaces isneg is_hex dec_loop hex_loop hexavalue finish entry_at cast_u2s
reads = (refl, refl)

ctype_lem_example :
    (lisdigit 95 ≡ is_digit 95)
    × (lisspace 95 ≡ is_space 95)
    × (lisxdigit 95 ≡ is_xdigit 95)
    × (lislalpha 95 ≡ is_alpha 95)
    × (lislalnum 95 ≡ is_alnum 95)
    × (lisprint 95 ≡ is_print 95)
ctype_lem_example = ctype_lem 95

-- " -9223372036854775808 "
abbrev least_digits : List ℕ
least_digits =
    50 ∷ 50 ∷ 51 ∷ 51 ∷ 55 ∷ 50 ∷ 48 ∷ 51 ∷ 54 ∷ 56 ∷ 53 ∷ 52 ∷ 55 ∷ 55 ∷ 53 ∷ 56 ∷ 48 ∷ 56 ∷ []

str2int-decimal_example :
    str2int ((32 ∷ []) ++ (sign_text minus ++ (57 ∷ (least_digits ++ (32 ∷ [])))))
    ≡ some (negsuc (2 ^ 63 - 1), [])
unfolding dec_value
str2int-decimal_example =
    str2int-decimal (32 ∷ []) minus 57 least_digits (32 ∷ []) (refl, _) (ground arith) (refl, _)

-- "+0XfF"
str2int-hexadecimal_example :
    str2int ([] ++ (sign_text plus ++ (48 ∷ mark true ∷ 102 ∷ ((70 ∷ []) ++ []))))
    ≡ some (pos 255, [])
unfolding hex_value cast_u2s
str2int-hexadecimal_example =
    str2int-hexadecimal [] plus true 102 (70 ∷ []) [] _ (refl, (refl, _)) _
