-- ===== src/Numeral.antt =====
-- Reading a string as an integer: luaO_hexavalue, isneg and l_str2int of lua/src/lobject.c. A string
-- is the list of its bytes; the terminating '\0' is what `char_at` reads at the end.
pub mod Decimal
pub mod Hexadecimal
mod Tests
use luava.Base.{
  ℕ, ◌+◌, ◌-◌, ◌*◌, ◌/◌, ◌%◌, ◌^◌, List, [], ◌∷◌, Bool, true, false, ◌&&◌, ◌||◌, ltb, leb, ◌==◌,
  Option, none, some, if◌then◌else◌,
}
use luava.Base.Int.{ℤ}
use luava.Base.Word.{cast_u2s}
use luava.Chars.{lisdigit, lisspace, lisxdigit, ltolower}

-- `*s`
abbrev pub char_at : List ℕ → ℕ
char_at [] = 0
char_at (c ∷ s) = c

unfoldable pub hexavalue : ℕ → ℕ
hexavalue c = if lisdigit c then c - 48 else (ltolower c - 97 + 10) % 256

-- while (lisspace(cast_uchar( *s))) s++;
unfoldable pub skip_spaces : List ℕ → List ℕ
skip_spaces [] = []
skip_spaces (c ∷ s) = if lisspace c then skip_spaces s else c ∷ s

-- isneg: whether there is a '-', and the string after the sign.
unfoldable pub isneg : List ℕ → Bool × List ℕ
isneg [] = (false, [])
isneg (c ∷ s) = if c == 45 then (true, s) else if c == 43 then (false, s) else (false, c ∷ s)

-- What a loop on digits leaves: `a`, `empty` and `s`.
pub record Digits : Type 0 where
  pub value : ℕ
  pub empty : Bool
  pub rest : List ℕ

unfoldable pub hex_loop : ℕ → Bool → List ℕ → Digits
hex_loop a empty [] = record { value = a; empty = empty; rest = [] }
hex_loop a empty (c ∷ s) =
    if lisxdigit c
    then hex_loop ((a * 16 + hexavalue c) % 2 ^ 64) false s
    else record { value = a; empty = empty; rest = c ∷ s }

abbrev pub maxby10 : ℕ
maxby10 = (2 ^ 63 - 1) / 10

abbrev pub maxlastd : ℕ
maxlastd = (2 ^ 63 - 1) % 10

-- The test for overflow in a decimal numeral.
abbrev pub overflows : Bool → ℕ → ℕ → Bool
overflows neg a d = leb maxby10 a && (ltb maxby10 a || ltb (maxlastd + (if neg then 1 else 0)) d)

-- The loop on decimal digits; `none` on overflow.
unfoldable pub dec_loop : Bool → ℕ → Bool → List ℕ → Option Digits
dec_loop neg a empty [] = some (record { value = a; empty = empty; rest = [] })
dec_loop neg a empty (c ∷ s) =
    if lisdigit c
    then (if overflows neg a (c - 48)
        then none
        else dec_loop neg ((a * 10 + (c - 48)) % 2 ^ 64) false s)
    else some (record { value = a; empty = empty; rest = c ∷ s })

-- The end of l_str2int: the value, and the string at the terminating '\0'.
unfoldable pub finish : Bool → Digits → Option (ℤ × List ℕ)
finish neg ds =
    let s = skip_spaces ds.rest in
    if ds.empty || (if char_at s == 0 then false else true)
    then none
    else some (cast_u2s (if neg then (2 ^ 64 - ds.value) % 2 ^ 64 else ds.value), s)

unfoldable pub is_hex : List ℕ → Bool
is_hex (c ∷ d ∷ s) = (c == 48) && ((d == 120) || (d == 88))
is_hex _ = false

abbrev pub drop_two : List ℕ → List ℕ
drop_two (c ∷ d ∷ s) = s
drop_two _ = []

abbrev pub finish_decimal : Bool → Option Digits → Option (ℤ × List ℕ)
finish_decimal neg none = none
finish_decimal neg (some ds) = finish neg ds

-- l_str2int after the sign.
abbrev pub read_digits : Bool × List ℕ → Option (ℤ × List ℕ)
read_digits (neg, s) =
    if is_hex s
    then finish neg (hex_loop 0 true (drop_two s))
    else finish_decimal neg (dec_loop neg 0 true s)

-- l_str2int
unfoldable pub str2int : List ℕ → Option (ℤ × List ℕ)
str2int s = read_digits (isneg (skip_spaces s))
