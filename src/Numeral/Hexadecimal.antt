-- ===== src/Numeral/Hexadecimal.antt =====
-- Hexadecimal numerals, which wrap around.
use luava.Base.{
  all_below, below, implied, ℕ, ◌+◌, ◌-◌, ◌*◌, ◌%◌, ◌^◌, ◌≡◌, refl, ap, ◌∙◌, arith, leb, ◌==◌, List,
  [], ◌∷◌, ◌++◌, Bool, true, false, not, ◌||◌, if◌then◌else◌, some, All,
}
use luava.Base.Word.{cast_u2s}
use luava.Chars.{lisspace, lisxdigit, entry_at}
use luava.Chars.Classes.{lisspace_lem, lisxdigit_lem, is_xdigit}
use luava.Numeral.{char_at, hexavalue, isneg, hex_loop, finish, is_hex, str2int}
use luava.Numeral.Decimal.{
  IsSpace, Sign, none_written, plus, minus, sign_text, is_minus, skip_spaces-All, still_empty,
  not_empty, spaces-end,
}

-- The value of a hexadecimal digit, read off its range.
abbrev pub hex_digit : ℕ → ℕ
hex_digit c = if leb c 57 then c - 48 else if leb c 70 then c - 55 else c - 87

abbrev pub IsXdigit : ℕ → Type 0
IsXdigit c = is_xdigit c ≡ true

hexavalue_lem : (c : ℕ) → IsXdigit c → hexavalue c ≡ hex_digit c
unfolding all_below hexavalue entry_at
hexavalue_lem c h =
    let checks =
      below 128 (λ c. not (is_xdigit c) || (hexavalue c == hex_digit c)) c refl (ground arith) in
    implied (is_xdigit c) (hexavalue c) (hex_digit c) checks h

-- The value of hexadecimal digits after a prefix of value `a`, without a bound.
unfoldable pub hex_value : ℕ → List ℕ → ℕ
hex_value a [] = a
hex_value a (c ∷ s) = hex_value (a * 16 + hex_digit c) s

wrapped_step : (a d : ℕ) → (a % 2 ^ 64 * 16 + d) % 2 ^ 64 ≡ (a * 16 + d) % 2 ^ 64
wrapped_step a d = omega arith

hex_loop-digits :
    (a : ℕ) (empty : Bool) (s rest : List ℕ)
    → All IsXdigit s
    → lisxdigit (char_at rest) ≡ false
    → hex_loop (a % 2 ^ 64) empty (s ++ rest)
      ≡ record { value = hex_value a s % 2 ^ 64; empty = still_empty empty s; rest = rest }
unfolding hex_loop hex_value
hex_loop-digits a empty [] [] h stop = refl
hex_loop-digits a empty [] (c ∷ rest) h stop = rw stop refl
hex_loop-digits a empty (c ∷ s) rest (d, ds) stop =
    let v = a * 16 + hex_digit c in
    rw (lisxdigit_lem c, d, hexavalue_lem c d, wrapped_step a (hex_digit c))
      (hex_loop-digits v false s rest ds stop
        ∙ ap (λ (e : Bool). record { value = hex_value v s % 2 ^ 64; empty = e; rest = rest })
            (not_empty s))

-- The '0x' or '0X' of a hexadecimal numeral.
abbrev pub mark : Bool → ℕ
mark upper = if upper then 88 else 120

sign-zero : (g : Sign) (s : List ℕ) → lisspace (char_at (sign_text g ++ (48 ∷ s))) ≡ false
sign-zero none_written s = lisspace_lem 48
sign-zero plus s = lisspace_lem 43
sign-zero minus s = lisspace_lem 45

isneg-zero : (g : Sign) (s : List ℕ) → isneg (sign_text g ++ (48 ∷ s)) ≡ (is_minus g, 48 ∷ s)
unfolding isneg
isneg-zero none_written s = refl
isneg-zero plus s = refl
isneg-zero minus s = refl

space-not_xdigit : (sp : List ℕ) → All IsSpace sp → lisxdigit (char_at sp) ≡ false
space-not_xdigit [] h = lisxdigit_lem 0
space-not_xdigit (c ∷ sp) (h, hs) = lisxdigit_lem c ∙ ground arith

pub str2int-hexadecimal :
    (sp : List ℕ) (g : Sign) (upper : Bool) (d : ℕ) (ds sp' : List ℕ)
    → All IsSpace sp
    → All IsXdigit (d ∷ ds)
    → All IsSpace sp'
    → str2int (sp ++ (sign_text g ++ (48 ∷ mark upper ∷ d ∷ (ds ++ sp'))))
      ≡ some (
        let v = hex_value 0 (d ∷ ds) % 2 ^ 64 in
            cast_u2s (if is_minus g then (2 ^ 64 - v) % 2 ^ 64 else v),
        [],
      )
unfolding str2int finish is_hex
str2int-hexadecimal sp g upper d ds sp' hs hd hs' =
    let s = mark upper ∷ d ∷ (ds ++ sp') in
    let spaces = skip_spaces-All sp (sign_text g ++ (48 ∷ s)) hs (sign-zero g s) in
    let sign = isneg-zero g s in
    let marked : (mark upper == 120) || (mark upper == 88) ≡ true = ground arith in
    let loop = hex_loop-digits 0 true (d ∷ ds) sp' hd (space-not_xdigit sp' hs') in
    rw (spaces, sign, marked, loop, spaces-end sp' hs') refl
