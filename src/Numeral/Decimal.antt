-- ===== src/Numeral/Decimal.antt =====
-- Integer numerals: the value of the digits against what l_str2int accepts and returns.
use luava.Base.{
  ℕ, ◌+◌, ◌-◌, ◌*◌, ◌%◌, ◌^◌, ◌≤◌, ◌≡◌, refl, sym, ap, ◌∙◌, arith, leb, ◌==◌, List, [], ◌∷◌, ◌++◌,
  append-nil, Bool, true, false, not, Bool-cases, inl, inr, if◌then◌else◌, Option, none, some, All,
}
use luava.Base.Int.{ℤ, pos, sub_ℕ}
use luava.Base.Word.{cast_u2s}
use luava.Chars.{lisdigit, lisspace}
use luava.Chars.Classes.{lisdigit_lem, lisspace_lem, is_space}
use luava.Numeral.{
  char_at, skip_spaces, isneg, Digits, dec_loop, overflows, finish, is_hex, str2int,
}

abbrev pub IsDigit : ℕ → Type 0
IsDigit c = (48 ≤ c) × (c ≤ 57)

-- The value of decimal digits after a prefix of value `a`.
unfoldable pub dec_value : ℕ → List ℕ → ℕ
dec_value a [] = a
dec_value a (c ∷ s) = dec_value (a * 10 + (c - 48)) s

-- The greatest absolute value of an integer with the sign.
abbrev pub limit_of : Bool → ℕ
limit_of neg = if neg then 2 ^ 63 else 2 ^ 63 - 1

dec_value-ge : (a : ℕ) (s : List ℕ) → a ≤ dec_value a s
unfolding dec_value
dec_value-ge a [] = omega arith
dec_value-ge a (c ∷ s) = omega (arith, dec_value-ge (a * 10 + (c - 48)) s)

-- The test finds exactly the steps that leave the range.
overflows_lem :
    (neg : Bool) (a d : ℕ) → d ≤ 9 → overflows neg a d ≡ not (leb (a * 10 + d) (limit_of neg))
overflows_lem true a d h = ground arith
overflows_lem false a d h = ground arith

digit : (c : ℕ) → IsDigit c → lisdigit c ≡ true
digit c h = lisdigit_lem c ∙ ground arith

dec_loop-stops :
    (neg : Bool) (a : ℕ) (empty : Bool) (rest : List ℕ)
    → lisdigit (char_at rest) ≡ false
    → dec_loop neg a empty rest ≡ some (record { value = a; empty = empty; rest = rest })
unfolding dec_loop
dec_loop-stops neg a empty [] stop = refl
dec_loop-stops neg a empty (c ∷ s) stop = rw stop refl

-- The result of the loop, with the range tested once at the end.
abbrev checked : Bool → ℕ → Bool → List ℕ → Option Digits
checked neg v empty rest =
    if leb v (limit_of neg) then some (record { value = v; empty = empty; rest = rest }) else none

abbrev pub still_empty : Bool → List ℕ → Bool
still_empty empty [] = empty
still_empty empty (c ∷ s) = false

pub not_empty : (s : List ℕ) → still_empty false s ≡ false
not_empty [] = refl
not_empty (c ∷ s) = refl

unwrapped : (neg : Bool) (v : ℕ) → leb v (limit_of neg) ≡ true → v % 2 ^ 64 ≡ v
unwrapped true v h = ground arith
unwrapped false v h = ground arith

dec_loop-digits :
    (neg : Bool) (a : ℕ) (empty : Bool) (s rest : List ℕ)
    → All IsDigit s
    → a ≤ limit_of neg
    → lisdigit (char_at rest) ≡ false
    → dec_loop neg a empty (s ++ rest) ≡ checked neg (dec_value a s) (still_empty empty s) rest
unfolding dec_loop dec_value
dec_loop-digits neg a empty [] rest ds fits stop =
    let within : leb a (limit_of neg) ≡ true = ground arith in
    rw within (dec_loop-stops neg a empty rest stop)
dec_loop-digits neg a empty (c ∷ s) rest (d, ds) fits stop =
    elim (Bool-cases (leb (a * 10 + (c - 48)) (limit_of neg))) [
      | inl within ↦
          let v = a * 10 + (c - 48) in
          let small : v % 2 ^ 64 ≡ v = unwrapped neg v within in
          let rest_runs = dec_loop-digits neg v false s rest ds (ground arith) stop in
          rw (digit c d, overflows_lem neg a (c - 48) (omega arith), within, small)
            (rest_runs ∙ ap (λ (e : Bool). checked neg (dec_value v s) e rest) (not_empty s))
      | inr beyond ↦
          let v = a * 10 + (c - 48) in
          let past : leb (dec_value v s) (limit_of neg) ≡ false =
            ground (arith, dec_value-ge v s) in
          rw (digit c d, overflows_lem neg a (c - 48) (omega arith), beyond, past) refl
    ]

-- Spaces around a numeral.
abbrev pub IsSpace : ℕ → Type 0
IsSpace c = is_space c ≡ true

pub skip_spaces-All :
    (sp rest : List ℕ)
    → All IsSpace sp
    → lisspace (char_at rest) ≡ false
    → skip_spaces (sp ++ rest) ≡ rest
unfolding skip_spaces
skip_spaces-All [] [] h stop = refl
skip_spaces-All [] (c ∷ rest) h stop = rw stop refl
skip_spaces-All (c ∷ sp) rest (h, hs) stop =
    rw (lisspace_lem c, h) (skip_spaces-All sp rest hs stop)

pub spaces-end : (sp : List ℕ) → All IsSpace sp → skip_spaces sp ≡ []
spaces-end sp h = ap skip_spaces (sym (append-nil sp)) ∙ skip_spaces-All sp [] h (lisspace_lem 0)

-- The optional sign of a numeral: none, '+' or '-'.
pub data Sign : Type 0 where
  none_written plus minus : Sign

abbrev pub sign_text : Sign → List ℕ
sign_text none_written = []
sign_text plus = 43 ∷ []
sign_text minus = 45 ∷ []

abbrev pub is_minus : Sign → Bool
is_minus minus = true
is_minus _ = false

-- The integer with a sign and an absolute value.
abbrev pub signed : Bool → ℕ → ℤ
signed neg v = if neg then sub_ℕ 0 v else pos v

pub isneg-sign :
    (g : Sign) (c : ℕ) (s : List ℕ)
    → IsDigit c
    → isneg (sign_text g ++ (c ∷ s)) ≡ (is_minus g, c ∷ s)
unfolding isneg
isneg-sign none_written c s d =
    let unsigned : (c == 45) ≡ false = ground arith in
    let unmarked : (c == 43) ≡ false = ground arith in rw (unsigned, unmarked) refl
isneg-sign plus c s d = refl
isneg-sign minus c s d = refl

not_space : (c : ℕ) → IsDigit c → lisspace c ≡ false
not_space c d = lisspace_lem c ∙ ground arith

sign-not_space :
    (g : Sign) (c : ℕ) (s : List ℕ)
    → IsDigit c
    → lisspace (char_at (sign_text g ++ (c ∷ s))) ≡ false
sign-not_space none_written c s d = not_space c d
sign-not_space plus c s d = lisspace_lem 43
sign-not_space minus c s d = lisspace_lem 45

pub space-not_digit : (sp : List ℕ) → All IsSpace sp → lisdigit (char_at sp) ≡ false
space-not_digit [] h = lisdigit_lem 0
space-not_digit (c ∷ sp) (h, hs) = lisdigit_lem c ∙ ground arith

not_hex :
    (d : ℕ) (ds sp : List ℕ) → All IsDigit ds → All IsSpace sp → is_hex (d ∷ (ds ++ sp)) ≡ false
unfolding is_hex
not_hex d [] [] h hs = refl
not_hex d [] (c ∷ sp) h (k, hs) = ground arith
not_hex d (c ∷ ds) sp (k, h) hs = ground arith

signed_bits :
    (neg : Bool) (v : ℕ)
    → leb v (limit_of neg) ≡ true
    → cast_u2s (if neg then (2 ^ 64 - v) % 2 ^ 64 else v) ≡ signed neg v
unfolding cast_u2s
signed_bits true v h = ground arith
signed_bits false v h = ground arith

-- The string is read to its end.
pub finish-digits :
    (neg : Bool) (v : ℕ) (sp : List ℕ)
    → All IsSpace sp
    → leb v (limit_of neg) ≡ true
    → finish neg (record { value = v; empty = false; rest = sp }) ≡ some (signed neg v, [])
unfolding finish
finish-digits neg v sp hs within =
    rw (spaces-end sp hs) (ap (λ (x : ℤ). some (x, [])) (signed_bits neg v within))

-- An integer numeral in decimal, with a sign and spaces around it.
pub str2int-decimal :
    (sp : List ℕ) (g : Sign) (d : ℕ) (ds sp' : List ℕ)
    → All IsSpace sp
    → All IsDigit (d ∷ ds)
    → All IsSpace sp'
    → str2int (sp ++ (sign_text g ++ (d ∷ (ds ++ sp')))) ≡ (
        if leb (dec_value 0 (d ∷ ds)) (limit_of (is_minus g))
        then some (signed (is_minus g) (dec_value 0 (d ∷ ds)), [])
        else none)
unfolding str2int
str2int-decimal sp g d ds sp' hs hd hs' =
    let s = sign_text g ++ (d ∷ (ds ++ sp')) in
    let spaces = skip_spaces-All sp s hs (sign-not_space g d (ds ++ sp') hd.0) in
    let sign = isneg-sign g d (ds ++ sp') hd.0 in
    let decimal = not_hex d ds sp' hd.1 hs' in
    let v = dec_value 0 (d ∷ ds) in
    let loop =
      dec_loop-digits (is_minus g) 0 true (d ∷ ds) sp' hd (ground arith)
        (space-not_digit sp' hs') in
    elim (Bool-cases (leb v (limit_of (is_minus g)))) [
      | inl within ↦
          rw (spaces, sign, decimal, loop, within) (finish-digits (is_minus g) v sp' hs' within)
      | inr beyond ↦ rw (spaces, sign, decimal, loop, beyond) refl
    ]
