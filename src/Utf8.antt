-- ===== src/Utf8.antt =====
-- UTF-8: luaO_utf8esc of lua/src/lobject.c and utf8_decode of lua/src/lutf8lib.c. A pointer into a
-- string is the list of the bytes from there on; the final '\0' is what `char_at` reads at the end.
pub mod Library
pub mod Bytes
pub mod Encoding
pub mod Decoding
mod Tests
use luava.Base.{ℕ, zero, suc, ◌+◌, ◌-◌, ◌*◌, ◌/◌, ◌%◌, ◌^◌, bit_and, bit_or, bit_xor}
use luava.Base.{
  Bool, true, false, ◌&&◌, ◌||◌, ltb, leb, ◌==◌, Option, none, some, List, [], ◌∷◌, get_elem?,
  if◌then◌else◌,
}

-- `*s` and `s + 1`
abbrev pub char_at : List ℕ → ℕ
char_at [] = 0
char_at (c ∷ s) = c

abbrev pub next : List ℕ → List ℕ
next [] = []
next (c ∷ s) = s

-- The loop of luaO_utf8esc: the buffer, filled from its end, and what is left of `x` and `mfb`.
-- `mfb` is halved in each round, so six rounds are enough.
unfoldable pub esc_loop : ℕ → ℕ → ℕ → List ℕ → List ℕ
esc_loop zero x mfb buff = bit_or (bit_xor mfb (2 ^ 32 - 1) * 2 % 2 ^ 32) x % 256 ∷ buff
esc_loop (suc fuel) x mfb buff =
    let buff' = bit_or 0x80 (bit_and x 0x3f) ∷ buff in
    let x' = x / 2 ^ 6 in
    let mfb' = mfb / 2 in
    let more = esc_loop fuel x' mfb' buff' in
    if ltb mfb' x' then more else bit_or (bit_xor mfb' (2 ^ 32 - 1) * 2 % 2 ^ 32) x' % 256 ∷ buff'

-- luaO_utf8esc: the bytes at the end of the buffer.
unfoldable pub utf8esc : ℕ → List ℕ
utf8esc x = if ltb x 0x80 then x ∷ [] else esc_loop 6 x 0x3f []

abbrev pub maxutf : ℕ
maxutf = 0x7fffffff

abbrev pub maxunicode : ℕ
maxunicode = 0x10ffff

abbrev pub iscont : ℕ → Bool
iscont c = bit_and c 0xc0 == 0x80

abbrev pub limits : List ℕ
limits = (2 ^ 32 - 1) ∷ 0x80 ∷ 0x800 ∷ 0x10000 ∷ 0x200000 ∷ 0x4000000 ∷ []

-- `res < limits[count]`, which is asked only where `count` is at most 5.
unfoldable pub overlong : ℕ → ℕ → Bool
overlong count res = elim (get_elem? limits count) [ none ↦ true | some l ↦ ltb res l ]

-- What the loop on the continuation bytes leaves.
pub record Conts : Type 0 where
  pub c : ℕ
  pub res : ℕ
  pub count : ℕ
  pub rest : List ℕ

-- The loop: `s` is what follows the bytes read so far. Bit 6 of `c` is 0 after eight rounds.
unfoldable pub cont_loop : ℕ → ℕ → ℕ → ℕ → List ℕ → Option Conts
cont_loop zero c res count s = some (record { c = c; res = res; count = count; rest = s })
cont_loop (suc fuel) c res count s =
    let cc = char_at s in
    let more =
      cont_loop fuel (c * 2 % 2 ^ 32) (bit_or (res * 2 ^ 6 % 2 ^ 32) (bit_and cc 0x3f)) (count + 1)
        (next s) in
    if bit_and c 0x40 == 0
    then some (record { c = c; res = res; count = count; rest = s })
    else if iscont cc
    then more
    else none

-- The first byte is added, and the value checked.
unfoldable pub add_first : Conts → Option (ℕ × List ℕ)
add_first k =
    let res = bit_or k.res (bit_and k.c 0x7f * 2 ^ (k.count * 5) % 2 ^ 32) in
    if ltb 5 k.count || (ltb maxutf res || overlong k.count res) then none else some (res, k.rest)

abbrev pub after_conts : Option Conts → Option (ℕ × List ℕ)
after_conts none = none
after_conts (some k) = add_first k

unfoldable pub decode_value : List ℕ → Option (ℕ × List ℕ)
decode_value s =
    let c = char_at s in
    if ltb c 0x80 then some (c, next s) else after_conts (cont_loop 8 c 0 0 (next s))

-- A code point that a strict decoder refuses.
unfoldable pub invalid : ℕ → Bool
invalid res = ltb maxunicode res || (leb 0xd800 res && leb res 0xdfff)

abbrev pub check_strict : Bool → Option (ℕ × List ℕ) → Option (ℕ × List ℕ)
check_strict strict none = none
check_strict strict (some p) = if strict && invalid p.0 then none else some p

-- utf8_decode: the value and the string after the sequence; `none` is NULL.
unfoldable pub utf8_decode : List ℕ → Bool → Option (ℕ × List ℕ)
utf8_decode s strict = check_strict strict (decode_value s)
