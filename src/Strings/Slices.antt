-- ===== src/Strings/Slices.antt =====
-- str_sub and str_byte: the bytes they read lie in the string, and slices fit together.
use luava.Base.{ℕ, zero, suc, ◌+◌, ◌-◌, ◌≤◌, ◌<◌, ◌≡◌, refl, sym, ap, ◌∙◌, arith}
use luava.Base.{
  true, false, ltb, leb, Option, none, some, List, [], ◌∷◌, ◌++◌, All, map, length, take, drop,
  Bool-cases, inl, inr, if◌then◌else◌,
}
use luava.Base.{take-append-drop, take_all, drop_all, length-take, length-drop}
use luava.Base.Int.{ℤ, pos, negsuc}
use luava.Base.Word.{cast_s2u}
use luava.Proto.{int_max}
use luava.Strings.{
  ok, posrelat_i, getendpos, opt_integer, str_sub, str_byte, str_char_from, str_char,
}
use luava.Stack.{LuaStack, maxstack, lua_checkstack}
use luava.Stack.Room.{IsStack, lua_checkstack-fits}

-- The positions that are read lie in the string.
positions : (i j : ℤ) (len : ℕ) → (1 ≤ posrelat_i i len) × (getendpos j len ≤ len)
unfolding posrelat_i getendpos
positions (pos zero) (pos m) len = ground arith
positions (pos (suc n)) (pos m) len = ground arith
positions (negsuc n) (pos m) len = ground arith
positions (pos zero) (negsuc m) len = ground arith
positions (pos (suc n)) (negsuc m) len = ground arith
positions (negsuc n) (negsuc m) len = ground arith

-- string.sub of any integers returns as many bytes as there are positions from the first to the
-- last, after both are clipped to the string, so that no read leaves it.
pub length-str_sub :
    (s : List ℕ) (i : ℤ) (j : Option ℤ)
    → length (str_sub s i j)
      ≡ suc (getendpos (opt_integer j (negsuc 0)) (length s)) - posrelat_i i (length s)
unfolding str_sub
length-str_sub s i j =
    let start = posrelat_i i (length s) in
    let end = getendpos (opt_integer j (negsuc 0)) (length s) in
    let within = positions i (opt_integer j (negsuc 0)) (length s) in
    elim (Bool-cases (leb start end)) [
      | inl le ↦ rw le (
          ground
            (arith, length-take (end - start + 1) (drop (start - 1) s), length-drop (start - 1) s))
      | inr gt ↦ rw gt (ground arith)
    ]

nonempty_take : (s : List ℕ) (n : ℕ) → (if leb 1 n then take (n - 1 + 1) s else []) ≡ take n s
nonempty_take s zero = refl
nonempty_take s (suc n) =
    let some_bytes : leb 1 (suc n) ≡ true = ground arith in
    let back : suc n - 1 + 1 ≡ suc n = omega arith in rw (some_bytes, back) refl

clipped_take : (s : List ℕ) (k : ℕ) → take (getendpos (pos k) (length s)) s ≡ take k s
unfolding getendpos
clipped_take s k = elim (Bool-cases (ltb (length s) k)) [
  | inl long ↦ rw long (take_all (length s) s (omega arith) ∙ sym (take_all k s (ground arith)))
  | inr short ↦ rw short refl
]

first_part : (s : List ℕ) (k : ℕ) → str_sub s (pos 1) (some (pos k)) ≡ take k s
unfolding str_sub posrelat_i
first_part s k = nonempty_take s (getendpos (pos k) (length s)) ∙ clipped_take s k

whole : (len : ℕ) → getendpos (negsuc 0) len ≡ len
unfolding getendpos
whole len = ground arith

second_part : (s : List ℕ) (k : ℕ) → str_sub s (pos (suc k)) none ≡ drop k s
unfolding str_sub posrelat_i
second_part s k =
    let at : suc k - 1 ≡ k = omega arith in
    elim (Bool-cases (leb (suc k) (length s))) [
      | inl le ↦
          rw (whole (length s), le, at)
            (take_all (length s - suc k + 1) (drop k s) (ground (arith, length-drop k s)))
      | inr gt ↦ rw (whole (length s), gt) (sym (drop_all k s (ground arith)))
    ]

-- string.sub up to a position and from the next one on gives the string, for every position from 0.
pub sub-halves :
    (s : List ℕ) (k : ℕ) → str_sub s (pos 1) (some (pos k)) ++ str_sub s (pos (suc k)) none ≡ s
sub-halves s k = rw (first_part s k, second_part s k) (take-append-drop k s)

-- The bytes as arguments of string.char.
str_char_from-bytes :
    (i : ℕ) (s : List ℕ) → All (λ c. c < 256) s → str_char_from i (map pos s) ≡ ok s
unfolding str_char_from cast_s2u
str_char_from-bytes i [] h = refl
str_char_from-bytes i (c ∷ s) (h, hs) =
    let byte : leb c 255 ≡ true = ground arith in rw (byte, str_char_from-bytes (i + 1) s hs) refl

byte_whole :
    (L : LuaStack) (s : List ℕ)
    → IsStack L
    → L.used + length s ≤ maxstack
    → str_byte L s (some (pos 1)) (some (negsuc 0)) ≡ ok s
unfolding str_byte posrelat_i
byte_whole L [] is room = rw (whole) refl
byte_whole L (c ∷ s) is room =
    let len = suc (length s) in
    let not_empty : ltb len 1 ≡ false = ground arith in
    let few : leb int_max (len - 1) ≡ false = ground arith in
    let count : len - 1 + 1 ≡ len = omega arith in
    let grown : (lua_checkstack L (len - 1 + 1)).0 ≡ true =
      rw count (lua_checkstack-fits L len is room) in
    rw (whole, not_empty, few, grown)
      (ap (λ (b : List ℕ). ok b) (take_all (len - 1 + 1) (c ∷ s) (omega arith)))

-- string.byte from the first byte to the last gives the bytes of a string, where the slots in use on
-- the stack and as many more as it has bytes do not exceed LUAI_MAXSTACK, and string.char of these
-- bytes builds the string.
pub str_char-str_byte :
    (L : LuaStack) (s : List ℕ)
    → All (λ c. c < 256) s
    → IsStack L
    → L.used + length s ≤ maxstack
    → (str_byte L s (some (pos 1)) (some (negsuc 0)) ≡ ok s) × (str_char (map pos s) ≡ ok s)
unfolding str_char
str_char-str_byte L s h is room = (byte_whole L s is room, str_char_from-bytes 1 s h)
