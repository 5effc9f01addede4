-- ===== src/Utf8/Library/Codes.antt =====
-- Strings of encoded code points: utf8.codepoint and utf8.len on what utf8.char builds.
use luava.Base.{
  ℕ, zero, suc, ◌+◌, ◌-◌, ◌≤◌, ◌<◌, ◌≡◌, refl, sym, ap, ◌∙◌, arith, All, map, length, drop,
  length-append, true, false, ltb, leb, List, [], ◌∷◌, ◌++◌, append_assoc, none, some,
  drop-append_self, Bool-cases, inl, inr,
}
use luava.Base.Int.{pos, negsuc}
use luava.Base.Word.{cast_s2u}
use luava.Proto.{int_max}
use luava.Utf8.{utf8esc, maxutf, utf8_decode}
use luava.Utf8.Encoding.{encode, utf8esc-encode}
use luava.Utf8.Decoding.{utf8_decode-utf8esc}
use luava.Utf8.Library.{
  ok, Len, characters, u_posrelat, utflen_loop, utflen, codepoint_loop, codepoint, pushutfchar,
  utfchar_from, utfchar,
}
use luava.Stack.{LuaStack, maxstack}
use luava.Stack.Room.{IsStack, lua_checkstack-fits}

-- The code points one after the other.
unfoldable pub encoded : List ℕ → List ℕ
encoded [] = []
encoded (x ∷ xs) = utf8esc x ++ encoded xs

abbrev pub IsCode : ℕ → Type 0
IsCode x = x ≤ maxutf

utf8esc-length : (x : ℕ) → IsCode x → 0 < length (utf8esc x)
unfolding encode
utf8esc-length x h = rw (utf8esc-encode x h) (elim (Bool-cases (ltb x 0x80)) [
  | inl short ↦ rw short (omega arith)
  | inr long ↦ rw long (omega arith)
])

utfchar_from-encoded :
    (arg : ℕ) (xs : List ℕ) → All IsCode xs → utfchar_from arg (map pos xs) ≡ ok (encoded xs)
unfolding utfchar_from pushutfchar cast_s2u encoded
utfchar_from-encoded arg [] h = refl
utfchar_from-encoded arg (x ∷ xs) (h, hs) =
    let fits : leb x maxutf ≡ true = ground arith in
    rw (fits, utfchar_from-encoded (arg + 1) xs hs) refl

-- At the start of an encoded code point: the code point, and the string after it.
-- At the start of an encoded code point: the code point, and the string after it.
decode_at :
    (before : List ℕ) (x : ℕ) (after : List ℕ) (n : ℕ)
    → IsCode x
    → n ≡ length before
    → utf8_decode (drop n (before ++ (utf8esc x ++ after))) false ≡ some (x, after)
decode_at before x after n h e =
    rw (e, drop-append_self before (utf8esc x ++ after)) (utf8_decode-utf8esc x false after h)

sizes :
    (before seq after : List ℕ)
    → (length (before ++ (seq ++ after)) ≡ length before + length seq + length after)
      × (length (before ++ seq) ≡ length before + length seq)
sizes before seq after =
    omega (
      arith,
      length-append before (seq ++ after),
      length-append seq after,
      length-append before seq,
    )

codepoint_loop-encoded :
    (fuel n se : ℕ) (before xs : List ℕ)
    → All IsCode xs
    → length xs < fuel
    → n ≡ length before
    → se ≡ length (before ++ encoded xs)
    → codepoint_loop fuel (before ++ encoded xs) n se false ≡ ok xs
unfolding codepoint_loop encoded
codepoint_loop-encoded zero n se before xs h lt at end = elim lt [ ]
codepoint_loop-encoded (suc fuel) n se before [] h lt at end =
    let done : ltb n se ≡ false = ground (arith, length-append before []) in rw done refl
codepoint_loop-encoded (suc fuel) n se before (x ∷ xs) (h, hs) lt at end =
    let seq = utf8esc x in
    let after = encoded xs in
    let whole = before ++ (seq ++ after) in
    let same = append_assoc before seq after in
    let within : ltb n se ≡ true = ground (arith, sizes before seq after, utf8esc-length x h) in
    let rest =
      codepoint_loop-encoded fuel (length whole - length after) se (before ++ seq) xs hs
        (omega arith) (omega (arith, sizes before seq after)) (end ∙ ap length (sym same)) in
    rw (within, decode_at before x after n h at, rw same at rest) refl

utflen_loop-encoded :
    (fuel n se k : ℕ) (before xs : List ℕ)
    → All IsCode xs
    → length xs < fuel
    → n ≡ length before
    → se ≡ length (before ++ encoded xs)
    → utflen_loop fuel (before ++ encoded xs) n se false k ≡ characters (k + length xs)
unfolding utflen_loop encoded
utflen_loop-encoded zero n se k before xs h lt at end = elim lt [ ]
utflen_loop-encoded (suc fuel) n se k before [] h lt at end =
    let done : ltb n se ≡ false = ground (arith, length-append before []) in
    rw done (ap (λ (m : ℕ). characters m) (omega arith))
utflen_loop-encoded (suc fuel) n se k before (x ∷ xs) (h, hs) lt at end =
    let seq = utf8esc x in
    let after = encoded xs in
    let whole = before ++ (seq ++ after) in
    let same = append_assoc before seq after in
    let within : ltb n se ≡ true = ground (arith, sizes before seq after, utf8esc-length x h) in
    let rest =
      utflen_loop-encoded fuel (length whole - length after) se (k + 1) (before ++ seq) xs hs
        (omega arith) (omega (arith, sizes before seq after)) (end ∙ ap length (sym same)) in
    rw (within, decode_at before x after n h at)
      ((rw same at rest) ∙ ap (λ (m : ℕ). characters m) (omega arith))

encoded-length : (xs : List ℕ) → All IsCode xs → length xs ≤ length (encoded xs)
unfolding encoded
encoded-length [] h = omega arith
encoded-length (x ∷ xs) (h, hs) =
    omega (arith, length-append (utf8esc x) (encoded xs), utf8esc-length x h, encoded-length xs hs)

first : (len : ℕ) → u_posrelat (pos 1) len ≡ 1
unfolding u_posrelat
first len = refl

last : (len : ℕ) → u_posrelat (negsuc 0) len ≡ len
unfolding u_posrelat
last len = ground arith

codepoint-encoded :
    (L : LuaStack) (xs : List ℕ)
    → All IsCode xs
    → IsStack L
    → L.used + length (encoded xs) ≤ maxstack
    → codepoint L (encoded xs) (some (pos 1)) (some (negsuc 0)) true ≡ ok xs
unfolding codepoint encoded
codepoint-encoded L [] h is room = rw (first, last) refl
codepoint-encoded L (x ∷ xs) h is room =
    let len = length (encoded (x ∷ xs)) in
    let some_bytes : suc (length xs) ≤ len = encoded-length (x ∷ xs) h in
    let within : leb len len ≡ true = ground arith in
    let not_empty : ltb len 1 ≡ false = ground arith in
    let short : leb int_max (len - 1) ≡ false = ground arith in
    let count : len - 1 + 1 ≡ len = omega arith in
    let grown = lua_checkstack-fits L len is room in
    let run = codepoint_loop-encoded (suc len) 0 len [] (x ∷ xs) h (omega arith) refl refl in
    rw (first, last, within, not_empty, short, count, grown) run

utflen-encoded :
    (xs : List ℕ) → All IsCode xs → utflen (encoded xs) none none true ≡ ok (characters (length xs))
unfolding utflen
utflen-encoded xs h =
    let len = length (encoded xs) in
    let within : leb len len ≡ true = ground arith in
    let start : leb 0 len ≡ true = ground arith in
    let some_bytes = encoded-length xs h in
    let run = utflen_loop-encoded (suc len) 0 len 0 [] xs h (omega arith) refl refl in
    rw (first, last, within, start)
      (ap (λ (n : Len). ok n) (run ∙ ap (λ (m : ℕ). characters m) (omega arith)))

-- utf8.char of code points up to 7FFFFFFF builds a string, of which utf8.codepoint from the first
-- byte to the last, in lax mode, gives the code points back, and utf8.len, in lax mode, their number,
-- where the slots in use on the stack and as many more as the string has bytes do not exceed
-- LUAI_MAXSTACK.
pub codepoint-utfchar :
    (L : LuaStack) (xs : List ℕ)
    → All IsCode xs
    → IsStack L
    → L.used + length (encoded xs) ≤ maxstack
    → (utfchar (map pos xs) ≡ ok (encoded xs))
      × (codepoint L (encoded xs) (some (pos 1)) (some (negsuc 0)) true ≡ ok xs)
      × (utflen (encoded xs) none none true ≡ ok (characters (length xs)))
unfolding utfchar
codepoint-utfchar L xs h is room =
    (utfchar_from-encoded 1 xs h, codepoint-encoded L xs h is room, utflen-encoded xs h)
