-- ===== src/Utf8/Tests.antt =====
-- Sequences and strings, and the theorems at concrete code points.
use luava.Base.{◌≡◌, refl, arith, true, false, none, some, [], ◌∷◌, ◌++◌, length}
use luava.Base.Int.{pos, negsuc}
use luava.Utf8.{
  utf8esc, esc_loop, utf8_decode, decode_value, cont_loop, add_first, overlong, invalid,
}
use luava.Utf8.Decoding.{utf8_decode-utf8esc}
use luava.Utf8.Library.{
  ok, characters, fail_at, codepoint, utflen, utflen_loop, u_posrelat, utfchar, byteoffset, move,
  move_on, offset_results, leading_conts,
}
use luava.Utf8.Library.Codes.{encoded, codepoint-utfchar}
use luava.Stack.{LuaStack, maxstack}
use luava.Base.{◌+◌, ◌≤◌}

-- The euro sign; an overlong 0; a lone continuation byte.
euro :
    (utf8esc 0x20ac ≡ 0xe2 ∷ 0x82 ∷ 0xac ∷ [])
    × (utf8_decode (0xc0 ∷ 0x80 ∷ []) false ≡ none)
    × (utf8_decode (0x80 ∷ []) false ≡ none)
unfolding utf8esc esc_loop utf8_decode decode_value cont_loop add_first overlong
euro = (refl, refl, refl)

-- utf8.len stops at the second byte, and utf8.offset finds the second character.
positions :
    (utflen (0x61 ∷ 0xff ∷ []) none none false ≡ ok (fail_at 2))
    × (byteoffset (0xc3 ∷ 0xa9 ∷ 0x61 ∷ []) (pos 2) none ≡ ok (some (3, 3)))
unfolding utflen utflen_loop u_posrelat utf8_decode decode_value cont_loop add_first overlong
    invalid byteoffset move move_on offset_results leading_conts
positions = (refl, refl)

-- A surrogate, in strict mode.
utf8_decode-utf8esc_example : utf8_decode (utf8esc 0xd800 ++ (0x61 ∷ [])) true ≡ none
unfolding invalid
utf8_decode-utf8esc_example = utf8_decode-utf8esc 0xd800 true (0x61 ∷ []) (omega arith)

abbrev some_stack : LuaStack
some_stack = record { size = 45; used = 5 }

few_bytes : some_stack.used + length (encoded (0x24 ∷ 0x7fffffff ∷ [])) ≤ maxstack
unfolding encoded utf8esc esc_loop
few_bytes = omega arith

codepoint-utfchar_example :
    (utfchar (pos 0x24 ∷ pos 0x7fffffff ∷ []) ≡ ok (encoded (0x24 ∷ 0x7fffffff ∷ [])))
    × (codepoint some_stack (encoded (0x24 ∷ 0x7fffffff ∷ [])) (some (pos 1)) (some (negsuc 0)) true
        ≡ ok (0x24 ∷ 0x7fffffff ∷ []))
    × (utflen (encoded (0x24 ∷ 0x7fffffff ∷ [])) none none true ≡ ok (characters 2))
codepoint-utfchar_example =
    codepoint-utfchar some_stack (0x24 ∷ 0x7fffffff ∷ []) (omega arith, (omega arith, _))
      (record { some_used = omega arith; within = omega arith; limited = omega arith }) few_bytes
