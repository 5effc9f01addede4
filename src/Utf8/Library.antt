-- ===== src/Utf8/Library.antt =====
-- The functions of lua/src/lutf8lib.c on a string and their arguments: u_posrelat, utflen,
-- codepoint, utfchar, byteoffset, iter_aux and iter_codes. An absent optional argument is `none`.
-- `stack_overflow` is the error of luaL_checkstack.
pub mod Codes
use luava.Base.{ℕ, zero, suc, ◌+◌, ◌-◌, ◌*◌, ◌%◌, ◌^◌, bit_and}
use luava.Base.{
  Bool, true, false, not, ◌&&◌, ◌||◌, ltb, leb, ◌==◌, Option, none, some, if◌then◌else◌,
}
use luava.Base.{List, [], ◌∷◌, ◌++◌, length, drop, get_or}
use luava.Base.Int.{ℤ, pos, negsuc}
use luava.Base.Word.{cast_s2u}
use luava.Proto.{int_max}
use luava.Stack.{LuaStack, lua_checkstack}
use luava.Utf8.{char_at, iscont, maxutf, utf8esc, utf8_decode}

-- The messages; `out_of_bounds` and `value_out_of_range` carry the number of the argument.
pub data Utf8Error : Type 0 where
  initial_position final_position position_out_of_bounds : Utf8Error
  out_of_bounds value_out_of_range : ℕ → Utf8Error
  slice_too_long stack_overflow invalid_code is_continuation : Utf8Error

pub data Outcome (A : Type 0) : Type 0 where
  ok : A → Outcome A
  err : Utf8Error → Outcome A

-- u_posrelat
unfoldable pub u_posrelat : ℤ → ℕ → ℕ
u_posrelat (pos n) len = n
u_posrelat (negsuc n) len = if ltb len (n + 1) then 0 else len - n

-- luaL_optinteger
abbrev pub opt_integer : Option ℤ → ℤ → ℤ
opt_integer none d = d
opt_integer (some i) d = i

-- The results of utf8.len.
pub data Len : Type 0 where
  characters : ℕ → Len
  fail_at : ℕ → Len

-- One round of utflen: what the rest of the loop gives at the next position, or the failure here.
abbrev pub count_one : List ℕ → ℕ → Option (ℕ × List ℕ) → (ℕ → Len) → Len
count_one s posi none rest = fail_at (posi + 1)
count_one s posi (some p) rest = rest (length s - length p.1)

-- The loop of utflen, with `posj` one higher than in C, where it may be -1 there. Each round moves
-- on by a byte at least, so the length of the string is enough fuel.
unfoldable pub utflen_loop : ℕ → List ℕ → ℕ → ℕ → Bool → ℕ → Len
utflen_loop zero s posi posj strict n = characters n
utflen_loop (suc fuel) s posi posj strict n =
    if ltb posi posj
    then count_one s posi (utf8_decode (drop posi s) strict)
        (λ posi'. utflen_loop fuel s posi' posj strict (n + 1))
    else characters n

-- utflen
unfoldable pub utflen : List ℕ → Option ℤ → Option ℤ → Bool → Outcome Len
utflen s i j lax =
    let len = length s in
    let posi = u_posrelat (opt_integer i (pos 1)) len in
    let posj = u_posrelat (opt_integer j (negsuc 0)) len in
    if not (leb 1 posi && leb (posi - 1) len)
    then err initial_position
    else if not (leb posj len)
    then err final_position
    else ok (utflen_loop (suc len) s (posi - 1) posj (not lax) 0)

abbrev pub push : ℕ → Outcome (List ℕ) → Outcome (List ℕ)
push c (ok cs) = ok (c ∷ cs)
push c (err e) = err e

-- One round of codepoint: the code, and those of the rest of the loop from the next position.
abbrev pub push_one : List ℕ → Option (ℕ × List ℕ) → (ℕ → Outcome (List ℕ)) → Outcome (List ℕ)
push_one s none rest = err invalid_code
push_one s (some p) rest = push p.0 (rest (length s - length p.1))

-- The loop of codepoint, from position `at` to `se`.
unfoldable pub codepoint_loop : ℕ → List ℕ → ℕ → ℕ → Bool → Outcome (List ℕ)
codepoint_loop zero s at se strict = ok []
codepoint_loop (suc fuel) s at se strict =
    if ltb at se
    then push_one s (utf8_decode (drop at s) strict) (λ at'. codepoint_loop fuel s at' se strict)
    else ok []

-- codepoint, on the stack `L` with its arguments.
unfoldable pub codepoint : LuaStack → List ℕ → Option ℤ → Option ℤ → Bool → Outcome (List ℕ)
codepoint L s i j lax =
    let len = length s in
    let posi = u_posrelat (opt_integer i (pos 1)) len in
    let pose = u_posrelat (opt_integer j (pos posi)) len in
    if not (leb 1 posi)
    then err (out_of_bounds 2)
    else if not (leb pose len)
    then err (out_of_bounds 3)
    else if ltb pose posi
    then ok []
    else if leb int_max (pose - posi)
    then err slice_too_long
    else if not (lua_checkstack L (pose - posi + 1)).0
    then err stack_overflow
    else codepoint_loop (suc len) s (posi - 1) pose (not lax)

-- pushutfchar on argument number `arg`, and utfchar.
unfoldable pub pushutfchar : ℤ → ℕ → Outcome (List ℕ)
pushutfchar code arg =
    if leb (cast_s2u code) maxutf
    then ok (utf8esc (cast_s2u code))
    else err (value_out_of_range arg)

abbrev pub add_value : Outcome (List ℕ) → Outcome (List ℕ) → Outcome (List ℕ)
add_value (ok b) (ok rest) = ok (b ++ rest)
add_value (ok b) (err e) = err e
add_value (err e) rest = err e

unfoldable pub utfchar_from : ℕ → List ℤ → Outcome (List ℕ)
utfchar_from arg [] = ok []
utfchar_from arg (code ∷ codes) = add_value (pushutfchar code arg) (utfchar_from (arg + 1) codes)

unfoldable pub utfchar : List ℤ → Outcome (List ℕ)
utfchar codes = utfchar_from 1 codes

-- iscontp(s + posi); the final '\0' is no continuation byte.
abbrev pub iscontp : List ℕ → ℕ → Bool
iscontp s posi = iscont (get_or s posi 0)

-- while (posi > 0 && iscontp(s + posi)) posi--;
unfoldable pub back_to_start : List ℕ → ℕ → ℕ
back_to_start s zero = 0
back_to_start s (suc p) =
    let before = back_to_start s p in if iscontp s (suc p) then before else suc p

-- The number of continuation bytes that a string starts with.
unfoldable pub leading_conts : List ℕ → ℕ
leading_conts [] = 0
leading_conts (c ∷ s) = let rest = leading_conts s in if iscont c then suc rest else 0

-- The loops of byteoffset: `k` characters back, or on. The characters that are missing, and `posi`.
unfoldable pub move_back : List ℕ → ℕ → ℕ → ℕ × ℕ
move_back s zero posi = (0, posi)
move_back s (suc k) zero = (suc k, 0)
move_back s (suc k) (suc p) = move_back s k (back_to_start s p)

unfoldable pub move_on : List ℕ → ℕ → ℕ → ℕ × ℕ
move_on s zero posi = (0, posi)
move_on s (suc k) posi =
    let rest = move_on s k (posi + 1 + leading_conts (drop (posi + 1) s)) in
    if ltb posi (length s) then rest else (suc k, posi)

-- byteoffset from `posi` on, once the position is checked.
unfoldable pub move : List ℕ → ℤ → ℕ → Outcome (ℕ × ℕ)
move s (pos zero) posi = ok (0, back_to_start s posi)
move s (pos (suc n)) posi = if iscontp s posi then err is_continuation else ok (move_on s n posi)
move s (negsuc n) posi =
    if iscontp s posi then err is_continuation else ok (move_back s (suc n) posi)

-- The results of utf8.offset: `none` is a fail, otherwise the first and the last byte.
unfoldable pub offset_results : List ℕ → ℕ × ℕ → Outcome (Option (ℕ × ℕ))
offset_results s (missing, posi) =
    if not (missing == 0)
    then ok none
    else if bit_and (get_or s posi 0) 0x80 == 0
    then ok (some (posi + 1, posi + 1))
    else if iscontp s posi
    then err is_continuation
    else ok (some (posi + 1, posi + leading_conts (drop (posi + 1) s) + 1))

abbrev pub after_move : List ℕ → Outcome (ℕ × ℕ) → Outcome (Option (ℕ × ℕ))
after_move s (err e) = err e
after_move s (ok p) = offset_results s p

-- byteoffset
unfoldable pub byteoffset : List ℕ → ℤ → Option ℤ → Outcome (Option (ℕ × ℕ))
byteoffset s n i =
    let len = length s in
    let d : ℤ = elim n [ pos k ↦ pos 1 | negsuc k ↦ pos (len + 1) ] in
    let posi = u_posrelat (opt_integer i d) len in
    if not (leb 1 posi && leb (posi - 1) len)
    then err position_out_of_bounds
    else after_move s (move s n (posi - 1))

-- iter_aux: the position and the code of the next character, or `none` at the end.
unfoldable pub iter_aux : List ℕ → ℤ → Bool → Outcome (Option (ℕ × ℕ))
iter_aux s k strict =
    let len = length s in
    let n = cast_s2u k in
    let n' = if ltb n len then n + leading_conts (drop n s) else n in
    if leb len n' then ok none else elim (utf8_decode (drop n' s) strict) [
      | none ↦ err invalid_code
      | some p ↦ if iscont (char_at p.1) then err invalid_code else ok (some (n' + 1, p.0))
    ]

-- iter_codes: the state that the iteration starts from.
unfoldable pub iter_codes : List ℕ → Outcome ℤ
iter_codes s = if iscontp s 0 then err invalid_code else ok (pos 0)
