-- ===== src/Strings.antt =====
-- The simple functions of the string library, lua/src/lstrlib.c: str_len, posrelatI, getendpos,
-- str_sub, str_reverse, str_lower, str_upper, str_rep, str_byte and str_char, on strings as lists of
-- bytes. An absent optional argument is `none`. `stack_overflow` is the error of luaL_checkstack.
pub mod Slices
pub mod Repetition
pub mod Quoting
mod Tests
use luava.Base.{ℕ, zero, suc, ◌+◌, ◌-◌, ◌*◌, ◌/◌, ◌%◌, ◌^◌}
use luava.Base.{Bool, true, false, not, ◌||◌, ltb, leb, ◌==◌, Option, none, some, if◌then◌else◌}
use luava.Base.{List, [], ◌∷◌, ◌++◌, map, length, take, drop, get_or}
use luava.Base.Int.{ℤ, pos, negsuc}
use luava.Base.Word.{cast_s2u}
use luava.Proto.{int_max, max_size}
use luava.Stack.{LuaStack, lua_checkstack}

-- The messages; `value_out_of_range` carries the number of the argument.
pub data StringError : Type 0 where
  string_too_large slice_too_long stack_overflow : StringError
  value_out_of_range : ℕ → StringError

pub data Outcome (A : Type 0) : Type 0 where
  ok : A → Outcome A
  err : StringError → Outcome A

unfoldable pub str_len : List ℕ → ℕ
str_len s = length s

-- `pos < -len` is `len < n + 1` for the position -(n + 1).
unfoldable pub posrelat_i : ℤ → ℕ → ℕ
posrelat_i (pos zero) len = 1
posrelat_i (pos (suc n)) len = suc n
posrelat_i (negsuc n) len = if ltb len (n + 1) then 1 else len - n

unfoldable pub getendpos : ℤ → ℕ → ℕ
getendpos (pos n) len = if ltb len n then len else n
getendpos (negsuc n) len = if ltb len (n + 1) then 0 else len - n

-- luaL_optinteger
abbrev pub opt_integer : Option ℤ → ℤ → ℤ
opt_integer none d = d
opt_integer (some i) d = i

-- lua_pushlstring(L, s + at, n)
abbrev pub bytes_at : List ℕ → ℕ → ℕ → List ℕ
bytes_at s at n = take n (drop at s)

unfoldable pub str_sub : List ℕ → ℤ → Option ℤ → List ℕ
str_sub s i j =
    let start = posrelat_i i (length s) in
    let end = getendpos (opt_integer j (negsuc 0)) (length s) in
    if leb start end then bytes_at s (start - 1) (end - start + 1) else []

-- The loop of str_reverse over the positions `i` to `l - 1` of the result, `n` of them.
unfoldable pub reverse_loop : List ℕ → ℕ → ℕ → List ℕ
reverse_loop s zero i = []
reverse_loop s (suc n) i = get_or s (length s - i - 1) 0 ∷ reverse_loop s n (i + 1)

unfoldable pub str_reverse : List ℕ → List ℕ
str_reverse s = reverse_loop s (length s) 0

-- `tolower` and `toupper` are those of the C library.
unfoldable pub str_lower : (ℕ → ℕ) → List ℕ → List ℕ
str_lower tolower s = map tolower s

unfoldable pub str_upper : (ℕ → ℕ) → List ℕ → List ℕ
str_upper toupper s = map toupper s

-- The copies of str_rep: `n` with the separator behind them, and a last one.
unfoldable pub copies : ℕ → List ℕ → List ℕ → List ℕ
copies zero s sep = s
copies (suc n) s sep = s ++ ((if ltb 0 (length sep) then sep else []) ++ copies n s sep)

-- The size of the buffer of str_rep, as computed in a size_t.
unfoldable pub totallen : ℕ → ℕ → ℕ → ℕ
totallen n len lsep = (n * (len + lsep) % 2 ^ 64 + 2 ^ 64 - lsep) % 2 ^ 64

-- str_rep: the size of the buffer, and what is written to it.
unfoldable pub str_rep : List ℕ → ℤ → List ℕ → Outcome (ℕ × List ℕ)
str_rep s (negsuc n) sep = ok (0, [])
str_rep s (pos zero) sep = ok (0, [])
str_rep s (pos (suc n)) sep =
    if ltb (max_size - length sep) (length s) || ltb (max_size / suc n) (length s + length sep)
    then err string_too_large
    else ok (totallen (suc n) (length s) (length sep), copies n s sep)

-- str_byte, on the stack `L` with its arguments.
unfoldable pub str_byte : LuaStack → List ℕ → Option ℤ → Option ℤ → Outcome (List ℕ)
str_byte L s i j =
    let pi = opt_integer i (pos 1) in
    let posi = posrelat_i pi (length s) in
    let pose = getendpos (opt_integer j pi) (length s) in
    if ltb pose posi
    then ok []
    else if leb int_max (pose - posi)
    then err slice_too_long
    else if not (lua_checkstack L (pose - posi + 1)).0
    then err stack_overflow
    else ok (bytes_at s (posi - 1) (pose - posi + 1))

abbrev pub push_byte : ℕ → Outcome (List ℕ) → Outcome (List ℕ)
push_byte c (ok s) = ok (c ∷ s)
push_byte c (err e) = err e

-- The loop of str_char from argument `i` on.
unfoldable pub str_char_from : ℕ → List ℤ → Outcome (List ℕ)
str_char_from i [] = ok []
str_char_from i (c ∷ cs) =
    let rest = str_char_from (i + 1) cs in
    if leb (cast_s2u c) 255 then push_byte (cast_s2u c) rest else err (value_out_of_range i)

unfoldable pub str_char : List ℤ → Outcome (List ℕ)
str_char cs = str_char_from 1 cs
