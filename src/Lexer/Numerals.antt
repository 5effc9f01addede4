-- ===== src/Lexer/Numerals.antt =====
-- read_numeral of lua/src/llex.c; the conversion is luaO_str2num.
use luava.Base.{ℕ, zero, suc, ◌+◌, false, ◌||◌}
use luava.Base.{Option, some, List, length, if◌then◌else◌}
use luava.Base.Int.{ℤ}
use luava.Chars.{lislalpha, lisxdigit}
use luava.ForLoop.{Floats, Value, int, flt, str2num}
use luava.Lexer.State.{Lex, stuck, ◌>>=◌, ◌>>◌, pure, with_state}
use luava.Lexer.State.{at, holds, save_and_next, check_next2, lexerror}
use luava.Lexer.State.{malformed_number, tk_flt, tk_int}

-- The loop of read_numeral. Each round but the last takes a byte.
unfoldable pub numeral_loop : ℕ → ℕ × ℕ → Lex (Unit {0})
numeral_loop zero expo S = stuck
numeral_loop (suc fuel) expo S =
    let marked : Lex (Unit {0}) = (do sign ← check_next2 b'-' b'+'; numeral_loop fuel expo) in
    let digit : Lex (Unit {0}) = (do save_and_next; numeral_loop fuel expo) in
    let body : Lex (Unit {0}) = (do
      mark ← check_next2 expo.0 expo.1
      with_state (λ S'.
          if mark
          then marked
          else if holds lisxdigit S'.input || at b'.' S'.input
          then digit
          else pure tt)) in
    body S

-- SemInfo: the value of a numeral or a string, or none.
pub data SemInfo (F : Floats) : Type 0 where
  num : F.Float → SemInfo F
  integer : ℤ → SemInfo F
  text : List ℕ → SemInfo F
  empty : SemInfo F

abbrev pub Token : Floats → Type 0
Token F = ℕ × SemInfo F

module _ (F : Floats) where
  -- The end of read_numeral, on what luaO_str2num returns for the buffer.
  unfoldable pub converted : Option (Value F × List ℕ) → Lex (Token F)
  converted (some (int i, s)) = pure (tk_int, integer i)
  converted (some (flt x, s)) = pure (tk_flt, num x)
  converted _ = lexerror malformed_number tk_flt

  unfoldable pub numeral_token : Lex (Token F)
  numeral_token = with_state (λ S. converted (str2num F S.buff))

  unfoldable pub read_numeral : Lex (Token F)
  read_numeral = with_state (λ S. do
    save_and_next
    hex ← (if at b'0' S.input then check_next2 b'x' b'X' else pure false)
    numeral_loop (length S.input + 1) (if hex then (b'P', b'p') else (b'E', b'e'))
    letter ← with_state (λ S'. pure (holds lislalpha S'.input))
    if letter then save_and_next else pure tt
    numeral_token)
