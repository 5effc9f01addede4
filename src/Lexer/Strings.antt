-- ===== src/Lexer/Strings.antt =====
-- Strings and long brackets of lua/src/llex.c: skip_sep, read_long_string, gethexa, readhexaesc,
-- readutf8esc, utf8esc, readdecesc and read_string.
use luava.Base.{ℕ, zero, suc, ◌+◌, ◌-◌, ◌*◌, ◌/◌, ◌%◌, ◌^◌, Bool, ◌||◌, leb, ◌==◌}
use luava.Base.{Option, none, some, List, [], ◌∷◌, length, take, drop, if◌then◌else◌}
use luava.Chars.{lisdigit, lisspace, lisxdigit}
use luava.Numeral.{hexavalue}
use luava.Utf8.{utf8esc}
use luava.Lexer.State.{Lex, stuck, ◌>>=◌, ◌>>◌, pure, with_state}
use luava.Lexer.State.{
  at, holds, at_end, current, is_newline, next, save, save_and_next, resetbuffer,
}
use luava.Lexer.State.{buffremove, inclinenumber, esccheck, lexerror, tk_eos, tk_string}
use luava.Lexer.State.{unfinished_long, unfinished_string, hexadecimal_expected, missing_open}
use luava.Lexer.State.{missing_close, utf8_too_large, decimal_too_large, invalid_escape}

-- The loop of skip_sep: the number of '='.
unfoldable pub count_equals : ℕ → ℕ → Lex ℕ
count_equals zero count S = stuck
count_equals (suc fuel) count S =
    let more : Lex ℕ = (do save_and_next; count_equals fuel (count + 1)) in
    let body : Lex ℕ = (if at b'=' S.input then more else pure count) in body S

unfoldable pub skip_sep : Lex ℕ
skip_sep = with_state (λ S. do
  save_and_next
  count ← count_equals (length S.input + 1) 0
  with_state (λ S'.
      pure (if at (current S.input) S'.input then count + 2 else if count == 0 then 1 else 0)))

-- The loop of read_long_string; `keep` is whether there is a SemInfo.
unfoldable pub long_loop : ℕ → Bool → ℕ → ℕ → Lex (Unit {0})
long_loop zero keep line sep S = stuck
long_loop (suc fuel) keep line sep S =
    let again = long_loop fuel keep line sep in
    let bracket : Lex (Unit {0}) = (do
      sep' ← skip_sep
      if sep' == sep then save_and_next else again) in
    let break : Lex (Unit {0}) = (do
      save 10
      inclinenumber
      if keep then pure tt else resetbuffer
      again) in
    let other : Lex (Unit {0}) = (do if keep then save_and_next else next; again) in
    let body : Lex (Unit {0}) =
      (if at_end S.input
        then lexerror (unfinished_long keep line) tk_eos
        else if at b']' S.input
        then bracket
        else if holds is_newline S.input
        then break
        else other) in
    body S

-- read_long_string: the string, which is empty for a comment.
unfoldable pub read_long_string : Bool → ℕ → Lex (List ℕ)
read_long_string keep sep = with_state (λ S. do
  save_and_next
  with_state (λ S'. if holds is_newline S'.input then inclinenumber else pure tt)
  long_loop (length S.input + 1) keep S.linenumber sep
  with_state (λ S'. pure (if keep then take (length S'.buff - 2 * sep) (drop sep S'.buff) else [])))

unfoldable pub gethexa : Lex ℕ
gethexa = do
  save_and_next
  with_state (λ S. do
    esccheck (holds lisxdigit S.input) hexadecimal_expected
    pure (hexavalue (current S.input)))

unfoldable pub readhexaesc : Lex ℕ
readhexaesc = do high ← gethexa; low ← gethexa; buffremove 2; pure (high * 2 ^ 4 + low)

-- The loop of readutf8esc: the value and the number of saved characters.
unfoldable pub utf8_loop : ℕ → ℕ → ℕ → Lex (ℕ × ℕ)
utf8_loop zero r i S = stuck
utf8_loop (suc fuel) r i S =
    let body : Lex (ℕ × ℕ) = (do
      save_and_next
      with_state (λ S'.
          (let more : Lex (ℕ × ℕ) = (do
            esccheck (leb r (0x7fffffff / 2 ^ 4)) utf8_too_large
            utf8_loop fuel ((r * 2 ^ 4 + hexavalue (current S'.input)) % 2 ^ 32) (i + 1)) in
            if holds lisxdigit S'.input then more else pure (r, i)))) in
    body S

unfoldable pub readutf8esc : Lex ℕ
readutf8esc = with_state (λ S. do
  save_and_next
  with_state (λ S'. esccheck (at b'{' S'.input) missing_open)
  first ← gethexa
  value ← utf8_loop (length S.input + 1) first 4
  with_state (λ S'. esccheck (at b'}' S'.input) missing_close)
  next
  buffremove value.1
  pure value.0)

-- Saves the bytes one by one.
unfoldable pub save_all : List ℕ → Lex (Unit {0})
save_all [] = pure tt
save_all (c ∷ s) = do save c; save_all s

-- utf8esc
unfoldable pub utf8_escape : Lex (Unit {0})
utf8_escape = do value ← readutf8esc; save_all (utf8esc value)

-- The loop of readdecesc: `n` digits at most; the value and the number of digits.
unfoldable pub dec_digits : ℕ → ℕ → ℕ → Lex (ℕ × ℕ)
dec_digits zero r i = pure (r, i)
dec_digits (suc n) r i = with_state (λ S.
    (let more : Lex (ℕ × ℕ) = (do
      save_and_next
      dec_digits n (10 * r + current S.input - b'0') (i + 1)) in
      if holds lisdigit S.input then more else pure (r, i)))

unfoldable pub readdecesc : Lex ℕ
readdecesc = do
  read ← dec_digits 3 0 0
  esccheck (leb read.0 255) decimal_too_large
  buffremove read.1
  pure read.0

-- The labels only_save and read_save of read_string.
unfoldable pub only_save : ℕ → Lex (Unit {0})
only_save c = do buffremove 1; save c

unfoldable pub read_save : ℕ → Lex (Unit {0})
read_save c = do next; only_save c

-- The span of spaces behind '\z'.
unfoldable pub zap : ℕ → Lex (Unit {0})
zap zero S = stuck
zap (suc fuel) S =
    let more : Lex (Unit {0}) = (do
      if holds is_newline S.input then inclinenumber else next
      zap fuel) in
    let body : Lex (Unit {0}) = (if holds lisspace S.input then more else pure tt) in body S

-- The character that a letter after '\' stands for.
unfoldable pub simple_escape : ℕ → Option ℕ
simple_escape c =
    if c == b'a'
    then some 7
    else if c == b'b'
    then some 8
    else if c == b'f'
    then some 12
    else if c == b'n'
    then some 10
    else if c == b'r'
    then some 13
    else if c == b't'
    then some 9
    else if c == b'v'
    then some 11
    else none

-- The escape sequences of read_string other than those letters, on the character after '\'.
unfoldable pub other_escape : ℕ → Lex (Unit {0})
other_escape c =
    if c == b'x'
    then (do value ← readhexaesc; read_save value)
    else if c == b'u'
    then utf8_escape
    else if is_newline c
    then (do inclinenumber; only_save 10)
    else if c == b'\\' || (c == b'"' || c == b'\'')
    then read_save c
    else if c == b'z'
    then (do buffremove 1; next; with_state (λ S. zap (length S.input + 1)))
    else (do esccheck (lisdigit c) invalid_escape; value ← readdecesc; only_save value)

unfoldable pub escape : List ℕ → Lex (Unit {0})
escape [] = pure tt
escape (c ∷ s) = elim (simple_escape c) [ some d ↦ read_save d | none ↦ other_escape c ]

-- A round of the loop of read_string, on a character that is not the delimiter.
unfoldable pub string_round : ℕ → Lex (Unit {0})
string_round c =
    if is_newline c
    then lexerror unfinished_string tk_string
    else if c == b'\\'
    then (do save_and_next; with_state (λ S. escape S.input))
    else save_and_next

unfoldable pub string_loop : ℕ → ℕ → Lex (Unit {0})
string_loop zero del S = stuck
string_loop (suc fuel) del S =
    let more : Lex (Unit {0}) = (do string_round (current S.input); string_loop fuel del) in
    let body : Lex (Unit {0}) =
      (if at_end S.input
        then lexerror unfinished_string tk_eos
        else if at del S.input
        then pure tt
        else more) in
    body S

-- read_string
unfoldable pub read_string : ℕ → Lex (List ℕ)
read_string del = with_state (λ S. do
  save_and_next
  string_loop (length S.input + 1) del
  save_and_next
  with_state (λ S'. pure (take (length S'.buff - 2) (drop 1 S'.buff))))
