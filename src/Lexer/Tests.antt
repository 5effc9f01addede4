-- ===== src/Lexer/Tests.antt =====
-- Runs of the scanner of lua/src/llex.c.
use luava.Base.{ℕ, ◌+◌, ◌<◌, ◌≡◌, refl, arith, List, [], ◌∷◌, ◌++◌, length, none, some}
use luava.Base.{◌⊎◌, ◌==◌, ◌||◌, ltb}
use luava.Base.Int.{pos}
use luava.Base.Word.{cast_u2s}
use luava.Chars.{entry_at}
use luava.Dump.{str_eq}
use luava.ForLoop.{Floats, str2num}
use luava.Numeral.{hexavalue, str2int, skip_spaces, isneg, is_hex, dec_loop, finish}
use luava.Utf8.{utf8esc, esc_loop}
use luava.Lexer.State.{
  LexState, LexError, ok, err, next, save, save_and_next, resetbuffer, buffremove, after_newline,
}
use luava.Lexer.State.{
  inclinenumber, check_next1, check_next2, esccheck, with_state, tk_eos, tk_name,
}
use luava.Lexer.State.{tk_int}
use luava.Lexer.Numerals.{
  Token, text, empty, integer, numeral_loop, converted, numeral_token, read_numeral,
}
use luava.Lexer.Strings.{
  count_equals, skip_sep, long_loop, read_long_string, gethexa, readhexaesc, utf8_loop,
}
use luava.Lexer.Strings.{readutf8esc, save_all, utf8_escape, only_save, read_save, zap}
use luava.Lexer.Strings.{
  simple_escape, other_escape, escape, string_round, string_loop, read_string,
}
use luava.Lexer.Scan.{index_of, extra, glbn, comment, name_loop, either, either_of_two, symbol}
use luava.Lexer.Scan.{named, read_name, read_token, llex_loop, llex}
use luava.Lexer.Ending.Progress.{llex-advances}
use luava.Lexer.Quoted.{state}
use luava.Lexer.Quoted.RoundTrip.{read_string-addquoted}
use luava.Lexer.Words.{IsWordToken, llex-word}
use luava.Strings.Quoting.{addquoted, quote_bytes, quote_byte, decimal, padded}

-- Numbers without floats.
abbrev integers : Floats
integers = record {
  Float = ℕ;
  zero_float = 0;
  floor = λ x. x;
  eq = λ x y. x == y;
  lt = λ x y. ltb x y;
  le = λ x y. ltb x y || x == y;
  add = λ x y. x + y;
  one = 1;
  of_integer = λ i. 0;
  number_to_integer = λ x. some (pos x);
  str2d = λ s. none;
}

-- --[==[ ... ]==] x
abbrev commented : List ℕ
commented = b'-' ∷ b'-' ∷ b'[' ∷ b'=' ∷ b'[' ∷ b']' ∷ 10 ∷ b']' ∷ b'=' ∷ b']' ∷ b' ' ∷ b'x' ∷ []

skips_comment :
    llex integers (state commented 1 []) ≡ ok ((tk_name, text (b'x' ∷ [])), state [] 2 (b'x' ∷ []))
unfolding llex resetbuffer with_state llex_loop next comment skip_sep save_and_next count_equals
    read_long_string long_loop save inclinenumber after_newline read_token read_name name_loop named
    index_of extra str_eq entry_at
skips_comment = refl

-- "\x41\u{20AC}\z  b"
abbrev escapes : List ℕ
escapes =
    b'"' ∷ b'\\' ∷ b'x' ∷ b'4' ∷ b'1' ∷ b'\\' ∷ b'u' ∷ b'{' ∷ b'2' ∷ b'0' ∷ b'A' ∷ b'C' ∷ b'}'
    ∷ b'\\' ∷ b'z' ∷ b' ' ∷ 10 ∷ b'b' ∷ b'"' ∷ []

reads_escapes :
    read_string b'"' (state escapes 1 [])
    ≡ ok (
      0x41 ∷ 0xe2 ∷ 0x82 ∷ 0xac ∷ b'b' ∷ [],
      state [] 2 (b'"' ∷ 0x41 ∷ 0xe2 ∷ 0x82 ∷ 0xac ∷ b'b' ∷ b'"' ∷ []),
    )
unfolding read_string with_state save_and_next string_loop string_round escape simple_escape
    other_escape readhexaesc gethexa esccheck hexavalue read_save only_save buffremove save next
    utf8_escape readutf8esc utf8_loop save_all utf8esc esc_loop zap inclinenumber after_newline
    entry_at
reads_escapes = refl

-- 12..  is malformed, 12 .. is not
reads_numeral :
    llex integers (state (b'1' ∷ b'2' ∷ b' ' ∷ []) 1 [])
    ≡ ok ((tk_int, integer (pos 12)), state (b' ' ∷ []) 1 (b'1' ∷ b'2' ∷ []))
unfolding llex resetbuffer with_state llex_loop read_token read_numeral numeral_loop numeral_token
    save_and_next check_next2 converted str2num str2int skip_spaces isneg is_hex dec_loop finish
    cast_u2s entry_at
reads_numeral = refl

-- <<= is << and =
reads_shift :
    llex integers (state (b'<' ∷ b'<' ∷ b'=' ∷ []) 1 [])
    ≡ ok ((256 + 30, empty), state (b'=' ∷ []) 1 [])
unfolding llex resetbuffer with_state llex_loop read_token symbol either_of_two either next
    check_next1
reads_shift = refl

llex-advances_example :
    ((e : LexError) × (llex integers (state commented 1 []) ≡ err e))
    ⊎ ((t : Token integers) × (T : LexState) × (llex integers (state commented 1 []) ≡ ok (t, T))
        × ((t.0 ≡ tk_eos) ⊎ (length T.input < 12)))
llex-advances_example = llex-advances integers (state commented 1 [])

read_string-addquoted_example :
    read_string b'"'
      (state (addquoted (λ c. ltb c 32) (b'a' ∷ 10 ∷ 13 ∷ b'7' ∷ 0 ∷ b'"' ∷ []) ++ b')' ∷ []) 4 [])
    ≡ ok (
      b'a' ∷ 10 ∷ 13 ∷ b'7' ∷ 0 ∷ b'"' ∷ [],
      state (b')' ∷ []) 5 (b'"' ∷ b'a' ∷ 10 ∷ 13 ∷ b'7' ∷ 0 ∷ b'"' ∷ b'"' ∷ []),
    )
read_string-addquoted_example =
    read_string-addquoted (λ c. ltb c 32) refl (b'a' ∷ 10 ∷ 13 ∷ b'7' ∷ 0 ∷ b'"' ∷ []) (b')' ∷ []) 4
      (omega arith) (omega arith)

writes_quoted :
    addquoted (λ c. ltb c 32) (13 ∷ b'7' ∷ 0 ∷ b'"' ∷ [])
    ≡ b'"' ∷ b'\\' ∷ b'0' ∷ b'1' ∷ b'3' ∷ b'7' ∷ b'\\' ∷ b'0' ∷ b'\\' ∷ b'"' ∷ b'"' ∷ []
unfolding addquoted quote_bytes quote_byte decimal padded
writes_quoted = refl

-- "global" is a name.
global_run :
    llex integers (state (b'g' ∷ b'l' ∷ b'o' ∷ b'b' ∷ b'a' ∷ b'l' ∷ []) 1 [])
    ≡ ok ((tk_name, text glbn), state [] 1 glbn)
unfolding llex resetbuffer with_state llex_loop next save_and_next save read_token read_name
    name_loop named index_of extra str_eq entry_at
global_run = refl

llex-word_example :
    (t : Token integers) × (llex integers
        (state (b'e' ∷ ((b'l' ∷ b's' ∷ b'e' ∷ []) ++ b' ' ∷ [])) 7 [])
      ≡ ok (t, state (b' ' ∷ []) 7 (b'e' ∷ b'l' ∷ b's' ∷ b'e' ∷ [])))
    × IsWordToken integers (b'e' ∷ b'l' ∷ b's' ∷ b'e' ∷ []) t
unfolding entry_at
llex-word_example =
    llex-word integers b'e' (b'l' ∷ b's' ∷ b'e' ∷ []) (b' ' ∷ []) 7 [] refl
      (refl, (refl, (refl, tt))) refl
