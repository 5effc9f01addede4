-- ===== src/Lexer/Ending/Tokens.antt =====
-- The cases of llex in lua/src/llex.c end, and each that returns a token takes a byte at least.
use luava.Base.{ℕ, zero, suc, ◌+◌, ◌-◌, ◌≤◌, ◌<◌, ◌≡◌, arith, true, ◌||◌}
use luava.Base.{Option, none, some, List, [], ◌∷◌, length, leb, ◌==◌, inl, inr}
use luava.Chars.{lislalpha, lislalnum, lisdigit, lisxdigit}
use luava.ForLoop.{Floats, Value, int, flt, str, other, str2num}
use luava.Lexer.State.{Lex, ◌>>◌, pure, with_state, at, holds}
use luava.Lexer.State.{next}
use luava.Lexer.State.{check_next2, invalid_long_delimiter, malformed_number}
use luava.Lexer.State.{tk_flt, tk_string}
use luava.Lexer.Numerals.{numeral_loop, converted, numeral_token, read_numeral}
use luava.Lexer.Scan.{tk, extra, to_line_end, short_comment, comment, name_loop, either}
use luava.Lexer.Scan.{either_of_two, symbol, named, read_name, long_bracket, dots, read_token}
use luava.Lexer.Ending.{
  Ends, Takes, Leaves-round, Leaves-test, Leaves-take, Takes-if, Takes-bind, Ends-if, ends,
}
use luava.Lexer.Ending.{Takes-next, Takes-save_and_next, Takes-Ends, Ends-bind, Ends-pure}
use luava.Lexer.Ending.{Ends-with, Ends-error, Ends-save_and_next}
use luava.Lexer.Ending.{
  Ends-check_next1, Ends-check_next2, holds-nonempty, check_next2-cases, Leaves-known,
  Leaves-weaken,
}
use luava.Lexer.Ending.Strings.{
  skip_sep-Ends, skip_sep-Takes, read_long_string-Ends, read_string-Takes,
}

length-to_line_end : (s : List ℕ) → length (to_line_end s) ≤ length s
unfolding to_line_end
length-to_line_end [] = omega arith
length-to_line_end (c ∷ s) = ground (arith, length-to_line_end s)

short_comment-Ends : {n : ℕ} → Ends n short_comment
unfolding short_comment
short_comment-Ends = record { runs = λ S h. length-to_line_end S.input }

pub comment-Ends : {n : ℕ} → Ends n comment
unfolding comment
comment-Ends = search (ends, skip_sep-Ends, short_comment-Ends, read_long_string-Ends) depth 10

name_loop-Ends : (fuel n : ℕ) → n < fuel → Ends n (name_loop fuel)
unfolding name_loop
name_loop-Ends zero n h = absurd (omega arith)
name_loop-Ends (suc fuel) n h = record {
  runs = λ S le.
      Leaves-test (holds lislalnum S.input) _ _ S
        (λ hit.
          let one = holds-nonempty (λ c. lislalnum c) S.input hit in
          Leaves-round Takes-save_and_next (λ _. name_loop-Ends fuel (n - 1) (omega arith)) S one
            le)
        (λ miss. omega arith);
}

either-Ends : {n : ℕ} (c t u : ℕ) → Ends n (either c t u)
unfolding either
either-Ends c t u = search ends

either_of_two-Ends : {n : ℕ} (c t d u o : ℕ) → Ends n (either_of_two c t d u o)
unfolding either_of_two
either_of_two-Ends c t d u o = search (ends, either-Ends)

-- Each round of the loop of read_numeral takes a byte at least.
numeral_loop-Ends : (fuel : ℕ) (expo : ℕ × ℕ) (n : ℕ) → n < fuel → Ends n (numeral_loop fuel expo)
unfolding numeral_loop with_state
numeral_loop-Ends zero expo n h = absurd (omega arith)
numeral_loop-Ends (suc fuel) expo n h = record {
  runs = λ S le. elim (check_next2-cases expo.0 expo.1 S) [
    | inl (T, e, shorter) ↦ Leaves-known (length S.input) (check_next2 expo.0 expo.1) _ S e (
        Leaves-weaken (length T.input) (length S.input) _ (omega arith) (
          (Ends-bind (Ends-check_next2 b'-' b'+')
              (λ _. numeral_loop-Ends fuel expo (n - 1) (omega arith))).runs
            T (omega arith)))
    | inr e ↦ Leaves-known (length S.input) (check_next2 expo.0 expo.1) _ S e (
        Leaves-test (holds lisxdigit S.input || at b'.' S.input) _ _ S
          (λ hit.
            let one = digit-nonempty S.input hit in
            Leaves-round Takes-save_and_next
              (λ _. numeral_loop-Ends fuel expo (n - 1) (omega arith)) S one le)
          (λ over. omega arith))
  ];
}
  where
    digit-nonempty : (s : List ℕ) → (holds lisxdigit s || at b'.' s) ≡ true → 1 ≤ length s
    digit-nonempty [] h = absurd (cc)
    digit-nonempty (c ∷ s) h = omega arith

module _ (F : Floats) where
  converted-Ends : {n : ℕ} (o : Option (Value F × List ℕ)) → Ends n (converted F o)
  unfolding converted
  converted-Ends none = Ends-error malformed_number tk_flt
  converted-Ends (some (int i, s)) = Ends-pure
  converted-Ends (some (flt x, s)) = Ends-pure
  converted-Ends (some (str t, s)) = Ends-error malformed_number tk_flt
  converted-Ends (some (other, s)) = Ends-error malformed_number tk_flt

  numeral_token-Ends : {n : ℕ} → Ends n (numeral_token F)
  unfolding numeral_token
  numeral_token-Ends = Ends-with λ S. converted-Ends (str2num F S.buff)

  final_letter-Ends : {n : ℕ} → Ends n (with_state (λ S. pure (holds lislalpha S.input)))
  final_letter-Ends = Ends-with λ S. Ends-pure

  read_numeral-Takes : Takes (read_numeral F)
  unfolding read_numeral with_state
  read_numeral-Takes = record {
    runs = λ S. Leaves-take Takes-save_and_next S (λ _.
        Ends-bind (Ends-if (at b'0' S.input) (Ends-check_next2 b'x' b'X') Ends-pure) (λ hex.
          Ends-bind (numeral_loop-Ends (length S.input + 1) _ (length S.input - 1) (omega arith))
            (λ _. Ends-bind (unfold with_state in final_letter-Ends) (λ letter.
              Ends-bind (Ends-if letter Ends-save_and_next Ends-pure) (λ _. numeral_token-Ends)))));
  }

  read_numeral-Ends : {n : ℕ} → Ends n (read_numeral F)
  read_numeral-Ends = Takes-Ends read_numeral-Takes

  symbol-Ends : {n : ℕ} {l : Lex ℕ} → Ends n l → Ends n (symbol F l)
  unfolding symbol
  symbol-Ends p = Ends-bind p (λ token. Ends-pure)

  named-Ends : {n : ℕ} (o : Option ℕ) (s : List ℕ) → Ends n (named F o s)
  unfolding named
  named-Ends (some i) s = Ends-pure
  named-Ends none s = Ends-pure

  name_token-Ends : {n : ℕ} → Ends n (with_state (λ S. named F (extra S.buff) S.buff))
  name_token-Ends = Ends-with λ S. named-Ends (extra S.buff) S.buff

  read_name-Takes : Takes (read_name F)
  unfolding read_name with_state
  read_name-Takes = record {
    runs = λ S. Leaves-take Takes-save_and_next S (λ _.
        Ends-bind (name_loop-Ends (length S.input + 1) (length S.input - 1) (omega arith))
          (λ _. unfold with_state in name_token-Ends));
  }

  long_bracket-Takes : Takes (long_bracket F)
  unfolding long_bracket
  long_bracket-Takes = Takes-bind skip_sep-Takes (λ n sep.
      Ends-if (leb 2 sep) (Ends-bind (read_long_string-Ends true sep) (λ s. Ends-pure))
        (Ends-if (sep == 0) (Ends-error invalid_long_delimiter tk_string) Ends-pure))

  dots-Takes : Takes (dots F)
  unfolding dots
  dots-Takes = Takes-bind Takes-save_and_next (λ n _. Ends-bind (Ends-check_next1 b'.') (λ two.
      Ends-if two (symbol-Ends (either-Ends b'.' (tk 2) (tk 1)))
        (Ends-with λ S. Ends-if (holds lisdigit S.input) read_numeral-Ends Ends-pure)))

  -- The cases of an operator: the first character, then perhaps more.
  operator-Takes : {l : Lex ℕ} → ((n : ℕ) → Ends n l) → Takes (next >> symbol F l)
  operator-Takes p = Takes-bind Takes-next (λ n _. symbol-Ends (p n))

  pub read_token-Takes : (c : ℕ) → Takes (read_token F c)
  unfolding read_token
  read_token-Takes c = Takes-if (c == b'[') long_bracket-Takes (
      Takes-if (c == b'=') (operator-Takes λ n. either-Ends b'=' (tk 3) c) (
        Takes-if (c == b'<') (operator-Takes λ n. either_of_two-Ends b'=' (tk 5) b'<' (tk 7) c) (
          Takes-if (c == b'>') (operator-Takes λ n. either_of_two-Ends b'=' (tk 4) b'>' (tk 8) c) (
            Takes-if (c == b'/') (operator-Takes λ n. either-Ends b'/' (tk 0) c) (
              Takes-if (c == b'~') (operator-Takes λ n. either-Ends b'=' (tk 6) c) (
                Takes-if (c == b':') (operator-Takes λ n. either-Ends b':' (tk 9) c) (
                  Takes-if (c == b'"' || c == b'\'')
                    (Takes-bind (read_string-Takes c) (λ n s. Ends-pure))
                    (Takes-if (c == b'.') dots-Takes (
                      Takes-if (lisdigit c) read_numeral-Takes (
                        Takes-if (lislalpha c) read_name-Takes
                          (Takes-bind Takes-next (λ n _. Ends-pure))))))))))))
