-- ===== src/Lexer/Ending/Strings.antt =====
-- The loops of lua/src/llex.c on strings, long brackets and escape sequences end.
use luava.Base.{ℕ, zero, suc, ◌+◌, ◌-◌, ◌*◌, ◌/◌, ◌%◌, ◌^◌, ◌<◌, refl, arith, ◌++◌, Bool}
use luava.Base.{Option, none, some, List, [], ◌∷◌, length, leb, ◌==◌}
use luava.Chars.{lisdigit, lisspace, lisxdigit}
use luava.Numeral.{hexavalue}
use luava.Utf8.{utf8esc}
use luava.Lexer.State.{with_state, at, holds, at_end, current, is_newline}
use luava.Lexer.State.{save, save_and_next, lexerror}
use luava.Lexer.State.{tk_string, unfinished_string, utf8_too_large, missing_open, missing_close}
use luava.Lexer.Strings.{
  count_equals, skip_sep, long_loop, read_long_string, gethexa, readhexaesc, utf8_loop,
}
use luava.Lexer.Strings.{
  readutf8esc, save_all, utf8_escape, dec_digits, readdecesc, only_save, read_save, zap,
}
use luava.Lexer.Strings.{
  simple_escape, other_escape, escape, string_round, string_loop, read_string,
}
use luava.Lexer.Ending.{
  Ends, Takes, Leaves-round, Leaves-test, Ends-measured, Leaves-take, Leaves-weaken, Leaves-bind,
  Takes-if, Takes-error, Ends-resetbuffer, Ends-next, Ends-buffremove, Ends-save,
  Ends-inclinenumber, ends, Ends-esccheck,
}
use luava.Lexer.Ending.{Takes-next, Takes-save_and_next, Takes-inclinenumber, Ends-bind, Ends-pure}
use luava.Lexer.Ending.{Ends-if, Ends-with, Ends-save_and_next, Takes-Ends}
use luava.Lexer.Ending.{holds-nonempty, at-nonempty, at_end-nonempty}

count_equals-Ends : (fuel count n : ℕ) → n < fuel → Ends n (count_equals fuel count)
unfolding count_equals
count_equals-Ends zero count n h = absurd (omega arith)
count_equals-Ends (suc fuel) count n h = record {
  runs = λ S le.
      Leaves-test (at b'=' S.input) _ _ S
        (λ hit.
          Leaves-round Takes-save_and_next
            (λ _.
              count_equals-Ends fuel (count + 1) (n - 1)
                (omega (arith, at-nonempty b'=' S.input hit)))
            S (at-nonempty b'=' S.input hit) le)
        (λ miss. omega arith);
}

pub skip_sep-Takes : Takes skip_sep
unfolding skip_sep with_state
skip_sep-Takes = record {
  runs = λ S. Leaves-take Takes-save_and_next S (λ _.
      Ends-bind (count_equals-Ends (length S.input + 1) 0 (length S.input - 1) (omega arith))
        (λ count. unfold with_state in Ends-with (λ S'. Ends-pure)));
}

pub skip_sep-Ends : {n : ℕ} → Ends n skip_sep
skip_sep-Ends = Takes-Ends skip_sep-Takes

long_loop-Ends :
    (fuel : ℕ) (keep : Bool) (line sep n : ℕ) → n < fuel → Ends n (long_loop fuel keep line sep)
unfolding long_loop save lexerror
long_loop-Ends zero keep line sep n h = absurd (omega arith)
long_loop-Ends (suc fuel) keep line sep n h = record {
  runs = λ S le.
      Leaves-test (at_end S.input) _ _ S (λ over. tt)
        (λ more.
          let one = at_end-nonempty S.input more in
          let again = long_loop-Ends fuel keep line sep (n - 1) (omega arith) in
          Leaves-test (at b']' S.input) _ _ S
            (λ hit.
              Leaves-round skip_sep-Takes (λ sep'. Ends-if (sep' == sep) Ends-save_and_next again) S
                one le)
            (λ miss.
              Leaves-test (holds is_newline S.input) _ _ S
                (λ break.
                  Leaves-round Takes-inclinenumber
                    (λ _. Ends-bind (Ends-if keep Ends-pure Ends-resetbuffer) (λ _. again))
                    (record S { buff = S.buff ++ 10 ∷ [] }) one le)
                (λ other.
                  Leaves-round (Takes-if keep Takes-save_and_next Takes-next) (λ _. again) S one
                    le)));
}

pub read_long_string-Ends : {n : ℕ} (keep : Bool) (sep : ℕ) → Ends n (read_long_string keep sep)
unfolding read_long_string
read_long_string-Ends keep sep = Ends-measured λ S. Ends-bind Ends-save_and_next (λ _.
    Ends-bind (Ends-with λ S'. Ends-if (holds is_newline S'.input) Ends-inclinenumber Ends-pure)
      (λ _.
        Ends-bind
          (long_loop-Ends (length S.input + 1) keep S.linenumber sep (length S.input) (omega arith))
          (λ _. Ends-with λ S'. Ends-pure)))

gethexa-Ends : {n : ℕ} → Ends n gethexa
unfolding gethexa
gethexa-Ends = search (ends, Ends-esccheck)

readhexaesc-Ends : {n : ℕ} → Ends n readhexaesc
unfolding readhexaesc
readhexaesc-Ends = search (ends, gethexa-Ends)

utf8_loop-Ends : (fuel r i n : ℕ) → n < fuel → Ends n (utf8_loop fuel r i)
unfolding utf8_loop with_state
utf8_loop-Ends zero r i n h = absurd (omega arith)
utf8_loop-Ends (suc fuel) r i n h = record {
  runs = λ S le.
      Leaves-bind (length S.input - 1) (length S.input) (save_and_next S) _ save_and_next S refl
        (Takes-save_and_next.runs S)
        (λ a T k. Leaves-weaken (length T.input) (length S.input) _ (omega arith) (
          Leaves-test (holds lisxdigit T.input) _ _ T
            (λ hit.
              let one = holds-nonempty (λ c. lisxdigit c) T.input hit in
              (Ends-bind (Ends-esccheck (leb r (0x7fffffff / 2 ^ 4)) utf8_too_large) (λ _.
                  utf8_loop-Ends fuel ((r * 2 ^ 4 + hexavalue (current T.input)) % 2 ^ 32) (i + 1)
                    (n - 1) (omega arith))).runs
                T (omega arith))
            (λ miss. omega arith)));
}

save_all-Ends : {n : ℕ} (s : List ℕ) → Ends n (save_all s)
unfolding save_all
save_all-Ends [] = Ends-pure
save_all-Ends (c ∷ s) = Ends-bind (Ends-save c) (λ _. save_all-Ends s)

dec_digits-Ends : {k : ℕ} (n r i : ℕ) → Ends k (dec_digits n r i)
unfolding dec_digits
dec_digits-Ends zero r i = Ends-pure
dec_digits-Ends (suc n) r i = Ends-with λ S.
    Ends-if (holds lisdigit S.input)
      (Ends-bind Ends-save_and_next
        (λ _. dec_digits-Ends n (10 * r + current S.input - b'0') (i + 1)))
      Ends-pure

readdecesc-Ends : {n : ℕ} → Ends n readdecesc
unfolding readdecesc
readdecesc-Ends = search (ends, dec_digits-Ends, Ends-esccheck)

only_save-Ends : {n : ℕ} (c : ℕ) → Ends n (only_save c)
unfolding only_save
only_save-Ends c = search ends

read_save-Ends : {n : ℕ} (c : ℕ) → Ends n (read_save c)
unfolding read_save
read_save-Ends c = search (ends, only_save-Ends)

zap-Ends : (fuel n : ℕ) → n < fuel → Ends n (zap fuel)
unfolding zap
zap-Ends zero n h = absurd (omega arith)
zap-Ends (suc fuel) n h = record {
  runs = λ S le.
      Leaves-test (holds lisspace S.input) _ _ S
        (λ hit.
          let one = holds-nonempty (λ c. lisspace c) S.input hit in
          Leaves-round (Takes-if (holds is_newline S.input) Takes-inclinenumber Takes-next)
            (λ _. zap-Ends fuel (n - 1) (omega arith)) S one le)
        (λ miss. omega arith);
}

readutf8esc-Ends : {n : ℕ} → Ends n readutf8esc
unfolding readutf8esc
readutf8esc-Ends = Ends-measured λ S. Ends-bind Ends-save_and_next (λ _.
    Ends-bind (Ends-with λ S'. Ends-esccheck (at b'{' S'.input) missing_open) (λ _.
      Ends-bind gethexa-Ends (λ first.
        Ends-bind (utf8_loop-Ends (length S.input + 1) first 4 (length S.input) (omega arith))
          (λ value. Ends-bind (Ends-with λ S'. Ends-esccheck (at b'}' S'.input) missing_close) (λ _.
            Ends-bind Ends-next (λ _. Ends-bind (Ends-buffremove value.1) (λ _. Ends-pure)))))))

utf8_escape-Ends : {n : ℕ} → Ends n utf8_escape
unfolding utf8_escape
utf8_escape-Ends = Ends-bind readutf8esc-Ends (λ value. save_all-Ends (utf8esc value))

zap_all-Ends : {n : ℕ} → Ends n (with_state (λ S. zap (length S.input + 1)))
zap_all-Ends = Ends-measured λ S. zap-Ends (length S.input + 1) (length S.input) (omega arith)

other_escape-Ends : {n : ℕ} (c : ℕ) → Ends n (other_escape c)
unfolding other_escape
other_escape-Ends c =
    search
      (
        ends, readhexaesc-Ends, read_save-Ends, utf8_escape-Ends, only_save-Ends, zap_all-Ends,
        Ends-esccheck, readdecesc-Ends,
      )
      depth 14

escape-Ends : {n : ℕ} (s : List ℕ) → Ends n (escape s)
unfolding escape
escape-Ends [] = Ends-pure
escape-Ends {n} (c ∷ s) = choice (simple_escape c)
  where
    choice : (o : Option ℕ) → Ends n (elim o [ some d ↦ read_save d | none ↦ other_escape c ])
    choice (some d) = read_save-Ends d
    choice none = other_escape-Ends c

string_round-Takes : (c : ℕ) → Takes (string_round c)
unfolding string_round
string_round-Takes c = Takes-if (is_newline c) (Takes-error unfinished_string tk_string) (
    Takes-if (c == b'\\')
      (record {
        runs = λ S. Leaves-take Takes-save_and_next S (λ _. Ends-with λ S'. escape-Ends S'.input);
      })
      Takes-save_and_next)

string_loop-Ends : (fuel del n : ℕ) → n < fuel → Ends n (string_loop fuel del)
unfolding string_loop lexerror
string_loop-Ends zero del n h = absurd (omega arith)
string_loop-Ends (suc fuel) del n h = record {
  runs = λ S le.
      Leaves-test (at_end S.input) _ _ S (λ over. tt)
        (λ more.
          Leaves-test (at del S.input) _ _ S (λ hit. omega arith)
            (λ miss.
              let one = at_end-nonempty S.input more in
              Leaves-round (string_round-Takes (current S.input))
                (λ _. string_loop-Ends fuel del (n - 1) (omega arith)) S one le));
}

pub read_string-Takes : (del : ℕ) → Takes (read_string del)
unfolding read_string with_state
read_string-Takes del = record {
  runs = λ S. Leaves-take Takes-save_and_next S (λ _.
      Ends-bind (string_loop-Ends (length S.input + 1) del (length S.input - 1) (omega arith))
        (λ _. Ends-bind Ends-save_and_next (λ _. unfold with_state in Ends-with λ S'. Ends-pure)));
}
