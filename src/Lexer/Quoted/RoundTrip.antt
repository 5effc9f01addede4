-- ===== src/Lexer/Quoted/RoundTrip.antt =====
-- read_string of lua/src/llex.c reads back the string that addquoted of lua/src/lstrlib.c wrote.
use luava.Base.{ℕ, zero, suc, ◌+◌, ◌-◌, ◌≤◌, ◌<◌, ◌≡◌, refl, ap, ◌∙◌, arith}
use luava.Base.{Bool, true, false, ◌||◌, ◌==◌, List, [], ◌∷◌, ◌++◌, append_assoc, append-nil}
use luava.Base.{length, take, All}
use luava.Base.{length-append, take_exact, Bool-cases, inl, inr}
use luava.Chars.{entry_at}
use luava.Chars.Classes.{lisdigit_lem}
use luava.Proto.{int_max}
use luava.Lexer.State.{ok, ◌>>=◌, with_state, is_newline}
use luava.Lexer.State.{save_and_next}
use luava.Lexer.Strings.{string_round, string_loop, read_string}
use luava.Lexer.Quoted.{state}
use luava.Strings.Quoting.{char_at, quote_byte, quote_bytes, addquoted}
use luava.Lexer.Quoted.Escapes.{
  quote_escape, newline_escape, raw_round, control_round, lines, newlines, Follows,
}

-- One round of the loop of read_string.
loop_round :
    (fuel c : ℕ) (q u : List ℕ) (n n' : ℕ) (b b' : List ℕ)
    → (c == b'"') ≡ false
    → string_round c (state (c ∷ q) n b) ≡ ok (tt, state u n' b')
    → string_loop (suc fuel) b'"' (state (c ∷ q) n b) ≡ string_loop fuel b'"' (state u n' b')
unfolding string_loop
loop_round fuel c q u n n' b b' h e = rw (h, e, ◌>>=◌) refl

module _ (iscntrl : ℕ → Bool) (returns : iscntrl 13 ≡ true) where
  byte_round :
      (fuel c after : ℕ) (u : List ℕ) (n : ℕ) (b : List ℕ)
      → c < 256
      → Follows after u
      → n + lines c < int_max
      → string_loop (suc fuel) b'"' (state (quote_byte iscntrl c after ++ u) n b)
        ≡ string_loop fuel b'"' (state u (n + lines c) (b ++ c ∷ []))
  unfolding quote_byte
  byte_round fuel c after u n b h f lt = elim (Bool-cases (c == b'"')) [
    | inl quote ↦
        let e : c ≡ b'"' = ground arith in
        let same : n + lines c ≡ n = ground arith in
        rw (quote, same)
          (loop_round fuel b'\\' (c ∷ u) u n n b (b ++ c ∷ []) refl (quote_escape c u n b (inl e)))
    | inr q ↦ elim (Bool-cases (c == b'\\')) [
      | inl slash ↦
          let e : c ≡ b'\\' = ground arith in
          let same : n + lines c ≡ n = ground arith in
          rw (q, slash, same)
            (loop_round fuel b'\\' (c ∷ u) u n n b (b ++ c ∷ []) refl
              (quote_escape c u n b (inr e)))
      | inr s ↦ elim (Bool-cases (c == b'\n')) [
        | inl line ↦
            let e : c ≡ 10 = ground arith in
            rw (q, s, line)
              (rw e (
                loop_round fuel b'\\' (10 ∷ u) u n (n + 1) b (b ++ 10 ∷ []) refl
                  (newline_escape u n b f.no_return (ground arith))))
        | inr l ↦
            let same : n + lines c ≡ n = ground arith in
            elim (Bool-cases (iscntrl c)) [
              | inl control ↦
                  rw (q, s, same, l, control)
                    (loop_round fuel b'\\' _ u n n b (b ++ c ∷ []) refl
                      (control_round c after u n b h f))
              | inr raw ↦
                  rw (q, s, same, l, raw)
                    (loop_round fuel c u u n n b (b ++ c ∷ []) q
                      (raw_round c u n b (not_return c l raw) s))
            ]
      ]
    ]
  ]
    where
      not_return : (c : ℕ) → (c == b'\n') ≡ false → iscntrl c ≡ false → is_newline c ≡ false
      not_return c l raw = elim (Bool-cases (c == 13)) [
        | inl e ↦ let is : c ≡ 13 = ground arith in absurd (cc (returns, raw, ap iscntrl is))
        | inr e ↦ rw (l, e) refl
      ]

  -- The byte behind a written one is no carriage return, and a digit only if the string has one there.
  quoted_Follows :
      (s rest : List ℕ)
      → All (λ c. c < 256) s
      → Follows (char_at s) (quote_bytes iscntrl s ++ b'"' ∷ rest)
  unfolding quote_bytes quote_byte entry_at
  quoted_Follows [] rest h = record { no_return = refl; no_digit = λ e. refl }
  quoted_Follows (c ∷ s) rest h = elim (Bool-cases (c == b'"' || (c == b'\\' || c == b'\n'))) [
    | inl special ↦ record { no_return = rw special refl; no_digit = λ e. rw special refl }
    | inr plain ↦ elim (Bool-cases (iscntrl c)) [
      | inl control ↦ record {
        no_return = rw (plain, control) refl;
        no_digit = λ e. rw (plain, control) refl;
      }
      | inr raw ↦ record {
        no_return = rw (plain, raw) (other_than_return c raw);
        no_digit = λ e. rw (plain, raw) (lisdigit_lem c ∙ e);
      }
    ]
  ]
    where
      other_than_return : (c : ℕ) → iscntrl c ≡ false → (c == 13) ≡ false
      other_than_return c raw = elim (Bool-cases (c == 13)) [
        | inl e ↦ let is : c ≡ 13 = ground arith in absurd (cc (returns, raw, ap iscntrl is))
        | inr e ↦ e
      ]

  loop_quoted :
      (fuel : ℕ) (s rest : List ℕ) (n : ℕ) (b : List ℕ)
      → All (λ c. c < 256) s
      → length s < fuel
      → n + newlines s < int_max
      → string_loop fuel b'"' (state (quote_bytes iscntrl s ++ b'"' ∷ rest) n b)
        ≡ ok (tt, state (b'"' ∷ rest) (n + newlines s) (b ++ s))
  unfolding quote_bytes
  loop_quoted zero s rest n b h few lt = absurd (omega arith)
  loop_quoted (suc fuel) [] rest n b h few lt =
      let same : n + 0 ≡ n = omega arith in unfold string_loop in rw (same, append-nil) refl
  loop_quoted (suc fuel) (c ∷ s) rest n b h few lt =
      let u = quote_bytes iscntrl s ++ b'"' ∷ rest in
      let sum : n + lines c + newlines s ≡ n + (lines c + newlines s) = omega arith in
      rw append_assoc (
        byte_round fuel c (char_at s) u n b h.0 (quoted_Follows s rest h.1) (omega arith)
        ∙ loop_quoted fuel s rest (n + lines c) (b ++ c ∷ []) h.1 (omega arith) (omega arith)
        ∙ rw (sum, append_assoc) refl)

  length-quote_byte : (c after : ℕ) → 1 ≤ length (quote_byte iscntrl c after)
  unfolding quote_byte
  length-quote_byte c after = ground arith

  length-quote_bytes : (s : List ℕ) → length s ≤ length (quote_bytes iscntrl s)
  unfolding quote_bytes
  length-quote_bytes [] = omega arith
  length-quote_bytes (c ∷ s) = omega (
    arith,
    length-append (quote_byte iscntrl c (char_at s)) (quote_bytes iscntrl s),
    length-quote_byte c (char_at s),
    length-quote_bytes s,
  )

  -- Where iscntrl holds of the carriage return, and the lines do not reach INT_MAX, read_string on an
  -- empty buffer reads the text that addquoted wrote for a string of bytes as that string, takes no
  -- byte of what follows, and counts the line breaks of the string.
  pub read_string-addquoted :
      (s rest : List ℕ) (n : ℕ)
      → All (λ c. c < 256) s
      → n + newlines s < int_max
      → read_string b'"' (state (addquoted iscntrl s ++ rest) n [])
        ≡ ok (s, state rest (n + newlines s) (b'"' ∷ (s ++ b'"' ∷ [])))
  unfolding read_string addquoted save_and_next with_state
  read_string-addquoted s rest n h lt =
      let whole = quote_bytes iscntrl s ++ b'"' ∷ rest in
      let enough : length s < suc (length whole) + 1 =
        omega (arith, length-append (quote_bytes iscntrl s) (b'"' ∷ rest), length-quote_bytes s) in
      let value : take (suc (length (s ++ b'"' ∷ [])) - 2) (s ++ b'"' ∷ []) ≡ s =
        take_exact (suc (length (s ++ b'"' ∷ [])) - 2) s (b'"' ∷ [])
          (omega (arith, length-append s (b'"' ∷ []))) in
      rw append_assoc (
        rw (loop_quoted (suc (length whole) + 1) s rest n (b'"' ∷ []) h enough lt, ◌>>=◌)
          (rw value refl))
