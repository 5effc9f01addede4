-- ===== src/Lexer/Ending/Progress.antt =====
-- llex of lua/src/llex.c returns on every input, and no token but TK_EOS leaves the input as it was.
use luava.Base.{ℕ, zero, suc, ◌+◌, ◌-◌, ◌≤◌, ◌<◌, ◌≡◌, ◌⊎◌, Bool-cases, inl, inr, refl, arith}
use luava.Base.{Bool, true, false, [], length, ◌==◌, if◌then◌else◌}
use luava.ForLoop.{Floats}
use luava.Lexer.State.{
  Lex, LexState, LexError, Result, ok, err, stuck, ◌>>=◌, ◌>>◌, pure, with_state, at,
}
use luava.Lexer.State.{at_end, current, is_newline, next, resetbuffer, tk_eos}
use luava.Lexer.Numerals.{Token, empty}
use luava.Lexer.Scan.{comment, is_blank, llex_loop, llex}
use luava.Lexer.Ending.{Leaves, Leaves-weaken, Takes, Ends-next, Takes-next, Takes-inclinenumber}
use luava.Lexer.Ending.{at_end-nonempty}
use luava.Lexer.Ending.Tokens.{comment-Ends, read_token-Takes}

module _ (F : Floats) where
  -- What llex returns on an input of `c` bytes: an error, the end, or a token that takes bytes.
  abbrev Advances : ℕ → Result (Token F × LexState) → Type 0
  Advances c (ok p) = (p.0.0 ≡ tk_eos) ⊎ (length p.1.input < c)
  Advances c (err e) = Unit {0}
  Advances c stuck = ⊥

  Advances-weaken :
      (b c : ℕ) (o : Result (Token F × LexState)) → b ≤ c → Advances b o → Advances c o
  Advances-weaken b c (ok p) h (inl e) = inl e
  Advances-weaken b c (ok p) h (inr l) = inr (omega arith)
  Advances-weaken b c (err e) h k = tt
  Advances-weaken b c stuck h k = k

  Advances-bind :
      {A : Type 0} (b c : ℕ) (o : Result (A × LexState)) (f : A → Lex (Token F)) (l : Lex A)
      (S : LexState)
      → l S ≡ o
      → Leaves b o
      → ((a : A) (T : LexState) → length T.input ≤ b → Advances c (f a T))
      → Advances c ((l >>= f) S)
  Advances-bind b c (ok p) f l S e h k = rw (e, ◌>>=◌) (k p.0 p.1 h)
  Advances-bind b c (err x) f l S e h k = rw (e, ◌>>=◌) tt
  Advances-bind b c stuck f l S e h k = absurd h

  Advances-test :
      (t : Bool) (l m : Lex (Token F)) (S : LexState)
      → (t ≡ true → Advances (length S.input) (l S))
      → (t ≡ false → Advances (length S.input) (m S))
      → Advances (length S.input) ((if t then l else m) S)
  Advances-test true l m S p q = p refl
  Advances-test false l m S p q = q refl

  -- A round that takes a byte and goes on.
  Advances-round :
      {A : Type 0} {l : Lex A} (f : A → Lex (Token F)) (S : LexState)
      → 1 ≤ length S.input
      → Takes l
      → ((a : A) (T : LexState)
          → length T.input ≤ length S.input - 1
          → Advances (length S.input) (f a T))
      → Advances (length S.input) ((l >>= f) S)
  Advances-round {l = l} f S one p q =
      Advances-bind (length S.input - 1) (length S.input) (l S) f l S refl (p.runs S) q

  Advances-Takes :
      (c : ℕ) (o : Result (Token F × LexState)) → 1 ≤ c → Leaves (c - 1) o → Advances c o
  Advances-Takes c (ok p) h k = inr (omega arith)
  Advances-Takes c (err e) h k = tt
  Advances-Takes c stuck h k = k

  -- A comment, and the tokens behind it.
  comment-Advances :
      (c : ℕ) (l : Lex (Token F)) (S : LexState)
      → length S.input ≤ c
      → ((T : LexState) → length T.input ≤ c → Advances (suc c) (l T))
      → Advances (suc c) ((next >> (comment >> l)) S)
  comment-Advances c l S le again =
      Advances-bind c (suc c) (next S) (λ _. comment >> l) next S refl
        (Leaves-weaken (length S.input) c (next S) le
          ((Ends-next {n = length S.input}).runs S (omega arith)))
        (λ _ T k.
          Advances-bind c (suc c) (comment T) (λ _. l) comment T refl
            (Leaves-weaken (length T.input) c (comment T) k
              ((comment-Ends {n = length T.input}).runs T (omega arith)))
            (λ _ T' k'. again T' k'))

  -- What follows one '-'.
  after_dash :
      (c : ℕ) (l : Lex (Token F)) (T : LexState)
      → length T.input ≤ c
      → ((U : LexState) → length U.input ≤ c → Advances (suc c) (l U))
      → Advances
          (suc c)
          ((if at b'-' T.input then (next >> (comment >> l)) else pure (b'-', empty)) T)
  after_dash c l T le again = elim (Bool-cases (at b'-' T.input)) [
    | inl two ↦ rw two (comment-Advances c l T le again)
    | inr one ↦ rw one (inr (omega arith))
  ]

  llex_loop-Advances :
      (fuel : ℕ) (S : LexState)
      → length S.input < fuel
      → Advances (length S.input) (llex_loop F fuel S)
  unfolding llex_loop with_state
  llex_loop-Advances zero S h = absurd (omega arith)
  llex_loop-Advances (suc fuel) S h =
      let c = current S.input in
      let again : (T : LexState)
          → 1 ≤ length S.input
          → length T.input ≤ length S.input - 1
          → Advances (length S.input) (llex_loop F fuel T) =
        λ T one k.
          Advances-weaken (length T.input) (length S.input) _ (omega arith)
            (llex_loop-Advances fuel T (omega arith)) in
      Advances-test (at_end S.input) _ _ S (λ over. inl refl)
        (λ more.
          let one = at_end-nonempty S.input more in
          Advances-test (is_newline c) _ _ S
            (λ line. Advances-round _ S one Takes-inclinenumber (λ _ T k. again T one k))
            (λ _.
              Advances-test (is_blank c) _ _ S
                (λ blank. Advances-round _ S one Takes-next (λ _ T k. again T one k))
                (λ _.
                  Advances-test (c == b'-') _ _ S
                    (λ dash. Advances-round _ S one Takes-next (λ _ T k.
                      let whole : length S.input ≡ suc (length S.input - 1) = omega arith in
                      rw whole (
                        after_dash (length S.input - 1) (llex_loop F fuel) T k
                          (λ T' k'. rw (← whole) (again T' one k')))))
                    (λ _. Advances-Takes (length S.input) _ one ((read_token-Takes F c).runs S)))))

  -- On every input llex returns an error or a token. The token is TK_EOS, or the input that is left
  -- is shorter than the input was.
  pub llex-advances :
      (S : LexState)
      → ((e : LexError) × (llex F S ≡ err e))
        ⊎ ((t : Token F) × (T : LexState) × (llex F S ≡ ok (t, T))
            × ((t.0 ≡ tk_eos) ⊎ (length T.input < length S.input)))
  unfolding llex resetbuffer with_state
  llex-advances S =
      let S' : LexState = record S { buff = [] } in
      outcome (llex_loop F (length S.input + 1) S') refl
        (llex_loop-Advances (length S.input + 1) S' (omega arith))
    where
      outcome :
          (o : Result (Token F × LexState))
          → llex F S ≡ o
          → Advances (length S.input) o
          → ((e : LexError) × (llex F S ≡ err e))
            ⊎ ((t : Token F) × (T : LexState) × (llex F S ≡ ok (t, T))
                × ((t.0 ≡ tk_eos) ⊎ (length T.input < length S.input)))
      outcome (ok p) e h = inr (p.0, p.1, e, h)
      outcome (err x) e h = inl (x, e)
      outcome stuck e h = absurd h
