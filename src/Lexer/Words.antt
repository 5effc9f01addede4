-- ===== src/Lexer/Words.antt =====
-- llex of lua/src/llex.c on names and reserved words.
use luava.Base.{ℕ, zero, suc, ◌+◌, ◌<◌, ◌≡◌, refl, sym, ◌∙◌, arith}
use luava.Base.{true, false, ◌||◌, ◌==◌, List, [], ◌∷◌, ◌++◌, append_assoc, append-nil}
use luava.Base.{length, All, length-append}
use luava.Chars.{lislalpha, lislalnum, lisdigit}
use luava.Chars.Classes.{is_alpha, lislalpha_lem, lisdigit_lem}
use luava.ForLoop.{Floats}
use luava.Lexer.State.{LexState, ok, ◌>>=◌, with_state, holds, is_newline}
use luava.Lexer.State.{save_and_next, resetbuffer}
use luava.Lexer.Scan.{
  reserved, index_of, extra, glbn, name_loop, is_blank, named, read_name, read_token, llex_loop,
  llex,
}
use luava.Lexer.Quoted.{state}
use luava.Lexer.State.{first_reserved, tk_name}
use luava.Lexer.Numerals.{text, empty, Token}
use luava.Dump.{str_eq}
use luava.RoundTrip.Strings.{str_eq-eq, str_eq_refl}
use luava.Base.{◌≢◌, ◌⊎◌, inl, inr, Bool-cases, none, some, get_elem?, ap}

-- The loop on a name takes the letters and digits up to the first other byte.
name_loop_lem :
    (fuel : ℕ) (w rest : List ℕ) (n : ℕ) (b : List ℕ)
    → All (λ c. lislalnum c ≡ true) w
    → holds lislalnum rest ≡ false
    → length w < fuel
    → name_loop fuel (state (w ++ rest) n b) ≡ ok (tt, state rest n (b ++ w))
unfolding name_loop save_and_next
name_loop_lem zero w rest n b all stop h = absurd (omega arith)
name_loop_lem (suc fuel) [] rest n b all stop h = rw (stop, append-nil) refl
name_loop_lem (suc fuel) (c ∷ w) rest n b all stop h =
    rw (all.0)
      (name_loop_lem fuel w rest n (b ++ c ∷ []) all.1 stop (omega arith) ∙ rw append_assoc refl)

differs : (s t : List ℕ) → str_eq s t ≡ false → s ≢ t
differs s t h e = let same : str_eq s t ≡ true = rw e (str_eq_refl t) in absurd (cc (same, h))

-- A text is found at its place in the list, or is not in it.
index_of-cases :
    (k : ℕ) (ws : List (List ℕ)) (s : List ℕ)
    → ((i : ℕ) × (index_of k ws s ≡ some (k + i)) × (get_elem? ws i ≡ some s))
      ⊎ ((index_of k ws s ≡ none) × All (λ r. r ≢ s) ws)
unfolding index_of
index_of-cases k [] s = inr (refl, tt)
index_of-cases k (w ∷ ws) s = elim (Bool-cases (str_eq w s)) [
  | inl found ↦
      let here : k + 0 ≡ k = omega arith in
      inl (0, rw (found, here) refl, ap (λ (x : List ℕ). some x) (str_eq-eq w s found))
  | inr other ↦ elim (index_of-cases (k + 1) ws s) [
    | inl (i, found, at) ↦
        let next : k + 1 + i ≡ k + suc i = omega arith in
        inl (suc i, rw (other, found, next) refl, at)
    | inr (none_found, absent) ↦ inr (rw other none_found, (differs w s other, absent))
  ]
]

module _ (F : Floats) where
  read_name_lem :
      (c : ℕ) (w rest : List ℕ) (n : ℕ)
      → All (λ c. lislalnum c ≡ true) w
      → holds lislalnum rest ≡ false
      → read_name F (state (c ∷ (w ++ rest)) n [])
        ≡ named F (extra (c ∷ w)) (c ∷ w) (state rest n (c ∷ w))
  unfolding read_name save_and_next with_state
  read_name_lem c w rest n all stop =
      let e =
        name_loop_lem (suc (length (w ++ rest)) + 1) w rest n (c ∷ []) all stop
          (omega (arith, length-append w rest)) in
      rw (e, ◌>>=◌) refl

  read_token-letter : (c : ℕ) (S : LexState) → lislalpha c ≡ true → read_token F c S ≡ read_name F S
  unfolding read_token
  read_token-letter c S h =
      let alpha : is_alpha c ≡ true = sym (lislalpha_lem c) ∙ h in
      let bracket : (c == b'[') ≡ false = ground arith in
      let equals : (c == b'=') ≡ false = ground arith in
      let less : (c == b'<') ≡ false = ground arith in
      let greater : (c == b'>') ≡ false = ground arith in
      let slash : (c == b'/') ≡ false = ground arith in
      let tilde : (c == b'~') ≡ false = ground arith in
      let colon : (c == b':') ≡ false = ground arith in
      let quotes : (c == b'"' || c == b'\'') ≡ false = ground arith in
      let dot : (c == b'.') ≡ false = ground arith in
      let digit : lisdigit c ≡ false = lisdigit_lem c ∙ ground arith in
      rw (bracket, equals, less, greater, slash, tilde, colon, quotes, dot, digit, h) refl

  llex_loop-letter :
      (fuel c : ℕ) (s : List ℕ) (n : ℕ)
      → lislalpha c ≡ true
      → llex_loop F (suc fuel) (state (c ∷ s) n []) ≡ read_token F c (state (c ∷ s) n [])
  unfolding llex_loop
  llex_loop-letter fuel c s n h =
      let alpha : is_alpha c ≡ true = sym (lislalpha_lem c) ∙ h in
      let line : is_newline c ≡ false = ground arith in
      let blank : is_blank c ≡ false = ground arith in
      let dash : (c == b'-') ≡ false = ground arith in rw (line, blank, dash) refl

  llex-named :
      (c : ℕ) (w rest : List ℕ) (n : ℕ) (b : List ℕ)
      → lislalpha c ≡ true
      → All (λ c. lislalnum c ≡ true) w
      → holds lislalnum rest ≡ false
      → llex F (state (c ∷ (w ++ rest)) n b)
        ≡ named F (extra (c ∷ w)) (c ∷ w) (state rest n (c ∷ w))
  unfolding llex resetbuffer with_state
  llex-named c w rest n b letter all stop =
      let fuel : length (c ∷ (w ++ rest)) + 1 ≡ suc (length (c ∷ (w ++ rest))) = omega arith in
      rw fuel (
        llex_loop-letter (length (c ∷ (w ++ rest))) c (w ++ rest) n letter
        ∙ read_token-letter c (state (c ∷ (w ++ rest)) n []) letter
        ∙ read_name_lem c w rest n all stop)

  -- The token of a word: its place among the reserved words but "global", or else a name.
  abbrev pub IsWordToken : List ℕ → Token F → Type 0
  IsWordToken s t =
      ((i : ℕ) × (get_elem? reserved i ≡ some s) × (s ≢ glbn) × (t ≡ (first_reserved + i, empty)))
      ⊎ (((s ≡ glbn) ⊎ All (λ r. r ≢ s) reserved) × (t ≡ (tk_name, text s)))

  -- On a letter and letters or digits up to another byte or the end, llex returns the token of the
  -- reserved word whose text they are, and for "global" and every other text the name; the input that
  -- is left starts behind them.
  pub llex-word :
      (c : ℕ) (w rest : List ℕ) (n : ℕ) (b : List ℕ)
      → lislalpha c ≡ true
      → All (λ c. lislalnum c ≡ true) w
      → holds lislalnum rest ≡ false
      → (t : Token F) × (llex F (state (c ∷ (w ++ rest)) n b) ≡ ok (t, state rest n (c ∷ w)))
        × IsWordToken (c ∷ w) t
  unfolding named extra
  llex-word c w rest n b letter all stop =
      let s = c ∷ w in
      let read = llex-named c w rest n b letter all stop in
      elim (Bool-cases (str_eq glbn s)) [
        | inl global ↦ (
          (tk_name, text s),
          read ∙ rw global refl,
          inr (inl (sym (str_eq-eq glbn s global)), refl),
        )
        | inr other ↦ elim (index_of-cases 0 reserved s) [
          | inl (i, found, at) ↦
              let zero_more : 0 + i ≡ i = omega arith in
              let apart : s ≢ glbn = λ e. differs glbn s other (sym e) in
              (
                (first_reserved + i, empty),
                read ∙ rw (other, found, zero_more) refl,
                inl (i, at, apart, refl),
              )
          | inr (none_found, absent) ↦
              ((tk_name, text s), read ∙ rw (other, none_found) refl, inr (inr absent, refl))
        ]
      ]
