-- ===== src/Lexer/Quoted/Escapes.antt =====
-- A round of read_string in lua/src/llex.c on each kind of text that addquoted writes for one byte.
use luava.Base.{ℕ, ◌+◌, ◌/◌, ◌%◌, ◌≤◌, ◌<◌, ◌≡◌, refl, ◌∙◌, arith}
use luava.Base.{true, false, ◌||◌, ltb, leb, ◌==◌, List, [], ◌∷◌, ◌++◌}
use luava.Base.{none}
use luava.Base.{if◌then◌else◌, Bool-cases, ◌⊎◌, inl, inr}
use luava.Chars.{lisdigit}
use luava.Chars.Classes.{lisdigit_lem}
use luava.Proto.{int_max}
use luava.Lexer.State.{LexState, ok, ◌>>=◌, with_state, at, holds, is_newline}
use luava.Lexer.State.{next, save_and_next, after_newline, inclinenumber, esccheck}
use luava.Lexer.Strings.{readdecesc, only_save, read_save, simple_escape, other_escape, escape}
use luava.Lexer.Strings.{string_round}
use luava.Lexer.Quoted.{state, only_save_lem, readdecesc-padded, readdecesc-decimal}
use luava.Strings.Quoting.{isdigit, padded, decimal}

round_escape :
    (s : List ℕ) (n : ℕ) (b : List ℕ)
    → string_round b'\\' (state (b'\\' ∷ s) n b) ≡ escape s (state s n (b ++ b'\\' ∷ []))
unfolding string_round save_and_next with_state
round_escape s n b = refl

simple_escape_digit : (d : ℕ) → b'0' ≤ d → d ≤ b'9' → simple_escape d ≡ none
unfolding simple_escape
simple_escape_digit d lo hi = ground arith

other_escape_digit :
    (d : ℕ) (S : LexState)
    → b'0' ≤ d
    → d ≤ b'9'
    → other_escape d S ≡ (readdecesc >>= λ value. only_save value) S
unfolding other_escape esccheck
other_escape_digit d S lo hi =
    let digit : lisdigit d ≡ true = lisdigit_lem d ∙ ground arith in
    let x : (d == b'x') ≡ false = ground arith in
    let u : (d == b'u') ≡ false = ground arith in
    let newline : is_newline d ≡ false = ground arith in
    let quote : (d == b'\\' || (d == b'"' || d == b'\'')) ≡ false = ground arith in
    let z : (d == b'z') ≡ false = ground arith in rw (x, u, newline, quote, z, digit) refl

escape_plain :
    (c : ℕ) (s : List ℕ) (S : LexState)
    → simple_escape c ≡ none
    → escape (c ∷ s) S ≡ other_escape c S
unfolding escape
escape_plain c s S h = rw (h, escape) refl

digit_escape :
    (d c : ℕ) (s t : List ℕ) (n : ℕ) (b : List ℕ)
    → b'0' ≤ d
    → d ≤ b'9'
    → readdecesc (state (d ∷ s) n (b ++ b'\\' ∷ [])) ≡ ok (c, state t n (b ++ b'\\' ∷ []))
    → string_round b'\\' (state (b'\\' ∷ d ∷ s) n b) ≡ ok (tt, state t n (b ++ c ∷ []))
digit_escape d c s t n b lo hi e =
    let S : LexState = state (d ∷ s) n (b ++ b'\\' ∷ []) in
    round_escape (d ∷ s) n b
    ∙ escape_plain d s S (simple_escape_digit d lo hi)
    ∙ other_escape_digit d S lo hi
    ∙ rw (e, ◌>>=◌) (only_save_lem c t n b b'\\')

pub quote_escape :
    (c : ℕ) (u : List ℕ) (n : ℕ) (b : List ℕ)
    → (c ≡ b'"') ⊎ (c ≡ b'\\')
    → string_round b'\\' (state (b'\\' ∷ c ∷ u) n b) ≡ ok (tt, state u n (b ++ c ∷ []))
unfolding string_round save_and_next with_state escape other_escape simple_escape read_save next
quote_escape c u n b (inl e) = rw e (only_save_lem b'"' u n b b'\\')
quote_escape c u n b (inr e) = rw e (only_save_lem b'\\' u n b b'\\')

inclinenumber_lem :
    (s : List ℕ) (n : ℕ) (b : List ℕ)
    → n + 1 < int_max
    → inclinenumber (state s n b) ≡ ok (tt, state (after_newline s) (n + 1) b)
unfolding inclinenumber
inclinenumber_lem s n b lt = let few : leb int_max (n + 1) ≡ false = ground arith in rw few refl

after_newline_one : (u : List ℕ) → at 13 u ≡ false → after_newline (10 ∷ u) ≡ u
unfolding after_newline
after_newline_one [] h = refl
after_newline_one (x ∷ u) h = ground arith

pub newline_escape :
    (u : List ℕ) (n : ℕ) (b : List ℕ)
    → at 13 u ≡ false
    → n + 1 < int_max
    → string_round b'\\' (state (b'\\' ∷ 10 ∷ u) n b) ≡ ok (tt, state u (n + 1) (b ++ 10 ∷ []))
unfolding escape other_escape simple_escape
newline_escape u n b h lt =
    round_escape (10 ∷ u) n b
    ∙ rw (inclinenumber_lem (10 ∷ u) n (b ++ b'\\' ∷ []) lt, ◌>>=◌)
        (rw (after_newline_one u h) (only_save_lem 10 u (n + 1) b b'\\'))

pub raw_round :
    (c : ℕ) (u : List ℕ) (n : ℕ) (b : List ℕ)
    → is_newline c ≡ false
    → (c == b'\\') ≡ false
    → string_round c (state (c ∷ u) n b) ≡ ok (tt, state u n (b ++ c ∷ []))
unfolding string_round save_and_next
raw_round c u n b h k = rw (h, k) refl

abbrev pub lines : ℕ → ℕ
lines c = if c == b'\n' then 1 else 0

-- Lines that a string spans, when it is written with addquoted.
abbrev pub newlines : List ℕ → ℕ
newlines [] = 0
newlines (c ∷ s) = lines c + newlines s

-- What stands behind a byte of the string in the quoted text.
pub record Follows (after : ℕ) (u : List ℕ) : Type 0 where
  pub no_return : at 13 u ≡ false
  pub no_digit : isdigit after ≡ false → holds lisdigit u ≡ false

head_digit :
    (c : ℕ) → c < 256 → (d : ℕ) × (s : List ℕ) × (decimal c ≡ d ∷ s) × (b'0' ≤ d) × (d ≤ b'9')
unfolding decimal padded
head_digit c h = elim (Bool-cases (ltb c 10)) [
  | inl one ↦ (b'0' + c, [], rw one refl, omega arith, ground arith)
  | inr more ↦ elim (Bool-cases (ltb c 100)) [
    | inl two ↦
        (b'0' + c / 10, (b'0' + c % 10) ∷ [], rw (more, two) refl, omega arith, ground arith)
    | inr three ↦ (
      b'0' + c / 100,
      (b'0' + c / 10 % 10) ∷ (b'0' + c % 10) ∷ [],
      rw (more, three) refl,
      omega arith,
      omega arith,
    )
  ]
]

padded_round :
    (c : ℕ) (u : List ℕ) (n : ℕ) (b : List ℕ)
    → c < 256
    → string_round b'\\' (state (b'\\' ∷ (padded c ++ u)) n b) ≡ ok (tt, state u n (b ++ c ∷ []))
padded_round c u n b h =
    let e = readdecesc-padded c u n (b ++ b'\\' ∷ []) h in
    unfold padded in
    digit_escape (b'0' + c / 100) c ((b'0' + c / 10 % 10) ∷ (b'0' + c % 10) ∷ u) u n b (omega arith)
      (omega arith) e

decimal_round :
    (c : ℕ) (u : List ℕ) (n : ℕ) (b : List ℕ)
    → c < 256
    → holds lisdigit u ≡ false
    → string_round b'\\' (state (b'\\' ∷ (decimal c ++ u)) n b) ≡ ok (tt, state u n (b ++ c ∷ []))
decimal_round c u n b h stop =
    let (d, s, e, lo, hi) = head_digit c h in
    let read = readdecesc-decimal c u n (b ++ b'\\' ∷ []) h stop in
    let read' : readdecesc (state (d ∷ (s ++ u)) n (b ++ b'\\' ∷ []))
        ≡ ok (c, state u n (b ++ b'\\' ∷ [])) =
      rw e at read in
    rw e (digit_escape d c (s ++ u) u n b lo hi read')

pub control_round :
    (c after : ℕ) (u : List ℕ) (n : ℕ) (b : List ℕ)
    → c < 256
    → Follows after u
    → string_round b'\\'
        (state (b'\\' ∷ ((if isdigit after then padded c else decimal c) ++ u)) n b)
      ≡ ok (tt, state u n (b ++ c ∷ []))
control_round c after u n b h f = elim (Bool-cases (isdigit after)) [
  | inl digit ↦ rw digit (padded_round c u n b h)
  | inr other ↦ rw other (decimal_round c u n b h (f.no_digit other))
]
