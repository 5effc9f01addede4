-- ===== src/Lexer/Quoted.antt =====
-- read_string of lua/src/llex.c on what addquoted of lua/src/lstrlib.c writes: one byte of the string.
pub mod Escapes
pub mod RoundTrip
use luava.Base.{ℕ, zero, suc, ◌+◌, ◌-◌, ◌*◌, ◌/◌, ◌%◌, ◌≤◌, ◌<◌, ◌≡◌, refl, ap, ◌∙◌, arith}
use luava.Base.{
  Bool, true, false, ◌&&◌, ◌||◌, not, ltb, leb, ◌==◌, List, [], ◌∷◌, ◌++◌, append_assoc, length,
  take,
}
use luava.Base.{length-append, take_exact, if◌then◌else◌, Bool-cases, inl, inr}
use luava.Chars.{lisdigit}
use luava.Chars.Classes.{lisdigit_lem}
use luava.Proto.{int_max}
use luava.Lexer.State.{
  LexState, ok, ◌>>=◌, ◌>>◌, pure, with_state, at, holds, current, tail, is_newline,
}
use luava.Lexer.State.{
  next, save, save_and_next, buffremove, after_newline, inclinenumber, esccheck,
}
use luava.Lexer.Strings.{
  dec_digits, readdecesc, only_save, read_save, simple_escape, other_escape, escape,
}
use luava.Lexer.Strings.{string_round, string_loop}
use luava.Strings.Quoting.{padded, decimal}

abbrev pub state : List ℕ → ℕ → List ℕ → LexState
state s n b = record { input = s; linenumber = n; buff = b }

-- Removing what was appended.
pub removed : (b t : List ℕ) (k : ℕ) → length t ≡ k → take (length (b ++ t) - k) (b ++ t) ≡ b
removed b t k h = take_exact (length (b ++ t) - k) b t (omega (arith, length-append b t))

pub only_save_lem :
    (c : ℕ) (s : List ℕ) (n : ℕ) (b : List ℕ) (x : ℕ)
    → only_save c (state s n (b ++ x ∷ [])) ≡ ok (tt, state s n (b ++ c ∷ []))
unfolding only_save buffremove save
only_save_lem c s n b x = rw (removed b (x ∷ []) 1 refl)

dec_digits_step :
    (k r i d : ℕ) (t : List ℕ) (n : ℕ) (b : List ℕ)
    → d < 10
    → dec_digits (suc k) r i (state ((b'0' + d) ∷ t) n b)
      ≡ dec_digits k (10 * r + d) (i + 1) (state t n (b ++ (b'0' + d) ∷ []))
unfolding dec_digits with_state save_and_next
dec_digits_step k r i d t n b h =
    let digit : lisdigit (b'0' + d) ≡ true = lisdigit_lem (b'0' + d) ∙ ground arith in
    let value : 10 * r + (b'0' + d) - b'0' ≡ 10 * r + d = omega arith in rw (digit, value)

dec_digits_stop :
    (k r i : ℕ) (t : List ℕ) (n : ℕ) (b : List ℕ)
    → holds lisdigit t ≡ false
    → dec_digits k r i (state t n b) ≡ ok ((r, i), state t n b)
unfolding dec_digits with_state
dec_digits_stop zero r i t n b h = refl
dec_digits_stop (suc k) r i t n b h = rw h

-- The end of readdecesc, where `k` digits `t` were read.
readdecesc_end :
    (s : List ℕ) (n : ℕ) (b t rest : List ℕ) (c k : ℕ)
    → dec_digits 3 0 0 (state s n b) ≡ ok ((c, k), state rest n (b ++ t))
    → c < 256
    → length t ≡ k
    → readdecesc (state s n b) ≡ ok (c, state rest n b)
unfolding readdecesc esccheck buffremove
readdecesc_end s n b t rest c k e lt len =
    let small : leb c 255 ≡ true = ground arith in rw (e, ◌>>=◌) (rw small (rw (removed b t k len)))

pub readdecesc-padded :
    (c : ℕ) (t : List ℕ) (n : ℕ) (b : List ℕ)
    → c < 256
    → readdecesc (state (padded c ++ t) n b) ≡ ok (c, state t n b)
unfolding padded dec_digits
readdecesc-padded c t n b h =
    let x : ℕ = b'0' + c / 100 in
    let y : ℕ = b'0' + c / 10 % 10 in
    let z : ℕ = b'0' + c % 10 in
    let value : 10 * (10 * (10 * 0 + c / 100) + c / 10 % 10) + c % 10 ≡ c = omega arith in
    let count : 0 + 1 + 1 + 1 ≡ 3 = omega arith in
    readdecesc_end (x ∷ y ∷ z ∷ t) n b (x ∷ y ∷ z ∷ []) t c 3
      (dec_digits_step 2 0 0 (c / 100) (y ∷ z ∷ t) n b (omega arith)
        ∙ dec_digits_step 1 (10 * 0 + c / 100) (0 + 1) (c / 10 % 10) (z ∷ t) n (b ++ x ∷ [])
            (omega arith)
        ∙ dec_digits_step 0 (10 * (10 * 0 + c / 100) + c / 10 % 10) (0 + 1 + 1) (c % 10) t n
            ((b ++ x ∷ []) ++ y ∷ []) (omega arith)
        ∙ simp (value, count, append_assoc))
      h refl

pub readdecesc-decimal :
    (c : ℕ) (t : List ℕ) (n : ℕ) (b : List ℕ)
    → c < 256
    → holds lisdigit t ≡ false
    → readdecesc (state (decimal c ++ t) n b) ≡ ok (c, state t n b)
unfolding decimal
readdecesc-decimal c t n b h stop = elim (Bool-cases (ltb c 10)) [
  | inl one ↦ rw one (
      readdecesc_end ((b'0' + c) ∷ t) n b ((b'0' + c) ∷ []) t c 1
        (dec_digits_step 2 0 0 c t n b (ground arith)
          ∙ dec_digits_stop 2 (10 * 0 + c) (0 + 1) t n (b ++ (b'0' + c) ∷ []) stop
          ∙ (let value : 10 * 0 + c ≡ c = omega arith in
              let count : 0 + 1 ≡ 1 = omega arith in rw (value, count)))
        h refl)
  | inr more ↦ elim (Bool-cases (ltb c 100)) [
    | inl two ↦
        let x : ℕ = b'0' + c / 10 in
        let y : ℕ = b'0' + c % 10 in
        rw (more, two)
          (readdecesc_end (x ∷ y ∷ t) n b (x ∷ y ∷ []) t c 2
            (dec_digits_step 2 0 0 (c / 10) (y ∷ t) n b (ground arith)
              ∙ dec_digits_step 1 (10 * 0 + c / 10) (0 + 1) (c % 10) t n (b ++ x ∷ []) (omega arith)
              ∙ dec_digits_stop 1 (10 * (10 * 0 + c / 10) + c % 10) (0 + 1 + 1) t n
                  ((b ++ x ∷ []) ++ y ∷ []) stop
              ∙ (let value : 10 * (10 * 0 + c / 10) + c % 10 ≡ c = omega arith in
                  let count : 0 + 1 + 1 ≡ 2 = omega arith in simp (value, count, append_assoc)))
            h refl)
    | inr three ↦ rw (more, three) (readdecesc-padded c t n b h)
  ]
]
