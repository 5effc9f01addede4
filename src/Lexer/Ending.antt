-- ===== src/Lexer/Ending.antt =====
-- The scanner of lua/src/llex.c ends: rules for operations that return and leave no more input than
-- they find.
pub mod Strings
pub mod Tokens
pub mod Progress
use luava.Base.{ℕ, zero, suc, ◌+◌, ◌-◌, ◌≤◌, ◌<◌, ◌≡◌, ◌≢◌, refl, arith}
use luava.Base.{
  Bool, true, false, ◌&&◌, ◌||◌, not, List, [], ◌∷◌, ◌++◌, length, take, Bool-cases, ◌⊎◌, inl, inr,
}
use luava.Base.{leb, ◌==◌, if◌then◌else◌}
use luava.Proto.{int_max}
use luava.Lexer.State.{
  Lex, LexState, LexError, Message, Result, ok, err, stuck, ◌>>=◌, ◌>>◌, pure, with_state,
}
use luava.Lexer.State.{
  at, holds, at_end, current, tail, is_newline, next, save, save_and_next, resetbuffer,
}
use luava.Lexer.State.{
  buffremove, after_newline, inclinenumber, check_next1, check_next2, esccheck, lexerror,
}

-- A result that is none of the model's own, and after which at most `c` bytes are left.
abbrev pub Leaves : {A : Type 0} → ℕ → Result (A × LexState) → Type 0
Leaves c (ok p) = length p.1.input ≤ c
Leaves c (err e) = Unit {0}
Leaves c stuck = ⊥

-- On at most `n` bytes, no more are left than there were.
pub record Ends {A : Type 0} (n : ℕ) (l : Lex A) : Type 0 where
  pub runs : (S : LexState) → length S.input ≤ n → Leaves (length S.input) (l S)

-- One byte less is left, if there was one.
pub record Takes {A : Type 0} (l : Lex A) : Type 0 where
  pub runs : (S : LexState) → Leaves (length S.input - 1) (l S)

pub Leaves-weaken :
    {A : Type 0} (c d : ℕ) (o : Result (A × LexState)) → c ≤ d → Leaves c o → Leaves d o
Leaves-weaken c d (ok p) k h = omega arith
Leaves-weaken c d (err e) k h = tt
Leaves-weaken c d stuck k h = h

pub Leaves-bind :
    {A B : Type 0} (c d : ℕ) (o : Result (A × LexState)) (f : A → Lex B) (l : Lex A) (S : LexState)
    → l S ≡ o
    → Leaves c o
    → ((a : A) (T : LexState) → length T.input ≤ c → Leaves d (f a T))
    → Leaves d ((l >>= f) S)
Leaves-bind c d (ok p) f l S e h k = rw (e, ◌>>=◌) (k p.0 p.1 h)
Leaves-bind c d (err x) f l S e h k = rw (e, ◌>>=◌) tt
Leaves-bind c d stuck f l S e h k = absurd h

pub Leaves-known :
    {A B : Type 0} (c : ℕ) (l : Lex A) (f : A → Lex B) (S : LexState) {a : A} {T : LexState}
    → l S ≡ ok (a, T)
    → Leaves c (f a T)
    → Leaves c ((l >>= f) S)
Leaves-known c l f S e k = rw (e, ◌>>=◌) k

pub Ends-bind :
    {A B : Type 0} {n : ℕ} {l : Lex A} {f : A → Lex B}
    → Ends n l
    → ((a : A) → Ends n (f a))
    → Ends n (l >>= f)
Ends-bind {n} {l} {f} p q = record {
  runs = λ S h.
      Leaves-bind (length S.input) (length S.input) (l S) f l S refl (p.runs S h) (λ a T k.
        Leaves-weaken (length T.input) (length S.input) (f a T) k ((q a).runs T (omega arith)));
}

-- A round of a loop: after an operation that takes a byte, what follows needs to end on fewer.
pub Leaves-round :
    {A B : Type 0} {n : ℕ} {l : Lex A} {f : A → Lex B}
    → Takes l
    → ((a : A) → Ends (n - 1) (f a))
    → (S : LexState) → 1 ≤ length S.input
    → length S.input ≤ n
    → Leaves (length S.input) ((l >>= f) S)
Leaves-round {n} {l} {f} p q S one le =
    Leaves-bind (length S.input - 1) (length S.input) (l S) f l S refl (p.runs S) (λ a T k.
      Leaves-weaken (length T.input) (length S.input) (f a T) (omega arith)
        ((q a).runs T (omega arith)))

-- An operation that takes a byte, with a continuation that ends on what is left.
pub Leaves-take :
    {A B : Type 0} {l : Lex A} {f : A → Lex B}
    → Takes l
    → (S : LexState) → ((a : A) → Ends (length S.input - 1) (f a))
    → Leaves (length S.input - 1) ((l >>= f) S)
Leaves-take {l} {f} p S q =
    Leaves-bind (length S.input - 1) (length S.input - 1) (l S) f l S refl (p.runs S)
      (λ a T k. Leaves-weaken (length T.input) (length S.input - 1) (f a T) k ((q a).runs T k))

pub Takes-bind :
    {A B : Type 0} {l : Lex A} {f : A → Lex B}
    → Takes l
    → ((n : ℕ) (a : A) → Ends n (f a))
    → Takes (l >>= f)
Takes-bind p q = record { runs = λ S. Leaves-take p S (q (length S.input - 1)) }

pub Ends-pure : {A : Type 0} {n : ℕ} {a : A} → Ends n (pure a)
Ends-pure = record { runs = λ S h. omega arith }

pub Ends-error : {A : Type 0} {n : ℕ} (m : Message) (t : ℕ) → Ends {A = A} n (lexerror m t)
unfolding lexerror
Ends-error m t = record { runs = λ S h. tt }

pub Ends-if :
    {A : Type 0} {n : ℕ} (t : Bool) {l m : Lex A}
    → Ends n l
    → Ends n m
    → Ends n (if t then l else m)
Ends-if true p q = p
Ends-if false p q = q

pub Ends-with :
    {A : Type 0} {n : ℕ} {f : LexState → Lex A}
    → ((S : LexState) → Ends n (f S))
    → Ends n (with_state f)
unfolding with_state
Ends-with p = record { runs = λ S h. (p S).runs S h }

-- A run whose state says how long its loops may take.
pub Ends-measured :
    {A : Type 0} {n : ℕ} {f : LexState → Lex A}
    → ((S : LexState) → Ends (length S.input) (f S))
    → Ends n (with_state f)
unfolding with_state
Ends-measured p = record { runs = λ S h. (p S).runs S (omega arith) }

-- What a test leaves to be shown, where the test is true of no empty input.
pub Leaves-test :
    {A : Type 0} (t : Bool) (l m : Lex A) (S : LexState)
    → (t ≡ true → Leaves (length S.input) (l S))
    → (t ≡ false → Leaves (length S.input) (m S))
    → Leaves (length S.input) ((if t then l else m) S)
Leaves-test true l m S p q = p refl
Leaves-test false l m S p q = q refl

pub holds-nonempty : (p : ℕ → Bool) (s : List ℕ) → holds p s ≡ true → 1 ≤ length s
holds-nonempty p [] h = absurd (cc)
holds-nonempty p (c ∷ s) h = omega arith

pub at-nonempty : (c : ℕ) (s : List ℕ) → at c s ≡ true → 1 ≤ length s
at-nonempty c [] h = absurd (cc)
at-nonempty c (d ∷ s) h = omega arith

pub either-nonempty : (c d : ℕ) (s : List ℕ) → (at c s || at d s) ≡ true → 1 ≤ length s
either-nonempty c d [] h = absurd (cc)
either-nonempty c d (e ∷ s) h = omega arith

pub at_end-nonempty : (s : List ℕ) → at_end s ≡ false → 1 ≤ length s
at_end-nonempty [] h = absurd (cc)
at_end-nonempty (d ∷ s) h = omega arith

pub Takes-Ends : {A : Type 0} {n : ℕ} {l : Lex A} → Takes l → Ends n l
Takes-Ends {l = l} p = record {
  runs = λ S h. Leaves-weaken (length S.input - 1) (length S.input) (l S) (omega arith) (p.runs S);
}

pub length-tail : (s : List ℕ) → length (tail s) ≡ length s - 1
length-tail [] = omega arith
length-tail (c ∷ s) = omega arith

pub Takes-if :
    {A : Type 0} (t : Bool) {l m : Lex A} → Takes l → Takes m → Takes (if t then l else m)
Takes-if true p q = p
Takes-if false p q = q

pub Takes-error : {A : Type 0} (m : Message) (t : ℕ) → Takes {A = A} (lexerror m t)
unfolding lexerror
Takes-error m t = record { runs = λ S. tt }

pub Takes-next : Takes next
unfolding next
Takes-next = record { runs = λ S. omega (arith, length-tail S.input) }

pub Takes-save_and_next : Takes save_and_next
unfolding save_and_next
Takes-save_and_next = record { runs = λ S. omega (arith, length-tail S.input) }

length-after_newline : (s : List ℕ) → length (after_newline s) ≤ length s - 1
unfolding after_newline
length-after_newline [] = omega arith
length-after_newline (c ∷ []) = omega arith
length-after_newline (c ∷ d ∷ s) = ground arith

pub Takes-inclinenumber : Takes inclinenumber
unfolding inclinenumber lexerror
Takes-inclinenumber = record {
  runs = λ S. elim (Bool-cases (leb int_max (S.linenumber + 1))) [
    | inl many ↦ rw many tt
    | inr fine ↦ rw fine (length-after_newline S.input)
  ];
}

pub Ends-next : {n : ℕ} → Ends n next
Ends-next = Takes-Ends Takes-next

pub Ends-save_and_next : {n : ℕ} → Ends n save_and_next
Ends-save_and_next = Takes-Ends Takes-save_and_next

pub Ends-inclinenumber : {n : ℕ} → Ends n inclinenumber
Ends-inclinenumber = Takes-Ends Takes-inclinenumber

pub Ends-save : {n : ℕ} (c : ℕ) → Ends n (save c)
unfolding save
Ends-save c = record { runs = λ S h. omega arith }

pub Ends-resetbuffer : {n : ℕ} → Ends n resetbuffer
unfolding resetbuffer
Ends-resetbuffer = record { runs = λ S h. omega arith }

pub Ends-buffremove : {n : ℕ} (k : ℕ) → Ends n (buffremove k)
unfolding buffremove
Ends-buffremove k = record { runs = λ S h. omega arith }

pub Ends-check_next1 : {n : ℕ} (c : ℕ) → Ends n (check_next1 c)
unfolding check_next1
Ends-check_next1 c = record {
  runs = λ S h. elim (Bool-cases (at c S.input)) [
    | inl hit ↦ rw hit (omega (arith, length-tail S.input))
    | inr miss ↦ rw miss (omega arith)
  ];
}

pub Ends-check_next2 : {n : ℕ} (c d : ℕ) → Ends n (check_next2 c d)
unfolding check_next2
Ends-check_next2 c d = record {
  runs = λ S h. elim (Bool-cases (at c S.input || at d S.input)) [
    | inl hit ↦ rw hit (omega (arith, length-tail S.input))
    | inr miss ↦ rw miss (omega arith)
  ];
}

-- A hit of check_next2 takes a byte, and a miss changes nothing.
pub check_next2-cases :
    (c d : ℕ) (S : LexState)
    → ((T : LexState) × (check_next2 c d S ≡ ok (true, T))
        × (suc (length T.input) ≡ length S.input))
      ⊎ (check_next2 c d S ≡ ok (false, S))
unfolding check_next2
check_next2-cases c d S = elim (Bool-cases (at c S.input || at d S.input)) [
  | inl hit ↦ inl (
    record S { buff = S.buff ++ current S.input ∷ []; input = tail S.input },
    rw hit refl,
    omega (arith, length-tail S.input, either-nonempty c d S.input hit),
  )
  | inr miss ↦ inr (rw miss refl)
]

pub ruleset ends = (
  Ends-bind, Ends-pure, Ends-error, Ends-if, Ends-with, Ends-next, Ends-save_and_next,
  Ends-inclinenumber, Ends-save, Ends-resetbuffer, Ends-buffremove, Ends-check_next1,
  Ends-check_next2,
)

pub Ends-esccheck : {n : ℕ} (t : Bool) (m : Message) → Ends n (esccheck t m)
unfolding esccheck
Ends-esccheck true m = Ends-pure
Ends-esccheck false m = search ends
