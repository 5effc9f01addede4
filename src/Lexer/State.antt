-- ===== src/Lexer/State.antt =====
-- The scanner's state and the small operations of lua/src/llex.c: next, save, lexerror,
-- inclinenumber, check_next1 and check_next2. `input` is `current`, its first byte, and what the
-- stream `z` holds behind it; when it is empty `current` is EOZ. The buffer holds bytes without a
-- limit. A thrown error is a value.
use luava.Base.{ℕ, ◌+◌, ◌-◌, Bool, true, false, ◌&&◌, ◌||◌, not, leb, ◌==◌}
use luava.Base.{List, [], ◌∷◌, ◌++◌, length, take, if◌then◌else◌}
use luava.Proto.{int_max}

-- The messages. `unfinished_long` carries whether it is a string (or a comment) and its first line.
pub data Message : Type 0 where
  too_many_lines malformed_number unfinished_string invalid_long_delimiter : Message
  hexadecimal_expected missing_open missing_close utf8_too_large : Message
  decimal_too_large invalid_escape : Message
  unfinished_long : Bool → ℕ → Message

-- What lexerror puts into its message: the line, the token after "near" (0 is none) and the buffer.
pub record LexError : Type 0 where
  pub message : Message
  pub line : ℕ
  pub token : ℕ
  pub text : List ℕ

-- `stuck` is no outcome of the code: a loop of the model ran out of fuel.
pub data Result {ℓ} (A : Type ℓ) : Type ℓ where
  ok : A → Result A
  err : LexError → Result A
  stuck : Result A

pub record LexState : Type 0 where
  pub input : List ℕ
  pub linenumber : ℕ
  pub buff : List ℕ

abbrev pub Lex : Type 0 → Type 0
Lex A = LexState → Result (A × LexState)

infixl 5 ◌>>=◌ ◌>>◌
abbrev pub ◌>>=◌ : {A B : Type 0} → Lex A → (A → Lex B) → Lex B
◌>>=◌ m f S = elim (m S) [ ok p ↦ f p.0 p.1 | err e ↦ err e | stuck ↦ stuck ]

abbrev pub ◌>>◌ : {B : Type 0} → Lex (Unit {0}) → Lex B → Lex B
m >> k = m >>= λ _. k

abbrev pub pure : {A : Type 0} → A → Lex A
pure a S = ok (a, S)

-- Run with the state in hand.
unfoldable pub with_state : {A : Type 0} → (LexState → Lex A) → Lex A
with_state f S = f S S

-- FIRST_RESERVED, and the tokens of enum RESERVED that have no fixed word.
abbrev pub first_reserved : ℕ
first_reserved = 256

abbrev pub tk_eos : ℕ
tk_eos = first_reserved + 33

abbrev pub tk_flt : ℕ
tk_flt = first_reserved + 34

abbrev pub tk_int : ℕ
tk_int = first_reserved + 35

abbrev pub tk_name : ℕ
tk_name = first_reserved + 36

abbrev pub tk_string : ℕ
tk_string = first_reserved + 37

-- lexerror
unfoldable pub lexerror : {A : Type 0} → Message → ℕ → Lex A
lexerror message token S =
    err (record { message = message; line = S.linenumber; token = token; text = S.buff })

-- Tests on `current`, of which none holds at EOZ.
abbrev pub at : ℕ → List ℕ → Bool
at c [] = false
at c (x ∷ s) = x == c

abbrev pub holds : (ℕ → Bool) → List ℕ → Bool
holds p [] = false
holds p (x ∷ s) = p x

abbrev pub at_end : List ℕ → Bool
at_end [] = true
at_end (x ∷ s) = false

-- `current` as a char; EOZ is -1.
abbrev pub current : List ℕ → ℕ
current [] = 255
current (x ∷ s) = x

abbrev pub tail : List ℕ → List ℕ
tail [] = []
tail (x ∷ s) = s

abbrev pub is_newline : ℕ → Bool
is_newline c = c == 10 || c == 13

unfoldable pub next : Lex (Unit {0})
next S = ok (tt, record S { input = tail S.input })

unfoldable pub save : ℕ → Lex (Unit {0})
save c S = ok (tt, record S { buff = S.buff ++ c ∷ [] })

unfoldable pub save_and_next : Lex (Unit {0})
save_and_next S = ok (tt, record S { buff = S.buff ++ current S.input ∷ []; input = tail S.input })

-- luaZ_resetbuffer and luaZ_buffremove
unfoldable pub resetbuffer : Lex (Unit {0})
resetbuffer S = ok (tt, record S { buff = [] })

unfoldable pub buffremove : ℕ → Lex (Unit {0})
buffremove n S = ok (tt, record S { buff = take (length S.buff - n) S.buff })

-- The rest of the input behind a line break, which may be of two characters.
unfoldable pub after_newline : List ℕ → List ℕ
after_newline s =
    let old = current s in
    let s' = tail s in if holds is_newline s' && not (current s' == old) then tail s' else s'

unfoldable pub inclinenumber : Lex (Unit {0})
inclinenumber S =
    let S' : LexState = record S { input = after_newline S.input; linenumber = S.linenumber + 1 } in
    if leb int_max S'.linenumber then lexerror too_many_lines 0 S' else ok (tt, S')

unfoldable pub check_next1 : ℕ → Lex Bool
check_next1 c S =
    if at c S.input then ok (true, record S { input = tail S.input }) else ok (false, S)

unfoldable pub check_next2 : ℕ → ℕ → Lex Bool
check_next2 c d S =
    if at c S.input || at d S.input
    then ok (true, record S { buff = S.buff ++ current S.input ∷ []; input = tail S.input })
    else ok (false, S)

-- esccheck
unfoldable pub esccheck : Bool → Message → Lex (Unit {0})
unfolding with_state
esccheck true message = pure tt
esccheck false message = with_state (λ S.
    if at_end S.input
    then lexerror message tk_string
    else save_and_next >> lexerror message tk_string)
