-- ===== src/Lexer/Scan.antt =====
-- llex, luaX_next and luaX_lookahead of lua/src/llex.c.
use luava.Base.{ℕ, zero, suc, ◌+◌, Bool, true, false, ◌||◌, leb, ◌==◌}
use luava.Base.{Option, none, some, List, [], ◌∷◌, length, if◌then◌else◌}
use luava.Dump.{str_eq}
use luava.Chars.{lislalpha, lislalnum, lisdigit}
use luava.ForLoop.{Floats}
use luava.Lexer.State.{Lex, LexState, Result, ok, err, stuck, ◌>>=◌, ◌>>◌, pure, with_state}
use luava.Lexer.State.{at, holds, at_end, current, is_newline, next, save_and_next, resetbuffer}
use luava.Lexer.State.{inclinenumber, check_next1, lexerror, invalid_long_delimiter}
use luava.Lexer.State.{first_reserved, tk_eos, tk_name, tk_string}
use luava.Lexer.Numerals.{text, empty, Token, read_numeral}
use luava.Lexer.Strings.{skip_sep, read_long_string, read_string}

-- The reserved words of luaX_tokens, in the order of enum RESERVED, as bytes.
abbrev pub reserved : List (List ℕ)
reserved =
    (b'a' ∷ b'n' ∷ b'd' ∷ [])
    ∷ (b'b' ∷ b'r' ∷ b'e' ∷ b'a' ∷ b'k' ∷ [])
    ∷ (b'd' ∷ b'o' ∷ [])
    ∷ (b'e' ∷ b'l' ∷ b's' ∷ b'e' ∷ [])
    ∷ (b'e' ∷ b'l' ∷ b's' ∷ b'e' ∷ b'i' ∷ b'f' ∷ [])
    ∷ (b'e' ∷ b'n' ∷ b'd' ∷ [])
    ∷ (b'f' ∷ b'a' ∷ b'l' ∷ b's' ∷ b'e' ∷ [])
    ∷ (b'f' ∷ b'o' ∷ b'r' ∷ [])
    ∷ (b'f' ∷ b'u' ∷ b'n' ∷ b'c' ∷ b't' ∷ b'i' ∷ b'o' ∷ b'n' ∷ [])
    ∷ (b'g' ∷ b'l' ∷ b'o' ∷ b'b' ∷ b'a' ∷ b'l' ∷ [])
    ∷ (b'g' ∷ b'o' ∷ b't' ∷ b'o' ∷ [])
    ∷ (b'i' ∷ b'f' ∷ [])
    ∷ (b'i' ∷ b'n' ∷ [])
    ∷ (b'l' ∷ b'o' ∷ b'c' ∷ b'a' ∷ b'l' ∷ [])
    ∷ (b'n' ∷ b'i' ∷ b'l' ∷ [])
    ∷ (b'n' ∷ b'o' ∷ b't' ∷ [])
    ∷ (b'o' ∷ b'r' ∷ [])
    ∷ (b'r' ∷ b'e' ∷ b'p' ∷ b'e' ∷ b'a' ∷ b't' ∷ [])
    ∷ (b'r' ∷ b'e' ∷ b't' ∷ b'u' ∷ b'r' ∷ b'n' ∷ [])
    ∷ (b't' ∷ b'h' ∷ b'e' ∷ b'n' ∷ [])
    ∷ (b't' ∷ b'r' ∷ b'u' ∷ b'e' ∷ [])
    ∷ (b'u' ∷ b'n' ∷ b't' ∷ b'i' ∷ b'l' ∷ [])
    ∷ (b'w' ∷ b'h' ∷ b'i' ∷ b'l' ∷ b'e' ∷ [])
    ∷ []

-- The other tokens of luaX_tokens with a fixed text, in order.
abbrev pub operators : List (List ℕ)
operators =
    (b'/' ∷ b'/' ∷ [])
    ∷ (b'.' ∷ b'.' ∷ [])
    ∷ (b'.' ∷ b'.' ∷ b'.' ∷ [])
    ∷ (b'=' ∷ b'=' ∷ [])
    ∷ (b'>' ∷ b'=' ∷ [])
    ∷ (b'<' ∷ b'=' ∷ [])
    ∷ (b'~' ∷ b'=' ∷ [])
    ∷ (b'<' ∷ b'<' ∷ [])
    ∷ (b'>' ∷ b'>' ∷ [])
    ∷ (b':' ∷ b':' ∷ [])
    ∷ []

-- Their tokens: TK_IDIV is the first after the 23 reserved words.
abbrev pub tk : ℕ → ℕ
tk i = first_reserved + 23 + i

-- What luaX_init leaves in the `extra` of a string, less 1: its index in luaX_tokens.
unfoldable pub index_of : ℕ → List (List ℕ) → List ℕ → Option ℕ
index_of i [] s = none
index_of i (w ∷ ws) s = if str_eq w s then some i else index_of (i + 1) ws s

-- "global", whose `extra` luaX_setinput sets to 0: luaconf.h defines LUA_COMPAT_GLOBAL.
abbrev pub glbn : List ℕ
glbn = b'g' ∷ b'l' ∷ b'o' ∷ b'b' ∷ b'a' ∷ b'l' ∷ []

-- The `extra` of a string while a text is scanned, less 1; `none` is that it is not reserved.
unfoldable pub extra : List ℕ → Option ℕ
extra s = if str_eq glbn s then none else index_of 0 reserved s

-- while (!currIsNewline(ls) && ls->current != EOZ) next(ls);
unfoldable pub to_line_end : List ℕ → List ℕ
to_line_end [] = []
to_line_end (c ∷ s) = if is_newline c then c ∷ s else to_line_end s

unfoldable pub short_comment : Lex (Unit {0})
short_comment S = ok (tt, record S { input = to_line_end S.input })

-- What follows "--".
unfoldable pub comment : Lex (Unit {0})
comment = with_state (λ S.
    if at b'[' S.input
    then (do
      sep ← skip_sep
      resetbuffer
      if leb 2 sep then (do skipped ← read_long_string false sep; resetbuffer) else short_comment)
    else short_comment)

-- The do loop on a name, after its first character.
unfoldable pub name_loop : ℕ → Lex (Unit {0})
name_loop zero S = stuck
name_loop (suc fuel) S =
    let more : Lex (Unit {0}) = (do save_and_next; name_loop fuel) in
    let body : Lex (Unit {0}) = (if holds lislalnum S.input then more else pure tt) in body S

-- One of two tokens, by the next character.
unfoldable pub either : ℕ → ℕ → ℕ → Lex ℕ
either c yes_token no_token = do hit ← check_next1 c; pure (if hit then yes_token else no_token)

-- The cases of '<' and '>'.
unfoldable pub either_of_two : ℕ → ℕ → ℕ → ℕ → ℕ → Lex ℕ
either_of_two c token d token' other = do
  hit ← check_next1 c
  if hit then pure token else either d token' other

abbrev pub is_blank : ℕ → Bool
is_blank c = c == b' ' || (c == 12 || (c == 9 || c == 11))

module _ (F : Floats) where
  unfoldable pub symbol : Lex ℕ → Lex (Token F)
  symbol l = do token ← l; pure (token, empty)

  -- The token of a name, by its `extra`.
  unfoldable pub named : Option ℕ → List ℕ → Lex (Token F)
  named (some i) s = pure (first_reserved + i, empty)
  named none s = pure (tk_name, text s)

  unfoldable pub read_name : Lex (Token F)
  read_name = with_state (λ S. do
    save_and_next
    name_loop (length S.input + 1)
    with_state (λ S'. named (extra S'.buff) S'.buff))

  unfoldable pub long_bracket : Lex (Token F)
  long_bracket = do
    sep ← skip_sep
    if leb 2 sep
        then (do s ← read_long_string true sep; pure (tk_string, text s))
        else if sep == 0
        then lexerror invalid_long_delimiter tk_string
        else pure (b'[', empty)

  unfoldable pub dots : Lex (Token F)
  dots = do
    save_and_next
    two ← check_next1 b'.'
    if two
        then symbol (either b'.' (tk 2) (tk 1))
        else with_state (λ S. if holds lisdigit S.input then read_numeral F else pure (b'.', empty))

  -- The cases of llex that return a token, on the character `c`.
  unfoldable pub read_token : ℕ → Lex (Token F)
  read_token c =
      if c == b'['
      then long_bracket
      else if c == b'='
      then (do next; symbol (either b'=' (tk 3) c))
      else if c == b'<'
      then (do next; symbol (either_of_two b'=' (tk 5) b'<' (tk 7) c))
      else if c == b'>'
      then (do next; symbol (either_of_two b'=' (tk 4) b'>' (tk 8) c))
      else if c == b'/'
      then (do next; symbol (either b'/' (tk 0) c))
      else if c == b'~'
      then (do next; symbol (either b'=' (tk 6) c))
      else if c == b':'
      then (do next; symbol (either b':' (tk 9) c))
      else if c == b'"' || c == b'\''
      then (do s ← read_string c; pure (tk_string, text s))
      else if c == b'.'
      then dots
      else if lisdigit c
      then read_numeral F
      else if lislalpha c
      then read_name
      else (do next; pure (c, empty))

  -- The loop of llex.
  unfoldable pub llex_loop : ℕ → Lex (Token F)
  llex_loop zero S = stuck
  llex_loop (suc fuel) S =
      let again = llex_loop fuel in
      let c = current S.input in
      let line : Lex (Token F) = (do inclinenumber; again) in
      let blank : Lex (Token F) = (do next; again) in
      let dash : Lex (Token F) = (do
        next
        with_state
            (λ S'. if at b'-' S'.input then (do next; comment; again) else pure (b'-', empty))) in
      let body : Lex (Token F) =
        (if at_end S.input
          then pure (tk_eos, empty)
          else if is_newline c
          then line
          else if is_blank c
          then blank
          else if c == b'-'
          then dash
          else read_token c) in
      body S

  unfoldable pub llex : Lex (Token F)
  llex = do resetbuffer; with_state (λ S. llex_loop (length S.input + 1))

  -- The fields of LexState that luaX_next and luaX_lookahead change besides.
  pub record Scanner : Type 0 where
    pub lex : LexState
    pub lastline : ℕ
    pub t : Token F
    pub lookahead : Token F

  unfoldable pub scan_next : Scanner → Result Scanner
  scan_next X =
      let X' : Scanner = record X { lastline = X.lex.linenumber } in
      if X.lookahead.0 == tk_eos
      then elim (llex X.lex) [
        | ok p ↦ ok (record X' { t = p.0; lex = p.1 })
        | err e ↦ err e
        | stuck ↦ stuck
      ]
      else ok (record X' { t = X.lookahead; lookahead = (tk_eos, X.lookahead.1) })

  unfoldable pub scan_lookahead : Scanner → Result (ℕ × Scanner)
  scan_lookahead X = elim (llex X.lex) [
    | ok p ↦ ok (p.0.0, record X { lookahead = p.0; lex = p.1 })
    | err e ↦ err e
    | stuck ↦ stuck
  ]
