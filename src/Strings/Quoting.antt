-- ===== src/Strings/Quoting.antt =====
-- addquoted of lua/src/lstrlib.c, which writes the strings of the format '%q'.
use luava.Base.{
  ℕ, ◌+◌, ◌/◌, ◌%◌, Bool, ◌&&◌, ◌||◌, ltb, leb, ◌==◌, List, [], ◌∷◌, ◌++◌, if◌then◌else◌,
}

-- isdigit of the C library
abbrev pub isdigit : ℕ → Bool
isdigit c = leb b'0' c && leb c b'9'

-- `*s`; at the end it is the terminating '\0'.
abbrev pub char_at : List ℕ → ℕ
char_at [] = 0
char_at (c ∷ s) = c

-- What "%03d" and "%d" print for a byte.
unfoldable pub padded : ℕ → List ℕ
padded c = (b'0' + c / 100) ∷ (b'0' + c / 10 % 10) ∷ (b'0' + c % 10) ∷ []

unfoldable pub decimal : ℕ → List ℕ
decimal c =
    if ltb c 10
    then (b'0' + c) ∷ []
    else if ltb c 100
    then (b'0' + c / 10) ∷ (b'0' + c % 10) ∷ []
    else padded c

-- What a round of the loop writes for a byte, before the byte `after`; `iscntrl` is that of the C library.
unfoldable pub quote_byte : (ℕ → Bool) → ℕ → ℕ → List ℕ
quote_byte iscntrl c after =
    if c == b'"' || (c == b'\\' || c == b'\n')
    then b'\\' ∷ c ∷ []
    else if iscntrl c
    then b'\\' ∷ (if isdigit after then padded c else decimal c)
    else c ∷ []

unfoldable pub quote_bytes : (ℕ → Bool) → List ℕ → List ℕ
quote_bytes iscntrl [] = []
quote_bytes iscntrl (c ∷ s) = quote_byte iscntrl c (char_at s) ++ quote_bytes iscntrl s

-- addquoted
unfoldable pub addquoted : (ℕ → Bool) → List ℕ → List ℕ
addquoted iscntrl s = b'"' ∷ (quote_bytes iscntrl s ++ b'"' ∷ [])
