-- ===== src/Chars.antt =====
-- Character classes by table: luai_ctype_ of lua/src/lctype.c and the tests of lctype.h.
pub mod Classes
use luava.Base.{ℕ, suc, zero, ◌+◌, ◌^◌, bit_and, bit_or, List, [], ◌∷◌, Bool, not, ◌==◌}

-- One entry for EOZ, then one for each character up to 0x7f; the other entries are 0 (NONA is 0).
abbrev pub ctype_table : List ℕ
ctype_table =
    0 ∷ 0 ∷ 0 ∷ 0 ∷ 0 ∷ 0 ∷ 0 ∷ 0 ∷ 0 ∷ 0 ∷ 8 ∷ 8 ∷ 8 ∷ 8 ∷ 8 ∷ 0 ∷ 0 ∷ 0 ∷ 0 ∷ 0 ∷ 0 ∷ 0 ∷ 0 ∷ 0
    ∷ 0 ∷ 0 ∷ 0 ∷ 0 ∷ 0 ∷ 0 ∷ 0 ∷ 0 ∷ 0 ∷ 12 ∷ 4 ∷ 4 ∷ 4 ∷ 4 ∷ 4 ∷ 4 ∷ 4 ∷ 4 ∷ 4 ∷ 4 ∷ 4 ∷ 4 ∷ 4 ∷ 4
    ∷ 4 ∷ 22 ∷ 22 ∷ 22 ∷ 22 ∷ 22 ∷ 22 ∷ 22 ∷ 22 ∷ 22 ∷ 22 ∷ 4 ∷ 4 ∷ 4 ∷ 4 ∷ 4 ∷ 4 ∷ 4 ∷ 21 ∷ 21 ∷ 21
    ∷ 21 ∷ 21 ∷ 21 ∷ 5 ∷ 5 ∷ 5 ∷ 5 ∷ 5 ∷ 5 ∷ 5 ∷ 5 ∷ 5 ∷ 5 ∷ 5 ∷ 5 ∷ 5 ∷ 5 ∷ 5 ∷ 5 ∷ 5 ∷ 5 ∷ 5 ∷ 5
    ∷ 4 ∷ 4 ∷ 4 ∷ 4 ∷ 5 ∷ 4 ∷ 21 ∷ 21 ∷ 21 ∷ 21 ∷ 21 ∷ 21 ∷ 5 ∷ 5 ∷ 5 ∷ 5 ∷ 5 ∷ 5 ∷ 5 ∷ 5 ∷ 5 ∷ 5
    ∷ 5 ∷ 5 ∷ 5 ∷ 5 ∷ 5 ∷ 5 ∷ 5 ∷ 5 ∷ 5 ∷ 5 ∷ 4 ∷ 4 ∷ 4 ∷ 4 ∷ 0 ∷ []

-- The entry at an index, 0 beyond the end.
unfoldable pub entry_at : List ℕ → ℕ → ℕ
entry_at [] i = 0
entry_at (x ∷ xs) zero = x
entry_at (x ∷ xs) (suc i) = entry_at xs i

abbrev pub testprop : ℕ → ℕ → Bool
testprop c p = not (bit_and (entry_at ctype_table (c + 1)) p == 0)

abbrev pub lislalpha : ℕ → Bool
lislalpha c = testprop c (2 ^ 0)

abbrev pub lislalnum : ℕ → Bool
lislalnum c = testprop c (bit_or (2 ^ 0) (2 ^ 1))

abbrev pub lisdigit : ℕ → Bool
lisdigit c = testprop c (2 ^ 1)

abbrev pub lisprint : ℕ → Bool
lisprint c = testprop c (2 ^ 2)

abbrev pub lisspace : ℕ → Bool
lisspace c = testprop c (2 ^ 3)

abbrev pub lisxdigit : ℕ → Bool
lisxdigit c = testprop c (2 ^ 4)

-- To lower case, for a letter.
abbrev pub ltolower : ℕ → ℕ
ltolower c = bit_or c 32
