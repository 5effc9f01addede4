-- ===== src/Chars/Classes.antt =====
-- The table of characters against the ranges of ASCII.
use luava.Base.{
  same, same→eq, all_below, below, ℕ, zero, suc, ◌+◌, ◌≤◌, ◌≡◌, refl, sym, arith, ltb, leb, ◌==◌,
  List, [], ◌∷◌, length, Bool, true, false, ◌&&◌, ◌||◌, Bool-cases, inl, inr, bit_and,
}
use luava.Chars.{
  ctype_table, entry_at, testprop, lislalpha, lisdigit, lisspace, lisxdigit, lislalnum, lisprint,
}

entry_at-past : (xs : List ℕ) (i : ℕ) → length xs ≤ i → entry_at xs i ≡ 0
unfolding entry_at
entry_at-past [] i h = refl
entry_at-past (x ∷ xs) zero h = absurd (omega arith)
entry_at-past (x ∷ xs) (suc i) h = entry_at-past xs i (omega arith)

-- The property with mask `p`, where it holds at no character from 128 on.
by_table :
    (p : ℕ) (f : ℕ → Bool)
    → bit_and 0 p ≡ 0
    → all_below 128 (λ c. same (testprop c p) (f c)) ≡ true
    → ((c : ℕ) → 128 ≤ c → f c ≡ false)
    → (c : ℕ) → testprop c p ≡ f c
by_table p f none h far c = elim (Bool-cases (ltb c 128)) [
  | inl lt ↦
      same→eq (testprop c p) (f c) (below 128 (λ c. same (testprop c p) (f c)) c h (ground arith))
  | inr ge ↦
      rw (entry_at-past ctype_table (c + 1) (ground arith), none) (sym (far c (ground arith)))
]

-- The ranges; an underscore is alphabetic.
abbrev pub is_digit : ℕ → Bool
is_digit c = leb 48 c && leb c 57

abbrev pub is_space : ℕ → Bool
is_space c = (leb 9 c && leb c 13) || (c == 32)

abbrev pub is_alpha : ℕ → Bool
is_alpha c = (leb 65 c && leb c 90) || ((leb 97 c && leb c 122) || (c == 95))

abbrev pub is_xdigit : ℕ → Bool
is_xdigit c = is_digit c || ((leb 65 c && leb c 70) || (leb 97 c && leb c 102))

abbrev pub is_alnum : ℕ → Bool
is_alnum c = is_alpha c || is_digit c

abbrev pub is_print : ℕ → Bool
is_print c = leb 32 c && leb c 126

pub lisdigit_lem : (c : ℕ) → lisdigit c ≡ is_digit c
unfolding all_below same entry_at
lisdigit_lem = by_table 2 (λ c. is_digit c) refl refl (λ c h. ground arith)

pub lisspace_lem : (c : ℕ) → lisspace c ≡ is_space c
unfolding all_below same entry_at
lisspace_lem = by_table 8 (λ c. is_space c) refl refl (λ c h. ground arith)

pub lisxdigit_lem : (c : ℕ) → lisxdigit c ≡ is_xdigit c
unfolding all_below same entry_at
lisxdigit_lem = by_table 16 (λ c. is_xdigit c) refl refl (λ c h. ground arith)

pub lislalpha_lem : (c : ℕ) → lislalpha c ≡ is_alpha c
unfolding all_below same entry_at
lislalpha_lem = by_table 1 (λ c. is_alpha c) refl refl (λ c h. ground arith)

pub lislalnum_lem : (c : ℕ) → lislalnum c ≡ is_alnum c
unfolding all_below same entry_at
lislalnum_lem = by_table 3 (λ c. is_alnum c) refl refl (λ c h. ground arith)

pub lisprint_lem : (c : ℕ) → lisprint c ≡ is_print c
unfolding all_below same entry_at
lisprint_lem = by_table 4 (λ c. is_print c) refl refl (λ c h. ground arith)

-- Every test of lctype.h is membership in its ASCII ranges, for every character code.
pub ctype_lem :
    (c : ℕ)
    → (lisdigit c ≡ is_digit c)
      × (lisspace c ≡ is_space c)
      × (lisxdigit c ≡ is_xdigit c)
      × (lislalpha c ≡ is_alpha c)
      × (lislalnum c ≡ is_alnum c)
      × (lisprint c ≡ is_print c)
ctype_lem c = (
  lisdigit_lem c,
  lisspace_lem c,
  lisxdigit_lem c,
  lislalpha_lem c,
  lislalnum_lem c,
  lisprint_lem c,
)
