-- ===== src/Utf8/Encoding.antt =====
-- luaO_utf8esc as arithmetic: the marks and the high bits, then groups of six bits.
use luava.Base.{
  ℕ, zero, suc, ◌+◌, ◌-◌, ◌*◌, ◌/◌, ◌%◌, ◌^◌, ◌≤◌, ◌<◌, ◌≡◌, refl, ap, ◌∙◌, arith, bit_or, bit_xor,
  true, false, ltb, if◌then◌else◌, all_below, equal_below, List, [], ◌∷◌, ◌++◌, Bool-cases, inl,
  inr,
}
use luava.Utf8.{esc_loop, utf8esc, maxutf, overlong}
use luava.Utf8.Bytes.{cont_byte, prefix, needed}

-- `k` continuation bytes: the low `6 * k` bits of `v`.
unfoldable pub conts : ℕ → ℕ → List ℕ
conts zero v = []
conts (suc k) v = conts k (v / 64) ++ ((v % 64 + 128) ∷ [])

-- The number of continuation bytes.
unfoldable pub size : ℕ → ℕ
size x =
    if ltb x 0x80
    then 0
    else if ltb x 0x800
    then 1
    else if ltb x 0x10000
    then 2
    else if ltb x 0x200000
    then 3
    else if ltb x 0x4000000
    then 4
    else 5

unfoldable pub encode : ℕ → List ℕ
encode x = if ltb x 0x80 then x ∷ [] else (prefix (size x) + x / 64 ^ size x) ∷ conts (size x) x

round_more :
    (fuel x mfb : ℕ) (buff : List ℕ)
    → mfb / 2 < x / 64
    → esc_loop (suc fuel) x mfb buff ≡ esc_loop fuel (x / 64) (mfb / 2) ((x % 64 + 128) ∷ buff)
unfolding esc_loop
round_more fuel x mfb buff h =
    let more : ltb (mfb / 2) (x / 2 ^ 6) ≡ true = ground arith in rw (more, cont_byte x) refl

round_last :
    (fuel x mfb m : ℕ) (buff : List ℕ)
    → x / 64 ≤ mfb / 2
    → bit_or (bit_xor (mfb / 2) (2 ^ 32 - 1) * 2 % 2 ^ 32) (x / 64) % 256 ≡ m + x / 64
    → esc_loop (suc fuel) x mfb buff ≡ (m + x / 64) ∷ ((x % 64 + 128) ∷ buff)
unfolding esc_loop
round_last fuel x mfb m buff h first =
    let last : ltb (mfb / 2) (x / 2 ^ 6) ≡ false = ground arith in
    rw (last, cont_byte x, first) refl

-- The first byte, for each value that `mfb` may have.
first_1 : (y : ℕ) → y < 32 → bit_or (bit_xor 31 (2 ^ 32 - 1) * 2 % 2 ^ 32) y % 256 ≡ 192 + y
unfolding all_below
first_1 y h =
    equal_below 32 (λ y. bit_or (bit_xor 31 (2 ^ 32 - 1) * 2 % 2 ^ 32) y % 256) (λ y. 192 + y) y
      refl h

first_2 : (y : ℕ) → y < 16 → bit_or (bit_xor 15 (2 ^ 32 - 1) * 2 % 2 ^ 32) y % 256 ≡ 224 + y
unfolding all_below
first_2 y h =
    equal_below 16 (λ y. bit_or (bit_xor 15 (2 ^ 32 - 1) * 2 % 2 ^ 32) y % 256) (λ y. 224 + y) y
      refl h

first_3 : (y : ℕ) → y < 8 → bit_or (bit_xor 7 (2 ^ 32 - 1) * 2 % 2 ^ 32) y % 256 ≡ 240 + y
unfolding all_below
first_3 y h =
    equal_below 8 (λ y. bit_or (bit_xor 7 (2 ^ 32 - 1) * 2 % 2 ^ 32) y % 256) (λ y. 240 + y) y refl
      h

first_4 : (y : ℕ) → y < 4 → bit_or (bit_xor 3 (2 ^ 32 - 1) * 2 % 2 ^ 32) y % 256 ≡ 248 + y
unfolding all_below
first_4 y h =
    equal_below 4 (λ y. bit_or (bit_xor 3 (2 ^ 32 - 1) * 2 % 2 ^ 32) y % 256) (λ y. 248 + y) y refl
      h

first_5 : (y : ℕ) → y < 2 → bit_or (bit_xor 1 (2 ^ 32 - 1) * 2 % 2 ^ 32) y % 256 ≡ 252 + y
unfolding all_below
first_5 y h =
    equal_below 2 (λ y. bit_or (bit_xor 1 (2 ^ 32 - 1) * 2 % 2 ^ 32) y % 256) (λ y. 252 + y) y refl
      h

-- The bytes with `k` continuation bytes, as the loop leaves them.
from_2 : (x : ℕ) → 0x80 ≤ x → x < 0x800 → esc_loop 6 x 0x3f [] ≡ (192 + x / 64) ∷ conts 1 x
unfolding conts
from_2 x lo hi = round_last 5 x 0x3f 192 [] (omega arith) (first_1 (x / 64) (omega arith))

from_3 : (x : ℕ) → 0x800 ≤ x → x < 0x10000 → esc_loop 6 x 0x3f [] ≡ (224 + x / 64 / 64) ∷ conts 2 x
unfolding conts
from_3 x lo hi =
    round_more 5 x 0x3f [] (omega arith)
    ∙ round_last 4 (x / 64) 0x1f 224 _ (omega arith) (first_2 (x / 64 / 64) (omega arith))

from_4 :
    (x : ℕ)
    → 0x10000 ≤ x
    → x < 0x200000
    → esc_loop 6 x 0x3f [] ≡ (240 + x / 64 / 64 / 64) ∷ conts 3 x
unfolding conts
from_4 x lo hi =
    round_more 5 x 0x3f [] (omega arith)
    ∙ round_more 4 (x / 64) 0x1f _ (omega arith)
    ∙ round_last 3 (x / 64 / 64) 0xf 240 _ (omega arith) (first_3 (x / 64 / 64 / 64) (omega arith))

from_5 :
    (x : ℕ)
    → 0x200000 ≤ x
    → x < 0x4000000
    → esc_loop 6 x 0x3f [] ≡ (248 + x / 64 / 64 / 64 / 64) ∷ conts 4 x
unfolding conts
from_5 x lo hi =
    round_more 5 x 0x3f [] (omega arith)
    ∙ round_more 4 (x / 64) 0x1f _ (omega arith)
    ∙ round_more 3 (x / 64 / 64) 0xf _ (omega arith)
    ∙ round_last 2 (x / 64 / 64 / 64) 7 248 _ (omega arith)
        (first_4 (x / 64 / 64 / 64 / 64) (omega arith))

from_6 :
    (x : ℕ)
    → 0x4000000 ≤ x
    → x ≤ maxutf
    → esc_loop 6 x 0x3f [] ≡ (252 + x / 64 / 64 / 64 / 64 / 64) ∷ conts 5 x
unfolding conts
from_6 x lo hi =
    round_more 5 x 0x3f [] (omega arith)
    ∙ round_more 4 (x / 64) 0x1f _ (omega arith)
    ∙ round_more 3 (x / 64 / 64) 0xf _ (omega arith)
    ∙ round_more 2 (x / 64 / 64 / 64) 7 _ (omega arith)
    ∙ round_last 1 (x / 64 / 64 / 64 / 64) 3 252 _ (omega arith)
        (first_5 (x / 64 / 64 / 64 / 64 / 64) (omega arith))

-- A property of the size of every number from 0x80 on.
size-elim :
    (P : ℕ → Type 0) (x : ℕ)
    → 0x80 ≤ x
    → x ≤ maxutf
    → (x < 0x800 → P 1)
    → (0x800 ≤ x → x < 0x10000 → P 2)
    → (0x10000 ≤ x → x < 0x200000 → P 3)
    → (0x200000 ≤ x → x < 0x4000000 → P 4)
    → (0x4000000 ≤ x → P 5)
    → P (size x)
unfolding size
size-elim P x ge le p1 p2 p3 p4 p5 =
    let c0 : ltb x 0x80 ≡ false = ground arith in
    elim (Bool-cases (ltb x 0x800)) [
      | inl c1 ↦ rw (c0, c1) (p1 (ground arith))
      | inr c1 ↦ elim (Bool-cases (ltb x 0x10000)) [
        | inl c2 ↦ rw (c0, c1, c2) (p2 (ground arith) (ground arith))
        | inr c2 ↦ elim (Bool-cases (ltb x 0x200000)) [
          | inl c3 ↦ rw (c0, c1, c2, c3) (p3 (ground arith) (ground arith))
          | inr c3 ↦ elim (Bool-cases (ltb x 0x4000000)) [
            | inl c4 ↦ rw (c0, c1, c2, c3, c4) (p4 (ground arith) (ground arith))
            | inr c4 ↦ rw (c0, c1, c2, c3, c4) (p5 (ground arith))
          ]
        ]
      ]
    ]

abbrev sequence : ℕ → ℕ → List ℕ
sequence x k = (prefix k + x / 64 ^ k) ∷ conts k x

-- luaO_utf8esc writes the sequence of the size that its argument needs.
pub utf8esc-encode : (x : ℕ) → x ≤ maxutf → utf8esc x ≡ encode x
unfolding utf8esc encode prefix
utf8esc-encode x h = elim (Bool-cases (ltb x 0x80)) [
  | inl ascii ↦ rw ascii refl
  | inr long ↦ rw long (
      size-elim (λ k. esc_loop 6 x 0x3f [] ≡ sequence x k) x (ground arith) h
        (λ hi. from_2 x (ground arith) hi) (λ lo hi. from_3 x lo hi ∙ divided 2 (omega arith))
        (λ lo hi. from_4 x lo hi ∙ divided 3 (omega arith))
        (λ lo hi. from_5 x lo hi ∙ divided 4 (omega arith))
        (λ lo. from_6 x lo h ∙ divided 5 (omega arith)))
]
  where
    divided : (k : ℕ) {y : ℕ} → y ≡ x / 64 ^ k → (prefix k + y) ∷ conts k x ≡ sequence x k
    divided k e = ap (λ (y : ℕ). (prefix k + y) ∷ conts k x) e

-- The first byte of the sequence of `x` with `k` continuation bytes.
pub record First (x k f : ℕ) : Type 0 where
  pub high : 128 ≤ f
  pub byte : f < 256
  pub asks : needed f ≡ k
  pub few : k ≤ 5
  pub value : f - prefix k ≡ x / 64 ^ k
  pub canonical : overlong k x ≡ false

pub size-First :
    (x : ℕ) → 0x80 ≤ x → x ≤ maxutf → First x (size x) (prefix (size x) + x / 64 ^ size x)
unfolding needed prefix overlong
size-First x ge le =
    size-elim (λ k. First x k (prefix k + x / 64 ^ k)) x ge le (λ hi. first (ground arith))
      (λ lo hi. first (ground arith)) (λ lo hi. first (ground arith))
      (λ lo hi. first (ground arith)) (λ lo. first (ground arith))
  where
    first :
        {k f : ℕ}
        → (128 ≤ f)
          × (f < 256)
          × (needed f ≡ k)
          × (k ≤ 5)
          × (f - prefix k ≡ x / 64 ^ k)
          × (overlong k x ≡ false)
        → First x k f
    first (high, byte, asks, few, value, canonical) = record {
      high = high;
      byte = byte;
      asks = asks;
      few = few;
      value = value;
      canonical = canonical;
    }
