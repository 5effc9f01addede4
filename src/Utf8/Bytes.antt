-- ===== src/Utf8/Bytes.antt =====
-- The bit operations on the bytes of a sequence as arithmetic.
use luava.Base.{
  implied, same, same→eq, ℕ, ◌+◌, ◌-◌, ◌*◌, ◌%◌, ◌^◌, ◌≤◌, ◌<◌, ◌≡◌, refl, arith, bit_and, bit_or,
  Bool, true, false, not, ◌&&◌, ◌||◌, ltb, leb, ◌==◌, if◌then◌else◌, all_below, below, equal_below,
  and_left, and_right,
}
use luava.Base.Bits.{bit_and-low, bit_or-shifted}
use luava.Utf8.{iscont}

pub low_six : (c : ℕ) → bit_and c 0x3f ≡ c % 64
low_six c = bit_and-low 6 c

-- Six more bits.
pub append_six :
    (res c : ℕ) → res < 2 ^ 26 → bit_or (res * 2 ^ 6 % 2 ^ 32) (bit_and c 0x3f) ≡ res * 64 + c % 64
append_six res c h =
    let e : res * 2 ^ 6 % 2 ^ 32 ≡ res * 2 ^ 6 = omega arith in
    rw (e, low_six c) (bit_or-shifted 6 res (c % 64) (omega arith))

pub cont_byte : (x : ℕ) → bit_or 0x80 (bit_and x 0x3f) ≡ x % 64 + 128
unfolding all_below
cont_byte x =
    rw (low_six x) (equal_below 64 (λ y. bit_or 0x80 y) (λ y. y + 128) (x % 64) refl (omega arith))

is_cont : (c : ℕ) → Bool
is_cont c = leb 128 c && ltb c 192

pub iscont_lem : (c : ℕ) → c < 256 → iscont c ≡ leb 128 c && ltb c 192
unfolding all_below same
iscont_lem c h =
    same→eq (iscont c) (leb 128 c && ltb c 192)
      (below 256 (λ c. same (iscont c) (leb 128 c && ltb c 192)) c refl h)

-- The number of continuation bytes that a first byte from 0x80 on asks for.
unfoldable pub needed : ℕ → ℕ
needed f =
    if ltb f 192
    then 0
    else if ltb f 224
    then 1
    else if ltb f 240
    then 2
    else if ltb f 248
    then 3
    else if ltb f 252
    then 4
    else if ltb f 254
    then 5
    else if ltb f 255
    then 6
    else 7

-- The marks in the first byte of a sequence with `k` continuation bytes.
unfoldable pub prefix : ℕ → ℕ
prefix k =
    if k == 0
    then 128
    else if k == 1
    then 192
    else if k == 2
    then 224
    else if k == 3
    then 240
    else if k == 4
    then 248
    else 252

asks_more : ℕ → Bool
asks_more f =
    all_below (needed f) (λ j. not (bit_and (f * 2 ^ j) 0x40 == 0))
    && (bit_and (f * 2 ^ needed f) 0x40 == 0)

not_true : (b : Bool) → not b ≡ true → b ≡ false
not_true true h = cc
not_true false h = refl

asks : (f : ℕ) → 128 ≤ f → f < 256 → asks_more f ≡ true
unfolding all_below asks_more needed
asks f ge lt =
    let e : f ≡ 128 + (f - 128) = omega arith in
    rw e (below 128 (λ y. asks_more (128 + y)) (f - 128) refl (omega arith))

-- Bit 6 of `c << j`: one more byte is asked for, until all are read.
pub more_asked :
    (f j : ℕ) → 128 ≤ f → f < 256 → j < needed f → (bit_and (f * 2 ^ j) 0x40 == 0) ≡ false
unfolding asks_more
more_asked f j ge lt h =
    let bits =
      below (needed f) (λ j. not (bit_and (f * 2 ^ j) 0x40 == 0)) j
        (and_left (all_below (needed f) (λ j. not (bit_and (f * 2 ^ j) 0x40 == 0)))
          (bit_and (f * 2 ^ needed f) 0x40 == 0) (asks f ge lt))
        h in
    not_true (bit_and (f * 2 ^ j) 0x40 == 0) bits

pub none_asked : (f : ℕ) → 128 ≤ f → f < 256 → (bit_and (f * 2 ^ needed f) 0x40 == 0) ≡ true
unfolding asks_more
none_asked f ge lt =
    and_right (all_below (needed f) (λ j. not (bit_and (f * 2 ^ j) 0x40 == 0))) _ (asks f ge lt)

checked : ℕ → Bool
checked y =
    let f = 128 + y in
    not (leb (needed f) 5)
    || (bit_and (f * 2 ^ needed f) 0x7f == (f - prefix (needed f)) * 2 ^ needed f)

-- What the first byte adds, with `k` continuation bytes.
pub first_bits :
    (f : ℕ)
    → 128 ≤ f
    → f < 256
    → needed f ≤ 5
    → bit_and (f * 2 ^ needed f) 0x7f ≡ (f - prefix (needed f)) * 2 ^ needed f
unfolding all_below needed prefix checked
first_bits f ge lt le =
    let e : f ≡ 128 + (f - 128) = omega arith in
    implied (leb (needed f) 5) (bit_and (f * 2 ^ needed f) 0x7f)
      ((f - prefix (needed f)) * 2 ^ needed f)
      (rw e (below 128 checked (f - 128) refl (omega arith))) (ground arith)
