-- ===== src/Params/Logarithm.antt =====
-- luaO_ceillog2 is the least power of 2 that is enough.
use luava.Base.{ℕ, zero, suc, ◌+◌, ◌-◌, ◌*◌, ◌/◌, ◌%◌, ◌^◌, ◌≤◌, ◌<◌, ◌≡◌, refl, ◌∙◌, arith}
use luava.Base.{true, ◌&&◌, ltb, leb, get_or, Bool-cases, inl, inr, all_below, below}
use native.Mathlib.Nat.{pow-suc}
use luava.Params.{log_2, log_loop, ceillog2}

-- `t` is the number of bits of `y`, `most` at most.
abbrev HasBits : ℕ → ℕ → ℕ → Type 0
HasBits most y t = (y < 2 ^ t) × (2 ^ t ≤ 2 * y + 1) × (t ≤ most)

tested :
    (y t most : ℕ)
    → ltb y (2 ^ t) && (leb (2 ^ t) (2 * y + 1) && leb t most) ≡ true
    → HasBits most y t
tested y t most h = ground arith

table_bits : (y : ℕ) → y < 256 → HasBits 8 y (get_or log_2 y 0)
unfolding all_below log_2
table_bits y h =
    let t = get_or log_2 y 0 in
    let checked =
      below 256
        (λ y.
          ltb y (2 ^ get_or log_2 y 0)
          && (leb (2 ^ get_or log_2 y 0) (2 * y + 1) && leb (get_or log_2 y 0) 8))
        y refl h in
    tested y t 8 checked

-- Eight bits more.
eight_more : (y t most : ℕ) → 256 ≤ y → HasBits most (y / 2 ^ 8) t → HasBits (most + 8) y (t + 8)
eight_more y zero most ge (lt, le, few) = absurd (omega arith)
eight_more y (suc t) most ge (lt, le, few) =
    let grown : 2 ^ (suc t + 8) ≡ 2 ^ suc t * 256 = pow_eight (suc t) in
    (omega (arith, grown), omega (arith, grown, pow-suc 2 t), omega arith)
  where
    pow_eight : (t : ℕ) → 2 ^ (t + 8) ≡ 2 ^ t * 256
    pow_eight zero = refl
    pow_eight (suc t) =
        let e : suc t + 8 ≡ suc (t + 8) = omega arith in
        rw e (omega (arith, pow-suc 2 (t + 8), pow-suc 2 t, pow_eight t))

log_loop-bits :
    (fuel l y : ℕ)
    → y < 256 ^ suc fuel
    → (t : ℕ) × (log_loop fuel l y ≡ l + t) × HasBits (suc fuel * 8) y t
unfolding log_loop
log_loop-bits zero l y h = (get_or log_2 y 0, refl, table_bits y (omega arith))
log_loop-bits (suc fuel) l y h = elim (Bool-cases (leb 256 y)) [
  | inl large ↦
      let (t, e, bits) =
        log_loop-bits fuel (l + 8) (y / 2 ^ 8) (omega (arith, pow-suc 256 (suc fuel))) in
      let (lt, le, few) = eight_more y t (suc fuel * 8) (ground arith) bits in
      (t + 8, rw large (e ∙ omega arith), (lt, le, omega arith))
  | inr small ↦
      let (lt, le, few) = table_bits y (ground arith) in
      (get_or log_2 y 0, rw small refl, (lt, le, omega arith))
]

-- For every unsigned int from 1 on, luaO_ceillog2 returns the exponent of the least power of 2 that
-- is not below it.
pub ceillog2_lem : (x : ℕ) → 1 ≤ x → x < 2 ^ 32 → (x ≤ 2 ^ ceillog2 x) × (2 ^ ceillog2 x < 2 * x)
unfolding ceillog2
ceillog2_lem x ge lt =
    let before : (x + 2 ^ 32 - 1) % 2 ^ 32 ≡ x - 1 = omega arith in
    let (t, e, bits) = log_loop-bits 3 0 (x - 1) (omega arith) in
    let (lt, le, few) = bits in
    let byte : log_loop 3 0 (x - 1) % 256 ≡ t = omega (arith, e, few) in
    rw (before, byte) (omega (arith, lt), omega (arith, le))
