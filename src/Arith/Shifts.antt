-- ===== src/Arith/Shifts.antt =====
-- Logical shifts, and the wrapping operators where the true result fits.
use luava.Base.{ℕ, zero, suc, ◌+◌, ◌-◌, ◌*◌, ◌%◌, ◌^◌, ◌≤◌, ◌≡◌, refl, ap, arith}
use luava.Base.{leb, Bool-cases, Option, none, some, inl, inr}
use luava.Base.Int.{ℤ, pos, negsuc, ◌+ℤ◌, ◌-ℤ◌, ◌*ℤ◌}
use luava.Base.Word.{cast_s2u, cast_u2s, IsInteger, cast_s2u-cast_u2s, cast_u2s-cast_s2u}
use native.Mathlib.Nat.{pow-suc, mul_assoc, div-add-mod}
use luava.Arith.{ok, ArithOp, int_neg, shiftl, intarith}

-- The result over the integers of the operators that may wrap.
unfoldable pub true_result : ArithOp → ℤ → ℤ → Option ℤ
true_result ArithOp.add a b = some (a +ℤ b)
true_result ArithOp.sub a b = some (a -ℤ b)
true_result ArithOp.mul a b = some (a *ℤ b)
true_result ArithOp.unm a b = some (pos 0 -ℤ a)
true_result _ a b = none

-- A factor `y` that stands for `y - 2 ^ 64` where `y + t` is 2 ^ 64.
complement_left : (s y t : ℕ) → y + t ≡ 2 ^ 64 → s * y + s * t ≡ s * 2 ^ 64
complement_left s y t h = omega (arith, ap (λ (n : ℕ). s * n) h)

complement_both : (x s y t : ℕ) → x + s ≡ 2 ^ 64 → y + t ≡ 2 ^ 64 → x * y % 2 ^ 64 ≡ s * t % 2 ^ 64
complement_both x s y t h k = omega (arith, ap (λ (n : ℕ). n * y) h, complement_left s y t k)

product_bits :
    (a b : ℤ)
    → IsInteger a
    → IsInteger b
    → IsInteger (a *ℤ b)
    → cast_s2u a * cast_s2u b % 2 ^ 64 ≡ cast_s2u (a *ℤ b)
unfolding cast_s2u ◌*ℤ◌
product_bits (pos a) (pos b) ha hb h = ground arith
product_bits (pos a) (negsuc b) ha hb h =
    ground (arith, complement_left a (2 ^ 64 - 1 - b) (b + 1) (omega arith))
product_bits (negsuc a) (pos b) ha hb h =
    ground (arith, complement_left b (2 ^ 64 - 1 - a) (a + 1) (omega arith))
product_bits (negsuc a) (negsuc b) ha hb h = ground (
  arith,
  complement_both (2 ^ 64 - 1 - a) (a + 1) (2 ^ 64 - 1 - b) (b + 1) (omega arith) (omega arith),
)

pub sum_bits :
    (a b : ℤ)
    → IsInteger a
    → IsInteger b
    → IsInteger (a +ℤ b)
    → (cast_s2u a + cast_s2u b) % 2 ^ 64 ≡ cast_s2u (a +ℤ b)
unfolding cast_s2u ◌+ℤ◌
sum_bits a b ha hb h = ground arith

pub difference_bits :
    (a b : ℤ)
    → IsInteger a
    → IsInteger b
    → IsInteger (a -ℤ b)
    → (cast_s2u a + 2 ^ 64 - cast_s2u b) % 2 ^ 64 ≡ cast_s2u (a -ℤ b)
unfolding cast_s2u ◌-ℤ◌
difference_bits a b ha hb h = ground arith

-- Where the true result is in range, the operator returns it.
pub intarith_exact :
    (op : ArithOp) (a b c : ℤ)
    → IsInteger a
    → IsInteger b
    → true_result op a b ≡ some c
    → IsInteger c
    → intarith op a b ≡ ok c
unfolding intarith true_result int_neg cast_u2s cast_s2u
intarith_exact ArithOp.add a b c ha hb e h =
    let same : a +ℤ b ≡ c = cc in
    let fits : IsInteger (a +ℤ b) = rw same h in
    rw (sum_bits a b ha hb fits, cast_u2s-cast_s2u (a +ℤ b) fits) (ap ok same)
intarith_exact ArithOp.sub a b c ha hb e h =
    let same : a -ℤ b ≡ c = cc in
    let fits : IsInteger (a -ℤ b) = rw same h in
    rw (difference_bits a b ha hb fits, cast_u2s-cast_s2u (a -ℤ b) fits) (ap ok same)
intarith_exact ArithOp.mul a b c ha hb e h =
    let same : a *ℤ b ≡ c = cc in
    let fits : IsInteger (a *ℤ b) = rw same h in
    rw (product_bits a b ha hb fits, cast_u2s-cast_s2u (a *ℤ b) fits) (ap ok same)
intarith_exact ArithOp.unm a b c ha hb e h =
    let same : pos 0 -ℤ a ≡ c = cc in
    let fits : IsInteger (pos 0 -ℤ a) = rw same h in
    rw (difference_bits (pos 0) a (omega arith) ha fits, cast_u2s-cast_s2u (pos 0 -ℤ a) fits)
      (ap ok same)
intarith_exact _ a b c ha hb e h = absurd (cc)

pow-add : (a b : ℕ) → 2 ^ (a + b) ≡ 2 ^ a * 2 ^ b
pow-add a zero = ground arith
pow-add a (suc b) =
    let e : a + suc b ≡ suc (a + b) = omega arith in
    rw (e, pow-suc 2 (a + b), pow-suc 2 b, pow-add a b) (mul_assoc (2 ^ a) (2 ^ b) 2)

wrapped_product : (x y : ℕ) → x % 2 ^ 64 * y % 2 ^ 64 ≡ x * y % 2 ^ 64
wrapped_product x y = omega (arith, ap (λ (t : ℕ). t * y) (div-add-mod x (2 ^ 64)))

shift_twice : (x j k : ℕ) → x * 2 ^ j % 2 ^ 64 * 2 ^ k % 2 ^ 64 ≡ x * 2 ^ (j + k) % 2 ^ 64
shift_twice x j k =
    rw (wrapped_product (x * 2 ^ j) (2 ^ k), pow-add j k, mul_assoc x (2 ^ j) (2 ^ k))

shifted_out : (x k : ℕ) → 64 ≤ k → x * 2 ^ k % 2 ^ 64 ≡ 0
shifted_out x k h =
    let e : k ≡ 64 + (k - 64) = omega arith in rw e (rw (pow-add 64 (k - 64)) (omega arith))

shiftl-pos : (x : ℤ) (k : ℕ) → shiftl x (pos k) ≡ cast_u2s (cast_s2u x * 2 ^ k % 2 ^ 64)
unfolding shiftl cast_u2s
shiftl-pos x k = elim (Bool-cases (leb 64 k)) [
  | inl out ↦ rw (out, shifted_out (cast_s2u x) k (ground arith))
  | inr within ↦ rw within
]

-- Shifts to the left by 0 or more: the counts add up, and from 64 on nothing is left.
pub shiftl-shiftl :
    (x : ℤ) (j k : ℕ) → IsInteger x → shiftl (shiftl x (pos j)) (pos k) ≡ shiftl x (pos (j + k))
shiftl-shiftl x j k h =
    rw
      (
        shiftl-pos (shiftl x (pos j)) k,
        shiftl-pos x j,
        shiftl-pos x (j + k),
        cast_s2u-cast_u2s (cast_s2u x * 2 ^ j % 2 ^ 64) (omega arith),
        shift_twice (cast_s2u x) j k,
      )
      refl
