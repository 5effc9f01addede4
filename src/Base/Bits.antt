-- ===== src/Base/Bits.antt =====
-- `&`, `|` and `^` on words as arithmetic on their binary digits.
use Prim.Native.Nat.{
  ℕ, zero, suc, ◌+◌, ◌-◌, ◌*◌, ◌/◌, ◌%◌, ◌^◌, ◌≤◌, ◌<◌, min, max, digits, bitwise, bit_and, bit_or,
  bit_and-bitwise, bit_or-bitwise, bit_xor, bit_xor-bitwise, differ, compare, Ordering,
}
use mathlib.Core.Path.{◌≡◌, refl, ap}
use mathlib.Core.Bool.{Bool, true, false}
use native.Mathlib.Nat.{pow-suc, one-le-pow, div-div-eq-div-mul}
use native.Mathlib.Omega.{arith}

-- Fuel above the number does not change its digits.
module _ (z : ℕ → ℕ) (f : ℕ → ℕ → ℕ) where
  digits_more : (n m a b : ℕ) → a ≤ n → a ≤ m → digits z f n a b ≡ digits z f m a b
  digits_more zero zero a b p q = refl
  digits_more zero (suc m) zero b p q = refl
  digits_more zero (suc m) (suc a) b p q = absurd (omega arith)
  digits_more (suc n) zero zero b p q = refl
  digits_more (suc n) zero (suc a) b p q = absurd (omega arith)
  digits_more (suc n) (suc m) zero b p q = refl
  digits_more (suc n) (suc m) (suc a) b p q =
      rw (digits_more n m (suc a / 2) (b / 2) (omega arith) (omega arith))

  lowest_digit :
      (a b : ℕ)
      → bitwise z f (suc a) b ≡ bitwise z f (suc a / 2) (b / 2) * 2 + f (suc a % 2) (b % 2)
  lowest_digit a b =
      omega (arith, digits_more a (suc a / 2) (suc a / 2) (b / 2) (omega arith) (omega arith))

pub bit_or-halves : (a b : ℕ) → bit_or a b ≡ bit_or (a / 2) (b / 2) * 2 + max (a % 2) (b % 2)
bit_or-halves zero b = simp bit_or-bitwise (omega arith)
bit_or-halves (suc a) b = simp bit_or-bitwise (lowest_digit (λ y. y) max a b)

pub bit_and-halves : (a b : ℕ) → bit_and a b ≡ bit_and (a / 2) (b / 2) * 2 + min (a % 2) (b % 2)
bit_and-halves zero b = simp bit_and-bitwise (omega arith)
bit_and-halves (suc a) b = simp bit_and-bitwise (lowest_digit (λ y. 0) min a b)

bit_or-zero_upto : (n a : ℕ) → a ≤ n → bit_or a 0 ≡ a
bit_or-zero_upto n zero h = refl
bit_or-zero_upto zero (suc a) h = absurd (omega arith)
bit_or-zero_upto (suc n) (suc a) h =
    omega (arith, bit_or-halves (suc a) 0, bit_or-zero_upto n (suc a / 2) (omega arith))

pub bit_or-zero : (a : ℕ) → bit_or a 0 ≡ a
bit_or-zero a = bit_or-zero_upto a a (omega arith)

bit_and-zero_upto : (n a : ℕ) → a ≤ n → bit_and a 0 ≡ 0
bit_and-zero_upto n zero h = refl
bit_and-zero_upto zero (suc a) h = absurd (omega arith)
bit_and-zero_upto (suc n) (suc a) h =
    omega (arith, bit_and-halves (suc a) 0, bit_and-zero_upto n (suc a / 2) (omega arith))

pub bit_and-zero : (a : ℕ) → bit_and a 0 ≡ 0
bit_and-zero a = bit_and-zero_upto a a (omega arith)

bit_or_comm_upto : (n a b : ℕ) → a ≤ n → b ≤ n → bit_or a b ≡ bit_or b a
bit_or_comm_upto zero a b h k = ground arith
bit_or_comm_upto (suc n) a b h k = omega (
  arith,
  bit_or-halves a b,
  bit_or-halves b a,
  bit_or_comm_upto n (a / 2) (b / 2) (omega arith) (omega arith),
)

pub bit_or_comm : (a b : ℕ) → bit_or a b ≡ bit_or b a
bit_or_comm a b = bit_or_comm_upto (max a b) a b (omega arith) (omega arith)

double : (q k : ℕ) → q * 2 ^ suc k ≡ 2 * (q * 2 ^ k)
double q k = omega (arith, ap (λ (t : ℕ). q * t) (pow-suc 2 k))

-- `(q << k) | r` is a sum where `r` fits `k` bits.
pub bit_or-shifted : (k q r : ℕ) → r < 2 ^ k → bit_or (q * 2 ^ k) r ≡ q * 2 ^ k + r
bit_or-shifted zero q r h = ground (arith, bit_or-zero q)
bit_or-shifted (suc k) q r h =
    ground
      (arith, bit_or-halves (q * 2 ^ suc k) r, double q k, bit_or-shifted k q (r / 2) (omega arith))

bit_and-low_of_fields : (k q r : ℕ) → r < 2 ^ k → bit_and (q * 2 ^ k + r) (2 ^ k - 1) ≡ r
bit_and-low_of_fields zero q r h = ground (arith, bit_and-zero q)
bit_and-low_of_fields (suc k) q r h = ground (
  arith,
  bit_and-halves (q * 2 ^ suc k + r) (2 ^ suc k - 1),
  double q k,
  pow-suc 2 k,
  bit_and-low_of_fields k q (r / 2) (omega arith),
)

-- `a & (2^k - 1)` is the remainder by `2^k`.
pub bit_and-low : (k a : ℕ) → bit_and a (2 ^ k - 1) ≡ a % 2 ^ k
bit_and-low k a = ground (arith, one-le-pow k 2, bit_and-low_of_fields k (a / 2 ^ k) (a % 2 ^ k))

-- Over a small range, check every value by evaluation.
module _ (f g : ℕ → ℕ) where
  same_below : ℕ → Bool
  same_below zero = true
  same_below (suc n) = elim (compare (f n) (g n)) [ Ordering.eq ↦ same_below n | _ ↦ false ]

  same_below_sound : (n : ℕ) → same_below n ≡ true → (i : ℕ) → i < n → f i ≡ g i
  unfolding same_below
  same_below_sound zero e i h = absurd (omega arith)
  same_below_sound (suc n) e i h = ground (arith, same_below_sound n (ground arith) i)

-- A bit set above, and tested there.
pub bit_or-128 : (a : ℕ) → a < 128 → bit_or a 0x80 ≡ a + 128
unfolding same_below
bit_or-128 = same_below_sound _ _ 128 refl

pub bit_and-128 : (a : ℕ) → a < 256 → bit_and a 0x80 ≡ a / 128 * 128
unfolding same_below
bit_and-128 = same_below_sound _ _ 256 refl

pub bit_and-127 : (a : ℕ) → bit_and a 0x7f ≡ a % 128
bit_and-127 a = bit_and-low 7 a

pub bit_and-1 : (a : ℕ) → bit_and a 1 ≡ a % 2
bit_and-1 a = bit_and-low 1 a

pub bit_xor-halves : (a b : ℕ) → bit_xor a b ≡ bit_xor (a / 2) (b / 2) * 2 + differ (a % 2) (b % 2)
bit_xor-halves zero b = simp bit_xor-bitwise (grind arith)
bit_xor-halves (suc a) b = simp bit_xor-bitwise (lowest_digit (λ y. y) differ a b)

differ-lt : (x y : ℕ) → x < 2 → y < 2 → differ x y < 2
differ-lt zero y h k = k
differ-lt (suc x) zero h k = h
differ-lt (suc zero) (suc y) h k = omega arith
differ-lt (suc (suc x)) (suc y) h k = absurd (omega arith)

pub div_pow_suc : (x k : ℕ) → x / 2 ^ suc k ≡ x / 2 ^ k / 2
div_pow_suc x k = rw (div-div-eq-div-mul x (2 ^ k) 2) (ap (λ t. x / t) (pow-suc 2 k))

bit_xor-half : (a b : ℕ) → bit_xor a b / 2 ≡ bit_xor (a / 2) (b / 2)
bit_xor-half a b =
    omega (arith, bit_xor-halves a b, differ-lt (a % 2) (b % 2) (omega arith) (omega arith))

pub bit_xor-div_pow : (k a b : ℕ) → bit_xor a b / 2 ^ k ≡ bit_xor (a / 2 ^ k) (b / 2 ^ k)
bit_xor-div_pow zero a b = ground arith
bit_xor-div_pow (suc k) a b =
    rw (div_pow_suc (bit_xor a b) k, div_pow_suc a k, div_pow_suc b k, bit_xor-div_pow k a b)
      (bit_xor-half (a / 2 ^ k) (b / 2 ^ k))
