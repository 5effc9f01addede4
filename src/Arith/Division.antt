-- ===== src/Arith/Division.antt =====
-- Floor division and its remainder.
use luava.Base.{ℕ, zero, suc, ◌+◌, ◌-◌, ◌*◌, ◌/◌, ◌%◌, ◌^◌, ◌≤◌, ◌<◌, ◌≡◌, refl, arith, ◌≢◌, ◌⊎◌}
use luava.Base.{true, false, not, ◌&&◌, ◌==◌, if◌then◌else◌, Bool-cases, inl, inr}
use luava.Base.Int.{ℤ, pos, negsuc, sub_ℕ, ◌+ℤ◌, ◌-ℤ◌, ◌*ℤ◌, ◌≤ℤ◌}
use luava.Base.Word.{cast_s2u, cast_u2s, xor_is_neg_lem, is_neg, IsInteger, min_integer}
use mathlib.Core.Bool.{xor}
use native.Mathlib.Nat.{mod-le}
use luava.Arith.{ok, int_neg, c_div, c_mod, is_zero, is_special, idiv, imod}

-- `q` is the quotient of `m` by `n` rounded down, and `r` what is left, with the sign of `n`.
abbrev pub IsFloorDiv : ℤ → ℤ → ℤ → ℤ → Type 0
IsFloorDiv m (pos b) q r = (m ≡ pos b *ℤ q +ℤ r) × (pos 0 ≤ℤ r) × (r +ℤ pos 1 ≤ℤ pos b)
IsFloorDiv m (negsuc b) q r = (m ≡ negsuc b *ℤ q +ℤ r) × (r ≤ℤ pos 0) × (negsuc b +ℤ pos 1 ≤ℤ r)

special_pos : (b : ℕ) → b < 2 ^ 63 → is_special (pos b) ≡ (b == 0)
unfolding is_special cast_s2u
special_pos b h = ground arith

special_negsuc : (b : ℕ) → b < 2 ^ 63 → is_special (negsuc b) ≡ (b == 0)
unfolding is_special cast_s2u
special_negsuc b h = ground arith

c_mod-IsInteger : (m n : ℤ) → IsInteger m → IsInteger n → IsInteger (c_mod m n)
unfolding c_mod
c_mod-IsInteger (pos a) (pos b) h k = grind (arith, mod-le)
c_mod-IsInteger (pos a) (negsuc b) h k = ground (arith, mod-le a (b + 1))
c_mod-IsInteger (negsuc a) (pos b) h k = ground (arith, mod-le (a + 1) b)
c_mod-IsInteger (negsuc a) (negsuc b) h k = ground (arith, mod-le (a + 1) (b + 1))

-- With an ordinary divisor, and the signs read off the numbers.
idiv_ordinary :
    (m n : ℤ)
    → IsInteger m
    → IsInteger n
    → is_special n ≡ false
    → idiv m n ≡ (
        if xor (is_neg m) (is_neg n) && not (is_zero (c_mod m n))
        then ok (c_div m n -ℤ pos 1)
        else ok (c_div m n))
unfolding idiv
idiv_ordinary m n hm hn e = rw (e, xor_is_neg_lem m n hm hn)

imod_ordinary :
    (m n : ℤ)
    → IsInteger m
    → IsInteger n
    → is_special n ≡ false
    → imod m n ≡ (
        if not (is_zero (c_mod m n)) && xor (is_neg (c_mod m n)) (is_neg n)
        then ok (c_mod m n +ℤ n)
        else ok (c_mod m n))
unfolding imod
imod_ordinary m n hm hn e = rw (e, xor_is_neg_lem (c_mod m n) n (c_mod-IsInteger m n hm hn) hn)

-- Both results for one pair of operands.
pub record Floored (m n : ℤ) : Type 0 where
  pub quotient : ℤ
  pub remainder : ℤ
  pub divides : idiv m n ≡ ok quotient
  pub leaves : imod m n ≡ ok remainder
  pub floor : IsFloorDiv m n quotient remainder
  pub quotient_fits : IsInteger quotient
  pub remainder_fits : IsInteger remainder

div_facts : (a b : ℕ) → 0 < b → (a ≡ b * (a / b) + a % b) × (a % b < b) × (a / b ≤ a)
div_facts a b h = (grind arith, grind arith, grind arith)

pos_pos : (a b : ℕ) → a < 2 ^ 63 → b < 2 ^ 63 → 0 < b → Floored (pos a) (pos b)
unfolding c_div c_mod xor ◌+ℤ◌ ◌*ℤ◌
pos_pos a b ha hb h =
    let ordinary : is_special (pos b) ≡ false = rw special_pos (ground arith) in
    record {
      quotient = pos (a / b);
      remainder = pos (a % b);
      divides = idiv_ordinary (pos a) (pos b) (omega arith) (omega arith) ordinary;
      leaves =
          rw (imod_ordinary (pos a) (pos b) (omega arith) (omega arith) ordinary) (ground arith);
      floor = ground (arith, div_facts a b);
      quotient_fits = ground (arith, div_facts a b);
      remainder_fits = ground (arith, mod-le a b);
    }

pos_negsuc_exact :
    (a b : ℕ)
    → a < 2 ^ 63
    → b < 2 ^ 63
    → is_special (negsuc b) ≡ false
    → (a % (b + 1) == 0) ≡ true
    → Floored (pos a) (negsuc b)
unfolding c_div c_mod xor ◌+ℤ◌ ◌*ℤ◌
pos_negsuc_exact a b ha hb ordinary e = record {
  quotient = sub_ℕ 0 (a / (b + 1));
  remainder = pos 0;
  divides = rw (idiv_ordinary (pos a) (negsuc b) (omega arith) (omega arith) ordinary, e);
  leaves =
      rw (imod_ordinary (pos a) (negsuc b) (omega arith) (omega arith) ordinary, e) (ground arith);
  floor = ground (arith, div_facts a (b + 1));
  quotient_fits = ground (arith, div_facts a (b + 1));
  remainder_fits = omega arith;
}

pos_negsuc_inexact :
    (a b : ℕ)
    → a < 2 ^ 63
    → b < 2 ^ 63
    → is_special (negsuc b) ≡ false
    → (a % (b + 1) == 0) ≡ false
    → Floored (pos a) (negsuc b)
unfolding c_div c_mod xor ◌+ℤ◌ ◌-ℤ◌ ◌*ℤ◌
pos_negsuc_inexact a b ha hb ordinary e = record {
  quotient = negsuc (a / (b + 1));
  remainder = negsuc (b - a % (b + 1));
  divides =
      rw (idiv_ordinary (pos a) (negsuc b) (omega arith) (omega arith) ordinary, e) (ground arith);
  leaves =
      rw (imod_ordinary (pos a) (negsuc b) (omega arith) (omega arith) ordinary, e)
        (ground (arith, div_facts a (b + 1)));
  floor = ground (arith, div_facts a (b + 1));
  quotient_fits = ground (arith, div_facts a (b + 1));
  remainder_fits = ground (arith, div_facts a (b + 1));
}

pos_negsuc : (a b : ℕ) → a < 2 ^ 63 → b < 2 ^ 63 → 0 < b → Floored (pos a) (negsuc b)
pos_negsuc a b ha hb h =
    let ordinary : is_special (negsuc b) ≡ false = rw special_negsuc (ground arith) in
    elim (Bool-cases (a % (b + 1) == 0)) [
      | inl exact ↦ pos_negsuc_exact a b ha hb ordinary exact
      | inr inexact ↦ pos_negsuc_inexact a b ha hb ordinary inexact
    ]

-- A divisor above 1 halves at least, and an inexact quotient leaves room for one more.
half_room : (a b : ℕ) → 1 < b → 2 * (a / b) ≤ a
half_room a b h = grind (arith, div_facts a b)

quotient_room : (a b : ℕ) → 0 < b → (a % b == 0) ≡ false → a / b + 1 ≤ a
quotient_room a zero h e = absurd (omega arith)
quotient_room a (suc zero) h e = absurd (ground arith)
quotient_room a (suc (suc b)) h e =
    ground (arith, half_room a (suc (suc b)) (omega arith), mod-le a (suc (suc b)))

negsuc_pos_exact :
    (a b : ℕ)
    → a < 2 ^ 63
    → b < 2 ^ 63
    → is_special (pos b) ≡ false
    → 0 < b
    → ((a + 1) % b == 0) ≡ true
    → Floored (negsuc a) (pos b)
unfolding c_div c_mod xor ◌+ℤ◌ ◌*ℤ◌
negsuc_pos_exact a b ha hb ordinary h e = record {
  quotient = sub_ℕ 0 ((a + 1) / b);
  remainder = pos 0;
  divides =
      rw (idiv_ordinary (negsuc a) (pos b) (omega arith) (omega arith) ordinary) (ground arith);
  leaves =
      rw (imod_ordinary (negsuc a) (pos b) (omega arith) (omega arith) ordinary) (ground arith);
  floor = ground (arith, div_facts (a + 1) b);
  quotient_fits = ground (arith, div_facts (a + 1) b);
  remainder_fits = omega arith;
}

negsuc_pos_inexact :
    (a b : ℕ)
    → a < 2 ^ 63
    → b < 2 ^ 63
    → is_special (pos b) ≡ false
    → 0 < b
    → ((a + 1) % b == 0) ≡ false
    → Floored (negsuc a) (pos b)
unfolding c_div c_mod xor ◌+ℤ◌ ◌-ℤ◌ ◌*ℤ◌
negsuc_pos_inexact a b ha hb ordinary h e = record {
  quotient = negsuc ((a + 1) / b);
  remainder = pos (b - (a + 1) % b);
  divides =
      rw (idiv_ordinary (negsuc a) (pos b) (omega arith) (omega arith) ordinary) (ground arith);
  leaves =
      rw (imod_ordinary (negsuc a) (pos b) (omega arith) (omega arith) ordinary)
        (ground (arith, div_facts (a + 1) b));
  floor = ground (arith, div_facts (a + 1) b);
  quotient_fits = ground (arith, div_facts (a + 1) b, quotient_room (a + 1) b);
  remainder_fits = ground (arith, div_facts (a + 1) b);
}

negsuc_pos : (a b : ℕ) → a < 2 ^ 63 → b < 2 ^ 63 → 0 < b → Floored (negsuc a) (pos b)
negsuc_pos a b ha hb h =
    let ordinary : is_special (pos b) ≡ false = rw special_pos (ground arith) in
    elim (Bool-cases ((a + 1) % b == 0)) [
      | inl exact ↦ negsuc_pos_exact a b ha hb ordinary h exact
      | inr inexact ↦ negsuc_pos_inexact a b ha hb ordinary h inexact
    ]

negsuc_negsuc : (a b : ℕ) → a < 2 ^ 63 → b < 2 ^ 63 → 0 < b → Floored (negsuc a) (negsuc b)
unfolding c_div c_mod xor ◌+ℤ◌ ◌*ℤ◌
negsuc_negsuc a b ha hb h =
    let ordinary : is_special (negsuc b) ≡ false = rw special_negsuc (ground arith) in
    record {
      quotient = pos ((a + 1) / (b + 1));
      remainder = sub_ℕ 0 ((a + 1) % (b + 1));
      divides =
          rw (idiv_ordinary (negsuc a) (negsuc b) (omega arith) (omega arith) ordinary)
            (ground arith);
      leaves =
          rw (imod_ordinary (negsuc a) (negsuc b) (omega arith) (omega arith) ordinary)
            (ground arith);
      floor = ground (arith, div_facts (a + 1) (b + 1));
      quotient_fits = ground (arith, div_facts (a + 1) (b + 1), half_room (a + 1) (b + 1));
      remainder_fits = ground (arith, div_facts (a + 1) (b + 1));
    }

-- -1 divides without a remainder, and the quotient is negated; only the least integer would wrap.
minus_one : (m : ℤ) → IsInteger m → m ≢ min_integer → Floored m (negsuc 0)
unfolding idiv imod int_neg is_special cast_s2u cast_u2s ◌+ℤ◌ ◌*ℤ◌
minus_one (pos a) h ne = record {
  quotient = sub_ℕ 0 a;
  remainder = pos 0;
  divides = ground arith;
  leaves = refl;
  floor = ground arith;
  quotient_fits = ground arith;
  remainder_fits = omega arith;
}
minus_one (negsuc a) h ne = record {
  quotient = pos (a + 1);
  remainder = pos 0;
  divides = ground arith;
  leaves = refl;
  floor = ground arith;
  quotient_fits = ground arith;
  remainder_fits = omega arith;
}

-- Both operands in range, a divisor other than 0, and not the one pair that overflows: luaV_idiv
-- returns the quotient rounded down, luaV_mod the remainder that belongs to it, with the sign of the
-- divisor, and both are in range.
pub floor_division :
    (m n : ℤ)
    → IsInteger m
    → IsInteger n
    → n ≢ pos 0
    → (m ≢ min_integer) ⊎ (n ≢ negsuc 0)
    → Floored m n
floor_division m (pos zero) hm hn ne fits = absurd (ne refl)
floor_division (pos a) (pos (suc b)) hm hn ne fits =
    pos_pos a (suc b) (omega arith) (omega arith) (omega arith)
floor_division (negsuc a) (pos (suc b)) hm hn ne fits =
    negsuc_pos a (suc b) (omega arith) (omega arith) (omega arith)
floor_division m (negsuc zero) hm hn ne (inl fits) = minus_one m hm fits
floor_division m (negsuc zero) hm hn ne (inr fits) = absurd (fits refl)
floor_division (pos a) (negsuc (suc b)) hm hn ne fits =
    pos_negsuc a (suc b) (omega arith) (omega arith) (omega arith)
floor_division (negsuc a) (negsuc (suc b)) hm hn ne fits =
    negsuc_negsuc a (suc b) (omega arith) (omega arith) (omega arith)
