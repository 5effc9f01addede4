-- ===== src/Base/Finite.antt =====
-- Properties of the first numbers, checked one by one.
use Prim.Native.Nat.{ℕ, zero, suc, ◌<◌}
use mathlib.Core.Path.{◌≡◌, refl, sym, ap, ◌∙◌}
use mathlib.Core.Logic.{inl, inr}
use mathlib.Core.Bool.{Bool, true, false, not, ◌&&◌, ◌||◌}
use native.Mathlib.Omega.{arith}
use luava.Base.Tests.{◌==◌, Bool-cases}

pub and_left : (a b : Bool) → a && b ≡ true → a ≡ true
and_left true b h = refl
and_left false b h = h

pub and_right : (a b : Bool) → a && b ≡ true → b ≡ true
and_right true b h = h
and_right false b h = cc

-- A test holds at every number below `n`.
unfoldable pub all_below : ℕ → (ℕ → Bool) → Bool
all_below zero f = true
all_below (suc n) f = let rest = all_below n f in f n && rest

pub below : (n : ℕ) (f : ℕ → Bool) (c : ℕ) → all_below n f ≡ true → c < n → f c ≡ true
unfolding all_below
below zero f c h lt = elim lt [ ]
below (suc n) f c h lt = elim (Bool-cases (c == n)) [
  | inl this ↦ ap f (ground arith) ∙ and_left (f n) (all_below n f) h
  | inr other ↦ below n f c (and_right (f n) (all_below n f) h) (ground arith)
]

-- An equation of numbers that is checked below `n`.
pub equal_below :
    (n : ℕ) (f g : ℕ → ℕ) (c : ℕ) → all_below n (λ c. f c == g c) ≡ true → c < n → f c ≡ g c
equal_below n f g c h lt = let e = below n (λ c. f c == g c) c h lt in ground arith

pub implied : (a : Bool) (n m : ℕ) → not a || (n == m) ≡ true → a ≡ true → n ≡ m
implied true n m h k = ground arith
implied false n m h k = cc

-- Equality of truth values, as a test.
unfoldable pub same : Bool → Bool → Bool
same true b = b
same false b = not b

pub same→eq : (a b : Bool) → same a b ≡ true → a ≡ b
unfolding same
same→eq true b h = sym h
same→eq false true h = cc
same→eq false false h = refl
