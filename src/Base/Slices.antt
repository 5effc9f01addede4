-- ===== src/Base/Slices.antt =====
-- `take` and `drop` over appended lists and in two parts.
use Prim.Native.Nat.{ℕ, zero, suc, ◌+◌, ◌≤◌}
use mathlib.Core.Path.{◌≡◌, refl, ap}
use mathlib.Core.List.{List, [], ◌∷◌, ◌++◌}
use native.Mathlib.Omega.{arith}
use luava.Base.Lists.{length, take, drop}

module _ {ℓ} {A : Type ℓ} where
  pub take-append_le : (n : ℕ) (xs ys : List A) → n ≤ length xs → take n (xs ++ ys) ≡ take n xs
  take-append_le zero xs ys h = refl
  take-append_le (suc n) [] ys h = absurd (omega arith)
  take-append_le (suc n) (x ∷ xs) ys h = ap (λ t. x ∷ t) (take-append_le n xs ys (omega arith))

  pub drop-append_le :
      (n : ℕ) (xs ys : List A) → n ≤ length xs → drop n (xs ++ ys) ≡ drop n xs ++ ys
  drop-append_le zero xs ys h = refl
  drop-append_le (suc n) [] ys h = absurd (omega arith)
  drop-append_le (suc n) (x ∷ xs) ys h = drop-append_le n xs ys (omega arith)

  pub take_all : (n : ℕ) (xs : List A) → length xs ≤ n → take n xs ≡ xs
  take_all zero [] h = refl
  take_all zero (x ∷ xs) h = absurd (omega arith)
  take_all (suc n) [] h = refl
  take_all (suc n) (x ∷ xs) h = ap (λ t. x ∷ t) (take_all n xs (omega arith))

  pub drop_all : (n : ℕ) (xs : List A) → length xs ≤ n → drop n xs ≡ []
  drop_all zero [] h = refl
  drop_all zero (x ∷ xs) h = absurd (omega arith)
  drop_all (suc n) [] h = refl
  drop_all (suc n) (x ∷ xs) h = drop_all n xs (omega arith)

  pub take_parts :
      (m n k : ℕ) (xs : List A) → m + k ≡ n → take n xs ≡ take m xs ++ take k (drop m xs)
  take_parts zero n k xs h = let e : n ≡ k = omega arith in rw e
  take_parts (suc m) zero k xs h = absurd (omega arith)
  take_parts (suc m) (suc n) zero [] h = refl
  take_parts (suc m) (suc n) (suc k) [] h = refl
  take_parts (suc m) (suc n) k (x ∷ xs) h = ap (λ t. x ∷ t) (take_parts m n k xs (omega arith))

  pub drop_parts : (m n k : ℕ) (xs : List A) → m + k ≡ n → drop n xs ≡ drop k (drop m xs)
  drop_parts zero n k xs h = let e : n ≡ k = omega arith in rw e
  drop_parts (suc m) zero k xs h = absurd (omega arith)
  drop_parts (suc m) (suc n) zero [] h = refl
  drop_parts (suc m) (suc n) (suc k) [] h = refl
  drop_parts (suc m) (suc n) k (x ∷ xs) h = drop_parts m n k xs (omega arith)

  pub take-append_self : (xs ys : List A) → take (length xs) (xs ++ ys) ≡ xs
  take-append_self [] ys = refl
  take-append_self (x ∷ xs) ys = ap (λ t. x ∷ t) (take-append_self xs ys)

  pub drop-append_self : (xs ys : List A) → drop (length xs) (xs ++ ys) ≡ ys
  drop-append_self [] ys = refl
  drop-append_self (x ∷ xs) ys = drop-append_self xs ys

  pub take_exact : (n : ℕ) (xs ys : List A) → length xs ≡ n → take n (xs ++ ys) ≡ xs
  take_exact n xs ys h = rw (← h) (take-append_self xs ys)

  pub drop_exact : (n : ℕ) (xs ys : List A) → length xs ≡ n → drop n (xs ++ ys) ≡ ys
  drop_exact n xs ys h = rw (← h) (drop-append_self xs ys)
