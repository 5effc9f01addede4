-- ===== src/Table/Sort/Swaps.antt =====
-- Rearrangements of a part of an array: what table.sort (lua/src/ltablib.c) does to a table.
use luava.Base.{ℕ, ◌≤◌, ◌<◌, ◌≡◌, ◌⊎◌, refl, ◌∙◌, arith, false, ◌==◌}
use luava.Base.{Bool-cases, inl, inr}
use luava.Table.Sort.{set2}

module _ {V : Type 0} where
  -- `b` comes from `a` by exchanges of two positions from `lo` to `up`.
  pub data Swaps (lo up : ℕ) : (ℕ → V) → (ℕ → V) → Type 0 where
    same : (a : ℕ → V) → Swaps lo up a a
    swap :
        {a b : ℕ → V} (i j : ℕ)
        → lo ≤ i
        → i ≤ up
        → lo ≤ j
        → j ≤ up
        → Swaps lo up (set2 a i j (a i) (a j)) b
        → Swaps lo up a b

  pub Swaps-trans :
      {lo up : ℕ} {a b c : ℕ → V} → Swaps lo up a b → Swaps lo up b c → Swaps lo up a c
  Swaps-trans (same a) q = q
  Swaps-trans (swap i j li iu lj ju p) q = swap i j li iu lj ju (Swaps-trans p q)

  pub Swaps-one :
      {lo up : ℕ} {a : ℕ → V} (i j : ℕ)
      → lo ≤ i
      → i ≤ up
      → lo ≤ j
      → j ≤ up
      → Swaps lo up a (set2 a i j (a i) (a j))
  Swaps-one i j li iu lj ju = swap i j li iu lj ju (same _)

  pub Swaps-widen :
      {lo up lo' up' : ℕ} {a b : ℕ → V} → lo' ≤ lo → up ≤ up' → Swaps lo up a b → Swaps lo' up' a b
  Swaps-widen p q (same a) = same a
  Swaps-widen p q (swap i j li iu lj ju s) =
      swap i j (omega arith) (omega arith) (omega arith) (omega arith) (Swaps-widen p q s)

  -- Positions outside keep their values.
  pub Swaps-outside :
      {lo up : ℕ} {a b : ℕ → V} (k : ℕ) → Swaps lo up a b → (k < lo) ⊎ (up < k) → b k ≡ a k
  Swaps-outside k (same a) h = refl
  Swaps-outside {a = a} k (swap i j li iu lj ju s) h =
      let ki : (k == i) ≡ false = ground arith in
      let kj : (k == j) ≡ false = ground arith in Swaps-outside k s h ∙ rw (kj, ki) refl

  -- A property of all the values in the part stays one.
  pub Swaps-inside :
      (P : V → Type 0) {lo up : ℕ} {a b : ℕ → V}
      → Swaps lo up a b
      → ((k : ℕ) → lo ≤ k → k ≤ up → P (a k))
      → (k : ℕ) → lo ≤ k
      → k ≤ up
      → P (b k)
  Swaps-inside P (same a) h = h
  Swaps-inside P {lo} {up} {a} (swap i j li iu lj ju s) h = Swaps-inside P s after
    where
      after : (k : ℕ) → lo ≤ k → k ≤ up → P (set2 a i j (a i) (a j) k)
      after k l u = elim (Bool-cases (k == j)) [
        | inl e ↦ rw e (h i li iu)
        | inr e ↦ elim (Bool-cases (k == i)) [
          | inl e' ↦ rw (e, e') (h j lj ju)
          | inr e' ↦ rw (e, e') (h k l u)
        ]
      ]
