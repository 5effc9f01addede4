-- ===== src/Table/Sort/Parting.antt =====
-- partition of lua/src/ltablib.c under an order: the post-condition that its comment states.
use luava.Base.{ℕ, zero, suc, ◌+◌, ◌-◌, ◌≤◌, ◌<◌, ◌≡◌, refl, arith}
use luava.Base.{Bool, true, false, ltb, leb, ◌==◌, Bool-cases, inl, inr}
use luava.Table.Sort.{Scan, Parted, set2, scan_up, scan_down, at_down, at_up, part_loop, partition}
use luava.Table.Sort.Scans.{
  IsOrder, NotAbove, NotBelow, Rises, Falls, lt_irrefl, scan_up-Rises, scan_down-Falls,
}

module _ {V : Type 0} (lt : V → V → Bool) (order : IsOrder lt) where
  -- a[lo .. p - 1] <= a[p] == P <= a[p + 1 .. up], and no error.
  abbrev pub Splits : V → ℕ → ℕ → Parted V → Type 0
  Splits P lo up (Parted.at p b) =
      NotAbove lt order P b lo (p - 1) × NotBelow lt order P b (p + 1) up × (b p ≡ P)
  Splits P lo up (Parted.wrong b) = ⊥
  Splits P lo up Parted.stuck = ⊥

  -- The next rounds, where the invariant of the loop holds.
  abbrev AgainSplits : ((ℕ → V) → ℕ → ℕ → Parted V) → V → ℕ → ℕ → ℕ → ℕ → Type 0
  AgainSplits again P lo i j up =
      (b : ℕ → V) (i' j' : ℕ)
      → i < i'
      → i' ≤ j'
      → j' < j
      → b (up - 1) ≡ P
      → NotAbove lt order P b lo i'
      → NotBelow lt order P b j' up
      → Splits P lo up (again b i' j')

  at_down-Splits :
      (again : (ℕ → V) → ℕ → ℕ → Parted V) (a : ℕ → V) (P : V) (lo i j up i' : ℕ)
      → lo ≤ i
      → j < up
      → i < i'
      → i' ≤ up - 1
      → a (up - 1) ≡ P
      → NotAbove lt order P a lo (i' - 1)
      → lt (a i') P ≡ false
      → NotBelow lt order P a j up
      → AgainSplits again P lo i j up
      → (s : Scan) → Falls lt order a P j s
      → Splits P lo up (at_down again a P up i' s)
  unfolding at_down
  at_down-Splits again a P lo i j up i' li ju ii iu e below at_i above k Scan.wrong h = h
  at_down-Splits again a P lo i j up i' li ju ii iu e below at_i above k Scan.stuck h = h
  at_down-Splits again a P lo i j up i' li ju ii iu e below at_i above k (Scan.at j')
        (jj, between, at_j) =
      elim (Bool-cases (ltb j' i')) [
        | inl over ↦ rw over (low, high (ground arith), rw (same i') refl)
        | inr more ↦ rw more (
            k b i' j' ii (ground arith) jj
              (rw (apart (up - 1) j' (omega arith), apart (up - 1) i' (ground arith)) e)
              (swapped_low (ground arith)) (swapped_high (ground arith)))
      ]
    where
      b : ℕ → V
      b = set2 a i' j' (a i') (a j')

      same : (m : ℕ) → (m == m) ≡ true
      same m = ground arith

      apart : (m n : ℕ) → n < m → (m == n) ≡ false
      apart m n h = ground arith

      apart' : (m n : ℕ) → m < n → (m == n) ≡ false
      apart' m n h = ground arith

      low : NotAbove lt order P (set2 a (up - 1) i' P (a i')) lo (i' - 1)
      low m l h = rw (apart' m i' (omega arith), apart' m (up - 1) (omega arith)) (below m l h)

      not_below : (m : ℕ) → j' < m → m ≤ up → lt (a m) P ≡ false
      not_below m l h = elim (Bool-cases (ltb m j)) [
        | inl under ↦ between m (omega arith) (ground arith)
        | inr up_there ↦ above m (ground arith) h
      ]

      high : j' < i' → NotBelow lt order P (set2 a (up - 1) i' P (a i')) (i' + 1) up
      high over m l h = elim (Bool-cases (m == up - 1)) [
        | inl last ↦ rw (apart m i' (omega arith), last) at_i
        | inr other ↦ rw (apart m i' (omega arith), other) (not_below m (omega arith) h)
      ]

      swapped_low : i' ≤ j' → NotAbove lt order P b lo i'
      swapped_low le m l h = elim (Bool-cases (m == j')) [
        | inl at_jj ↦ let is : i' ≡ j' = ground arith in rw at_jj (rw is at_j)
        | inr other ↦ elim (Bool-cases (m == i')) [
          | inl at_ii ↦ rw (other, at_ii) at_j
          | inr neither ↦ rw (other, neither) (below m l (ground arith))
        ]
      ]

      swapped_high : i' ≤ j' → NotBelow lt order P b j' up
      swapped_high le m l h = elim (Bool-cases (m == j')) [
        | inl at_jj ↦ rw at_jj at_i
        | inr other ↦ elim (Bool-cases (m == i')) [
          | inl at_ii ↦ absurd (ground arith)
          | inr neither ↦ rw (other, neither) (not_below m (ground arith) h)
        ]
      ]

  at_up-Splits :
      (again : (ℕ → V) → ℕ → ℕ → Parted V) (a : ℕ → V) (P : V) (lo i j up : ℕ)
      → lo ≤ i
      → i ≤ j
      → lo < j
      → j < up
      → a (up - 1) ≡ P
      → NotAbove lt order P a lo i
      → NotBelow lt order P a j up
      → AgainSplits again P lo i j up
      → (s : Scan) → Rises lt order a P i up s
      → Splits P lo up (at_up lt again a P up j s)
  unfolding at_up
  at_up-Splits again a P lo i j up li ij lj ju e below above k Scan.wrong h = h
  at_up-Splits again a P lo i j up li ij lj ju e below above k Scan.stuck h = h
  at_up-Splits again a P lo i j up li ij lj ju e below above k (Scan.at i')
        (ii, iu, between, at_i) =
      at_down-Splits again a P lo i j up i' li ju ii iu e below' at_i above k
        (scan_down lt (j + 1) a P i' j)
        (scan_down-Falls lt order (j + 1) a P lo i' j (omega arith) (omega arith) lj below')
    where
      below' : NotAbove lt order P a lo (i' - 1)
      below' m l h = elim (Bool-cases (leb m i)) [
        | inl under ↦ below m l (ground arith)
        | inr over ↦ between m (ground arith) h
      ]

  part_loop-Splits :
      (fuel : ℕ) (a : ℕ → V) (P : V) (lo i j up : ℕ)
      → j - i < fuel
      → lo ≤ i
      → i ≤ j
      → lo < j
      → i < up - 1
      → j < up
      → a (up - 1) ≡ P
      → NotAbove lt order P a lo i
      → NotBelow lt order P a j up
      → Splits P lo up (part_loop lt fuel a P i j up)
  unfolding part_loop
  part_loop-Splits zero a P lo i j up few li ij lj iu ju e below above = absurd (omega arith)
  part_loop-Splits (suc fuel) a P lo i j up few li ij lj iu ju e below above =
      at_up-Splits (λ b i' j'. part_loop lt fuel b P i' j' up) a P lo i j up li ij lj ju e below
        above
        (λ b i' j' after apart before f low high.
          part_loop-Splits fuel b P lo i' j' up (omega arith) (omega arith) apart (omega arith)
            (omega arith) (omega arith) f low high)
        (scan_up lt (up - i) a P i up) (scan_up-Rises lt order (up - i) a P i up (omega arith) iu e)

  -- Under an order partition puts the values that are not above the pivot before it, and those that
  -- are not below it behind.
  pub partition-Splits :
      (a : ℕ → V) (P : V) (lo up : ℕ)
      → lo + 2 < up
      → a (up - 1) ≡ P
      → lt P (a lo) ≡ false
      → lt (a up) P ≡ false
      → Splits P lo up (partition lt a P lo up)
  unfolding partition
  partition-Splits a P lo up far e first last =
      part_loop-Splits (up - lo) a P lo lo (up - 1) up (omega arith) (omega arith) (omega arith)
        (omega arith) (omega arith) (omega arith) e low high
    where
      low : NotAbove lt order P a lo lo
      low k l h = let is : k ≡ lo = omega arith in rw is first

      high : NotBelow lt order P a (up - 1) up
      high k l h = elim (Bool-cases (k == up)) [
        | inl end ↦ let is : k ≡ up = ground arith in rw is last
        | inr other ↦ let is : k ≡ up - 1 = ground arith in rw is (rw e (lt_irrefl lt order P))
      ]
