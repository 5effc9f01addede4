-- ===== src/Table/Sort/Bounds.antt =====
-- The scans, the partition and the pivot of table.sort (lua/src/ltablib.c) stay inside the part.
use luava.Base.{ℕ, zero, suc, ◌+◌, ◌-◌, ◌*◌, ◌/◌, ◌%◌, ◌^◌, ◌≤◌, ◌<◌, ◌≡◌, arith}
use luava.Base.{Bool, false, ◌||◌, ltb, ◌==◌, Bool-cases, inl, inr, bit_xor}
use luava.Table.Sort.{Scan, Parted, set2, choose_pivot, pivot_index}
use luava.Table.Sort.{ranlimit, scan_up, scan_down, at_down, at_up, part_loop}
use native.Mathlib.Nat.{mod-lt}
use luava.Table.Sort.Swaps.{Swaps, same, Swaps-trans, Swaps-one}

-- A scan that stops between two positions, or with the error.
abbrev pub StopsIn : ℕ → ℕ → Scan → Type 0
StopsIn low high (Scan.at k) = (low ≤ k) × (k ≤ high)
StopsIn low high Scan.wrong = Unit {0}
StopsIn low high Scan.stuck = ⊥

StopsIn-weaken :
    (low high low' high' : ℕ) (s : Scan)
    → low' ≤ low
    → high ≤ high'
    → StopsIn low high s
    → StopsIn low' high' s
StopsIn-weaken low high low' high' (Scan.at k) p q h = omega arith
StopsIn-weaken low high low' high' Scan.wrong p q h = tt
StopsIn-weaken low high low' high' Scan.stuck p q h = h

module _ {V : Type 0} (lt : V → V → Bool) where
  pub scan_up-StopsIn :
      (fuel : ℕ) (a : ℕ → V) (P : V) (i up : ℕ)
      → up - i ≤ fuel
      → i < up - 1
      → StopsIn (i + 1) (up - 1) (scan_up lt fuel a P i up)
  unfolding scan_up
  scan_up-StopsIn zero a P i up few below = absurd (omega arith)
  scan_up-StopsIn (suc fuel) a P i up few below = elim (Bool-cases (lt (a (i + 1)) P)) [
    | inl less ↦ elim (Bool-cases (i + 1 == up - 1)) [
      | inl last ↦ rw (less, last) tt
      | inr more ↦
          rw (less, more)
            (StopsIn-weaken (i + 1 + 1) (up - 1) (i + 1) (up - 1) (scan_up lt fuel a P (i + 1) up)
              (omega arith) (omega arith)
              (scan_up-StopsIn fuel a P (i + 1) up (omega arith) (ground arith)))
    ]
    | inr stop ↦ rw stop (omega arith)
  ]

  pub scan_down-StopsIn :
      (fuel : ℕ) (a : ℕ → V) (P : V) (i j : ℕ)
      → j < fuel
      → 1 ≤ i
      → 1 ≤ j
      → StopsIn 0 (j - 1) (scan_down lt fuel a P i j)
  unfolding scan_down
  scan_down-StopsIn zero a P i j few one some = absurd (omega arith)
  scan_down-StopsIn (suc fuel) a P i j few one some = elim (Bool-cases (lt P (a (j - 1)))) [
    | inl less ↦ elim (Bool-cases (ltb (j - 1) i)) [
      | inl crossed ↦ rw (less, crossed) tt
      | inr more ↦
          rw (less, more)
            (StopsIn-weaken 0 (j - 1 - 1) 0 (j - 1) (scan_down lt fuel a P i (j - 1)) (omega arith)
              (omega arith) (scan_down-StopsIn fuel a P i (j - 1) (omega arith) one (ground arith)))
    ]
    | inr stop ↦ rw stop (omega arith)
  ]

  -- A partition that ends: it rearranges the part, and its position lies inside.
  abbrev pub Parts : ℕ → ℕ → (ℕ → V) → Parted V → Type 0
  Parts lo up a (Parted.at p b) = (lo < p) × (p < up) × Swaps lo up a b
  Parts lo up a (Parted.wrong b) = Swaps lo up a b
  Parts lo up a Parted.stuck = ⊥

  pub Parts-after :
      (lo up : ℕ) (a b : ℕ → V) (r : Parted V) → Swaps lo up a b → Parts lo up b r → Parts lo up a r
  Parts-after lo up a b (Parted.at p c) s (l, u, t) = (l, u, Swaps-trans s t)
  Parts-after lo up a b (Parted.wrong c) s t = Swaps-trans s t
  Parts-after lo up a b Parted.stuck s t = t

  -- The next rounds, after an exchange that keeps the pivot.
  abbrev Again : ((ℕ → V) → ℕ → ℕ → Parted V) → V → ℕ → ℕ → ℕ → ℕ → Type 0
  Again again P lo i j up =
      (b : ℕ → V) (i' j' : ℕ)
      → i < i'
      → i' ≤ j'
      → j' < j
      → b (up - 1) ≡ P
      → Parts lo up b (again b i' j')

  at_down-Parts :
      (again : (ℕ → V) → ℕ → ℕ → Parted V) (a : ℕ → V) (P : V) (lo i j up i' : ℕ)
      → lo ≤ i
      → j < up
      → i < i'
      → i' < up
      → 1 ≤ j
      → a (up - 1) ≡ P
      → Again again P lo i j up
      → (s : Scan) → StopsIn 0 (j - 1) s
      → Parts lo up a (at_down again a P up i' s)
  unfolding at_down
  at_down-Parts again a P lo i j up i' li ju ii iu some e k Scan.wrong h = same a
  at_down-Parts again a P lo i j up i' li ju ii iu some e k Scan.stuck h = h
  at_down-Parts again a P lo i j up i' li ju ii iu some e k (Scan.at j') h =
      elim (Bool-cases (ltb j' i')) [
        | inl over ↦ rw over (
          omega arith,
          omega arith,
          rw (← e) (Swaps-one (up - 1) i' (omega arith) (omega arith) (omega arith) (omega arith)),
        )
        | inr more ↦ rw more (
            Parts-after lo up a (set2 a i' j' (a i') (a j'))
              (again (set2 a i' j' (a i') (a j')) i' j')
              (Swaps-one i' j' (omega arith) (omega arith) (ground arith) (omega arith))
              (k (set2 a i' j' (a i') (a j')) i' j' ii (ground arith) (omega arith)
                (rw (apart j' (omega arith), apart i' (ground arith)) e)))
      ]
    where
      apart : (k : ℕ) → k < up - 1 → (up - 1 == k) ≡ false
      apart k h = ground arith

  at_up-Parts :
      (again : (ℕ → V) → ℕ → ℕ → Parted V) (a : ℕ → V) (P : V) (lo i j up : ℕ)
      → 1 ≤ lo
      → lo ≤ i
      → i ≤ j
      → i < up - 1
      → j < up
      → a (up - 1) ≡ P
      → Again again P lo i j up
      → (s : Scan) → StopsIn (i + 1) (up - 1) s
      → Parts lo up a (at_up lt again a P up j s)
  unfolding at_up
  at_up-Parts again a P lo i j up one li ij iu ju e k Scan.wrong h = same a
  at_up-Parts again a P lo i j up one li ij iu ju e k Scan.stuck h = h
  at_up-Parts again a P lo i j up one li ij iu ju e k (Scan.at i') h =
      at_down-Parts again a P lo i j up i' li ju (omega arith) (omega arith) (omega arith) e k
        (scan_down lt (j + 1) a P i' j)
        (scan_down-StopsIn (j + 1) a P i' j (omega arith) (omega arith) (omega arith))

  pub part_loop-Parts :
      (fuel : ℕ) (a : ℕ → V) (P : V) (lo i j up : ℕ)
      → j - i < fuel
      → 1 ≤ lo
      → lo ≤ i
      → i ≤ j
      → i < up - 1
      → j < up
      → a (up - 1) ≡ P
      → Parts lo up a (part_loop lt fuel a P i j up)
  unfolding part_loop
  part_loop-Parts zero a P lo i j up few one li ij iu ju e = absurd (omega arith)
  part_loop-Parts (suc fuel) a P lo i j up few one li ij iu ju e =
      at_up-Parts (λ b i' j'. part_loop lt fuel b P i' j' up) a P lo i j up one li ij iu ju e
        (λ b i' j' up_by apart down_by f.
          part_loop-Parts fuel b P lo i' j' up (omega arith) one (omega arith) apart (omega arith)
            (omega arith) f)
        (scan_up lt (up - i) a P i up) (scan_up-StopsIn (up - i) a P i up (omega arith) iu)

pub pivot_index-bounds :
    (lo up rnd : ℕ)
    → lo < up
    → up < 2 ^ 31
    → (lo ≤ pivot_index lo up rnd) × (pivot_index lo up rnd ≤ up)
unfolding pivot_index choose_pivot
pivot_index-bounds lo up rnd below few = elim (Bool-cases (ltb (up - lo) ranlimit || (rnd == 0))) [
  | inl middle ↦ rw middle (omega arith, omega arith)
  | inr random ↦
      let r4 = (up - lo) / 4 in
      let some : 1 ≤ (up - lo) / 4 = ground arith in
      let inside : bit_xor (bit_xor rnd lo) up % (r4 * 2) < r4 * 2 = mod-lt _ (omega arith) in
      rw random (omega arith, omega arith)
]
