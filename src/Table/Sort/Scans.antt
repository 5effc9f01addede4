-- ===== src/Table/Sort/Scans.antt =====
-- The scans of partition (lua/src/ltablib.c) under an order.
use luava.Base.{ℕ, zero, suc, ◌+◌, ◌-◌, ◌≤◌, ◌<◌, ◌≡◌, arith}
use luava.Base.{Bool, true, false, ltb, ◌==◌, Bool-cases, inl, inr}
use luava.Table.Sort.{Scan, scan_up, scan_down}

-- What an order function must satisfy: `lt y x ≡ false` says that x stands before y or beside it.
pub record IsOrder {V : Type 0} (lt : V → V → Bool) : Type 0 where
  pub asym : (x y : V) → lt x y ≡ true → lt y x ≡ false
  pub trans : (x y z : V) → lt y x ≡ false → lt z y ≡ false → lt z x ≡ false

module _ {V : Type 0} (lt : V → V → Bool) (order : IsOrder lt) where
  pub lt_irrefl : (x : V) → lt x x ≡ false
  lt_irrefl x = elim (Bool-cases (lt x x)) [ inl e ↦ order.asym x x e | inr e ↦ e ]

  -- The values from `low` to `high` are not above, or not below, `P`.
  abbrev pub NotAbove : V → (ℕ → V) → ℕ → ℕ → Type 0
  NotAbove P a low high = (k : ℕ) → low ≤ k → k ≤ high → lt P (a k) ≡ false

  abbrev pub NotBelow : V → (ℕ → V) → ℕ → ℕ → Type 0
  NotBelow P a low high = (k : ℕ) → low ≤ k → k ≤ high → lt (a k) P ≡ false

  -- The first loop stops after values below `P`, at one that is not below it.
  abbrev pub Rises : (ℕ → V) → V → ℕ → ℕ → Scan → Type 0
  Rises a P i up (Scan.at k) =
      (i < k) × (k ≤ up - 1) × NotAbove P a (i + 1) (k - 1) × (lt (a k) P ≡ false)
  Rises a P i up Scan.wrong = ⊥
  Rises a P i up Scan.stuck = ⊥

  pub Rises-from :
      (a : ℕ → V) (P : V) (i up : ℕ) (s : Scan)
      → lt P (a (i + 1)) ≡ false
      → Rises a P (i + 1) up s
      → Rises a P i up s
  Rises-from a P i up (Scan.at k) e (ik, ku, below, stop) = (omega arith, ku, with_first, stop)
    where
      with_first : NotAbove P a (i + 1) (k - 1)
      with_first m lo hi = elim (Bool-cases (m == i + 1)) [
        | inl is ↦ let same : m ≡ i + 1 = ground arith in rw same e
        | inr other ↦ below m (ground arith) hi
      ]
  Rises-from a P i up Scan.wrong e h = h
  Rises-from a P i up Scan.stuck e h = h

  pub scan_up-Rises :
      (fuel : ℕ) (a : ℕ → V) (P : V) (i up : ℕ)
      → up - i ≤ fuel
      → i < up - 1
      → a (up - 1) ≡ P
      → Rises a P i up (scan_up lt fuel a P i up)
  unfolding scan_up
  scan_up-Rises zero a P i up few below e = absurd (omega arith)
  scan_up-Rises (suc fuel) a P i up few below e = elim (Bool-cases (lt (a (i + 1)) P)) [
    | inl less ↦ elim (Bool-cases (i + 1 == up - 1)) [
      | inl last ↦
          let same : i + 1 ≡ up - 1 = ground arith in
          let not_less : lt (a (i + 1)) P ≡ false = rw same (rw e (lt_irrefl P)) in
          absurd (cc (less, not_less))
      | inr more ↦
          rw (less, more)
            (Rises-from a P i up (scan_up lt fuel a P (i + 1) up) (order.asym (a (i + 1)) P less)
              (scan_up-Rises fuel a P (i + 1) up (omega arith) (ground arith) e))
    ]
    | inr stop ↦ rw stop (omega arith, omega arith, (λ k l h. absurd (omega arith)), stop)
  ]

  -- The second loop stops before values above `P`, at one that is not above it.
  abbrev pub Falls : (ℕ → V) → V → ℕ → Scan → Type 0
  Falls a P j (Scan.at k) = (k < j) × NotBelow P a (k + 1) (j - 1) × (lt P (a k) ≡ false)
  Falls a P j Scan.wrong = ⊥
  Falls a P j Scan.stuck = ⊥

  pub Falls-from :
      (a : ℕ → V) (P : V) (j : ℕ) (s : Scan)
      → 1 ≤ j
      → lt (a (j - 1)) P ≡ false
      → Falls a P (j - 1) s
      → Falls a P j s
  Falls-from a P j (Scan.at k) one e (kj, above, stop) = (omega arith, with_first, stop)
    where
      with_first : NotBelow P a (k + 1) (j - 1)
      with_first m lo hi = elim (Bool-cases (m == j - 1)) [
        | inl is ↦ let same : m ≡ j - 1 = ground arith in rw same e
        | inr other ↦ above m lo (ground arith)
      ]
  Falls-from a P j Scan.wrong one e h = h
  Falls-from a P j Scan.stuck one e h = h

  pub scan_down-Falls :
      (fuel : ℕ) (a : ℕ → V) (P : V) (lo i j : ℕ)
      → j < fuel
      → lo < i
      → lo < j
      → NotAbove P a lo (i - 1)
      → Falls a P j (scan_down lt fuel a P i j)
  unfolding scan_down
  scan_down-Falls zero a P lo i j few li lj below = absurd (omega arith)
  scan_down-Falls (suc fuel) a P lo i j few li lj below = elim (Bool-cases (lt P (a (j - 1)))) [
    | inl less ↦ elim (Bool-cases (ltb (j - 1) i)) [
      | inl crossed ↦
          let not_less : lt P (a (j - 1)) ≡ false = below (j - 1) (omega arith) (ground arith) in
          absurd (cc (less, not_less))
      | inr more ↦
          rw (less, more)
            (Falls-from a P j (scan_down lt fuel a P i (j - 1)) (omega arith)
              (order.asym P (a (j - 1)) less)
              (scan_down-Falls fuel a P lo i (j - 1) (omega arith) li (ground arith) below))
    ]
    | inr stop ↦ rw stop (omega arith, (λ k l h. absurd (omega arith)), stop)
  ]
