-- ===== src/Table/Sort/Ordering.antt =====
-- The steps of table.sort (lua/src/ltablib.c) under an order.
use luava.Base.{ℕ, ◌+◌, ◌-◌, ◌*◌, ◌/◌, ◌%◌, ◌^◌, ◌≤◌, ◌<◌, ◌≡◌, ◌⊎◌, ◌∙◌, arith}
use luava.Base.{Bool, true, false, ◌||◌, ltb, ◌==◌, Bool-cases, inl, inr, bit_xor}
use native.Mathlib.Nat.{mod-lt}
use luava.Table.Sort.{Parted, Sorting, done, wrong, too_big, stuck, choose_pivot, pivot_index}
use luava.Table.Sort.{ranlimit, order_ends, order_pivot, then_sort, then_halves, halves}
use luava.Table.Sort.Swaps.{Swaps, Swaps-trans, Swaps-widen, Swaps-outside, Swaps-inside}
use luava.Table.Sort.Bounds.{Parts}
use luava.Table.Sort.Scans.{IsOrder, NotAbove, NotBelow}
use luava.Table.Sort.Parting.{Splits}

-- The pivot is no end.
pub pivot_index-inside :
    (lo up rnd : ℕ)
    → lo + 1 < up
    → up < 2 ^ 31
    → (lo < pivot_index lo up rnd) × (pivot_index lo up rnd < up)
unfolding pivot_index choose_pivot
pivot_index-inside lo up rnd below few = elim (Bool-cases (ltb (up - lo) ranlimit || (rnd == 0))) [
  | inl middle ↦ rw middle (omega arith, omega arith)
  | inr random ↦
      let r4 = (up - lo) / 4 in
      let some : 1 ≤ (up - lo) / 4 = ground arith in
      let inside : bit_xor (bit_xor rnd lo) up % (r4 * 2) < r4 * 2 = mod-lt _ (omega arith) in
      rw random (omega arith, omega arith)
]

module _ {V : Type 0} (lt : V → V → Bool) where
  -- Each element from `lo` to `up` is not above the next.
  unfoldable pub IsSorted : ℕ → ℕ → (ℕ → V) → Type 0
  IsSorted lo up a = (k : ℕ) → lo ≤ k → k < up → lt (a (k + 1)) (a k) ≡ false

module _ {V : Type 0} (lt : V → V → Bool) (order : IsOrder lt) (seeds : ℕ → ℕ) where
  abbrev pub Sorts : ℕ → ℕ → (ℕ → V) → Sorting V → Type 0
  Sorts lo up a (done b d) = Swaps lo up a b × IsSorted lt lo up b
  Sorts lo up a (wrong b) = ⊥
  Sorts lo up a too_big = ⊥
  Sorts lo up a stuck = ⊥

  pub Sorts-after :
      (lo up : ℕ) (a b : ℕ → V) (r : Sorting V)
      → Swaps lo up a b
      → Sorts lo up b r
      → Sorts lo up a r
  Sorts-after lo up a b (done c d) s (t, o) = (Swaps-trans s t, o)
  Sorts-after lo up a b (wrong c) s h = h
  Sorts-after lo up a b too_big s h = h
  Sorts-after lo up a b stuck s h = h

  -- The first three comparisons.
  pub order_ends-lt :
      (a : ℕ → V) (lo up : ℕ)
      → lo < up
      → lt (order_ends lt a lo up up) (order_ends lt a lo up lo) ≡ false
  unfolding order_ends
  order_ends-lt a lo up below = elim (Bool-cases (lt (a up) (a lo))) [
    | inl less ↦
        let here : (up == up) ≡ true = ground arith in
        let low : (lo == lo) ≡ true = ground arith in
        let other : (lo == up) ≡ false = ground arith in
        rw less (rw (here, other, low) (order.asym (a up) (a lo) less))
    | inr fine ↦ rw fine fine
  ]

  -- The three in order.
  abbrev pub Three : (ℕ → V) → ℕ → ℕ → ℕ → Type 0
  Three a lo p up = (lt (a p) (a lo) ≡ false) × (lt (a up) (a p) ≡ false)

  pub order_pivot-Three :
      (a : ℕ → V) (lo up p : ℕ)
      → lo < p
      → p < up
      → lt (a up) (a lo) ≡ false
      → Three (order_pivot lt a lo up p) lo p up
  unfolding order_pivot
  order_pivot-Three a lo up p lp pu ends =
      let pp : (p == p) ≡ true = ground arith in
      let ll : (lo == lo) ≡ true = ground arith in
      let uu : (up == up) ≡ true = ground arith in
      let pl : (p == lo) ≡ false = ground arith in
      let lq : (lo == p) ≡ false = ground arith in
      let pu' : (p == up) ≡ false = ground arith in
      let up' : (up == p) ≡ false = ground arith in
      let ul : (up == lo) ≡ false = ground arith in
      let lu : (lo == up) ≡ false = ground arith in
      elim (Bool-cases (lt (a p) (a lo))) [
        | inl less ↦
            rw less (rw (pl, pp, ll) (order.asym (a p) (a lo) less), rw (ul, up', pl, pp) ends)
        | inr fine ↦ elim (Bool-cases (lt (a up) (a p))) [
          | inl more ↦
              rw (fine, more)
                (rw (pu', pp, lu, lq) ends, rw (uu, pu', pp) (order.asym (a up) (a p) more))
          | inr enough ↦ rw (fine, enough) (fine, enough)
        ]
      ]

  -- Two sorted parts beside a pivot.
  IsSorted-join :
      (lo up p : ℕ) (P : V) (a : ℕ → V)
      → IsSorted lt lo (p - 1) a
      → IsSorted lt (p + 1) up a
      → NotAbove lt order P a lo (p - 1)
      → NotBelow lt order P a (p + 1) up
      → a p ≡ P
      → lo < p
      → IsSorted lt lo up a
  unfolding IsSorted
  IsSorted-join lo up p P a low high below above e lp k l u = elim (Bool-cases (ltb k (p - 1))) [
    | inl first ↦ low k l (ground arith)
    | inr later ↦ elim (Bool-cases (k == p - 1)) [
      | inl before ↦ let is : k + 1 ≡ p = ground arith in rw is (rw e (below k l (ground arith)))
      | inr not_before ↦ elim (Bool-cases (k == p)) [
        | inl at_p ↦
            let is : k ≡ p = ground arith in
            rw is (rw e (above (p + 1) (omega arith) (ground arith)))
        | inr behind ↦ high k (ground arith) u
      ]
    ]
  ]

  -- A sort outside a part leaves the part sorted.
  IsSorted-outside :
      (lo up lo' up' : ℕ) {a b : ℕ → V}
      → Swaps lo' up' a b
      → (up < lo') ⊎ (up' < lo)
      → IsSorted lt lo up a
      → IsSorted lt lo up b
  unfolding IsSorted
  IsSorted-outside lo up lo' up' s apart h k l u =
      rw
        (
          Swaps-outside (k + 1) s (beside (k + 1) (omega arith) (omega arith)),
          Swaps-outside k s (beside k l (omega arith)),
        )
        (h k l u)
    where
      beside : (m : ℕ) → lo ≤ m → m ≤ up → (m < lo') ⊎ (up' < m)
      beside m l u = ground arith

  -- The facts about a pivot outlive sorts of either side.
  abbrev Pivot : V → ℕ → ℕ → ℕ → (ℕ → V) → Type 0
  Pivot P lo p up a =
      NotAbove lt order P a lo (p - 1) × NotBelow lt order P a (p + 1) up × (a p ≡ P)

  Pivot-lower :
      (P : V) (lo p up : ℕ) {a b : ℕ → V}
      → lo < p
      → Swaps lo (p - 1) a b
      → Pivot P lo p up a
      → Pivot P lo p up b
  Pivot-lower P lo p up lp s (low, high, e) = (
    Swaps-inside (λ v. lt P v ≡ false) s low,
    (λ k l u. rw (Swaps-outside k s (inr (omega arith))) (high k l u)),
    Swaps-outside p s (inr (omega arith)) ∙ e,
  )

  Pivot-upper :
      (P : V) (lo p up : ℕ) {a b : ℕ → V}
      → lo < p
      → Swaps (p + 1) up a b
      → Pivot P lo p up a
      → Pivot P lo p up b
  Pivot-upper P lo p up lp s (low, high, e) = (
    (λ k l u. rw (Swaps-outside k s (inl (omega arith))) (low k l u)),
    Swaps-inside (λ v. lt v P ≡ false) s high,
    Swaps-outside p s (inl (omega arith)) ∙ e,
  )

  Sorts-then :
      (lo up lo' up' : ℕ) (a : ℕ → V) (r : Sorting V) (next : (ℕ → V) → ℕ → Sorting V)
      → Sorts lo' up' a r
      → ((b : ℕ → V) (d : ℕ) → Swaps lo' up' a b → IsSorted lt lo' up' b → Sorts lo up a (next b d))
      → Sorts lo up a (then_sort r next)
  Sorts-then lo up lo' up' a (done b d) next (s, o) k = k b d s o
  Sorts-then lo up lo' up' a (wrong b) next h k = h
  Sorts-then lo up lo' up' a too_big next h k = h
  Sorts-then lo up lo' up' a stuck next h k = h

  Sorts-last :
      (lo up lo' up' : ℕ) (a b : ℕ → V) (r : Sorting V)
      → Sorts lo' up' b r
      → ((c : ℕ → V)
          → Swaps lo' up' b c
          → IsSorted lt lo' up' c
          → Swaps lo up a c × IsSorted lt lo up c)
      → Sorts lo up a r
  Sorts-last lo up lo' up' a b (done c d) (s, o) k = k c s o
  Sorts-last lo up lo' up' a b (wrong c) h k = h
  Sorts-last lo up lo' up' a b too_big h k = h
  Sorts-last lo up lo' up' a b stuck h k = h

  pub halves-Sorts :
      (sorts : ℕ → ℕ → ℕ → (ℕ → V) → ℕ → Sorting V) (lo up rnd drawn p : ℕ) (P : V) (a : ℕ → V)
      → lo < p
      → p < up
      → Pivot P lo p up a
      → ((lo' up' rnd' drawn' : ℕ) (b : ℕ → V)
          → lo ≤ lo'
          → up' ≤ up
          → up' - lo' < up - lo
          → Sorts lo' up' b (sorts lo' up' rnd' b drawn'))
      → Sorts lo up a (halves lt seeds sorts lo up rnd drawn p a)
  unfolding halves
  halves-Sorts sorts lo up rnd drawn p P a lp pu pivot ih =
      let lower =
        λ (r d : ℕ) (b : ℕ → V). ih lo (p - 1) r d b (omega arith) (omega arith) (omega arith) in
      let upper =
        λ (r d : ℕ) (b : ℕ → V). ih (p + 1) up r d b (omega arith) (omega arith) (omega arith) in
      elim (Bool-cases (ltb (p - lo) (up - p))) [
        | inl small ↦ rw small (
            Sorts-then lo up lo (p - 1) a (sorts lo (p - 1) rnd a drawn) _ (lower rnd drawn a)
              (λ b d s o.
                Sorts-last lo up (p + 1) up a b (sorts (p + 1) up _ b _) (upper _ _ b) (λ c t q. (
                  Swaps-trans (Swaps-widen (omega arith) (omega arith) s)
                      (Swaps-widen (omega arith) (omega arith) t),
                  joined c (IsSorted-outside lo (p - 1) (p + 1) up t (inl (omega arith)) o) q
                      (Pivot-upper P lo p up lp t (Pivot-lower P lo p up lp s pivot)),
                ))))
        | inr big ↦ rw big (
            Sorts-then lo up (p + 1) up a (sorts (p + 1) up rnd a drawn) _ (upper rnd drawn a)
              (λ b d s o.
                Sorts-last lo up lo (p - 1) a b (sorts lo (p - 1) _ b _) (lower _ _ b) (λ c t q. (
                  Swaps-trans (Swaps-widen (omega arith) (omega arith) s)
                      (Swaps-widen (omega arith) (omega arith) t),
                  joined c q (IsSorted-outside (p + 1) up lo (p - 1) t (inr (omega arith)) o)
                      (Pivot-lower P lo p up lp t (Pivot-upper P lo p up lp s pivot)),
                ))))
      ]
    where
      joined :
          (c : ℕ → V)
          → IsSorted lt lo (p - 1) c
          → IsSorted lt (p + 1) up c
          → Pivot P lo p up c
          → IsSorted lt lo up c
      joined c l u (low, high, e) = IsSorted-join lo up p P c l u low high e lp

  -- A partition and what follows it.
  pub Sorts-halves :
      (lo up : ℕ) (P : V) (a : ℕ → V) (r : Parted V) (next : ℕ → (ℕ → V) → Sorting V)
      → Parts lt lo up a r
      → Splits lt order P lo up r
      → ((q : ℕ) (b : ℕ → V) → lo < q → q < up → Pivot P lo q up b → Sorts lo up b (next q b))
      → Sorts lo up a (then_halves r next)
  Sorts-halves lo up P a (Parted.at q b) next (l, u, s) h k =
      Sorts-after lo up a b (next q b) s (k q b l u h)
  Sorts-halves lo up P a (Parted.wrong b) next s h k = h
  Sorts-halves lo up P a Parted.stuck next s h k = h

  pub two-IsSorted :
      (a : ℕ → V) (lo up : ℕ) → up - lo ≡ 1 → lt (a up) (a lo) ≡ false → IsSorted lt lo up a
  unfolding IsSorted
  two-IsSorted a lo up e h k l u =
      let first : k ≡ lo = omega arith in
      let last : lo + 1 ≡ up = omega arith in rw first (rw last h)

  pub Three-IsSorted :
      (a : ℕ → V) (lo p up : ℕ) → up - lo ≡ 2 → p ≡ lo + 1 → Three a lo p up → IsSorted lt lo up a
  unfolding IsSorted
  Three-IsSorted a lo p up e is (f, g) k l u = elim (Bool-cases (k == lo)) [
    | inl first ↦
        let at_lo : k ≡ lo = ground arith in
        let at_p : lo + 1 ≡ p = omega arith in rw at_lo (rw at_p f)
    | inr second ↦
        let at_p : k ≡ p = ground arith in
        let at_up : p + 1 ≡ up = omega arith in rw at_p (rw at_up g)
  ]
