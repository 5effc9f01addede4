-- ===== src/Table/Sort/Arranging.antt =====
-- table.sort (lua/src/ltablib.c) with any order function returns, and only exchanges elements.
use luava.Base.{ℕ, zero, suc, ◌+◌, ◌-◌, ◌^◌, ◌≤◌, ◌<◌, ◌≡◌, ◌⊎◌, refl, arith}
use luava.Base.{Bool, true, ltb, ◌==◌, Bool-cases, inl, inr}
use luava.Base.Int.{pos}
use luava.Proto.{int_max}
use luava.Table.Sort.{Parted, Sorting, done, wrong, too_big, stuck, set2, pivot_index}
use luava.Table.Sort.{partition, order_ends, order_pivot}
use luava.Table.Sort.{then_sort, then_halves, halves, auxsort, sort}
use luava.Table.Sort.Swaps.{Swaps, same, Swaps-trans, Swaps-one, Swaps-widen}
use luava.Table.Sort.Bounds.{Parts, Parts-after, part_loop-Parts, pivot_index-bounds}

module _ {V : Type 0} (lt : V → V → Bool) where
  -- A sort that ends: with or without the error, it rearranges the part.
  abbrev pub Arranges : ℕ → ℕ → (ℕ → V) → Sorting V → Type 0
  Arranges lo up a (done b drawn) = Swaps lo up a b
  Arranges lo up a (wrong b) = Swaps lo up a b
  Arranges lo up a too_big = ⊥
  Arranges lo up a stuck = ⊥

  Arranges-after :
      (lo up : ℕ) (a b : ℕ → V) (r : Sorting V)
      → Swaps lo up a b
      → Arranges lo up b r
      → Arranges lo up a r
  Arranges-after lo up a b (done c d) s t = Swaps-trans s t
  Arranges-after lo up a b (wrong c) s t = Swaps-trans s t
  Arranges-after lo up a b too_big s t = t
  Arranges-after lo up a b stuck s t = t

  Arranges-widen :
      (lo up lo' up' : ℕ) (a : ℕ → V) (r : Sorting V)
      → lo ≤ lo'
      → up' ≤ up
      → Arranges lo' up' a r
      → Arranges lo up a r
  Arranges-widen lo up lo' up' a (done c d) p q t = Swaps-widen p q t
  Arranges-widen lo up lo' up' a (wrong c) p q t = Swaps-widen p q t
  Arranges-widen lo up lo' up' a too_big p q t = t
  Arranges-widen lo up lo' up' a stuck p q t = t

  Arranges-then :
      (lo up : ℕ) (a : ℕ → V) (r : Sorting V) (next : (ℕ → V) → ℕ → Sorting V)
      → Arranges lo up a r
      → ((b : ℕ → V) (d : ℕ) → Arranges lo up b (next b d))
      → Arranges lo up a (then_sort r next)
  Arranges-then lo up a (done b d) next t k = Arranges-after lo up a b (next b d) t (k b d)
  Arranges-then lo up a (wrong b) next t k = t
  Arranges-then lo up a too_big next t k = t
  Arranges-then lo up a stuck next t k = t

  pub order_ends-Swaps : (a : ℕ → V) (lo up : ℕ) → lo ≤ up → Swaps lo up a (order_ends lt a lo up)
  unfolding order_ends
  order_ends-Swaps a lo up le = elim (Bool-cases (lt (a up) (a lo))) [
    | inl less ↦ rw less (Swaps-one lo up (omega arith) (omega arith) (omega arith) (omega arith))
    | inr fine ↦ rw fine (same a)
  ]

  pub order_pivot-Swaps :
      (a : ℕ → V) (lo up p : ℕ) → lo ≤ p → p ≤ up → Swaps lo up a (order_pivot lt a lo up p)
  unfolding order_pivot
  order_pivot-Swaps a lo up p lp pu = elim (Bool-cases (lt (a p) (a lo))) [
    | inl less ↦ rw less (Swaps-one p lo (omega arith) (omega arith) (omega arith) (omega arith))
    | inr fine ↦ elim (Bool-cases (lt (a up) (a p))) [
      | inl more ↦
          rw (fine, more) (Swaps-one p up (omega arith) (omega arith) (omega arith) (omega arith))
      | inr enough ↦ rw (fine, enough) (same a)
    ]
  ]

  module _ (seeds : ℕ → ℕ) where
    halves-Arranges :
        (sorts : ℕ → ℕ → ℕ → (ℕ → V) → ℕ → Sorting V) (lo up rnd drawn p : ℕ) (a : ℕ → V)
        → lo < p
        → p < up
        → ((lo' up' rnd' drawn' : ℕ) (b : ℕ → V)
            → lo ≤ lo'
            → up' ≤ up
            → up' - lo' < up - lo
            → Arranges lo' up' b (sorts lo' up' rnd' b drawn'))
        → Arranges lo up a (halves lt seeds sorts lo up rnd drawn p a)
    unfolding halves
    halves-Arranges sorts lo up rnd drawn p a lp pu ih =
        let lower = λ (b : ℕ → V) (r : ℕ) (d : ℕ).
          Arranges-widen lo up lo (p - 1) b (sorts lo (p - 1) r b d) (omega arith) (omega arith)
            (ih lo (p - 1) r d b (omega arith) (omega arith) (omega arith)) in
        let upper = λ (b : ℕ → V) (r : ℕ) (d : ℕ).
          Arranges-widen lo up (p + 1) up b (sorts (p + 1) up r b d) (omega arith) (omega arith)
            (ih (p + 1) up r d b (omega arith) (omega arith) (omega arith)) in
        elim (Bool-cases (ltb (p - lo) (up - p))) [
          | inl small ↦ rw small (
              Arranges-then lo up a (sorts lo (p - 1) rnd a drawn) _ (lower a rnd drawn)
                (λ b d. upper b _ _))
          | inr big ↦ rw big (
              Arranges-then lo up a (sorts (p + 1) up rnd a drawn) _ (upper a rnd drawn)
                (λ b d. lower b _ _))
        ]

    Arranges-halves :
        (lo up : ℕ) (a : ℕ → V) (r : Parted V) (next : ℕ → (ℕ → V) → Sorting V)
        → Parts lt lo up a r
        → ((q : ℕ) (b : ℕ → V) → lo < q → q < up → Arranges lo up b (next q b))
        → Arranges lo up a (then_halves r next)
    Arranges-halves lo up a (Parted.at q b) next (l, u, s) k =
        Arranges-after lo up a b (next q b) s (k q b l u)
    Arranges-halves lo up a (Parted.wrong b) next s k = s
    Arranges-halves lo up a Parted.stuck next s k = s

    pub partition-Parts :
        (a : ℕ → V) (P : V) (lo up : ℕ)
        → 1 ≤ lo
        → lo + 2 < up
        → a (up - 1) ≡ P
        → Parts lt lo up a (partition lt a P lo up)
    unfolding partition
    partition-Parts a P lo up one far e =
        part_loop-Parts lt (up - lo) a P lo lo (up - 1) up (omega arith) one (omega arith)
          (omega arith) (omega arith) (omega arith) e

    auxsort-Arranges :
        (fuel lo up rnd drawn : ℕ) (a : ℕ → V)
        → up - lo < fuel
        → 1 ≤ lo
        → up < 2 ^ 31
        → Arranges lo up a (auxsort lt seeds fuel lo up rnd a drawn)
    unfolding auxsort
    auxsort-Arranges zero lo up rnd drawn a few one small = absurd (omega arith)
    auxsort-Arranges (suc fuel) lo up rnd drawn a few one small = elim (Bool-cases (ltb lo up)) [
      | inr none_left ↦ rw none_left (same a)
      | inl some ↦
          let a1 = order_ends lt a lo up in
          let p = pivot_index lo up rnd in
          let a2 = order_pivot lt a1 lo up p in
          let a3 = set2 a2 p (up - 1) (a2 p) (a2 (up - 1)) in
          let here : (up - 1 == up - 1) ≡ true = ground arith in
          let pivot_kept : a3 (up - 1) ≡ a2 p = rw here refl in
          let ends = order_ends-Swaps a lo up (ground arith) in
          let (lp, pu) = pivot_index-bounds lo up rnd (ground arith) small in
          let middle = Swaps-trans ends (order_pivot-Swaps a1 lo up p lp pu) in
          elim (Bool-cases (up - lo == 1)) [
            | inl two ↦ rw (some, two) ends
            | inr more ↦ elim (Bool-cases (up - lo == 2)) [
              | inl three ↦ rw (some, more, three) middle
              | inr many ↦
                  rw (some, more, many)
                    (Arranges-halves lo up a (partition lt a3 (a2 p) lo up) _
                      (Parts-after lt lo up a a3 (partition lt a3 (a2 p) lo up)
                        (Swaps-trans middle
                          (Swaps-one p (up - 1) lp pu (ground arith) (omega arith)))
                        (partition-Parts a3 (a2 p) lo up one (ground arith) pivot_kept))
                      (λ q b lq qu.
                        halves-Arranges (λ l u r c d. auxsort lt seeds fuel l u r c d) lo up rnd
                          drawn q b lq qu
                          (λ lo' up' r d c ll uu less.
                            auxsort-Arranges fuel lo' up' r d c (omega arith) (omega arith)
                              (omega arith))))
            ]
          ]
    ]

    -- With any order function table.sort on a table of fewer than INT_MAX elements returns, with or
    -- without the error that the order function is invalid, and in both cases the elements from 1 to
    -- the length are the old ones, exchanged, while all other positions keep their values.
    pub sort-Swaps :
        (a : ℕ → V) (n : ℕ)
        → n < int_max
        → (b : ℕ → V) × (((d : ℕ) × (sort lt seeds a (pos n) ≡ done b d))
            ⊎ (sort lt seeds a (pos n) ≡ wrong b))
          × Swaps 1 n a b
    unfolding sort
    sort-Swaps a n few = outcome (sort lt seeds a (pos n)) refl arranged
      where
        arranged : Arranges 1 n a (sort lt seeds a (pos n))
        arranged = elim (Bool-cases (ltb 1 n)) [
          | inl some ↦
              let small : ltb n int_max ≡ true = ground arith in
              rw (some, small)
                (auxsort-Arranges n 1 n 0 0 a (ground arith) (omega arith) (omega arith))
          | inr trivial ↦ rw trivial (same a)
        ]

        outcome :
            (r : Sorting V)
            → sort lt seeds a (pos n) ≡ r
            → Arranges 1 n a r
            → (b : ℕ → V) × (((d : ℕ) × (sort lt seeds a (pos n) ≡ done b d))
                ⊎ (sort lt seeds a (pos n) ≡ wrong b))
              × Swaps 1 n a b
        outcome (done b d) e s = (b, inl (d, e), s)
        outcome (wrong b) e s = (b, inr e, s)
        outcome too_big e s = absurd s
        outcome stuck e s = absurd s
