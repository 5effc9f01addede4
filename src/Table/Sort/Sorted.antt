-- ===== src/Table/Sort/Sorted.antt =====
-- table.sort of lua/src/ltablib.c under an order sorts.
use luava.Base.{ℕ, zero, suc, ◌+◌, ◌-◌, ◌^◌, ◌≤◌, ◌<◌, ◌≡◌, refl, arith}
use luava.Base.{Bool, true, false, ltb, ◌==◌, Bool-cases, inl, inr}
use luava.Base.Int.{pos}
use luava.Proto.{int_max}
use luava.Table.Sort.{
  Sorting, done, wrong, too_big, stuck, set2, pivot_index, partition, order_ends, order_pivot,
}
use luava.Table.Sort.{then_halves, halves, auxsort, sort}
use luava.Table.Sort.Swaps.{Swaps, same, Swaps-trans, Swaps-one}
use luava.Table.Sort.Bounds.{Parts-after}
use luava.Table.Sort.Arranging.{partition-Parts, order_ends-Swaps, order_pivot-Swaps}
use luava.Table.Sort.Scans.{IsOrder}
use luava.Table.Sort.Parting.{partition-Splits}
use luava.Table.Sort.Ordering.{
  IsSorted, Sorts, Sorts-after, Three, pivot_index-inside, order_ends-lt, order_pivot-Three,
}
use luava.Table.Sort.Ordering.{halves-Sorts, Sorts-halves, two-IsSorted, Three-IsSorted}

module _ {V : Type 0} (lt : V → V → Bool) (order : IsOrder lt) (seeds : ℕ → ℕ) where
  -- A partition and its halves, once `lo`, `p` and `up` are in order.
  many_sorted :
      (fuel lo up rnd drawn p : ℕ) (a : ℕ → V)
      → 1 ≤ lo
      → lo + 2 < up
      → lo < p
      → p < up
      → Three lt order seeds a lo p up
      → ((lo' up' rnd' drawn' : ℕ) (b : ℕ → V)
          → lo ≤ lo'
          → up' ≤ up
          → up' - lo' < up - lo
          → Sorts lt order seeds lo' up' b (auxsort lt seeds fuel lo' up' rnd' b drawn'))
      → Sorts lt order seeds lo up a (
          then_halves
            (partition lt (set2 a p (up - 1) (a p) (a (up - 1))) (a p) lo up)
            (halves lt seeds (auxsort lt seeds fuel) lo up rnd drawn))
  many_sorted fuel lo up rnd drawn p a one far lp pu (low, high) ih =
      let here : (up - 1 == up - 1) ≡ true = ground arith in
      let lo_kept : (lo == up - 1) ≡ false = ground arith in
      let lo_kept' : (lo == p) ≡ false = ground arith in
      let up_kept : (up == up - 1) ≡ false = ground arith in
      let up_kept' : (up == p) ≡ false = ground arith in
      let b = set2 a p (up - 1) (a p) (a (up - 1)) in
      let pivot_kept : b (up - 1) ≡ a p = rw here refl in
      let first : lt (a p) (b lo) ≡ false = rw (lo_kept, lo_kept') low in
      let last : lt (b up) (a p) ≡ false = rw (up_kept, up_kept') high in
      Sorts-halves lt order seeds lo up (a p) a (partition lt b (a p) lo up) _
        (Parts-after lt lo up a b (partition lt b (a p) lo up)
          (Swaps-one p (up - 1) (omega arith) (omega arith) (omega arith) (omega arith))
          (partition-Parts lt seeds b (a p) lo up one far pivot_kept))
        (partition-Splits lt order b (a p) lo up far pivot_kept first last)
        (λ q c lq qu pivot.
          halves-Sorts lt order seeds (auxsort lt seeds fuel) lo up rnd drawn q (a p) c lq qu pivot
            ih)

  auxsort-Sorts :
      (fuel lo up rnd drawn : ℕ) (a : ℕ → V)
      → up - lo < fuel
      → 1 ≤ lo
      → up < 2 ^ 31
      → Sorts lt order seeds lo up a (auxsort lt seeds fuel lo up rnd a drawn)
  unfolding auxsort IsSorted
  auxsort-Sorts zero lo up rnd drawn a few one small = absurd (omega arith)
  auxsort-Sorts (suc fuel) lo up rnd drawn a few one small = elim (Bool-cases (ltb lo up)) [
    | inr none_left ↦ rw none_left (same a, λ k l u. absurd (ground arith))
    | inl some ↦
        let a1 = order_ends lt a lo up in
        let p = pivot_index lo up rnd in
        let a2 = order_pivot lt a1 lo up p in
        let ends = order_ends-Swaps lt a lo up (ground arith) in
        let outer = order_ends-lt lt order seeds a lo up (ground arith) in
        elim (Bool-cases (up - lo == 1)) [
          | inl two ↦
              rw (some, two) (ends, two-IsSorted lt order seeds a1 lo up (ground arith) outer)
          | inr more ↦
              let (lp, pu) = pivot_index-inside lo up rnd (ground arith) small in
              let middle =
                Swaps-trans ends (order_pivot-Swaps lt a1 lo up p (omega arith) (omega arith)) in
              let three_ends = order_pivot-Three lt order seeds a1 lo up p lp pu outer in
              elim (Bool-cases (up - lo == 2)) [
                | inl three ↦
                    rw (some, more, three)
                      (
                        middle,
                        Three-IsSorted lt order seeds a2 lo p up (ground arith) (ground arith)
                            three_ends,
                      )
                | inr many ↦
                    rw (some, more, many)
                      (Sorts-after lt order seeds lo up a a2 _ middle (
                        many_sorted fuel lo up rnd drawn p a2 one (ground arith) lp pu three_ends
                          (λ lo' up' r d c ll uu less.
                            auxsort-Sorts fuel lo' up' r d c (omega arith) (omega arith)
                              (omega arith))))
              ]
        ]
  ]

  -- With an order function that is asymmetric and whose negation is transitive, table.sort on a table
  -- of fewer than INT_MAX elements returns without an error, whatever the seeds of the pivots are; the
  -- elements from 1 to the length are the old ones, exchanged, none is above the next one, and all
  -- other positions keep their values.
  pub sort-IsSorted :
      (a : ℕ → V) (n : ℕ)
      → n < int_max
      → (b : ℕ → V) × (d : ℕ) × (sort lt seeds a (pos n) ≡ done b d)
        × Swaps 1 n a b
        × IsSorted lt 1 n b
  unfolding sort IsSorted
  sort-IsSorted a n few = outcome (sort lt seeds a (pos n)) refl sorted
    where
      sorted : Sorts lt order seeds 1 n a (sort lt seeds a (pos n))
      sorted = elim (Bool-cases (ltb 1 n)) [
        | inl some ↦
            let small : ltb n int_max ≡ true = ground arith in
            rw (some, small) (auxsort-Sorts n 1 n 0 0 a (ground arith) (omega arith) (omega arith))
        | inr trivial ↦ rw trivial (same a, λ k l u. absurd (ground arith))
      ]

      outcome :
          (r : Sorting V)
          → sort lt seeds a (pos n) ≡ r
          → Sorts lt order seeds 1 n a r
          → (b : ℕ → V) × (d : ℕ) × (sort lt seeds a (pos n) ≡ done b d)
            × Swaps 1 n a b
            × IsSorted lt 1 n b
      outcome (done b d) e (s, o) = (b, d, e, s, o)
      outcome (wrong b) e h = absurd h
      outcome too_big e h = absurd h
      outcome stuck e h = absurd h
