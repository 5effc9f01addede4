-- ===== src/Table/Sort/Tests.antt =====
-- Runs of table.sort (lua/src/ltablib.c).
use luava.Base.{ℕ, ◌≡◌, ◌⊎◌, refl, arith, Bool, true, false, ltb, ◌==◌, if◌then◌else◌}
use luava.Base.Int.{pos}
use luava.Table.Sort.{
  Sorting, done, wrong, sort, auxsort, halves, order_ends, order_pivot, partition, part_loop,
}
use luava.Table.Sort.{at_up, at_down, scan_up, scan_down, pivot_index, choose_pivot, next_seed}
use luava.Table.Sort.Swaps.{Swaps}
use luava.Table.Sort.Arranging.{sort-Swaps}
use luava.Table.Sort.Scans.{IsOrder}
use luava.Table.Sort.Ordering.{IsSorted}
use luava.Table.Sort.Sorted.{sort-IsSorted}

-- { 4, 1, 5, 2, 3 }
abbrev five : ℕ → ℕ
five k = if k == 1 then 4 else if k == 2 then 1 else if k == 3 then 5 else if k == 4 then 2 else 3

abbrev no_seeds : ℕ → ℕ
no_seeds k = 0

ltb-IsOrder : IsOrder ltb
ltb-IsOrder = record { asym = λ x y h. ground arith; trans = λ x y z h k. ground arith }

abbrev third : Sorting ℕ → ℕ
third (done b d) = b 3
third r = 0

five_run : third (sort ltb no_seeds five (pos 5)) ≡ 3
unfolding sort auxsort halves order_ends order_pivot partition part_loop at_up at_down scan_up
    scan_down pivot_index choose_pivot next_seed
five_run = refl

-- An order function that always answers true.
abbrev always : ℕ → ℕ → Bool
always x y = true

abbrev raises : Sorting ℕ → Bool
raises (wrong b) = true
raises r = false

always_run : raises (sort always no_seeds five (pos 5)) ≡ true
unfolding sort auxsort halves order_ends order_pivot partition part_loop at_up at_down scan_up
    scan_down pivot_index choose_pivot next_seed
always_run = refl

sort-Swaps_example :
    (b : ℕ → ℕ) × (((d : ℕ) × (sort always no_seeds five (pos 5) ≡ done b d))
      ⊎ (sort always no_seeds five (pos 5) ≡ wrong b))
    × Swaps 1 5 five b
sort-Swaps_example = sort-Swaps always no_seeds five 5 (omega arith)

sort-IsSorted_example :
    (b : ℕ → ℕ) × (d : ℕ) × (sort ltb no_seeds five (pos 5) ≡ done b d)
    × Swaps 1 5 five b
    × IsSorted ltb 1 5 b
sort-IsSorted_example = sort-IsSorted ltb ltb-IsOrder no_seeds five 5 (omega arith)
