-- ===== src/Table/Sort.antt =====
-- table.sort: set2, partition, choosePivot, auxsort and sort of lua/src/ltablib.c. An array is its
-- values by position. The order function and the seeds of l_randomizePivot are parameters; an order
-- function leaves the table as it is.
pub mod Swaps
pub mod Bounds
pub mod Arranging
pub mod Scans
pub mod Parting
pub mod Ordering
pub mod Sorted
mod Tests
use luava.Base.{
  ℕ, zero, suc, ◌+◌, ◌-◌, ◌*◌, ◌/◌, ◌%◌, ◌^◌, bit_xor, Bool, true, false, ◌&&◌, ◌||◌, not,
}
use luava.Base.{ltb, leb, ◌==◌, if◌then◌else◌}
use luava.Base.Int.{ℤ, pos, negsuc}
use luava.Proto.{int_max}

-- Where a scan of partition stops; `wrong` is the error "invalid order function for sorting", and
-- `stuck` no outcome of the code: the loop of the model ran out of fuel.
pub data Scan : Type 0 where
  at : ℕ → Scan
  wrong stuck : Scan

-- The position of the pivot and the array.
pub data Parted (V : Type 0) : Type 0 where
  at : ℕ → (ℕ → V) → Parted V
  wrong : (ℕ → V) → Parted V
  stuck : Parted V

-- The array and the number of seeds that were drawn.
pub data Sorting (V : Type 0) : Type 0 where
  done : (ℕ → V) → ℕ → Sorting V
  wrong : (ℕ → V) → Sorting V
  too_big : Sorting V
  stuck : Sorting V

module _ {V : Type 0} where
  -- a[i] = v
  abbrev pub put : (ℕ → V) → ℕ → V → ℕ → V
  put a i v k = if k == i then v else a k

  -- set2(L, i, j) on the values `x` and `y`, of which `y` is at the top of the stack.
  abbrev pub set2 : (ℕ → V) → ℕ → ℕ → V → V → ℕ → V
  set2 a i j x y = put (put a i y) j x

  -- A round of the loop of partition once `i`, and then `j`, has stopped; `again` is the next round.
  unfoldable pub at_down : ((ℕ → V) → ℕ → ℕ → Parted V) → (ℕ → V) → V → ℕ → ℕ → Scan → Parted V
  at_down again a P up i Scan.wrong = Parted.wrong a
  at_down again a P up i Scan.stuck = Parted.stuck
  at_down again a P up i (Scan.at j) =
      if ltb j i
      then Parted.at i (set2 a (up - 1) i P (a i))
      else again (set2 a i j (a i) (a j)) i j

  -- What follows a sort of one half, and a partition.
  abbrev pub then_sort : Sorting V → ((ℕ → V) → ℕ → Sorting V) → Sorting V
  then_sort (done b drawn) next = next b drawn
  then_sort (wrong b) next = wrong b
  then_sort too_big next = too_big
  then_sort stuck next = stuck

  abbrev pub then_halves : Parted V → (ℕ → (ℕ → V) → Sorting V) → Sorting V
  then_halves (Parted.at p b) next = next p b
  then_halves (Parted.wrong b) next = wrong b
  then_halves Parted.stuck next = stuck

-- choosePivot
unfoldable pub choose_pivot : ℕ → ℕ → ℕ → ℕ
choose_pivot lo up rnd =
    let r4 = (up - lo) / 4 in bit_xor (bit_xor rnd lo) up % (r4 * 2) + (lo + r4)

-- RANLIMIT
abbrev pub ranlimit : ℕ
ranlimit = 100

unfoldable pub pivot_index : ℕ → ℕ → ℕ → ℕ
pivot_index lo up rnd =
    if ltb (up - lo) ranlimit || (rnd == 0) then (lo + up) % 2 ^ 32 / 2 else choose_pivot lo up rnd

-- rnd after a partition, and the number of seeds.
unfoldable pub next_seed : (ℕ → ℕ) → ℕ → ℕ → ℕ → ℕ → ℕ × ℕ
next_seed seeds size n rnd drawn =
    if ltb n (size / 128) then (seeds drawn, drawn + 1) else (rnd, drawn)

module _ {V : Type 0} (lt : V → V → Bool) where
  -- while (a[++i] < P)
  unfoldable pub scan_up : ℕ → (ℕ → V) → V → ℕ → ℕ → Scan
  scan_up zero a P i up = Scan.stuck
  scan_up (suc fuel) a P i up =
      let more = scan_up fuel a P (i + 1) up in
      if lt (a (i + 1)) P then (if i + 1 == up - 1 then Scan.wrong else more) else Scan.at (i + 1)

  -- while (P < a[--j])
  unfoldable pub scan_down : ℕ → (ℕ → V) → V → ℕ → ℕ → Scan
  scan_down zero a P i j = Scan.stuck
  scan_down (suc fuel) a P i j =
      let more = scan_down fuel a P i (j - 1) in
      if lt P (a (j - 1)) then (if ltb (j - 1) i then Scan.wrong else more) else Scan.at (j - 1)

  unfoldable pub at_up : ((ℕ → V) → ℕ → ℕ → Parted V) → (ℕ → V) → V → ℕ → ℕ → Scan → Parted V
  at_up again a P up j Scan.wrong = Parted.wrong a
  at_up again a P up j Scan.stuck = Parted.stuck
  at_up again a P up j (Scan.at i) = at_down again a P up i (scan_down (j + 1) a P i j)

  unfoldable pub part_loop : ℕ → (ℕ → V) → V → ℕ → ℕ → ℕ → Parted V
  part_loop zero a P i j up = Parted.stuck
  part_loop (suc fuel) a P i j up =
      at_up (λ b i' j'. part_loop fuel b P i' j' up) a P up j (scan_up (up - i) a P i up)

  unfoldable pub partition : (ℕ → V) → V → ℕ → ℕ → Parted V
  partition a P lo up = part_loop (up - lo) a P lo (up - 1) up

  -- The array once 'lo', 'p' and 'up' are in order.
  unfoldable pub order_ends : (ℕ → V) → ℕ → ℕ → ℕ → V
  order_ends a lo up = if lt (a up) (a lo) then set2 a lo up (a lo) (a up) else a

  unfoldable pub order_pivot : (ℕ → V) → ℕ → ℕ → ℕ → ℕ → V
  order_pivot a lo up p =
      if lt (a p) (a lo)
      then set2 a p lo (a p) (a lo)
      else if lt (a up) (a p)
      then set2 a p up (a p) (a up)
      else a

  module _ (seeds : ℕ → ℕ) where
    -- What follows a partition at `p`; `sort` is auxsort.
    unfoldable pub halves :
        (ℕ → ℕ → ℕ → (ℕ → V) → ℕ → Sorting V) → ℕ → ℕ → ℕ → ℕ → ℕ → (ℕ → V) → Sorting V
    halves sort lo up rnd drawn p a =
        if ltb (p - lo) (up - p)
        then then_sort (sort lo (p - 1) rnd a drawn) (λ b drawn'.
          let next = next_seed seeds (up - (p + 1)) (p - lo) rnd drawn' in
          sort (p + 1) up next.0 b next.1)
        else then_sort (sort (p + 1) up rnd a drawn) (λ b drawn'.
          let next = next_seed seeds (p - 1 - lo) (up - p) rnd drawn' in
          sort lo (p - 1) next.0 b next.1)

    unfoldable pub auxsort : ℕ → ℕ → ℕ → ℕ → (ℕ → V) → ℕ → Sorting V
    auxsort zero lo up rnd a drawn = stuck
    auxsort (suc fuel) lo up rnd a drawn =
        let a1 = order_ends a lo up in
        let p = pivot_index lo up rnd in
        let a2 = order_pivot a1 lo up p in
        let a3 = set2 a2 p (up - 1) (a2 p) (a2 (up - 1)) in
        let rest =
          then_halves (partition a3 (a2 p) lo up) (halves (auxsort fuel) lo up rnd drawn) in
        if not (ltb lo up)
        then done a drawn
        else if up - lo == 1
        then done a1 drawn
        else if up - lo == 2
        then done a2 drawn
        else rest

    -- sort on a table of length `n`.
    unfoldable pub sort : (ℕ → V) → ℤ → Sorting V
    sort a (negsuc n) = done a 0
    sort a (pos n) =
        if ltb 1 n then (if ltb n int_max then auxsort n 1 n 0 a 0 else too_big) else done a 0
