-- ===== src/Table/Tests.antt =====
-- Tables of numbers, 0 for nil, and the theorems at concrete calls.
use luava.Base.{ℕ, ◌+◌, ◌*◌, ◌≡◌, refl, arith, none, some, [], ◌∷◌}
use luava.Base.Int.{pos, pos_part, ◌+ℤ◌, ◌-ℤ◌}
use luava.Table.{
  Table, ok, tmove, tpack, tunpack, values_from, tconcat, concat_from, addfield, copy_down, seti,
  eq_ℤ,
}
use luava.Table.Moving.{IsMoved, tmove-IsMoved}
use luava.Table.Shifting.{IsUndone, tremove-tinsert}
use luava.Table.Packing.{tunpack-tpack}
use luava.Stack.{LuaStack}

-- The squares.
abbrev squares : Table ℕ
squares i = pos_part i * pos_part i

-- A range moved onto itself by one position.
overlapping : values_from (copy_down 3 (pos 1) (pos 2) squares) 4 (pos 1) ≡ 1 ∷ 1 ∷ 4 ∷ 9 ∷ 25 ∷ []
unfolding values_from copy_down seti eq_ℤ ◌+ℤ◌
overlapping = refl

joined :
    tconcat (λ n. some ((48 + n) ∷ [])) squares (44 ∷ []) (pos 1) (pos 3)
    ≡ ok (49 ∷ 44 ∷ 52 ∷ 44 ∷ 57 ∷ [])
unfolding tconcat concat_from addfield ◌+ℤ◌ ◌-ℤ◌
joined = refl

tmove-IsMoved_example :
    IsMoved squares squares (pos 1) (pos 3) (pos 2) (tmove squares (pos 1) (pos 3) (pos 2) none)
unfolding ◌+ℤ◌ ◌-ℤ◌
tmove-IsMoved_example =
    tmove-IsMoved squares (pos 1) (pos 3) (pos 2) none (omega arith) refl (omega arith)

tremove-tinsert_example : IsUndone 0 squares 4 2 77
tremove-tinsert_example = tremove-tinsert 0 squares 4 2 77 (omega arith) (omega arith)

abbrev some_stack : LuaStack
some_stack = record { size = 45; used = 4 }

tunpack-tpack_example :
    tunpack some_stack (tpack squares (5 ∷ 6 ∷ [])).0 (pos 1) (pos (tpack squares (5 ∷ 6 ∷ [])).1)
    ≡ ok (5 ∷ 6 ∷ [])
tunpack-tpack_example =
    tunpack-tpack some_stack squares 5 (6 ∷ [])
      (record { some_used = omega arith; within = omega arith; limited = omega arith })
      (omega arith)
