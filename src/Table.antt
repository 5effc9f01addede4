-- ===== src/Table.antt =====
-- The table library, lua/src/ltablib.c: tcreate, tinsert, tremove, tmove, tconcat, tpack and tunpack.
-- A table is its values at the integers; it has no metatable, so that reads and writes are raw. The
-- length that aux_getn returns is an argument.
pub mod Moving
pub mod Shifting
pub mod Packing
pub mod Sort
mod Tests
use luava.Base.{ℕ, zero, suc, ◌+◌, ◌-◌, ◌%◌, ◌^◌}
use luava.Base.{
  Bool, true, false, not, ◌&&◌, ◌||◌, ltb, leb, ◌==◌, Option, none, some, if◌then◌else◌,
}
use luava.Base.{List, [], ◌∷◌, ◌++◌, length}
use luava.Base.Int.{ℤ, pos, negsuc, pos_part, neg_part, ltb_ℤ, ◌+ℤ◌, ◌-ℤ◌}
use luava.Base.Word.{cast_s2u, cast_u2s, max_integer}
use luava.Proto.{int_max}
use luava.Base.{◌||◌}
use luava.Stack.{LuaStack, lua_checkstack}

-- The messages, with the number of the argument.
pub data TableError : Type 0 where
  out_of_range position_out_of_bounds : ℕ → TableError
  wrong_number_of_arguments too_many_to_move wrap_around too_many_to_unpack : TableError
  invalid_value : ℤ → TableError

pub data Outcome {ℓ} (A : Type ℓ) : Type ℓ where
  ok : A → Outcome A
  err : TableError → Outcome A

unfoldable pub eq_ℤ : ℤ → ℤ → Bool
eq_ℤ a b = pos_part a + neg_part b == pos_part b + neg_part a

-- e >= f
abbrev pub geb_ℤ : ℤ → ℤ → Bool
geb_ℤ a b = not (ltb_ℤ a b)

-- tcreate: the sizes that the new table is given.
unfoldable pub tcreate : ℤ → ℤ → Outcome (ℕ × ℕ)
tcreate sizeseq sizerest =
    if not (leb (cast_s2u sizeseq) int_max)
    then err (out_of_range 1)
    else if not (leb (cast_s2u sizerest) int_max)
    then err (out_of_range 2)
    else ok (cast_s2u sizeseq, cast_s2u sizerest)

-- A field, the separator and the fields after it.
abbrev pub join : List ℕ → Outcome (List ℕ) → Outcome (List ℕ) → Outcome (List ℕ)
join sep (ok a) (ok b) = ok (a ++ (sep ++ b))
join sep (ok a) (err e) = err e
join sep (err e) rest = err e

abbrev pub Table : Type 0 → Type 0
Table V = ℤ → V

-- The arguments of table.insert after the table: a value, a position and a value, or others.
pub data InsertArgs (V : Type 0) : Type 0 where
  at_end : V → InsertArgs V
  at_position : ℤ → V → InsertArgs V
  other_number : InsertArgs V

module _ {V : Type 0} where
  -- lua_seti
  unfoldable pub seti : Table V → ℤ → V → Table V
  seti t i v k = if eq_ℤ k i then v else t k

  -- for (i = e; i > pos; i--) t[i] = t[i - 1], where `e` is `pos` and `k` more.
  unfoldable pub move_up : ℕ → ℤ → Table V → Table V
  move_up zero at t = t
  move_up (suc k) at t = let i = at +ℤ pos (suc k) in move_up k at (seti t i (t (i -ℤ pos 1)))

  -- tinsert on the length and the arguments after the table.
  unfoldable pub tinsert : Table V → ℤ → InsertArgs V → Outcome (Table V)
  tinsert t len (at_end v) = ok (seti t (cast_u2s ((cast_s2u len + 1) % 2 ^ 64)) v)
  tinsert t len (at_position at v) =
      let e = (cast_s2u len + 1) % 2 ^ 64 in
      if ltb ((cast_s2u at + 2 ^ 64 - 1) % 2 ^ 64) e
      then ok (seti (move_up (pos_part (cast_u2s e -ℤ at)) at t) at v)
      else err (position_out_of_bounds 2)
  tinsert t len other_number = err wrong_number_of_arguments

  -- for ( ; pos < size; pos++) t[pos] = t[pos + 1], where `size` is `pos` and `k` more.
  unfoldable pub move_down : ℕ → ℤ → Table V → Table V
  move_down zero at t = t
  move_down (suc k) at t = move_down k (at +ℤ pos 1) (seti t at (t (at +ℤ pos 1)))

  -- tremove: the value that is removed, and the table.
  unfoldable pub tremove : V → Table V → ℤ → Option ℤ → Outcome (V × Table V)
  tremove nil t size i =
      let at = elim i as (λ _. ℤ) [ none ↦ size | some p ↦ p ] in
      let rest = pos_part (size -ℤ at) in
      if not (eq_ℤ at size) && not (leb ((cast_s2u at + 2 ^ 64 - 1) % 2 ^ 64) (cast_s2u size))
      then err (position_out_of_bounds 2)
      else ok (t at, seti (move_down rest at t) (at +ℤ pos rest) nil)

  -- The loops of tmove. In one table each read sees the writes before it.
  unfoldable pub copy_up : ℕ → ℤ → ℤ → Table V → Table V
  copy_up zero f d t = t
  copy_up (suc m) f d t = copy_up m (f +ℤ pos 1) (d +ℤ pos 1) (seti t d (t f))

  unfoldable pub copy_down : ℕ → ℤ → ℤ → Table V → Table V
  copy_down zero f d t = t
  copy_down (suc m) f d t = copy_down m f d (seti t (d +ℤ pos m) (t (f +ℤ pos m)))

  unfoldable pub copy_to : ℕ → ℤ → ℤ → Table V → Table V → Table V
  copy_to zero f d src t = t
  copy_to (suc m) f d src t = copy_to m (f +ℤ pos 1) (d +ℤ pos 1) src (seti t d (src f))

  -- tmove: the destination table afterwards. `other` is the fifth argument, a table that is not
  -- the first.
  unfoldable pub tmove : Table V → ℤ → ℤ → ℤ → Option (Table V) → Outcome (Table V)
  tmove src f e d other =
      let dst = elim other as (λ _. Table V) [ none ↦ src | some t ↦ t ] in
      let n = e -ℤ f +ℤ pos 1 in
      if not (geb_ℤ e f)
      then ok dst
      else if not (ltb_ℤ (pos 0) f || ltb_ℤ e (max_integer +ℤ f))
      then err too_many_to_move
      else if not (geb_ℤ (max_integer -ℤ n +ℤ pos 1) d)
      then err wrap_around
      else elim other as (λ _. Outcome (Table V)) [
        | some t ↦ ok (copy_to (pos_part n) f d src t)
        | none ↦
            if ltb_ℤ e d || geb_ℤ f d
            then ok (copy_up (pos_part n) f d src)
            else ok (copy_down (pos_part n) f d src)
      ]

  -- addfield; `tostring` is the string of a string or a number, `none` for any other value.
  unfoldable pub addfield : (V → Option (List ℕ)) → Table V → ℤ → Outcome (List ℕ)
  addfield tostring t i = elim (tostring (t i)) [ some s ↦ ok s | none ↦ err (invalid_value i) ]

  -- The loop of tconcat, on `k` fields and a last one.
  unfoldable pub concat_from : (V → Option (List ℕ)) → Table V → List ℕ → ℕ → ℤ → Outcome (List ℕ)
  concat_from tostring t sep zero i = addfield tostring t i
  concat_from tostring t sep (suc k) i =
      join sep (addfield tostring t i) (concat_from tostring t sep k (i +ℤ pos 1))

  -- tconcat from `i` to `last`.
  unfoldable pub tconcat : (V → Option (List ℕ)) → Table V → List ℕ → ℤ → ℤ → Outcome (List ℕ)
  tconcat tostring t sep i last =
      if ltb_ℤ last i then ok [] else concat_from tostring t sep (pos_part (last -ℤ i)) i

  -- tpack: the fields and `n`; `empty` is the new table.
  unfoldable pub pack_at : ℤ → List V → Table V → Table V
  pack_at i [] t = t
  pack_at i (v ∷ vs) t = seti (pack_at (i +ℤ pos 1) vs t) i v

  unfoldable pub tpack : Table V → List V → Table V × ℕ
  tpack empty vs = (pack_at (pos 1) vs empty, length vs)

  -- The values at `i` and the `k` positions after it.
  unfoldable pub values_from : Table V → ℕ → ℤ → List V
  values_from t zero i = t i ∷ []
  values_from t (suc k) i = t i ∷ values_from t k (i +ℤ pos 1)

  -- tunpack from `i` to `e`, on the stack `L` with its arguments.
  unfoldable pub tunpack : LuaStack → Table V → ℤ → ℤ → Outcome (List V)
  tunpack L t i e =
      let n = (cast_s2u e + 2 ^ 64 - cast_s2u i) % 2 ^ 64 in
      if ltb_ℤ e i
      then ok []
      else if leb int_max n || not (lua_checkstack L (n + 1)).0
      then err too_many_to_unpack
      else ok (values_from t n i)
