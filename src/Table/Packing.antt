-- ===== src/Table/Packing.antt =====
-- tpack and tunpack.
use luava.Base.{ℕ, zero, suc, ◌+◌, ◌-◌, ◌%◌, ◌^◌, ◌<◌, ◌≡◌, refl, ap, ◌∙◌, arith, leb, inr}
use luava.Base.{false, List, [], ◌∷◌, length}
use luava.Base.Int.{ℤ, pos, ltb_ℤ, ◌+ℤ◌, ◌≤ℤ◌, int_laws}
use luava.Base.Word.{cast_s2u}
use luava.Proto.{int_max}
use luava.Table.{Table, ok, seti, pack_at, tpack, values_from, tunpack}
use luava.Table.Moving.{apart, seti_same, seti_other}
use luava.Base.{◌≤◌}
use luava.Stack.{LuaStack, maxstack}
use luava.Stack.Room.{IsStack, lua_checkstack-fits}

unpack_count :
    (n : ℕ) → suc n < 2 ^ 31 → (cast_s2u (pos (suc n)) + 2 ^ 64 - cast_s2u (pos 1)) % 2 ^ 64 ≡ n
unfolding cast_s2u
unpack_count n h = ground arith

module _ {V : Type 0} where
  -- A write before the positions that are read.
  values_from-seti :
      (t : Table V) (i : ℤ) (v : V) (k : ℕ) (at : ℤ)
      → i +ℤ pos 1 ≤ℤ at
      → values_from (seti t i v) k at ≡ values_from t k at
  unfolding values_from
  values_from-seti t i v zero at h = rw (seti_other t i at v (apart at i (inr h))) refl
  values_from-seti t i v (suc k) at h =
      rw (seti_other t i at v (apart at i (inr h)))
        (ap (λ (vs : List V). t at ∷ vs) (values_from-seti t i v k (at +ℤ pos 1) (omega int_laws)))

  values_from-pack_at :
      (t : Table V) (i : ℤ) (v : V) (vs : List V)
      → values_from (pack_at i (v ∷ vs) t) (length vs) i ≡ v ∷ vs
  unfolding values_from pack_at
  values_from-pack_at t i v [] = ap (λ (w : V). w ∷ []) (seti_same t i v)
  values_from-pack_at t i v (w ∷ vs) =
      let rest = pack_at (i +ℤ pos 1) (w ∷ vs) t in
      rw (seti_same rest i v) (
        ap (λ (us : List V). v ∷ us)
          (values_from-seti rest i v (length vs) (i +ℤ pos 1) (omega int_laws)
            ∙ values_from-pack_at t (i +ℤ pos 1) w vs))

  -- table.unpack from 1 to n, of the n values that table.pack was given, returns them; n is at least
  -- 1, and the slots in use on the stack and n more do not exceed LUAI_MAXSTACK.
  pub tunpack-tpack :
      (L : LuaStack) (empty : Table V) (v : V) (vs : List V)
      → IsStack L
      → L.used + length (v ∷ vs) ≤ maxstack
      → tunpack L (tpack empty (v ∷ vs)).0 (pos 1) (pos (tpack empty (v ∷ vs)).1) ≡ ok (v ∷ vs)
  unfolding tunpack tpack
  tunpack-tpack L empty v vs is room =
      let n = length vs in
      let forward : ltb_ℤ (pos (suc n)) (pos 1) ≡ false = ground arith in
      let few : leb int_max n ≡ false = ground arith in
      let next : n + 1 ≡ suc n = omega arith in
      let grown = lua_checkstack-fits L (suc n) is room in
      rw (unpack_count n (omega arith), forward, few, next, grown)
        (ap (λ (us : List V). ok us) (values_from-pack_at empty (pos 1) v vs))
