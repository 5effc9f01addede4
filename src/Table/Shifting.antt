-- ===== src/Table/Shifting.antt =====
-- tinsert at a position and tremove, which move the elements behind it.
use luava.Base.{
  ℕ, zero, suc, ◌+◌, ◌-◌, ◌%◌, ◌^◌, ◌≤◌, ◌<◌, ◌≡◌, ◌≢◌, refl, sym, ap, ◌∙◌, arith, ltb, leb, ◌⊎◌,
  inl, inr,
}
use luava.Base.{true, false, not, ◌&&◌, some, Bool-cases}
use luava.Base.Int.{ℤ, pos, pos_part, ltb_ℤ, ◌+ℤ◌, ◌-ℤ◌, ◌≤ℤ◌, eq_of_parts, int_laws}
use luava.Base.Word.{cast_s2u, cast_u2s}
use luava.Table.{
  Table, ok, at_position, eq_ℤ, seti, move_up, move_down, copy_up, copy_down, tinsert, tremove,
}
use luava.Table.Moving.{
  plus_one, apart, seti_same, seti_other, Copied, copy_up-Copied, copy_down-Copied,
}

-- The place of the last copy, and of its source.
last_place : (at : ℤ) (k : ℕ) → at +ℤ pos (suc k) ≡ at +ℤ pos 1 +ℤ pos k
last_place at k = sym (plus_one at k)

before_last : (at : ℤ) (k : ℕ) → at +ℤ pos (suc k) -ℤ pos 1 ≡ at +ℤ pos k
before_last at k = eq_of_parts _ _ (omega int_laws)

-- The tests and the numbers of moves, for positions in the list.
insert_test :
    (n a : ℕ)
    → a ≤ n
    → n + 1 < 2 ^ 63
    → ltb ((suc a + 2 ^ 64 - 1) % 2 ^ 64) ((n + 1) % 2 ^ 64) ≡ true
insert_test n a le small = ground arith

insert_count :
    (n a : ℕ)
    → a ≤ n
    → n + 1 < 2 ^ 63
    → pos_part (cast_u2s ((n + 1) % 2 ^ 64) -ℤ pos (suc a)) ≡ n - a
unfolding cast_u2s ◌-ℤ◌
insert_count n a le small = ground arith

remove_test :
    (n a : ℕ)
    → a ≤ n
    → n + 1 < 2 ^ 63
    → not (eq_ℤ (pos (suc a)) (pos (suc n))) && not (leb ((suc a + 2 ^ 64 - 1) % 2 ^ 64) (suc n))
      ≡ false
unfolding eq_ℤ
remove_test n a le small = ground arith

remove_count : (n a : ℕ) → a ≤ n → pos_part (pos (suc n) -ℤ pos (suc a)) ≡ n - a
unfolding ◌-ℤ◌
remove_count n a le = ground arith

end : (n a : ℕ) → a ≤ n → pos (suc n) ≡ pos (suc a) +ℤ pos (n - a)
unfolding ◌+ℤ◌
end n a le = ground arith

-- Where a position lies: before `at`, on one of the `k` from there on, on the next one, or behind.
data Place (at : ℤ) (k : ℕ) (i : ℤ) : Type 0 where
  before : i +ℤ pos 1 ≤ℤ at → Place at k i
  on : (j : ℕ) → j < k → i ≡ at +ℤ pos j → Place at k i
  behind : at +ℤ pos k +ℤ pos 1 ≤ℤ i → Place at k i

before_at : (a b : ℤ) → ltb_ℤ a b ≡ true → a +ℤ pos 1 ≤ℤ b
unfolding ◌+ℤ◌
before_at a b h = ground arith

steps :
    (i at : ℤ) (k : ℕ) → ltb_ℤ i at ≡ false → ltb_ℤ i (at +ℤ pos k) ≡ true → pos_part (i -ℤ at) < k
unfolding ◌+ℤ◌ ◌-ℤ◌
steps i at k ge lt = ground arith

at_steps : (i at : ℤ) → ltb_ℤ i at ≡ false → i ≡ at +ℤ pos (pos_part (i -ℤ at))
unfolding ◌+ℤ◌ ◌-ℤ◌
at_steps i at ge = ground arith

equal : (a b : ℤ) → ltb_ℤ a b ≡ false → ltb_ℤ b a ≡ false → a ≡ b
equal a b h k = eq_of_parts a b (ground arith)

place : (at : ℤ) (k : ℕ) (i : ℤ) → i ≢ at +ℤ pos k → Place at k i
place at k i other = elim (Bool-cases (ltb_ℤ i at)) [
  | inl lt ↦ Place.before (before_at i at lt)
  | inr ge ↦ elim (Bool-cases (ltb_ℤ i (at +ℤ pos k))) [
    | inl lt ↦ Place.on (pos_part (i -ℤ at)) (steps i at k ge lt) (at_steps i at ge)
    | inr ge' ↦ elim (Bool-cases (ltb_ℤ (at +ℤ pos k) i)) [
      | inl gt ↦ Place.behind (before_at (at +ℤ pos k) i gt)
      | inr le ↦ absurd (other (equal i (at +ℤ pos k) ge' le))
    ]
  ]
]

module _ {V : Type 0} where
  -- Moving up is a copy in decreasing order to the next position, moving down one in increasing
  -- order to the position before.
  move_up-copy_down :
      (k : ℕ) (at : ℤ) (t : Table V) → move_up k at t ≡ copy_down k at (at +ℤ pos 1) t
  unfolding move_up copy_down
  move_up-copy_down zero at t = refl
  move_up-copy_down (suc k) at t =
      rw (before_last at k, last_place at k)
        (move_up-copy_down k at (seti t (at +ℤ pos 1 +ℤ pos k) (t (at +ℤ pos k))))

  move_down-copy_up :
      (k : ℕ) (at : ℤ) (t : Table V) → move_down k at t ≡ copy_up k (at +ℤ pos 1) at t
  unfolding move_down copy_up
  move_down-copy_up zero at t = refl
  move_down-copy_up (suc k) at t = move_down-copy_up k (at +ℤ pos 1) (seti t at (t (at +ℤ pos 1)))

  move_up-Copied : (k : ℕ) (at : ℤ) (t : Table V) → Copied k at (at +ℤ pos 1) t t (move_up k at t)
  move_up-Copied k at t =
      rw (move_up-copy_down k at t)
        (copy_down-Copied k at (at +ℤ pos 1) t t (omega int_laws) (λ j h. refl))

  move_down-Copied :
      (k : ℕ) (at : ℤ) (t : Table V) → Copied k (at +ℤ pos 1) at t t (move_down k at t)
  move_down-Copied k at t =
      rw (move_down-copy_up k at t)
        (copy_up-Copied k (at +ℤ pos 1) at t t (inl (omega int_laws)) (λ j h. refl))

  -- The tables after the insertion and after the removal.
  abbrev inserted : Table V → ℤ → ℕ → V → Table V
  inserted t at k v = seti (move_up k at t) at v

  abbrev removed : V → Table V → ℤ → ℕ → Table V
  removed nil t at k = seti (move_down k at t) (at +ℤ pos k) nil

  tinsert-at :
      (t : Table V) (n a : ℕ) (v : V)
      → a ≤ n
      → n + 1 < 2 ^ 63
      → tinsert t (pos n) (at_position (pos (suc a)) v) ≡ ok (inserted t (pos (suc a)) (n - a) v)
  unfolding tinsert cast_s2u
  tinsert-at t n a v le small = rw (insert_test n a le small, insert_count n a le small) refl

  tremove-at :
      (nil : V) (t : Table V) (n a : ℕ)
      → a ≤ n
      → n + 1 < 2 ^ 63
      → tremove nil t (pos (suc n)) (some (pos (suc a)))
        ≡ ok (t (pos (suc a)), removed nil t (pos (suc a)) (n - a))
  unfolding tremove cast_s2u
  tremove-at nil t n a le small = rw (remove_test n a le small, remove_count n a le) refl

  -- What is removed from where a value was inserted: the other positions are as before.
  back :
      (nil : V) (t : Table V) (at : ℤ) (k : ℕ) (v : V) (i : ℤ)
      → i ≢ at +ℤ pos k
      → removed nil (inserted t at k v) at k i ≡ t i
  back nil t at k v i other =
      seti_other (move_down k at t1) (at +ℤ pos k) i nil other ∙ shifted (place at k i other)
    where
      t1 : Table V
      t1 = inserted t at k v

      up : Copied k at (at +ℤ pos 1) t t (move_up k at t)
      up = move_up-Copied k at t

      down : Copied k (at +ℤ pos 1) at t1 t1 (move_down k at t1)
      down = move_down-Copied k at t1

      untouched : (m : ℤ) → (m +ℤ pos 1 ≤ℤ at) ⊎ (at +ℤ pos 1 ≤ℤ m) → t1 m ≡ move_up k at t m
      untouched m far = seti_other (move_up k at t) at m v (apart m at far)

      shifted : Place at k i → move_down k at t1 i ≡ t i
      shifted (Place.before lt) =
          down.kept i (inl lt) ∙ untouched i (inl lt) ∙ up.kept i (inl (omega int_laws))
      shifted (Place.on j lt e) = rw e (
          down.moved j lt ∙ untouched (at +ℤ pos 1 +ℤ pos j) (inr (omega int_laws)) ∙ up.moved j lt)
      shifted (Place.behind gt) =
          down.kept i (inr (omega int_laws))
          ∙ untouched i (inr (omega int_laws))
          ∙ up.kept i (inr (omega int_laws))

  -- What a call of table.insert at a position and one of table.remove there leave.
  pub record IsUndone (nil : V) (t : Table V) (n a : ℕ) (v : V) : Type 0 where
    pub between : Table V
    pub after : Table V
    pub inserts : tinsert t (pos n) (at_position (pos (suc a)) v) ≡ ok between
    pub removes : tremove nil between (pos (suc n)) (some (pos (suc a))) ≡ ok (v, after)
    pub empty : after (pos (suc n)) ≡ nil
    pub same : (i : ℤ) → i ≢ pos (suc n) → after i ≡ t i

  -- table.remove at the position of a table.insert gives back the value and every other element, for
  -- a list of `n` elements, fewer than 2^63 - 1, and a position from 1 to n + 1; the position n + 1
  -- is nil afterwards.
  pub tremove-tinsert :
      (nil : V) (t : Table V) (n a : ℕ) (v : V) → a ≤ n → n + 1 < 2 ^ 63 → IsUndone nil t n a v
  tremove-tinsert nil t n a v le small =
      let at = pos (suc a) in
      let k = n - a in
      let t1 = inserted t at k v in
      record {
        between = t1;
        after = removed nil t1 at k;
        inserts = tinsert-at t n a v le small;
        removes =
            tremove-at nil t1 n a le small
            ∙ ap (λ (w : V). ok (w, removed nil t1 at k)) (seti_same (move_up k at t) at v);
        empty = rw (end n a le) (seti_same (move_down k at t1) (at +ℤ pos k) nil);
        same = λ i other. back nil t at k v i (λ e. other (e ∙ sym (end n a le)));
      }
