-- ===== src/Table/Moving.antt =====
-- tmove on overlapping ranges: the values that are written are those from before the call.
use luava.Base.{ℕ, zero, suc, ◌<◌, ◌≡◌, ◌≢◌, refl, sym, ap, ◌∙◌, arith, ◌==◌, ◌⊎◌, inl, inr}
use luava.Base.{true, false, ◌||◌, Option, none, some, Bool-cases}
use luava.Base.Int.{ℤ, pos, pos_part, neg_part, ltb_ℤ, ◌+ℤ◌, ◌-ℤ◌, ◌≤ℤ◌, eq_of_parts, int_laws}
use luava.Base.Word.{max_integer}
use luava.Table.{Table, Outcome, ok, eq_ℤ, geb_ℤ, seti, copy_up, copy_down, copy_to, tmove}

pub plus_zero : (a : ℤ) → a +ℤ pos 0 ≡ a
unfolding ◌+ℤ◌
plus_zero a = ground arith

pub plus_one : (a : ℤ) (j : ℕ) → a +ℤ pos 1 +ℤ pos j ≡ a +ℤ pos (suc j)
unfolding ◌+ℤ◌
plus_one a j = ground arith

pub apart : (a b : ℤ) → (a +ℤ pos 1 ≤ℤ b) ⊎ (b +ℤ pos 1 ≤ℤ a) → a ≢ b
unfolding ◌+ℤ◌
apart a b (inl h) e = let same = ap pos_part e in let same' = ap neg_part e in ground arith
apart a b (inr h) e = let same = ap pos_part e in let same' = ap neg_part e in ground arith

pub not_below : (a b : ℤ) → a ≤ℤ b → ltb_ℤ b a ≡ false
not_below a b h = ground arith

-- What the choice of the order rests on.
no_overlap :
    (f e d : ℤ)
    → f ≤ℤ e
    → (ltb_ℤ e d || geb_ℤ f d) ≡ true
    → (d ≤ℤ f) ⊎ (f +ℤ pos (pos_part (e -ℤ f +ℤ pos 1)) ≤ℤ d)
unfolding ◌+ℤ◌ ◌-ℤ◌
no_overlap f e d le h = elim (Bool-cases (ltb_ℤ e d)) [
  | inl after ↦ inr (ground arith)
  | inr not_after ↦ inl (ground arith)
]

in_front : (f e d : ℤ) → (ltb_ℤ e d || geb_ℤ f d) ≡ false → f ≤ℤ d
in_front f e d h = ground arith

module _ {V : Type 0} where
  pub seti_same : (t : Table V) (i : ℤ) (v : V) → seti t i v i ≡ v
  unfolding seti eq_ℤ
  seti_same t i v = let e : eq_ℤ i i ≡ true = ground arith in rw e refl

  pub seti_other : (t : Table V) (i k : ℤ) (v : V) → k ≢ i → seti t i v k ≡ t k
  unfolding seti eq_ℤ
  seti_other t i k v h = elim (Bool-cases (eq_ℤ k i)) [
    | inl same ↦ absurd (h (eq_of_parts k i (ground arith)))
    | inr other ↦ rw other refl
  ]

  -- After `m` copies from `f` to `d` the table has at the destination what `old` has at the source,
  -- and elsewhere what `t` has.
  pub record Copied (m : ℕ) (f d : ℤ) (old t result : Table V) : Type 0 where
    pub moved : (j : ℕ) → j < m → result (d +ℤ pos j) ≡ old (f +ℤ pos j)
    pub kept : (k : ℤ) → (k +ℤ pos 1 ≤ℤ d) ⊎ (d +ℤ pos m ≤ℤ k) → result k ≡ t k

  pub Copied-none : (f d : ℤ) (old t : Table V) → Copied 0 f d old t t
  Copied-none f d old t = record { moved = λ j h. absurd (omega arith); kept = λ k h. refl }

  -- One copy, and then those from the next positions on.
  Copied-first :
      (m : ℕ) (f d : ℤ) (old t : Table V) (v : V) {result : Table V}
      → v ≡ old f
      → Copied m (f +ℤ pos 1) (d +ℤ pos 1) old (seti t d v) result
      → Copied (suc m) f d old t result
  Copied-first m f d old t v {result} e rest = record {
    moved = λ j h. first j h;
    kept = λ k h. rest.kept k (outside k h) ∙ seti_other t d k v (apart k d (beside k h));
  }
    where
      first : (j : ℕ) → j < suc m → result (d +ℤ pos j) ≡ old (f +ℤ pos j)
      first zero h =
          rw (plus_zero d, plus_zero f) (rest.kept d (inl (omega int_laws)) ∙ seti_same t d v ∙ e)
      first (suc j) h = rw (← plus_one d j, ← plus_one f j) (rest.moved j (omega arith))

      beside :
          (k : ℤ)
          → (k +ℤ pos 1 ≤ℤ d) ⊎ (d +ℤ pos (suc m) ≤ℤ k)
          → (k +ℤ pos 1 ≤ℤ d) ⊎ (d +ℤ pos 1 ≤ℤ k)
      beside k (inl h) = inl h
      beside k (inr h) = inr (omega int_laws)

      outside :
          (k : ℤ)
          → (k +ℤ pos 1 ≤ℤ d) ⊎ (d +ℤ pos (suc m) ≤ℤ k)
          → (k +ℤ pos 1 ≤ℤ d +ℤ pos 1) ⊎ (d +ℤ pos 1 +ℤ pos m ≤ℤ k)
      outside k (inl h) = inl (omega int_laws)
      outside k (inr h) = inr (omega int_laws)

  copy_to-Copied : (m : ℕ) (f d : ℤ) (src t : Table V) → Copied m f d src t (copy_to m f d src t)
  unfolding copy_to
  copy_to-Copied zero f d src t = Copied-none f d src t
  copy_to-Copied (suc m) f d src t =
      Copied-first m f d src t (src f) refl
        (copy_to-Copied m (f +ℤ pos 1) (d +ℤ pos 1) src (seti t d (src f)))

  -- In increasing order, where no write reaches a source that is still to be read.
  pub copy_up-Copied :
      (m : ℕ) (f d : ℤ) (old t : Table V)
      → (d ≤ℤ f) ⊎ (f +ℤ pos m ≤ℤ d)
      → ((j : ℕ) → j < m → t (f +ℤ pos j) ≡ old (f +ℤ pos j))
      → Copied m f d old t (copy_up m f d t)
  unfolding copy_up
  copy_up-Copied zero f d old t clear same = Copied-none f d old t
  copy_up-Copied (suc m) f d old t clear same =
      Copied-first m f d old t (t f)
        (ap t (sym (plus_zero f)) ∙ same 0 (omega arith) ∙ ap old (plus_zero f))
        (copy_up-Copied m (f +ℤ pos 1) (d +ℤ pos 1) old (seti t d (t f)) (next clear) unread)
    where
      next :
          (d ≤ℤ f) ⊎ (f +ℤ pos (suc m) ≤ℤ d)
          → (d +ℤ pos 1 ≤ℤ f +ℤ pos 1) ⊎ (f +ℤ pos 1 +ℤ pos m ≤ℤ d +ℤ pos 1)
      next (inl h) = inl (omega int_laws)
      next (inr h) = inr (omega int_laws)

      unwritten :
          (j : ℕ)
          → j < m
          → (d ≤ℤ f) ⊎ (f +ℤ pos (suc m) ≤ℤ d)
          → (f +ℤ pos (suc j) +ℤ pos 1 ≤ℤ d) ⊎ (d +ℤ pos 1 ≤ℤ f +ℤ pos (suc j))
      unwritten j lt (inl h) = inr (omega int_laws)
      unwritten j lt (inr h) = inl (omega int_laws)

      unread : (j : ℕ) → j < m → seti t d (t f) (f +ℤ pos 1 +ℤ pos j) ≡ old (f +ℤ pos 1 +ℤ pos j)
      unread j lt = rw (plus_one f j) (
          seti_other t d (f +ℤ pos (suc j)) (t f)
            (apart (f +ℤ pos (suc j)) d (unwritten j lt clear))
          ∙ same (suc j) (omega arith))

  -- The copies to the positions before, after one to the last.
  Copied-last :
      (m : ℕ) (f d : ℤ) (old t : Table V) (v : V) {result : Table V}
      → v ≡ old (f +ℤ pos m)
      → Copied m f d old (seti t (d +ℤ pos m) v) result
      → Copied (suc m) f d old t result
  Copied-last m f d old t v {result} e rest = record {
    moved = λ j h. elim (Bool-cases (j == m)) [
      | inl last ↦
          rw (the_same j last)
            (rest.kept (d +ℤ pos m) (inr (omega int_laws)) ∙ seti_same t (d +ℤ pos m) v ∙ e)
      | inr before ↦ rest.moved j (ground arith)
    ];
    kept = λ k h.
        rest.kept k (outside k h)
        ∙ seti_other t (d +ℤ pos m) k v (apart k (d +ℤ pos m) (beside k h));
  }
    where
      the_same : (j : ℕ) → (j == m) ≡ true → j ≡ m
      the_same j h = ground arith

      beside :
          (k : ℤ)
          → (k +ℤ pos 1 ≤ℤ d) ⊎ (d +ℤ pos (suc m) ≤ℤ k)
          → (k +ℤ pos 1 ≤ℤ d +ℤ pos m) ⊎ (d +ℤ pos m +ℤ pos 1 ≤ℤ k)
      beside k (inl h) = inl (omega int_laws)
      beside k (inr h) = inr (omega int_laws)

      outside :
          (k : ℤ)
          → (k +ℤ pos 1 ≤ℤ d) ⊎ (d +ℤ pos (suc m) ≤ℤ k)
          → (k +ℤ pos 1 ≤ℤ d) ⊎ (d +ℤ pos m ≤ℤ k)
      outside k (inl h) = inl h
      outside k (inr h) = inr (omega int_laws)

  -- In decreasing order, where the destination is not before the source.
  pub copy_down-Copied :
      (m : ℕ) (f d : ℤ) (old t : Table V)
      → f ≤ℤ d
      → ((j : ℕ) → j < m → t (f +ℤ pos j) ≡ old (f +ℤ pos j))
      → Copied m f d old t (copy_down m f d t)
  unfolding copy_down
  copy_down-Copied zero f d old t le same = Copied-none f d old t
  copy_down-Copied (suc m) f d old t le same =
      Copied-last m f d old t (t (f +ℤ pos m)) (same m (omega arith)) (
        copy_down-Copied m f d old (seti t (d +ℤ pos m) (t (f +ℤ pos m))) le (λ j h.
          seti_other t (d +ℤ pos m) (f +ℤ pos j) (t (f +ℤ pos m))
            (apart (f +ℤ pos j) (d +ℤ pos m) (inl (omega int_laws)))
          ∙ same j (omega arith)))

  -- What `tmove` has to do: nothing for an empty range.
  pub record IsMoved (src dst : Table V) (f e d : ℤ) (r : Outcome (Table V)) : Type 0 where
    pub table : Table V
    pub returns : r ≡ ok table
    pub copied : Copied (pos_part (e -ℤ f +ℤ pos 1)) f d src dst table

  -- table.move, in one table or to another, where the range is not empty and neither check fails:
  -- each destination gets the value that its source had before the call, also where the ranges
  -- overlap, and no other position changes.
  pub tmove-IsMoved :
      (src : Table V) (f e d : ℤ) (other : Option (Table V))
      → f ≤ℤ e
      → (ltb_ℤ (pos 0) f || ltb_ℤ e (max_integer +ℤ f)) ≡ true
      → d ≤ℤ max_integer -ℤ (e -ℤ f +ℤ pos 1) +ℤ pos 1
      → IsMoved src
          (elim other as (λ _. Table V) [ none ↦ src | some t ↦ t ])
          f
          e
          d
          (tmove src f e d other)
  unfolding tmove
  tmove-IsMoved src f e d (some t) le few fits =
      let n = pos_part (e -ℤ f +ℤ pos 1) in
      record {
        table = copy_to n f d src t;
        returns =
            rw (not_below f e le, few, not_below d (max_integer -ℤ (e -ℤ f +ℤ pos 1) +ℤ pos 1) fits)
              refl;
        copied = copy_to-Copied n f d src t;
      }
  tmove-IsMoved src f e d none le few fits =
      let n = pos_part (e -ℤ f +ℤ pos 1) in
      let tests = not_below d (max_integer -ℤ (e -ℤ f +ℤ pos 1) +ℤ pos 1) fits in
      elim (Bool-cases (ltb_ℤ e d || geb_ℤ f d)) [
        | inl up ↦ record {
          table = copy_up n f d src;
          returns = rw (not_below f e le, few, tests, up) refl;
          copied = copy_up-Copied n f d src src (no_overlap f e d le up) (λ j h. refl);
        }
        | inr down ↦ record {
          table = copy_down n f d src;
          returns = rw (not_below f e le, few, tests, down) refl;
          copied = copy_down-Copied n f d src src (in_front f e d down) (λ j h. refl);
        }
      ]
