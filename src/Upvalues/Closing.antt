-- ===== src/Upvalues/Closing.antt =====
-- The list of to-be-closed variables of lua/src/lfunc.c as a list of levels: the deltas and dummy
-- nodes implement it.
use luava.Base.{update, ℕ, zero, suc, ◌+◌, ◌-◌, ◌%◌, ◌^◌, ◌≤◌, ◌<◌, ◌≡◌, refl, arith, true, false}
use luava.Base.{◌&&◌, ltb, leb, ◌==◌, List, [], ◌∷◌, if◌then◌else◌, Bool-cases, inl, inr}
use luava.Upvalues.{Inserted, done, non_closable, insert_tbc, checkclosemth}
use luava.Base.{Bool}
use luava.Upvalues.{maxdelta, Tbc, add_dummies, newtbcupval, skip_dummies, poptbclist, close_loop}

-- `k` dummy nodes above `q`, which end at `p`.
abbrev Dummies : (ℕ → ℕ) → ℕ → ℕ → ℕ → Type 0
Dummies delta q zero p = p ≡ q
Dummies delta q (suc k) p = (maxdelta ≤ p) × (delta p ≡ 0) × Dummies delta q k (p - maxdelta)

-- The levels that the slots from `p` down stand for, the last one first; 0 is the end.
abbrev pub Levels : (ℕ → ℕ) → ℕ → List ℕ → Type 0
Levels delta p [] = p ≡ 0
Levels delta p (l ∷ ls) =
    (p ≡ l)
    × (0 < delta l)
    × (delta l ≤ l)
    × ((q : ℕ) × (k : ℕ) × (q < l) × Dummies delta q k (l - delta l) × Levels delta q ls)

-- The abstract view: what `tbclist` stands for.
unfoldable pub Represents : Tbc → List ℕ → Type 0
Represents T ls = Levels T.delta T.tbclist ls

-- Slots above are not looked at.
Dummies-update :
    (delta : ℕ → ℕ) (q k p i v : ℕ) → p < i → Dummies delta q k p → Dummies (update delta i v) q k p
Dummies-update delta q zero p i v lt h = h
Dummies-update delta q (suc k) p i v lt h =
    let other : (p == i) ≡ false = ground arith in
    (h.0, rw other h.1, Dummies-update delta q k (p - maxdelta) i v (omega arith) h.2)

Levels-update :
    (delta : ℕ → ℕ) (p : ℕ) (ls : List ℕ) (i v : ℕ)
    → p < i
    → Levels delta p ls
    → Levels (update delta i v) p ls
Levels-update delta p [] i v lt h = h
Levels-update delta p (l ∷ ls) i v lt (e, some_delta, small, (q, k, below, dummies, rest)) =
    let other : (l == i) ≡ false = ground arith in
    (
      e,
      rw other some_delta,
      rw other small,
      (
        q,
        k,
        below,
        rw other (Dummies-update delta q k (l - delta l) i v (omega arith) dummies),
        Levels-update delta q ls i v (omega arith) rest,
      ),
    )

-- The loop that adds dummies: the node that it ends at is near enough.
add_dummies_lem :
    (fuel level k q : ℕ) (T : Tbc) (ls : List ℕ)
    → level - T.tbclist ≤ fuel
    → T.tbclist < level
    → q ≤ T.tbclist
    → Dummies T.delta q k T.tbclist
    → Levels T.delta q ls
    → (let T' = add_dummies fuel level T in
        (T'.tbclist < level)
        × (level - T'.tbclist ≤ maxdelta)
        × (q ≤ T'.tbclist)
        × ((k' : ℕ) × Dummies T'.delta q k' T'.tbclist × Levels T'.delta q ls))
unfolding add_dummies
add_dummies_lem zero level k q T ls few lt le d h = absurd (omega arith)
add_dummies_lem (suc fuel) level k q T ls few lt le d h =
    let p = T.tbclist + maxdelta in
    let here : (T.tbclist + maxdelta == T.tbclist + maxdelta) ≡ true = ground arith in
    let back : T.tbclist + maxdelta - maxdelta ≡ T.tbclist = omega arith in
    elim (Bool-cases (ltb maxdelta (level - T.tbclist))) [
      | inl far ↦ rw far (
          add_dummies_lem fuel level (suc k) q (record { tbclist = p; delta = update T.delta p 0 })
            ls (ground arith) (ground arith) (omega arith)
            (
              omega arith,
              rw here refl,
              rw back (Dummies-update T.delta q k T.tbclist p 0 (omega arith) d),
            )
            (Levels-update T.delta q ls p 0 (omega arith) h))
      | inr near ↦ rw near (lt, ground arith, le, (k, d, h))
    ]

-- The loop that removes dummies stops at a variable, and at the bottom of the stack.
Levels-stop :
    (delta : ℕ → ℕ) (q : ℕ) (ls : List ℕ) → Levels delta q ls → (ltb 0 q && (delta q == 0)) ≡ false
Levels-stop delta q [] h = rw h refl
Levels-stop delta q (l ∷ ls) (e, some_delta, small, rest) = rw e (ground arith)

skip_dummies_lem :
    (fuel k q p : ℕ) (delta : ℕ → ℕ) (ls : List ℕ)
    → p ≤ fuel
    → Dummies delta q k p
    → Levels delta q ls
    → skip_dummies fuel delta p ≡ q
unfolding skip_dummies
skip_dummies_lem zero zero q p delta ls few d h = d
skip_dummies_lem zero (suc k) q p delta ls few d h = absurd (omega arith)
skip_dummies_lem (suc fuel) zero q p delta ls few d h = rw d (rw (Levels-stop delta q ls h) refl)
skip_dummies_lem (suc fuel) (suc k) q p delta ls few d h =
    let dummy : (ltb 0 p && (delta p == 0)) ≡ true = ground arith in
    rw dummy (skip_dummies_lem fuel k q (p - maxdelta) delta ls (omega arith) d.2 h)

new_level :
    (level q k : ℕ) (T : Tbc) (ls : List ℕ)
    → T.tbclist < level
    → level - T.tbclist ≤ maxdelta
    → q ≤ T.tbclist
    → Dummies T.delta q k T.tbclist
    → Levels T.delta q ls
    → Levels (update T.delta level ((level - T.tbclist) % 2 ^ 16)) level (level ∷ ls)
new_level level q k T ls lt near le d h =
    let v = (level - T.tbclist) % 2 ^ 16 in
    let here : (level == level) ≡ true = ground arith in
    let back : level - (level - T.tbclist) % 2 ^ 16 ≡ T.tbclist = omega arith in
    (
      refl,
      rw here (omega arith),
      rw here (omega arith),
      (
        q,
        k,
        omega arith,
        rw here (rw back (Dummies-update T.delta q k T.tbclist level v lt d)),
        Levels-update T.delta q ls level v (omega arith) h,
      ),
    )

-- The end of luaF_newtbcupval puts a higher level in front of the list.
pub insert_tbc-Represents :
    (level : ℕ) (T : Tbc) (ls : List ℕ)
    → Represents T ls
    → T.tbclist < level
    → Represents (insert_tbc level T) (level ∷ ls)
unfolding Represents insert_tbc
insert_tbc-Represents level T ls h lt =
    let (lower, near, up, (k, dummies, rest)) =
      add_dummies_lem level level 0 T.tbclist T ls (omega arith) lt (omega arith) refl h in
    new_level level T.tbclist k (add_dummies level level T) ls lower near up dummies rest

-- What declaring a variable does to a list of levels.
abbrev pub declared : Bool → Bool → ℕ → List ℕ → Inserted (List ℕ)
declared true closable level ls = done ls
declared false true level ls = done (level ∷ ls)
declared false false level ls = non_closable level

-- Both lists, or the same error.
abbrev pub Agrees : Inserted Tbc → Inserted (List ℕ) → Type 0
Agrees (done T) (done ls) = Represents T ls
Agrees (non_closable i) (non_closable j) = i ≡ j
Agrees (done T) (non_closable j) = ⊥
Agrees (non_closable i) (done ls) = ⊥

-- On the stack slots that stand for a list of levels, and for a level above the list, luaF_newtbcupval
-- leaves the list to a false value, raises the error of checkclosemth for another value without a close
-- method, and otherwise, with its dummy nodes and 16-bit deltas, puts the level in front of the list.
pub newtbcupval-Agrees :
    {V : Type 0} (is_false has_close : V → Bool) (stack : ℕ → V) (level : ℕ) (T : Tbc) (ls : List ℕ)
    → Represents T ls
    → T.tbclist < level
    → Agrees
        (newtbcupval is_false has_close stack level T)
        (declared (is_false (stack level)) (has_close (stack level)) level ls)
unfolding newtbcupval checkclosemth
newtbcupval-Agrees is_false has_close stack level T ls h lt =
    elim (Bool-cases (is_false (stack level))) [
      | inl none_to_close ↦ rw none_to_close h
      | inr other ↦ elim (Bool-cases (has_close (stack level))) [
        | inl closable ↦ rw (other, closable) (insert_tbc-Represents level T ls h lt)
        | inr wrong ↦ rw (other, wrong) refl
      ]
    ]

-- poptbclist takes the first level off.
pub poptbclist-Represents :
    (l : ℕ) (ls : List ℕ) (T : Tbc) → Represents T (l ∷ ls) → Represents (poptbclist T) ls
unfolding Represents poptbclist
poptbclist-Represents l ls T (e, some_delta, small, (q, k, below, dummies, rest)) =
    let shown : T.tbclist - T.delta T.tbclist ≡ l - T.delta l = rw e in
    rw
      (
        shown,
        skip_dummies_lem (l - T.delta l) k q (l - T.delta l) T.delta ls (omega arith) dummies rest,
      )
      rest

poptbclist-lt :
    (l : ℕ) (ls : List ℕ) (T : Tbc) → Represents T (l ∷ ls) → (poptbclist T).tbclist < T.tbclist
unfolding Represents poptbclist
poptbclist-lt l ls T (e, some_delta, small, (q, k, below, dummies, rest)) =
    let shown : T.tbclist - T.delta T.tbclist ≡ l - T.delta l = rw e in
    rw
      (
        shown,
        skip_dummies_lem (l - T.delta l) k q (l - T.delta l) T.delta ls (omega arith) dummies rest,
      )
      (omega arith)

first_level : (l : ℕ) (ls : List ℕ) (T : Tbc) → Represents T (l ∷ ls) → T.tbclist ≡ l
unfolding Represents
first_level l ls T h = h.0

no_level : (T : Tbc) → Represents T [] → T.tbclist ≡ 0
unfolding Represents
no_level T h = h

-- The variables at a level and above, and those below.
pub closed : ℕ → List ℕ → List ℕ × List ℕ
closed level [] = ([], [])
closed level (l ∷ ls) =
    if leb level l then (l ∷ (closed level ls).0, (closed level ls).1) else ([], l ∷ ls)

-- On the stack slots that stand for a list of levels, luaF_close closes the variables up to the
-- first below its level, the last one first, and the slots then stand for the others.
pub close_loop-closed :
    (fuel level : ℕ) (ls : List ℕ) (T : Tbc)
    → Represents T ls
    → 0 < level
    → T.tbclist < fuel
    → ((close_loop fuel level T).0 ≡ (closed level ls).0)
      × Represents (close_loop fuel level T).1 (closed level ls).1
unfolding close_loop closed
close_loop-closed zero level ls T h some few = absurd (omega arith)
close_loop-closed (suc fuel) level [] T h some few =
    let e = no_level T h in
    let over : leb level T.tbclist ≡ false = ground arith in rw over (refl, h)
close_loop-closed (suc fuel) level (l ∷ ls) T h some few =
    let e = first_level l ls T h in
    let lower = poptbclist-lt l ls T h in
    let rest =
      close_loop-closed fuel level ls (poptbclist T) (poptbclist-Represents l ls T h) some
        (omega arith) in
    elim (Bool-cases (leb level l)) [
      | inl up ↦
          let up' : leb level T.tbclist ≡ true = ground arith in
          rw (up, up') (cc (e, rest.0), rest.1)
      | inr over ↦
          let over' : leb level T.tbclist ≡ false = ground arith in rw (over, over') (refl, h)
    ]
