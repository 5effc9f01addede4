-- ===== src/Upvalues/Values.antt =====
-- The list of open upvalues of lua/src/lfunc.c keeps its order, and closing keeps every value.
use luava.Base.{update, ℕ, suc, ◌+◌, ◌≤◌, ◌<◌, ◌≡◌, refl, ◌∙◌, arith, true, false, leb, ◌==◌}
use luava.Base.{
  Option, none, some, List, [], ◌∷◌, All, if◌then◌else◌, Bool-cases, Option-cases, ◌⊎◌, inl, inr,
}
use luava.Upvalues.{
  UpVal, State, find_upval, level_of, read_at, findupval, value, set_value, close_from, closeupval,
}
use luava.Upvalues.Order.{
  Ordered, IsOpenList, Ordered-weaken, level_of-found, find_upval-Ordered, Ordered-All,
  find_upval-hit, find_upval-again,
}

-- Closing keeps what each upvalue reads.
close_from-value :
    {V : Type 0} (level top made o : ℕ) (stack : ℕ → V) (us : List UpVal) (slot : ℕ → V)
    → Ordered top made us
    → (let closed = close_from level stack us slot in
        read_at stack (closed.1 o) (level_of o closed.0) ≡ read_at stack (slot o) (level_of o us))
unfolding close_from level_of
close_from-value level top made o stack [] slot h = refl
close_from-value level top made o stack (u ∷ us) slot h = elim (Bool-cases (leb level u.level)) [
  | inl above ↦ rw above (
      close_from-value level u.level made o stack us (update slot u.object (stack u.level)) h.3
      ∙ moved (Bool-cases (u.object == o)))
  | inr below ↦ rw below refl
]
  where
    moved :
        ((u.object == o) ≡ true) ⊎ ((u.object == o) ≡ false)
        → read_at stack (update slot u.object (stack u.level) o) (level_of o us)
          ≡ read_at stack (slot o) (if u.object == o then some u.level else level_of o us)
    moved (inl e) =
        let is : u.object ≡ o = ground arith in
        let gone : level_of o us ≡ none = rw (← is) h.2 in
        let back : (o == u.object) ≡ true = ground arith in rw (e, gone, back) refl
    moved (inr e) = let back : (o == u.object) ≡ false = ground arith in rw (e, back) refl

close_from-Ordered :
    {V : Type 0} (level top made : ℕ) (stack : ℕ → V) (us : List UpVal) (slot : ℕ → V)
    → Ordered top made us
    → Ordered top made (close_from level stack us slot).0
      × All (λ u. u.level < level) (close_from level stack us slot).0
unfolding close_from
close_from-Ordered level top made stack [] slot h = (tt, tt)
close_from-Ordered level top made stack (u ∷ us) slot h = elim (Bool-cases (leb level u.level)) [
  | inl above ↦ rw above (
      let rest =
        close_from-Ordered level u.level made stack us (update slot u.object (stack u.level)) h.3 in
      (
        Ordered-weaken u.level top made made
            (close_from level stack us (update slot u.object (stack u.level))).0 (omega arith)
            (omega arith) rest.0,
        rest.1,
      ))
  | inr below ↦ rw below (h, (ground arith, Ordered-All u.level level made us (ground arith) h.3))
]

pub findupval-IsOpenList :
    {V : Type 0} (top level : ℕ) (S : State V)
    → IsOpenList top S
    → level < top
    → IsOpenList top (findupval level S).1
unfolding findupval IsOpenList
findupval-IsOpenList top level S h lt =
    elim (Bool-cases (find_upval S.created level S.openupval).new) [
      | inl new ↦ rw new (
          let one : S.created + 1 ≡ suc S.created = omega arith in
          rw one (find_upval-Ordered S.created level top S.openupval h lt))
      | inr hit ↦ rw hit (let same = find_upval-hit S.created level S.openupval hit in rw same h)
    ]

-- The thread as the interpreter drives it: closures are made, scopes end, and values are stored in
-- the stack or through an upvalue.
pub data Step {V : Type 0} (top : ℕ) : State V → State V → Type 0 where
  capture : (S : State V) (level : ℕ) → level < top → Step top S (findupval level S).1
  leave : (S : State V) (level : ℕ) → Step top S (closeupval level S)
  assign : (S : State V) (i : ℕ) (v : V) → Step top S (record S { stack = update S.stack i v })
  set_upvalue : (S : State V) (o : ℕ) (v : V) → Step top S (set_value S o v)

pub data Reach {V : Type 0} (top : ℕ) (S : State V) : State V → Type 0 where
  here : Reach top S S
  then_step : {T U : State V} → Reach top S T → Step top T U → Reach top S U

set_value-IsOpenList :
    {V : Type 0} (top o : ℕ) (v : V) (S : State V)
    → IsOpenList top S
    → IsOpenList top (set_value S o v)
unfolding set_value IsOpenList
set_value-IsOpenList top o v S h = by_level (level_of o S.openupval)
  where
    by_level :
        (l : Option ℕ)
        → IsOpenList top (elim l [
          | some l ↦ record S { stack = update S.stack l v }
          | none ↦ record S { slot = update S.slot o v }
        ])
    by_level (some l) = h
    by_level none = h

Step-IsOpenList :
    {V : Type 0} {top : ℕ} {S T : State V} → Step top S T → IsOpenList top S → IsOpenList top T
unfolding IsOpenList closeupval
Step-IsOpenList {top = top} (capture S level lt) h =
    unfold IsOpenList in findupval-IsOpenList top level S h lt
Step-IsOpenList {top = top} (leave S level) h =
    (close_from-Ordered level top S.created S.stack S.openupval S.slot h).0
Step-IsOpenList (assign S i v) h = h
Step-IsOpenList {top = top} (set_upvalue S o v) h =
    unfold IsOpenList in set_value-IsOpenList top o v S h

-- From a thread without open upvalues, after any captures, ends of scopes and stores, the levels of
-- the open upvalues fall strictly along the list, all below the size of the stack, and each object
-- is one that was created and stands in the list once.
pub Reach-IsOpenList :
    {V : Type 0} (top : ℕ) {S T : State V} → S.openupval ≡ [] → Reach top S T → IsOpenList top T
unfolding IsOpenList
Reach-IsOpenList top e here = rw e tt
Reach-IsOpenList top e (then_step r st) =
    unfold IsOpenList in Step-IsOpenList st (Reach-IsOpenList top e r)

-- Where the levels of the open upvalues fall strictly along the list, all below the size of the stack,
-- and each upvalue is in it once, luaF_findupval returns an upvalue that is open at the level, and the
-- same one, with no further change, when it is called again.
pub findupval-shares :
    {V : Type 0} (top level : ℕ) (S : State V)
    → IsOpenList top S
    → level < top
    → (level_of (findupval level S).0 (findupval level S).1.openupval ≡ some level)
      × (findupval level (findupval level S).1 ≡ findupval level S)
unfolding findupval IsOpenList
findupval-shares top level S h lt =
    let again = find_upval-again S.created (findupval level S).1.created level S.openupval in
    (level_of-found S.created level top S.openupval h, rw again refl)

level_of-below :
    (level o l : ℕ) (us : List UpVal)
    → All (λ u. u.level < level) us
    → level_of o us ≡ some l
    → l < level
unfolding level_of
level_of-below level o l [] h e = absurd (cc)
level_of-below level o l (u ∷ us) h e = ground (arith, level_of-below level o l us h.1)

read_at-update :
    {V : Type 0} (level o i : ℕ) (v : V) (stack : ℕ → V) (us : List UpVal) (own : V)
    → All (λ u. u.level < level) us
    → level ≤ i
    → read_at (update stack i v) own (level_of o us) ≡ read_at stack own (level_of o us)
read_at-update level o i v stack us own h le = elim (Option-cases (level_of o us)) [
  | inl e ↦ rw e refl
  | inr (l, e) ↦
      let lower = level_of-below level o l us h e in
      let apart : (l == i) ≡ false = ground arith in rw e (rw apart refl)
]

-- Where the levels of the open upvalues fall strictly along the list, all below the size of the stack,
-- and each upvalue is in it once, luaF_closeupval leaves what every upvalue reads, and no open upvalue
-- at the level or above, so that later stores to those stack slots change no upvalue.
pub closeupval-value :
    {V : Type 0} (top level : ℕ) (S : State V) (i : ℕ) (v : V)
    → IsOpenList top S
    → level ≤ i
    → (o : ℕ)
    → (value (closeupval level S) o ≡ value S o)
      × (value (record (closeupval level S) { stack = update S.stack i v }) o ≡ value S o)
unfolding value closeupval IsOpenList
closeupval-value top level S i v h le o =
    let kept = close_from-value level top S.created o S.stack S.openupval S.slot h in
    let below = (close_from-Ordered level top S.created S.stack S.openupval S.slot h).1 in
    let closed = close_from level S.stack S.openupval S.slot in
    (kept, read_at-update level o i v S.stack closed.0 (closed.1 o) below le ∙ kept)
