-- ===== src/Upvalues/Order.antt =====
-- The order of the list of open upvalues of lua/src/lfunc.c, and luaF_findupval on it.
use luava.Base.{ℕ, suc, ◌≤◌, ◌<◌, ◌≡◌, ◌≢◌, refl, ◌∙◌, arith, true, false, leb, ◌==◌}
use luava.Base.{none, some, List, [], ◌∷◌, All, Bool-cases, inl, inr}
use luava.Upvalues.{UpVal, State, newupval, find_upval, level_of}

-- Levels fall strictly along the list, below `top`, and the objects are those that were created,
-- each once.
abbrev pub Ordered : ℕ → ℕ → List UpVal → Type 0
Ordered top made [] = Unit {0}
Ordered top made (u ∷ us) =
    (u.level < top) × (u.object < made) × (level_of u.object us ≡ none) × Ordered u.level made us

unfoldable pub IsOpenList : {V : Type 0} → ℕ → State V → Type 0
IsOpenList top S = Ordered top S.created S.openupval

pub level_of-Ordered :
    (o top made : ℕ) (us : List UpVal) → Ordered top made us → made ≤ o → level_of o us ≡ none
unfolding level_of
level_of-Ordered o top made [] h le = refl
level_of-Ordered o top made (u ∷ us) h le =
    let other : (u.object == o) ≡ false = ground arith in
    rw other (level_of-Ordered o u.level made us h.3 le)

pub Ordered-weaken :
    (top top' made made' : ℕ) (us : List UpVal)
    → top ≤ top'
    → made ≤ made'
    → Ordered top made us
    → Ordered top' made' us
Ordered-weaken top top' made made' [] p q h = tt
Ordered-weaken top top' made made' (u ∷ us) p q h = (
  omega arith,
  omega arith,
  h.2,
  Ordered-weaken u.level u.level made made' us (omega arith) q h.3,
)

-- Looking for an upvalue changes the level of no other.
pub level_of-find_upval :
    (o fresh level : ℕ) (us : List UpVal)
    → o ≢ fresh
    → level_of o (find_upval fresh level us).list ≡ level_of o us
unfolding find_upval level_of newupval
level_of-find_upval o fresh level [] ne = ground arith
level_of-find_upval o fresh level (u ∷ us) ne =
    ground (arith, level_of-find_upval o fresh level us ne)

-- The upvalue that is found is at the level.
pub level_of-found :
    (fresh level top : ℕ) (us : List UpVal)
    → Ordered top fresh us
    → level_of (find_upval fresh level us).object (find_upval fresh level us).list ≡ some level
unfolding find_upval level_of newupval
level_of-found fresh level top [] h = ground arith
level_of-found fresh level top (u ∷ us) h =
    let kept : level_of u.object (find_upval fresh level us).list ≡ none =
      level_of-find_upval u.object fresh level us (λ e. absurd (omega arith)) ∙ h.2 in
    ground (arith, level_of-found fresh level u.level us h.3)

pub find_upval-Ordered :
    (fresh level top : ℕ) (us : List UpVal)
    → Ordered top fresh us
    → level < top
    → Ordered top (suc fresh) (find_upval fresh level us).list
unfolding find_upval newupval level_of
find_upval-Ordered fresh level top [] h lt = (lt, omega arith, refl, tt)
find_upval-Ordered fresh level top (u ∷ us) h lt =
    let kept : level_of u.object (find_upval fresh level us).list ≡ none =
      level_of-find_upval u.object fresh level us (λ e. absurd (omega arith)) ∙ h.2 in
    let same = Ordered-weaken top top fresh (suc fresh) (u ∷ us) (omega arith) (omega arith) h in
    let absent = level_of-Ordered fresh top fresh (u ∷ us) h (omega arith) in
    elim (Bool-cases (leb level u.level)) [
      | inl above ↦ elim (Bool-cases (u.level == level)) [
        | inl hit ↦ rw (above, hit) same
        | inr more ↦
            rw (above, more)
              (h.0, omega arith, kept, find_upval-Ordered fresh level u.level us h.3 (ground arith))
      ]
      | inr below ↦ rw below (lt, omega arith, absent, (ground arith, same.1, same.2, same.3))
    ]

pub Ordered-All :
    (top level made : ℕ) (us : List UpVal)
    → top ≤ level
    → Ordered top made us
    → All (λ u. u.level < level) us
Ordered-All top level made [] le h = tt
Ordered-All top level made (u ∷ us) le h =
    (omega arith, Ordered-All u.level level made us (omega arith) h.3)

-- A miss adds one upvalue, and a hit changes nothing.
pub find_upval-hit :
    (fresh level : ℕ) (us : List UpVal)
    → (find_upval fresh level us).new ≡ false
    → (find_upval fresh level us).list ≡ us
unfolding find_upval newupval
find_upval-hit fresh level [] h = absurd (cc)
find_upval-hit fresh level (u ∷ us) h = ground (arith, find_upval-hit fresh level us)

pub find_upval-again :
    (fresh fresh' level : ℕ) (us : List UpVal)
    → find_upval fresh' level (find_upval fresh level us).list
      ≡ record (find_upval fresh level us) { new = false }
unfolding find_upval newupval
find_upval-again fresh fresh' level [] =
    let up : leb level level ≡ true = ground arith in
    let same : (level == level) ≡ true = ground arith in rw (up, same) refl
find_upval-again fresh fresh' level (u ∷ us) = elim (Bool-cases (leb level u.level)) [
  | inl above ↦ elim (Bool-cases (u.level == level)) [
    | inl hit ↦ rw (above, hit) (rw (above, hit) refl)
    | inr more ↦
        rw (above, more) (rw (above, more) (rw (find_upval-again fresh fresh' level us) refl))
  ]
  | inr below ↦
      let up : leb level level ≡ true = ground arith in
      let same : (level == level) ≡ true = ground arith in rw below (rw (up, same) refl)
]
