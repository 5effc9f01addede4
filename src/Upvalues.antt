-- ===== src/Upvalues.antt =====
-- Open upvalues and to-be-closed variables: newupval, luaF_findupval, luaF_unlinkupval,
-- luaF_closeupval, luaF_newtbcupval, poptbclist and luaF_close of lua/src/lfunc.c. A StkId is an
-- index into the stack, whose first slot is 0.
pub mod Order
pub mod Values
pub mod Closing
mod Tests
use luava.Base.{
  update, ℕ, zero, suc, ◌+◌, ◌-◌, ◌%◌, ◌^◌, ◌≤◌, ◌<◌, ◌≡◌, Bool, true, false, ◌&&◌, ltb, leb, ◌==◌,
}
use luava.Base.{Option, none, some, List, [], ◌∷◌, ◌++◌, if◌then◌else◌}

-- An open upvalue: the object and uplevel.
pub record UpVal : Type 0 where
  pub object : ℕ
  pub level : ℕ

-- The thread: its list of open upvalues, the values of the stack, u.value of each upvalue, and the
-- number of upvalues that were created.
pub record State (V : Type 0) : Type 0 where
  pub openupval : List UpVal
  pub stack : ℕ → V
  pub slot : ℕ → V
  pub created : ℕ

-- The upvalue that luaF_findupval returns, the list, and whether the upvalue is new.
pub record Found : Type 0 where
  pub object : ℕ
  pub list : List UpVal
  pub new : Bool

-- newupval in front of the rest of the list.
unfoldable pub newupval : ℕ → ℕ → List UpVal → Found
newupval fresh level us = record {
  object = fresh;
  list = record { object = fresh; level = level } ∷ us;
  new = true;
}

-- luaF_findupval from an entry of the list on.
unfoldable pub find_upval : ℕ → ℕ → List UpVal → Found
find_upval fresh level [] = newupval fresh level []
find_upval fresh level (u ∷ us) =
    let rest = find_upval fresh level us in
    let more : Found = record rest { list = u ∷ rest.list } in
    if leb level u.level
    then (if u.level == level
        then record { object = u.object; list = u ∷ us; new = false }
        else more)
    else newupval fresh level (u ∷ us)

-- The level of an upvalue that is open.
unfoldable pub level_of : ℕ → List UpVal → Option ℕ
level_of o [] = none
level_of o (u ∷ us) = if u.object == o then some u.level else level_of o us

module _ {V : Type 0} where
  unfoldable pub findupval : ℕ → State V → ℕ × State V
  findupval level S =
      let found = find_upval S.created level S.openupval in
      let created = if found.new then S.created + 1 else S.created in
      (found.object, record S { openupval = found.list; created = created })

  -- What `v.p` of an upvalue points to, and a write through it.
  abbrev pub read_at : (ℕ → V) → V → Option ℕ → V
  read_at stack own (some l) = stack l
  read_at stack own none = own

  unfoldable pub value : State V → ℕ → V
  value S o = read_at S.stack (S.slot o) (level_of o S.openupval)

  unfoldable pub set_value : State V → ℕ → V → State V
  set_value S o v = elim (level_of o S.openupval) [
    | some l ↦ record S { stack = update S.stack l v }
    | none ↦ record S { slot = update S.slot o v }
  ]

  -- The loop of luaF_closeupval: the list and the slots.
  unfoldable pub close_from : ℕ → (ℕ → V) → List UpVal → (ℕ → V) → List UpVal × (ℕ → V)
  close_from level stack [] slot = ([], slot)
  close_from level stack (u ∷ us) slot =
      let rest = close_from level stack us (update slot u.object (stack u.level)) in
      if leb level u.level then rest else (u ∷ us, slot)

  unfoldable pub closeupval : ℕ → State V → State V
  closeupval level S =
      let (us, slot) = close_from level S.stack S.openupval S.slot in
      record S { openupval = us; slot = slot }

-- MAXDELTA
abbrev pub maxdelta : ℕ
maxdelta = 65535

-- The list of to-be-closed variables: `tbclist.p` and the `delta` of each stack slot.
pub record Tbc : Type 0 where
  pub tbclist : ℕ
  pub delta : ℕ → ℕ

-- The loop of luaF_newtbcupval, which adds dummy nodes. Each node moves up by MAXDELTA.
unfoldable pub add_dummies : ℕ → ℕ → Tbc → Tbc
add_dummies zero level T = T
add_dummies (suc fuel) level T =
    let p = T.tbclist + maxdelta in
    let more = add_dummies fuel level (record { tbclist = p; delta = update T.delta p 0 }) in
    if ltb maxdelta (level - T.tbclist) then more else T

-- `non_closable` is the error of checkclosemth on the variable at a level.
pub data Inserted (A : Type 0) : Type 0 where
  done : A → Inserted A
  non_closable : ℕ → Inserted A

-- The end of luaF_newtbcupval, behind its two tests.
unfoldable pub insert_tbc : ℕ → Tbc → Tbc
insert_tbc level T =
    let T' = add_dummies level level T in
    record { tbclist = level; delta = update T'.delta level ((level - T'.tbclist) % 2 ^ 16) }

module _ {V : Type 0} (is_false has_close : V → Bool) where
  -- checkclosemth, and what follows it. `has_close` says that luaT_gettmbyobj finds a __close.
  unfoldable pub checkclosemth : (ℕ → V) → ℕ → Tbc → Inserted Tbc
  checkclosemth stack level next = if has_close (stack level) then done next else non_closable level

  -- luaF_newtbcupval; `is_false` is l_isfalse.
  unfoldable pub newtbcupval : (ℕ → V) → ℕ → Tbc → Inserted Tbc
  newtbcupval stack level T =
      if is_false (stack level) then done T else checkclosemth stack level (insert_tbc level T)

-- The loop of poptbclist, which removes dummy nodes.
unfoldable pub skip_dummies : ℕ → (ℕ → ℕ) → ℕ → ℕ
skip_dummies zero delta tbc = tbc
skip_dummies (suc fuel) delta tbc =
    let more = skip_dummies fuel delta (tbc - maxdelta) in
    if ltb 0 tbc && (delta tbc == 0) then more else tbc

unfoldable pub poptbclist : Tbc → Tbc
poptbclist T =
    let tbc = T.tbclist - T.delta T.tbclist in record T { tbclist = skip_dummies tbc T.delta tbc }

-- The loop of luaF_close: the variables that are closed, in order, and the list. A closing method
-- leaves the list as it finds it.
unfoldable pub close_loop : ℕ → ℕ → Tbc → List ℕ × Tbc
close_loop zero level T = ([], T)
close_loop (suc fuel) level T =
    let rest = close_loop fuel level (poptbclist T) in
    if leb level T.tbclist then (T.tbclist ∷ rest.0, rest.1) else ([], T)

-- luaF_close on the part of the thread that is modelled.
unfoldable pub close : {V : Type 0} → ℕ → State V → Tbc → State V × (List ℕ × Tbc)
close level S T = (closeupval level S, close_loop (T.tbclist + 1) level T)
