-- ===== src/Stack/Room.antt =====
-- What lua_checkstack of lua/src/lapi.c promises.
use luava.Base.{ℕ, ◌+◌, ◌-◌, ◌≤◌, ◌≡◌, ◌∙◌, arith, true, false, ◌&&◌, ltb, leb}
use luava.Base.{Bool-cases, inl, inr}
use luava.Stack.{LuaStack, maxstack, new_size, growstack, lua_checkstack}

-- A stack that is not in the extra room for errors: the running function is on it, and its size is
-- within the limit.
pub record IsStack (L : LuaStack) : Type 0 where
  pub some_used : 1 ≤ L.used
  pub within : L.used ≤ L.size
  pub limited : L.size ≤ maxstack

new_size-bounds :
    (L : LuaStack) (n : ℕ)
    → (L.used + n ≤ new_size L n) × (leb (new_size L n) maxstack ≡ leb (L.used + n) maxstack)
unfolding new_size
new_size-bounds L n = ground arith

-- On a stack within the limit, below the extra room for errors and with a running function,
-- lua_checkstack answers true exactly where the slots in use and `n` more do not exceed
-- LUAI_MAXSTACK, and then the stack has these slots and is within the limit.
pub lua_checkstack-room :
    (L : LuaStack) (n : ℕ)
    → IsStack L
    → ((lua_checkstack L n).0 ≡ leb (L.used + n) maxstack)
      × ((lua_checkstack L n).0 ≡ true
          → (L.used + n ≤ (lua_checkstack L n).1.size) × IsStack (lua_checkstack L n).1)
unfolding lua_checkstack growstack
lua_checkstack-room L n is =
    let one = is.some_used in
    let inside = is.within in
    let most = is.limited in
    let (reached, bound) = new_size-bounds L n in
    elim (Bool-cases (ltb n (L.size - L.used))) [
      | inl large ↦
          let fits : true ≡ leb (L.used + n) maxstack = ground arith in
          rw large (fits, λ e. (ground arith, is))
      | inr small ↦
          let normal : ltb maxstack L.size ≡ false = ground arith in
          elim (Bool-cases (leb (L.used + n) maxstack)) [
            | inl room ↦
                let fitting : leb (new_size L n) maxstack ≡ true = bound ∙ room in
                let small_enough : new_size L n ≤ maxstack = ground arith in
                let grows : (ltb n maxstack && leb (new_size L n) maxstack) ≡ true =
                  rw (bound, room) (ground arith) in
                rw (small, normal, grows)
                  (
                    ground arith,
                    λ e. (
                      reached,
                      record { some_used = one; within = omega arith; limited = small_enough },
                    ),
                  )
            | inr full ↦
                let fails : (ltb n maxstack && leb (new_size L n) maxstack) ≡ false =
                  rw (bound, full) (ground arith) in
                rw (small, normal, fails) (ground arith, λ e. absurd (ground arith))
          ]
    ]

pub lua_checkstack-fits :
    (L : LuaStack) (n : ℕ) → IsStack L → L.used + n ≤ maxstack → (lua_checkstack L n).0 ≡ true
lua_checkstack-fits L n is h = (lua_checkstack-room L n is).0 ∙ ground arith
