-- ===== src/Stack.antt =====
-- The room on the stack of a thread: luaD_growstack of lua/src/ldo.c and lua_checkstack of
-- lua/src/lapi.c, on the size of the stack and the part of it in use. Memory for a larger stack is
-- always there.
pub mod Room
mod Tests
use luava.Base.{ℕ, ◌+◌, ◌-◌, ◌/◌, ◌≤◌, Bool, true, false, ◌&&◌, ltb, leb, if◌then◌else◌}

-- stack_last - stack and top - stack.
pub record LuaStack : Type 0 where
  pub size : ℕ
  pub used : ℕ

-- LUAI_MAXSTACK, which MAXSTACK is where size_t has 64 bits.
abbrev pub maxstack : ℕ
maxstack = 1000000

-- ERRORSTACKSIZE
abbrev pub errorstacksize : ℕ
errorstacksize = maxstack + 200

-- The size that luaD_growstack tries.
unfoldable pub new_size : LuaStack → ℕ → ℕ
new_size L n =
    let tentative = L.size + L.size / 2 in
    let limited = if ltb maxstack tentative then maxstack else tentative in
    if ltb limited (L.used + n) then L.used + n else limited

-- luaD_growstack without `raiseerror`: its answer and the stack.
unfoldable pub growstack : LuaStack → ℕ → Bool × LuaStack
growstack L n =
    if ltb maxstack L.size
    then (false, L)
    else if ltb n maxstack && leb (new_size L n) maxstack
    then (true, record L { size = new_size L n })
    else (false, record L { size = errorstacksize })

-- lua_checkstack; ci->top is not modelled.
unfoldable pub lua_checkstack : LuaStack → ℕ → Bool × LuaStack
lua_checkstack L n = if ltb n (L.size - L.used) then (true, L) else growstack L n
