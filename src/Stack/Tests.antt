-- ===== src/Stack/Tests.antt =====
-- Runs of lua_checkstack of lua/src/lapi.c.
use luava.Base.{◌+◌, ◌≤◌, ◌≡◌, refl, arith, true, false, leb}
use luava.Stack.{LuaStack, maxstack, new_size, growstack, lua_checkstack}
use luava.Stack.Room.{IsStack, lua_checkstack-room}

-- A stack of 45 slots, 10 of them in use.
abbrev small_stack : LuaStack
small_stack = record { size = 45; used = 10 }

small_stack-IsStack : IsStack small_stack
small_stack-IsStack = record {
  some_used = omega arith;
  within = omega arith;
  limited = omega arith;
}

large_run : (lua_checkstack small_stack 999990).0 ≡ true
unfolding lua_checkstack growstack new_size
large_run = refl

too_large_run : (lua_checkstack small_stack 999991).0 ≡ false
unfolding lua_checkstack growstack new_size
too_large_run = refl

lua_checkstack-room_example :
    ((lua_checkstack small_stack 100).0 ≡ leb (small_stack.used + 100) maxstack)
    × ((lua_checkstack small_stack 100).0 ≡ true
        → (small_stack.used + 100 ≤ (lua_checkstack small_stack 100).1.size)
          × IsStack (lua_checkstack small_stack 100).1)
lua_checkstack-room_example = lua_checkstack-room small_stack 100 small_stack-IsStack
