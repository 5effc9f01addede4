-- ===== src/ChunkId.antt =====
-- The short names of chunks in messages: luaO_chunkid of lua/src/lobject.c. A source is a list of
-- bytes with a 0 behind it in memory, and strchr stops at the first 0.
pub mod Fitting
mod Tests
use luava.Base.{ℕ, zero, suc, ◌+◌, ◌-◌, ◌≡◌, min}
use luava.Base.{Bool, true, false, ◌&&◌, ltb, leb, ◌==◌, Option, none, some, if◌then◌else◌}
use luava.Base.{List, [], ◌∷◌, ◌++◌, length, take, drop, get_or}

-- LUA_IDSIZE
abbrev pub lua_idsize : ℕ
lua_idsize = 60

-- RETS, PRE and POS: ..., [string " and "]
abbrev pub rets : List ℕ
rets = 46 ∷ 46 ∷ 46 ∷ []

abbrev pub pre : List ℕ
pre = 91 ∷ 115 ∷ 116 ∷ 114 ∷ 105 ∷ 110 ∷ 103 ∷ 32 ∷ 34 ∷ []

abbrev pub post : List ℕ
post = 34 ∷ 93 ∷ []

unfoldable pub find_from : ℕ → List ℕ → Option ℕ
find_from i [] = none
find_from i (c ∷ s) =
    let rest = find_from (i + 1) s in if c == 10 then some i else if c == 0 then none else rest

-- strchr(source, '\n') - source
unfoldable pub newline : List ℕ → Option ℕ
newline s = find_from 0 s

unfoldable pub literal_id : List ℕ → List ℕ
literal_id s =
    let mem = s ++ (0 ∷ []) in
    if leb (length s) lua_idsize
    then take (length s) (drop 1 mem)
    else take (lua_idsize - 1) (drop 1 mem) ++ (0 ∷ [])

unfoldable pub file_id : List ℕ → List ℕ
file_id s =
    let mem = s ++ (0 ∷ []) in
    let bufflen = lua_idsize - length rets in
    if leb (length s) lua_idsize
    then take (length s) (drop 1 mem)
    else rets ++ take bufflen (drop (1 + length s - bufflen) mem)

-- What stands between PRE and POS, for the position `nl` of the first new line.
unfoldable pub string_part : ℕ → Option ℕ → List ℕ → List ℕ
string_part bufflen none s =
    if ltb (length s) bufflen then s else take (min bufflen (length s)) s ++ rets
string_part bufflen (some n) s = take (min bufflen n) s ++ rets

unfoldable pub string_id : List ℕ → List ℕ
string_id s =
    let bufflen = lua_idsize - (length pre + length rets + length post + 1) in
    pre ++ (string_part bufflen (newline s) s ++ (post ++ (0 ∷ [])))

-- luaO_chunkid: the bytes that it writes.
unfoldable pub chunkid : List ℕ → List ℕ
chunkid s =
    let first = get_or (s ++ (0 ∷ [])) 0 0 in
    if first == 61 then literal_id s else if first == 64 then file_id s else string_id s
