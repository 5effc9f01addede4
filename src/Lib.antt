-- ===== src/Lib.antt =====
-- A verification library for the Lua 5.5 sources in lua/src: the parts of the interpreter whose
-- results are fixed by data alone. A part is modelled as pure functions on records and data types;
-- errors are values, and C state is passed on explicitly. Integers of w bits keep their wrap-around
-- written out (`% 2 ^ w`).
--
-- The parts and their files.
-- + Base: lists, arrays, tests on numbers, bits, ℤ, and lua_Integer with its casts (Base/Word;
--   lua/src/llimits.h, lvm.h).
-- + Zio: lua/src/lzio.c and lzio.h. A stream is the bytes in its buffer and the blocks that the
--   reader callback will hand out; `contents` (Zio/Contents) is the stream without its buffering.
-- + Proto: Proto, Upvaldesc, LocVar and AbsLineInfo of lua/src/lobject.h, the constants of the
--   binary format (lundump.h), and the ranges of the C types.
-- + Dump: lua/src/ldump.c, with the writer callback as a parameter. Dump/Errors: a failing writer.
-- + Undump: lua/src/lundump.c on a Zio stream. Undump/Ends and Undump/Total: it always returns.
-- + RoundTrip: luaU_dump to the buffer of string.dump (`writer` in lua/src/lstrlib.c) against
--   luaU_undump, by a relation between the two states (RoundTrip/Sync), one child per kind of data.
-- + Arith: luaV_idiv, luaV_mod, luaV_shiftl (lua/src/lvm.c) and intarith (lua/src/lobject.c).
-- + Chars: the character table of lua/src/lctype.c and the tests of lctype.h.
-- + Numeral: l_str2int of lua/src/lobject.c.
-- + ForLoop: forlimit, forprep, floatforloop and OP_FORLOOP of lua/src/lvm.c.
-- + Utf8: luaO_utf8esc (lua/src/lobject.c) and utf8_decode; Utf8/Library: the functions of
--   lua/src/lutf8lib.c on a string and their arguments.
-- + Strings: the simple functions of lua/src/lstrlib.c (sub, reverse, lower, upper, rep, byte, char).
-- + Params: luaO_ceillog2, luaO_codeparam and luaO_applyparam of lua/src/lobject.c.
-- + ChunkId: luaO_chunkid of lua/src/lobject.c.
-- + Opcodes: the instruction fields of lua/src/lopcodes.h; of the signed and variant ones only the
--   argument of jumps (Opcodes/Setting). Opcodes/Modes: the modes of lua/src/lopcodes.c.
-- + Lexer: lua/src/llex.c on a state of the input, the line and the buffer (Lexer/State), with its
--   numerals, strings and tokens (Numerals, Strings, Scan). Lexer/Ending: it ends. Lexer/Quoted: it
--   reads what addquoted of lua/src/lstrlib.c (Strings/Quoting) writes.
-- + Stack: lua_checkstack of lua/src/lapi.c and luaD_growstack of lua/src/ldo.c, on the size of a
--   stack and the part in use, for the library functions that return many values.
-- + Upvalues: the list of open upvalues and that of to-be-closed variables of lua/src/lfunc.c, as
--   states over a stack indexed by numbers. Upvalues/Values: a step relation of captures, ends of
--   scopes and stores. Upvalues/Closing: the list of levels that deltas and dummy nodes implement.
-- + Jumps: the lists of jumps with an open target of lua/src/lcode.c, over the instructions of Opcodes
--   and the modes of lua/src/lopcodes.c. Jumps/Lists: the list of positions that a chain of jumps
--   stands for, and luaK_concat; Jumps/Patching: luaK_patchlist.
-- + LineInfo: the line information that lua/src/lcode.c saves with the instructions of a function, and
--   luaG_getfuncline, nextline and changedline of lua/src/ldebug.c, which read it. LineInfo/States: a
--   step relation of the code generator's calls and its invariant.
-- + Table: lua/src/ltablib.c on raw tables (a table is its values at the integers). Table/Sort is
--   table.sort, its order function and the seeds of its pivots parameters. Table/Sort/Bounds and
--   Table/Sort/Arranging are for any order function, Table/Sort/Scans, Table/Sort/Parting,
--   Table/Sort/Ordering and Table/Sort/Sorted for one that is an order.
--
-- Dump and Undump share Proto; Undump reads from Zio; ForLoop converts its limit with Numeral and
-- counts with the casts of Base/Word.
--
-- Fuel. luaZ_read copies a byte at least in each round, so `n` rounds are enough. loadVarint takes
-- a byte in each round and loadFunction a byte before it reads a nested function, so both run on
-- the number of bytes that the stream still holds, and one more. A model's own result `stuck`
-- stands for fuel that ran out. A scan, a partition and auxsort of table.sort run on the length of
-- their part. The loop of getbaseline runs on the number of absolute lines, and one more, that of
-- luaG_getfuncline on the position of the instruction, and two more. The loops over a list of jumps
-- take their fuel as an argument, and the theorems hold for any that is beyond the length of the
-- list. The rounds of a `for` loop are listed up to a given number.
--
-- Not modelled: memory (allocation, its failure, the garbage collector and its barriers), the
-- arithmetic of C doubles and l_str2d (parameters of ForLoop), and the compiler, the interpreter's
-- main loop, tables, coroutines, the standard libraries and the Java binding, save for what is
-- named above. Chunks are those of a little-endian machine with a 32-bit int, a 64-bit size_t and
-- a 64-bit double, whose values stand for themselves as bit patterns.
pub mod Base
pub mod Zio
pub mod Proto
pub mod Dump
pub mod Undump
pub mod RoundTrip
pub mod Arith
pub mod Chars
pub mod Numeral
pub mod ForLoop
pub mod Utf8
pub mod Table
pub mod Strings
pub mod Params
pub mod ChunkId
pub mod Opcodes
pub mod Lexer
pub mod Upvalues
pub mod LineInfo
pub mod Jumps
pub mod Stack
