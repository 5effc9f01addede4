-- ===== src/Dump.antt =====
-- lua/src/ldump.c: writing a function prototype as a binary chunk. The state is a DumpState;
-- `sink` is what lies behind `data`, and the writer callback is a parameter, called with `none`
-- for the NULL block that ends a dump. `h`, the table of the saved strings, is an association
-- list by content (equal strings are one key of a Lua table). Numbers go out as the bytes of a
-- little-endian machine with a 32-bit int and a 64-bit size_t.
pub mod Errors
use luava.Base.{ℕ, zero, suc, ◌+◌, ◌-◌, ◌*◌, ◌/◌, ◌%◌, ◌^◌, ◌<◌, bit_and, bit_or, arith}
use luava.Base.{
  Bool, true, false, Option, none, some, List, [], ◌∷◌, ◌++◌, map, length, replicate, ltb, ◌==◌,
  ◌&&◌,
}
use luava.Base.{if◌then◌else◌, Acc, lt_wf, dite, dec_lt}
use luava.Proto.{
  TString, Upvaldesc, LocVar, AbsLineInfo, Constant, Body, Proto, Protos, count, size_upvalues,
}
use luava.Proto.{
  signature, luac_data, luac_version, luac_format, luac_int, luac_integer, luac_inst, luac_num,
  maxshortlen,
}

pub record DumpState (W : Type 0) : Type 0 where
  pub sink : W
  pub offset : ℕ
  pub strip : Bool
  pub status : ℕ
  pub h : List (TString × ℕ)
  pub nstr : ℕ

abbrev pub Dump : Type 0 → Type 0
Dump W = DumpState W → DumpState W

-- Statements in sequence.
infixl 5 ◌>>◌
abbrev pub ◌>>◌ : {W : Type 0} → Dump W → Dump W → Dump W
◌>>◌ m k D = k (m D)

abbrev pub skip : {W : Type 0} → Dump W
skip D = D

-- The `width` bytes of a number in memory.
unfoldable pub le_bytes : ℕ → ℕ → List ℕ
le_bytes zero n = []
le_bytes (suc width) n = n % 256 ∷ le_bytes width (n / 256)

-- The bytes of an array of numbers.
unfoldable pub le_words : ℕ → List ℕ → List ℕ
le_words width [] = []
le_words width (n ∷ ns) = le_bytes width n ++ le_words width ns

unfoldable pub str_eq : TString → TString → Bool
str_eq [] [] = true
str_eq [] (d ∷ ds) = false
str_eq (c ∷ cs) [] = false
str_eq (c ∷ cs) (d ∷ ds) = c == d && str_eq cs ds

-- luaH_getstr on the table of saved strings.
unfoldable pub saved_index : TString → List (TString × ℕ) → Option ℕ
saved_index ts [] = none
saved_index ts ((key, i) ∷ h) = if str_eq ts key then some i else saved_index ts h

-- The buffer of dumpVarint, filled from its end.
unfoldable pub varint_loop : (x : ℕ) → Acc ◌<◌ x → List ℕ → List ℕ
varint_loop x (Acc.intro _ smaller) buff =
    dite (dec_lt 0 (x / 128))
      (λ more.
        varint_loop (x / 128) (smaller (x / 128) (omega arith))
          (bit_or (bit_and (x / 128) 0x7f) 0x80 ∷ buff))
      (λ _. buff)

unfoldable pub varint_bytes : ℕ → List ℕ
unfolding varint_loop lt_wf dec_lt
varint_bytes x = varint_loop x (lt_wf.apply x) (bit_and x 0x7f ∷ [])

-- The unsigned code of a lua_Integer, given by its value modulo 2 ^ 64: 2x, or -2x - 1.
unfoldable pub integer_code : ℕ → ℕ
integer_code x = if ltb x (2 ^ 63) then 2 * x % 2 ^ 64 else (2 * (2 ^ 64 - 1 - x) + 1) % 2 ^ 64

-- ttypetag of a constant.
unfoldable pub type_tag : Constant → ℕ
type_tag Constant.nil = 0
type_tag Constant.false = 1
type_tag Constant.true = 0x11
type_tag (Constant.int x) = 3
type_tag (Constant.flt x) = 0x13
type_tag (Constant.str ts) = if ltb maxshortlen (length ts) then 0x14 else 4

-- The elements of an array of AbsLineInfo, in memory order.
unfoldable pub abs_words : List AbsLineInfo → List ℕ
abs_words [] = []
abs_words (a ∷ rest) = a.pc ∷ a.line ∷ abs_words rest

module _ {W : Type 0} (writer : W → Option (List ℕ) → W × ℕ) where
  -- dumpBlock; `none` is the NULL block.
  unfoldable pub dump_block : Option (List ℕ) → Dump W
  dump_block none D =
      let (sink', status') = writer D.sink none in
      if D.status == 0 then record D { sink = sink'; status = status' } else D
  dump_block (some b) D =
      let (sink', status') = writer D.sink (some b) in
      if D.status == 0
      then record D { sink = sink'; status = status'; offset = (D.offset + length b) % 2 ^ 64 }
      else D

  unfoldable pub dump_bytes : List ℕ → Dump W
  dump_bytes b = dump_block (some b)

  unfoldable pub dump_align : ℕ → Dump W
  dump_align align D =
      let padding = align - D.offset % align in
      if ltb padding align then dump_bytes (replicate padding 0) D else D

  unfoldable pub dump_byte : ℕ → Dump W
  dump_byte y = dump_bytes (y % 256 ∷ [])

  unfoldable pub dump_varint : ℕ → Dump W
  dump_varint x = dump_bytes (varint_bytes x)

  unfoldable pub dump_size : ℕ → Dump W
  dump_size sz = dump_varint sz

  unfoldable pub dump_int : ℕ → Dump W
  dump_int x = dump_varint x

  unfoldable pub dump_number : ℕ → Dump W
  dump_number x = dump_bytes (le_bytes 8 x)

  unfoldable pub dump_integer : ℕ → Dump W
  dump_integer x = dump_varint (integer_code x)

  -- dumpString of a string that is not saved yet: it is written with its final '\0', and saved.
  unfoldable pub dump_new_string : TString → Dump W
  dump_new_string ts D =
      let D' = (dump_size (length ts + 1) >> dump_bytes (ts ++ (0 ∷ []))) D in
      let n = (D'.nstr + 1) % 2 ^ 64 in record D' { nstr = n; h = (ts, n) ∷ D'.h }

  unfoldable pub dump_string : Option TString → Dump W
  dump_string none D = (dump_varint 0 >> dump_varint 0) D
  dump_string (some ts) D = elim (saved_index ts D.h) [
    | some idx ↦ (dump_varint 0 >> dump_varint idx) D
    | none ↦ dump_new_string ts D
  ]

  unfoldable pub dump_code : Body → Dump W
  dump_code f = do dump_int (length f.code); dump_align 4; dump_bytes (le_words 4 f.code)

  unfoldable pub dump_constant_value : Constant → Dump W
  dump_constant_value (Constant.flt x) = dump_number x
  dump_constant_value (Constant.int x) = dump_integer x
  dump_constant_value (Constant.str ts) = dump_string (some ts)
  dump_constant_value _ = skip

  unfoldable pub dump_constant : Constant → Dump W
  dump_constant o = do dump_byte (type_tag o); dump_constant_value o

  -- A loop over an array.
  unfoldable pub dump_each {ℓ} : {A : Type ℓ} → (A → Dump W) → List A → Dump W
  dump_each f [] = skip
  dump_each f (x ∷ xs) = f x >> dump_each f xs

  unfoldable pub dump_constants : Body → Dump W
  dump_constants f = do dump_int (length f.k); dump_each dump_constant f.k

  unfoldable pub dump_upvalue : Upvaldesc → Dump W
  dump_upvalue u = do dump_byte u.instack; dump_byte u.idx; dump_byte u.kind

  unfoldable pub dump_upvalues : Body → Dump W
  dump_upvalues f = do dump_int (length f.upvalues); dump_each dump_upvalue f.upvalues

  unfoldable pub dump_locvar : LocVar → Dump W
  dump_locvar v = do dump_string v.varname; dump_int v.startpc; dump_int v.endpc

  -- dumpDebug under a given strip flag, which cuts every array to no element; a `lineinfo` that is
  -- not NULL is written even then, as an empty block.
  unfoldable pub dump_debug_as : Bool → Body → Dump W
  dump_debug_as strip f =
      let lines = if strip then [] else f.lineinfo in
      let abs = if strip then [] else f.abslineinfo in
      let vars = if strip then [] else f.locvars in
      let names = if strip then [] else map (λ u. u.name) f.upvalues in
      do
        dump_int (length lines)
        if length f.lineinfo == 0 then skip else dump_bytes lines
        dump_int (length abs)
        if length abs == 0 then skip else (dump_align 4 >> dump_bytes (le_words 4 (abs_words abs)))
        dump_int (length vars)
        dump_each dump_locvar vars
        dump_int (length names)
        dump_each dump_string names

  unfoldable pub dump_debug : Body → Dump W
  dump_debug f D = dump_debug_as D.strip f D

  unfoldable pub dump_source : Body → Dump W
  dump_source f D = dump_string (if D.strip then none else f.source) D

  -- dumpFunction, and the loop of dumpProtos.
  unfoldable mutual
    pub dump_function : Proto → Dump W
    dump_function (Proto.proto f ps) = do
      dump_int f.linedefined
      dump_int f.lastlinedefined
      dump_byte f.numparams
      dump_byte f.flag
      dump_byte f.maxstacksize
      dump_code f
      dump_constants f
      dump_upvalues f
      dump_int (count ps)
      dump_protos ps
      dump_source f
      dump_debug f

    pub dump_protos : Protos → Dump W
    dump_protos Protos.end = skip
    dump_protos (Protos.next p ps) = dump_function p >> dump_protos ps

  -- The macro dumpNumInfo: the size of a type and a value of it.
  unfoldable pub dump_num_info : ℕ → ℕ → Dump W
  dump_num_info width i = do dump_byte width; dump_bytes (le_bytes width i)

  unfoldable pub dump_header : Dump W
  dump_header = do
    dump_bytes signature
    dump_byte luac_version
    dump_byte luac_format
    dump_bytes luac_data
    dump_num_info 4 luac_int
    dump_num_info 4 luac_inst
    dump_num_info 8 luac_integer
    dump_num_info 8 luac_num

  unfoldable pub dump_chunk : Proto → Dump W
  dump_chunk p = do dump_header; dump_byte (size_upvalues p); dump_function p; dump_block none

  -- luaU_dump: the writer's data and the status.
  unfoldable pub dump : W → Bool → Proto → W × ℕ
  dump w strip p =
      let D : DumpState W = record {
        sink = w;
        offset = 0;
        strip = strip;
        status = 0;
        h = [];
        nstr = 0;
      } in
      let D' = dump_chunk p D in (D'.sink, D'.status)
