-- ===== src/Proto.antt =====
-- The function prototypes that ldump.c writes and lundump.c reads (lua/src/lobject.h), and the
-- constants of the binary format (lundump.h, lobject.h, lstring.h, llimits.h).
use luava.Base.{ℕ, suc, ◌+◌, ◌-◌, ◌*◌, ◌^◌, ◌<◌, Option, none, some, List, [], ◌∷◌, length, All}

-- A TString is its bytes, without the final '\0'.
abbrev pub TString : Type 0
TString = List ℕ

pub record Upvaldesc : Type 0 where
  pub name : Option TString
  pub instack : ℕ
  pub idx : ℕ
  pub kind : ℕ

pub record LocVar : Type 0 where
  pub varname : Option TString
  pub startpc : ℕ
  pub endpc : ℕ

pub record AbsLineInfo : Type 0 where
  pub pc : ℕ
  pub line : ℕ

-- A constant. A float stands for its 64-bit pattern, an integer for its value modulo 2 ^ 64.
pub data Constant : Type 0 where
  nil false true : Constant
  flt : ℕ → Constant
  int : ℕ → Constant
  str : TString → Constant

-- The fields of a Proto but the nested prototypes `p`. Every array stands with its size field.
-- A `lineinfo` byte is the bit pattern of an ls_byte.
pub record Body : Type 0 where
  pub numparams : ℕ
  pub flag : ℕ
  pub maxstacksize : ℕ
  pub linedefined : ℕ
  pub lastlinedefined : ℕ
  pub k : List Constant
  pub code : List ℕ
  pub upvalues : List Upvaldesc
  pub lineinfo : List ℕ
  pub abslineinfo : List AbsLineInfo
  pub locvars : List LocVar
  pub source : Option TString

mutual
  pub data Proto : Type 0 where
    proto : Body → Protos → Proto

  pub data Protos : Type 0 where
    end : Protos
    next : Proto → Protos → Protos

abbrev pub pf_fixed : ℕ
pf_fixed = 4

abbrev pub maxshortlen : ℕ
maxshortlen = 40

-- MAX_SIZE is the maximum of lua_Integer where size_t has 64 bits.
abbrev pub max_size : ℕ
max_size = 2 ^ 63 - 1

abbrev pub int_max : ℕ
int_max = 2 ^ 31 - 1

abbrev pub max_unsigned : ℕ
max_unsigned = 2 ^ 64 - 1

-- LUA_SIGNATURE, LUAC_DATA, LUAC_VERSION and LUAC_FORMAT.
abbrev pub signature : List ℕ
signature = 0x1b ∷ b'L' ∷ b'u' ∷ b'a' ∷ []

abbrev pub luac_data : List ℕ
luac_data = 0x19 ∷ 0x93 ∷ 13 ∷ 10 ∷ 0x1a ∷ 10 ∷ []

abbrev pub luac_version : ℕ
luac_version = 5 * 16 + 5

abbrev pub luac_format : ℕ
luac_format = 0

-- LUAC_INT as an `int` and as a lua_Integer, LUAC_INST, and the bit pattern of LUAC_NUM.
abbrev pub luac_int : ℕ
luac_int = 2 ^ 32 - 0x5678

abbrev pub luac_integer : ℕ
luac_integer = 2 ^ 64 - 0x5678

abbrev pub luac_inst : ℕ
luac_inst = 0x12345678

abbrev pub luac_num : ℕ
luac_num = 0xc077280000000000

-- The strings that a Lua state can hold: the length and one byte more fit MAX_SIZE.
abbrev pub FitsString : Option TString → Type 0
FitsString none = Unit {0}
FitsString (some ts) = length ts + 1 < 2 ^ 63

-- The ranges of the C types. An int field holds no negative number (dumpInt asserts it), except
-- the elements of `abslineinfo`, which are bit patterns.
abbrev pub IsByte : ℕ → Type 0
IsByte n = n < 2 ^ 8

abbrev pub IsInt : ℕ → Type 0
IsInt n = n < 2 ^ 31

abbrev pub FitsConstant : Constant → Type 0
FitsConstant (Constant.flt x) = x < 2 ^ 64
FitsConstant (Constant.int x) = x < 2 ^ 64
FitsConstant (Constant.str ts) = FitsString (some ts)
FitsConstant _ = Unit {0}

abbrev pub FitsUpvalue : Upvaldesc → Type 0
FitsUpvalue u = FitsString u.name × IsByte u.instack × IsByte u.idx × IsByte u.kind

abbrev pub FitsLocVar : LocVar → Type 0
FitsLocVar v = FitsString v.varname × IsInt v.startpc × IsInt v.endpc

abbrev pub FitsAbsLine : AbsLineInfo → Type 0
FitsAbsLine a = (a.pc < 2 ^ 32) × (a.line < 2 ^ 32)

-- An array of at most INT_MAX elements, each of which fits.
abbrev pub Fits : {A : Type 0} → (A → Type 0) → List A → Type 0
Fits P xs = IsInt (length xs) × All P xs

pub record FitsBody (f : Body) : Type 0 where
  pub numparams : IsByte f.numparams
  pub flag : IsByte f.flag
  pub maxstacksize : IsByte f.maxstacksize
  pub linedefined : IsInt f.linedefined
  pub lastlinedefined : IsInt f.lastlinedefined
  pub k : Fits FitsConstant f.k
  pub code : Fits (λ i. i < 2 ^ 32) f.code
  pub upvalues : Fits FitsUpvalue f.upvalues
  pub lineinfo : Fits IsByte f.lineinfo
  pub abslineinfo : Fits FitsAbsLine f.abslineinfo
  pub locvars : Fits FitsLocVar f.locvars
  pub source : FitsString f.source

-- The number of nested prototypes, `sizep`.
unfoldable pub count : Protos → ℕ
count Protos.end = 0
count (Protos.next p ps) = suc (count ps)

unfoldable pub size_upvalues : Proto → ℕ
size_upvalues (Proto.proto f ps) = length f.upvalues

abbrev mutual
  pub FitsProto : Proto → Type 0
  FitsProto (Proto.proto f ps) = FitsBody f × IsInt (count ps) × FitsProtos ps

  pub FitsProtos : Protos → Type 0
  FitsProtos Protos.end = Unit {0}
  FitsProtos (Protos.next p ps) = FitsProto p × FitsProtos ps
