-- ===== src/Undump.antt =====
-- lua/src/lundump.c: reading a binary chunk. The state is a LoadState; errors are values. `h`, the
-- table of the saved strings, is an association list from index to string. That memory can run
-- out is not modelled, nor are the barriers of the collector.
pub mod Ends
pub mod Total
use luava.Base.{ℕ, zero, suc, ◌+◌, ◌-◌, ◌*◌, ◌/◌, ◌%◌, ◌^◌, bit_and, bit_or}
use luava.Base.{Bool, true, false, ◌||◌, Option, none, some, List, [], ◌∷◌, ◌++◌}
use luava.Base.{length, take, drop, ltb, leb, ◌==◌, if◌then◌else◌}
use luava.Zio.{Zio, Read, get_char, read, get_addr}
use luava.Zio.Contents.{contents}
use luava.Proto.{
  TString, Upvaldesc, LocVar, AbsLineInfo, Constant, Body, Proto, Protos, size_upvalues,
}
use luava.Proto.{signature, luac_data, luac_version, luac_format, luac_int, luac_integer, luac_inst}
use luava.Proto.{luac_num, maxshortlen, max_size, int_max, max_unsigned, pf_fixed}
use luava.Dump.{str_eq}

-- The messages of `error`. `num_size` and `num_format` carry the number of the checked type.
pub data LoadError : Type 0 where
  truncated_chunk truncated_fixed_buffer integer_overflow : LoadError
  invalid_string_index bad_constant_string invalid_constant : LoadError
  not_binary_chunk version_mismatch format_mismatch corrupted_chunk : LoadError
  num_size num_format : ℕ → LoadError

-- `stuck` is no outcome of the code: a loop of the model ran out of fuel.
pub data Result {ℓ} (A : Type ℓ) : Type ℓ where
  ok : A → Result A
  err : LoadError → Result A
  stuck : Result A

pub record LoadState : Type 0 where
  pub z : Zio
  pub h : List (ℕ × TString)
  pub offset : ℕ
  pub nstr : ℕ
  pub fixed : Bool

abbrev pub Load : Type 0 → Type 0
Load A = LoadState → Result (A × LoadState)

infixl 5 ◌>>=◌ ◌>>◌
abbrev pub ◌>>=◌ : {A B : Type 0} → Load A → (A → Load B) → Load B
◌>>=◌ m f S = elim (m S) [ ok p ↦ f p.0 p.1 | err e ↦ err e | stuck ↦ stuck ]

abbrev pub ◌>>◌ : {B : Type 0} → Load (Unit {0}) → Load B → Load B
m >> k = m >>= λ _. k

abbrev pub pure : {A : Type 0} → A → Load A
pure a S = ok (a, S)

abbrev pub error : {A : Type 0} → LoadError → Load A
error e S = err e

abbrev pub guard : Bool → LoadError → Load (Unit {0})
guard b e S = if b then ok (tt, S) else err e

-- The number that bytes in memory stand for, and the elements of an array of numbers.
unfoldable pub of_le : List ℕ → ℕ
of_le [] = 0
of_le (b ∷ bs) = b + 256 * of_le bs

unfoldable pub words : ℕ → ℕ → List ℕ → List ℕ
words width zero bs = []
words width (suc n) bs = of_le (take width bs) ∷ words width n (drop width bs)

unfoldable pub load_block : ℕ → Load (List ℕ)
load_block size S =
    let r = read S.z size in
    if r.missing == 0
    then ok (r.bytes, record S { z = r.stream; offset = (S.offset + size) % 2 ^ 64 })
    else err LoadError.truncated_chunk

unfoldable pub load_align : ℕ → Load (Unit {0})
load_align align S =
    let padding = align - S.offset % align in
    if ltb padding align then (load_block padding >>= λ _. pure tt) S else ok (tt, S)

unfoldable pub get_block : ℕ → Load (List ℕ)
get_block size S = elim (get_addr S.z size) [
  | none ↦ err LoadError.truncated_fixed_buffer
  | some p ↦ ok (p.0, record S { z = p.1; offset = (S.offset + size) % 2 ^ 64 })
]

unfoldable pub load_byte : Load ℕ
load_byte S = elim (get_char S.z) [
  | none ↦ err LoadError.truncated_chunk
  | some p ↦ ok (p.0, record S { z = p.1; offset = (S.offset + 1) % 2 ^ 64 })
]

-- The loop of loadVarint, on a limit that is shifted already.
unfoldable pub varint_loop : ℕ → ℕ → ℕ → Load ℕ
varint_loop zero limit x S = stuck
varint_loop (suc fuel) limit x S =
    (do
      b ← load_byte
      guard (leb x limit) LoadError.integer_overflow
      let x' = bit_or (x * 2 ^ 7 % 2 ^ 64) (bit_and b 0x7f)
      let more = varint_loop fuel limit x'
      if bit_and b 0x80 == 0 then pure x' else more)
      S

-- loadVarint. Each round takes a byte, so the bytes left and one more are enough fuel.
unfoldable pub load_varint : ℕ → Load ℕ
load_varint limit S = varint_loop (suc (length (contents S.z))) (limit / 2 ^ 7) 0 S

unfoldable pub load_size : Load ℕ
load_size = load_varint max_size

unfoldable pub load_int : Load ℕ
load_int = load_varint int_max

-- loadVar on a number of `width` bytes.
unfoldable pub load_word : ℕ → Load ℕ
load_word width = do b ← load_block width; pure (of_le b)

unfoldable pub load_number : Load ℕ
load_number = load_word 8

-- The value modulo 2 ^ 64 of the lua_Integer that an unsigned code stands for.
unfoldable pub integer_of_code : ℕ → ℕ
integer_of_code cx = if bit_and cx 1 == 0 then cx / 2 else 2 ^ 64 - 1 - cx / 2

unfoldable pub load_integer : Load ℕ
load_integer = do cx ← load_varint max_unsigned; pure (integer_of_code cx)

-- luaH_getint on the table of saved strings.
unfoldable pub saved_string : ℕ → List (ℕ × TString) → Option TString
saved_string i [] = none
saved_string i ((j, ts) ∷ h) = if i == j then some ts else saved_string i h

unfoldable pub load_saved_string : ℕ → Load (Option TString)
load_saved_string idx S = if idx == 0 then ok (none, S) else elim (saved_string idx S.h) [
  | none ↦ err LoadError.invalid_string_index
  | some ts ↦ ok (some ts, S)
]

unfoldable pub save_string : TString → Load (Option TString)
save_string ts S =
    let n = (S.nstr + 1) % 2 ^ 64 in ok (some ts, record S { nstr = n; h = (n, ts) ∷ S.h })

-- A long string of a fixed buffer is used in place; any other is copied. `size` is the real size.
unfoldable pub load_new_string : ℕ → Load (Option TString)
load_new_string size S =
    (do
      b ←
          if leb size maxshortlen
          then load_block (size + 1)
          else if S.fixed
          then get_block (size + 1)
          else load_block (size + 1)
      save_string (take size b))
      S

unfoldable pub load_string : Load (Option TString)
load_string = do
  size ← load_size
  if size == 0 then (load_varint max_unsigned >>= load_saved_string) else load_new_string (size - 1)

-- An array in the buffer (fixed) or copied.
unfoldable pub load_array : ℕ → Load (List ℕ)
load_array size S = if S.fixed then get_block size S else load_block size S

unfoldable pub load_code : Load (List ℕ)
load_code = do n ← load_int; load_align 4; b ← load_array (n * 4); pure (words 4 n b)

unfoldable pub constant_string : Option TString → Load Constant
constant_string none = error LoadError.bad_constant_string
constant_string (some ts) = pure (Constant.str ts)

unfoldable pub load_constant_value : ℕ → Load Constant
load_constant_value t =
    if t == 0
    then pure Constant.nil
    else if t == 1
    then pure Constant.false
    else if t == 0x11
    then pure Constant.true
    else if t == 0x13
    then (load_number >>= λ x. pure (Constant.flt x))
    else if t == 3
    then (load_integer >>= λ x. pure (Constant.int x))
    else if t == 4 || t == 0x14
    then (load_string >>= constant_string)
    else error LoadError.invalid_constant

unfoldable pub load_constant : Load Constant
load_constant = do t ← load_byte; load_constant_value t

-- A loop that fills an array of `n` elements.
unfoldable pub load_each : {A : Type 0} → ℕ → Load A → Load (List A)
load_each zero m = pure []
load_each (suc n) m = do x ← m; xs ← load_each n m; pure (x ∷ xs)

unfoldable pub load_constants : Load (List Constant)
load_constants = do n ← load_int; load_each n load_constant

unfoldable pub load_upvalue : Load Upvaldesc
load_upvalue = do
  instack ← load_byte
  idx ← load_byte
  kind ← load_byte
  pure (record { name = none; instack = instack; idx = idx; kind = kind })

unfoldable pub load_upvalues : Load (List Upvaldesc)
load_upvalues = do n ← load_int; load_each n load_upvalue

unfoldable pub pair_words : List ℕ → List AbsLineInfo
pair_words (pc ∷ line ∷ rest) = record { pc = pc; line = line } ∷ pair_words rest
pair_words _ = []

unfoldable pub load_abslineinfo : ℕ → Load (List AbsLineInfo)
load_abslineinfo n = do load_align 4; b ← load_array (n * 8); pure (pair_words (words 4 (n * 2) b))

unfoldable pub load_locvar : Load LocVar
load_locvar = do
  varname ← load_string
  startpc ← load_int
  endpc ← load_int
  pure (record { varname = varname; startpc = startpc; endpc = endpc })

-- What loadDebug fills in.
pub record Debug : Type 0 where
  pub lineinfo : List ℕ
  pub abslineinfo : List AbsLineInfo
  pub locvars : List LocVar
  pub names : List (Option TString)

unfoldable pub load_debug : ℕ → Load Debug
load_debug sizeupvalues = do
  n ← load_int
  lineinfo ← load_array n
  m ← load_int
  abslineinfo ← if m == 0 then pure [] else load_abslineinfo m
  k ← load_int
  locvars ← load_each k load_locvar
  j ← load_int
  names ← load_each (if j == 0 then 0 else sizeupvalues) load_string
  pure (record { lineinfo = lineinfo; abslineinfo = abslineinfo; locvars = locvars; names = names })

-- The names that loadDebug read go to the upvalues; with none read they stay NULL.
unfoldable pub set_names : List Upvaldesc → List (Option TString) → List Upvaldesc
set_names (u ∷ us) (name ∷ names) = record u { name = name } ∷ set_names us names
set_names us [] = us
set_names [] names = []

unfoldable pub protos : List Proto → Protos
protos [] = Protos.end
protos (p ∷ ps) = Protos.next p (protos ps)

-- PF_FIXED is cleared in what was read, and set for a fixed buffer.
unfoldable pub load_flag : Load ℕ
load_flag S =
    (do
      b ← load_byte
      let flag = bit_and b (255 - pf_fixed)
      pure (if S.fixed then bit_or flag pf_fixed else flag))
      S

-- The body of loadFunction, with loadFunction for the nested functions as an argument.
unfoldable pub load_function_with : Load Proto → Load Proto
load_function_with nested = do
  linedefined ← load_int
  lastlinedefined ← load_int
  numparams ← load_byte
  flag ← load_flag
  maxstacksize ← load_byte
  code ← load_code
  k ← load_constants
  upvalues ← load_upvalues
  n ← load_int
  ps ← load_each n nested
  source ← load_string
  debug ← load_debug (length upvalues)
  pure (
      Proto.proto
        (record {
          numparams = numparams;
          flag = flag;
          maxstacksize = maxstacksize;
          linedefined = linedefined;
          lastlinedefined = lastlinedefined;
          k = k;
          code = code;
          upvalues = set_names upvalues debug.names;
          lineinfo = debug.lineinfo;
          abslineinfo = debug.abslineinfo;
          locvars = debug.locvars;
          source = source;
        })
        (protos ps))

-- loadFunction; the fuel bounds how deep functions are nested.
unfoldable pub load_function : ℕ → Load Proto
load_function zero S = stuck
load_function (suc fuel) S = load_function_with (load_function fuel) S

unfoldable pub check_literal : List ℕ → LoadError → Load (Unit {0})
check_literal s msg = do b ← load_block (length s); guard (str_eq s b) msg

-- The macro checknum: the size of a type, then a value of it.
unfoldable pub check_num : ℕ → ℕ → ℕ → Load (Unit {0})
check_num tname width value = do
  size ← load_byte
  guard (width == size) (LoadError.num_size tname)
  i ← load_word width
  guard (i == value) (LoadError.num_format tname)

-- checkHeader; the first byte of the signature was read before.
unfoldable pub check_header : Load (Unit {0})
check_header = do
  check_literal (drop 1 signature) LoadError.not_binary_chunk
  version ← load_byte
  guard (version == luac_version) LoadError.version_mismatch
  format ← load_byte
  guard (format == luac_format) LoadError.format_mismatch
  check_literal luac_data LoadError.corrupted_chunk
  check_num 0 4 luac_int
  check_num 1 4 luac_inst
  check_num 2 8 luac_integer
  check_num 3 8 luac_num

-- luaU_undump: the number of upvalues of the new closure, and its prototype.
unfoldable pub load_chunk : ℕ → Load (ℕ × Proto)
load_chunk fuel = do
  check_header
  nupvalues ← load_byte
  p ← load_function fuel
  guard (nupvalues == size_upvalues p) LoadError.corrupted_chunk
  pure (nupvalues, p)

-- A nested function takes a byte at least, so the bytes of the input bound the depth.
unfoldable pub undump : Zio → Bool → Result ((ℕ × Proto) × LoadState)
undump z fixed =
    load_chunk (suc (length (contents z)))
      (record { z = z; h = []; offset = 1; nstr = 0; fixed = fixed })
