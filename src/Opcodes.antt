-- ===== src/Opcodes.antt =====
-- The fields of instructions: the macros of lua/src/lopcodes.h. An Instruction is an unsigned number
-- of 32 bits, and an argument of a CREATE macro one after its cast to Instruction.
pub mod Fields
pub mod Modes
pub mod Setting
mod Tests
use luava.Base.{ℕ, ◌+◌, ◌-◌, ◌*◌, ◌/◌, ◌%◌, ◌^◌, bit_and, bit_or}
use luava.Base.Int.{ℤ, pos, negsuc, ◌+ℤ◌, ◌-ℤ◌}

abbrev pub size_c : ℕ
size_c = 8

abbrev pub size_b : ℕ
size_b = 8

abbrev pub size_bx : ℕ
size_bx = size_c + size_b + 1

abbrev pub size_a : ℕ
size_a = 8

abbrev pub size_ax : ℕ
size_ax = size_bx + size_a

abbrev pub size_op : ℕ
size_op = 7

abbrev pub pos_op : ℕ
pos_op = 0

abbrev pub pos_a : ℕ
pos_a = pos_op + size_op

abbrev pub pos_k : ℕ
pos_k = pos_a + size_a

abbrev pub pos_b : ℕ
pos_b = pos_k + 1

abbrev pub pos_c : ℕ
pos_c = pos_b + size_b

-- x << n and ~x
unfoldable pub shl : ℕ → ℕ → ℕ
shl x n = x * 2 ^ n % 2 ^ 32

unfoldable pub complement : ℕ → ℕ
complement x = 2 ^ 32 - 1 - x

unfoldable pub mask1 : ℕ → ℕ → ℕ
mask1 n p = shl (complement (shl (complement 0) n)) p

unfoldable pub get_opcode : ℕ → ℕ
get_opcode i = bit_and (i / 2 ^ pos_op) (mask1 size_op 0)

unfoldable pub getarg : ℕ → ℕ → ℕ → ℕ
getarg i p size = bit_and (i / 2 ^ p) (mask1 size 0)

unfoldable pub getarg_a : ℕ → ℕ
getarg_a i = getarg i pos_a size_a

unfoldable pub getarg_b : ℕ → ℕ
getarg_b i = getarg i pos_b size_b

unfoldable pub getarg_c : ℕ → ℕ
getarg_c i = getarg i pos_c size_c

unfoldable pub getarg_k : ℕ → ℕ
getarg_k i = getarg i pos_k 1

unfoldable pub getarg_bx : ℕ → ℕ
getarg_bx i = getarg i pos_k size_bx

unfoldable pub getarg_ax : ℕ → ℕ
getarg_ax i = getarg i pos_a size_ax

unfoldable pub create_abck : ℕ → ℕ → ℕ → ℕ → ℕ → ℕ
create_abck o a b c k =
    bit_or (bit_or (bit_or (bit_or (shl o pos_op) (shl a pos_a)) (shl b pos_b)) (shl c pos_c))
      (shl k pos_k)

unfoldable pub create_abx : ℕ → ℕ → ℕ → ℕ
create_abx o a bc = bit_or (bit_or (shl o pos_op) (shl a pos_a)) (shl bc pos_k)

unfoldable pub create_ax : ℕ → ℕ → ℕ
create_ax o a = bit_or (shl o pos_op) (shl a pos_a)

abbrev pub size_sj : ℕ
size_sj = size_bx + size_a

abbrev pub pos_sj : ℕ
pos_sj = pos_a

abbrev pub maxarg_sj : ℕ
maxarg_sj = 2 ^ size_sj - 1

abbrev pub offset_sj : ℕ
offset_sj = maxarg_sj / 2

unfoldable pub mask0 : ℕ → ℕ → ℕ
mask0 n p = complement (mask1 n p)

unfoldable pub setarg : ℕ → ℕ → ℕ → ℕ → ℕ
setarg i v p size = bit_or (bit_and i (mask0 size p)) (bit_and (shl v p) (mask1 size p))

unfoldable pub setarg_a : ℕ → ℕ → ℕ
setarg_a i v = setarg i v pos_a size_a

unfoldable pub getarg_sj : ℕ → ℤ
getarg_sj i = pos (getarg i pos_sj size_sj) -ℤ pos offset_sj

-- The cast to unsigned of an int.
abbrev pub cast_uint : ℤ → ℕ
cast_uint (pos n) = n % 2 ^ 32
cast_uint (negsuc n) = 2 ^ 32 - 1 - n % 2 ^ 32

unfoldable pub setarg_sj : ℕ → ℤ → ℕ
setarg_sj i j = setarg i (cast_uint (j +ℤ pos offset_sj)) pos_sj size_sj

unfoldable pub create_sj : ℕ → ℕ → ℕ → ℕ
create_sj o j k = bit_or (bit_or (shl o pos_op) (shl j pos_sj)) (shl k pos_k)
