-- ===== src/Jumps.antt =====
-- Jump lists: getjump, fixjump, luaK_concat, getjumpcontrol, patchtestreg, removevalues, patchlistaux
-- and luaK_patchlist of lua/src/lcode.c, on the instructions by position. An unconditional jump points
-- to the next one of its list while its target is unknown.
pub mod Lists
pub mod Patching
mod Tests
use luava.Base.{ℕ, zero, suc, ◌+◌, ◌-◌, ◌*◌, ◌/◌, ◌%◌, Bool, true, false, not, ◌&&◌, ◌||◌}
use luava.Base.{ltb, leb, ◌==◌, if◌then◌else◌, update}
use luava.Base.Int.{ℤ, pos, negsuc, pos_part, neg_part, ◌+ℤ◌, ◌-ℤ◌}
use luava.Opcodes.{
  getarg_a, getarg_b, getarg_k, get_opcode, create_abck, setarg_a, getarg_sj, setarg_sj, offset_sj,
  maxarg_sj, create_sj, cast_uint,
}
use luava.LineInfo.{FuncState, luak_code}
use luava.Opcodes.Modes.{test_t_mode}

-- NO_JUMP, and the test of it.
abbrev pub no_jump : ℤ
no_jump = negsuc 0

abbrev pub is_no_jump : ℤ → Bool
is_no_jump (pos n) = false
is_no_jump (negsuc n) = n == 0

-- NO_REG, and the opcodes OP_JMP, OP_TEST and OP_TESTSET.
abbrev pub no_reg : ℕ
no_reg = 255

abbrev pub op_jmp : ℕ
op_jmp = 56

abbrev pub op_test : ℕ
op_test = 66

abbrev pub op_testset : ℕ
op_testset = 67

-- `too_long` is the error "control structure too long"; `stuck` is no outcome of the code: the loop of
-- the model ran out of fuel.
pub data Outcome (A : Type 0) : Type 0 where
  done : A → Outcome A
  too_long stuck : Outcome A

unfoldable pub codesj : FuncState → ℕ → ℤ → ℕ → ℕ → FuncState
codesj S o sj k line = luak_code S (create_sj o (cast_uint (sj +ℤ pos offset_sj)) k) line

unfoldable pub luak_jump : FuncState → ℕ → FuncState
luak_jump S line = codesj S op_jmp no_jump 0 line

-- The position to which a jump leads.
unfoldable pub destination : (ℕ → ℕ) → ℕ → ℤ
destination code pc = pos (pc + 1) +ℤ getarg_sj (code pc)

unfoldable pub getjump : (ℕ → ℕ) → ℕ → ℤ
getjump code pc = if is_no_jump (getarg_sj (code pc)) then no_jump else destination code pc

unfoldable pub fixjump : (ℕ → ℕ) → ℕ → ℕ → Outcome (ℕ → ℕ)
fixjump code pc dest =
    let offset = pos dest -ℤ pos (pc + 1) in
    if leb (neg_part offset) offset_sj && leb (pos_part offset) (maxarg_sj - offset_sj)
    then done (update code pc (setarg_sj (code pc) offset))
    else too_long

abbrev pub next_of : ℕ → ℤ → (ℕ → Outcome ℕ) → Outcome ℕ
next_of list (pos next) again = again next
next_of list (negsuc n) again = done list

-- The loop of luaK_concat, on a jump that is no NO_JUMP.
unfoldable pub last_of : ℕ → (ℕ → ℕ) → ℕ → Outcome ℕ
last_of zero code list = stuck
last_of (suc fuel) code list = next_of list (getjump code list) (last_of fuel code)

abbrev pub then_fix : (ℕ → ℕ) → ℕ → Outcome ℕ → Outcome (ℕ → ℕ)
then_fix code l2 (done list) = fixjump code list l2
then_fix code l2 too_long = too_long
then_fix code l2 stuck = stuck

abbrev pub with_list : ℤ → Outcome (ℕ → ℕ) → Outcome (ℤ × (ℕ → ℕ))
with_list l1 (done code) = done (l1, code)
with_list l1 too_long = too_long
with_list l1 stuck = stuck

-- luaK_concat: the new *l1 and the instructions. A list that is not NO_JUMP is a position.
unfoldable pub concat : ℕ → (ℕ → ℕ) → ℤ → ℤ → Outcome (ℤ × (ℕ → ℕ))
concat fuel code l1 (negsuc n) = done (l1, code)
concat fuel code (negsuc n) (pos l2) = done (pos l2, code)
concat fuel code (pos l1) (pos l2) = with_list (pos l1) (then_fix code l2 (last_of fuel code l1))

-- The position of the instruction that getjumpcontrol returns.
unfoldable pub getjumpcontrol : (ℕ → ℕ) → ℕ → ℕ
getjumpcontrol code pc = if leb 1 pc && test_t_mode (get_opcode (code (pc - 1))) then pc - 1 else pc

unfoldable pub patchtestreg : (ℕ → ℕ) → ℕ → ℕ → Bool × (ℕ → ℕ)
patchtestreg code node reg =
    let c = getjumpcontrol code node in
    let i = code c in
    if not (get_opcode i == op_testset)
    then (false, code)
    else if not (reg == no_reg) && not (reg == getarg_b i)
    then (true, update code c (setarg_a i reg))
    else (true, update code c (create_abck op_test (getarg_b i) 0 0 (getarg_k i)))

unfoldable pub removevalues : ℕ → (ℕ → ℕ) → ℤ → Outcome (ℕ → ℕ)
removevalues zero code list = stuck
removevalues (suc fuel) code (negsuc n) = done code
removevalues (suc fuel) code (pos list) =
    let code' = (patchtestreg code list no_reg).1 in removevalues fuel code' (getjump code' list)

abbrev pub and_then : Outcome (ℕ → ℕ) → ((ℕ → ℕ) → Outcome (ℕ → ℕ)) → Outcome (ℕ → ℕ)
and_then (done code) next = next code
and_then too_long next = too_long
and_then stuck next = stuck

unfoldable pub patchlistaux : ℕ → (ℕ → ℕ) → ℤ → ℕ → ℕ → ℕ → Outcome (ℕ → ℕ)
patchlistaux zero code list vtarget reg dtarget = stuck
patchlistaux (suc fuel) code (negsuc n) vtarget reg dtarget = done code
patchlistaux (suc fuel) code (pos list) vtarget reg dtarget =
    let next = getjump code list in
    let (patched, code') = patchtestreg code list reg in
    and_then (fixjump code' list (if patched then vtarget else dtarget))
      (λ code''. patchlistaux fuel code'' next vtarget reg dtarget)

unfoldable pub patchlist : ℕ → (ℕ → ℕ) → ℤ → ℕ → Outcome (ℕ → ℕ)
patchlist fuel code list target = patchlistaux fuel code list target no_reg target
