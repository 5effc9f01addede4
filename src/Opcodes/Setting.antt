-- ===== src/Opcodes/Setting.antt =====
-- SETARG_sJ of lua/src/lopcodes.h: the signed argument of a jump.
use luava.Base.{
  ℕ, zero, suc, ◌+◌, ◌-◌, ◌*◌, ◌/◌, ◌%◌, ◌^◌, ◌≤◌, ◌<◌, ◌≡◌, sym, ◌∙◌, arith, bit_and, min,
}
use native.Mathlib.Nat.{pow-suc}
use luava.Base.Bits.{bit_and-halves, bit_and-low, bit_or-shifted, bit_or_comm}
use luava.Base.Int.{ℤ, pos, pos_part, neg_part, ◌+ℤ◌, ◌-ℤ◌, eq_of_parts, int_laws}
use luava.Opcodes.{
  shl, complement, mask1, mask0, getarg, setarg, getarg_sj, setarg_sj, get_opcode, offset_sj,
  maxarg_sj, cast_uint,
}
use luava.Opcodes.Fields.{get_opcode_lem}

bit_and-double : (a b : ℕ) → bit_and (a * 2) (b * 2) ≡ bit_and a b * 2
bit_and-double a b =
    let ha : a * 2 / 2 ≡ a = omega arith in
    let hb : b * 2 / 2 ≡ b = omega arith in
    let low : min (a * 2 % 2) (b * 2 % 2) ≡ 0 = omega arith in
    bit_and-halves (a * 2) (b * 2) ∙ rw (ha, hb, low) (omega arith)

bit_and-shifted : (k a b : ℕ) → bit_and (a * 2 ^ k) (b * 2 ^ k) ≡ bit_and a b * 2 ^ k
bit_and-shifted zero a b =
    let ha : a * 2 ^ 0 ≡ a = omega arith in
    let hb : b * 2 ^ 0 ≡ b = omega arith in rw (ha, hb) (omega arith)
bit_and-shifted (suc k) a b =
    rw (doubled a, doubled b)
      (bit_and-double (a * 2 ^ k) (b * 2 ^ k)
        ∙ rw (bit_and-shifted k a b) (sym (doubled (bit_and a b))))
  where
    doubled : (q : ℕ) → q * 2 ^ suc k ≡ q * 2 ^ k * 2
    doubled q = rw (pow-suc 2 k) (grind arith)

-- A number of 25 bits above 7 zero bits passes the mask of the argument.
bit_and-above : (q : ℕ) → q < 2 ^ 25 → bit_and (q * 128) 4294967168 ≡ q * 128
bit_and-above q h = bit_and-shifted 7 q 33554431 ∙ rw (bit_and-low 25 q) (omega arith)

-- SETARG_sJ keeps the opcode and writes the offset in excess of OFFSET_sJ.
setarg_sj-value : (i v : ℕ) → v < 2 ^ 25 → setarg i v 7 25 ≡ v * 2 ^ 7 + i % 2 ^ 7
unfolding setarg mask0 mask1 shl complement
setarg_sj-value i v small =
    let whole : v * 128 % 2 ^ 32 ≡ v * 128 = omega arith in
    rw (bit_and-low 7 i, whole, bit_and-above v small)
      (bit_or_comm (i % 2 ^ 7) (v * 128) ∙ bit_or-shifted 7 v (i % 2 ^ 7) (omega arith))

cast_uint-near :
    (j : ℤ)
    → neg_part j ≤ 16777215
    → pos_part j ≤ 16777216
    → (cast_uint (j +ℤ pos offset_sj) < 2 ^ 25)
      × (pos (cast_uint (j +ℤ pos offset_sj)) -ℤ pos offset_sj ≡ j)
cast_uint-near j lo hi =
    let w = pos_part j + 16777215 - neg_part j in
    let sum : j +ℤ pos offset_sj ≡ pos w = eq_of_parts _ _ (omega int_laws) in
    let whole : w % 2 ^ 32 ≡ w = omega arith in
    (rw (sum, whole) (omega arith), rw (sum, whole) (eq_of_parts _ _ (omega int_laws)))

-- The offsets of a jump that fixjump allows are read back, and the opcode stays.
pub getarg_sj-setarg_sj :
    (i : ℕ) (j : ℤ)
    → neg_part j ≤ offset_sj
    → pos_part j ≤ maxarg_sj - offset_sj
    → (getarg_sj (setarg_sj i j) ≡ j) × (get_opcode (setarg_sj i j) ≡ get_opcode i)
unfolding getarg_sj setarg_sj getarg mask1 shl complement
getarg_sj-setarg_sj i j lo hi =
    let v = cast_uint (j +ℤ pos offset_sj) in
    let (small, back) = cast_uint-near j lo hi in
    let upper : (v * 2 ^ 7 + i % 2 ^ 7) / 2 ^ 7 ≡ v = omega arith in
    let kept : v % 2 ^ 25 ≡ v = omega arith in
    (
      rw (setarg_sj-value i v small, upper, bit_and-low 25 v, kept) back,
      get_opcode_lem (setarg i v 7 25)
          ∙ rw (setarg_sj-value i v small, get_opcode_lem i) (omega arith),
    )
