-- ===== src/Opcodes/Fields.antt =====
-- The fields of an instruction that a CREATE macro of lua/src/lopcodes.h builds are its arguments.
use luava.Base.{ℕ, zero, suc, ◌+◌, ◌*◌, ◌/◌, ◌%◌, ◌^◌, ◌<◌, ◌≡◌, refl, ap, ◌∙◌, arith, bit_or}
use luava.Base.Bits.{bit_and-low, bit_or-shifted, bit_or-halves, bit_or_comm}
use native.Mathlib.Nat.{pow-suc}
use luava.Opcodes.{
  shl, complement, mask1, get_opcode, getarg, getarg_a, getarg_b, getarg_c, getarg_k, getarg_bx,
  getarg_ax,
}
use luava.Opcodes.{create_abck, create_abx, create_ax}

shl_lem : (x n : ℕ) → x * 2 ^ n < 2 ^ 32 → shl x n ≡ x * 2 ^ n
unfolding shl
shl_lem x n h = omega arith

-- A field above the digits that are set.
above : (n r q : ℕ) → r < 2 ^ n → q * 2 ^ n < 2 ^ 32 → bit_or r (shl q n) ≡ q * 2 ^ n + r
above n r q h lt = rw (shl_lem q n lt, bit_or_comm r (q * 2 ^ n)) (bit_or-shifted n q r h)

double : (q n : ℕ) → q * 2 ^ suc n ≡ 2 * (q * 2 ^ n)
double q n = omega (arith, ap (λ (t : ℕ). q * t) (pow-suc 2 n))

-- Digits above those that are set stay.
low_part : (n q r s : ℕ) → r < 2 ^ n → s < 2 ^ n → bit_or (q * 2 ^ n + r) s ≡ q * 2 ^ n + bit_or r s
low_part zero q r s h k =
    let e : r ≡ 0 = omega arith in
    let f : s ≡ 0 = omega arith in rw (e, f) (ground (arith, bit_or-shifted 0 q 0 (omega arith)))
low_part (suc n) q r s h k = ground (
  arith,
  bit_or-halves (q * 2 ^ suc n + r) s,
  bit_or-halves r s,
  double q n,
  pow-suc 2 n,
  low_part n q (r / 2) (s / 2) (omega arith) (omega arith),
)

pub get_opcode_lem : (i : ℕ) → get_opcode i ≡ i % 2 ^ 7
unfolding get_opcode mask1 shl complement
get_opcode_lem i =
    let whole : i / 2 ^ 0 ≡ i = omega arith in bit_and-low 7 (i / 2 ^ 0) ∙ ap (λ t. t % 2 ^ 7) whole

abck_value :
    (o a b c k : ℕ)
    → o < 128
    → a < 256
    → b < 256
    → c < 256
    → k < 2
    → create_abck o a b c k ≡ o + a * 2 ^ 7 + k * 2 ^ 15 + b * 2 ^ 16 + c * 2 ^ 24
unfolding create_abck
abck_value o a b c k ho ha hb hc hk =
    let e0 : shl o 0 ≡ o = shl_lem o 0 (omega arith) ∙ omega arith in
    let e1 = above 7 o a (omega arith) (omega arith) in
    let e2 = above 16 (a * 2 ^ 7 + o) b (omega arith) (omega arith) in
    let e3 = above 24 (b * 2 ^ 16 + (a * 2 ^ 7 + o)) c (omega arith) (omega arith) in
    let e4 = shl_lem k 15 (omega arith) in
    let top : c * 2 ^ 24 + (b * 2 ^ 16 + (a * 2 ^ 7 + o))
        ≡ (c * 2 ^ 8 + b) * 2 ^ 16 + (a * 2 ^ 7 + o) =
      omega arith in
    let e5 = low_part 16 (c * 2 ^ 8 + b) (a * 2 ^ 7 + o) (k * 2 ^ 15) (omega arith) (omega arith) in
    let e6 = bit_or_comm (a * 2 ^ 7 + o) (k * 2 ^ 15) in
    let e7 = bit_or-shifted 15 k (a * 2 ^ 7 + o) (omega arith) in
    rw (e0, e1, e2, e3, e4, top, e5, e6, e7) (omega arith)

-- From arguments that fit their fields CREATE_ABCk builds an instruction of 32 bits, from which
-- GET_OPCODE and the GETARG macros read the opcode and the four arguments.
pub get-create_abck :
    (o a b c k : ℕ)
    → o < 128
    → a < 256
    → b < 256
    → c < 256
    → k < 2
    → (create_abck o a b c k < 2 ^ 32)
      × (get_opcode (create_abck o a b c k) ≡ o)
      × (getarg_a (create_abck o a b c k) ≡ a)
      × (getarg_b (create_abck o a b c k) ≡ b)
      × (getarg_c (create_abck o a b c k) ≡ c)
      × (getarg_k (create_abck o a b c k) ≡ k)
unfolding getarg_a getarg_b getarg_c getarg_k getarg mask1 shl complement
get-create_abck o a b c k ho ha hb hc hk =
    let i = o + a * 2 ^ 7 + k * 2 ^ 15 + b * 2 ^ 16 + c * 2 ^ 24 in
    rw (abck_value o a b c k ho ha hb hc hk) (
      omega arith,
      get_opcode_lem i ∙ omega arith,
      bit_and-low 8 (i / 2 ^ 7) ∙ omega arith,
      bit_and-low 8 (i / 2 ^ 16) ∙ omega arith,
      bit_and-low 8 (i / 2 ^ 24) ∙ omega arith,
      bit_and-low 1 (i / 2 ^ 15) ∙ omega arith,
    )

abx_value :
    (o a bx : ℕ)
    → o < 128
    → a < 256
    → bx < 2 ^ 17
    → create_abx o a bx ≡ bx * 2 ^ 15 + (a * 2 ^ 7 + o)
unfolding create_abx
abx_value o a bx ho ha hb =
    let e0 : shl o 0 ≡ o = shl_lem o 0 (omega arith) ∙ omega arith in
    let e1 = above 7 o a (omega arith) (omega arith) in
    let e2 = above 15 (a * 2 ^ 7 + o) bx (omega arith) (omega arith) in rw (e0, e1, e2) refl

ax_value : (o a : ℕ) → o < 128 → a < 2 ^ 25 → create_ax o a ≡ a * 2 ^ 7 + o
unfolding create_ax
ax_value o a ho ha =
    let e0 : shl o 0 ≡ o = shl_lem o 0 (omega arith) ∙ omega arith in
    let e1 = above 7 o a (omega arith) (omega arith) in rw (e0, e1) refl

-- From arguments that fit their fields, 17 bits for Bx, CREATE_ABx builds an instruction of 32 bits,
-- from which GET_OPCODE and the GETARG macros read the opcode and the two arguments.
pub get-create_abx :
    (o a bx : ℕ)
    → o < 128
    → a < 256
    → bx < 2 ^ 17
    → (create_abx o a bx < 2 ^ 32)
      × (get_opcode (create_abx o a bx) ≡ o)
      × (getarg_a (create_abx o a bx) ≡ a)
      × (getarg_bx (create_abx o a bx) ≡ bx)
unfolding getarg_a getarg_bx getarg mask1 shl complement
get-create_abx o a bx ho ha hb =
    let i = bx * 2 ^ 15 + (a * 2 ^ 7 + o) in
    rw (abx_value o a bx ho ha hb) (
      omega arith,
      get_opcode_lem i ∙ omega arith,
      bit_and-low 8 (i / 2 ^ 7) ∙ omega arith,
      bit_and-low 17 (i / 2 ^ 15) ∙ omega arith,
    )

-- From an opcode and an argument of 25 bits CREATE_Ax builds an instruction of 32 bits, from which
-- GET_OPCODE and GETARG_Ax read them.
pub get-create_ax :
    (o a : ℕ)
    → o < 128
    → a < 2 ^ 25
    → (create_ax o a < 2 ^ 32) × (get_opcode (create_ax o a) ≡ o) × (getarg_ax (create_ax o a) ≡ a)
unfolding getarg_ax getarg mask1 shl complement
get-create_ax o a ho ha =
    let i = a * 2 ^ 7 + o in
    rw (ax_value o a ho ha)
      (omega arith, get_opcode_lem i ∙ omega arith, bit_and-low 25 (i / 2 ^ 7) ∙ omega arith)
