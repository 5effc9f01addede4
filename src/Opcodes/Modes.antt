-- ===== src/Opcodes/Modes.antt =====
-- The modes of opcodes: luaP_opmodes of lua/src/lopcodes.c and the tests of lua/src/lopcodes.h.
use luava.Base.{ℕ, ◌*◌, ◌^◌, Bool, not, ◌==◌, List, [], ◌∷◌, bit_and, bit_or, get_or}

-- enum OpMode
abbrev pub iabc : ℕ
iabc = 0

abbrev pub ivabc : ℕ
ivabc = 1

abbrev pub iabx : ℕ
iabx = 2

abbrev pub iasbx : ℕ
iasbx = 3

abbrev pub iax : ℕ
iax = 4

abbrev pub isj : ℕ
isj = 5

abbrev pub opmode : ℕ → ℕ → ℕ → ℕ → ℕ → ℕ → ℕ
opmode mm ot it t a m =
    bit_or
      (bit_or (bit_or (bit_or (bit_or (mm * 2 ^ 7) (ot * 2 ^ 6)) (it * 2 ^ 5)) (t * 2 ^ 4))
        (a * 2 ^ 3))
      m

abbrev pub op_modes : List ℕ
op_modes =
    opmode 0 0 0 0 1 iabc
    ∷ opmode 0 0 0 0 1 iasbx
    ∷ opmode 0 0 0 0 1 iasbx
    ∷ opmode 0 0 0 0 1 iabx
    ∷ opmode 0 0 0 0 1 iabx
    ∷ opmode 0 0 0 0 1 iabc
    ∷ opmode 0 0 0 0 1 iabc
    ∷ opmode 0 0 0 0 1 iabc
    ∷ opmode 0 0 0 0 1 iabc
    ∷ opmode 0 0 0 0 1 iabc
    ∷ opmode 0 0 0 0 0 iabc
    ∷ opmode 0 0 0 0 1 iabc
    ∷ opmode 0 0 0 0 1 iabc
    ∷ opmode 0 0 0 0 1 iabc
    ∷ opmode 0 0 0 0 1 iabc
    ∷ opmode 0 0 0 0 0 iabc
    ∷ opmode 0 0 0 0 0 iabc
    ∷ opmode 0 0 0 0 0 iabc
    ∷ opmode 0 0 0 0 0 iabc
    ∷ opmode 0 0 0 0 1 ivabc
    ∷ opmode 0 0 0 0 1 iabc
    ∷ opmode 0 0 0 0 1 iabc
    ∷ opmode 0 0 0 0 1 iabc
    ∷ opmode 0 0 0 0 1 iabc
    ∷ opmode 0 0 0 0 1 iabc
    ∷ opmode 0 0 0 0 1 iabc
    ∷ opmode 0 0 0 0 1 iabc
    ∷ opmode 0 0 0 0 1 iabc
    ∷ opmode 0 0 0 0 1 iabc
    ∷ opmode 0 0 0 0 1 iabc
    ∷ opmode 0 0 0 0 1 iabc
    ∷ opmode 0 0 0 0 1 iabc
    ∷ opmode 0 0 0 0 1 iabc
    ∷ opmode 0 0 0 0 1 iabc
    ∷ opmode 0 0 0 0 1 iabc
    ∷ opmode 0 0 0 0 1 iabc
    ∷ opmode 0 0 0 0 1 iabc
    ∷ opmode 0 0 0 0 1 iabc
    ∷ opmode 0 0 0 0 1 iabc
    ∷ opmode 0 0 0 0 1 iabc
    ∷ opmode 0 0 0 0 1 iabc
    ∷ opmode 0 0 0 0 1 iabc
    ∷ opmode 0 0 0 0 1 iabc
    ∷ opmode 0 0 0 0 1 iabc
    ∷ opmode 0 0 0 0 1 iabc
    ∷ opmode 0 0 0 0 1 iabc
    ∷ opmode 1 0 0 0 0 iabc
    ∷ opmode 1 0 0 0 0 iabc
    ∷ opmode 1 0 0 0 0 iabc
    ∷ opmode 0 0 0 0 1 iabc
    ∷ opmode 0 0 0 0 1 iabc
    ∷ opmode 0 0 0 0 1 iabc
    ∷ opmode 0 0 0 0 1 iabc
    ∷ opmode 0 0 0 0 1 iabc
    ∷ opmode 0 0 0 0 0 iabc
    ∷ opmode 0 0 0 0 0 iabc
    ∷ opmode 0 0 0 0 0 isj
    ∷ opmode 0 0 0 1 0 iabc
    ∷ opmode 0 0 0 1 0 iabc
    ∷ opmode 0 0 0 1 0 iabc
    ∷ opmode 0 0 0 1 0 iabc
    ∷ opmode 0 0 0 1 0 iabc
    ∷ opmode 0 0 0 1 0 iabc
    ∷ opmode 0 0 0 1 0 iabc
    ∷ opmode 0 0 0 1 0 iabc
    ∷ opmode 0 0 0 1 0 iabc
    ∷ opmode 0 0 0 1 0 iabc
    ∷ opmode 0 0 0 1 1 iabc
    ∷ opmode 0 1 1 0 1 iabc
    ∷ opmode 0 1 1 0 1 iabc
    ∷ opmode 0 0 1 0 0 iabc
    ∷ opmode 0 0 0 0 0 iabc
    ∷ opmode 0 0 0 0 0 iabc
    ∷ opmode 0 0 0 0 1 iabx
    ∷ opmode 0 0 0 0 1 iabx
    ∷ opmode 0 0 0 0 0 iabx
    ∷ opmode 0 0 0 0 0 iabc
    ∷ opmode 0 0 0 0 1 iabx
    ∷ opmode 0 0 1 0 0 ivabc
    ∷ opmode 0 0 0 0 1 iabx
    ∷ opmode 0 1 0 0 1 iabc
    ∷ opmode 0 0 0 0 1 iabc
    ∷ opmode 0 0 0 0 0 iabx
    ∷ opmode 0 0 1 0 1 iabc
    ∷ opmode 0 0 0 0 0 iax
    ∷ []

unfoldable pub test_t_mode : ℕ → Bool
test_t_mode o = not (bit_and (get_or op_modes o 0) (2 ^ 4) == 0)
