-- ===== src/Opcodes/Tests.antt =====
-- An instruction of lua/src/lopcodes.h.
use luava.Base.{◌^◌, ◌<◌, ◌≡◌, arith}
use luava.Opcodes.{get_opcode, getarg_a, getarg_b, getarg_c, getarg_k, create_abck}
use luava.Opcodes.Fields.{get-create_abck}

get-create_abck_example :
    (create_abck 33 200 255 7 1 < 2 ^ 32)
    × (get_opcode (create_abck 33 200 255 7 1) ≡ 33)
    × (getarg_a (create_abck 33 200 255 7 1) ≡ 200)
    × (getarg_b (create_abck 33 200 255 7 1) ≡ 255)
    × (getarg_c (create_abck 33 200 255 7 1) ≡ 7)
    × (getarg_k (create_abck 33 200 255 7 1) ≡ 1)
get-create_abck_example =
    get-create_abck 33 200 255 7 1 (omega arith) (omega arith) (omega arith) (omega arith)
      (omega arith)
