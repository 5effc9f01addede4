-- ===== src/Zio.antt =====
-- lua/src/lzio.c and lzio.h: the buffered input stream. `buffer` holds the `n` bytes from `p` on;
-- `pieces` are the blocks that the reader callback will hand out, an empty one being its
-- `NULL` or zero-size answer.
pub mod Contents
mod Examples
use luava.Base.{ℕ, zero, suc, ◌-◌, min, Bool, true, false, Option, none, some}
use luava.Base.{List, [], ◌∷◌, ◌++◌, length, take, drop, ltb, if◌then◌else◌}

pub record Zio : Type 0 where
  pub buffer : List ℕ
  pub pieces : List (List ℕ)

-- luaZ_init: no byte is buffered yet.
unfoldable pub init : List (List ℕ) → Zio
init pieces = record { buffer = []; pieces = pieces }

-- luaZ_fill on a buffer that is used up: the reader is asked for a block, and its first byte is
-- returned. `none` is EOZ.
unfoldable pub fill_from : List (List ℕ) → Option ℕ × Zio
fill_from [] = (none, record { buffer = []; pieces = [] })
fill_from ([] ∷ ps) = (none, record { buffer = []; pieces = ps })
fill_from ((c ∷ cs) ∷ ps) = (some c, record { buffer = cs; pieces = ps })

-- The macro zgetc; `none` is EOZ, after which the stream is not read again.
unfoldable pub get_char_from : List ℕ → List (List ℕ) → Option (ℕ × Zio)
get_char_from (c ∷ cs) ps = some (c, record { buffer = cs; pieces = ps })
get_char_from [] ps =
    let (first, z) = fill_from ps in elim first [ some c ↦ some (c, z) | none ↦ none ]

unfoldable pub get_char : Zio → Option (ℕ × Zio)
unfolding get_char_from fill_from
get_char z = get_char_from z.buffer z.pieces

-- checkbuffer: after a fill the first byte is put back in front of the buffer.
unfoldable pub check_buffer_from : List ℕ → List (List ℕ) → Bool × Zio
check_buffer_from (c ∷ cs) ps = (true, record { buffer = c ∷ cs; pieces = ps })
check_buffer_from [] ps =
    let (first, z) = fill_from ps in
    elim first [ some c ↦ (true, record z { buffer = c ∷ z.buffer }) | none ↦ (false, z) ]

unfoldable pub check_buffer : Zio → Bool × Zio
unfolding check_buffer_from fill_from
check_buffer z = check_buffer_from z.buffer z.pieces

-- The number of missing bytes that luaZ_read returns, the bytes that it copied, and the stream.
pub record Read : Type 0 where
  pub missing : ℕ
  pub bytes : List ℕ
  pub stream : Zio

-- The loop of luaZ_read. A round copies at least one byte, so `n` rounds are enough.
unfoldable pub read_loop : ℕ → ℕ → List ℕ → Zio → Read
read_loop fuel zero out z = record { missing = 0; bytes = out; stream = z }
read_loop zero (suc n) out z = record { missing = suc n; bytes = out; stream = z }
read_loop (suc fuel) (suc n) out z =
    let (more, z') = check_buffer z in
    let m = min (suc n) (length z'.buffer) in
    let z'' : Zio = record z' { buffer = drop m z'.buffer } in
    let rest = read_loop fuel (suc n - m) (out ++ take m z'.buffer) z'' in
    if more then rest else record { missing = suc n; bytes = out; stream = z' }

-- luaZ_read
unfoldable pub read : Zio → ℕ → Read
unfolding read_loop
read z n = read_loop n n [] z

-- luaZ_getaddr: the block must lie whole in the buffer; `none` is NULL.
unfoldable pub get_addr : Zio → ℕ → Option (List ℕ × Zio)
get_addr z n =
    let (more, z') = check_buffer z in
    if more
    then (if ltb (length z'.buffer) n
        then none
        else some (take n z'.buffer, record z' { buffer = drop n z'.buffer }))
    else none
