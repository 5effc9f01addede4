-- ===== src/Params.antt =====
-- Small logarithms and the parameters of the garbage collector as floating-point bytes:
-- luaO_ceillog2, luaO_codeparam and luaO_applyparam of lua/src/lobject.c. An l_mem that is not
-- negative is a number up to MAX_LMEM.
pub mod Logarithm
mod Tests
use luava.Base.{ℕ, zero, suc, ◌+◌, ◌-◌, ◌*◌, ◌/◌, ◌%◌, ◌^◌, bit_and, bit_or}
use luava.Base.{
  Bool, true, false, ltb, leb, ◌==◌, List, [], ◌∷◌, ◌++◌, get_or, replicate, if◌then◌else◌,
}

-- The table of luaO_ceillog2: log_2[i - 1] is ceil(log2(i)).
unfoldable pub log_2 : List ℕ
log_2 =
    0
    ∷ 1
    ∷ 2
    ∷ 2
    ∷ (replicate 4 3
        ++ (replicate 8 4
            ++ (replicate 16 5 ++ (replicate 32 6 ++ (replicate 64 7 ++ replicate 128 8)))))

-- The loop of luaO_ceillog2 on an unsigned int, which has four bytes.
unfoldable pub log_loop : ℕ → ℕ → ℕ → ℕ
log_loop zero l x = l + get_or log_2 x 0
log_loop (suc fuel) l x =
    let more = log_loop fuel (l + 8) (x / 2 ^ 8) in if leb 256 x then more else l + get_or log_2 x 0

-- luaO_ceillog2
unfoldable pub ceillog2 : ℕ → ℕ
ceillog2 x = log_loop 3 0 ((x + 2 ^ 32 - 1) % 2 ^ 32) % 256

-- luaO_codeparam
unfoldable pub codeparam : ℕ → ℕ
codeparam p =
    if leb (0x1f * 2 ^ (0xf - 7 - 1) * 100) p
    then 0xff
    else (let q = (p * 128 + 99) % 2 ^ 32 / 100 in
        let log = ceillog2 (q + 1) - 5 in
        if ltb q 0x10 then q % 256 else bit_or (q / 2 ^ log - 0x10) ((log + 1) * 2 ^ 4) % 256)

abbrev pub max_lmem : ℕ
max_lmem = 2 ^ 63 - 1

-- luaO_applyparam once the mantissa and the exponent, with its excess of 7, are known.
unfoldable pub apply : ℕ → ℕ → ℕ → ℕ
apply m e x =
    if leb 7 e
    then (if ltb x (max_lmem / 0x1f / 2 ^ (e - 7)) then x * m * 2 ^ (e - 7) else max_lmem)
    else if ltb x (max_lmem / 0x1f)
    then x * m / 2 ^ (7 - e)
    else if ltb (x / 2 ^ (7 - e)) (max_lmem / 0x1f)
    then x / 2 ^ (7 - e) * m
    else max_lmem

-- luaO_applyparam
unfoldable pub applyparam : ℕ → ℕ → ℕ
applyparam p x =
    let m = bit_and p 0xf in
    let e = p / 2 ^ 4 in if ltb 0 e then apply (m + 0x10) (e - 1) x else apply m e x
