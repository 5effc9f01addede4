-- ===== src/RoundTrip/Varint.antt =====
-- dumpVarint against loadVarint: groups of seven bits, the highest first, with the top bit set on
-- every byte but the last.
use luava.Base.{
  ℕ, zero, suc, ◌+◌, ◌*◌, ◌/◌, ◌%◌, ◌^◌, ◌≤◌, ◌<◌, ◌≡◌, ap, ◌∙◌, arith, bit_and, bit_or,
}
use luava.Base.{
  Bool, true, List, [], ◌∷◌, ◌++◌, length, append_assoc, length-append, Bool-cases, leb, ◌==◌,
  if◌then◌else◌, inl, inr, Acc, lt_wf,
}
use luava.Base.Bits.{bit_or-128, bit_and-128, bit_and-127, bit_and-1, bit_or-shifted}
use mathlib.Core.Path.{ap₂, subst}
use native.Mathlib.Nat.{pow-suc, zero-add}
use luava.Zio.{Zio}
use luava.Zio.Contents.{contents}
use luava.Dump
use luava.Dump.{
  DumpState, Dump, varint_bytes, dump_varint, dump_int, dump_size, dump_integer, integer_code,
}
use luava.Undump
use luava.Undump.{
  LoadState, Load, Result, ok, err, ◌>>=◌, pure, load_byte, load_varint, load_int, load_size,
  load_integer, integer_of_code,
}
use luava.Proto.{max_unsigned}
use luava.RoundTrip.Sync.{buffer_writer, RoundTrip, RoundTrip-map}
use luava.RoundTrip.Blocks.{Advances, load_byte-Advances, RoundTrip-block}

-- The bytes before the last one, for the number `y` of which they are the groups.
pub high_groups : ℕ → ℕ → List ℕ
high_groups zero y = []
high_groups (suc k) y = if y == 0 then [] else high_groups k (y / 128) ++ ((y % 128 + 128) ∷ [])

marked_group : (y : ℕ) → bit_or (bit_and y 0x7f) 0x80 ≡ y % 128 + 128
marked_group y = rw bit_and-127 (bit_or-128 _ (omega arith))

varint_loop-high_groups :
    (k x : ℕ) (w : Acc ◌<◌ x) (buff : List ℕ)
    → x / 128 < 128 ^ k
    → Dump.varint_loop x w buff ≡ high_groups k (x / 128) ++ buff
unfolding Dump.varint_loop high_groups
varint_loop-high_groups zero x (Acc.intro _ smaller) buff h = ground arith
varint_loop-high_groups (suc k) x (Acc.intro _ smaller) buff h =
    let c : List ℕ = (x / 128 % 128 + 128) ∷ [] in
    grind (
      arith,
      marked_group (x / 128),
      λ (w : Acc ◌<◌ (x / 128)).
          varint_loop-high_groups k (x / 128) w (c ++ buff) (omega (arith, pow-suc 128 k)),
      append_assoc (high_groups k (x / 128 / 128)) c buff,
    )

pub varint_bytes-high_groups :
    (x : ℕ) → x < 2 ^ 64 → varint_bytes x ≡ high_groups 9 (x / 128) ++ (x % 128 ∷ [])
unfolding varint_bytes
varint_bytes-high_groups x h =
    rw (bit_and-127 x) (varint_loop-high_groups 9 x (lt_wf.apply x) (x % 128 ∷ []) (omega arith))

group_added :
    (x b : ℕ) → x < 2 ^ 57 → bit_or (x * 2 ^ 7 % 2 ^ 64) (bit_and b 0x7f) ≡ x * 128 + b % 128
group_added x b h =
    let e : x * 2 ^ 7 % 2 ^ 64 ≡ x * 2 ^ 7 = omega arith in
    rw (e, bit_and-127 b) (bit_or-shifted 7 x (b % 128) (omega arith))

-- One round on a byte with the top bit set, and on the last byte.
round_more :
    (fuel limit x c : ℕ) (S : LoadState) (rest : List ℕ)
    → x ≤ limit
    → limit < 2 ^ 57
    → c < 128
    → contents S.z ≡ (c + 128) ∷ rest
    → (z' : Zio) × (Undump.varint_loop (suc fuel) limit x S
        ≡ Undump.varint_loop fuel limit
            (x * 128 + c)
            (record S { z = z'; offset = (S.offset + 1) % 2 ^ 64 }))
      × (contents z' ≡ rest)
unfolding Undump.varint_loop
round_more fuel limit x c S rest hx hl hc e =
    let (z', got, left) = load_byte-Advances (c + 128) S rest e in
    let within : leb x limit ≡ true = ground arith in
    let marked : bit_and (c + 128) 0x80 ≡ 128 = omega (arith, bit_and-128 (c + 128)) in
    let added : bit_or (x * 2 ^ 7 % 2 ^ 64) (bit_and (c + 128) 0x7f) ≡ x * 128 + c =
      omega (arith, group_added x (c + 128)) in
    (z', rw (got, ◌>>=◌, within, marked, added), left)

round_last :
    (fuel limit x c : ℕ) (S : LoadState) (rest : List ℕ)
    → x ≤ limit
    → limit < 2 ^ 57
    → c < 128
    → contents S.z ≡ c ∷ rest
    → (z' : Zio) × (Undump.varint_loop (suc fuel) limit x S
        ≡ ok (x * 128 + c, record S { z = z'; offset = (S.offset + 1) % 2 ^ 64 }))
      × (contents z' ≡ rest)
unfolding Undump.varint_loop
round_last fuel limit x c S rest hx hl hc e =
    let (z', got, left) = load_byte-Advances c S rest e in
    let within : leb x limit ≡ true = ground arith in
    let plain : bit_and c 0x80 ≡ 0 = omega (arith, bit_and-128 c) in
    let added : bit_or (x * 2 ^ 7 % 2 ^ 64) (bit_and c 0x7f) ≡ x * 128 + c =
      omega (arith, group_added x c) in
    (z', rw (got, ◌>>=◌, within, plain, added), left)

-- All rounds on the high groups of `y`: `fuel` rounds are left, and the accumulator is `y`.
record Rounds (fuel limit y : ℕ) (S : LoadState) (n : ℕ) (rest : List ℕ) : Type 0 where
  z' : Zio
  offset' : ℕ
  offset_mod : offset' % 2 ^ 64 ≡ (S.offset + n) % 2 ^ 64
  runs :
      Undump.varint_loop (n + fuel) limit 0 S
      ≡ Undump.varint_loop fuel limit y (record S { z = z'; offset = offset' })
  left : contents z' ≡ rest

Rounds-start :
    (fuel limit y : ℕ) (S : LoadState) (rest : List ℕ)
    → y ≡ 0
    → contents S.z ≡ rest
    → Rounds fuel limit y S 0 rest
Rounds-start fuel limit y S rest zero_y e = record {
  z' = S.z;
  offset' = S.offset;
  offset_mod = omega arith;
  runs = rw (zero_y, zero-add fuel);
  left = e;
}

Rounds-next :
    (fuel limit y n : ℕ) (S : LoadState) (rest : List ℕ)
    → y ≤ limit
    → limit < 2 ^ 57
    → Rounds (suc fuel) limit (y / 128) S n ((y % 128 + 128) ∷ rest)
    → Rounds fuel limit y S (n + 1) rest
Rounds-next fuel limit y n S rest hl hm r =
    let S' : LoadState = record S { z = r.z'; offset = r.offset' } in
    let (z', step, left) =
      round_more fuel limit (y / 128) (y % 128) S' rest (omega arith) hm (omega arith) r.left in
    let regroup : y / 128 * 128 + y % 128 ≡ y = omega arith in
    let count : n + 1 + fuel ≡ n + suc fuel = omega arith in
    record {
      z' = z';
      offset' = (r.offset' + 1) % 2 ^ 64;
      offset_mod = omega (arith, r.offset_mod);
      runs = rw count (r.runs ∙ rw regroup at step);
      left = left;
    }

Rounds-high_groups :
    (k y fuel limit : ℕ) (S : LoadState) (rest : List ℕ)
    → y < 128 ^ k
    → y ≤ limit
    → limit < 2 ^ 57
    → contents S.z ≡ high_groups k y ++ rest
    → Rounds fuel limit y S (length (high_groups k y)) rest
unfolding high_groups
Rounds-high_groups zero y fuel limit S rest hy hl hm e =
    Rounds-start fuel limit y S rest (omega arith) e
Rounds-high_groups (suc k) y fuel limit S rest hy hl hm e = elim (Bool-cases (y == 0)) [
  | inl done ↦ rw done (Rounds-start fuel limit y S rest (ground arith) (rw done at e))
  | inr more ↦
      let c : List ℕ = (y % 128 + 128) ∷ [] in
      let e' : contents S.z ≡ high_groups k (y / 128) ++ (c ++ rest) =
        (rw more at e) ∙ append_assoc (high_groups k (y / 128)) c rest in
      rw (more, length-append {0} (high_groups k (y / 128)) c)
        (Rounds-next fuel limit y _ S rest hl hm (
          Rounds-high_groups k (y / 128) (suc fuel) limit S (c ++ rest)
            (omega (arith, pow-suc 128 k)) (omega arith) hm e'))
]

load_varint-Advances :
    (x limit : ℕ)
    → x ≤ limit
    → limit < 2 ^ 64
    → Advances (load_varint limit) x (high_groups 9 (x / 128) ++ (x % 128 ∷ []))
unfolding load_varint
load_varint-Advances x limit hx hl S rest e =
    let hs = high_groups 9 (x / 128) in
    let c : List ℕ = x % 128 ∷ [] in
    let e' = e ∙ append_assoc hs c rest in
    let r =
      Rounds-high_groups 9 (x / 128) (suc (suc (length rest))) (limit / 2 ^ 7) S (c ++ rest)
        (omega arith) (omega arith) (omega arith) e' in
    let S' : LoadState = record S { z = r.z'; offset = r.offset' } in
    let (z', step, left) =
      round_last (suc (length rest)) (limit / 2 ^ 7) (x / 128) (x % 128) S' rest (omega arith)
        (omega arith) (omega arith) r.left in
    let regroup : x / 128 * 128 + x % 128 ≡ x = omega arith in
    let enough : suc (length (contents S.z)) ≡ length hs + suc (suc (length rest)) =
      omega (arith, ap (length {0}) e', length-append {0} hs (c ++ rest)) in
    let moved : (r.offset' + 1) % 2 ^ 64 ≡ (S.offset + length (hs ++ c)) % 2 ^ 64 =
      omega (arith, r.offset_mod, length-append {0} hs c) in
    (
      z',
      rw enough
          (r.runs ∙ step ∙ ap₂ (λ n o. ok (n, record S { z = z'; offset = o })) regroup moved),
      left,
    )

integer_code-lt : (x : ℕ) → integer_code x < 2 ^ 64
unfolding integer_code
integer_code-lt x = ground arith

-- The code of a signed integer is undone, for negative numbers and others.
pub integer_of_code-integer_code : (x : ℕ) → x < 2 ^ 64 → integer_of_code (integer_code x) ≡ x
unfolding integer_code integer_of_code
integer_of_code-integer_code x h = ground (arith, bit_and-1 (integer_code x))

module _ (strip : Bool) where
  -- A number that fits the limit is read back by loadVarint from what dumpVarint wrote.
  pub varint_lem :
      (x limit : ℕ)
      → x ≤ limit
      → limit < 2 ^ 64
      → RoundTrip strip (dump_varint buffer_writer x) (load_varint limit) x
  unfolding dump_varint
  varint_lem x limit hx hl =
      rw (varint_bytes-high_groups x (omega arith))
        (RoundTrip-block strip _ (load_varint-Advances x limit hx hl))

  pub int_lem : (x : ℕ) → x < 2 ^ 31 → RoundTrip strip (dump_int buffer_writer x) load_int x
  unfolding dump_int load_int
  int_lem x h = varint_lem x _ (omega arith) (omega arith)

  pub size_lem : (x : ℕ) → x < 2 ^ 63 → RoundTrip strip (dump_size buffer_writer x) load_size x
  unfolding dump_size load_size
  size_lem x h = varint_lem x _ (omega arith) (omega arith)

  pub integer_lem :
      (x : ℕ) → x < 2 ^ 64 → RoundTrip strip (dump_integer buffer_writer x) load_integer x
  unfolding dump_integer load_integer
  integer_lem x h =
      subst
        (λ y.
          RoundTrip strip (dump_varint buffer_writer (integer_code x))
            (load_varint max_unsigned >>= λ cx. pure (integer_of_code cx)) y)
        (integer_of_code-integer_code x h)
        (RoundTrip-map strip integer_of_code
          (varint_lem (integer_code x) _ (omega (arith, integer_code-lt x)) (omega arith)))
