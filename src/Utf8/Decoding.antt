-- ===== src/Utf8/Decoding.antt =====
-- utf8_decode accepts exactly what luaO_utf8esc writes.
use luava.Base.{
  ℕ, zero, suc, ◌+◌, ◌-◌, ◌*◌, ◌/◌, ◌%◌, ◌^◌, ◌≤◌, ◌<◌, ◌≡◌, refl, ap, ◌∙◌, arith, bit_and, bit_or,
  Bool, true, false, ◌&&◌, ltb, leb, if◌then◌else◌, List, [], ◌∷◌, ◌++◌, append_assoc, none, some,
  Bool-cases, inl, inr,
}
use mathlib.Core.Path.{subst}
use native.Mathlib.Nat.{mul_assoc, div-add-mod', pow-suc, pow-le-pow_right, mul-le-mul_left}
use luava.Base.Bits.{bit_or_comm, bit_or-shifted}
use luava.Utf8.{
  utf8esc, maxutf, iscont, cont_loop, add_first, after_conts, decode_value, invalid, utf8_decode,
}
use luava.Utf8.Bytes.{append_six, iscont_lem, needed, prefix, more_asked, none_asked, first_bits}
use luava.Utf8.Encoding.{conts, size, encode, utf8esc-encode, First, size-First}

-- The value that `k` continuation bytes of `v` add up to.
unfoldable gather : ℕ → ℕ → ℕ
gather zero v = 0
gather (suc k) v = gather k (v / 64) * 64 + v % 64

gather-lt : (k v : ℕ) → k ≤ 5 → gather k v < 64 ^ k
unfolding gather
gather-lt zero v h = omega arith
gather-lt (suc k) v h = omega (arith, gather-lt k (v / 64) (omega arith), pow-suc 64 k)

shifted_once : (f k : ℕ) → f < 256 → k ≤ 5 → f * 2 ^ k * 2 % 2 ^ 32 ≡ f * 2 ^ suc k
shifted_once f k h le =
    let small : 2 ^ k ≤ 2 ^ 5 = pow-le-pow_right (omega arith) le in
    omega (arith, mul-le-mul_left f small, ap (λ (t : ℕ). f * t) (pow-suc 2 k))

cont_loop-step :
    (f k m res b : ℕ) (rest : List ℕ)
    → 128 ≤ f
    → f < 256
    → k < needed f
    → k ≤ 5
    → res < 2 ^ 26
    → (leb 128 b && ltb b 192) ≡ true
    → cont_loop (suc m) (f * 2 ^ k) res k (b ∷ rest)
      ≡ cont_loop m (f * 2 ^ suc k) (res * 64 + b % 64) (suc k) rest
unfolding cont_loop
cont_loop-step f k m res b rest ge lt asked few small cont =
    let is : iscont b ≡ true = iscont_lem b (ground arith) ∙ cont in
    let count : k + 1 ≡ suc k = omega arith in
    rw (more_asked f k ge lt asked, is, shifted_once f k lt few, append_six res b small, count) refl

cont_loop-conts :
    (f k m v : ℕ) (rest : List ℕ)
    → 128 ≤ f
    → f < 256
    → k ≤ needed f
    → k ≤ 5
    → cont_loop (k + m) f 0 0 (conts k v ++ rest) ≡ cont_loop m (f * 2 ^ k) (gather k v) k rest
unfolding conts gather
cont_loop-conts f zero m v rest ge lt asked few =
    let e : f ≡ f * 2 ^ 0 = omega arith in
    let z : 0 + m ≡ m = omega arith in rw z (ap (λ (c : ℕ). cont_loop m c 0 0 rest) e)
cont_loop-conts f (suc k) m v rest ge lt asked few =
    let b = v % 64 + 128 in
    let z : suc k + m ≡ k + suc m = omega arith in
    let grows : 64 ^ k ≤ 64 ^ 4 = pow-le-pow_right (omega arith) {i = k} {j = 4} (omega arith) in
    let low : b % 64 ≡ v % 64 = omega arith in
    let small : gather k (v / 64) < 2 ^ 26 =
      omega (arith, gather-lt k (v / 64) (omega arith), grows) in
    rw (z, append_assoc (conts k (v / 64)) (b ∷ []) rest)
      (cont_loop-conts f k (suc m) (v / 64) (b ∷ rest) ge lt (omega arith) (omega arith)
        ∙ cont_loop-step f k m (gather k (v / 64)) b rest ge lt (omega arith) (omega arith) small
            (ground arith)
        ∙ ap (λ (t : ℕ). cont_loop m (f * 2 ^ suc k) (gather k (v / 64) * 64 + t) (suc k) rest) low)

-- What holds of 0 to 5.
upto_5 : (P : ℕ → Type 0) → P 0 → P 1 → P 2 → P 3 → P 4 → P 5 → (k : ℕ) → k ≤ 5 → P k
upto_5 P p0 p1 p2 p3 p4 p5 zero h = p0
upto_5 P p0 p1 p2 p3 p4 p5 (suc zero) h = p1
upto_5 P p0 p1 p2 p3 p4 p5 (suc (suc zero)) h = p2
upto_5 P p0 p1 p2 p3 p4 p5 (suc (suc (suc zero))) h = p3
upto_5 P p0 p1 p2 p3 p4 p5 (suc (suc (suc (suc zero)))) h = p4
upto_5 P p0 p1 p2 p3 p4 p5 (suc (suc (suc (suc (suc zero))))) h = p5
upto_5 P p0 p1 p2 p3 p4 p5 (suc (suc (suc (suc (suc (suc k)))))) h = absurd (omega arith)

gather_lem : (v k : ℕ) → k ≤ 5 → gather k v ≡ v % 64 ^ k
unfolding gather
gather_lem v =
    upto_5 (λ k. gather k v ≡ v % 64 ^ k) (omega arith) (omega arith) (omega arith) (omega arith)
      (omega arith) (omega arith)

-- Six bits for each continuation byte.
six_bits : (k : ℕ) → k ≤ 5 → (2 ^ k * 2 ^ (k * 5) ≡ 64 ^ k) × (2 ^ (k * 6) ≡ 64 ^ k)
six_bits =
    upto_5 (λ k. (2 ^ k * 2 ^ (k * 5) ≡ 64 ^ k) × (2 ^ (k * 6) ≡ 64 ^ k)) (refl, refl) (refl, refl)
      (refl, refl) (refl, refl) (refl, refl) (refl, refl)

put_together :
    (k q g : ℕ)
    → k ≤ 5
    → g < 64 ^ k
    → q * 64 ^ k + g < 2 ^ 32
    → bit_or g (q * 2 ^ k * 2 ^ (k * 5) % 2 ^ 32) ≡ q * 64 ^ k + g
put_together k q g few lt small =
    let (twos, sixes) = six_bits k few in
    let high : q * 2 ^ k * 2 ^ (k * 5) % 2 ^ 32 ≡ q * 2 ^ (k * 6) = omega (
      arith,
      mul_assoc q (2 ^ k) (2 ^ (k * 5)),
      ap (λ (t : ℕ). q * t) twos,
      ap (λ (t : ℕ). q * t) sixes,
    ) in
    rw (high, bit_or_comm g (q * 2 ^ (k * 6)))
      (bit_or-shifted (k * 6) q g (omega (arith, sixes)) ∙ ap (λ (t : ℕ). q * t + g) sixes)

-- The loop stops after the bytes that the first one asks for.
cont_loop-all :
    (f v : ℕ) (rest : List ℕ)
    → 128 ≤ f
    → f < 256
    → needed f ≤ 5
    → cont_loop 8 f 0 0 (conts (needed f) v ++ rest)
      ≡ some (record {
        c = f * 2 ^ needed f;
        res = gather (needed f) v;
        count = needed f;
        rest = rest;
      })
unfolding cont_loop
cont_loop-all f v rest ge lt few =
    let k = needed f in
    let z : 8 ≡ k + suc (7 - k) = omega arith in
    ap (λ (n : ℕ). cont_loop n f 0 0 (conts k v ++ rest)) z
    ∙ cont_loop-conts f k (suc (7 - k)) v rest ge lt (omega arith) few
    ∙ rw (none_asked f ge lt) refl

-- The value that is added up, and its checks.
add_first-value :
    (f x : ℕ) (rest : List ℕ)
    → First x (needed f) f
    → x ≤ maxutf
    → add_first
        (record { c = f * 2 ^ needed f; res = gather (needed f) x; count = needed f; rest = rest })
      ≡ some (x, rest)
unfolding add_first
add_first-value f x rest h le =
    let k = needed f in
    let q = x / 64 ^ k in
    let whole : q * 64 ^ k + x % 64 ^ k ≡ x = div-add-mod' x (64 ^ k) in
    let bits : bit_and (f * 2 ^ k) 0x7f ≡ q * 2 ^ k =
      first_bits f h.high h.byte h.few ∙ ap (λ (t : ℕ). t * 2 ^ k) h.value in
    let low : x % 64 ^ k < 64 ^ k = omega (arith, gather_lem x k h.few, gather-lt k x h.few) in
    let value : bit_or (x % 64 ^ k) (q * 2 ^ k * 2 ^ (k * 5) % 2 ^ 32) ≡ x =
      put_together k q (x % 64 ^ k) h.few low (omega arith) ∙ whole in
    let few : ltb 5 k ≡ false = ground arith in
    let fits : ltb maxutf x ≡ false = ground arith in
    rw (gather_lem x k h.few, bits, value, few, fits, h.canonical) refl

decode-ascii : (x : ℕ) (s : List ℕ) → ltb x 0x80 ≡ true → decode_value (x ∷ s) ≡ some (x, s)
unfolding decode_value
decode-ascii x s h = rw h refl

decode-long :
    (f : ℕ) (s : List ℕ) → 128 ≤ f → decode_value (f ∷ s) ≡ after_conts (cont_loop 8 f 0 0 s)
unfolding decode_value
decode-long f s h = let long : ltb f 0x80 ≡ false = ground arith in rw long refl

decode-needed :
    (f x : ℕ) (rest : List ℕ)
    → First x (needed f) f
    → x ≤ maxutf
    → decode_value (f ∷ (conts (needed f) x ++ rest)) ≡ some (x, rest)
decode-needed f x rest h le =
    decode-long f _ h.high
    ∙ rw (cont_loop-all f x rest h.high h.byte h.few) (add_first-value f x rest h le)

decode-sequence :
    (f x k : ℕ) (rest : List ℕ)
    → First x k f
    → x ≤ maxutf
    → decode_value (f ∷ (conts k x ++ rest)) ≡ some (x, rest)
decode-sequence f x k rest h le =
    subst (λ k. First x k f → decode_value (f ∷ (conts k x ++ rest)) ≡ some (x, rest)) h.asks
      (λ first. decode-needed f x rest first le) h

pub decode-encode :
    (x : ℕ) (rest : List ℕ) → x ≤ maxutf → decode_value (encode x ++ rest) ≡ some (x, rest)
unfolding encode
decode-encode x rest le = elim (Bool-cases (ltb x 0x80)) [
  | inl ascii ↦ rw ascii (decode-ascii x rest ascii)
  | inr long ↦
      let f = prefix (size x) + x / 64 ^ size x in
      let first = size-First x (ground arith) le in
      rw long (decode-sequence f x (size x) rest first le)
]

-- utf8_decode reads back what luaO_utf8esc wrote; in strict mode it refuses surrogates and values
-- above 10FFFF, and nothing else that luaO_utf8esc writes.
pub utf8_decode-utf8esc :
    (x : ℕ) (strict : Bool) (rest : List ℕ)
    → x ≤ maxutf
    → utf8_decode (utf8esc x ++ rest) strict
      ≡ (if strict && invalid x then none else some (x, rest))
unfolding utf8_decode
utf8_decode-utf8esc x strict rest le = rw (utf8esc-encode x le, decode-encode x rest le) refl
