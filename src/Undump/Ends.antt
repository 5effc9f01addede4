-- ===== src/Undump/Ends.antt =====
-- Reading a chunk ends on every input, valid or not: no loop outlives the bytes of the stream.
use luava.Base.{ℕ, zero, suc, ◌-◌, ◌/◌, ◌%◌, ◌^◌, ◌≤◌, ◌<◌, ◌≡◌, ◌≢◌, refl, ap, arith, bit_and}
use luava.Base.{
  Bool, true, false, List, [], ◌∷◌, length, drop, length-drop, Bool-cases, Option-cases, ltb, leb,
  ◌==◌, if◌then◌else◌, inl, inr,
}
use luava.Zio.{Zio, read, get_addr}
use luava.Zio.Contents.{contents, get_char-cons, get_char-nil, read-IsRead, get_addr_sound}
use luava.Undump.{LoadState, Load, LoadError, Result, ok, err, stuck, ◌>>=◌, pure, guard}
use luava.Undump.{load_block, load_align, get_block, load_byte, varint_loop, load_varint}

abbrev pub left : LoadState → ℕ
left S = length (contents S.z)

-- A result that is none of the model's own, and after which at most `c` bytes are left.
pub record Step {A : Type 0} (c : ℕ) (o : Result (A × LoadState)) : Type 0 where
  pub ends : o ≢ stuck
  pub leaves : (a : A) (S : LoadState) → o ≡ ok (a, S) → left S ≤ c

-- With at most `b` bytes left before, there are at most `c` after.
abbrev pub Ends : {A : Type 0} → ℕ → ℕ → Load A → Type 0
Ends b c l = (S : LoadState) → left S ≤ b → Step c (l S)

pub Step-err : {A : Type 0} (c : ℕ) (e : LoadError) → Step {A = A} c (err e)
Step-err c e = record { ends = λ h. cc; leaves = λ a S h. absurd (cc) }

pub Step-ok : {A : Type 0} (c : ℕ) (a : A) (S : LoadState) → left S ≤ c → Step c (ok (a, S))
Step-ok c a S h = record { ends = λ e. cc; leaves = λ a' S' e. let same : S' ≡ S = cc in rw same h }

pub Ends-pure : {A : Type 0} (c : ℕ) (a : A) → Ends c c (pure a)
Ends-pure c a S h = Step-ok c a S h

pub Ends-guard : (c : ℕ) (t : Bool) (e : LoadError) → Ends c c (guard t e)
Ends-guard c true e S h = Step-ok c tt S h
Ends-guard c false e S h = Step-err c e

Step-bind :
    {A B : Type 0} (c d : ℕ) (o : Result (A × LoadState)) (f : A → Load B) (l : Load A)
    (S : LoadState)
    → l S ≡ o
    → Step c o
    → ((a : A) → Ends c d (f a))
    → Step d ((l >>= f) S)
Step-bind c d (ok p) f l S e h k = rw (e, ◌>>=◌) (k p.0 p.1 (h.leaves p.0 p.1 refl))
Step-bind c d (err x) f l S e h k = rw (e, ◌>>=◌) (Step-err d x)
Step-bind c d stuck f l S e h k = absurd (h.ends refl)

pub Ends-bind :
    {A B : Type 0} (b c d : ℕ) {l : Load A} {f : A → Load B}
    → Ends b c l
    → ((a : A) → Ends c d (f a))
    → Ends b d (l >>= f)
Ends-bind b c d {l} {f} p q S h = Step-bind c d (l S) f l S refl (p S h) q

pub Ends-weaken : {A : Type 0} (b c d : ℕ) {l : Load A} → Ends b c l → c ≤ d → Ends b d l
Ends-weaken b c d p h S k = record {
  ends = (p S k).ends;
  leaves = λ a S' e. omega (arith, (p S k).leaves a S' e);
}

-- A load with no bytes left that fails.
pub Step-none :
    {A B : Type 0} (d : ℕ) (l : Load A) (f : A → Load B) (S : LoadState) (e : LoadError)
    → l S ≡ err e
    → Step d ((l >>= f) S)
Step-none d l f S e h = rw (h, ◌>>=◌) (Step-err d e)

drop_left :
    (n : ℕ) (z z' : Zio)
    → contents z' ≡ drop n (contents z)
    → length (contents z') ≤ length (contents z)
drop_left n z z' e = rw e (omega (arith, length-drop n (contents z)))

pub load_block-Ends : (b size : ℕ) → Ends b b (load_block size)
unfolding load_block
load_block-Ends b size S h =
    let r = read-IsRead S.z size in
    elim (Bool-cases ((read S.z size).missing == 0)) [
      | inl all ↦ rw all (
          Step-ok b (read S.z size).bytes _ (
            omega (
              arith,
              drop_left size S.z (read S.z size).stream (r.left (ground (arith, r.short))),
            )))
      | inr few ↦ rw few (Step-err b LoadError.truncated_chunk)
    ]

pub get_block-Ends : (b size : ℕ) → Ends b b (get_block size)
unfolding get_block
get_block-Ends b size S h = elim (Option-cases (get_addr S.z size)) [
  | inl none_there ↦ rw (none_there, get_block) (Step-err b LoadError.truncated_fixed_buffer)
  | inr (p, e) ↦
      let (block, after, fits) = get_addr_sound S.z size p.0 p.1 e in
      rw (e, get_block) (Step-ok b p.0 _ (omega (arith, drop_left size S.z p.1 after)))
]

-- A byte is taken, or there is none.
load_byte-some : (b : ℕ) → Ends b (b - 1) load_byte
unfolding load_byte
load_byte-some b S h = byte (contents S.z) refl
  where
    byte : (whole : List ℕ) → contents S.z ≡ whole → Step (b - 1) (load_byte S)
    byte [] e = rw (get_char-nil S.z e, load_byte) (Step-err (b - 1) LoadError.truncated_chunk)
    byte (c ∷ rest) e =
        let (z', got, after) = get_char-cons S.z c rest e in
        rw (got, load_byte)
          (Step-ok (b - 1) c _ (omega (arith, ap (length {0}) e, ap (length {0}) after)))

pub load_byte-Ends : (b c : ℕ) → b ≤ suc c → Ends b c load_byte
load_byte-Ends b c h = Ends-weaken b (b - 1) c (load_byte-some b) (omega arith)

pub load_byte-none : (S : LoadState) → left S ≤ 0 → load_byte S ≡ err LoadError.truncated_chunk
unfolding load_byte
load_byte-none S h = nothing (contents S.z) refl
  where
    nothing : (whole : List ℕ) → contents S.z ≡ whole → load_byte S ≡ err LoadError.truncated_chunk
    nothing [] e = rw (get_char-nil S.z e, load_byte) refl
    nothing (c ∷ rest) e = absurd (omega (arith, ap (length {0}) e))

pub load_align-Ends : (b align : ℕ) → Ends b b (load_align align)
unfolding load_align
load_align-Ends b align S h = elim (Bool-cases (ltb (align - S.offset % align) align)) [
  | inl pad ↦
      rw pad
        (Ends-bind b b b (load_block-Ends b (align - S.offset % align)) (λ _. Ends-pure b tt) S h)
  | inr aligned ↦ rw aligned (Step-ok b tt S h)
]

pub Ends-if :
    {A : Type 0} (t : Bool) (b c : ℕ) {l m : Load A}
    → Ends b c l
    → Ends b c m
    → Ends b c (if t then l else m)
Ends-if true b c p q = p
Ends-if false b c p q = q

-- Each round takes a byte.
varint_loop-Ends :
    (fuel limit x b c : ℕ) → b < fuel → b ≤ suc c → Ends b c (varint_loop fuel limit x)
unfolding varint_loop
varint_loop-Ends zero limit x b c enough le S h = absurd (omega arith)
varint_loop-Ends (suc fuel) limit x zero c enough le S h =
    Step-none c load_byte _ S _ (load_byte-none S h)
varint_loop-Ends (suc fuel) limit x (suc b) c enough le S h =
    Ends-bind (suc b) b c (load_byte-Ends (suc b) b (omega arith))
      (λ a. Ends-bind b b c (Ends-guard b (leb x limit) LoadError.integer_overflow) (λ _.
        Ends-if (bit_and a 0x80 == 0) b c (Ends-weaken b b c (Ends-pure b _) (omega arith))
          (varint_loop-Ends fuel limit _ b c (omega arith) (omega arith))))
      S h

pub load_varint-Ends : (b c limit : ℕ) → b ≤ suc c → Ends b c (load_varint limit)
unfolding load_varint
load_varint-Ends b c limit le S h =
    varint_loop-Ends (suc (left S)) (limit / 2 ^ 7) 0 (left S) c (omega arith) (omega arith) S
      (omega arith)
