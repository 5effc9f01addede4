-- ===== src/RoundTrip/Blocks.antt =====
-- Blocks, bytes, padding and fixed-width numbers: dumpBlock, dumpByte, dumpAlign and dumpVar
-- against loadBlock, loadByte, loadAlign and loadVar.
use luava.Base.{ℕ, zero, suc, ◌+◌, ◌-◌, ◌*◌, ◌/◌, ◌%◌, ◌^◌, ◌<◌, ◌≡◌, refl, ap, ◌∙◌, arith}
use luava.Base.{
  All, take_exact, drop_exact, Bool, List, [], ◌∷◌, ◌++◌, length, length-append, take, drop,
  replicate, take-append_self, drop-append_self, length-replicate, Bool-cases, ltb, inl, inr,
}
use mathlib.Core.Path.{subst}
use native.Mathlib.Nat.{pow-suc}
use luava.Zio.{Zio, read}
use luava.Zio.Contents.{contents, read-IsRead, get_char-cons}
use luava.Dump.{skip, dump_block, dump_bytes, dump_byte, dump_align, le_bytes, le_words}
use luava.Undump.{
  LoadState, Load, ok, ◌>>=◌, pure, load_block, load_byte, load_align, load_word, of_le, words,
}
use luava.RoundTrip.Sync.{buffer_writer, Written-cong, RoundTrip, RoundTrip-map, RoundTrip-pure}

-- The load takes exactly the bytes `b` and does nothing else than to return `v`.
abbrev pub Advances : {A : Type 0} → Load A → A → List ℕ → Type 0
Advances l v b =
    (S : LoadState) (rest : List ℕ)
    → contents S.z ≡ b ++ rest
    → (z' : Zio) × (l S ≡ ok (v, record S { z = z'; offset = (S.offset + length b) % 2 ^ 64 }))
      × (contents z' ≡ rest)

load_block-Advances : (b : List ℕ) → Advances (load_block (length b)) b b
unfolding load_block
load_block-Advances b S rest e =
    let r = read-IsRead S.z (length b) in
    let whole = ap (length {0}) e ∙ length-append {0} b rest in
    let taken = r.taken ∙ ap (take (length b)) e ∙ take-append_self b rest in
    let none_missing : (read S.z (length b)).missing ≡ 0 = omega (arith, r.short) in
    (
      (read S.z (length b)).stream,
      rw (none_missing, taken),
      r.left (omega arith) ∙ ap (drop (length b)) e ∙ drop-append_self b rest,
    )

pub load_byte-Advances : (c : ℕ) → Advances load_byte c (c ∷ [])
unfolding load_byte
load_byte-Advances c S rest e =
    let (z', got, left) = get_char-cons S.z c rest e in (z', rw (got, load_byte), left)

module _ (strip : Bool) where
  -- What is written in one block and read by a load that takes exactly that block.
  pub RoundTrip-block :
      {A : Type 0} (b : List ℕ) {l : Load A} {v : A}
      → Advances l v b
      → RoundTrip strip (dump_bytes buffer_writer b) l v
  unfolding dump_bytes dump_block buffer_writer
  RoundTrip-block b adv D r = record {
    bytes = b;
    sink = rw r.no_error;
    ready = rw r.no_error (record {
      no_error = refl;
      strips = r.strips;
      few = omega (arith, length-append {0} D.sink b, r.few);
      in_range = omega arith;
      counted = r.counted;
      word_index = r.word_index;
    });
    loads = λ small S rest s e.
        let (z', back, left) = adv S rest e in
        record {
          after = record S { z = z'; offset = (S.offset + length b) % 2 ^ 64 };
          returns = back;
          in_step = rw r.no_error (record {
            offsets = rw s.offsets;
            counts = s.counts;
            copies = s.copies;
            indexed = s.indexed;
            stored = s.stored;
          });
          left = left;
        };
  }

  pub block_lem :
      (b : List ℕ) → RoundTrip strip (dump_bytes buffer_writer b) (load_block (length b)) b
  block_lem b = RoundTrip-block b (load_block-Advances b)

  pub byte_lem : (y : ℕ) → y < 256 → RoundTrip strip (dump_byte buffer_writer y) load_byte y
  unfolding dump_byte
  byte_lem y h =
      let e : y % 256 ≡ y = omega arith in rw e (RoundTrip-block (y ∷ []) (load_byte-Advances y))

  -- Both sides pad from the same offset to the same alignment.
  pub align_lem :
      (align : ℕ) → RoundTrip strip (dump_align buffer_writer align) (load_align align) tt
  unfolding dump_align load_align
  align_lem align D r =
      let padding = align - D.offset % align in
      elim (Bool-cases (ltb padding align)) [
        | inl pads ↦
            Written-cong strip _ (dump_bytes buffer_writer (replicate padding 0)) _
              (load_block padding >>= λ _. pure tt) D (rw pads) (λ S s. rw (s.offsets, pads))
              (RoundTrip-map strip (λ _. tt)
                (rw length-replicate at (block_lem (replicate padding 0))) D r)
        | inr even ↦
            Written-cong strip _ skip _ (pure tt) D (rw even) (λ S s. rw (s.offsets, even))
              (RoundTrip-pure strip tt D r)
      ]

pub length-le_bytes : (width n : ℕ) → length (le_bytes width n) ≡ width
unfolding le_bytes
length-le_bytes zero n = refl
length-le_bytes (suc width) n = ap suc (length-le_bytes width (n / 256))

pub of_le-le_bytes : (width n : ℕ) → n < 256 ^ width → of_le (le_bytes width n) ≡ n
unfolding le_bytes of_le
of_le-le_bytes zero n h = omega arith
of_le-le_bytes (suc width) n h =
    omega (arith, of_le-le_bytes width (n / 256) (omega (arith, pow-suc 256 width)))

module _ (strip : Bool) where
  pub word_lem :
      (width x : ℕ)
      → x < 256 ^ width
      → RoundTrip strip (dump_bytes buffer_writer (le_bytes width x)) (load_word width) x
  unfolding load_word
  word_lem width x h =
      subst (λ y. RoundTrip strip (dump_bytes buffer_writer (le_bytes width x)) (load_word width) y)
        (of_le-le_bytes width x h)
        (RoundTrip-map strip of_le
          (rw (length-le_bytes width x) at (block_lem strip (le_bytes width x))))

pub length-le_words : (width : ℕ) (ns : List ℕ) → length (le_words width ns) ≡ length ns * width
unfolding le_words
length-le_words width [] = omega arith
length-le_words width (n ∷ ns) =
    length-append {0} (le_bytes width n) (le_words width ns)
    ∙ omega (arith, length-le_bytes width n, length-le_words width ns)

pub words-le_words :
    (width : ℕ) (ns : List ℕ)
    → All (λ n. n < 256 ^ width) ns
    → words width (length ns) (le_words width ns) ≡ ns
unfolding words le_words
words-le_words width [] h = refl
words-le_words width (n ∷ ns) (h, hs) = rw (
  take_exact width (le_bytes width n) (le_words width ns) (length-le_bytes width n),
  drop_exact width (le_bytes width n) (le_words width ns) (length-le_bytes width n),
  of_le-le_bytes width n h,
  words-le_words width ns hs,
)
