-- ===== src/RoundTrip/Arrays.antt =====
-- The arrays of a prototype: code, constants, upvalues and the debug information.
use luava.Base.{ℕ, suc, ◌+◌, ◌*◌, ◌%◌, ◌^◌, ◌<◌, ◌≡◌, refl, ap, arith}
use luava.Base.{
  Bool, true, false, none, some, List, [], ◌∷◌, append-nil, map, length, Bool-cases, ltb, ◌==◌,
  if◌then◌else◌, ◌⊎◌, inl, inr, All,
}
use mathlib.Core.Path.{subst}
use mathlib.Core.List.{map-id}
use luava.Proto.{
  TString, Upvaldesc, LocVar, AbsLineInfo, Constant, Body, maxshortlen, FitsString, FitsConstant,
  FitsUpvalue, FitsLocVar, FitsAbsLine, Fits,
}
use luava.Dump.{
  Dump, skip, dump_bytes, dump_block, dump_align, dump_each, dump_constant, dump_constant_value,
  type_tag, dump_constants, dump_upvalue, dump_upvalues, dump_code, dump_locvar, dump_string,
  dump_number, le_words, abs_words,
}
use luava.Undump.{
  Load, ◌>>=◌, pure, load_block, load_array, load_each, load_constant, load_constant_value,
  constant_string, load_constants, load_upvalue, load_upvalues, load_code, load_locvar,
  load_abslineinfo, load_string, load_number, words, pair_words,
}
use luava.RoundTrip.Sync.{
  buffer_writer, Buffered, Ready, Written-cong, RoundTrip, RoundTrip-bind, RoundTrip-map,
  RoundTrip-pure,
}
use luava.RoundTrip.Blocks.{
  block_lem, byte_lem, align_lem, word_lem, length-le_words, words-le_words,
}
use luava.RoundTrip.Varint.{int_lem, integer_lem}
use luava.RoundTrip.Strings.{string_lem}

-- The name of an upvalue goes out later, with the debug information.
abbrev pub unnamed : Upvaldesc → Upvaldesc
unnamed u = record u { name = none }

cut_to_nil :
    (whole lines : List ℕ)
    → (length whole == 0) ≡ true
    → (lines ≡ []) ⊎ (lines ≡ whole)
    → lines ≡ []
cut_to_nil [] lines e h = elim h [ inl p ↦ p | inr p ↦ p ]
cut_to_nil (x ∷ xs) lines e h = absurd (ground arith)

type_tag-IsByte : (o : Constant) → type_tag o < 256
unfolding type_tag
type_tag-IsByte o = ground arith

module _ (strip : Bool) where
  -- A loop over an array, element by element.
  pub each_lem :
      {A B : Type 0} (f : A → Dump (List ℕ)) (l : Load B) (g : A → B) (P : A → Type 0)
      → ((x : A) → P x → RoundTrip strip (f x) l (g x))
      → (xs : List A) → All P xs
      → RoundTrip strip (dump_each buffer_writer f xs) (load_each (length xs) l) (map g xs)
  unfolding dump_each load_each
  each_lem f l g P one [] h = RoundTrip-pure strip []
  each_lem f l g P one (x ∷ xs) (h, hs) =
      RoundTrip-bind strip (λ y. load_each (length xs) l >>= λ ys. pure (y ∷ ys)) (one x h)
        (RoundTrip-map strip (λ ys. g x ∷ ys) (each_lem f l g P one xs hs))

  -- An array of words in one block.
  pub array_lem :
      (b : List ℕ) → RoundTrip strip (dump_bytes buffer_writer b) (load_array (length b)) b
  unfolding load_array
  array_lem b D r =
      Written-cong strip _ (dump_bytes buffer_writer b) _ (load_block (length b)) D refl
        (λ S s. rw s.copies) (block_lem strip b D r)

  words_lem :
      {A : Type 0} (ns : List ℕ) (f : List ℕ → A)
      → All (λ n. n < 2 ^ 32) ns
      → RoundTrip strip
          (dump_bytes buffer_writer (le_words 4 ns))
          (load_array (length ns * 4) >>= λ b. pure (f (words 4 (length ns) b)))
          (f ns)
  words_lem ns f h =
      subst
        (λ v.
          RoundTrip strip (dump_bytes buffer_writer (le_words 4 ns))
            (load_array (length ns * 4) >>= λ b. pure (f (words 4 (length ns) b))) (f v))
        (words-le_words 4 ns h)
        (RoundTrip-map strip (λ b. f (words 4 (length ns) b))
          (rw (length-le_words 4 ns) at (array_lem (le_words 4 ns))))

  pub code_lem :
      (f : Body)
      → Fits (λ i. i < 2 ^ 32) f.code
      → RoundTrip strip (dump_code buffer_writer f) load_code f.code
  unfolding dump_code load_code
  code_lem f (short, h) =
      RoundTrip-bind strip _ (int_lem strip (length f.code) short)
        (RoundTrip-bind strip _ (align_lem strip 4) (words_lem f.code (λ ns. ns) h))

  string_constant_lem :
      (ts : TString)
      → FitsString (some ts)
      → RoundTrip strip
          (dump_string buffer_writer (some ts))
          (load_string >>= constant_string)
          (Constant.str ts)
  unfolding constant_string
  string_constant_lem ts h =
      RoundTrip-bind strip constant_string (string_lem strip (some ts) h)
        (RoundTrip-pure strip (Constant.str ts))

  -- A constant is read back by its tag.
  constant_value_lem :
      (o : Constant)
      → FitsConstant o
      → RoundTrip strip (dump_constant_value buffer_writer o) (load_constant_value (type_tag o)) o
  unfolding dump_constant_value load_constant_value type_tag
  constant_value_lem Constant.nil h = RoundTrip-pure strip Constant.nil
  constant_value_lem Constant.false h = RoundTrip-pure strip Constant.false
  constant_value_lem Constant.true h = RoundTrip-pure strip Constant.true
  constant_value_lem (Constant.flt x) h =
      RoundTrip-map strip Constant.flt
        (unfold dump_number load_number in word_lem strip 8 x (omega arith))
  constant_value_lem (Constant.int x) h = RoundTrip-map strip Constant.int (integer_lem strip x h)
  constant_value_lem (Constant.str ts) h = elim (Bool-cases (ltb maxshortlen (length ts))) [
    | inl long ↦ rw long (string_constant_lem ts h)
    | inr short ↦ rw short (string_constant_lem ts h)
  ]

  pub constant_lem :
      (o : Constant)
      → FitsConstant o
      → RoundTrip strip (dump_constant buffer_writer o) load_constant o
  unfolding dump_constant load_constant
  constant_lem o h =
      RoundTrip-bind strip _ (byte_lem strip (type_tag o) (type_tag-IsByte o))
        (constant_value_lem o h)

  pub constants_lem :
      (f : Body)
      → Fits FitsConstant f.k
      → RoundTrip strip (dump_constants buffer_writer f) load_constants f.k
  unfolding dump_constants load_constants
  constants_lem f (short, h) = RoundTrip-bind strip _ (int_lem strip (length f.k) short) (
      rw map-id at (
        each_lem (dump_constant buffer_writer) load_constant (λ o. o) FitsConstant constant_lem f.k
          h))

  upvalue_lem :
      (u : Upvaldesc)
      → FitsUpvalue u
      → RoundTrip strip (dump_upvalue buffer_writer u) load_upvalue (unnamed u)
  unfolding dump_upvalue load_upvalue
  upvalue_lem u (name, instack, idx, kind) =
      RoundTrip-bind strip _ (byte_lem strip u.instack instack) (
        RoundTrip-bind strip _ (byte_lem strip u.idx idx) (
          RoundTrip-map strip
            (λ k. record { name = none; instack = u.instack; idx = u.idx; kind = k })
            (byte_lem strip u.kind kind)))

  pub upvalues_lem :
      (f : Body)
      → Fits FitsUpvalue f.upvalues
      → RoundTrip strip (dump_upvalues buffer_writer f) load_upvalues (map unnamed f.upvalues)
  unfolding dump_upvalues load_upvalues
  upvalues_lem f (short, h) = RoundTrip-bind strip _ (int_lem strip (length f.upvalues) short) (
      each_lem (dump_upvalue buffer_writer) load_upvalue unnamed FitsUpvalue upvalue_lem f.upvalues
        h)

  pub locvar_lem :
      (v : LocVar) → FitsLocVar v → RoundTrip strip (dump_locvar buffer_writer v) load_locvar v
  unfolding dump_locvar load_locvar
  locvar_lem v (name, start, stop) = RoundTrip-bind strip _ (string_lem strip v.varname name) (
      RoundTrip-bind strip _ (int_lem strip v.startpc start) (
        RoundTrip-map strip (λ e. record { varname = v.varname; startpc = v.startpc; endpc = e })
          (int_lem strip v.endpc stop)))

  nothing_written : (D : Buffered) → Ready strip D → D ≡ dump_bytes buffer_writer [] D
  unfolding dump_bytes dump_block buffer_writer
  nothing_written D r =
      let same : (D.offset + 0) % 2 ^ 64 ≡ D.offset = omega (arith, r.in_range) in
      rw r.no_error (rw (append-nil D.sink, same))

  -- A write of nothing may be left out.
  empty_lem : RoundTrip strip skip (load_array 0) []
  empty_lem D r =
      Written-cong strip skip (dump_bytes buffer_writer []) _ (load_array 0) D (nothing_written D r)
        (λ S s. refl) (array_lem [] D r)

  pub lineinfo_lem :
      (f : Body) (lines : List ℕ)
      → (lines ≡ []) ⊎ (lines ≡ f.lineinfo)
      → RoundTrip strip
          (if length f.lineinfo == 0 then skip else dump_bytes buffer_writer lines)
          (load_array (length lines))
          lines
  lineinfo_lem f lines h = elim (Bool-cases (length f.lineinfo == 0)) [
    | inl empty ↦
        let none_left : lines ≡ [] = cut_to_nil f.lineinfo lines empty h in
        rw (empty, none_left) empty_lem
    | inr full ↦ rw full (array_lem lines)
  ]

abs_words-All : (xs : List AbsLineInfo) → All FitsAbsLine xs → All (λ n. n < 2 ^ 32) (abs_words xs)
unfolding abs_words
abs_words-All [] h = tt
abs_words-All (x ∷ xs) ((pc, line), hs) = (pc, (line, abs_words-All xs hs))

length-abs_words : (xs : List AbsLineInfo) → length (abs_words xs) ≡ length xs * 2
unfolding abs_words
length-abs_words [] = omega arith
length-abs_words (x ∷ xs) = omega (arith, length-abs_words xs)

pair_words-abs_words : (xs : List AbsLineInfo) → pair_words (abs_words xs) ≡ xs
unfolding abs_words pair_words
pair_words-abs_words [] = refl
pair_words-abs_words (x ∷ xs) = ap (λ t. x ∷ t) (pair_words-abs_words xs)

module _ (strip : Bool) where
  abslines_lem :
      (xs : List AbsLineInfo)
      → All FitsAbsLine xs
      → RoundTrip strip
          (λ D. dump_bytes buffer_writer (le_words 4 (abs_words xs)) (dump_align buffer_writer 4 D))
          (load_abslineinfo (length xs))
          xs
  unfolding load_abslineinfo
  abslines_lem xs h =
      let count : length xs * 2 * 4 ≡ length xs * 8 = omega arith in
      RoundTrip-bind strip _ (align_lem strip 4) (
        rw (length-abs_words xs, pair_words-abs_words xs, count) at
          (words_lem strip (abs_words xs) pair_words (abs_words-All xs h)))

  pub abslineinfo_lem :
      (xs : List AbsLineInfo)
      → All FitsAbsLine xs
      → RoundTrip strip
          (if length xs == 0 then skip else (λ D.
            dump_bytes buffer_writer (le_words 4 (abs_words xs)) (dump_align buffer_writer 4 D)))
          (if length xs == 0 then pure [] else load_abslineinfo (length xs))
          xs
  abslineinfo_lem [] h = RoundTrip-pure strip []
  abslineinfo_lem (x ∷ xs) h =
      let some_left : (suc (length xs) == 0) ≡ false = ground arith in
      rw some_left (abslines_lem (x ∷ xs) h)
