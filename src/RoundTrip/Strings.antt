-- ===== src/RoundTrip/Strings.antt =====
-- dumpString against loadString: a string goes out once, and by its index from then on.
use luava.Base.{ℕ, ◌+◌, ◌-◌, ◌%◌, ◌^◌, ◌<◌, ◌≡◌, refl, sym, ap, ◌∙◌, arith}
use luava.Base.{
  Bool, true, false, Option, none, some, List, [], ◌∷◌, ◌++◌, append-nil, length, length-append,
  Bool-cases, Option-cases, leb, ◌==◌, if◌then◌else◌, inl, inr, take, take-append_self,
}
use luava.Proto.{TString, FitsString, maxshortlen, max_unsigned, max_size}
use luava.Dump.{
  Dump, dump_bytes, dump_block, dump_varint, dump_new_string, dump_string, saved_index, str_eq,
}
use luava.Undump.{
  LoadState, Load, ◌>>=◌, load_block, load_size, load_varint, load_new_string, load_saved_string,
  load_string, save_string, saved_string,
}
use luava.RoundTrip.Sync.{
  buffer_writer, Buffered, Sync, Ready, Written, Written-cong, RoundTrip, Written-bind,
  RoundTrip-bind, RoundTrip-pure,
}
use luava.RoundTrip.Blocks.{block_lem}
use luava.RoundTrip.Varint.{varint_lem, size_lem}

pub str_eq-eq : (s t : TString) → str_eq s t ≡ true → s ≡ t
unfolding str_eq
str_eq-eq [] [] h = refl
str_eq-eq [] (d ∷ ds) h = absurd (cc)
str_eq-eq (c ∷ cs) [] h = absurd (cc)
str_eq-eq (c ∷ cs) (d ∷ ds) h = ground (arith, str_eq-eq cs ds)

pub str_eq_refl : (s : TString) → str_eq s s ≡ true
unfolding str_eq
str_eq_refl [] = refl
str_eq_refl (c ∷ cs) = ground (arith, str_eq_refl cs)

-- The end of dumpString: the string is saved under the next index.
abbrev save : TString → Buffered → Buffered
save ts D = let n = (D.nstr + 1) % 2 ^ 64 in record D { nstr = n; h = (ts, n) ∷ D.h }

save-in_step :
    (ts : TString) (D : Buffered) (S : LoadState)
    → D.nstr + 1 < 2 ^ 64
    → Sync D S
    → Sync
        (save ts D)
        (record S { nstr = (S.nstr + 1) % 2 ^ 64; h = ((S.nstr + 1) % 2 ^ 64, ts) ∷ S.h })
unfolding saved_index saved_string
save-in_step ts D S h s = record {
  offsets = s.offsets;
  counts = rw s.counts;
  copies = s.copies;
  indexed = λ t i e. ground (arith, s.indexed t i);
  stored = λ t i e. ground (arith, s.counts, s.indexed t i, s.stored t i, str_eq-eq t ts);
}

-- What loadString does once it has the size.
abbrev after_size : ℕ → Load (Option TString)
after_size size =
    if size == 0
    then (load_varint max_unsigned >>= load_saved_string)
    else load_new_string (size - 1)

after_size_pos : (n : ℕ) → after_size (n + 1) ≡ load_new_string n
after_size_pos n =
    let e : (n + 1 == 0) ≡ false = ground arith in
    let back : n + 1 - 1 ≡ n = omega arith in rw (e, back)

module _ (strip : Bool) where
  save-Ready :
      (ts : TString) (D : Buffered)
      → D.nstr < length D.sink
      → Ready strip D
      → Ready strip (save ts D)
  unfolding saved_index
  save-Ready ts D h r = record {
    no_error = r.no_error;
    strips = r.strips;
    few = omega (arith, r.few);
    in_range = r.in_range;
    counted = omega arith;
    word_index = λ t i e. ground (arith, r.word_index t i);
  }

  -- A string that was read is saved on both sides.
  save_lem :
      {A : Type 0} (m : Dump (List ℕ)) (l : Load A) (v : A) (g : A → TString) (D : Buffered)
      → (w : Written strip m l v D) → (m D).nstr < length (m D).sink
      → Written strip (λ E. save (g v) (m E)) (l >>= λ x. save_string (g x)) (some (g v)) D
  unfolding save_string
  save_lem m l v g D w h = record {
    bytes = w.bytes;
    sink = w.sink;
    ready = save-Ready (g v) (m D) h w.ready;
    loads = λ small S rest s e.
        let got = w.loads small S rest s e in
        record {
          after = record got.after {
            nstr = (got.after.nstr + 1) % 2 ^ 64;
            h = ((got.after.nstr + 1) % 2 ^ 64, g v) ∷ got.after.h;
          };
          returns = rw (got.returns, ◌>>=◌);
          in_step = save-in_step (g v) (m D) got.after (omega arith) got.in_step;
          left = got.left;
        };
  }

  -- A block leaves the count of the strings alone and adds its bytes.
  dump_bytes_step :
      (b : List ℕ) (D : Buffered)
      → D.status ≡ 0
      → ((dump_bytes buffer_writer b D).sink ≡ D.sink ++ b)
        × ((dump_bytes buffer_writer b D).nstr ≡ D.nstr)
  unfolding dump_bytes dump_block buffer_writer
  dump_bytes_step b D e = (rw e, rw e)

  -- The contents of a new string: its bytes and the final '\0'.
  contents_lem :
      (ts : TString)
      → RoundTrip strip
          (λ D. save ts (dump_bytes buffer_writer (ts ++ (0 ∷ [])) D))
          (load_block (length ts + 1) >>= λ b. save_string (take (length ts) b))
          (some ts)
  contents_lem ts D r =
      let b = ts ++ (0 ∷ []) in
      let (sink, nstr) = dump_bytes_step b D r.no_error in
      let len : length b ≡ length ts + 1 = length-append {0} ts (0 ∷ []) in
      let room : (dump_bytes buffer_writer b D).nstr < length (dump_bytes buffer_writer b D).sink =
        omega (arith, r.few, nstr, ap (length {0}) sink, length-append {0} D.sink b) in
      rw (take-append_self, len) at
        (save_lem (dump_bytes buffer_writer b) (load_block (length b)) b (take (length ts)) D
          (block_lem strip b D r) room)

  load_new_string_copies :
      (size : ℕ) (S : LoadState)
      → S.fixed ≡ false
      → load_new_string size S ≡ (load_block (size + 1) >>= λ b. save_string (take size b)) S
  unfolding load_new_string
  load_new_string_copies size S h = elim (Bool-cases (leb size maxshortlen)) [
    | inl short ↦ rw short
    | inr long ↦ rw (long, h)
  ]

  new_string_lem :
      (ts : TString)
      → length ts + 1 < 2 ^ 63
      → RoundTrip strip (dump_new_string buffer_writer ts) load_string (some ts)
  unfolding dump_new_string load_string
  new_string_lem ts h = RoundTrip-bind strip after_size (size_lem strip (length ts + 1) h) λ D r.
      Written-cong strip _ (λ E. save ts (dump_bytes buffer_writer (ts ++ (0 ∷ [])) E)) _
        (load_block (length ts + 1) >>= λ b. save_string (take (length ts) b)) D refl
        (λ S s.
          ap (λ l. l S) (after_size_pos (length ts))
          ∙ load_new_string_copies (length ts) S s.copies)
        (contents_lem ts D r)

  -- `x` goes out, and the table of strings is as it was.
  dump_varint-h : (x : ℕ) (D : Buffered) → D.status ≡ 0 → (dump_varint buffer_writer x D).h ≡ D.h
  unfolding dump_varint dump_bytes dump_block
  dump_varint-h x D e = rw e

  -- An index of the table stands for the string that was saved under it.
  index_lem :
      (ts : TString) (i : ℕ) (D : Buffered)
      → Ready strip D
      → saved_index ts D.h ≡ some i
      → Written strip (λ E. E) (load_saved_string i) (some ts) D
  unfolding load_saved_string
  index_lem ts i D r e = record {
    bytes = [];
    sink = sym (append-nil D.sink);
    ready = r;
    loads = λ small S rest s c.
        let pos : (i == 0) ≡ false = ground (arith, s.indexed ts i e) in
        record { after = S; returns = rw (pos, s.stored ts i e); in_step = s; left = c };
  }

  zero_size_lem : RoundTrip strip (dump_varint buffer_writer 0) load_size 0
  unfolding load_size
  zero_size_lem = varint_lem strip 0 max_size (omega arith) (omega arith)

  saved_string_lem :
      (ts : TString) (i : ℕ) (D : Buffered)
      → Ready strip D
      → saved_index ts D.h ≡ some i
      → Written strip
          (λ E. dump_varint buffer_writer i (dump_varint buffer_writer 0 E))
          load_string
          (some ts)
          D
  unfolding load_string
  saved_string_lem ts i D r e =
      let zero_size = zero_size_lem D r in
      let D1 = dump_varint buffer_writer 0 D in
      let e1 : saved_index ts D1.h ≡ some i = rw (dump_varint-h 0 D r.no_error) e in
      let index =
        varint_lem strip i max_unsigned (omega (arith, r.word_index ts i e)) (omega arith) D1
          zero_size.ready in
      let e2 : saved_index ts (dump_varint buffer_writer i D1).h ≡ some i =
        rw (dump_varint-h i D1 zero_size.ready.no_error) e1 in
      Written-bind strip after_size zero_size
        (Written-bind strip load_saved_string index (index_lem ts i _ index.ready e2))

  null_lem :
      RoundTrip strip
        (λ D. dump_varint buffer_writer 0 (dump_varint buffer_writer 0 D))
        load_string
        none
  unfolding load_string load_saved_string
  null_lem = RoundTrip-bind strip after_size zero_size_lem (
      RoundTrip-bind strip load_saved_string
        (varint_lem strip 0 max_unsigned (omega arith) (omega arith)) (RoundTrip-pure strip none))

  -- Where the load is in step with a dump to memory without an error, and its buffer is not fixed,
  -- loadString reads back a string of fewer than 2^63 - 1 bytes, or NULL, that dumpString wrote, whether
  -- it is written out or stands for an earlier one, and is in step again, where the dump so far has
  -- fewer than 2^64 bytes.
  pub string_lem :
      (s : Option TString)
      → FitsString s
      → RoundTrip strip (dump_string buffer_writer s) load_string s
  unfolding dump_string
  string_lem none h D r = null_lem D r
  string_lem (some ts) h D r = elim (Option-cases (saved_index ts D.h)) [
    | inl fresh ↦
        Written-cong strip _ (dump_new_string buffer_writer ts) load_string load_string D
          (rw (fresh, dump_string)) (λ S s. refl) (new_string_lem ts h D r)
    | inr (i, saved) ↦
        Written-cong strip _ (λ E. dump_varint buffer_writer i (dump_varint buffer_writer 0 E))
          load_string load_string D (rw (saved, dump_string)) (λ S s. refl)
          (saved_string_lem ts i D r saved)
  ]
