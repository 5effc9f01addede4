-- ===== src/RoundTrip/Debugs.antt =====
-- The parts of a function besides the nested ones, and what a reader sees of them: dumpFunction and
-- loadFunction of lua/src/ldump.c and lua/src/lundump.c.
use luava.Base.{ℕ, ◌≡◌, refl, ap, arith, bit_and}
use luava.Base.{
  Bool, true, false, Option, none, List, [], ◌∷◌, map, length, length-map, ◌==◌, if◌then◌else◌, ◌⊎◌,
  inl, inr, All,
}
use mathlib.Core.List.{map-id}
use luava.Proto.{
  TString, Upvaldesc, LocVar, Body, Proto, Protos, IsByte, IsInt, FitsString, FitsUpvalue,
  FitsLocVar, FitsAbsLine, FitsBody,
}
use luava.Dump.{
  dump_byte, dump_each, dump_debug, dump_debug_as, dump_source, dump_locvar, dump_string,
}
use luava.Undump.{
  ◌>>=◌, pure, load_byte, load_each, load_debug, load_flag, load_string, load_locvar, set_names,
  Debug,
}
use luava.RoundTrip.Sync.{buffer_writer, Written-cong, RoundTrip, RoundTrip-bind, RoundTrip-map}
use luava.RoundTrip.Blocks.{byte_lem}
use luava.RoundTrip.Varint.{int_lem}
use luava.RoundTrip.Strings.{string_lem}
use luava.RoundTrip.Arrays.{unnamed, each_lem, locvar_lem, lineinfo_lem, abslineinfo_lem}

-- What of a prototype survives: PF_FIXED is dropped, and with `strip` the debug information.
unfoldable pub visible_body : Bool → Body → Body
visible_body strip f = record f {
  flag = bit_and f.flag 0xfb;
  upvalues = if strip then map unnamed f.upvalues else f.upvalues;
  lineinfo = if strip then [] else f.lineinfo;
  abslineinfo = if strip then [] else f.abslineinfo;
  locvars = if strip then [] else f.locvars;
  source = if strip then none else f.source;
}

unfoldable mutual
  pub visible : Bool → Proto → Proto
  visible strip (Proto.proto f ps) = Proto.proto (visible_body strip f) (visible_all strip ps)

  pub visible_all : Bool → Protos → Protos
  visible_all strip Protos.end = Protos.end
  visible_all strip (Protos.next p ps) = Protos.next (visible strip p) (visible_all strip ps)

-- The array that is left under a strip flag.
abbrev pub kept : {A : Type 0} → Bool → List A → List A
kept strip xs = if strip then [] else xs

pub length-kept :
    {A : Type 0} (strip : Bool) (xs : List A) → IsInt (length xs) → IsInt (length (kept strip xs))
length-kept true xs h = omega arith
length-kept false xs h = h

pub kept-All :
    {A : Type 0} (strip : Bool) (P : A → Type 0) (xs : List A) → All P xs → All P (kept strip xs)
kept-All true P xs h = tt
kept-All false P xs h = h

pub kept_cases :
    {A : Type 0} (strip : Bool) (xs : List A) → (kept strip xs ≡ []) ⊎ (kept strip xs ≡ xs)
kept_cases true xs = inl refl
kept_cases false xs = inr refl

pub names_All : (us : List Upvaldesc) → All FitsUpvalue us → All FitsString (map (λ u. u.name) us)
names_All [] h = tt
names_All (u ∷ us) (h, hs) = (h.0, names_All us hs)

pub names_count :
    (strip : Bool) (us : List Upvaldesc)
    → (if length (kept strip (map (λ u. u.name) us)) == 0 then 0 else length us)
      ≡ length (kept strip (map (λ u. u.name) us))
names_count true us = refl
names_count false [] = refl
names_count false (u ∷ us) = ground (arith, length-map us (λ u. u.name))

pub set_names_all : (us : List Upvaldesc) → set_names (map unnamed us) (map (λ u. u.name) us) ≡ us
unfolding set_names
set_names_all [] = refl
set_names_all (u ∷ us) = ap (λ t. u ∷ t) (set_names_all us)

pub set_names-kept :
    (strip : Bool) (us : List Upvaldesc)
    → set_names (map unnamed us) (kept strip (map (λ u. u.name) us))
      ≡ (if strip then map unnamed us else us)
unfolding set_names
set_names-kept true [] = refl
set_names-kept true (u ∷ us) = refl
set_names-kept false us = set_names_all us

module _ (strip : Bool) where
  pub strings_lem :
      (xs : List (Option TString))
      → All FitsString xs
      → RoundTrip strip
          (dump_each buffer_writer (dump_string buffer_writer) xs)
          (load_each (length xs) load_string)
          xs
  strings_lem xs h = rw map-id at (
      each_lem strip (dump_string buffer_writer) load_string (λ s. s) FitsString (string_lem strip)
        xs h)

  pub names_lem :
      (us : List Upvaldesc)
      → All FitsString (kept strip (map (λ u. u.name) us))
      → RoundTrip strip
          (dump_each buffer_writer (dump_string buffer_writer) (kept strip (map (λ u. u.name) us)))
          (load_each
            (if length (kept strip (map (λ u. u.name) us)) == 0 then 0 else length us)
            load_string)
          (kept strip (map (λ u. u.name) us))
  names_lem us h = rw (names_count strip us) (strings_lem (kept strip (map (λ u. u.name) us)) h)

  pub locvars_lem :
      (xs : List LocVar)
      → All FitsLocVar xs
      → RoundTrip strip
          (dump_each buffer_writer (dump_locvar buffer_writer) xs)
          (load_each (length xs) load_locvar)
          xs
  locvars_lem xs h = rw map-id at (
      each_lem strip (dump_locvar buffer_writer) load_locvar (λ s. s) FitsLocVar (locvar_lem strip)
        xs h)

  unfoldable pub debug_of : Body → Debug
  debug_of f = record {
    lineinfo = kept strip f.lineinfo;
    abslineinfo = kept strip f.abslineinfo;
    locvars = kept strip f.locvars;
    names = kept strip (map (λ u. u.name) f.upvalues);
  }

  pub debug_as_lem :
      (f : Body)
      → FitsBody f
      → RoundTrip strip
          (dump_debug_as buffer_writer strip f)
          (load_debug (length f.upvalues))
          (debug_of f)
  unfolding dump_debug_as load_debug debug_of
  debug_as_lem f h =
      let lines = kept strip f.lineinfo in
      let abs = kept strip f.abslineinfo in
      let vars = kept strip f.locvars in
      let names = kept strip (map (λ u. u.name) f.upvalues) in
      let names_short : IsInt (length names) =
        length-kept strip (map (λ u. u.name) f.upvalues) (rw length-map h.upvalues.0) in
      let names_fit : All FitsString names =
        kept-All strip FitsString _ (names_All f.upvalues h.upvalues.1) in
      RoundTrip-bind strip _
        (int_lem strip (length lines) (length-kept strip f.lineinfo h.lineinfo.0))
        (RoundTrip-bind strip _ (lineinfo_lem strip f lines (kept_cases strip f.lineinfo)) (
          RoundTrip-bind strip _
            (int_lem strip (length abs) (length-kept strip f.abslineinfo h.abslineinfo.0))
            (RoundTrip-bind strip _
              (abslineinfo_lem strip abs (kept-All strip FitsAbsLine f.abslineinfo h.abslineinfo.1))
              (RoundTrip-bind strip _
                (int_lem strip (length vars) (length-kept strip f.locvars h.locvars.0))
                (RoundTrip-bind strip _
                  (locvars_lem vars (kept-All strip FitsLocVar f.locvars h.locvars.1))
                  (RoundTrip-bind strip _ (int_lem strip (length names) names_short) (
                    RoundTrip-map strip
                      (λ ns. record {
                        lineinfo = lines;
                        abslineinfo = abs;
                        locvars = vars;
                        names = ns;
                      })
                      (names_lem f.upvalues names_fit))))))))

  pub debug_lem :
      (f : Body)
      → FitsBody f
      → RoundTrip strip (dump_debug buffer_writer f) (load_debug (length f.upvalues)) (debug_of f)
  unfolding dump_debug
  debug_lem f h D r =
      Written-cong strip _ (dump_debug_as buffer_writer strip f) (load_debug (length f.upvalues))
        (load_debug (length f.upvalues)) D (ap (λ s. dump_debug_as buffer_writer s f D) r.strips)
        (λ S s. refl) (debug_as_lem f h D r)

  pub source_fits :
      (f : Body) → FitsString f.source → (s : Bool) → FitsString (if s then none else f.source)
  source_fits f h true = tt
  source_fits f h false = h

  pub source_lem :
      (f : Body)
      → FitsString f.source
      → RoundTrip strip (dump_source buffer_writer f) load_string (if strip then none else f.source)
  unfolding dump_source
  source_lem f h D r =
      let source : Option TString = if strip then none else f.source in
      Written-cong strip _ (dump_string buffer_writer source) load_string load_string D
        (ap (λ (s : Bool). dump_string buffer_writer (if s then none else f.source) D) r.strips)
        (λ S s. refl) (string_lem strip source (source_fits f h strip) D r)

  pub flag_lem :
      (y : ℕ) → IsByte y → RoundTrip strip (dump_byte buffer_writer y) load_flag (bit_and y 0xfb)
  unfolding load_flag
  flag_lem y h D r =
      Written-cong strip (dump_byte buffer_writer y) (dump_byte buffer_writer y) load_flag
        (load_byte >>= λ b. pure (bit_and b 0xfb)) D refl (λ S s. rw s.copies)
        (RoundTrip-map strip (λ b. bit_and b 0xfb) (byte_lem strip y h) D r)
