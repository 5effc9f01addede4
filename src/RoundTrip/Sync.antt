-- ===== src/RoundTrip/Sync.antt =====
-- The relation between a dump in progress and a load in progress, and its rules for statements in
-- sequence. The dump goes to the buffer of string.dump (`writer` in lua/src/lstrlib.c).
use luava.Base.{ℕ, ◌^◌, ◌≤◌, ◌<◌, ◌≡◌, refl, sym, ap, ◌∙◌, arith}
use luava.Base.{
  Bool, false, Option, none, some, List, [], ◌++◌, length, append_assoc, append-nil, length-append,
}
use luava.Zio.Contents.{contents}
use luava.Proto.{TString}
use luava.Dump.{DumpState, Dump, skip, saved_index}
use luava.Undump.{LoadState, Load, ok, ◌>>=◌, pure, saved_string}

-- The writer of string.dump: a block is added to a buffer, which the NULL block leaves alone.
unfoldable pub buffer_writer : List ℕ → Option (List ℕ) → List ℕ × ℕ
buffer_writer sink none = (sink, 0)
buffer_writer sink (some b) = (sink ++ b, 0)

abbrev pub Buffered : Type 0
Buffered = DumpState (List ℕ)

-- Where the load has read all that was dumped, both count alike, and each saved string is found
-- under its index.
pub record Sync (D : Buffered) (S : LoadState) : Type 0 where
  pub offsets : S.offset ≡ D.offset
  pub counts : S.nstr ≡ D.nstr
  pub copies : S.fixed ≡ false
  pub indexed : (ts : TString) (i : ℕ) → saved_index ts D.h ≡ some i → (0 < i) × (i ≤ D.nstr)
  pub stored : (ts : TString) (i : ℕ) → saved_index ts D.h ≡ some i → saved_string i S.h ≡ some ts

abbrev pub Small : Buffered → Type 0
Small D = length D.sink < 2 ^ 64

-- From `S` the load returns `v`, in step with `D`, and leaves `rest`.
pub record Loads {A : Type 0} (l : Load A) (v : A) (D : Buffered) (S : LoadState) (rest : List ℕ)
    : Type 0 where
  pub after : LoadState
  pub returns : l S ≡ ok (v, after)
  pub in_step : Sync D after
  pub left : contents after.z ≡ rest

module _ (strip : Bool) where
  -- A dump without an error so far. Each saved string took a byte at least.
  pub record Ready (D : Buffered) : Type 0 where
    pub no_error : D.status ≡ 0
    pub strips : D.strip ≡ strip
    pub few : D.nstr ≤ length D.sink
    pub in_range : D.offset < 2 ^ 64
    pub counted : D.nstr < 2 ^ 64
    pub word_index : (ts : TString) (i : ℕ) → saved_index ts D.h ≡ some i → i < 2 ^ 64

  -- From `D` the dump adds `bytes`, and wherever these stand first the load reads them as `v`.
  pub record Written {A : Type 0} (m : Dump (List ℕ)) (l : Load A) (v : A) (D : Buffered)
      : Type 0 where
    pub bytes : List ℕ
    pub sink : (m D).sink ≡ D.sink ++ bytes
    pub ready : Ready (m D)
    pub loads :
        Small (m D)
        → (S : LoadState) (rest : List ℕ) → Sync D S
        → contents S.z ≡ bytes ++ rest
        → Loads l v (m D) S rest

  abbrev pub RoundTrip : {A : Type 0} → Dump (List ℕ) → Load A → A → Type 0
  RoundTrip m l v = (D : Buffered) → Ready D → Written m l v D

  -- At a state where both sides do what others do.
  pub Written-cong :
      {A : Type 0} (m k : Dump (List ℕ)) (l j : Load A) {v : A} (D : Buffered)
      → m D ≡ k D
      → ((S : LoadState) → Sync D S → l S ≡ j S)
      → Written k j v D
      → Written m l v D
  Written-cong m k l j D p q w = record {
    bytes = w.bytes;
    sink = ap (λ E. E.sink) p ∙ w.sink;
    ready = rw p w.ready;
    loads = λ small S rest s e.
        let got = w.loads (rw p at small) S rest s e in
        record {
          after = got.after;
          returns = q S s ∙ got.returns;
          in_step = rw p got.in_step;
          left = got.left;
        };
  }

  pub RoundTrip-pure : {A : Type 0} (v : A) → RoundTrip skip (pure v) v
  RoundTrip-pure v D r = record {
    bytes = [];
    sink = sym (append-nil D.sink);
    ready = r;
    loads = λ small S rest s e. record { after = S; returns = refl; in_step = s; left = e };
  }

  Loads-bind :
      {A B : Type 0} (l : Load A) (f : A → Load B) {v : A} {w : B} {D E : Buffered} {S : LoadState}
      {middle rest : List ℕ}
      → (first : Loads l v D S middle) → Loads (f v) w E first.after rest
      → Loads (l >>= f) w E S rest
  Loads-bind l f first second = record {
    after = second.after;
    returns = rw (first.returns, ◌>>=◌) second.returns;
    in_step = second.in_step;
    left = second.left;
  }

  Small-before : (D E : Buffered) (bytes : List ℕ) → E.sink ≡ D.sink ++ bytes → Small E → Small D
  Small-before D E bytes e small = omega (arith, ap (length {0}) e, length-append {0} D.sink bytes)

  -- One statement after the other, on both sides; from one state, and from any.
  pub Written-bind :
      {A B : Type 0} {m k : Dump (List ℕ)} {l : Load A} (f : A → Load B) {v : A} {w : B}
      {D : Buffered}
      → Written m l v D
      → Written k (f v) w (m D)
      → Written (λ E. k (m E)) (l >>= f) w D
  Written-bind {m} {k} {l} f {v} {w} {D} first second = record {
    bytes = first.bytes ++ second.bytes;
    sink =
        second.sink
        ∙ ap (λ t. t ++ second.bytes) first.sink
        ∙ append_assoc D.sink first.bytes second.bytes;
    ready = second.ready;
    loads = λ small S rest s e.
        let one =
          first.loads (Small-before (m D) (k (m D)) second.bytes second.sink small) S
            (second.bytes ++ rest) s (e ∙ append_assoc first.bytes second.bytes rest) in
        Loads-bind l f one (second.loads small one.after rest one.in_step one.left);
  }

  pub RoundTrip-bind :
      {A B : Type 0} {m k : Dump (List ℕ)} {l : Load A} (f : A → Load B) {v : A} {w : B}
      → RoundTrip m l v
      → RoundTrip k (f v) w
      → RoundTrip (λ D. k (m D)) (l >>= f) w
  RoundTrip-bind {m} f p q D r = let first = p D r in Written-bind f first (q (m D) first.ready)

  -- A result that is computed from what was read.
  pub RoundTrip-map :
      {A B : Type 0} {m : Dump (List ℕ)} {l : Load A} {v : A} (g : A → B)
      → RoundTrip m l v
      → RoundTrip m (l >>= λ x. pure (g x)) (g v)
  RoundTrip-map {v} g p = RoundTrip-bind (λ x. pure (g x)) p (RoundTrip-pure (g v))
