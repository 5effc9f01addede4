-- ===== src/Zio/Contents.antt =====
-- What a stream still holds, as one list of bytes: the view under which the buffering is invisible.
use luava.Base.{ℕ, zero, suc, ◌-◌, ◌≤◌, ◌<◌, ◌≡◌, refl, sym, ◌∙◌, min, arith, inl, inr}
use luava.Base.{
  Bool, true, false, Option, none, some, List, [], ◌∷◌, ◌++◌, length, take, drop, Bool-cases,
  if◌then◌else◌, ltb,
}
use luava.Base.{
  append_assoc, append-nil, length-append, length-drop, take_parts, drop_parts, take-append_le,
  drop-append_le,
}
use luava.Zio.{Zio, Read, fill_from, get_char_from, get_char, check_buffer_from, check_buffer}
use luava.Zio.{read_loop, read, get_addr}

-- The blocks that the reader hands out before its first empty answer.
unfoldable pub delivered : List (List ℕ) → List ℕ
delivered [] = []
delivered ([] ∷ ps) = []
delivered ((c ∷ cs) ∷ ps) = (c ∷ cs) ++ delivered ps

unfoldable pub contents : Zio → List ℕ
contents z = z.buffer ++ delivered z.pieces

contents-buffer :
    (cs : List ℕ) (ps : List (List ℕ))
    → contents (record { buffer = cs; pieces = ps }) ≡ cs ++ delivered ps
unfolding contents
contents-buffer cs ps = refl

-- zgetc takes the first byte of the contents, whatever lies in the buffer.
get_char_from-cons :
    (cs : List ℕ) (ps : List (List ℕ)) (c : ℕ) (rest : List ℕ)
    → cs ++ delivered ps ≡ c ∷ rest
    → (z : Zio) × (get_char_from cs ps ≡ some (c, z)) × (contents z ≡ rest)
unfolding get_char_from fill_from contents delivered
get_char_from-cons (x ∷ cs) ps c rest h = (record { buffer = cs; pieces = ps }, cc, cc)
get_char_from-cons [] [] c rest h = absurd (cc)
get_char_from-cons [] ([] ∷ ps) c rest h = absurd (cc)
get_char_from-cons [] ((x ∷ cs) ∷ ps) c rest h = (record { buffer = cs; pieces = ps }, cc, cc)

pub get_char-cons :
    (z : Zio) (c : ℕ) (rest : List ℕ)
    → contents z ≡ c ∷ rest
    → (z' : Zio) × (get_char z ≡ some (c, z')) × (contents z' ≡ rest)
unfolding get_char contents
get_char-cons z c rest h = get_char_from-cons z.buffer z.pieces c rest h

get_char_from-nil :
    (cs : List ℕ) (ps : List (List ℕ)) → cs ++ delivered ps ≡ [] → get_char_from cs ps ≡ none
unfolding get_char_from fill_from delivered
get_char_from-nil (x ∷ cs) ps h = absurd (cc)
get_char_from-nil [] [] h = refl
get_char_from-nil [] ([] ∷ ps) h = refl
get_char_from-nil [] ((x ∷ cs) ∷ ps) h = absurd (cc)

-- zgetc is EOZ where the contents are used up.
pub get_char-nil : (z : Zio) → contents z ≡ [] → get_char z ≡ none
unfolding get_char contents
get_char-nil z h = get_char_from-nil z.buffer z.pieces h

-- checkbuffer keeps the contents, and says whether a byte is there, which then lies in the buffer.
record IsChecked (z : Zio) (r : Bool × Zio) : Type 0 where
  keeps : r.0 ≡ true → contents r.1 ≡ contents z
  ready : r.0 ≡ true → 0 < length r.1.buffer
  spent : r.0 ≡ false → contents z ≡ []

check_buffer_from-IsChecked :
    (cs : List ℕ) (ps : List (List ℕ))
    → IsChecked (record { buffer = cs; pieces = ps }) (check_buffer_from cs ps)
unfolding check_buffer_from fill_from contents delivered
check_buffer_from-IsChecked (x ∷ cs) ps = record {
  keeps = λ e. refl;
  ready = λ e. omega arith;
  spent = λ e. absurd (cc);
}
check_buffer_from-IsChecked [] [] = record {
  keeps = λ e. absurd (cc);
  ready = λ e. absurd (cc);
  spent = λ e. refl;
}
check_buffer_from-IsChecked [] ([] ∷ ps) = record {
  keeps = λ e. absurd (cc);
  ready = λ e. absurd (cc);
  spent = λ e. refl;
}
check_buffer_from-IsChecked [] ((x ∷ cs) ∷ ps) = record {
  keeps = λ e. refl;
  ready = λ e. omega arith;
  spent = λ e. absurd (cc);
}

check_buffer-IsChecked : (z : Zio) → IsChecked z (check_buffer z)
unfolding check_buffer
check_buffer-IsChecked z = check_buffer_from-IsChecked z.buffer z.pieces

-- One round: `m` bytes of the buffer, then the rest.
take_round :
    (m n : ℕ) (buffer more : List ℕ)
    → m ≤ n
    → m ≤ length buffer
    → take n (buffer ++ more) ≡ take m buffer ++ take (n - m) (drop m buffer ++ more)
take_round m n buffer more h k = rw (
  take_parts m n (n - m) (buffer ++ more) (omega arith),
  take-append_le m buffer more k,
  drop-append_le m buffer more k,
)

drop_round :
    (m n : ℕ) (buffer more : List ℕ)
    → m ≤ n
    → m ≤ length buffer
    → drop n (buffer ++ more) ≡ drop (n - m) (drop m buffer ++ more)
drop_round m n buffer more h k =
    rw (drop_parts m n (n - m) (buffer ++ more) (omega arith), drop-append_le m buffer more k)

-- `n` bytes of the contents are taken, or all there are; `out` was taken before.
pub record IsRead (n : ℕ) (out : List ℕ) (whole : List ℕ) (r : Read) : Type 0 where
  pub taken : r.bytes ≡ out ++ take n whole
  pub short : r.missing ≡ n - length whole
  pub left : n ≤ length whole → contents r.stream ≡ drop n whole

IsRead-round :
    (m n : ℕ) (out buffer more : List ℕ) {r : Read}
    → m ≤ n
    → m ≤ length buffer
    → IsRead (n - m) (out ++ take m buffer) (drop m buffer ++ more) r
    → IsRead n out (buffer ++ more) r
IsRead-round m n out buffer more h k r = record {
  taken = r.taken ∙ rw (take_round m n buffer more h k) (append_assoc out (take m buffer) _);
  short = omega (
    arith,
    r.short,
    length-append (drop m buffer) more,
    length-append buffer more,
    length-drop m buffer,
  );
  left = λ e.
      r.left (
        omega (
          arith,
          length-append (drop m buffer) more,
          length-append buffer more,
          length-drop m buffer,
        ))
      ∙ sym (drop_round m n buffer more h k);
}

IsRead-spent :
    (n : ℕ) (out : List ℕ) (z : Zio) (whole : List ℕ)
    → whole ≡ []
    → IsRead (suc n) out whole (record { missing = suc n; bytes = out; stream = z })
IsRead-spent n out z whole h =
    rw h (record { taken = rw append-nil; short = omega arith; left = λ e. absurd (omega arith) })

read_loop-IsRead :
    (fuel n : ℕ) (out : List ℕ) (z : Zio)
    → n ≤ fuel
    → IsRead n out (contents z) (read_loop fuel n out z)
unfolding read_loop contents
read_loop-IsRead zero zero out z h = record {
  taken = rw append-nil;
  short = omega arith;
  left = λ e. refl;
}
read_loop-IsRead (suc fuel) zero out z h = record {
  taken = rw append-nil;
  short = omega arith;
  left = λ e. refl;
}
read_loop-IsRead zero (suc n) out z h = absurd (omega arith)
read_loop-IsRead (suc fuel) (suc n) out z h =
    let c = check_buffer-IsChecked z in
    let z' = (check_buffer z).1 in
    let m = min (suc n) (length z'.buffer) in
    elim (Bool-cases (check_buffer z).0) [
      | inl more ↦
          let ready : 0 < length z'.buffer = c.ready more in
          rw (more, ← c.keeps more)
            (IsRead-round m (suc n) out z'.buffer (delivered z'.pieces) (omega arith) (omega arith)
              (read_loop-IsRead fuel (suc n - m) (out ++ take m z'.buffer)
                (record z' { buffer = drop m z'.buffer }) (omega arith)))
      | inr end ↦ rw end (IsRead-spent n out z' (contents z) (c.spent end))
    ]

-- luaZ_read copies the first `n` bytes of the contents and leaves the others; where there are
-- fewer it copies all and returns the number of those missing.
pub read-IsRead : (z : Zio) (n : ℕ) → IsRead n [] (contents z) (read z n)
unfolding read
read-IsRead z n = read_loop-IsRead n n [] z (omega arith)

fits_buffer :
    (n : ℕ) (buffer more whole block : List ℕ) (ps : List (List ℕ)) (z' : Zio)
    → buffer ++ more ≡ whole
    → if◌then◌else◌ {A = Option (List ℕ × Zio)}
        (ltb (length buffer) n)
        none
        (some (take n buffer, record { buffer = drop n buffer; pieces = ps }))
      ≡ some (block, z')
    → (block ≡ take n whole)
      × (z'.buffer ++ more ≡ drop n whole)
      × (z'.pieces ≡ ps)
      × (n ≤ length whole)
fits_buffer n buffer more whole block ps z' e h =
    ground
      (arith, length-append buffer more, take-append_le n buffer more, drop-append_le n buffer more)

-- luaZ_getaddr returns the same bytes as luaZ_read and leaves the same contents, where it returns
-- a block at all.
pub get_addr_sound :
    (z : Zio) (n : ℕ) (block : List ℕ) (z' : Zio)
    → get_addr z n ≡ some (block, z')
    → (block ≡ take n (contents z))
      × (contents z' ≡ drop n (contents z))
      × (n ≤ length (contents z))
unfolding get_addr contents
get_addr_sound z n block z' h =
    let c = check_buffer-IsChecked z in
    let z1 = (check_buffer z).1 in
    elim (Bool-cases (check_buffer z).0) [
      | inl e ↦
          let (same, rest, pieces, fits) =
            fits_buffer n z1.buffer (delivered z1.pieces) (contents z) block z1.pieces z'
              (c.keeps e) (rw e at h) in
          (same, rw pieces rest, fits)
      | inr e ↦ absurd (cc (rw e at h))
    ]
