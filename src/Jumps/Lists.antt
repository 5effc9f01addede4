-- ===== src/Jumps/Lists.antt =====
-- luaK_concat of lua/src/lcode.c links two lists of jumps.
use luava.Base.{ℕ, zero, suc, ◌+◌, ◌-◌, ◌^◌, ◌<◌, ◌≡◌, ◌≢◌, refl, ap, sym, ◌∙◌, arith, true, false}
use luava.Base.{◌&&◌, leb, Bool-cases, inl, inr, update, update-at, update-beside}
use luava.Base.{List, [], ◌∷◌, ◌++◌, append-nil, length, All}
use luava.Base.Int.{ℤ, pos, negsuc, pos_part, neg_part, ◌+ℤ◌, ◌-ℤ◌, int_laws}
use luava.Opcodes.{get_opcode, setarg_sj, offset_sj, maxarg_sj}
use luava.Opcodes.Setting.{getarg_sj-setarg_sj}
use luava.Jumps.{no_jump, is_no_jump, op_jmp, done, destination, getjump, fixjump, last_of}
use luava.Jumps.{concat}

-- The list that starts at `l` consists of the jumps at `ps`.
abbrev pub IsList : (ℕ → ℕ) → ℤ → List ℕ → Type 0
IsList code l [] = l ≡ no_jump
IsList code l (p ∷ ps) = (l ≡ pos p) × IsList code (getjump code p) ps

-- The positions are those of jumps, each once, and small enough for their distances to fit.
abbrev pub AreJumps : (ℕ → ℕ) → List ℕ → Type 0
AreJumps code [] = Unit
AreJumps code (p ∷ ps) =
    (get_opcode (code p) ≡ op_jmp) × (p + 1 < 2 ^ 24) × All (λ q. q ≢ p) ps × AreJumps code ps

-- Two sets of instructions that agree on the jumps of a list.
pub getjump-agree :
    (code code' : ℕ → ℕ) (p : ℕ) → code' p ≡ code p → getjump code' p ≡ getjump code p
unfolding getjump destination
getjump-agree code code' p e = rw e refl

pub IsList-agree :
    (code code' : ℕ → ℕ) (l : ℤ) (ps : List ℕ)
    → All (λ q. code' q ≡ code q) ps
    → IsList code l ps
    → IsList code' l ps
IsList-agree code code' l [] same h = h
IsList-agree code code' l (p ∷ ps) (e, same) (at, h) =
    (at, rw (getjump-agree code code' p e) (IsList-agree code code' (getjump code p) ps same h))

distance : (a b : ℕ) → (neg_part (pos a -ℤ pos b) ≡ b - a) × (pos_part (pos a -ℤ pos b) ≡ a - b)
unfolding ◌-ℤ◌
distance a b = (ground arith, ground arith)

-- fixjump succeeds on near positions, and the jump leads to its target.
pub fixjump-lem :
    (code : ℕ → ℕ) (p dest : ℕ)
    → p + 1 < 2 ^ 24
    → dest < 2 ^ 24
    → (code' : ℕ → ℕ) × (fixjump code p dest ≡ done code')
      × (destination code' p ≡ pos dest)
      × (dest ≢ p → getjump code' p ≡ pos dest)
      × (get_opcode (code' p) ≡ get_opcode (code p))
      × ((q : ℕ) → q ≢ p → code' q ≡ code q)
unfolding fixjump destination getjump
fixjump-lem code p dest small near =
    let offset = pos dest -ℤ pos (p + 1) in
    let (minus, plus) = distance dest (p + 1) in
    let (read, opcode) =
      getarg_sj-setarg_sj (code p) offset (rw minus (omega arith)) (rw plus (omega arith)) in
    let fits : (leb (neg_part offset) offset_sj && leb (pos_part offset) (maxarg_sj - offset_sj))
        ≡ true =
      rw (minus, plus) (ground arith) in
    let here = update-at code p (setarg_sj (code p) offset) in
    let leads : pos (p + 1) +ℤ offset ≡ pos dest = omega int_laws in
    (
      update code p (setarg_sj (code p) offset),
      rw fits refl,
      rw (here, read) leads,
      (λ apart. rw (here, read, near_offset apart) leads),
      rw here opcode,
      λ q h. update-beside code p (setarg_sj (code p) offset) q h,
    )
  where
    no_jump_of : (d : ℤ) → is_no_jump d ≡ true → d ≡ negsuc 0
    no_jump_of (negsuc n) h = ap negsuc (ground arith)
    no_jump_of (pos n) h = absurd (ground arith)

    near_offset : dest ≢ p → is_no_jump (pos dest -ℤ pos (p + 1)) ≡ false
    near_offset apart = elim (Bool-cases (is_no_jump (pos dest -ℤ pos (p + 1)))) [
      | inl self ↦
          let is = no_jump_of (pos dest -ℤ pos (p + 1)) self in
          let parts : pos_part (pos dest -ℤ pos (p + 1)) + 1 ≡ neg_part (pos dest -ℤ pos (p + 1)) =
            rw is refl in
          absurd (omega int_laws)
      | inr other ↦ other
    ]

-- What luaK_concat finds: a jump `x` of the list, behind which another list makes a longer one.
abbrev IsLastOf : (ℕ → ℕ) → ℕ → List ℕ → ℕ → Type 1
IsLastOf code p ps x =
    ((P : ℕ → Type 0) → All P (p ∷ ps) → P x)
    × ((code' : ℕ → ℕ) (l : ℤ) (qs : List ℕ)
        → ((y : ℕ) → y ≢ x → code' y ≡ code y)
        → getjump code' x ≡ l
        → IsList code' l qs
        → IsList code' (pos p) (p ∷ (ps ++ qs)))

last_of-IsLastOf :
    (fuel : ℕ) (code : ℕ → ℕ) (p : ℕ) (ps : List ℕ)
    → length ps < fuel
    → AreJumps code (p ∷ ps)
    → IsList code (getjump code p) ps
    → (x : ℕ) × (last_of fuel code p ≡ done x) × IsLastOf code p ps x
unfolding last_of
last_of-IsLastOf zero code p ps few jumps h = absurd (omega arith)
last_of-IsLastOf (suc fuel) code p [] few jumps h =
    (p, rw h refl, ((λ P a. a.0), λ code' l qs same leads rest. (refl, rw leads rest)))
last_of-IsLastOf (suc fuel) code p (q ∷ ps) few (jump, small, apart, jumps) (leads, h) =
    let (x, found, (inside, longer)) = last_of-IsLastOf fuel code q ps (omega arith) jumps h in
    (
      x,
      rw leads found,
      (
        (λ P a. inside P a.1),
        λ code' l qs same leads' rest.
            let keeps : getjump code' p ≡ pos q =
              getjump-agree code code' p (same p (λ e. inside (λ y. y ≢ p) apart (sym e)))
              ∙ leads in
            (refl, rw keeps (longer code' l qs same leads' rest)),
      ),
    )

-- The list from a NO_JUMP or the first position.
pub AreJumps-at :
    (code : ℕ → ℕ) (ps : List ℕ)
    → AreJumps code ps
    → All (λ p. (get_opcode (code p) ≡ op_jmp) × (p + 1 < 2 ^ 24)) ps
AreJumps-at code [] h = tt
AreJumps-at code (p ∷ ps) (jump, small, apart, h) = ((jump, small), AreJumps-at code ps h)

pub All-map : {P Q : ℕ → Type 0} (ps : List ℕ) → ((p : ℕ) → P p → Q p) → All P ps → All Q ps
All-map [] f h = tt
All-map (p ∷ ps) f (h, t) = (f p h, All-map ps f t)

-- Where two lists of jumps have no position in common and all their positions are below 2^24 - 1,
-- luaK_concat, with fuel beyond the length of the first, succeeds and gives the list of all the
-- positions of the first and then of the second, NO_JUMP being the empty list, and changes no
-- instruction outside the first list.
pub concat-IsList :
    (fuel : ℕ) (code : ℕ → ℕ) (l1 l2 : ℤ) (ps qs : List ℕ)
    → length ps < fuel + 1
    → AreJumps code ps
    → AreJumps code qs
    → All (λ p. All (λ q. q ≢ p) qs) ps
    → IsList code l1 ps
    → IsList code l2 qs
    → (l : ℤ) × (code' : ℕ → ℕ) × (concat fuel code l1 l2 ≡ done (l, code'))
      × IsList code' l (ps ++ qs)
      × ((k : ℕ) → All (λ p. k ≢ p) ps → code' k ≡ code k)
unfolding concat
concat-IsList fuel code l1 l2 ps [] few jumps more apart h e =
    (l1, code, rw e refl, rw (append-nil ps) h, λ k out. refl)
concat-IsList fuel code l1 l2 [] (q ∷ qs) few jumps more apart h (e, t) =
    (pos q, code, rw (h, e) refl, (refl, t), λ k out. refl)
concat-IsList fuel code l1 l2 (p ∷ ps) (q ∷ qs) few jumps (jump, small, once, rest) apart (at, h)
      (e, t) =
    let (x, found, (inside, longer)) = last_of-IsLastOf fuel code p ps (omega arith) jumps h in
    let low = (inside _ (AreJumps-at code (p ∷ ps) jumps)).1 in
    let away = inside _ apart in
    let (code', fixed, dest, leads, opcode, others) = fixjump-lem code x q low (omega arith) in
    (
      pos p,
      code',
      rw (at, e, found, fixed) refl,
      longer code' (pos q) (q ∷ qs) others (leads away.0)
          (IsList-agree code code' (pos q) (q ∷ qs) (All-map (q ∷ qs) others away) (refl, t)),
      λ k out. others k (inside _ out),
    )
