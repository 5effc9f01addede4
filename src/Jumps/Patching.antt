-- ===== src/Jumps/Patching.antt =====
-- luaK_patchlist of lua/src/lcode.c sends the jumps of a list to their target.
use luava.Base.{ℕ, zero, suc, ◌+◌, ◌-◌, ◌^◌, ◌<◌, ◌≡◌, ◌≢◌, ◌⊎◌, refl, ap, sym, ◌∙◌, arith, not}
use luava.Base.{◌&&◌, leb, ◌==◌, if◌then◌else◌, Bool-cases, inl, inr, update-beside}
use luava.Base.{List, [], ◌∷◌, length, All}
use luava.Base.Int.{ℤ, pos}
use luava.Opcodes.{get_opcode, getarg_b}
use luava.Opcodes.Modes.{test_t_mode}
use luava.Jumps.{no_reg, op_jmp, op_testset, done, destination, getjump}
use luava.Jumps.{getjumpcontrol, patchtestreg, patchlistaux, patchlist}
use luava.Jumps.Lists.{IsList, AreJumps, IsList-agree, All-map, fixjump-lem}

-- patchtestreg changes no jump, and nothing but the jump and the instruction before it.
patchtestreg-keeps :
    (code : ℕ → ℕ) (node reg q : ℕ)
    → get_opcode (code q) ≡ op_jmp
    → (patchtestreg code node reg).1 q ≡ code q
unfolding patchtestreg
patchtestreg-keeps code node reg q jump =
    let c = getjumpcontrol code node in
    elim (Bool-cases (get_opcode (code c) == op_testset)) [
      | inr other ↦ rw other refl
      | inl testset ↦
          let apart : q ≢ c =
            λ e. let same : get_opcode (code c) ≡ op_jmp = rw (← e) jump in absurd (ground arith) in
          elim (Bool-cases (not (reg == no_reg) && not (reg == getarg_b (code c)))) [
            | inl value ↦ rw (testset, value) (update-beside code c _ q apart)
            | inr plain ↦ rw (testset, plain) (update-beside code c _ q apart)
          ]
    ]

getjumpcontrol-near :
    (code : ℕ → ℕ) (node : ℕ)
    → (getjumpcontrol code node ≡ node) ⊎ (getjumpcontrol code node + 1 ≡ node)
unfolding getjumpcontrol
getjumpcontrol-near code node =
    elim (Bool-cases (leb 1 node && test_t_mode (get_opcode (code (node - 1))))) [
      | inl test ↦ rw test (inr (ground arith))
      | inr plain ↦ rw plain (inl refl)
    ]

patchtestreg-beside :
    (code : ℕ → ℕ) (node reg q : ℕ)
    → q ≢ node
    → q + 1 ≢ node
    → (patchtestreg code node reg).1 q ≡ code q
unfolding patchtestreg
patchtestreg-beside code node reg q here before =
    let c = getjumpcontrol code node in
    let apart : q ≢ c = λ e. elim (getjumpcontrol-near code node) [
      | inl is ↦ here (e ∙ is)
      | inr is ↦ before (ap (λ k. k + 1) e ∙ is)
    ] in
    elim (Bool-cases (get_opcode (code c) == op_testset)) [
      | inr other ↦ rw other refl
      | inl testset ↦ elim (Bool-cases (not (reg == no_reg) && not (reg == getarg_b (code c)))) [
        | inl value ↦ rw (testset, value) (update-beside code c _ q apart)
        | inr plain ↦ rw (testset, plain) (update-beside code c _ q apart)
      ]
    ]

destination-agree :
    (code code' : ℕ → ℕ) (p : ℕ) → code' p ≡ code p → destination code' p ≡ destination code p
unfolding destination
destination-agree code code' p e = rw e refl

AreJumps-agree :
    (code code' : ℕ → ℕ) (ps : List ℕ)
    → All (λ q. code' q ≡ code q) ps
    → AreJumps code ps
    → AreJumps code' ps
AreJumps-agree code code' [] same h = tt
AreJumps-agree code code' (p ∷ ps) (e, same) (jump, small, once, h) =
    (ap get_opcode e ∙ jump, small, once, AreJumps-agree code code' ps same h)

kept_jumps :
    {P : ℕ → Type 0} (code : ℕ → ℕ) (p : ℕ) (ps : List ℕ)
    → AreJumps code ps
    → All (λ q. q ≢ p) ps
    → ((q : ℕ) → get_opcode (code q) ≡ op_jmp → q ≢ p → P q)
    → All P ps
kept_jumps code p [] jumps apart f = tt
kept_jumps code p (q ∷ ps) (jump, small, once, jumps) (a, apart) f =
    (f q jump a, kept_jumps code p ps jumps apart f)

-- A jump that leads to one of two targets.
abbrev Leads : (ℕ → ℕ) → ℕ → ℕ → ℕ → Type 0
Leads code v d p = (destination code p ≡ pos v) ⊎ (destination code p ≡ pos d)

-- What the loop of patchlistaux does: the jumps of the list lead to a target, the other jumps stay,
-- and so does every instruction away from the list.
abbrev Patches : (ℕ → ℕ) → List ℕ → ℕ → ℕ → (ℕ → ℕ) → Type 0
Patches code ps v d code' =
    All (Leads code' v d) ps
    × ((q : ℕ) → get_opcode (code q) ≡ op_jmp → All (λ p. p ≢ q) ps → code' q ≡ code q)
    × ((q : ℕ) → All (λ p. (q ≢ p) × (q + 1 ≢ p)) ps → code' q ≡ code q)

patchlistaux-Patches :
    (fuel : ℕ) (code : ℕ → ℕ) (l : ℤ) (ps : List ℕ) (v reg d : ℕ)
    → length ps < fuel
    → v < 2 ^ 24
    → d < 2 ^ 24
    → AreJumps code ps
    → IsList code l ps
    → (code' : ℕ → ℕ) × (patchlistaux fuel code l v reg d ≡ done code') × Patches code ps v d code'
unfolding patchlistaux
patchlistaux-Patches zero code l ps v reg d few hv hd jumps h = absurd (omega arith)
patchlistaux-Patches (suc fuel) code l [] v reg d few hv hd jumps h =
    (code, rw h refl, (tt, (λ q j a. refl), λ q a. refl))
patchlistaux-Patches (suc fuel) code l (p ∷ ps) v reg d few hv hd (jump, small, once, jumps)
      (at, h) =
    let patched = (patchtestreg code p reg).0 in
    let code1 = (patchtestreg code p reg).1 in
    let target = if patched then v else d in
    let near : target < 2 ^ 24 = elim (Bool-cases patched) [
      | inl tested ↦ rw tested hv
      | inr plain ↦ rw plain hd
    ] in
    let (code2, fixed, dest, leads, opcode, others) = fixjump-lem code1 p target small near in
    let keeps : (q : ℕ) → get_opcode (code q) ≡ op_jmp → q ≢ p → code2 q ≡ code q =
      λ q j a. others q a ∙ patchtestreg-keeps code p reg q j in
    let same : All (λ q. code2 q ≡ code q) ps = kept_jumps code p ps jumps once keeps in
    let (code3, rest, (all_lead, jumps_stay, away)) =
      patchlistaux-Patches fuel code2 (getjump code p) ps v reg d (omega arith) hv hd
        (AreJumps-agree code code2 ps same jumps)
        (IsList-agree code code2 (getjump code p) ps same h) in
    let still : code3 p ≡ code2 p =
      jumps_stay p (opcode ∙ ap get_opcode (patchtestreg-keeps code p reg p jump) ∙ jump) once in
    let led = destination-agree code2 code3 p still ∙ dest in
    let lead : Leads code3 v d p = elim (Bool-cases patched) [
      | inl tested ↦ inl (led ∙ ap pos (rw tested refl))
      | inr plain ↦ inr (led ∙ ap pos (rw plain refl))
    ] in
    (
      code3,
      rw (at, fixed) rest,
      (
        (lead, all_lead),
        (λ q j (a, out).
            jumps_stay q (ap get_opcode (keeps q j (λ e. a (sym e))) ∙ j) out
            ∙ keeps q j (λ e. a (sym e))),
        (λ q ((a, b), out). away q out ∙ others q a ∙ patchtestreg-beside code p reg q a b),
      ),
    )

-- On a list of jumps whose positions are below 2^24 - 1, with a target below 2^24 and fuel beyond the
-- length of the list, luaK_patchlist succeeds: every jump of the list leads to the target, and all
-- other jumps, and all instructions that are neither in the list nor directly before a jump of it,
-- stay the same.
pub patchlist-destination :
    (fuel : ℕ) (code : ℕ → ℕ) (l : ℤ) (ps : List ℕ) (target : ℕ)
    → length ps < fuel
    → target < 2 ^ 24
    → AreJumps code ps
    → IsList code l ps
    → (code' : ℕ → ℕ) × (patchlist fuel code l target ≡ done code')
      × All (λ p. destination code' p ≡ pos target) ps
      × ((q : ℕ) → get_opcode (code q) ≡ op_jmp → All (λ p. p ≢ q) ps → code' q ≡ code q)
      × ((q : ℕ) → All (λ p. (q ≢ p) × (q + 1 ≢ p)) ps → code' q ≡ code q)
unfolding patchlist
patchlist-destination fuel code l ps target few near jumps h =
    let (code', e, (all_lead, jumps_stay, away)) =
      patchlistaux-Patches fuel code l ps target no_reg target few near near jumps h in
    (code', e, All-map ps (λ p r. elim r [ inl x ↦ x | inr x ↦ x ]) all_lead, jumps_stay, away)
