-- ===== src/Jumps/Tests.antt =====
-- Runs of the jump lists of lua/src/lcode.c.
use luava.Base.{ℕ, ◌+◌, ◌*◌, ◌^◌, ◌≡◌, ◌≢◌, refl, arith, ◌==◌, if◌then◌else◌, [], ◌∷◌, ◌++◌, All}
use luava.Base.Int.{ℤ, pos, ◌+ℤ◌, ◌-ℤ◌}
use luava.Opcodes.{
  shl, complement, mask1, mask0, getarg, setarg, setarg_a, getarg_sj, setarg_sj, getarg_b, getarg_k,
  create_abck, get_opcode,
}
use luava.Opcodes.Modes.{test_t_mode}
use luava.Jumps.{
  no_jump, op_jmp, Outcome, done, destination, getjump, fixjump, last_of, concat, patchlist,
  patchlistaux, patchtestreg,
}
use luava.Jumps.{getjumpcontrol}
use luava.Jumps.Lists.{IsList, AreJumps, concat-IsList}
use luava.Jumps.Patching.{patchlist-destination}

-- OP_JMP with NO_JUMP, and OP_TESTSET 3 7.
abbrev jump_word : ℕ
jump_word = 16777214 * 128 + 56

abbrev testset_word : ℕ
testset_word = 7 * 2 ^ 16 + 3 * 128 + 67

-- Jumps at 2 and at 5, the second one after a test.
abbrev words : ℕ → ℕ
words k =
    if k == 2 then jump_word else if k == 5 then jump_word else if k == 4 then testset_word else 0

words-AreJumps : AreJumps words (2 ∷ []) × AreJumps words (5 ∷ [])
unfolding get_opcode mask1 shl complement
words-AreJumps = ((refl, omega arith, tt, tt), (refl, omega arith, tt, tt))

words-IsList : IsList words (pos 2) (2 ∷ []) × IsList words (pos 5) (5 ∷ [])
unfolding getjump getarg_sj getarg mask1 shl complement ◌-ℤ◌
words-IsList = ((refl, refl), (refl, refl))

abbrev leads_to : ℕ → Outcome (ℕ → ℕ) → ℤ
leads_to p (done code) = destination code p
leads_to p r = no_jump

abbrev after_concat : ℕ → Outcome (ℤ × (ℕ → ℕ)) → Outcome (ℕ → ℕ)
after_concat target (done (l, code)) = patchlist 3 code l target
after_concat target r = Outcome.stuck

chain_run : leads_to 5 (after_concat 9 (concat 2 words (pos 2) (pos 5))) ≡ pos 9
unfolding concat last_of getjump fixjump destination patchlist patchlistaux patchtestreg
    getjumpcontrol test_t_mode getarg_sj setarg_sj getarg setarg mask0 mask1 shl complement
    get_opcode getarg_b getarg_k create_abck setarg_a ◌-ℤ◌ ◌+ℤ◌
chain_run = refl

concat-IsList_example :
    (l : ℤ) × (code' : ℕ → ℕ) × (concat 2 words (pos 2) (pos 5) ≡ done (l, code'))
    × IsList code' l ((2 ∷ []) ++ (5 ∷ []))
    × ((k : ℕ) → All (λ p. k ≢ p) (2 ∷ []) → code' k ≡ words k)
concat-IsList_example =
    concat-IsList 2 words (pos 2) (pos 5) (2 ∷ []) (5 ∷ []) (omega arith) words-AreJumps.0
      words-AreJumps.1 (((λ e. absurd (omega arith)), tt), tt) words-IsList.0 words-IsList.1

patchlist-destination_example :
    (code' : ℕ → ℕ) × (patchlist 2 words (pos 5) 9 ≡ done code')
    × All (λ p. destination code' p ≡ pos 9) (5 ∷ [])
    × ((q : ℕ) → get_opcode (words q) ≡ op_jmp → All (λ p. p ≢ q) (5 ∷ []) → code' q ≡ words q)
    × ((q : ℕ) → All (λ p. (q ≢ p) × (q + 1 ≢ p)) (5 ∷ []) → code' q ≡ words q)
patchlist-destination_example =
    patchlist-destination 2 words (pos 5) (5 ∷ []) 9 (omega arith) (omega arith) words-AreJumps.1
      words-IsList.1
