-- ===== src/ForLoop/Integer.antt =====
-- Integer loops: the counter computed in advance and the wrapping additions against the loop on
-- unbounded integers that tests the limit before each round.
use luava.Base.{
  ℕ, zero, suc, ◌-◌, ◌^◌, ◌≤◌, ◌<◌, ◌≡◌, ◌≢◌, refl, sym, ap, ◌∙◌, arith, ltb, ◌==◌, List, [], ◌∷◌,
  map, Bool, true, false, Bool-cases, if◌then◌else◌, inl, inr, ◌⊎◌,
}
use luava.Base.Int.{ℤ, pos, negsuc, ◌+ℤ◌}
use luava.Base.Word.{cast_s2u, cast_u2s, IsInteger, cast_s2u-cast_u2s, cast_u2s-cast_s2u}
use luava.Arith.Shifts.{sum_bits}
use luava.ForLoop.{
  Floats, Outcome, ok, err, Value, int, Regs, skips, loop_count, forlimit, forprep, forprep_on,
  forprep_int, forloop, forloop_on, rounds, strton, tointeger, tointegerns,
}
use luava.ForLoop.Counting.{
  naive, Counts, within-IsInteger, Counts-next, next-runs, next-stops, counter-Counts, Counts-bound,
}

-- The registers in the middle of a loop: the control variable `i` and the rounds `c` left after it.
abbrev regs_at : (F : Floats) → ℕ → ℤ → ℤ → Regs F
regs_at F c i step = record { ra = int (cast_u2s c); ra1 = int step; ra2 = int i }

naive-past :
    (fuel : ℕ) (i limit step : ℤ) → skips i step limit ≡ true → naive fuel i limit step ≡ []
unfolding naive
naive-past zero i limit step h = refl
naive-past (suc fuel) i limit step h = rw h refl

rounds-at :
    (F : Floats) (fuel c : ℕ) (i limit step : ℤ)
    → IsInteger i
    → IsInteger limit
    → IsInteger step
    → skips i step limit ≡ false
    → Counts c i limit step
    → rounds F fuel (regs_at F c i step) ≡ map int (naive fuel i limit step)
unfolding rounds naive forloop forloop_on
rounds-at F zero c i limit step hi hl hs run h = refl
rounds-at F (suc fuel) zero i limit step hi hl hs run h =
    rw
      (
        run,
        cast_s2u-cast_u2s 0 (omega arith),
        naive-past fuel (i +ℤ step) limit step (next-stops i limit step run h),
      )
      refl
rounds-at F (suc fuel) (suc c) i limit step hi hl hs run h =
    let fits = within-IsInteger i limit step c hi hl h in
    let counts = Counts-next i limit step c run h in
    let goes_on = next-runs i limit step c run h in
    let more : ltb 0 (suc c) ≡ true = ground arith in
    let left : suc c - 1 ≡ c = omega arith in
    let rest = rounds-at F fuel c (i +ℤ step) limit step fits hl hs goes_on counts in
    rw
      (
        run,
        cast_s2u-cast_u2s (suc c) (Counts-bound (suc c) i limit step hi hl h),
        sum_bits i step hi hs fits,
        cast_u2s-cast_s2u (i +ℤ step) fits,
        more,
        left,
      )
      (ap (λ (vs : List (Value F)). int i ∷ vs) rest)

nonzero : (step : ℤ) → IsInteger step → step ≢ pos 0 → (cast_s2u step == 0) ≡ false
unfolding cast_s2u
nonzero (pos zero) h nz = absurd (nz refl)
nonzero (pos (suc n)) h nz = ground arith
nonzero (negsuc n) h nz = ground arith

abbrev run_after : (F : Floats) → ℕ → Outcome (Bool × Regs F) → Outcome (List (Value F))
run_after F fuel (err e) = err e
run_after F fuel (ok p) = ok (if p.0 then [] else rounds F fuel p.1)

-- A loop, from the registers before OP_FORPREP: the values of the control variable in its rounds,
-- `fuel` of them at most.
unfoldable pub run_loop : (F : Floats) → ℕ → Regs F → Outcome (List (Value F))
run_loop F fuel regs = run_after F fuel (forprep F regs)

abbrev int_regs : (F : Floats) → ℤ → ℤ → ℤ → Regs F
int_regs F init limit step = record { ra = int init; ra1 = int limit; ra2 = int step }

forprep-past :
    (F : Floats) (init limit step : ℤ)
    → (cast_s2u step == 0) ≡ false
    → skips init step limit ≡ true
    → forprep F (int_regs F init limit step) ≡ ok (true, int_regs F init limit step)
unfolding forprep forprep_on forprep_int forlimit tointeger tointegerns strton
forprep-past F init limit step nz past = rw (nz, past) refl

forprep-run :
    (F : Floats) (init limit step : ℤ)
    → (cast_s2u step == 0) ≡ false
    → skips init step limit ≡ false
    → forprep F (int_regs F init limit step)
      ≡ ok (false, regs_at F (loop_count init limit step) init step)
unfolding forprep forprep_on forprep_int forlimit tointeger tointegerns strton
forprep-run F init limit step nz run = rw (nz, run) refl

pub int_loop :
    (F : Floats) (fuel : ℕ) (init limit step : ℤ)
    → IsInteger init
    → IsInteger limit
    → IsInteger step
    → step ≢ pos 0
    → run_loop F fuel (record { ra = int init; ra1 = int limit; ra2 = int step })
      ≡ ok (map int (naive fuel init limit step))
unfolding run_loop
int_loop F fuel init limit step hi hl hs nz =
    let some_step = nonzero step hs nz in
    elim (Bool-cases (skips init step limit)) [
      | inl past ↦
          rw (forprep-past F init limit step some_step past, naive-past fuel init limit step past)
            refl
      | inr run ↦
          let counts = counter-Counts init limit step hi hl hs some_step run in
          rw (forprep-run F init limit step some_step run) (
            ap (λ (vs : List (Value F)). ok vs)
              (rounds-at F fuel (loop_count init limit step) init limit step hi hl hs run counts))
    ]

-- The rounds are over after `c` more.
naive-settled :
    (c fuel : ℕ) (i limit step : ℤ)
    → skips i step limit ≡ false
    → Counts c i limit step
    → c < fuel
    → naive fuel i limit step ≡ naive (suc c) i limit step
unfolding naive
naive-settled c zero i limit step run h lt = elim lt [ ]
naive-settled zero (suc fuel) i limit step run h lt =
    rw (naive-past fuel (i +ℤ step) limit step (next-stops i limit step run h)) refl
naive-settled (suc c) (suc fuel) i limit step run h lt =
    let counts = Counts-next i limit step c run h in
    let goes_on = next-runs i limit step c run h in
    rw (naive-settled c fuel (i +ℤ step) limit step goes_on counts (omega arith)) refl

-- A loop on integers ends: more fuel than 2 ^ 64 changes nothing.
pub int_loop-ends :
    (F : Floats) (fuel : ℕ) (init limit step : ℤ)
    → IsInteger init
    → IsInteger limit
    → IsInteger step
    → step ≢ pos 0
    → 2 ^ 64 ≤ fuel
    → run_loop F fuel (int_regs F init limit step)
      ≡ run_loop F (2 ^ 64) (int_regs F init limit step)
int_loop-ends F fuel init limit step hi hl hs nz enough =
    rw
      (int_loop F fuel init limit step hi hl hs nz, int_loop F (2 ^ 64) init limit step hi hl hs nz)
      (ap (λ (is : List ℤ). ok (map int is)) (settled (Bool-cases (skips init step limit))))
  where
    some_step : (cast_s2u step == 0) ≡ false
    some_step = nonzero step hs nz

    settled :
        (skips init step limit ≡ true) ⊎ (skips init step limit ≡ false)
        → naive fuel init limit step ≡ naive (2 ^ 64) init limit step
    settled (inl past) =
        naive-past fuel init limit step past ∙ sym (naive-past (2 ^ 64) init limit step past)
    settled (inr run) =
        let c = loop_count init limit step in
        let counts = counter-Counts init limit step hi hl hs some_step run in
        let small = Counts-bound c init limit step hi hl counts in
        naive-settled c fuel init limit step run counts (omega arith)
        ∙ sym (naive-settled c (2 ^ 64) init limit step run counts small)
