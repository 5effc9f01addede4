-- ===== src/ForLoop/Counting.antt =====
-- The count that forprep (lua/src/lvm.c) computes for a loop on integers.
use luava.Base.{
  ℕ, zero, suc, ◌+◌, ◌-◌, ◌*◌, ◌/◌, ◌%◌, ◌^◌, ◌≤◌, ◌<◌, ◌≡◌, sym, ap, ◌∙◌, arith, ltb, ◌==◌, List,
  [], ◌∷◌, true, false, if◌then◌else◌,
}
use luava.Base.Int.{ℤ, pos, negsuc, pos_part, neg_part, ltb_ℤ, ◌+ℤ◌, ◌-ℤ◌}
use luava.Base.Word.{cast_s2u, IsInteger}
use native.Mathlib.Nat.{div-add-mod', mod-lt}
use luava.ForLoop.{skips, loop_count}

-- The values of the control variable, round by round.
unfoldable pub naive : ℕ → ℤ → ℤ → ℤ → List ℤ
naive zero i limit step = []
naive (suc fuel) i limit step =
    let rest = naive fuel (i +ℤ step) limit step in if skips i step limit then [] else i ∷ rest

-- b - a where a is at most b.
abbrev pub gap : ℤ → ℤ → ℕ
gap a b = (pos_part b + neg_part a) - (pos_part a + neg_part b)

abbrev pub span : ℤ → ℤ → ℤ → ℕ
span i limit step = if ltb_ℤ (pos 0) step then gap i limit else gap limit i

abbrev pub magnitude : ℤ → ℕ
magnitude step = pos_part step + neg_part step

-- The counter `c` is the number of rounds after the one at `i`.
pub Counts : ℕ → ℤ → ℤ → ℤ → Type 0
Counts c i limit step =
    (c * magnitude step ≤ span i limit step) × (span i limit step < suc c * magnitude step)

pub within-IsInteger :
    (i limit step : ℤ) (c : ℕ)
    → IsInteger i
    → IsInteger limit
    → Counts (suc c) i limit step
    → IsInteger (i +ℤ step)
unfolding Counts ◌+ℤ◌
within-IsInteger i limit (pos n) c hi hl h = ground arith
within-IsInteger i limit (negsuc n) c hi hl h = ground arith

pub Counts-next :
    (i limit step : ℤ) (c : ℕ)
    → skips i step limit ≡ false
    → Counts (suc c) i limit step
    → Counts c (i +ℤ step) limit step
unfolding Counts ◌+ℤ◌
Counts-next i limit (pos n) c hi h = ground arith
Counts-next i limit (negsuc n) c hi h = ground arith

pub next-runs :
    (i limit step : ℤ) (c : ℕ)
    → skips i step limit ≡ false
    → Counts (suc c) i limit step
    → skips (i +ℤ step) step limit ≡ false
unfolding Counts skips ◌+ℤ◌
next-runs i limit (pos n) c hi h = ground arith
next-runs i limit (negsuc n) c hi h = ground arith

pub next-stops :
    (i limit step : ℤ)
    → skips i step limit ≡ false
    → Counts 0 i limit step
    → skips (i +ℤ step) step limit ≡ true
unfolding Counts skips ◌+ℤ◌
next-stops i limit step hi h = ground arith

pub quotient_counts : (s d : ℕ) → 0 < d → (s / d * d ≤ s) × (s < suc (s / d) * d)
quotient_counts s d h =
    (omega (arith, div-add-mod' s d), omega (arith, div-add-mod' s d, mod-lt s h))

pub distance :
    (a b : ℤ)
    → IsInteger a
    → IsInteger b
    → ltb_ℤ b a ≡ false
    → (cast_s2u b + 2 ^ 64 - cast_s2u a) % 2 ^ 64 ≡ gap a b
unfolding cast_s2u
distance a b ha hb h = ground arith

-- 'step+1' avoids negating 'mininteger'.
pub negated : (n : ℕ) → n < 2 ^ 63 → (cast_s2u (pos 0 -ℤ (negsuc n +ℤ pos 1)) + 1) % 2 ^ 64 ≡ suc n
unfolding cast_s2u ◌+ℤ◌ ◌-ℤ◌
negated n h = ground arith

pub divided : (d n : ℕ) → (if n == 1 then d else d / n) ≡ d / (n + 0)
divided d n = ground arith

pub ascending : (init limit : ℤ) (n : ℕ) → skips init (pos (suc n)) limit ≡ ltb_ℤ limit init
unfolding skips
ascending init limit n = ground arith

pub descending : (init limit : ℤ) (n : ℕ) → skips init (negsuc n) limit ≡ ltb_ℤ init limit
unfolding skips
descending init limit n = ground arith

pub counter :
    (init limit step : ℤ)
    → IsInteger init
    → IsInteger limit
    → IsInteger step
    → (cast_s2u step == 0) ≡ false
    → skips init step limit ≡ false
    → loop_count init limit step ≡ span init limit step / magnitude step
unfolding loop_count skips cast_s2u
counter init limit (pos (suc n)) hi hl hs nz run =
    let up : ltb 0 (suc n + 0) ≡ true = ground arith in
    let far = distance init limit hi hl (sym (ascending init limit n) ∙ run) in
    rw (up, far) (divided (gap init limit) (suc n))
counter init limit (pos zero) hi hl hs nz run = absurd (cc)
counter init limit (negsuc n) hi hl hs nz run =
    let down : ltb (0 + suc n) 0 ≡ false = ground arith in
    let far = distance limit init hl hi (sym (descending init limit n) ∙ run) in
    rw (down, far, negated n (omega arith)) (ap (λ (d : ℕ). gap limit init / d) (omega arith))

pub magnitude_pos : (step : ℤ) → IsInteger step → (cast_s2u step == 0) ≡ false → 0 < magnitude step
unfolding cast_s2u
magnitude_pos step h nz = ground arith

pub counter-Counts :
    (init limit step : ℤ)
    → IsInteger init
    → IsInteger limit
    → IsInteger step
    → (cast_s2u step == 0) ≡ false
    → skips init step limit ≡ false
    → Counts (loop_count init limit step) init limit step
unfolding Counts
counter-Counts init limit step hi hl hs nz run =
    rw (counter init limit step hi hl hs nz run)
      (quotient_counts (span init limit step) (magnitude step) (magnitude_pos step hs nz))

-- The counter fits the register.
pub Counts-bound :
    (c : ℕ) (i limit step : ℤ) → IsInteger i → IsInteger limit → Counts c i limit step → c < 2 ^ 64
unfolding Counts
Counts-bound c i limit (pos zero) hi hl h = ground arith
Counts-bound c i limit (pos (suc n)) hi hl h = ground arith
Counts-bound c i limit (negsuc n) hi hl h = ground arith
