-- ===== src/LineInfo/Lines.antt =====
-- luaG_getfuncline and its companions of lua/src/ldebug.c on the line information that lua/src/lcode.c
-- saved.
use luava.Base.{ℕ, zero, suc, ◌+◌, ◌-◌, ◌*◌, ◌/◌, ◌≤◌, ◌<◌, ◌≡◌, ◌≢◌, ap, arith, Bool, true, false}
use luava.Base.{◌&&◌, ◌||◌, ltb, leb, ◌==◌, Bool-cases, inl, inr}
use luava.Base.Int.{ℤ, pos, ◌+ℤ◌, ◌-ℤ◌, int_laws}
use luava.LineInfo.{FuncState, is_absolute, maxiwthabs, adjust, getbaseline, walk, getfuncline}
use luava.LineInfo.Saving.{before, Content}
use luava.LineInfo.States.{Reach, Reach-Holds, Ready-Holds, before-next}

pub +ℤ_cancel : (a b : ℤ) → a +ℤ (b -ℤ a) ≡ b
+ℤ_cancel a b = omega int_laws

module _ (f : FuncState) (m : ℕ) (ls : ℕ → ℕ)
    (content : Content f.linedefined f.nabslineinfo f.abslineinfo f.lineinfo m ls)
    (bound : m ≤ 128 * f.nabslineinfo + 128) where
  -- Over relative lines the walk comes to the line of the instruction.
  walk-line :
      (fuel k next : ℕ)
      → k < m
      → next ≤ k + 1
      → k + 1 - next < fuel
      → ((j : ℕ) → next ≤ j → j ≤ k → is_absolute (f.lineinfo j) ≡ false)
      → walk fuel f k next (pos (before f.linedefined ls next)) ≡ pos (ls k)
  unfolding walk
  walk-line zero k next inside le few relatives = absurd (omega arith)
  walk-line (suc fuel) k next inside le few relatives = elim (Bool-cases (leb next k)) [
    | inl more ↦
        let step : pos (before f.linedefined ls next) +ℤ f.lineinfo next
            ≡ pos (before f.linedefined ls (next + 1)) =
          rw
            (
              content.relative next (ground arith) (relatives next (omega arith) (ground arith)),
              before-next f.linedefined next ls,
            )
            (+ℤ_cancel (pos (before f.linedefined ls next)) (pos (ls next))) in
        rw (more, step)
          (walk-line fuel k (next + 1) inside (ground arith) (ground arith)
            (λ j l u. relatives j (omega arith) u))
    | inr over ↦
        let at_end : next ≡ k + 1 = ground arith in
        rw (over, at_end) (ap pos (before-next f.linedefined k ls))
  ]

  -- The absolute line before `next` is the last one up to `k`.
  abbrev IsLast : ℕ → ℕ → Type 0
  IsLast k next =
      (1 ≤ next)
      × (next ≤ f.nabslineinfo)
      × ((f.abslineinfo (next - 1)).pc ≤ k)
      × ((i : ℕ) → next ≤ i → i < f.nabslineinfo → k < (f.abslineinfo i).pc)

  adjust-IsLast :
      (fuel k next : ℕ)
      → f.nabslineinfo - next < fuel
      → 1 ≤ next
      → next ≤ f.nabslineinfo
      → (f.abslineinfo (next - 1)).pc ≤ k
      → IsLast k (adjust fuel f k next)
  unfolding adjust
  adjust-IsLast zero k next few one le low = absurd (omega arith)
  adjust-IsLast (suc fuel) k next few one le low =
      elim (Bool-cases (ltb next f.nabslineinfo && leb (f.abslineinfo next).pc k)) [
        | inl more ↦
            let same : next + 1 - 1 ≡ next = omega arith in
            rw more (
              adjust-IsLast fuel k (next + 1) (ground arith) (omega arith) (ground arith)
                (rw same (ground arith)))
        | inr stop ↦ rw stop (
          one,
          le,
          low,
          λ i l u. elim (Bool-cases (i == next)) [
            | inl here ↦ let is : i ≡ next = ground arith in rw is (ground arith)
            | inr later ↦ let rises = content.rising next i (ground arith) u in ground arith
          ],
        )
      ]

  -- The estimate of getbaseline, which may stand before the first absolute line.
  adjust-first :
      (k : ℕ)
      → 1 ≤ f.nabslineinfo
      → (f.abslineinfo 0).pc ≤ k
      → IsLast k (adjust (suc f.nabslineinfo) f k 0)
  unfolding adjust
  adjust-first k one first =
      let more : (ltb 0 f.nabslineinfo && leb (f.abslineinfo 0).pc k) ≡ true = ground arith in
      rw more (adjust-IsLast f.nabslineinfo k 1 (omega arith) (omega arith) one first)

  adjust-estimate :
      (k : ℕ)
      → k < m
      → 1 ≤ f.nabslineinfo
      → (f.abslineinfo 0).pc ≤ k
      → IsLast k (adjust (suc f.nabslineinfo) f k (k / maxiwthabs))
  adjust-estimate k inside one first = elim (Bool-cases (k / maxiwthabs == 0)) [
    | inl zero_est ↦ let is : k / maxiwthabs ≡ 0 = ground arith in rw is (adjust-first k one first)
    | inr later ↦
        adjust-IsLast (suc f.nabslineinfo) k (k / maxiwthabs) (omega arith) (ground arith)
          (omega arith)
          (let (i, b, l, a) = content.absolute (k / maxiwthabs - 1) (omega arith) in ground arith)
  ]

  -- The line of an instruction.
  pub getfuncline-line : (k : ℕ) → k < m → getfuncline f k ≡ pos (ls k)
  unfolding getfuncline getbaseline
  getfuncline-line k inside =
      elim (Bool-cases ((f.nabslineinfo == 0) || ltb k (f.abslineinfo 0).pc)) [
        | inl start ↦ rw start (
            walk-line (k + 2) k 0 inside (omega arith) (omega arith)
              (λ j l u. unmarked j (omega arith) (λ i lt e. absurd (none_below start i lt j u e))))
        | inr later ↦
            let next = adjust (suc f.nabslineinfo) f k (k / maxiwthabs) in
            let (one, le, low, above) = adjust-estimate k inside (ground arith) (ground arith) in
            let entry = content.absolute (next - 1) (omega arith) in
            let line = entry.2 in
            let p = (f.abslineinfo (next - 1)).pc in
            rw (later, line, ← before-next f.linedefined p ls)
              (walk-line (k + 2) k (p + 1) inside (omega arith) (omega arith) (λ j l u.
                unmarked j (omega arith)
                  (λ i lt e. absurd (between next j i one le l u lt e above))))
      ]
    where
      none_below :
          ((f.nabslineinfo == 0) || ltb k (f.abslineinfo 0).pc) ≡ true
          → (i : ℕ) → i < f.nabslineinfo
          → (j : ℕ) → j ≤ k
          → (f.abslineinfo i).pc ≢ j
      none_below start i lt j u e = elim (Bool-cases (i == 0)) [
        | inl first ↦
            let is : i ≡ 0 = ground arith in
            let f0 : (f.abslineinfo 0).pc ≡ j = rw (← is) e in ground arith
        | inr other ↦ let rises = content.rising 0 i (ground arith) lt in ground arith
      ]

      between :
          (next j i : ℕ)
          → 1 ≤ next
          → next ≤ f.nabslineinfo
          → (f.abslineinfo (next - 1)).pc + 1 ≤ j
          → j ≤ k
          → i < f.nabslineinfo
          → (f.abslineinfo i).pc ≡ j
          → ((i : ℕ) → next ≤ i → i < f.nabslineinfo → k < (f.abslineinfo i).pc)
          → ⊥
      between next j i one le l u lt e above = elim (Bool-cases (leb next i)) [
        | inl behind ↦ let over = above i (ground arith) lt in omega arith
        | inr under ↦ elim (Bool-cases (i == next - 1)) [
          | inl last ↦
              let is : i ≡ next - 1 = ground arith in
              let at_end : (f.abslineinfo (next - 1)).pc ≡ j = rw (← is) e in omega arith
          | inr lower ↦
              let rises = content.rising i (next - 1) (ground arith) (omega arith) in omega arith
        ]
      ]

      unmarked :
          (j : ℕ)
          → j < m
          → ((i : ℕ) → i < f.nabslineinfo → (f.abslineinfo i).pc ≢ j)
          → is_absolute (f.lineinfo j) ≡ false
      unmarked j lt none_at = elim (Bool-cases (is_absolute (f.lineinfo j))) [
        | inl mark ↦ let (i, below, e) = content.marked j lt mark in absurd (none_at i below e)
        | inr fine ↦ fine
      ]

module _ {linedefined : ℕ} {coded : Bool} {S : FuncState} {ls : ℕ → ℕ} where
  -- After any calls of luaK_code, luaK_fixline and removelastinstruction on a new function, the last
  -- followed by luaK_code each time, luaG_getfuncline gives for every instruction the line with which
  -- it was coded, or fixed last.
  pub Reach-getfuncline :
      Reach linedefined coded S ls → (k : ℕ) → k < S.pc → getfuncline S k ≡ pos (ls k)
  Reach-getfuncline r k inside =
      let h = Ready-Holds coded S ls (Reach-Holds r) in
      getfuncline-line S S.pc ls h.content h.bound k inside
