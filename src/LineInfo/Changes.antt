-- ===== src/LineInfo/Changes.antt =====
-- nextline and changedline of lua/src/ldebug.c on the line information that lua/src/lcode.c saved.
use luava.Base.{ℕ, zero, suc, ◌+◌, ◌-◌, ◌*◌, ◌/◌, ◌≤◌, ◌<◌, ◌≡◌, arith, Bool}
use luava.Base.{not, ltb, ◌==◌, Bool-cases, inl, inr, Option, none}
use luava.Base.Int.{ℤ, pos, ◌+ℤ◌, ◌-ℤ◌, int_laws}
use luava.LineInfo.{FuncState, is_absolute, maxiwthabs, nextline, line_delta}
use luava.LineInfo.{same_ℤ, or_compare, changedline}
use luava.LineInfo.Saving.{before, Content}
use luava.LineInfo.States.{Reach, Reach-Holds, Ready-Holds, before-next}
use luava.LineInfo.Lines.{+ℤ_cancel, getfuncline-line}

module _ (f : FuncState) (m : ℕ) (ls : ℕ → ℕ)
    (content : Content f.linedefined f.nabslineinfo f.abslineinfo f.lineinfo m ls)
    (bound : m ≤ 128 * f.nabslineinfo + 128) where
  nextline-line : (k : ℕ) → k < m → nextline f (pos (before f.linedefined ls k)) k ≡ pos (ls k)
  unfolding nextline
  nextline-line k inside = elim (Bool-cases (is_absolute (f.lineinfo k))) [
    | inl mark ↦ rw mark (getfuncline-line f m ls content bound k inside)
    | inr unmarked ↦
        rw (unmarked, content.relative k inside unmarked)
          (+ℤ_cancel (pos (before f.linedefined ls k)) (pos (ls k)))
  ]

  -- The comparison of a difference with 0, and of two lines.
  Compares : ℕ → ℕ → Option ℤ → Type 0
  Compares oldpc newpc r = or_compare f oldpc newpc r ≡ not (ls oldpc == ls newpc)

  compare_difference : (a b : ℕ) → not (same_ℤ (pos b -ℤ pos a) (pos 0)) ≡ not (a == b)
  unfolding ◌-ℤ◌
  compare_difference a b = ground arith

  none-Compares : (oldpc newpc : ℕ) → oldpc < m → newpc < m → Compares oldpc newpc none
  unfolding Compares
  none-Compares oldpc newpc lo ln =
      rw
        (
          getfuncline-line f m ls content bound oldpc lo,
          getfuncline-line f m ls content bound newpc ln,
        )
        (ground arith)

  line_delta-Compares :
      (fuel oldpc newpc pc : ℕ)
      → oldpc < m
      → newpc < m
      → pc < newpc
      → newpc - pc ≤ fuel
      → Compares oldpc newpc (line_delta fuel f newpc pc (pos (ls pc) -ℤ pos (ls oldpc)))
  unfolding line_delta Compares
  line_delta-Compares zero oldpc newpc pc lo ln below few = absurd (omega arith)
  line_delta-Compares (suc fuel) oldpc newpc pc lo ln below few =
      elim (Bool-cases (is_absolute (f.lineinfo (pc + 1)))) [
        | inl mark ↦ rw mark (none-Compares oldpc newpc lo ln)
        | inr unmarked ↦
            let step : (pos (ls pc) -ℤ pos (ls oldpc)) +ℤ f.lineinfo (pc + 1)
                ≡ pos (ls (pc + 1)) -ℤ pos (ls oldpc) =
              rw (content.relative (pc + 1) (omega arith) unmarked, before-next f.linedefined pc ls)
                (omega int_laws) in
            elim (Bool-cases (pc + 1 == newpc)) [
              | inl last ↦
                  let is : pc + 1 ≡ newpc = ground arith in
                  rw (unmarked, last, step, is) (compare_difference (ls oldpc) (ls newpc))
              | inr more ↦
                  rw (unmarked, more, step)
                    (line_delta-Compares fuel oldpc newpc (pc + 1) lo ln (ground arith)
                      (omega arith))
            ]
      ]

  changedline-line :
      (oldpc newpc : ℕ)
      → oldpc < newpc
      → newpc < m
      → changedline f oldpc newpc ≡ not (ls oldpc == ls newpc)
  unfolding changedline Compares
  changedline-line oldpc newpc below inside =
      elim (Bool-cases (ltb (newpc - oldpc) (maxiwthabs / 2))) [
        | inl close ↦
            let start : pos (ls oldpc) -ℤ pos (ls oldpc) ≡ pos 0 = omega int_laws in
            rw (close, ← start)
              (line_delta-Compares (newpc - oldpc) oldpc newpc oldpc (omega arith) inside below
                (omega arith))
        | inr apart ↦ rw apart (none-Compares oldpc newpc (omega arith) inside)
      ]

module _ {linedefined : ℕ} {coded : Bool} {S : FuncState} {ls : ℕ → ℕ} where
  -- After any calls of luaK_code, luaK_fixline and removelastinstruction on a new function, the last
  -- followed by luaK_code each time, nextline leads from the line of an instruction to that of the
  -- next one, and for two instructions changedline says whether their lines differ.
  pub Reach-changedline :
      Reach linedefined coded S ls
      → (oldpc newpc : ℕ) → oldpc < newpc
      → newpc < S.pc
      → (nextline S (pos (before S.linedefined ls newpc)) newpc ≡ pos (ls newpc))
        × (changedline S oldpc newpc ≡ not (ls oldpc == ls newpc))
  Reach-changedline r oldpc newpc below inside =
      let h = Ready-Holds coded S ls (Reach-Holds r) in
      (
        nextline-line S S.pc ls h.content h.bound newpc inside,
        changedline-line S S.pc ls h.content h.bound oldpc newpc below inside,
      )
