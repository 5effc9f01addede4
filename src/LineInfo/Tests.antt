-- ===== src/LineInfo/Tests.antt =====
-- Runs of the line information of lua/src/lcode.c and lua/src/ldebug.c.
use luava.Base.{ℕ, ◌≡◌, refl, arith, true, update}
use luava.Base.Int.{pos, ◌+ℤ◌, ◌-ℤ◌}
use luava.LineInfo.{
  FuncState, open_func, luak_code, fixline, removelastinstruction, savelineinfo, save_absolute,
  save_relative,
}
use luava.LineInfo.{
  is_far, removelastlineinfo, getfuncline, getbaseline, adjust, walk, nextline, changedline,
}
use luava.LineInfo.Saving.{before}
use luava.LineInfo.States.{Reach, start, code, fix, remove}
use luava.LineInfo.Lines.{Reach-getfuncline}
use luava.LineInfo.Changes.{Reach-changedline}

abbrev zeros : ℕ → ℕ
zeros k = 0

abbrev first_state : FuncState
first_state = open_func zeros (λ k. pos 0) (λ k. record { pc = 0; line = 0 }) 10

-- A function from line 10 on: an instruction at line 12, one far below, put at line 900, and one that
-- another at line 901 replaces.
abbrev last_state : FuncState
last_state =
    luak_code
      (removelastinstruction
        (luak_code (fixline (luak_code (luak_code first_state 1 12) 2 990) 900) 3 900))
      4 901

abbrev last_lines : ℕ → ℕ
last_lines = update (update (update (update (update zeros 0 12) 1 990) 1 900) 2 900) 2 901

pc_run : last_state.pc ≡ 3
unfolding open_func luak_code fixline removelastinstruction removelastlineinfo savelineinfo
    save_absolute save_relative is_far ◌-ℤ◌
pc_run = refl

line_run : getfuncline last_state 2 ≡ pos 901
unfolding open_func luak_code fixline removelastinstruction removelastlineinfo savelineinfo
    save_absolute save_relative is_far ◌-ℤ◌ ◌+ℤ◌ getfuncline getbaseline adjust walk
line_run = refl

last_state-Reach : Reach 10 true last_state last_lines
unfolding open_func luak_code fixline removelastinstruction removelastlineinfo savelineinfo
    save_absolute save_relative is_far ◌-ℤ◌
last_state-Reach = code 4 901 (
    remove (omega arith) (
      code 3 900 (
        fix 900 (omega arith) (
          code 2 990
            (code 1 12 (start zeros (λ k. pos 0) (λ k. record { pc = 0; line = 0 }) zeros))))))

Reach-getfuncline_example : getfuncline last_state 2 ≡ pos 901
Reach-getfuncline_example = Reach-getfuncline last_state-Reach 2 (rw pc_run (omega arith))

Reach-changedline_example :
    (nextline last_state (pos (before last_state.linedefined last_lines 2)) 2 ≡ pos 901)
    × (changedline last_state 1 2 ≡ true)
Reach-changedline_example =
    Reach-changedline last_state-Reach 1 2 (omega arith) (rw pc_run (omega arith))
