-- ===== src/ForLoop.antt =====
-- Numeric for loops: luaV_flttointeger, luaV_tointegerns, luaV_tointeger, luaV_tonumber_, forlimit,
-- forprep, floatforloop and the opcodes OP_FORPREP and OP_FORLOOP of lua/src/lvm.c. The arithmetic
-- of C doubles and the conversion of strings to numbers are parameters.
pub mod Counting
pub mod Integer
mod Tests
use luava.Base.{ℕ, zero, suc, ◌+◌, ◌-◌, ◌/◌, ◌%◌, ◌^◌, ltb, ◌==◌, List, [], ◌∷◌}
use luava.Base.{Bool, true, false, not, Option, none, some, if◌then◌else◌}
use luava.Numeral.{str2int}
use luava.Base.Int.{ℤ, pos, negsuc, ltb_ℤ, ◌+ℤ◌, ◌-ℤ◌}
use luava.Base.Word.{cast_s2u, cast_u2s, is_neg, min_integer, max_integer}

-- The operations of a C double that the loops use; `number_to_integer` is lua_numbertointeger, and
-- `str2d` is l_str2d, which rests on the C library's strtod: the number that a string starts with
-- and the rest of the string.
pub record Floats : Type 1 where
  pub Float : Type 0
  pub zero_float : Float
  pub floor : Float → Float
  pub eq : Float → Float → Bool
  pub lt : Float → Float → Bool
  pub le : Float → Float → Bool
  pub add : Float → Float → Float
  pub one : Float
  pub of_integer : ℤ → Float
  pub number_to_integer : Float → Option ℤ
  pub str2d : List ℕ → Option (Float × List ℕ)

pub data ForError : Type 0 where
  step_is_zero bad_limit bad_step bad_init : ForError

pub data Outcome (A : Type 0) : Type 0 where
  ok : A → Outcome A
  err : ForError → Outcome A

pub data Rounding : Type 0 where
  eq floor ceil : Rounding

-- The last line of forlimit: not to run?
unfoldable pub skips : ℤ → ℤ → ℤ → Bool
skips init step limit = if ltb_ℤ (pos 0) step then ltb_ℤ limit init else ltb_ℤ init limit

-- The loop counter of an integer loop that runs: the number of rounds after the first.
unfoldable pub loop_count : ℤ → ℤ → ℤ → ℕ
loop_count init limit step =
    if ltb_ℤ (pos 0) step
    then (let count = (cast_s2u limit + 2 ^ 64 - cast_s2u init) % 2 ^ 64 in
        if cast_s2u step == 1 then count else count / cast_s2u step)
    else (let count = (cast_s2u init + 2 ^ 64 - cast_s2u limit) % 2 ^ 64 in
        count / ((cast_s2u (pos 0 -ℤ (step +ℤ pos 1)) + 1) % 2 ^ 64))

module _ (F : Floats) where
  open F use {Float}

  pub data Value : Type 0 where
    int : ℤ → Value
    flt : Float → Value
    str : List ℕ → Value
    other : Value

  -- luaV_flttointeger
  unfoldable pub flttointeger : Float → Rounding → Option ℤ
  flttointeger n mode =
      let f = F.floor n in
      if F.eq n f then F.number_to_integer f else elim mode [
        | Rounding.eq ↦ none
        | Rounding.ceil ↦ F.number_to_integer (F.add f F.one)
        | Rounding.floor ↦ F.number_to_integer f
      ]

  -- luaV_tointegerns
  unfoldable pub tointegerns : Value → Rounding → Option ℤ
  tointegerns (flt n) mode = flttointeger n mode
  tointegerns (int i) mode = some i
  tointegerns _ mode = none

  -- luaO_str2num: the number, and the string from the terminating '\0' of the C string on.
  unfoldable pub str2num : List ℕ → Option (Value × List ℕ)
  str2num s = elim (str2int s) [
    | some p ↦ some (int p.0, p.1)
    | none ↦ elim (F.str2d s) [ some p ↦ some (flt p.0, p.1) | none ↦ none ]
  ]

  -- luaO_str2num(s, result) == stlen + 1
  abbrev pub all_read : List ℕ → Bool
  all_read [] = true
  all_read (c ∷ s) = false

  -- l_strton: a string that is a numeral becomes its number, any other value stays.
  unfoldable pub strton : Value → Option Value
  strton (str s) = elim (str2num s) [
    | some p ↦ if all_read p.1 then some p.0 else none
    | none ↦ none
  ]
  strton _ = none

  -- luaV_tointeger
  unfoldable pub tointeger : Value → Rounding → Option ℤ
  tointeger v mode = elim (strton v) [ some w ↦ tointegerns w mode | none ↦ tointegerns v mode ]

  unfoldable pub nvalue : Value → Option Float
  nvalue (int i) = some (F.of_integer i)
  nvalue (flt n) = some n
  nvalue _ = none

  -- The macro tonumber and luaV_tonumber_.
  unfoldable pub tonumber : Value → Option Float
  tonumber (flt n) = some n
  tonumber (int i) = some (F.of_integer i)
  tonumber v = elim (strton v) [ some w ↦ nvalue w | none ↦ none ]

  -- forlimit: whether the loop must not run, and the limit.
  unfoldable pub forlimit : ℤ → Value → ℤ → Outcome (Bool × ℤ)
  forlimit init lim step =
      elim (tointeger lim (if ltb_ℤ step (pos 0) then Rounding.ceil else Rounding.floor)) [
        | some p ↦ ok (skips init step p, p)
        | none ↦ elim (tonumber lim) [
          | none ↦ err ForError.bad_limit
          | some flim ↦
              if F.lt F.zero_float flim
              then (if ltb_ℤ step (pos 0)
                  then ok (true, pos 0)
                  else ok (skips init step max_integer, max_integer))
              else (if ltb_ℤ (pos 0) step
                  then ok (true, pos 0)
                  else ok (skips init step min_integer, min_integer))
        ]
      ]

  -- The registers ra, ra + 1 and ra + 2.
  pub record Regs : Type 0 where
    pub ra : Value
    pub ra1 : Value
    pub ra2 : Value

  -- forprep on integers; `true` skips the loop.
  unfoldable pub forprep_int : ℤ → Value → ℤ → Regs → Outcome (Bool × Regs)
  forprep_int init lim step regs =
      if cast_s2u step == 0 then err ForError.step_is_zero else elim (forlimit init lim step) [
        | err e ↦ err e
        | ok p ↦
            if p.0
            then ok (true, regs)
            else ok (
              false,
              record {
                ra = int (cast_u2s (loop_count init p.1 step));
                ra1 = int step;
                ra2 = int init;
              },
            )
      ]

  -- forprep on floats.
  unfoldable pub forprep_float : Regs → Outcome (Bool × Regs)
  forprep_float regs = elim (tonumber regs.ra1) [
    | none ↦ err ForError.bad_limit
    | some limit ↦ elim (tonumber regs.ra2) [
      | none ↦ err ForError.bad_step
      | some step ↦ elim (tonumber regs.ra) [
        | none ↦ err ForError.bad_init
        | some init ↦
            if F.eq step F.zero_float
            then err ForError.step_is_zero
            else if (if F.lt F.zero_float step then F.lt limit init else F.lt init limit)
            then ok (true, regs)
            else ok (false, record { ra = flt limit; ra1 = flt step; ra2 = flt init })
      ]
    ]
  ]

  unfoldable pub forprep_on : Value → Value → Value → Regs → Outcome (Bool × Regs)
  forprep_on (int init) lim (int step) regs = forprep_int init lim step regs
  forprep_on _ lim _ regs = forprep_float regs

  -- forprep (OP_FORPREP)
  unfoldable pub forprep : Regs → Outcome (Bool × Regs)
  forprep regs = forprep_on regs.ra regs.ra1 regs.ra2 regs

  -- OP_FORLOOP, with floatforloop for floats; `true` jumps back to the body. The registers hold
  -- what forprep left there.
  unfoldable pub forloop_on : Value → Value → Value → Regs → Bool × Regs
  forloop_on (int c) (int step) (int idx) regs =
      let count = cast_s2u c in
      if ltb 0 count
      then (
        true,
        record {
          ra = int (cast_u2s (count - 1));
          ra1 = int step;
          ra2 = int (cast_u2s ((cast_s2u idx + cast_s2u step) % 2 ^ 64));
        },
      )
      else (false, regs)
  forloop_on (flt limit) (flt step) (flt idx) regs =
      let idx' = F.add idx step in
      if (if F.lt F.zero_float step then F.le idx' limit else F.le limit idx')
      then (true, record regs { ra2 = flt idx' })
      else (false, regs)
  forloop_on _ _ _ regs = (false, regs)

  unfoldable pub forloop : Regs → Bool × Regs
  forloop regs = forloop_on regs.ra regs.ra1 regs.ra2 regs

  -- The control variable at the start of each round of the body, for `fuel` rounds at most.
  unfoldable pub rounds : ℕ → Regs → List Value
  rounds zero regs = []
  rounds (suc fuel) regs =
      let (again, regs') = forloop regs in
      let rest = rounds fuel regs' in regs.ra2 ∷ (if again then rest else [])
