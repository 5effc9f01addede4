-- ===== src/LineInfo.antt =====
-- The lines of instructions: savelineinfo, removelastlineinfo, removelastinstruction, luaK_code and
-- luaK_fixline of lua/src/lcode.c, what open_func of lua/src/lparser.c sets for them, and getbaseline,
-- luaG_getfuncline, nextline and changedline of lua/src/ldebug.c. An array is its values by position; a
-- line is below INT_MAX, so that no difference of lines overflows.
pub mod Saving
pub mod States
pub mod Lines
pub mod Changes
mod Tests
use luava.Base.{ℕ, zero, suc, ◌+◌, ◌-◌, ◌*◌, ◌/◌, ◌%◌, Bool, true, false, not, ◌&&◌, ◌||◌}
use luava.Base.{ltb, leb, ◌==◌, if◌then◌else◌, update, Option, none, some}
use luava.Base.Int.{ℤ, pos, negsuc, pos_part, neg_part, ◌+ℤ◌, ◌-ℤ◌}
use luava.Proto.{AbsLineInfo}

-- The fields of a FuncState for lines, and those of its Proto. The sizes of the two arrays of a
-- finished Proto are `pc` and `nabslineinfo`.
pub record FuncState : Type 0 where
  pub pc : ℕ
  pub previousline : ℤ
  pub iwthabs : ℕ
  pub nabslineinfo : ℕ
  pub code : ℕ → ℕ
  pub lineinfo : ℕ → ℤ
  pub abslineinfo : ℕ → AbsLineInfo
  pub linedefined : ℕ

-- LIMLINEDIFF, MAXIWTHABS and ABSLINEINFO.
abbrev pub limlinediff : ℕ
limlinediff = 128

abbrev pub maxiwthabs : ℕ
maxiwthabs = 128

abbrev pub abs_line_info : ℤ
abs_line_info = negsuc 127

-- The cast to ls_byte.
abbrev pub ls_byte : ℤ → ℤ
ls_byte (pos n) = if ltb (n % 256) 128 then pos (n % 256) else negsuc (255 - n % 256)
ls_byte (negsuc n) = if ltb (n % 256) 128 then negsuc (n % 256) else pos (255 - n % 256)

abbrev pub is_absolute : ℤ → Bool
is_absolute (pos n) = false
is_absolute (negsuc n) = n == 127

unfoldable pub open_func : (ℕ → ℕ) → (ℕ → ℤ) → (ℕ → AbsLineInfo) → ℕ → FuncState
open_func code lineinfo abslineinfo linedefined = record {
  pc = 0;
  previousline = pos linedefined;
  iwthabs = 0;
  nabslineinfo = 0;
  code = code;
  lineinfo = lineinfo;
  abslineinfo = abslineinfo;
  linedefined = linedefined;
}

-- savelineinfo, in the two branches of its test.
unfoldable pub save_absolute : FuncState → ℕ → FuncState
save_absolute S line = record S {
  abslineinfo = update S.abslineinfo S.nabslineinfo (record { pc = S.pc - 1; line = line });
  nabslineinfo = S.nabslineinfo + 1;
  iwthabs = 1;
  lineinfo = update S.lineinfo (S.pc - 1) abs_line_info;
  previousline = pos line;
}

unfoldable pub save_relative : FuncState → ℤ → ℕ → FuncState
save_relative S linedif line = record S {
  iwthabs = (S.iwthabs + 1) % 256;
  lineinfo = update S.lineinfo (S.pc - 1) (ls_byte linedif);
  previousline = pos line;
}

unfoldable pub is_far : ℤ → Bool
is_far linedif = leb limlinediff (pos_part linedif + neg_part linedif)

unfoldable pub savelineinfo : FuncState → ℕ → FuncState
savelineinfo S line =
    let linedif = pos line -ℤ S.previousline in
    if is_far linedif || leb maxiwthabs S.iwthabs
    then save_absolute S line
    else save_relative S linedif line

unfoldable pub removelastlineinfo : FuncState → FuncState
removelastlineinfo S =
    if not (is_absolute (S.lineinfo (S.pc - 1)))
    then record S {
      previousline = S.previousline -ℤ S.lineinfo (S.pc - 1);
      iwthabs = (S.iwthabs + 255) % 256;
    }
    else record S { nabslineinfo = S.nabslineinfo - 1; iwthabs = maxiwthabs + 1 }

unfoldable pub removelastinstruction : FuncState → FuncState
removelastinstruction S = let S' = removelastlineinfo S in record S' { pc = S'.pc - 1 }

-- luaK_code with `line` for ls->lastline.
unfoldable pub luak_code : FuncState → ℕ → ℕ → FuncState
luak_code S i line = savelineinfo (record S { pc = S.pc + 1; code = update S.code S.pc i }) line

unfoldable pub fixline : FuncState → ℕ → FuncState
fixline S line = savelineinfo (removelastlineinfo S) line

-- The loop of getbaseline; `next` is i + 1.
unfoldable pub adjust : ℕ → FuncState → ℕ → ℕ → ℕ
adjust zero f pc next = next
adjust (suc fuel) f pc next =
    let more = adjust fuel f pc (next + 1) in
    if ltb next f.nabslineinfo && leb (f.abslineinfo next).pc pc then more else next

-- getbaseline: *basepc + 1, and the line.
unfoldable pub getbaseline : FuncState → ℕ → ℕ × ℤ
getbaseline f pc =
    let base = f.abslineinfo (adjust (suc f.nabslineinfo) f pc (pc / maxiwthabs) - 1) in
    if (f.nabslineinfo == 0) || ltb pc (f.abslineinfo 0).pc
    then (0, pos f.linedefined)
    else (base.pc + 1, pos base.line)

-- The loop of luaG_getfuncline; `next` is basepc + 1.
unfoldable pub walk : ℕ → FuncState → ℕ → ℕ → ℤ → ℤ
walk zero f pc next baseline = baseline
walk (suc fuel) f pc next baseline =
    let more = walk fuel f pc (next + 1) (baseline +ℤ f.lineinfo next) in
    if leb next pc then more else baseline

-- luaG_getfuncline where there is debug information.
unfoldable pub getfuncline : FuncState → ℕ → ℤ
getfuncline f pc = let base = getbaseline f pc in walk (pc + 2) f pc base.0 base.1

unfoldable pub nextline : FuncState → ℤ → ℕ → ℤ
nextline f currentline pc =
    if not (is_absolute (f.lineinfo pc)) then currentline +ℤ f.lineinfo pc else getfuncline f pc

-- The loop of changedline: the difference of the lines, unless there is an absolute line.
unfoldable pub line_delta : ℕ → FuncState → ℕ → ℕ → ℤ → Option ℤ
line_delta zero f newpc pc delta = none
line_delta (suc fuel) f newpc pc delta =
    let delta' = delta +ℤ f.lineinfo (pc + 1) in
    let more = line_delta fuel f newpc (pc + 1) delta' in
    if is_absolute (f.lineinfo (pc + 1))
    then none
    else if pc + 1 == newpc
    then some delta'
    else more

abbrev pub same_ℤ : ℤ → ℤ → Bool
same_ℤ a b = pos_part a + neg_part b == pos_part b + neg_part a

abbrev pub or_compare : FuncState → ℕ → ℕ → Option ℤ → Bool
or_compare f oldpc newpc (some delta) = not (same_ℤ delta (pos 0))
or_compare f oldpc newpc none = not (same_ℤ (getfuncline f oldpc) (getfuncline f newpc))

-- changedline where there is debug information.
unfoldable pub changedline : FuncState → ℕ → ℕ → Bool
changedline f oldpc newpc = or_compare f oldpc newpc (
    if ltb (newpc - oldpc) (maxiwthabs / 2)
    then line_delta (newpc - oldpc) f newpc oldpc (pos 0)
    else none)
