-- ===== src/LineInfo/States.antt =====
-- The states of the code generator (lua/src/lcode.c) and the lines of the instructions it emitted.
use luava.Base.{
  ℕ, suc, ◌+◌, ◌-◌, ◌*◌, ◌%◌, ◌≤◌, ◌≡◌, ◌⊎◌, refl, ap, sym, ◌∙◌, arith, Bool, true, false,
}
use luava.Base.{◌||◌, leb, ◌==◌, if◌then◌else◌, Bool-cases, inl, inr, update, update-at}
use luava.Base.Int.{ℤ, pos, ◌-ℤ◌, int_laws}
use luava.Proto.{AbsLineInfo}
use luava.LineInfo.{FuncState, is_absolute, is_far, maxiwthabs, open_func}
use luava.LineInfo.{
  save_absolute, save_relative, savelineinfo, removelastlineinfo, removelastinstruction, luak_code,
  fixline,
}
use luava.LineInfo.Saving.{
  before, Content, Content-absolute, Content-relative, Content-cut_relative, Content-cut_absolute,
  last_absolute,
}

pub before-next : (linedefined m : ℕ) (ls : ℕ → ℕ) → before linedefined ls (m + 1) ≡ ls m
before-next linedefined m ls = let next : m + 1 ≡ suc m = omega arith in rw next refl

-- The position of the last absolute line.
abbrev pub base : ℕ → (ℕ → AbsLineInfo) → ℕ
base n absolutes = if n == 0 then 0 else (absolutes (n - 1)).pc

base-new :
    (n m line : ℕ) (absolutes : ℕ → AbsLineInfo)
    → base (n + 1) (update absolutes n (record { pc = m; line = line })) ≡ m
base-new n m line absolutes =
    let some : (n + 1 == 0) ≡ false = ground arith in
    let last : n + 1 - 1 ≡ n = omega arith in
    let here : (n == n) ≡ true = ground arith in rw (some, last, here) refl

base-bound :
    {linedefined n m : ℕ} {absolutes : ℕ → AbsLineInfo} {lineinfo : ℕ → ℤ} {ls : ℕ → ℕ}
    → Content linedefined n absolutes lineinfo m ls
    → (base n absolutes ≤ 128 * n) × (base n absolutes ≤ m)
base-bound {n = n} {absolutes = absolutes} c = elim (Bool-cases (n == 0)) [
  | inl none_saved ↦ rw none_saved (omega arith, omega arith)
  | inr some ↦
      let (inside, bound, line_of, mark) = c.absolute (n - 1) (ground arith) in
      rw some (ground arith, omega arith)
]

-- A state before the information of the instruction at `m` is saved: the last line is right and the
-- counter as well, or the counter makes the next line an absolute one.
pub record Ready (S : FuncState) (m : ℕ) (ls : ℕ → ℕ) : Type 0 where
  pub content : Content S.linedefined S.nabslineinfo S.abslineinfo S.lineinfo m ls
  pub bound : m ≤ 128 * S.nabslineinfo + 128
  pub small : S.iwthabs ≤ 129
  pub next :
      ((S.previousline ≡ pos (before S.linedefined ls m))
        × (m ≤ base S.nabslineinfo S.abslineinfo + S.iwthabs))
      ⊎ (128 ≤ S.iwthabs)

-- A state after it is saved.
pub record Saved (S : FuncState) (ls : ℕ → ℕ) : Type 0 where
  pub content : Content S.linedefined S.nabslineinfo S.abslineinfo S.lineinfo S.pc ls
  pub previous : S.previousline ≡ pos (before S.linedefined ls S.pc)
  pub counted : S.pc ≤ base S.nabslineinfo S.abslineinfo + S.iwthabs
  pub few : S.iwthabs ≤ 128

Saved-Ready : (S : FuncState) (ls : ℕ → ℕ) → Saved S ls → Ready S S.pc ls
Saved-Ready S ls s =
    let counted = s.counted in
    let few = s.few in
    let (bound, inside) = base-bound s.content in
    record {
      content = s.content;
      bound = omega arith;
      small = omega arith;
      next = inl (s.previous, s.counted);
    }

savelineinfo-Saved :
    (S : FuncState) (m line : ℕ) (ls : ℕ → ℕ)
    → S.pc ≡ m + 1
    → Ready S m ls
    → Saved (savelineinfo S line) (update ls m line)
unfolding savelineinfo save_absolute save_relative
savelineinfo-Saved S m line ls at r =
    let is : S.pc - 1 ≡ m = omega arith in
    let bound = r.bound in
    let last : before S.linedefined (update ls m line) S.pc ≡ line =
      rw at (before-next S.linedefined m (update ls m line) ∙ update-at ls m line) in
    elim (Bool-cases (is_far (pos line -ℤ S.previousline) || leb maxiwthabs S.iwthabs)) [
      | inl far ↦
          rw (far, is)
            (record {
              content = rw at (Content-absolute line r.content r.bound);
              previous = ap pos (sym last);
              counted = rw (base-new S.nabslineinfo m line S.abslineinfo) (omega arith);
              few = omega arith;
            })
      | inr near ↦
          let not_far : is_far (pos line -ℤ S.previousline) ≡ false = ground arith in
          elim r.next [
            | inl (right, counted) ↦
                rw (near, is)
                  (record {
                    content = rw at (
                        Content-relative line (pos line -ℤ S.previousline) r.content not_far
                          (rw right refl));
                    previous = ap pos (sym last);
                    counted = ground arith;
                    few = ground arith;
                  })
            | inr forced ↦ absurd (ground arith)
          ]
    ]

-ℤ_cancel : (a b : ℤ) → a -ℤ (a -ℤ b) ≡ b
-ℤ_cancel a b = omega int_laws

-- Without the line of the last instruction.
removelastlineinfo-Ready :
    (S : FuncState) (m : ℕ) (ls : ℕ → ℕ)
    → S.pc ≡ m + 1
    → Saved S ls
    → Ready (removelastlineinfo S) m ls
unfolding removelastlineinfo
removelastlineinfo-Ready S m ls at s =
    let is : S.pc - 1 ≡ m = omega arith in
    let content : Content S.linedefined S.nabslineinfo S.abslineinfo S.lineinfo (m + 1) ls =
      rw (← at) s.content in
    let counted = s.counted in
    let few = s.few in
    elim (Bool-cases (is_absolute (S.lineinfo m))) [
      | inl mark ↦
          let (one, at_end) = last_absolute content mark in
          let bound = (content.absolute (S.nabslineinfo - 1) (omega arith)).1 in
          rw (is, mark)
            (record {
              content = Content-cut_absolute content mark;
              bound = omega arith;
              small = omega arith;
              next = inr (omega arith);
            })
      | inr unmarked ↦
          let fits = Content-cut_relative content unmarked in
          let (bound, inside) = base-bound fits in
          let last : S.previousline ≡ pos (ls m) =
            s.previous ∙ ap pos (rw at (before-next S.linedefined m ls)) in
          let previous : S.previousline -ℤ S.lineinfo m ≡ pos (before S.linedefined ls m) =
            rw (last, content.relative m (omega arith) unmarked)
              (-ℤ_cancel (pos (ls m)) (pos (before S.linedefined ls m))) in
          let counted' : m ≤ base S.nabslineinfo S.abslineinfo + (S.iwthabs + 255) % 256 =
            omega arith in
          rw (is, unmarked)
            (record {
              content = fits;
              bound = omega arith;
              small = omega arith;
              next = inl (previous, counted');
            })
    ]

-- The functions that the code generator calls, on a state and the lines of its instructions; after
-- removelastinstruction it calls luaK_code.
pub data Reach (linedefined : ℕ) : Bool → FuncState → (ℕ → ℕ) → Type 0 where
  start :
      (codes : ℕ → ℕ) (lineinfo : ℕ → ℤ) (absolutes : ℕ → AbsLineInfo) (ls : ℕ → ℕ)
      → Reach linedefined true (open_func codes lineinfo absolutes linedefined) ls
  code :
      {coded : Bool} {S : FuncState} {ls : ℕ → ℕ} (i line : ℕ)
      → Reach linedefined coded S ls
      → Reach linedefined true (luak_code S i line) (update ls S.pc line)
  fix :
      {S : FuncState} {ls : ℕ → ℕ} (line : ℕ)
      → 1 ≤ S.pc
      → Reach linedefined true S ls
      → Reach linedefined true (fixline S line) (update ls (S.pc - 1) line)
  remove :
      {S : FuncState} {ls : ℕ → ℕ}
      → 1 ≤ S.pc
      → Reach linedefined true S ls
      → Reach linedefined false (removelastinstruction S) ls

pc-savelineinfo : (S : FuncState) (line : ℕ) → (savelineinfo S line).pc ≡ S.pc
unfolding savelineinfo save_absolute save_relative
pc-savelineinfo S line =
    elim (Bool-cases (is_far (pos line -ℤ S.previousline) || leb maxiwthabs S.iwthabs)) [
      | inl far ↦ rw far refl
      | inr near ↦ rw near refl
    ]

pc-removelastlineinfo : (S : FuncState) → (removelastlineinfo S).pc ≡ S.pc
unfolding removelastlineinfo
pc-removelastlineinfo S = elim (Bool-cases (is_absolute (S.lineinfo (S.pc - 1)))) [
  | inl mark ↦ rw mark refl
  | inr unmarked ↦ rw unmarked refl
]

abbrev pub Holds : Bool → FuncState → (ℕ → ℕ) → Type 0
Holds true S ls = Saved S ls
Holds false S ls = Ready S S.pc ls

pub Ready-Holds : (coded : Bool) (S : FuncState) (ls : ℕ → ℕ) → Holds coded S ls → Ready S S.pc ls
Ready-Holds true S ls h = Saved-Ready S ls h
Ready-Holds false S ls h = h

pub Reach-Holds :
    {linedefined : ℕ} {coded : Bool} {S : FuncState} {ls : ℕ → ℕ}
    → Reach linedefined coded S ls
    → Holds coded S ls
unfolding open_func luak_code fixline removelastinstruction
Reach-Holds (start codes lineinfo absolutes ls) = record {
  content = record {
    absolute = λ i lt. absurd (omega arith);
    rising = λ i j l lt. absurd (omega arith);
    marked = λ k lt. absurd (omega arith);
    relative = λ k lt. absurd (omega arith);
  };
  previous = refl;
  counted = omega arith;
  few = omega arith;
}
Reach-Holds (code {coded} {S} {ls} i line r) =
    let h = Ready-Holds coded S ls (Reach-Holds r) in
    savelineinfo-Saved (record S { pc = S.pc + 1; code = update S.code S.pc i }) S.pc line ls refl
      (record { content = h.content; bound = h.bound; small = h.small; next = h.next })
Reach-Holds (fix {S} {ls} line some r) =
    savelineinfo-Saved (removelastlineinfo S) (S.pc - 1) line ls
      (pc-removelastlineinfo S ∙ omega arith)
      (removelastlineinfo-Ready S (S.pc - 1) ls (omega arith) (Reach-Holds r))
Reach-Holds (remove {S} {ls} some r) =
    let h = removelastlineinfo-Ready S (S.pc - 1) ls (omega arith) (Reach-Holds r) in
    rw (pc-removelastlineinfo S)
      (record { content = h.content; bound = h.bound; small = h.small; next = h.next })
