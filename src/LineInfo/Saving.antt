-- ===== src/LineInfo/Saving.antt =====
-- What the line information of lua/src/lcode.c holds after instructions were coded and removed.
use luava.Base.{
  ℕ, zero, suc, ◌+◌, ◌-◌, ◌*◌, ◌%◌, ◌≤◌, ◌<◌, ◌≡◌, ◌≢◌, refl, ap, sym, ◌∙◌, arith, true, false,
}
use luava.Base.{ltb, ◌==◌, Bool-cases, inl, inr, update, update-at, update-beside}
use luava.Base.Int.{ℤ, pos, negsuc, ◌-ℤ◌}
use luava.Proto.{AbsLineInfo}
use luava.LineInfo.{abs_line_info, ls_byte, is_absolute, is_far}

-- The line before the instruction at a position.
abbrev pub before : ℕ → (ℕ → ℕ) → ℕ → ℕ
before linedefined ls zero = linedefined
before linedefined ls (suc k) = ls k

-- The line information of the `m` instructions whose lines are `ls`.
pub record Content (linedefined n : ℕ) (absolutes : ℕ → AbsLineInfo) (lineinfo : ℕ → ℤ) (m : ℕ)
    (ls : ℕ → ℕ) : Type 0 where
  pub absolute :
      (i : ℕ)
      → i < n
      → ((absolutes i).pc < m)
        × ((absolutes i).pc ≤ 128 * i + 128)
        × ((absolutes i).line ≡ ls (absolutes i).pc)
        × (is_absolute (lineinfo (absolutes i).pc) ≡ true)
  pub rising : (i j : ℕ) → i < j → j < n → (absolutes i).pc < (absolutes j).pc
  pub marked :
      (k : ℕ) → k < m → is_absolute (lineinfo k) ≡ true → (i : ℕ) × (i < n) × ((absolutes i).pc ≡ k)
  pub relative :
      (k : ℕ)
      → k < m
      → is_absolute (lineinfo k) ≡ false
      → lineinfo k ≡ pos (ls k) -ℤ pos (before linedefined ls k)

-- A difference that fits a byte is kept, and is not the mark.
ls_byte-near : (d : ℤ) → is_far d ≡ false → (ls_byte d ≡ d) × (is_absolute d ≡ false)
unfolding is_far
ls_byte-near (pos n) h =
    let small : ltb (n % 256) 128 ≡ true = ground arith in (rw small (ap pos (ground arith)), refl)
ls_byte-near (negsuc n) h =
    let small : ltb (n % 256) 128 ≡ true = ground arith in
    (rw small (ap negsuc (ground arith)), ground arith)

-- The lines up to `m` do not see the line of the instruction at `m`.
before-update :
    (linedefined : ℕ) (ls : ℕ → ℕ) (m v k : ℕ)
    → k ≤ m
    → before linedefined (update ls m v) k ≡ before linedefined ls k
before-update linedefined ls m v zero le = refl
before-update linedefined ls m v (suc k) le = update-beside ls m v k (omega arith)

module _ {linedefined n : ℕ} {absolutes : ℕ → AbsLineInfo} {lineinfo : ℕ → ℤ} {m : ℕ}
    {ls : ℕ → ℕ} where
  pub Content-absolute :
      (line : ℕ)
      → Content linedefined n absolutes lineinfo m ls
      → m ≤ 128 * n + 128
      → Content linedefined
          (n + 1)
          (update absolutes n (record { pc = m; line = line }))
          (update lineinfo m abs_line_info)
          (m + 1)
          (update ls m line)
  Content-absolute line c few = record {
    absolute = λ i lt. elim (Bool-cases (i == n)) [
      | inl last ↦
          let here : (m == m) ≡ true = ground arith in
          rw (last, here) (omega arith, ground arith, refl, refl)
      | inr old ↦
          let (inside, bound, line_of, mark) = c.absolute i (ground arith) in
          let apart : ((absolutes i).pc == m) ≡ false = ground arith in
          rw (old, apart) (omega arith, bound, line_of, mark)
    ];
    rising = λ i j lt le. elim (Bool-cases (j == n)) [
      | inl last ↦
          let first : (i == n) ≡ false = ground arith in
          rw (last, first) (c.absolute i (ground arith)).0
      | inr old ↦
          let first : (i == n) ≡ false = ground arith in
          rw (old, first) (c.rising i j lt (ground arith))
    ];
    marked = λ k lt mark. elim (Bool-cases (k == m)) [
      | inl last ↦ (
        n,
        omega arith,
        ap (λ (e : AbsLineInfo). e.pc) (update-at absolutes n (record { pc = m; line = line }))
            ∙ ground arith,
      )
      | inr old ↦
          let (i, below, e) = c.marked k (ground arith) (
            sym (ap is_absolute (update-beside lineinfo m abs_line_info k (ground arith)))
            ∙ mark) in
          (
            i,
            omega arith,
            ap (λ (e : AbsLineInfo). e.pc)
                  (update-beside absolutes n (record { pc = m; line = line }) i (omega arith))
                ∙ e,
          )
    ];
    relative = λ k lt unmarked. elim (Bool-cases (k == m)) [
      | inl last ↦
          let mark : is_absolute (update lineinfo m abs_line_info k) ≡ true = rw last refl in
          absurd (cc (mark, unmarked))
      | inr old ↦
          rw (old, before-update linedefined ls m line k (ground arith))
            (c.relative k (ground arith) (
              sym (ap is_absolute (update-beside lineinfo m abs_line_info k (ground arith)))
              ∙ unmarked))
    ];
  }

  pub Content-relative :
      (line : ℕ) (d : ℤ)
      → Content linedefined n absolutes lineinfo m ls
      → is_far d ≡ false
      → d ≡ pos line -ℤ pos (before linedefined ls m)
      → Content linedefined n absolutes (update lineinfo m (ls_byte d)) (m + 1) (update ls m line)
  Content-relative line d c near e =
      let (same, unmarked) = ls_byte-near d near in
      let at_m : is_absolute (update lineinfo m (ls_byte d) m) ≡ false =
        ap is_absolute (update-at lineinfo m (ls_byte d) ∙ same) ∙ unmarked in
      record {
        absolute = λ i lt.
            let (inside, bound, line_of, mark) = c.absolute i lt in
            let apart : ((absolutes i).pc == m) ≡ false = ground arith in
            (omega arith, bound, rw apart line_of, rw apart mark);
        rising = c.rising;
        marked = λ k lt mark. elim (Bool-cases (k == m)) [
          | inl last ↦ let is : k ≡ m = ground arith in absurd (cc (is, mark, at_m))
          | inr old ↦
              let (i, below, f) = c.marked k (ground arith) (
                sym (ap is_absolute (update-beside lineinfo m (ls_byte d) k (ground arith)))
                ∙ mark) in
              (i, below, f)
        ];
        relative = λ k lt u. elim (Bool-cases (k == m)) [
          | inl last ↦
              let is : k ≡ m = ground arith in
              rw
                (
                  is,
                  update-at lineinfo m (ls_byte d),
                  update-at ls m line,
                  before-update linedefined ls m line m (omega arith),
                )
                (same ∙ e)
          | inr old ↦
              rw (old, before-update linedefined ls m line k (ground arith))
                (c.relative k (ground arith) (
                  sym (ap is_absolute (update-beside lineinfo m (ls_byte d) k (ground arith))) ∙ u))
        ];
      }

  -- The information without that of the last instruction.
  pub Content-cut_relative :
      Content linedefined n absolutes lineinfo (m + 1) ls
      → is_absolute (lineinfo m) ≡ false
      → Content linedefined n absolutes lineinfo m ls
  Content-cut_relative c last = record {
    absolute = λ i lt.
        let (inside, bound, line_of, mark) = c.absolute i lt in
        let apart : (absolutes i).pc ≢ m = λ e. absurd (cc (e, mark, last)) in
        (omega arith, bound, line_of, mark);
    rising = c.rising;
    marked = λ k lt mark. c.marked k (omega arith) mark;
    relative = λ k lt u. c.relative k (omega arith) u;
  }

  -- The absolute line of the last instruction is the last one.
  pub last_absolute :
      Content linedefined n absolutes lineinfo (m + 1) ls
      → is_absolute (lineinfo m) ≡ true
      → (1 ≤ n) × ((absolutes (n - 1)).pc ≡ m)
  last_absolute c last =
      let (i, below, e) = c.marked m (omega arith) last in
      elim (Bool-cases (i == n - 1)) [
        | inl is_last ↦ (omega arith, let is : i ≡ n - 1 = ground arith in cc (is, e))
        | inr other ↦
            let rises = c.rising i (n - 1) (ground arith) (omega arith) in
            let inside = (c.absolute (n - 1) (omega arith)).0 in absurd (omega arith)
      ]

  pub Content-cut_absolute :
      Content linedefined n absolutes lineinfo (m + 1) ls
      → is_absolute (lineinfo m) ≡ true
      → Content linedefined (n - 1) absolutes lineinfo m ls
  Content-cut_absolute c last =
      let (some, at_end) = last_absolute c last in
      record {
        absolute = λ i lt.
            let (inside, bound, line_of, mark) = c.absolute i (omega arith) in
            let rises = c.rising i (n - 1) (omega arith) (omega arith) in
            (omega arith, bound, line_of, mark);
        rising = λ i j lt le. c.rising i j lt (omega arith);
        marked = λ k lt mark.
            let (i, below, e) = c.marked k (omega arith) mark in
            let apart : i ≢ n - 1 =
              λ is. let f : (absolutes i).pc ≡ m = rw is at_end in absurd (omega arith) in
            (i, omega arith, e);
        relative = λ k lt u. c.relative k (omega arith) u;
      }
