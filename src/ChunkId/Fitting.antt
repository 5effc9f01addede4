-- ===== src/ChunkId/Fitting.antt =====
-- luaO_chunkid writes a string that fits its buffer.
use luava.Base.{ℕ, suc, ◌+◌, ◌-◌, ◌≤◌, ◌≡◌, refl, sym, ap, min, arith}
use luava.Base.{true, ltb, leb, ◌==◌, Option, none, some}
use luava.Base.{List, [], ◌∷◌, ◌++◌, append_assoc, length, take, drop, get_or, Bool-cases, inl, inr}
use luava.Base.{length-append, length-take, length-drop, take_all, drop-append_le}
use luava.ChunkId.{
  lua_idsize, rets, pre, post, newline, literal_id, file_id, string_part, string_id, chunkid,
}

-- A string and its final 0 that fit the buffer.
pub Fits : List ℕ → Type 0
Fits out = (name : List ℕ) × (out ≡ name ++ (0 ∷ [])) × (length out ≤ lua_idsize)

-- The rest of the memory from a position in the string.
tail_is :
    (n k : ℕ) (s : List ℕ)
    → k ≤ length s
    → length s + 1 - k ≤ n
    → take n (drop k (s ++ (0 ∷ []))) ≡ drop k s ++ (0 ∷ [])
tail_is n k s le few = rw (drop-append_le k s (0 ∷ []) le) (
    take_all n (drop k s ++ (0 ∷ []))
      (omega (arith, length-append (drop k s) (0 ∷ []), length-drop k s)))

literal_id-Fits : (s : List ℕ) → 1 ≤ length s → Fits (literal_id s)
unfolding literal_id Fits
literal_id-Fits s ge = elim (Bool-cases (leb (length s) lua_idsize)) [
  | inl small ↦
      let e = tail_is (length s) 1 s ge (omega arith) in
      rw small
        (drop 1 s, e, rw e (ground (arith, length-append (drop 1 s) (0 ∷ []), length-drop 1 s)))
  | inr large ↦
      let text = take 59 (drop 1 (s ++ (0 ∷ []))) in
      rw large (
        text,
        refl,
        ground (arith, length-append text (0 ∷ []), length-take 59 (drop 1 (s ++ (0 ∷ [])))),
      )
]

file_id-Fits : (s : List ℕ) → 1 ≤ length s → Fits (file_id s)
unfolding file_id Fits
file_id-Fits s ge = elim (Bool-cases (leb (length s) lua_idsize)) [
  | inl small ↦
      let e = tail_is (length s) 1 s ge (omega arith) in
      rw small
        (drop 1 s, e, rw e (ground (arith, length-append (drop 1 s) (0 ∷ []), length-drop 1 s)))
  | inr large ↦
      let k = 1 + length s - 57 in
      let e = tail_is 57 k s (ground arith) (ground arith) in
      rw large (
        rets ++ drop k s,
        ap (λ t. rets ++ t) e,
        rw e (ground (arith, length-append (drop k s) (0 ∷ []), length-drop k s)),
      )
]

string_part-bound : (nl : Option ℕ) (s : List ℕ) → length (string_part 45 nl s) ≤ 48
unfolding string_part
string_part-bound none s = elim (Bool-cases (ltb (length s) 45)) [
  | inl small ↦ rw small (ground arith)
  | inr large ↦ rw large (
      ground
        (arith, length-append (take (min 45 (length s)) s) rets, length-take (min 45 (length s)) s))
]
string_part-bound (some n) s =
    ground (arith, length-append (take (min 45 n) s) rets, length-take (min 45 n) s)

string_id-Fits : (s : List ℕ) → Fits (string_id s)
unfolding string_id Fits
string_id-Fits s =
    let part = string_part 45 (newline s) s in
    (
      pre ++ (part ++ post),
      ap (λ t. pre ++ t) (sym (append_assoc part post (0 ∷ []))),
      omega (arith, length-append part (post ++ (0 ∷ [])), string_part-bound (newline s) s),
    )

nonempty : (s : List ℕ) (c : ℕ) → (get_or (s ++ (0 ∷ [])) 0 0 == suc c) ≡ true → 1 ≤ length s
nonempty [] c h = ground arith
nonempty (a ∷ s) c h = omega arith

-- For every source luaO_chunkid writes a string and its final 0, in LUA_IDSIZE bytes at most.
pub chunkid-Fits : (s : List ℕ) → Fits (chunkid s)
unfolding chunkid
chunkid-Fits s =
    let first = get_or (s ++ (0 ∷ [])) 0 0 in
    elim (Bool-cases (first == 61)) [
      | inl literal ↦ rw literal (literal_id-Fits s (nonempty s 60 literal))
      | inr other ↦ rw other (elim (Bool-cases (first == 64)) [
        | inl file ↦ rw file (file_id-Fits s (nonempty s 63 file))
        | inr text ↦ rw text (string_id-Fits s)
      ])
    ]
