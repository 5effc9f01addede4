-- ===== src/Strings/Repetition.antt =====
-- The buffer of str_rep.
use luava.Base.{ℕ, zero, suc, ◌+◌, ◌-◌, ◌*◌, ◌/◌, ◌≤◌, ◌≡◌, refl, sym, ◌∙◌, arith}
use luava.Base.{
  true, ◌||◌, ltb, List, [], ◌∷◌, ◌++◌, length, length-append, Bool-cases, inl, inr, if◌then◌else◌,
}
use luava.Base.Int.{ℤ, pos, negsuc}
use native.Mathlib.Nat.{div-add-mod', mul-le-mul_left}
use luava.Proto.{max_size}
use luava.Strings.{Outcome, ok, err, string_too_large, copies, totallen, str_rep}

length-separator : (sep : List ℕ) → length (if ltb 0 (length sep) then sep else []) ≡ length sep
length-separator [] = refl
length-separator (c ∷ sep) =
    let some_bytes : ltb 0 (suc (length sep)) ≡ true = ground arith in rw some_bytes refl

length-copies :
    (n : ℕ) (s sep : List ℕ) → length (copies n s sep) ≡ n * (length s + length sep) + length s
unfolding copies
length-copies zero s sep = omega arith
length-copies (suc n) s sep =
    let middle = if ltb 0 (length sep) then sep else [] in
    omega (
      arith,
      length-append s (middle ++ copies n s sep),
      length-append middle (copies n s sep),
      length-separator sep,
      length-copies n s sep,
    )

-- The test of str_rep bounds the product.
product-le : (n w : ℕ) → w ≤ max_size / suc n → suc n * w ≤ max_size
product-le n w h = omega (arith, div-add-mod' max_size (suc n), mul-le-mul_left (suc n) h)

totallen_lem :
    (n len lsep : ℕ)
    → suc n * (len + lsep) ≤ max_size
    → totallen (suc n) len lsep ≡ n * (len + lsep) + len
unfolding totallen
totallen_lem n len lsep h = omega arith

-- What string.rep does with its buffer: an error, or as many bytes as the buffer has.
pub data IsFilled : Outcome (ℕ × List ℕ) → Type 0 where
  refused : IsFilled (err string_too_large)
  filled : (size : ℕ) (b : List ℕ) → length b ≡ size → size ≤ max_size → IsFilled (ok (size, b))

-- string.rep either refuses or writes exactly as many bytes as its buffer was made for, a number
-- that fits MAX_SIZE, for every count and every string and separator.
pub str_rep-IsFilled : (s : List ℕ) (n : ℤ) (sep : List ℕ) → IsFilled (str_rep s n sep)
unfolding str_rep
str_rep-IsFilled s (negsuc n) sep = IsFilled.filled 0 [] refl (omega arith)
str_rep-IsFilled s (pos zero) sep = IsFilled.filled 0 [] refl (omega arith)
str_rep-IsFilled s (pos (suc n)) sep =
    elim (Bool-cases
      (ltb (max_size - length sep) (length s) || ltb (max_size / suc n) (length s + length sep))) [
        | inl large ↦ rw large IsFilled.refused
        | inr fits ↦
            let product = product-le n (length s + length sep) (ground arith) in
            rw fits (
              IsFilled.filled _ _
                (length-copies n s sep ∙ sym (totallen_lem n (length s) (length sep) product))
                (omega (arith, totallen_lem n (length s) (length sep) product)))
      ]
