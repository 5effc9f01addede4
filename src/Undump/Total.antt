-- ===== src/Undump/Total.antt =====
-- luaU_undump returns a function or an error on every input.
use luava.Base.{ℕ, zero, suc, ◌-◌, ◌*◌, ◌≤◌, ◌<◌, ◌≡◌, ◌≢◌, refl, arith}
use luava.Base.{
  Bool, true, false, ◌||◌, Option, none, some, List, [], length, drop, leb, ◌==◌, Bool-cases,
  Option-cases, inl, inr, if◌then◌else◌,
}
use luava.Zio.{Zio}
use luava.Zio.Contents.{contents}
use luava.Proto.{
  Proto, TString, max_size, int_max, max_unsigned, maxshortlen, size_upvalues, signature, luac_data,
  luac_version, luac_format, luac_int, luac_inst, luac_integer, luac_num,
}
use luava.Dump.{str_eq}
use luava.Undump.{
  Load, LoadState, LoadError, Result, err, stuck, ◌>>=◌, error, load_byte, load_varint, varint_loop,
  load_size, load_int, load_word, load_number, load_integer, load_saved_string, saved_string,
  save_string, load_new_string, load_string, load_array, load_code, constant_string,
  load_constant_value, load_constant, load_each, load_constants, load_upvalue, load_upvalues,
  load_abslineinfo, load_locvar, load_debug, load_flag, load_function_with, load_function,
  check_literal, check_num, check_header, load_chunk, undump,
}
use luava.Undump.Ends.{
  left, Ends, Ends-bind, Ends-weaken, Ends-if, Ends-pure, Ends-guard, Step, Step-ok, Step-err,
  Step-none, load_block-Ends, get_block-Ends, load_align-Ends, load_byte-Ends, load_byte-none,
  load_varint-Ends,
}

-- In these, `b` bounds the bytes left before and after.
int-Ends : (b : ℕ) → Ends b b load_int
unfolding load_int
int-Ends b = load_varint-Ends b b int_max (omega arith)

first_int-Ends : (b c : ℕ) → b ≤ suc c → Ends b c load_int
unfolding load_int
first_int-Ends b c h = load_varint-Ends b c int_max h

byte-Ends : (b : ℕ) → Ends b b load_byte
byte-Ends b = load_byte-Ends b b (omega arith)

error-Ends : {A : Type 0} (b c : ℕ) (e : LoadError) → Ends {A = A} b c (error e)
error-Ends b c e S h = Step-err c e

word-Ends : (b width : ℕ) → Ends b b (load_word width)
unfolding load_word
word-Ends b width = Ends-bind b b b (load_block-Ends b width) (λ x. Ends-pure b _)

integer-Ends : (b : ℕ) → Ends b b load_integer
unfolding load_integer
integer-Ends b =
    Ends-bind b b b (load_varint-Ends b b max_unsigned (omega arith)) (λ x. Ends-pure b _)

number-Ends : (b : ℕ) → Ends b b load_number
unfolding load_number
number-Ends b = word-Ends b 8

saved_string-Ends : (b i : ℕ) → Ends b b (load_saved_string i)
unfolding load_saved_string
saved_string-Ends b i S h = elim (Bool-cases (i == 0)) [
  | inl null ↦ rw null (Step-ok b none S h)
  | inr other ↦ elim (Option-cases (saved_string i S.h)) [
    | inl missing ↦ rw (other, missing) (Step-err b LoadError.invalid_string_index)
    | inr (ts, found) ↦ rw (other, found) (Step-ok b (some ts) S h)
  ]
]

save_string-Ends : (b : ℕ) (ts : TString) → Ends b b (save_string ts)
unfolding save_string
save_string-Ends b ts S h = Step-ok b (some ts) _ h

new_string-Ends : (b size : ℕ) → Ends b b (load_new_string size)
unfolding load_new_string
new_string-Ends b size S h =
    Ends-bind b b b
      (Ends-if (leb size maxshortlen) b b (load_block-Ends b _)
        (Ends-if S.fixed b b (get_block-Ends b _) (load_block-Ends b _)))
      (λ x. save_string-Ends b _) S h

string-Ends : (b : ℕ) → Ends b b load_string
unfolding load_string load_size
string-Ends b = Ends-bind b b b (load_varint-Ends b b max_size (omega arith)) (λ size.
    Ends-if (size == 0) b b
      (Ends-bind b b b (load_varint-Ends b b max_unsigned (omega arith))
        (λ i. saved_string-Ends b i))
      (new_string-Ends b (size - 1)))

Step-if :
    {A : Type 0} (t : Bool) (c : ℕ) {o r : Result (A × LoadState)}
    → Step c o
    → Step c r
    → Step c (if t then o else r)
Step-if true c p q = p
Step-if false c p q = q

array-Ends : (b size : ℕ) → Ends b b (load_array size)
unfolding load_array
array-Ends b size S h = Step-if S.fixed b (get_block-Ends b size S h) (load_block-Ends b size S h)

code-Ends : (b : ℕ) → Ends b b load_code
unfolding load_code
code-Ends b = Ends-bind b b b (int-Ends b) (λ n.
    Ends-bind b b b (load_align-Ends b 4)
      (λ _. Ends-bind b b b (array-Ends b (n * 4)) (λ x. Ends-pure b _)))

constant_string-Ends : (b : ℕ) (s : Option TString) → Ends b b (constant_string s)
unfolding constant_string
constant_string-Ends b none = error-Ends b b LoadError.bad_constant_string
constant_string-Ends b (some ts) = Ends-pure b _

constant-Ends : (b : ℕ) → Ends b b load_constant
unfolding load_constant load_constant_value
constant-Ends b = Ends-bind b b b (byte-Ends b) (λ t. Ends-if (t == 0) b b (Ends-pure b _) (
    Ends-if (t == 1) b b (Ends-pure b _) (
      Ends-if (t == 0x11) b b (Ends-pure b _) (
        Ends-if (t == 0x13) b b (Ends-bind b b b (number-Ends b) (λ x. Ends-pure b _)) (
          Ends-if (t == 3) b b (Ends-bind b b b (integer-Ends b) (λ x. Ends-pure b _)) (
            Ends-if ((t == 4) || (t == 0x14)) b b
              (Ends-bind b b b (string-Ends b) (λ s. constant_string-Ends b s))
              (error-Ends b b LoadError.invalid_constant)))))))

each-Ends : {A : Type 0} (b n : ℕ) {m : Load A} → Ends b b m → Ends b b (load_each n m)
unfolding load_each
each-Ends b zero p = Ends-pure b _
each-Ends b (suc n) p =
    Ends-bind b b b p (λ x. Ends-bind b b b (each-Ends b n p) (λ xs. Ends-pure b _))

counted-Ends :
    {A : Type 0} (b : ℕ) {m : Load A} → Ends b b m → Ends b b (load_int >>= λ n. load_each n m)
counted-Ends b p = Ends-bind b b b (int-Ends b) (λ n. each-Ends b n p)

upvalue-Ends : (b : ℕ) → Ends b b load_upvalue
unfolding load_upvalue
upvalue-Ends b =
    Ends-bind b b b (byte-Ends b)
      (λ x. Ends-bind b b b (byte-Ends b) (λ y. Ends-bind b b b (byte-Ends b) (λ z. Ends-pure b _)))

abslineinfo-Ends : (b n : ℕ) → Ends b b (load_abslineinfo n)
unfolding load_abslineinfo
abslineinfo-Ends b n =
    Ends-bind b b b (load_align-Ends b 4)
      (λ _. Ends-bind b b b (array-Ends b (n * 8)) (λ x. Ends-pure b _))

locvar-Ends : (b : ℕ) → Ends b b load_locvar
unfolding load_locvar
locvar-Ends b =
    Ends-bind b b b (string-Ends b)
      (λ x. Ends-bind b b b (int-Ends b) (λ y. Ends-bind b b b (int-Ends b) (λ z. Ends-pure b _)))

debug-Ends : (b n : ℕ) → Ends b b (load_debug n)
unfolding load_debug
debug-Ends b sizeupvalues = Ends-bind b b b (int-Ends b) (λ n.
    Ends-bind b b b (array-Ends b n) (λ lineinfo. Ends-bind b b b (int-Ends b) (λ m.
      Ends-bind b b b (Ends-if (m == 0) b b (Ends-pure b _) (abslineinfo-Ends b m)) (λ abslineinfo.
        Ends-bind b b b (int-Ends b) (λ k.
          Ends-bind b b b (each-Ends b k (locvar-Ends b)) (λ locvars.
            Ends-bind b b b (int-Ends b) (λ j.
              Ends-bind b b b (each-Ends b (if j == 0 then 0 else sizeupvalues) (string-Ends b))
                (λ names. Ends-pure b _))))))))

flag-Ends : (b : ℕ) → Ends b b load_flag
unfolding load_flag
flag-Ends b S h = Ends-bind b b b (byte-Ends b) (λ x. Ends-pure b _) S h

constants-Ends : (b : ℕ) → Ends b b load_constants
unfolding load_constants
constants-Ends b = counted-Ends b (constant-Ends b)

upvalues-Ends : (b : ℕ) → Ends b b load_upvalues
unfolding load_upvalues
upvalues-Ends b = counted-Ends b (upvalue-Ends b)

-- A function takes a byte before it reads the functions nested in it.
function_with-Ends :
    (b c : ℕ) (nested : Load Proto)
    → b ≤ suc c
    → Ends c c nested
    → Ends b c (load_function_with nested)
unfolding load_function_with
function_with-Ends b c nested le p = Ends-bind b c c (first_int-Ends b c le) (λ linedefined.
    Ends-bind c c c (int-Ends c) (λ lastlinedefined. Ends-bind c c c (byte-Ends c) (λ numparams.
      Ends-bind c c c (flag-Ends c) (λ flag. Ends-bind c c c (byte-Ends c) (λ maxstacksize.
        Ends-bind c c c (code-Ends c) (λ code. Ends-bind c c c (constants-Ends c) (λ k.
          Ends-bind c c c (upvalues-Ends c) (λ upvalues. Ends-bind c c c (int-Ends c) (λ n.
            Ends-bind c c c (each-Ends c n p) (λ ps. Ends-bind c c c (string-Ends c) (λ source.
              Ends-bind c c c (debug-Ends c (length upvalues)) (λ debug. Ends-pure c _))))))))))))

-- Without a byte left there is no function.
int-none : (S : LoadState) → left S ≤ 0 → load_int S ≡ err LoadError.truncated_chunk
unfolding load_int load_varint varint_loop
int-none S h = rw (load_byte-none S h, ◌>>=◌) refl

function-Ends : (fuel b : ℕ) → b < fuel → Ends b b (load_function fuel)
unfolding load_function load_function_with
function-Ends zero b enough S h = absurd (omega arith)
function-Ends (suc fuel) zero enough S h =
    Step-none 0 load_int _ S LoadError.truncated_chunk (int-none S h)
function-Ends (suc fuel) (suc b) enough S h =
    Ends-weaken (suc b) b (suc b)
      (function_with-Ends (suc b) b (load_function fuel) (omega arith)
        (function-Ends fuel b (omega arith)))
      (omega arith) S h

literal-Ends : (b : ℕ) (s : List ℕ) (msg : LoadError) → Ends b b (check_literal s msg)
unfolding check_literal
literal-Ends b s msg =
    Ends-bind b b b (load_block-Ends b (length s)) (λ x. Ends-guard b (str_eq s x) msg)

num-Ends : (b tname width value : ℕ) → Ends b b (check_num tname width value)
unfolding check_num
num-Ends b tname width value = Ends-bind b b b (byte-Ends b) (λ size.
    Ends-bind b b b (Ends-guard b (width == size) (LoadError.num_size tname)) (λ _.
      Ends-bind b b b (word-Ends b width)
        (λ i. Ends-guard b (i == value) (LoadError.num_format tname))))

header-Ends : (b : ℕ) → Ends b b check_header
unfolding check_header
header-Ends b = Ends-bind b b b (literal-Ends b (drop 1 signature) LoadError.not_binary_chunk) (λ _.
    Ends-bind b b b (byte-Ends b) (λ version.
      Ends-bind b b b (Ends-guard b (version == luac_version) LoadError.version_mismatch) (λ _.
        Ends-bind b b b (byte-Ends b) (λ format.
          Ends-bind b b b (Ends-guard b (format == luac_format) LoadError.format_mismatch) (λ _.
            Ends-bind b b b (literal-Ends b luac_data LoadError.corrupted_chunk) (λ _.
              Ends-bind b b b (num-Ends b 0 4 luac_int) (λ _.
                Ends-bind b b b (num-Ends b 1 4 luac_inst) (λ _.
                  Ends-bind b b b (num-Ends b 2 8 luac_integer)
                    (λ _. num-Ends b 3 8 luac_num)))))))))

chunk-Ends : (fuel b : ℕ) → b < fuel → Ends b b (load_chunk fuel)
unfolding load_chunk
chunk-Ends fuel b enough = Ends-bind b b b (header-Ends b) (λ _.
    Ends-bind b b b (byte-Ends b) (λ nupvalues. Ends-bind b b b (function-Ends fuel b enough) (λ p.
      Ends-bind b b b (Ends-guard b (nupvalues == size_upvalues p) LoadError.corrupted_chunk)
        (λ _. Ends-pure b _))))

-- On every stream, of a valid chunk or not, and for both kinds of buffer, luaU_undump returns: the
-- fuel of the model's loops is never used up.
pub undump-returns : (z : Zio) (fixed : Bool) → undump z fixed ≢ stuck
unfolding undump
undump-returns z fixed =
    (chunk-Ends (suc (length (contents z))) (length (contents z)) (omega arith)
      (record { z = z; h = []; offset = 1; nstr = 0; fixed = fixed }) (omega arith)).ends
