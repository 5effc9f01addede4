-- ===== src/Base/Arrays.antt =====
-- Arrays as functions of the position.
use Prim.Native.Nat.{ℕ}
use mathlib.Core.Path.{◌≡◌, refl}
use mathlib.Core.Logic.{◌≢◌}
use native.Mathlib.Omega.{arith}
use mathlib.Core.Bool.{true, false}
use luava.Base.Tests.{◌==◌, if◌then◌else◌}

module _ {ℓ} {A : Type ℓ} where
  -- f[i] = v
  abbrev pub update : (ℕ → A) → ℕ → A → ℕ → A
  update f i v j = if j == i then v else f j

  pub update-at : (f : ℕ → A) (i : ℕ) (v : A) → update f i v i ≡ v
  update-at f i v = let here : (i == i) ≡ true = ground arith in rw here refl

  pub update-beside : (f : ℕ → A) (i : ℕ) (v : A) (j : ℕ) → j ≢ i → update f i v j ≡ f j
  update-beside f i v j h = let other : (j == i) ≡ false = ground arith in rw other refl
