-- ===== src/Base/Arrays.antt =====
-- Arrays as functions from the index.
use Prim.Native.Nat.{ℕ}
use mathlib.Core.Path.{◌≡◌}
use mathlib.Core.Logic.{◌≢◌}
use nexcomp.Base.Tests.{◌==◌, if◌then◌else◌, eq→==, ne→==, if-true, if-false}

module _ {ℓ} {A : Type ℓ} where
  unfoldable pub update : (ℕ → A) → ℕ → A → ℕ → A
  update f i v j = if j == i then v else f j

  pub update_same : (f : ℕ → A) (i j : ℕ) (v : A) → j ≡ i → update f i v j ≡ v
  unfolding update
  update_same f i j v h = if-true v (f j) (eq→== j i h)

  pub update_other : (f : ℕ → A) (i j : ℕ) (v : A) → j ≢ i → update f i v j ≡ f j
  unfolding update
  update_other f i j v h = if-false v (f j) (ne→== j i h)
