-- ===== src/Prelude/Cases.antt =====
-- A property of a branching expression, by what its scrutinee is.
use mathlib.Core.Path.{◌≡◌, refl}
use mathlib.Core.Bool.{Bool, true, false}
use mathlib.Core.Option.{Option, none, some}
use ttbot_repo_placeholder.Prelude.Tests.{if◌then◌else◌}

module _ {ℓ κ} {R : Type ℓ} (P : R → Type κ) where
  pub if_case : (c : Bool) {x y : R} → (c ≡ true → P x) → (c ≡ false → P y) → P (if c then x else y)
  if_case true h k = h refl
  if_case false h k = k refl

  pub option_case {μ} :
      {A : Type μ} (o : Option A) {x : R} {f : A → R}
      → (o ≡ none → P x)
      → ((a : A) → o ≡ some a → P (f a))
      → P (elim o [ none ↦ x | some a ↦ f a ])
  option_case none h k = h refl
  option_case (some a) h k = k a refl
