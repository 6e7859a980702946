-- ===== src/Base/Panics.antt =====
-- Computations that may panic and do not: a result, and what holds of it.
use mathlib.Core.Path.{◌≡◌, refl, ap, ◌∙◌}
use mathlib.Core.Option.{Option, none, some}
use mathlib.Core.Option

module _ {A : Type 0} where
  abbrev pub Yields : (A → Type 0) → Option A → Type 0
  Yields P o = (a : A) × (o ≡ some a) × P a

  pub yields : {P : A → Type 0} (a : A) → P a → Yields P (some a)
  yields a h = (a, refl, h)

  pub weaken : {P Q : A → Type 0} (o : Option A) → Yields P o → ((a : A) → P a → Q a) → Yields Q o
  weaken o (a, e, h) f = (a, e, f a h)

module _ {A B : Type 0} where
  pub map-Yields :
      {P : A → Type 0} {Q : B → Type 0} (f : A → B) (o : Option A)
      → Yields P o
      → ((a : A) → P a → Q (f a))
      → Yields Q (Option.map f o)
  map-Yields f o (a, e, h) g = (f a, ap (Option.map f) e, g a h)

  pub bind-Yields :
      {P : A → Type 0} {Q : B → Type 0} (f : A → Option B) (o : Option A)
      → Yields P o
      → ((a : A) → P a → Yields Q (f a))
      → Yields Q (Option.bind o f)
  unfolding Option.bind
  bind-Yields f o (a, e, h) g = let (b, e2, k) = g a h in (b, ap (λ x. Option.bind x f) e ∙ e2, k)
