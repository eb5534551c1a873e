-- ===== src/Handlers/Http/Checks.antt =====
-- What it takes to pass the checks of a handler.
use dashboard_site.Common.{ℕ, ◌≡◌, refl, Bool, true, false, Option, none, some}
use dashboard_site.Handlers.Http.{Check, pass, refuse, ◌>>=◌, require, or_refuse}

module _ {A B : Type 0} where
  pub bind-passes :
      (m : Check A) (f : A → Check B) (b : B)
      → (m >>= f) ≡ pass b
      → (a : A) × (m ≡ pass a) × (f a ≡ pass b)
  bind-passes (pass a) f b h = (a, refl, h)
  bind-passes (refuse n) f b h = absurd (cc)

pub or_refuse-passes :
    {A : Type 0} (o : Option A) (n : ℕ) (a : A) → or_refuse o n ≡ pass a → o ≡ some a
or_refuse-passes none n a h = absurd (cc)
or_refuse-passes (some x) n a h = cc

pub require-passes : (b : Bool) (n : ℕ) (u : Unit) → require b n ≡ pass u → b ≡ true
require-passes true n u h = refl
require-passes false n u h = absurd (cc)
