-- ===== src/Common/Members.antt =====
-- Laws of `contains`.
use Prim.Native.String.{String}
use mathlib.Core.Path.{◌≡◌, refl, sym, ◌∙◌, ap}
use mathlib.Core.Bool.{Bool, true, false, ◌&&◌, ◌||◌}
use mathlib.Core.List.{List, [], ◌∷◌, ◌++◌}
use mathlib.Core.Logic.{inl, inr}
use native.Mathlib.Omega.{arith}
use text.Mathlib.Text.{◌==◌}
use text.Mathlib.TextEquality.{eq_iff}
use dashboard_site.Common.Tests.{Bool-cases}
use dashboard_site.Common.Lists.{select_where}
use dashboard_site.Common.Text.{contains, dedupe, dedupe_from}

pub contains-append :
    (s : String) (xs ys : List String) → contains s (xs ++ ys) ≡ (contains s xs || contains s ys)
unfolding contains
contains-append s [] ys = refl
contains-append s (x ∷ xs) ys = ground (arith, contains-append s xs ys)

pub contains-select_where :
    (s : String) (p : String → Bool) (xs : List String)
    → contains s (select_where p xs) ≡ (contains s xs && p s)
unfolding contains select_where
contains-select_where s p [] = refl
contains-select_where s p (x ∷ xs) = elim (Bool-cases (x == s)) [
  | inl e ↦
      let same : x ≡ s = (eq_iff x s).0 e in ground (arith, contains-select_where s p xs, ap p same)
  | inr e ↦ ground (arith, contains-select_where s p xs)
]

contains-dedupe_from :
    (s : String) (keys xs : List String)
    → (contains s keys || contains s (dedupe_from keys xs)) ≡ (contains s keys || contains s xs)
unfolding dedupe_from contains
contains-dedupe_from s keys [] = refl
contains-dedupe_from s keys (x ∷ xs) = elim (Bool-cases (x == s)) [
  | inl e ↦
      let same : x ≡ s = (eq_iff x s).0 e in
      ground (
        arith,
        contains-dedupe_from s keys xs,
        contains-dedupe_from s (x ∷ keys) xs,
        ap (λ y. contains y keys) same,
      )
  | inr e ↦ ground (arith, contains-dedupe_from s keys xs, contains-dedupe_from s (x ∷ keys) xs)
]

-- `dedupe` neither loses a text nor adds one
pub contains-dedupe : (s : String) (xs : List String) → contains s (dedupe xs) ≡ contains s xs
unfolding dedupe contains
contains-dedupe s xs = contains-dedupe_from s [] xs

pub eq_sym : (s t : String) → (s == t) ≡ (t == s)
eq_sym s t = elim (Bool-cases (s == t)) [
  | inl e ↦ e ∙ sym ((eq_iff t s).1 (sym ((eq_iff s t).0 e)))
  | inr e ↦ elim (Bool-cases (t == s)) [
    | inl k ↦ absurd (differ (sym ((eq_iff s t).1 (sym ((eq_iff t s).0 k))) ∙ e))
    | inr k ↦ e ∙ sym k
  ]
]
  where
    differ : true ≡ false → ⊥
    differ e = cc
