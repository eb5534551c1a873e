-- ===== src/Common/Rows.antt =====
-- What the table operations keep.
use mathlib.Core.Path.{◌≡◌, refl, ap, ap₂}
use mathlib.Core.Bool.{Bool, true, false, ◌||◌}
use mathlib.Core.Option.{none, some}
use mathlib.Core.Logic.{inl, inr}
use mathlib.Core.List.{List, [], ◌∷◌, ◌++◌, map}
use native.Mathlib.Omega.{arith}
use dashboard_site.Common.Tests.{Bool-cases}
use dashboard_site.Common.Lists.{All, All-concat, AllPairs, find_where, any_where, update_where}

module _ {ℓ κ} {A : Type ℓ} {K : Type κ} (p : A → Bool) (f : A → A) (k : A → K)
    (same : (a : A) → k (f a) ≡ k a) where
  pub map-update_where : (xs : List A) → map k (update_where p f xs) ≡ map k xs
  unfolding update_where
  map-update_where [] = refl
  map-update_where (x ∷ xs) = elim (Bool-cases (p x)) [
    | inl e ↦ rw e (ap₂ ◌∷◌ (same x) (map-update_where xs))
    | inr e ↦ rw e (ap (λ l. k x ∷ l) (map-update_where xs))
  ]

module _ {ℓ} {A : Type ℓ} where
  pub AllPairs-append_one {κ} :
      (R : A → A → Type κ) (xs : List A) (y : A)
      → AllPairs R xs
      → All (λ x. R x y) xs
      → AllPairs R (xs ++ y ∷ [])
  AllPairs-append_one R [] y h k = (tt, tt)
  AllPairs-append_one R (x ∷ xs) y (p, h) (q, k) =
      (All-concat (R x) xs y p q, AllPairs-append_one R xs y h k)

  pub any_where-append :
      (p : A → Bool) (xs ys : List A) → any_where p (xs ++ ys) ≡ (any_where p xs || any_where p ys)
  unfolding any_where
  any_where-append p [] ys = refl
  any_where-append p (x ∷ xs) ys = ground (arith, any_where-append p xs ys)

  -- a row that does not pass makes no difference
  pub any_where-append_one :
      (p : A → Bool) (xs : List A) (y : A)
      → p y ≡ false
      → any_where p (xs ++ y ∷ []) ≡ any_where p xs
  unfolding any_where
  any_where-append_one p [] y h = rw h refl
  any_where-append_one p (x ∷ xs) y h = ap (λ b. p x || b) (any_where-append_one p xs y h)

  pub any_where-map {κ} :
      {B : Type κ} (p : B → Bool) (f : A → B) (xs : List A)
      → any_where p (map f xs) ≡ any_where (λ a. p (f a)) xs
  unfolding any_where
  any_where-map p f [] = refl
  any_where-map p f (x ∷ xs) = ap (λ b. p (f x) || b) (any_where-map p f xs)

  -- a row found passes the test, and is there
  pub find_where-any :
      (p : A → Bool) (xs : List A) (a : A)
      → find_where p xs ≡ some a
      → (p a ≡ true) × (any_where p xs ≡ true)
  unfolding find_where any_where
  find_where-any p [] a h = cc
  find_where-any p (x ∷ xs) a h = ground (arith, find_where-any p xs a)

  pub find_where-never :
      (p : A → Bool) (xs : List A) → any_where p xs ≡ false → find_where p xs ≡ none
  unfolding find_where any_where
  find_where-never p [] h = refl
  find_where-never p (x ∷ xs) h = ground (arith, find_where-never p xs)

  pub find_where-some :
      (p : A → Bool) (xs : List A) → any_where p xs ≡ true → (a : A) × (find_where p xs ≡ some a)
  unfolding find_where any_where
  find_where-some p [] h = absurd (cc)
  find_where-some p (x ∷ xs) h = elim (Bool-cases (p x)) [
    | inl e ↦ (x, rw e refl)
    | inr e ↦ let rest = find_where-some p xs (rw e at h) in (rest.0, rw e rest.1)
  ]

  pub find_where-none :
      (p : A → Bool) (xs : List A) → find_where p xs ≡ none → any_where p xs ≡ false
  unfolding find_where any_where
  find_where-none p [] h = refl
  find_where-none p (x ∷ xs) h = ground (arith, find_where-none p xs)

module _ {ℓ} {A : Type ℓ} where
  pub find_where-append_one :
      (p : A → Bool) (xs : List A) (y : A)
      → any_where p xs ≡ false
      → p y ≡ true
      → find_where p (xs ++ y ∷ []) ≡ some y
  unfolding find_where any_where
  find_where-append_one p [] y h k = rw k
  find_where-append_one p (x ∷ xs) y h k = ground (arith, find_where-append_one p xs y)

  pub any_where-false {κ} :
      (P : A → Type κ) (p : A → Bool) (xs : List A)
      → ((a : A) → P a → p a ≡ false)
      → All P xs
      → any_where p xs ≡ false
  unfolding any_where
  any_where-false P p [] f h = refl
  any_where-false P p (x ∷ xs) f (h, k) = rw (f x h) (any_where-false P p xs f k)
