-- ===== src/Common/Updates.antt =====
-- How an UPDATE moves the rows between tests.
use mathlib.Core.Path.{◌≡◌, refl}
use mathlib.Core.Bool.{Bool, true, false}
use mathlib.Core.Logic.{◌≢◌}
use mathlib.Core.List.{List, [], ◌∷◌, map}
use Prim.Native.Nat.{ℕ}
use native.Mathlib.Omega.{arith}
use dashboard_site.Common.Tests.{eqb}
use dashboard_site.Common.Lists.{All, AllPairs, any_where, update_where, select_where}

module _ {ℓ} {A : Type ℓ} where
  -- an update that makes no row pass lets none appear
  pub any_where-update_mono :
      (r p : A → Bool) (f : A → A)
      → ((a : A) → p a ≡ true → r (f a) ≡ true → r a ≡ true)
      → (xs : List A) → any_where r (update_where p f xs) ≡ true
      → any_where r xs ≡ true
  unfolding any_where update_where
  any_where-update_mono r p f k [] h = h
  any_where-update_mono r p f k (x ∷ xs) h = ground (arith, k x, any_where-update_mono r p f k xs)

  -- an update that touches none of the rows that pass keeps them
  pub any_where-update_keep :
      (r p : A → Bool) (f : A → A) (xs : List A)
      → All (λ a. r a ≡ true → p a ≡ false) xs
      → any_where r xs ≡ true
      → any_where r (update_where p f xs) ≡ true
  unfolding any_where update_where
  any_where-update_keep r p f [] k h = h
  any_where-update_keep r p f (x ∷ xs) k h = ground (arith, k.0, any_where-update_keep r p f xs k.1)

  -- an update that keeps the rows that pass
  pub any_where-update_grow :
      (r p : A → Bool) (f : A → A)
      → ((a : A) → p a ≡ true → r a ≡ true → r (f a) ≡ true)
      → (xs : List A) → any_where r xs ≡ true
      → any_where r (update_where p f xs) ≡ true
  unfolding any_where update_where
  any_where-update_grow r p f k [] h = h
  any_where-update_grow r p f k (x ∷ xs) h = ground (arith, k x, any_where-update_grow r p f k xs)

  pub update_where-congr :
      (p q : A → Bool) (f : A → A) (xs : List A)
      → All (λ a. p a ≡ q a) xs
      → update_where p f xs ≡ update_where q f xs
  unfolding update_where
  update_where-congr p q f [] h = refl
  update_where-congr p q f (x ∷ xs) h = rw (h.0, update_where-congr p q f xs h.1)

  pub All-of_any_false :
      (p : A → Bool) (xs : List A) → any_where p xs ≡ false → All (λ a. p a ≡ false) xs
  unfolding any_where
  All-of_any_false p [] h = tt
  All-of_any_false p (x ∷ xs) h = (ground arith, All-of_any_false p xs (ground arith))

  pub All-always {κ} : (P : A → Type κ) → ((a : A) → P a) → (xs : List A) → All P xs
  All-always P k [] = tt
  All-always P k (x ∷ xs) = (k x, All-always P k xs)

-- Where the keys differ, the keys of the selected rows select those rows again.
module _ {ℓ} {A : Type ℓ} (key : A → ℕ) (q : A → Bool) where
  abbrev pub key_in : List ℕ → A → Bool
  key_in ns a = any_where (λ n. eqb n (key a)) ns

  key_in-not_selected :
      (a : A) (xs : List A)
      → All (λ n. key a ≢ n) (map key xs)
      → key_in (map key (select_where q xs)) a ≡ false
  unfolding any_where select_where
  key_in-not_selected a [] h = refl
  key_in-not_selected a (x ∷ xs) h = ground (arith, h.0, key_in-not_selected a xs h.1)

  key_in-skip :
      (x : A) (xs ys : List A)
      → All (λ n. key x ≢ n) (map key ys)
      → All (λ a. key_in (map key (select_where q xs)) a ≡ q a) ys
      → All (λ a. key_in (map key (select_where q (x ∷ xs))) a ≡ q a) ys
  unfolding any_where select_where
  key_in-skip x xs [] h k = tt
  key_in-skip x xs (y ∷ ys) h k = (ground (arith, h.0, k.0), key_in-skip x xs ys h.1 k.1)

  pub key_in-selected :
      (xs : List A)
      → AllPairs (λ m n. m ≢ n) (map key xs)
      → All (λ a. key_in (map key (select_where q xs)) a ≡ q a) xs
  unfolding any_where select_where
  key_in-selected [] h = tt
  key_in-selected (x ∷ xs) h = (
    ground (arith, key_in-not_selected x xs h.0),
    key_in-skip x xs xs h.0 (key_in-selected xs h.1),
  )
