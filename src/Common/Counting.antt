-- ===== src/Common/Counting.antt =====
-- How many rows a statement touches.
use Prim.Native.Nat.{◌≤◌}
use mathlib.Core.Path.{◌≡◌, refl}
use mathlib.Core.Bool.{Bool, true, false}
use mathlib.Core.List.{List, [], ◌∷◌, ◌++◌}
use native.Mathlib.Omega.{arith}
use dashboard_site.Common.Lists.{count_where, update_where, select_where}

module _ {ℓ} {A : Type ℓ} where
  -- an UPDATE that affects no row changes none
  pub update_where-no_rows :
      (p : A → Bool) (f : A → A) (xs : List A) → count_where p xs ≡ 0 → update_where p f xs ≡ xs
  unfolding count_where update_where
  update_where-no_rows p f [] h = refl
  update_where-no_rows p f (x ∷ xs) h = ground (arith, update_where-no_rows p f xs)

  pub count_where_mono :
      (p q : A → Bool)
      → ((a : A) → p a ≡ true → q a ≡ true)
      → (xs : List A) → count_where p xs ≤ count_where q xs
  unfolding count_where
  count_where_mono p q k [] = ground arith
  count_where_mono p q k (x ∷ xs) = ground (arith, k x, count_where_mono p q k xs)

  pub select_where-append_one :
      (p : A → Bool) (xs : List A) (y : A)
      → p y ≡ false
      → select_where p (xs ++ y ∷ []) ≡ select_where p xs
  unfolding select_where
  select_where-append_one p [] y h = rw h refl
  select_where-append_one p (z ∷ xs) y h = rw (select_where-append_one p xs y h) refl
