-- ===== src/Common/Lists.antt =====
-- Lists measured by native numbers, predicates over lists by recursion, and the table operations
-- that the queries use.
use Prim.Native.Nat.{ℕ, suc, ◌+◌}
use mathlib.Core.Path.{◌≡◌}
use mathlib.Core.Bool.{Bool, false, ◌||◌}
use mathlib.Core.Option.{Option, none, some}
use mathlib.Core.List.{List, [], ◌∷◌, ◌++◌}
use native.Mathlib.Omega.{arith}
use dashboard_site.Common.Tests.{if◌then◌else◌}

module _ {ℓ} {A : Type ℓ} where
  abbrev pub length : List A → ℕ
  length [] = 0
  length (x ∷ xs) = suc (length xs)

  pub length-append : (xs ys : List A) → length (xs ++ ys) ≡ length xs + length ys
  length-append [] ys = omega arith
  length-append (x ∷ xs) ys = omega (arith, length-append xs ys)

module _ {ℓ} {A : Type ℓ} (p : A → Bool) where
  -- `SELECT … WHERE p`
  unfoldable pub select_where : List A → List A
  select_where [] = []
  select_where (x ∷ xs) = let rest = select_where xs in if p x then x ∷ rest else rest

  -- `SELECT COUNT(*) … WHERE p`
  unfoldable pub count_where : List A → ℕ
  count_where [] = 0
  count_where (x ∷ xs) = (if p x then 1 else 0) + count_where xs

  -- the first row that passes, for `LIMIT 1` and for a lookup by a key
  unfoldable pub find_where : List A → Option A
  find_where [] = none
  find_where (x ∷ xs) = let rest = find_where xs in if p x then some x else rest

  -- `EXISTS (SELECT … WHERE p)`
  unfoldable pub any_where : List A → Bool
  any_where [] = false
  any_where (x ∷ xs) = p x || any_where xs

  -- `UPDATE … SET f WHERE p`
  unfoldable pub update_where : (A → A) → List A → List A
  update_where f [] = []
  update_where f (x ∷ xs) = (if p x then f x else x) ∷ update_where f xs

  pub count_where-append :
      (xs ys : List A) → count_where (xs ++ ys) ≡ count_where xs + count_where ys
  unfolding count_where
  count_where-append [] ys = omega arith
  count_where-append (x ∷ xs) ys = omega (arith, count_where-append xs ys)

-- `ORDER BY`: a stable insertion sort, where `before` is the strict order
module _ {ℓ} {A : Type ℓ} (before : A → A → Bool) where
  unfoldable pub insert_by : A → List A → List A
  insert_by x [] = x ∷ []
  insert_by x (y ∷ ys) = if before y x then y ∷ insert_by x ys else x ∷ y ∷ ys

  unfoldable pub sort_by : List A → List A
  unfolding insert_by
  sort_by [] = []
  sort_by (x ∷ xs) = insert_by x (sort_by xs)

unfoldable pub flat_map {ℓ κ} : {A : Type ℓ} {B : Type κ} → (A → List B) → List A → List B
flat_map f [] = []
flat_map f (x ∷ xs) = f x ++ flat_map f xs

module _ {ℓ κ} {A : Type ℓ} (P : A → Type κ) where
  abbrev pub All : List A → Type κ
  All [] = Unit
  All (x ∷ xs) = P x × All xs

  pub All-append : (xs ys : List A) → All xs → All ys → All (xs ++ ys)
  All-append [] ys h k = k
  All-append (x ∷ xs) ys (p, h) k = (p, All-append xs ys h k)

  pub All-concat : (xs : List A) (y : A) → All xs → P y → All (xs ++ y ∷ [])
  All-concat xs y h p = All-append xs (y ∷ []) h (p, tt)

module _ {ℓ κ} {A : Type ℓ} (R : A → A → Type κ) where
  abbrev pub AllPairs : List A → Type κ
  AllPairs [] = Unit
  AllPairs (x ∷ xs) = All (R x) xs × AllPairs xs

pub All-map {ℓ κ μ} :
    {A : Type ℓ} (P : A → Type κ) (Q : A → Type μ) (f : (a : A) → P a → Q a) (xs : List A)
    → All P xs
    → All Q xs
All-map P Q f [] h = tt
All-map P Q f (x ∷ xs) (p, h) = (f x p, All-map P Q f xs h)

-- `for _, x := range xs { body }`, where the body changes a state
unfoldable pub for_each {ℓ κ} : {A : Type ℓ} {S : Type κ} → (A → S → S) → List A → S → S
for_each body [] s = s
for_each body (x ∷ xs) s = for_each body xs (body x s)
