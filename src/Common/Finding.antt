-- ===== src/Common/Finding.antt =====
-- Rows found by a key, across the table operations, and lists that a query selects and sorts.
use Prim.Native.Nat.{ℕ}
use mathlib.Core.Path.{◌≡◌, refl}
use mathlib.Core.Bool.{Bool, true, false}
use mathlib.Core.Option.{some}
use mathlib.Core.Logic.{◌≢◌, inl, inr}
use mathlib.Core.List.{List, [], ◌∷◌, ◌++◌, map}
use native.Mathlib.Omega.{arith}
use dashboard_site.Common.Tests.{eqb, eqb_iff, Bool-cases}
use dashboard_site.Common.Lists.{
  All, AllPairs, any_where, find_where, update_where, select_where, insert_by, sort_by,
}

module _ {ℓ} {A : Type ℓ} where
  -- a row that is found is still found when rows are added
  pub find_where-append :
      (p : A → Bool) (xs ys : List A) (a : A)
      → find_where p xs ≡ some a
      → find_where p (xs ++ ys) ≡ some a
  unfolding find_where
  find_where-append p [] ys a h = absurd (cc)
  find_where-append p (x ∷ xs) ys a h = ground (arith, find_where-append p xs ys a)

  -- an update of the row itself
  pub find_where-update_here :
      (p : A → Bool) (f : A → A)
      → ((a : A) → p (f a) ≡ p a)
      → (xs : List A) (a : A) → find_where p xs ≡ some a
      → find_where p (update_where p f xs) ≡ some (f a)
  unfolding find_where update_where
  find_where-update_here p f same [] a h = absurd (cc)
  find_where-update_here p f same (x ∷ xs) a h = elim (Bool-cases (p x)) [
    | inl e ↦ ground (arith, same x)
    | inr e ↦ ground (arith, find_where-update_here p f same xs a)
  ]

  -- an update of other rows
  pub find_where-update_other :
      (p q : A → Bool) (f : A → A)
      → ((a : A) → q a ≡ true → (p a ≡ false) × (p (f a) ≡ false))
      → (xs : List A) → find_where p (update_where q f xs) ≡ find_where p xs
  unfolding find_where update_where
  find_where-update_other p q f apart [] = refl
  find_where-update_other p q f apart (x ∷ xs) = elim (Bool-cases (q x)) [
    | inl e ↦ ground (arith, apart x e, find_where-update_other p q f apart xs)
    | inr e ↦ ground (arith, find_where-update_other p q f apart xs)
  ]

  -- an update of the one row that passes, at the end
  pub update_where-append_one :
      (p : A → Bool) (f : A → A) (xs : List A) (y : A)
      → any_where p xs ≡ false
      → p y ≡ true
      → update_where p f (xs ++ y ∷ []) ≡ xs ++ f y ∷ []
  unfolding update_where any_where
  update_where-append_one p f [] y h k = rw k refl
  update_where-append_one p f (x ∷ xs) y h k = ground (arith, update_where-append_one p f xs y)

  pub All-select {κ} :
      (P : A → Type κ) (p : A → Bool) (xs : List A) → All P xs → All P (select_where p xs)
  unfolding select_where
  All-select P p [] h = tt
  All-select P p (x ∷ xs) h = elim (Bool-cases (p x)) [
    | inl e ↦ rw e (h.0, All-select P p xs h.1)
    | inr e ↦ rw e (All-select P p xs h.1)
  ]

  pub select-passes : (p : A → Bool) (xs : List A) → All (λ a. p a ≡ true) (select_where p xs)
  unfolding select_where
  select-passes p [] = tt
  select-passes p (x ∷ xs) = elim (Bool-cases (p x)) [
    | inl e ↦ rw e (e, select-passes p xs)
    | inr e ↦ rw e (select-passes p xs)
  ]

  pub AllPairs-select {κ} :
      (R : A → A → Type κ) (p : A → Bool) (xs : List A)
      → AllPairs R xs
      → AllPairs R (select_where p xs)
  unfolding select_where
  AllPairs-select R p [] h = tt
  AllPairs-select R p (x ∷ xs) h = elim (Bool-cases (p x)) [
    | inl e ↦ rw e (All-select (R x) p xs h.0, AllPairs-select R p xs h.1)
    | inr e ↦ rw e (AllPairs-select R p xs h.1)
  ]

module _ {ℓ} {A : Type ℓ} (before : A → A → Bool) where
  All-insert {κ} :
      (P : A → Type κ) (x : A) (xs : List A) → P x → All P xs → All P (insert_by before x xs)
  unfolding insert_by
  All-insert P x [] h k = (h, tt)
  All-insert P x (y ∷ ys) h k = elim (Bool-cases (before y x)) [
    | inl e ↦ rw e (k.0, All-insert P x ys h k.1)
    | inr e ↦ rw e (h, k)
  ]

  pub All-sort {κ} : (P : A → Type κ) (xs : List A) → All P xs → All P (sort_by before xs)
  unfolding sort_by
  All-sort P [] h = tt
  All-sort P (x ∷ xs) h = All-insert P x (sort_by before xs) h.0 (All-sort P xs h.1)

  module _ {κ} (R : A → A → Type κ) (turn : (a b : A) → R a b → R b a) where
    AllPairs-insert :
        (x : A) (xs : List A) → All (R x) xs → AllPairs R xs → AllPairs R (insert_by before x xs)
    unfolding insert_by
    AllPairs-insert x [] h k = (tt, tt)
    AllPairs-insert x (y ∷ ys) h k = elim (Bool-cases (before y x)) [
      | inl e ↦ rw e (All-insert (R y) x ys (turn x y h.0) k.0, AllPairs-insert x ys h.1 k.1)
      | inr e ↦ rw e (h, k)
    ]

    pub AllPairs-sort : (xs : List A) → AllPairs R xs → AllPairs R (sort_by before xs)
    unfolding sort_by
    AllPairs-sort [] h = tt
    AllPairs-sort (x ∷ xs) h =
        AllPairs-insert x (sort_by before xs) (All-sort (R x) xs h.0) (AllPairs-sort xs h.1)

-- where keys differ, a row is found by its key
module _ {ℓ} {A : Type ℓ} (key : A → ℕ) where
  abbrev pub Apart : A → A → Type 0
  Apart a b = key a ≢ key b

  skip :
      (x a : A) (xs : List A)
      → Apart x a
      → find_where (λ b. eqb (key b) (key a)) xs ≡ some a
      → find_where (λ b. eqb (key b) (key a)) (x ∷ xs) ≡ some a
  unfolding find_where
  skip x a xs h k = ground arith

  found_after :
      (x : A) (xs ys : List A)
      → All (Apart x) ys
      → All (λ a. find_where (λ b. eqb (key b) (key a)) xs ≡ some a) ys
      → All (λ a. find_where (λ b. eqb (key b) (key a)) (x ∷ xs) ≡ some a) ys
  found_after x xs [] h k = tt
  found_after x xs (y ∷ ys) h k = (skip x y xs h.0 k.0, found_after x xs ys h.1 k.1)

  pub found_by_key :
      (xs : List A)
      → AllPairs Apart xs
      → All (λ a. find_where (λ b. eqb (key b) (key a)) xs ≡ some a) xs
  unfolding find_where
  found_by_key [] h = tt
  found_by_key (x ∷ xs) h =
      (rw ((eqb_iff (key x) (key x)).1 refl) refl, found_after x xs xs h.0 (found_by_key xs h.1))

  All-of_map {κ} : (P : ℕ → Type κ) (xs : List A) → All P (map key xs) → All (λ a. P (key a)) xs
  All-of_map P [] h = tt
  All-of_map P (x ∷ xs) h = (h.0, All-of_map P xs h.1)

  pub AllPairs-of_map : (xs : List A) → AllPairs (λ m n. m ≢ n) (map key xs) → AllPairs Apart xs
  AllPairs-of_map [] h = tt
  AllPairs-of_map (x ∷ xs) h = (All-of_map (λ n. key x ≢ n) xs h.0, AllPairs-of_map xs h.1)
