-- ===== src/Storage/Accounts/Creating.antt =====
-- What CreateServiceAccount of internal/storage/service_account_queries.go stores: all of an account, or nothing.
use dashboard_site.Common.{
  ℕ, ◌≡◌, ◌⊎◌, ◌∙◌, inl, inr, sym, ap, String, true, not, ◌&&◌, List, [], ◌∷◌, ◌++◌, map, eqb,
  Bool-cases, any_where,
}
use mathlib.Core.List.{append-nil, append_assoc}
use dashboard_site.Models.Principal.{ServiceAccount}
use dashboard_site.Storage.Sql.{Result, ok, err, failed, transaction}
use dashboard_site.Storage.Sql.Ensures.{
  Ensures, Ensures-exec, Ensures-bind, Ensures-pure, Ensures-raise, Ensures-if, Ensures-transaction,
}
use dashboard_site.Storage.Accounts.{Accounts, ScopeRow, is_account}
use dashboard_site.Storage.Accounts.Writing.{
  restore, new_account, may_insert, insert_account, is_scope, new_scope, insert_scope,
  insert_scopes, insert_all, create_service_account,
}
use dashboard_site.Storage.Accounts.Loading.{Reads, Loaded, load_ensures}

module _ (iss sub : String) where
  abbrev pub scope_rows : List String → List ScopeRow
  scope_rows = map (new_scope iss sub)

  abbrev Extended : List String → Accounts → Result Unit → Accounts → ℕ → Type 0
  Extended ss old (ok _) t c = t ≡ record old { scopes = old.scopes ++ scope_rows ss }
  Extended ss old (err e) t c = Unit

  scope_cases :
      (s : String) (old t : Accounts) (c : ℕ)
      → t ≡ old
      → Extended (s ∷ []) old (insert_scope iss sub s t c).0 (insert_scope iss sub s t c).1 c
  unfolding insert_scope
  scope_cases s old t c h =
      elim (Bool-cases
        (not (any_where (is_scope iss sub s) t.scopes) && any_where (is_account iss sub) t.rows)) [
          | inl e ↦ rw e (λ i. record (h i) { scopes = (h i).scopes ++ new_scope iss sub s ∷ [] })
          | inr e ↦ rw e tt
        ]

  longer :
      (s : String) (ss : List String) (old : Accounts) (r : Result Unit) (t : Accounts) (c : ℕ)
      → Extended ss (record old { scopes = old.scopes ++ scope_rows (s ∷ []) }) r t c
      → Extended (s ∷ ss) old r t c
  longer s ss old (ok u) t c h =
      h
      ∙ ap (λ l. record old { scopes = l })
          (append_assoc old.scopes (scope_rows (s ∷ [])) (scope_rows ss))
  longer s ss old (err e) t c h = tt

  pub scopes_ensures :
      (ss : List String) (old : Accounts)
      → Ensures (λ t c. t ≡ old) (insert_scopes iss sub ss) (Extended ss old)
  unfolding insert_scopes
  scopes_ensures [] old =
      Ensures-pure tt
        (λ t c h. h ∙ ap (λ l. record old { scopes = l }) (sym (append-nil old.scopes)))
  scopes_ensures (s ∷ ss) old =
      Ensures-bind (Extended (s ∷ []) old) _ _
        (Ensures-exec _ _ _ (scope_cases s old) (λ t c h. tt))
        (λ u. record { at = λ st h. longer s ss old _ _ _ ((scopes_ensures ss _).at st h) })
        (λ e t c h. h)

module _ (a : ServiceAccount) (old : Accounts) (now : ℕ) where
  abbrev pub At : Accounts → ℕ → Type 0
  At t c = (t ≡ old) × (c ≡ now)

  -- the account and its scopes are stored beside what was there, where nothing stood in their way
  pub record IsStored (t : Accounts) : Type 0 where
    pub free : may_insert a old ≡ true
    pub tables : t ≡ record {
      rows = old.rows ++ new_account a now ∷ [];
      scopes = old.scopes ++ scope_rows a.iss a.sub a.scopes;
    }

  abbrev Inserted : Result ℕ → Accounts → ℕ → Type 0
  Inserted (ok n) t c =
      (may_insert a old ≡ true) × (t ≡ record old { rows = old.rows ++ new_account a now ∷ [] })
  Inserted (err e) t c = Unit

  abbrev Ended : Result Unit → Accounts → ℕ → Type 0
  Ended (ok _) t c = IsStored t
  Ended (err e) t c = Unit

  insert_cases :
      (t : Accounts) (c : ℕ) → At t c → Inserted (insert_account a t c).0 (insert_account a t c).1 c
  unfolding insert_account
  insert_cases t c (e, k) = elim (Bool-cases (may_insert a t)) [
    | inl b ↦ rw b (
      ap (may_insert a) (sym e) ∙ b,
      λ i. record (e i) { rows = (e i).rows ++ new_account a (k i) ∷ [] },
    )
    | inr b ↦ rw b tt
  ]

  stored :
      (r : Result Unit) (t : Accounts) (c : ℕ)
      → may_insert a old ≡ true
      → Extended a.iss a.sub a.scopes
          (record old { rows = old.rows ++ new_account a now ∷ [] })
          r
          t
          c
      → Ended r t c
  stored (ok u) t c e h = record { free = e; tables = h }
  stored (err x) t c e h = tt

  all_ensures : Ensures At (insert_all a) Ended
  all_ensures =
      Ensures-bind Inserted _ _ (Ensures-exec _ _ _ insert_cases (λ t c h. tt))
        (λ n.
          Ensures-if (eqb n 1) _ _
            (record {
              at = λ s h. stored _ _ _ h.0 (
                  (scopes_ensures a.iss a.sub a.scopes
                      (record old { rows = old.rows ++ new_account a now ∷ [] })).at
                    s h.1);
            })
            (Ensures-raise failed (λ t c h. tt)))
        (λ e t c h. tt)

  abbrev Committed : Result Unit → Accounts → ℕ → Type 0
  Committed (ok _) t c = IsStored t
  Committed (err e) t c = t ≡ old

  commit_ensures : Ensures At (transaction restore (insert_all a)) Committed
  commit_ensures =
      Ensures-transaction restore At (λ _ r t c. Ended r t c) Committed (λ o n u t c p r. r)
        (λ o n e t c p r. p.0) (λ o n u t c p r. p.0) (λ o c p. p.0) _
        (λ o t p. record { at = λ s h. all_ensures.at s (h.0 ∙ p.0, h.1 ∙ p.1) })

  abbrev pub Created : Result ServiceAccount → Accounts → ℕ → Type 0
  Created (ok v) t c = Reads a.iss a.sub v t × IsStored t
  Created (err e) t c = (t ≡ old) ⊎ IsStored t

  created :
      (r : Result ServiceAccount) (t : Accounts) (c : ℕ)
      → Loaded (λ t c. IsStored t) a.iss a.sub r t c
      → Created r t c
  created (ok v) t c h = h
  created (err e) t c h = inr h

  pub create_ensures : Ensures At (create_service_account a) Created
  unfolding create_service_account
  create_ensures =
      Ensures-bind Committed _ _ commit_ensures
        (λ u. record {
          at = λ s h. created _ _ _ ((load_ensures (λ t c. IsStored t) a.iss a.sub).at s h);
        })
        (λ e t c h. inl h)
