-- ===== src/Storage/Accounts/Loading.antt =====
-- GetServiceAccountByID of internal/storage/service_account_queries.go, beside what else holds of the tables.
use dashboard_site.Common.{ℕ, ◌≡◌, refl, String, Option, none, some, List, find_where}
use dashboard_site.Models.Principal.{ServiceAccount}
use dashboard_site.Storage.Sql.{Result, ok, err}
use dashboard_site.Storage.Sql.Ensures.{Ensures, Ensures-query, Ensures-bind, Ensures-pure}
use dashboard_site.Storage.Whitelist.Read.{or_missing}
use dashboard_site.Storage.Accounts.{Accounts, is_account, scopes_of, get_service_account_by_id}

-- an account as it is read: a row with its scopes
pub record Reads (iss sub : String) (a : ServiceAccount) (t : Accounts) : Type 0 where
  pub row : ServiceAccount
  pub found : find_where (is_account iss sub) t.rows ≡ some row
  pub filled : a ≡ record row { scopes = scopes_of t row }

module _ (I : Accounts → ℕ → Type 0) (iss sub : String) where
  abbrev pub Loaded : Result ServiceAccount → Accounts → ℕ → Type 0
  Loaded (ok a) t c = Reads iss sub a t × I t c
  Loaded (err e) t c = I t c

  abbrev RowFound : Result ServiceAccount → Accounts → ℕ → Type 0
  RowFound (ok row) t c = (find_where (is_account iss sub) t.rows ≡ some row) × I t c
  RowFound (err e) t c = I t c

  abbrev ScopesFound : ServiceAccount → Result (List String) → Accounts → ℕ → Type 0
  ScopesFound row (ok ss) t c = (ss ≡ scopes_of t row) × RowFound (ok row) t c
  ScopesFound row (err e) t c = I t c

  row_found :
      (o : Option ServiceAccount) (t : Accounts) (c : ℕ)
      → find_where (is_account iss sub) t.rows ≡ o
      → I t c
      → RowFound (or_missing o) t c
  row_found none t c e h = h
  row_found (some row) t c e h = (e, h)

  filled_row :
      (row : ServiceAccount) (ss : List String) (t : Accounts) (c : ℕ)
      → ScopesFound row (ok ss) t c
      → Loaded (ok (record row { scopes = ss })) t c
  filled_row row ss t c (e, (found, h)) =
      (record { row = row; found = found; filled = λ i. record row { scopes = e i } }, h)

  pub load_ensures : Ensures I (get_service_account_by_id iss sub) Loaded
  unfolding get_service_account_by_id
  load_ensures =
      Ensures-bind RowFound _ _ (Ensures-query _ _ _ (λ t c h. row_found _ t c refl h) (λ t c h. h))
        (λ row.
          Ensures-bind (ScopesFound row) _ _
            (Ensures-query _ _ _ (λ t c h. (refl, h)) (λ t c h. h.1))
            (λ ss. Ensures-pure _ (filled_row row ss)) (λ e t c h. h))
        (λ e t c h. h)
