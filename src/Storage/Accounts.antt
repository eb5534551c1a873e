-- ===== src/Storage/Accounts.antt =====
-- internal/storage/service_account_queries.go: the SELECT statements, on the tables of
-- internal/storage/migrations/002_service_accounts.up.sql. The scopes of an account stand in a table of their own; the
-- field `scopes` of a row is filled from there. The column `id`, which no query reads, is left out.
pub mod Writing
pub mod Lasting
pub mod Loading
pub mod Creating
use dashboard_site.Common.{
  ℕ, ltb, String, Bool, ◌&&◌, ◌==◌, List, [], ◌∷◌, map, any_where, find_where, select_where,
  sort_by, if◌then◌else◌,
}
use Prim.Native.String.{◌++◌}
use dashboard_site.Models.Principal.{ServiceAccount}
use dashboard_site.Storage.Sql.{Sql, ok, query, pure, ◌>>=◌}
use dashboard_site.Storage.Whitelist.Read.{or_missing}

pub record ScopeRow : Type 0 where
  pub owner_iss : String
  pub owner_sub : String
  pub scope_name : String

pub record Accounts : Type 0 where
  pub rows : List ServiceAccount
  pub scopes : List ScopeRow

abbrev pub scopes_of : Accounts → ServiceAccount → List String
scopes_of t a =
    map (λ r. r.scope_name)
      (select_where (λ r. r.owner_iss == a.iss && r.owner_sub == a.sub) t.scopes)

abbrev pub has_lookup_id : String → ServiceAccount → Bool
has_lookup_id lookup_id a = a.lookup_id == lookup_id

unfoldable pub get_service_account_by_lookup_id : String → Sql Accounts ServiceAccount
get_service_account_by_lookup_id lookup_id = do
  a ← query (λ t _. or_missing (find_where (has_lookup_id lookup_id) t.rows))
  scopes ← query (λ t _. ok (scopes_of t a))
  pure (record a { scopes = scopes })

abbrev pub is_account : String → String → ServiceAccount → Bool
is_account iss sub a = a.iss == iss && a.sub == sub

unfoldable pub get_service_account_by_id : String → String → Sql Accounts ServiceAccount
get_service_account_by_id iss sub = do
  a ← query (λ t _. or_missing (find_where (is_account iss sub) t.rows))
  scopes ← query (λ t _. ok (scopes_of t a))
  pure (record a { scopes = scopes })

abbrev pub newest_first : ServiceAccount → ServiceAccount → Bool
newest_first a b = ltb b.created_at a.created_at

abbrev pub created_by : String → String → ServiceAccount → Bool
created_by iss sub a = a.created_by_iss == iss && a.created_by_sub == sub

-- the key of `saMap`
abbrev pub key : String → String → String
key iss sub = iss ++ ":" ++ sub

abbrev pub of_key : ServiceAccount → ScopeRow → Bool
of_key a r = key r.owner_iss r.owner_sub == key a.iss a.sub

abbrev pub same_key : ServiceAccount → ServiceAccount → Bool
same_key a b = key b.iss b.sub == key a.iss a.sub

-- The loop over the scopes: each goes to the last account of the slice that has its key.
unfoldable pub fill_scopes : List ScopeRow → List ServiceAccount → List ServiceAccount
fill_scopes found [] = []
fill_scopes found (a ∷ rest) =
    let filled = map (λ r. r.scope_name) (select_where (of_key a) found) in
    let scopes = if any_where (same_key a) rest then [] else filled in
    record a { scopes = scopes } ∷ fill_scopes found rest

abbrev pub owned_by_one : List ServiceAccount → ScopeRow → Bool
owned_by_one accounts r = any_where (is_account r.owner_iss r.owner_sub) accounts

-- The second query's order by owner shows in no account.
unfoldable pub with_scopes : List ServiceAccount → Sql Accounts (List ServiceAccount)
with_scopes [] = pure []
with_scopes (a ∷ rest) = do
  found ← query (λ t _. ok (select_where (owned_by_one (a ∷ rest)) t.scopes))
  pure (fill_scopes found (a ∷ rest))

unfoldable pub get_service_accounts_by_creator :
    String → String → Sql Accounts (List ServiceAccount)
get_service_accounts_by_creator iss sub = do
  accounts ← query (λ t _. ok (sort_by newest_first (select_where (created_by iss sub) t.rows)))
  with_scopes accounts
