-- ===== src/Handlers/Accounts/Listing.antt =====
-- GETServiceAccounts, whose two queries read the accounts and then the scopes of all of them.
use dashboard_site.Common.{◌≡◌, Bool, false, ◌&&◌, ◌==◌, List, select_where, sort_by}
use dashboard_site.Models.Principal.{User, ServiceAccount}
use dashboard_site.Storage.Accounts.{
  Accounts, ScopeRow, scopes_of, same_key, of_key, created_by, newest_first, owned_by_one,
}

abbrev pub Apart : ServiceAccount → ServiceAccount → Type 0
Apart a b = same_key a b ≡ false

-- a row of the scopes of this account
abbrev owner : ServiceAccount → ScopeRow → Bool
owner a r = r.owner_iss == a.iss && r.owner_sub == a.sub

abbrev Exact : List ServiceAccount → ServiceAccount → Type 0
Exact accounts a = (r : ScopeRow) → (owned_by_one accounts r && of_key a r) ≡ owner a r

-- an account with the scopes that are stored for it
abbrev pub with_own : Accounts → ServiceAccount → ServiceAccount
with_own t a = record a { scopes = scopes_of t a }

-- the creator's accounts, as the first query orders them
abbrev pub accounts_of : User → Accounts → List ServiceAccount
accounts_of u t = sort_by newest_first (select_where (created_by u.iss u.sub) t.rows)
