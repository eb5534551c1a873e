-- ===== src/Handlers/Accounts.antt =====
-- internal/handlers/handler_service_accounts.go. GETServiceAccounts and DELETEServiceAccount take the caller for a user
-- without a test: behind RequireCookieAuth, where internal/server/handlers.go has them, it is one.
pub mod Keeping
pub mod Changing
pub mod Granting
pub mod Posting
pub mod Listing
use dashboard_site.Common.{
  ℕ, String, Bool, true, false, not, ◌&&◌, ◌||◌, ◌==◌, Option, none, some, List, [], ◌∷◌, map, ltb,
  contains, trim_space, if◌then◌else◌,
}
use Prim.Native.String.{len}
use text.Mathlib.Text.{starts_with}
use dashboard_site.Config.{Config}
use dashboard_site.Models.Principal.{
  User, ServiceAccount, Principal, user, service_account, user_scopes,
}
use dashboard_site.Storage.Sql.{Sql}
use dashboard_site.Storage.Accounts.{
  Accounts, get_service_account_by_id, get_service_accounts_by_creator,
}
use dashboard_site.Storage.Accounts.Writing.{
  create_service_account, pause_service_account, unpause_service_account, is_kept,
}
use dashboard_site.Storage.Accounts.Writing
use dashboard_site.Middlewares.Token.{Hasher, Token, generate_api_token}
use dashboard_site.Handlers.Http.{
  Check, pass, refuse, require, or_refuse, ◌>>=◌, ◌>>◌, success, error, Handler, finish, attempt,
  checked,
}

-- HasAllScopes
unfoldable pub has_all_scopes : List String → List String → Bool
has_all_scopes owned [] = true
has_all_scopes owned (scope ∷ rest) = contains scope owned && has_all_scopes owned rest

-- the body of POSTServiceAccount; `none` is a time that does not parse
pub record AccountBody : Type 0 where
  pub name : String
  pub token_expires_at : Option ℕ
  pub scopes : List String

-- what is drawn at random: the bytes of the token, and the UUID
pub record Draws : Type 0 where
  pub lookup_bytes : List ℕ
  pub secret_bytes : List ℕ
  pub uuid : String

abbrev pub as_user : Option Principal → Option User
as_user (some (user u)) = some u
as_user _ = none

abbrev pub is_none_of : List String → Bool
is_none_of [] = true
is_none_of (_ ∷ _) = false

-- POSTServiceAccount down to the token: who asks, for what, and until when
unfoldable pub check_account :
    Config → Option Principal → Option AccountBody → ℕ → Check (User × AccountBody × ℕ)
check_account cfg who body now = do
  u ← or_refuse (as_user who) 401
  req ← or_refuse body 400
  require (not (trim_space req.name == "")) 400
  require (not (ltb 255 (len req.name))) 400
  require (not (is_none_of req.scopes)) 400
  expiry ← or_refuse req.token_expires_at 400
  require (not (ltb expiry now)) 400
  require (has_all_scopes (user_scopes cfg u) req.scopes) 403
  pass (u, req, expiry)

unfoldable pub wanted_account : Config → Draws → Token → ℕ → User × AccountBody × ℕ → ServiceAccount
wanted_account cfg draws token now (u, req, expiry) = record {
  sub = draws.uuid;
  iss = cfg.external_url;
  name = req.name;
  lookup_id = token.lookup_id;
  secret_hash = token.hashed_secret;
  token_expires_at = expiry;
  scopes = req.scopes;
  is_disabled = false;
  deleted_at = none;
  created_by_sub = u.sub;
  created_by_iss = u.iss;
  created_at = now;
}

-- a reply that holds an account: without its lookup id and its hash
pub record AccountView : Type 0 where
  pub sub : String
  pub iss : String
  pub name : String
  pub token : Option String
  pub expires_at : ℕ
  pub is_disabled : Bool
  pub deleted_at : Option ℕ
  pub scopes : List String
  pub created_by_iss : String
  pub created_by_sub : String
  pub created_at : ℕ

abbrev pub shown : Option String → ServiceAccount → AccountView
shown token a = record {
  sub = a.sub;
  iss = a.iss;
  name = a.name;
  token = token;
  expires_at = a.token_expires_at;
  is_disabled = a.is_disabled;
  deleted_at = a.deleted_at;
  scopes = a.scopes;
  created_by_iss = a.created_by_iss;
  created_by_sub = a.created_by_sub;
  created_at = a.created_at;
}

abbrev pub reply_with : {A : Type 0} → A → Handler Accounts A
reply_with a = finish (success a)

-- the handler at the time `now`
unfoldable pub post_at :
    Hasher
    → Config
    → Option Principal
    → Option AccountBody
    → Draws
    → ℕ
    → Handler Accounts AccountView
post_at h cfg who body draws now = checked (check_account cfg who body now) λ q.
    checked (or_refuse (generate_api_token h draws.lookup_bytes draws.secret_bytes) 500) λ token.
      attempt (create_service_account (wanted_account cfg draws token now q)) (λ _. 500)
        λ a. reply_with (shown (some token.raw) a)

unfoldable pub post_service_account :
    Hasher → Config → Option Principal → Option AccountBody → Draws → Handler Accounts AccountView
post_service_account h cfg who body draws s = post_at h cfg who body draws s.clock s

unfoldable pub get_service_accounts : User → Handler Accounts (List AccountView)
get_service_accounts u =
    attempt (get_service_accounts_by_creator u.iss u.sub) (λ _. 500)
      λ accounts. reply_with (map (shown none) accounts)

-- GETServiceAccountWhoami
unfoldable pub whoami : Option Principal → Check AccountView
whoami (some (service_account a)) = pass (shown none a)
whoami _ = refuse 401

abbrev pub is_creator : User → ServiceAccount → Bool
is_creator u a = a.created_by_iss == u.iss && a.created_by_sub == u.sub

unfoldable pub may_change : User → ServiceAccount → Check Unit
may_change u a = require (is_creator u a) 403 >> require (is_kept a.deleted_at) 410

-- what DELETEServiceAccount, PATCHServiceAccountPause and PATCHServiceAccountUnpause share
unfoldable pub manage :
    (String → String → Sql Accounts Unit) → User → String → String → Handler Accounts Unit
manage change u iss sub = checked (require (not (iss == "" || sub == "")) 400) λ _.
    attempt (get_service_account_by_id iss sub) (λ _. 404)
      λ a. checked (may_change u a) λ _. attempt (change iss sub) (λ _. 500) reply_with

unfoldable pub delete_service_account : User → String → String → Handler Accounts Unit
delete_service_account = manage Writing.delete_service_account

unfoldable pub patch_service_account_pause :
    Option Principal → String → String → Handler Accounts Unit
patch_service_account_pause who iss sub =
    checked (or_refuse (as_user who) 401) λ u. manage pause_service_account u iss sub

unfoldable pub patch_service_account_unpause :
    Option Principal → String → String → Handler Accounts Unit
patch_service_account_unpause who iss sub =
    checked (or_refuse (as_user who) 401) λ u. manage unpause_service_account u iss sub

pub record ScopeInfo : Type 0 where
  pub scope : String
  pub disabled : Bool

abbrev scope_info : String → ScopeInfo
scope_info scope = record { scope = scope; disabled = starts_with scope "firewall:" }

-- GETUserScopes
unfoldable pub get_user_scopes : Config → Option Principal → Check (List ScopeInfo)
get_user_scopes cfg (some (user u)) = pass (map scope_info (user_scopes cfg u))
get_user_scopes cfg _ = refuse 401
