-- ===== src/System/Accounts/Passing.antt =====
-- From POSTServiceAccount to OptionalAuth.
use dashboard_site.Common.{
  ℕ, ◌≤◌, ◌≡◌, ◌∙◌, refl, sym, ap, subst, String, true, false, Option, some, List, arith, All,
  length, find_where, find_where-append_one, any_where, eq_refl, some-cancel,
}
use dashboard_site.Config.{Config}
use dashboard_site.Models.Principal.{User, ServiceAccount, Principal, service_account}
use dashboard_site.Storage.Sql.{Session}
use dashboard_site.Storage.Sql.Calm.{calm}
use dashboard_site.Storage.Accounts.{Accounts, has_lookup_id}
use dashboard_site.Storage.Accounts.Writing.{new_account, may_insert}
use dashboard_site.Middlewares.Token.{Hasher}
use dashboard_site.Middlewares.Auth.{optional_auth}
use dashboard_site.Middlewares.Auth.RoundTrip.{generated_token_authenticates}
use dashboard_site.Middlewares.Header.{extract_authorization_header}
use dashboard_site.Handlers.Http.{Reply, success, pass}
use dashboard_site.Handlers.Accounts.{
  AccountBody, Draws, AccountView, wanted_account, shown, post_service_account,
}
use dashboard_site.Handlers.Accounts.Posting.{
  Owned, IsPosted, Posted, made, stored_scopes, account_outcome,
}

module _ (h : Hasher) (cfg : Config) (who : Option Principal) (body : Option AccountBody)
    (draws : Draws) (old : Accounts) (now : ℕ) (owned : All (Owned old) old.scopes) (t : Accounts)
    (p : IsPosted h cfg who body draws old now t) where
  abbrev account : ServiceAccount
  account = made h cfg who body draws old now p.request p.token

  abbrev row : ServiceAccount
  row = new_account account now

  new_id : any_where (has_lookup_id account.lookup_id) old.rows ≡ false
  new_id = let free : may_insert account old ≡ true = p.stored.free in ground arith

  found : find_where (has_lookup_id account.lookup_id) t.rows ≡ some row
  found =
      ap (λ (u : Accounts). find_where (has_lookup_id account.lookup_id) u.rows) p.stored.tables
      ∙ find_where-append_one (has_lookup_id account.lookup_id) old.rows row new_id
          (eq_refl account.lookup_id)

  passes :
      (header : String) (cookie : Option User) (current : Option Principal) (later : ℕ)
      → cfg.storage_enabled ≡ true
      → length draws.lookup_bytes ≡ 16
      → length draws.secret_bytes ≡ 32
      → extract_authorization_header header ≡ some p.token.raw
      → later ≤ account.token_expires_at
      → (optional_auth h cfg header cookie current (calm t later)).0
        ≡ pass (some (service_account account))
  unfolding wanted_account
  passes header cookie current later on sized_id sized_secret sent fresh =
      generated_token_authenticates h cfg draws.lookup_bytes draws.secret_bytes p.token t later row
        header cookie current on sized_id sized_secret p.drawn sent found refl refl refl fresh
      ∙ ap (λ (ss : List String). pass (some (service_account (record row { scopes = ss }))))
          (stored_scopes h cfg who body draws old now owned account t p.stored)

-- A service account that POSTServiceAccount created gets in with the token of the reply: where each stored scope has its
-- account, storage is enabled, 16 and 32 bytes were drawn, and the request succeeded, whichever statements were
-- still to fail, a request that carries the token until the expiry passes OptionalAuth, with the database at its
-- work, as the account that the reply showed, with the scopes that it showed.
pub created_account_passes :
    (h : Hasher) (cfg : Config) (who : Option Principal) (body : Option AccountBody) (draws : Draws)
    (s : Session Accounts) (v : AccountView) (raw header : String) (cookie : Option User)
    (current : Option Principal) (later : ℕ)
    → All (Owned s.tables) s.tables.scopes
    → cfg.storage_enabled ≡ true
    → length draws.lookup_bytes ≡ 16
    → length draws.secret_bytes ≡ 32
    → (post_service_account h cfg who body draws s).0 ≡ success v
    → v.token ≡ some raw
    → extract_authorization_header header ≡ some raw
    → later ≤ v.expires_at
    → (a : ServiceAccount) × ((optional_auth h cfg header cookie current
          (calm (post_service_account h cfg who body draws s).1.tables later)).0
        ≡ pass (some (service_account a)))
      × (shown (some raw) a ≡ v)
unfolding wanted_account
created_account_passes h cfg who body draws s v raw header cookie current later owned on sized_id
      sized_secret e told sent fresh =
    let t = (post_service_account h cfg who body draws s).1.tables in
    let posted =
      subst (λ (r : Reply AccountView). Posted h cfg who body draws s.tables s.clock r t) e
        (account_outcome h cfg who body draws s owned) in
    let p = posted.0 in
    let same : raw ≡ p.token.raw =
      some-cancel _ _ (sym told ∙ ap (λ (w : AccountView). w.token) posted.1) in
    (
      account h cfg who body draws s.tables s.clock owned t p,
      passes h cfg who body draws s.tables s.clock owned t p header cookie current later on sized_id
          sized_secret (sent ∙ ap some same)
          (subst (λ (n : ℕ). later ≤ n) (ap (λ (w : AccountView). w.expires_at) posted.1) fresh),
      ap (λ (r : String). shown (some r) (account h cfg who body draws s.tables s.clock owned t p))
            same
          ∙ sym posted.1,
    )
