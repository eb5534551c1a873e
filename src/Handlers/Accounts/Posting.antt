-- ===== src/Handlers/Accounts/Posting.antt =====
-- The outcomes of POSTServiceAccount.
use dashboard_site.Common.{
  ℕ, ◌≡◌, ◌⊎◌, ◌∙◌, inl, inr, refl, sym, ap, String, Bool, true, false, ◌&&◌, ◌==◌, Option, some,
  none, List, [], ◌∷◌, ◌++◌, map, arith, All, any_where, find_where, find_where-append_one,
  select_where, some-cancel, eq_iff, eq_refl, Bool-cases,
}
use dashboard_site.Config.{Config}
use dashboard_site.Models.Principal.{User, ServiceAccount, Principal}
use dashboard_site.Storage.Sql.{ok, err, StorageError, Session}
use dashboard_site.Storage.Accounts.{Accounts, ScopeRow, is_account, scopes_of}
use dashboard_site.Storage.Accounts.Writing.{new_account, may_insert, create_service_account}
use dashboard_site.Storage.Accounts.Loading.{Reads}
use dashboard_site.Storage.Accounts.Creating.{IsStored, Created, create_ensures, scope_rows}
use dashboard_site.Middlewares.Base64.{encode}
use dashboard_site.Middlewares.Auth.RoundTrip.{generate-IsGenerated}
use dashboard_site.Middlewares.Token.{Hasher, Token, generate_api_token}
use dashboard_site.Handlers.Http.{or_refuse, Reply, success, error, attempt}
use dashboard_site.Handlers.Http.Checks.{or_refuse-passes}
use dashboard_site.Handlers.Http.Replies.{Replies, Replies-finish, Replies-checked, Replies-attempt}
use dashboard_site.Handlers.Accounts.{
  AccountBody, Draws, AccountView, reply_with, check_account, wanted_account, shown, post_at,
  post_service_account,
}
use dashboard_site.Handlers.Accounts.Granting.{IsGranted, check_account-IsGranted}

-- the foreign key of the scopes
abbrev pub Owned : Accounts → ScopeRow → Type 0
Owned t r = any_where (is_account r.owner_iss r.owner_sub) t.rows ≡ true

module _ (iss sub : String) where
  abbrev owns : ScopeRow → Bool
  owns r = r.owner_iss == iss && r.owner_sub == sub

  -- a row of the scopes has its account
  owner_there :
      (t : Accounts) (r : ScopeRow)
      → owns r ≡ true
      → Owned t r
      → any_where (is_account iss sub) t.rows ≡ true
  owner_there t r e k =
      let same_iss : r.owner_iss ≡ iss = (eq_iff r.owner_iss iss).0 (ground arith) in
      let same_sub : r.owner_sub ≡ sub = (eq_iff r.owner_sub sub).0 (ground arith) in
      ap (λ i. any_where (is_account i sub) t.rows) (sym same_iss)
      ∙ ap (λ j. any_where (is_account r.owner_iss j) t.rows) (sym same_sub)
      ∙ k

  -- so there are none for an account that is not there
  select-others :
      (t : Accounts) (rs ss : List ScopeRow)
      → any_where (is_account iss sub) t.rows ≡ false
      → All (Owned t) rs
      → select_where owns (rs ++ ss) ≡ select_where owns ss
  unfolding select_where
  select-others t [] ss e k = refl
  select-others t (r ∷ rs) ss e k = elim (Bool-cases (owns r)) [
    | inl m ↦ let there = owner_there t r m k.0 in absurd (cc)
    | inr m ↦ rw m (select-others t rs ss e k.1)
  ]

  select-own :
      (ss : List String) → map (λ r. r.scope_name) (select_where owns (scope_rows iss sub ss)) ≡ ss
  unfolding select_where
  select-own [] = refl
  select-own (s ∷ ss) = rw (eq_refl iss, eq_refl sub) (ap (λ l. s ∷ l) (select-own ss))

module _ (h : Hasher) (cfg : Config) (who : Option Principal) (body : Option AccountBody)
    (draws : Draws) (old : Accounts) (now : ℕ) where
  -- An account is stored as it was asked for, by a user who may grant what it asks for.
  pub record IsPosted (t : Accounts) : Type 0 where
    pub request : User × AccountBody × ℕ
    pub granted : IsGranted cfg who body now request
    pub token : Token
    pub drawn : generate_api_token h draws.lookup_bytes draws.secret_bytes ≡ some token
    pub hashed : h.hash (encode draws.secret_bytes) ≡ some token.hashed_secret
    pub stored : IsStored (wanted_account cfg draws token now request) old now t
    -- all that is stored, column by column
    pub tables : t ≡ record {
      rows =
          old.rows
          ++ record {
            sub = draws.uuid;
            iss = cfg.external_url;
            name = request.1.name;
            lookup_id = token.lookup_id;
            secret_hash = token.hashed_secret;
            token_expires_at = request.2;
            scopes = [];
            is_disabled = false;
            deleted_at = none;
            created_by_sub = request.0.sub;
            created_by_iss = request.0.iss;
            created_at = now;
          }
            ∷ [];
      scopes =
          old.scopes
          ++ map
              (λ s. record { owner_iss = cfg.external_url; owner_sub = draws.uuid; scope_name = s })
              request.1.scopes;
    }

  abbrev Start : Accounts → ℕ → Type 0
  Start t c = (t ≡ old) × (c ≡ now)

  -- the account as it is stored, with its scopes
  abbrev pub made : User × AccountBody × ℕ → Token → ServiceAccount
  made q token = wanted_account cfg draws token now q

  -- the reply, and the tables afterwards
  abbrev pub Posted : Reply AccountView → Accounts → Type 0
  Posted (success v) t =
      (p : IsPosted t) × (v ≡ record {
        sub = draws.uuid;
        iss = cfg.external_url;
        name = p.request.1.name;
        token = some p.token.raw;
        expires_at = p.request.2;
        is_disabled = false;
        deleted_at = none;
        scopes = p.request.1.scopes;
        created_by_iss = p.request.0.iss;
        created_by_sub = p.request.0.sub;
        created_at = now;
      })
  Posted (error n) t = (t ≡ old) ⊎ ((n ≡ 500) × IsPosted t)

  module _ (owned : All (Owned old) old.scopes) where
    fresh_key :
        (a : ServiceAccount)
        → may_insert a old ≡ true
        → any_where (is_account a.iss a.sub) old.rows ≡ false
    fresh_key a e = ground arith

    pub stored_scopes :
        (a : ServiceAccount) (t : Accounts)
        → IsStored a old now t
        → scopes_of t (new_account a now) ≡ a.scopes
    stored_scopes a t k =
        ap (λ (u : Accounts). scopes_of u (new_account a now)) k.tables
        ∙ ap (map (λ r. r.scope_name)) (
            select-others a.iss a.sub old old.scopes (scope_rows a.iss a.sub a.scopes)
              (fresh_key a k.free) owned)
        ∙ select-own a.iss a.sub a.scopes

    read_again :
        (a v : ServiceAccount) (t : Accounts)
        → Reads a.iss a.sub v t
        → IsStored a old now t
        → v ≡ record (new_account a now) { scopes = a.scopes }
    read_again a v t r k =
        let fresh : any_where (is_account a.iss a.sub) old.rows ≡ false = fresh_key a (k.free) in
        let row : r.row ≡ new_account a now = some-cancel _ _ (
          sym r.found
          ∙ ap (λ (u : Accounts). find_where (is_account a.iss a.sub) u.rows) k.tables
          ∙ find_where-append_one (is_account a.iss a.sub) old.rows (new_account a now) fresh
              (rw (eq_refl a.iss, eq_refl a.sub) refl)) in
        let scopes = stored_scopes a t k in
        r.filled
        ∙ ap (λ (b : ServiceAccount). record b { scopes = scopes_of t b }) row
        ∙ ap (λ ss. record (new_account a now) { scopes = ss }) scopes

    replied :
        (q : User × AccountBody × ℕ) (token : Token)
        → IsGranted cfg who body now q
        → generate_api_token h draws.lookup_bytes draws.secret_bytes ≡ some token
        → Replies Start
            (attempt
              (create_service_account (made q token))
              (λ _. 500)
              λ a. reply_with (shown (some token.raw) a))
            (λ r t c. Posted r t)
    unfolding wanted_account
    replied q token g d =
        Replies-attempt (Created (made q token) old now) _ _ _
          (create_ensures (made q token) old now) failure (λ v. Replies-finish _ (success_of v))
      where
        it : (t : Accounts) → IsStored (made q token) old now t → IsPosted t
        it t k = record {
          request = q;
          granted = g;
          token = token;
          drawn = d;
          hashed = (generate-IsGenerated h draws.lookup_bytes draws.secret_bytes token d).hashed;
          stored = k;
          tables = k.tables;
        }

        failure :
            (e : StorageError) (t : Accounts) (c : ℕ)
            → Created (made q token) old now (err e) t c
            → Posted (error 500) t
        failure e t c (inl k) = inl k
        failure e t c (inr k) = inr (refl, it t k)

        success_of :
            (v : ServiceAccount) (t : Accounts) (c : ℕ)
            → Created (made q token) old now (ok v) t c
            → Posted (success (shown (some token.raw) v)) t
        success_of v t c (r, k) =
            (it t k, ap (shown (some token.raw)) (read_again (made q token) v t r k))

    posted : Replies Start (post_at h cfg who body draws now) (λ r t c. Posted r t)
    unfolding post_at
    posted =
        Replies-checked (check_account cfg who body now) _
          (λ q e.
            Replies-checked
              (or_refuse (generate_api_token h draws.lookup_bytes draws.secret_bytes) 500) _
              (λ token d.
                replied q token (check_account-IsGranted cfg who body now q e)
                  (or_refuse-passes _ 500 token d))
              (λ n t c e p. inl p.0))
          (λ n t c e p. inl p.0)

-- The outcome of POSTServiceAccount, whichever statements fail, where each stored scope has its account. A reply that
-- succeeds means: the caller is a user, the body names at least one scope, the caller has each of them by the caller's
-- groups, the name is not blank and not longer than 255 bytes, the expiry is not past, and the account is stored for the
-- caller with just these scopes under the lookup id and the hash of the new token, beside all that was there; the
-- reply shows it with the token. A reply that fails leaves the tables as they were, unless it is a 500 after the whole
-- account was stored.
pub account_outcome :
    (h : Hasher) (cfg : Config) (who : Option Principal) (body : Option AccountBody) (draws : Draws)
    (s : Session Accounts)
    → All (Owned s.tables) s.tables.scopes
    → Posted h cfg who body draws s.tables s.clock
        (post_service_account h cfg who body draws s).0
        (post_service_account h cfg who body draws s).1.tables
unfolding post_service_account
account_outcome h cfg who body draws s owned =
    (posted h cfg who body draws s.tables s.clock owned).at s (refl, refl)
