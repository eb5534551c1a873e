-- ===== src/Middlewares/Auth/RoundTrip.antt =====
-- A token that GenerateAPIToken made authenticates its account.
use dashboard_site.Common.{
  ℕ, ◌≤◌, ◌≡◌, refl, sym, ap, ◌∙◌, subst, String, Bool, true, false, Option, none, some, List,
  arith, ltb, length, find_where,
}
use mathlib.Core.Option
use mathlib.Core.Option.{some-injective}
use dashboard_site.Config.{Config}
use dashboard_site.Models.Principal.{User, ServiceAccount, Principal, service_account}
use dashboard_site.Storage.Sql.{Result, ok, Session, ◌>>=◌}
use dashboard_site.Storage.Sql.Calm.{calm}
use dashboard_site.Storage.Accounts.{
  Accounts, scopes_of, has_lookup_id, get_service_account_by_lookup_id,
}
use dashboard_site.Handlers.Http.{pass}
use dashboard_site.Middlewares.Base64.{encode}
use dashboard_site.Middlewares.Header.{extract_authorization_header}
use dashboard_site.Middlewares.Token.{
  Hasher, Token, join, parse_service_token, generate_api_token, parse-join,
}
use dashboard_site.Middlewares.Auth.{
  Verdict, accepted, judge, judge_deleted, judge_disabled, judge_expiry, judged, verify_parsed,
  verify_service_account, by_verdict, authenticate, optional_auth,
}

module _ (h : Hasher) (lookup_bytes secret_bytes : List ℕ) (token : Token) where
  pub record IsGenerated : Type 0 where
    pub raw_parts : token.raw ≡ join "conduit_sa" (join (encode lookup_bytes) (encode secret_bytes))
    pub same_id : token.lookup_id ≡ encode lookup_bytes
    pub hashed : h.hash (encode secret_bytes) ≡ some token.hashed_secret

  generated :
      (o : Option String)
      → h.hash (encode secret_bytes) ≡ o
      → Option.map
          (λ hashed. record {
            raw = join "conduit_sa" (join (encode lookup_bytes) (encode secret_bytes));
            lookup_id = encode lookup_bytes;
            hashed_secret = hashed;
          })
          o
        ≡ some token
      → IsGenerated
  generated none e k = cc
  generated (some x) e k =
      let same = some-injective _ _ k in
      record {
        raw_parts = ap (λ (u : Token). u.raw) (sym same);
        same_id = ap (λ (u : Token). u.lookup_id) (sym same);
        hashed = e ∙ ap (λ (u : Token). some u.hashed_secret) same;
      }

  pub generate-IsGenerated :
      generate_api_token h lookup_bytes secret_bytes ≡ some token → IsGenerated
  unfolding generate_api_token
  generate-IsGenerated k = generated (h.hash (encode secret_bytes)) refl k

  module _ (sized_id : length lookup_bytes ≡ 16) (sized_secret : length secret_bytes ≡ 32)
      (t : Accounts) (now : ℕ) (row : ServiceAccount) (made : IsGenerated)
      (found : find_where (has_lookup_id token.lookup_id) t.rows ≡ some row)
      (same_hash : row.secret_hash ≡ token.hashed_secret) (kept : row.deleted_at ≡ none)
      (enabled : row.is_disabled ≡ false) (fresh : now ≤ row.token_expires_at) where
    abbrev account : ServiceAccount
    account = record row { scopes = scopes_of t row }

    parses : parse_service_token token.raw ≡ some (encode lookup_bytes, encode secret_bytes)
    parses =
        ap parse_service_token made.raw_parts
        ∙ parse-join lookup_bytes secret_bytes sized_id sized_secret

    reads :
        get_service_account_by_lookup_id (encode lookup_bytes) (calm t now)
        ≡ (ok account, calm t now)
    unfolding get_service_account_by_lookup_id ◌>>=◌
    reads = rw (subst (λ i. find_where (has_lookup_id i) t.rows ≡ some row) made.same_id found) refl

    in_time : ltb row.token_expires_at now ≡ false
    in_time = ground arith

    judges : judge now account (h.matches (encode secret_bytes) row.secret_hash) ≡ accepted account
    unfolding judge judge_deleted judge_disabled judge_expiry
    judges =
        ap (λ m. judge now account m)
          (ap (h.matches (encode secret_bytes)) same_hash ∙ h.hash_matches _ _ made.hashed)
        ∙ ap (λ o. judge_deleted now account o) kept
        ∙ ap (λ b. judge_disabled now account b) enabled
        ∙ ap (λ b. judge_expiry now account b) in_time

    verifies : verify_service_account h token.raw (calm t now) ≡ (accepted account, calm t now)
    unfolding verify_service_account verify_parsed judged
    verifies =
        ap (λ o. verify_parsed h o (calm t now)) parses
        ∙ ap (λ (r : Result ServiceAccount × Session Accounts). judged h (encode secret_bytes) r)
            reads
        ∙ ap (λ (v : Verdict). (v, calm t now)) judges

-- With storage enabled and the database at its work, a bearer token that GenerateAPIToken made of 16
-- and 32 bytes, whatever they are, authenticates the account that is stored under its id with its
-- hash, with the scopes stored for it, while that account is neither deleted nor disabled nor expired.
pub generated_token_authenticates :
    (h : Hasher) (cfg : Config) (lookup_bytes secret_bytes : List ℕ) (token : Token) (t : Accounts)
    (now : ℕ) (row : ServiceAccount) (header : String) (cookie : Option User)
    (current : Option Principal)
    → cfg.storage_enabled ≡ true
    → length lookup_bytes ≡ 16
    → length secret_bytes ≡ 32
    → generate_api_token h lookup_bytes secret_bytes ≡ some token
    → extract_authorization_header header ≡ some token.raw
    → find_where (has_lookup_id token.lookup_id) t.rows ≡ some row
    → row.secret_hash ≡ token.hashed_secret
    → row.deleted_at ≡ none
    → row.is_disabled ≡ false
    → now ≤ row.token_expires_at
    → (optional_auth h cfg header cookie current (calm t now)).0
      ≡ pass (some (service_account (record row { scopes = scopes_of t row })))
unfolding optional_auth authenticate by_verdict
generated_token_authenticates h cfg lookup_bytes secret_bytes token t now row header cookie current
      on sized_id sized_secret made sent found same_hash kept enabled fresh =
    ap
      (λ (b : Bool).
        (authenticate h b (extract_authorization_header header) cookie (pass current)
          (calm t now)).0)
      on
    ∙ ap (λ (o : Option String). (authenticate h true o cookie (pass current) (calm t now)).0) sent
    ∙ ap (λ (v : Verdict × Session Accounts). (by_verdict h v).0)
        (verifies h lookup_bytes secret_bytes token sized_id sized_secret t now row
          (generate-IsGenerated h lookup_bytes secret_bytes token made) found same_hash kept enabled
          fresh)
