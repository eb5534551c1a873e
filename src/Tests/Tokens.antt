-- ===== src/Tests/Tokens.antt =====
-- The theorems on tokens and middlewares at one account.
use dashboard_site.Common.{
  ℕ, ◌≡◌, refl, String, true, false, none, some, List, [], ◌∷◌, arith, ◌==◌, eq_refl, find_where,
}
use dashboard_site.Models.Principal.{ServiceAccount, service_account, user}
use dashboard_site.Storage.Sql.Calm.{calm}
use dashboard_site.Storage.Accounts.{Accounts, scopes_of, has_lookup_id}
use dashboard_site.Handlers.Http.{pass}
use dashboard_site.Middlewares.Base64.{encode}
use dashboard_site.Middlewares.Header.{extract_authorization_header, cut}
use dashboard_site.Middlewares.Token.{
  Hasher, Token, join, parse_service_token, generate_api_token, parse-join,
}
use dashboard_site.Middlewares.Auth.{optional_auth, require_cookie_auth}
use dashboard_site.Middlewares.Auth.Soundness.{Authenticated, optional_auth_outcome}
use dashboard_site.Middlewares.Auth.RoundTrip.{generated_token_authenticates}
use dashboard_site.Middlewares.Auth.Routes.{
  firewall_guard, IsCookieUser, firewall_guard-IsCookieUser,
}
use dashboard_site.Tests.Examples.{ann, settings}

pub matched : (s h : String) → some s ≡ some h → some (s == h) ≡ some true
matched s h e = cc (eq_refl s)

-- each text is its own hash
abbrev pub mirror : Hasher
mirror = record { hash = λ s. some s; matches = λ s h. some (s == h); hash_matches = matched }

abbrev pub lookup_bytes : List ℕ
lookup_bytes = 1 ∷ 2 ∷ 3 ∷ 4 ∷ 5 ∷ 6 ∷ 7 ∷ 8 ∷ 9 ∷ 10 ∷ 11 ∷ 12 ∷ 13 ∷ 14 ∷ 15 ∷ 250 ∷ []

abbrev pub secret_bytes : List ℕ
secret_bytes =
    255 ∷ 2 ∷ 3 ∷ 4 ∷ 5 ∷ 6 ∷ 7 ∷ 8 ∷ 9 ∷ 10 ∷ 11 ∷ 12 ∷ 13 ∷ 14 ∷ 15 ∷ 16 ∷ 1 ∷ 2 ∷ 3 ∷ 4 ∷ 5 ∷ 6
    ∷ 7 ∷ 8 ∷ 9 ∷ 10 ∷ 11 ∷ 12 ∷ 13 ∷ 14 ∷ 15 ∷ 200 ∷ []

abbrev pub token : Token
token = record {
  raw = "conduit_sa.AQIDBAUGBwgJCgsMDQ4P-g._wIDBAUGBwgJCgsMDQ4PEAECAwQFBgcICQoLDA0OD8g";
  lookup_id = "AQIDBAUGBwgJCgsMDQ4P-g";
  hashed_secret = "_wIDBAUGBwgJCgsMDQ4PEAECAwQFBgcICQoLDA0OD8g";
}

abbrev pub header : String
header = "bearer conduit_sa.AQIDBAUGBwgJCgsMDQ4P-g._wIDBAUGBwgJCgsMDQ4PEAECAwQFBgcICQoLDA0OD8g"

abbrev pub row : ServiceAccount
row = record {
  sub = "robot";
  iss = "dashboard";
  name = "robot";
  lookup_id = "AQIDBAUGBwgJCgsMDQ4P-g";
  secret_hash = "_wIDBAUGBwgJCgsMDQ4PEAECAwQFBgcICQoLDA0OD8g";
  token_expires_at = 100;
  scopes = [];
  is_disabled = false;
  deleted_at = none;
  created_by_sub = "ann";
  created_by_iss = "iss";
  created_at = 1;
}

abbrev pub accounts : Accounts
accounts = record {
  rows = row ∷ [];
  scopes = record { owner_iss = "dashboard"; owner_sub = "robot"; scope_name = "mtls:read" } ∷ [];
}

made : generate_api_token mirror lookup_bytes secret_bytes ≡ some token
unfolding generate_api_token join encode
made = refl

pub sent : extract_authorization_header header ≡ some token.raw
unfolding extract_authorization_header cut
sent = refl

found : find_where (has_lookup_id token.lookup_id) accounts.rows ≡ some row
unfolding find_where
found = refl

parse-join_example :
    parse_service_token (join "conduit_sa" (join (encode lookup_bytes) (encode secret_bytes)))
    ≡ some (encode lookup_bytes, encode secret_bytes)
parse-join_example = parse-join lookup_bytes secret_bytes refl refl

generated_token_authenticates_example :
    (optional_auth mirror settings header none none (calm accounts 50)).0
    ≡ pass (some (service_account (record row { scopes = scopes_of accounts row })))
generated_token_authenticates_example =
    generated_token_authenticates mirror settings lookup_bytes secret_bytes token accounts 50 row
      header none none refl refl refl made sent found refl refl refl (omega arith)

optional_auth_outcome_example :
    Authenticated mirror settings header
      (some ann)
      accounts
      50
      (optional_auth mirror settings header (some ann) none (calm accounts 50)).0
optional_auth_outcome_example =
    optional_auth_outcome mirror settings header (some ann) (calm accounts 50)

guarded : firewall_guard mirror settings "" (some ann) (calm accounts 50) ≡ pass (some (user ann))
unfolding firewall_guard optional_auth extract_authorization_header require_cookie_auth
guarded = refl

firewall_guard-IsCookieUser_example :
    IsCookieUser mirror settings "" (some ann) (calm accounts 50) (some (user ann))
firewall_guard-IsCookieUser_example =
    firewall_guard-IsCookieUser mirror settings "" (some ann) (calm accounts 50) (some (user ann))
      guarded
