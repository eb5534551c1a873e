-- ===== src/Middlewares/Auth/Soundness.antt =====
-- Whom OptionalAuth lets through.
use dashboard_site.Common.{
  ℕ, ◌≡◌, ◌⊎◌, inl, inr, refl, String, Bool, true, false, Option, none, some,
}
use dashboard_site.Config.{Config}
use dashboard_site.Models.Principal.{User, Principal, user, service_account}
use dashboard_site.Storage.Sql.{Session}
use dashboard_site.Storage.Accounts.{Accounts}
use dashboard_site.Handlers.Http.{Check, pass, refuse}
use dashboard_site.Middlewares.Header.{extract_authorization_header}
use dashboard_site.Middlewares.Token.{Hasher}
use dashboard_site.Middlewares.Auth.{
  Verdict, accepted, rejected, verify_service_account, by_verdict, by_cookie, authenticate,
  optional_auth,
}
use dashboard_site.Middlewares.Auth.Verifying.{IsGenuine, Verified, verify_sound}

module _ (h : Hasher) (cfg : Config) (header : String) (cookie : Option User) (t : Accounts)
    (now : ℕ) where
  -- no token is read, or none is there
  abbrev pub WithoutToken : Type 0
  WithoutToken = (cfg.storage_enabled ≡ false) ⊎ (extract_authorization_header header ≡ none)

  abbrev pub WithToken : String → Type 0
  WithToken token =
      (cfg.storage_enabled ≡ true) × (extract_authorization_header header ≡ some token)

  abbrev pub Authenticated : Check (Option Principal) → Type 0
  Authenticated (pass (some (service_account a))) =
      (token : String) × WithToken token × IsGenuine h t now token a
  Authenticated (pass (some (user u))) = WithoutToken × (cookie ≡ some u)
  Authenticated (pass none) = WithoutToken × (cookie ≡ none)
  Authenticated (refuse n) = ((token : String) × WithToken token) × (n ≡ 401)

  by_verdict_sound :
      (token : String) (v : Verdict) (s : Session Accounts)
      → WithToken token
      → Verified h t now token v
      → Authenticated (by_verdict h (v, s)).0
  unfolding by_verdict
  by_verdict_sound token (accepted a) s w k = (token, w, k)
  by_verdict_sound token (rejected e) s w k = ((token, w), refl)

  by_cookie_sound :
      (c : Option User) → WithoutToken → cookie ≡ c → Authenticated (by_cookie h (pass none) c)
  unfolding by_cookie
  by_cookie_sound (some u) w e = (w, e)
  by_cookie_sound none w e = (w, e)

  authenticate_sound :
      (enabled : Bool) (token : Option String) (s : Session Accounts)
      → cfg.storage_enabled ≡ enabled
      → extract_authorization_header header ≡ token
      → s.tables ≡ t
      → s.clock ≡ now
      → Authenticated (authenticate h enabled token cookie (pass none) s).0
  unfolding authenticate
  authenticate_sound true (some token) s on e same at =
      by_verdict_sound token (verify_service_account h token s).0
        (verify_service_account h token s).1 (on, e) (verify_sound h t now token s same at)
  authenticate_sound true none s on e same at = by_cookie_sound cookie (inr e) refl
  authenticate_sound false token s off e same at = by_cookie_sound cookie (inl off) refl

-- Whom OptionalAuth lets through, whichever statements fail. A request with a bearer token, where
-- storage is enabled, goes on as the service account that the token names and whose secret it has,
-- which is neither deleted nor disabled nor expired, with the scopes stored for it; or it stops with
-- 401, and never falls back to the session's user. Any other request goes on as the session's user, or
-- as nobody where there is none.
pub optional_auth_outcome :
    (h : Hasher) (cfg : Config) (header : String) (cookie : Option User) (s : Session Accounts)
    → Authenticated h cfg header cookie s.tables s.clock
        (optional_auth h cfg header cookie none s).0
unfolding optional_auth
optional_auth_outcome h cfg header cookie s =
    authenticate_sound h cfg header cookie s.tables s.clock cfg.storage_enabled
      (extract_authorization_header header) s refl refl refl refl
