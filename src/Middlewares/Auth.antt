-- ===== src/Middlewares/Auth.antt =====
-- internal/middlewares/require_auth.go: VerifyServiceAccount, and the middlewares, which pass a request
-- on with its principal or stop it with a status.
pub mod Verifying
pub mod Soundness
pub mod RoundTrip
pub mod Routes
pub mod Keeping
use dashboard_site.Common.{ℕ, String, Bool, true, false, Option, none, some, ltb}
use dashboard_site.Config.{Config}
use dashboard_site.Models.Principal.{User, ServiceAccount, Principal, user, service_account}
use dashboard_site.Storage.Sql.{Result, ok, err, Session}
use dashboard_site.Storage.Accounts.{Accounts, get_service_account_by_lookup_id}
use dashboard_site.Handlers.Http.{Check, pass, refuse}
use dashboard_site.Middlewares.Header.{extract_authorization_header}
use dashboard_site.Middlewares.Token.{Hasher, parse_service_token}

-- `failed` stands for errors that are passed on
pub data TokenError : Type 0 where
  failed invalid deleted disabled expired : TokenError

pub data Verdict : Type 0 where
  accepted : ServiceAccount → Verdict
  rejected : TokenError → Verdict

judge_expiry : ℕ → ServiceAccount → Bool → Verdict
judge_expiry now a true = rejected TokenError.expired
judge_expiry now a false = accepted a

judge_disabled : ℕ → ServiceAccount → Bool → Verdict
unfolding judge_expiry
judge_disabled now a true = rejected TokenError.disabled
judge_disabled now a false = judge_expiry now a (ltb a.token_expires_at now)

judge_deleted : ℕ → ServiceAccount → Option ℕ → Verdict
unfolding judge_disabled
judge_deleted now a (some at) = rejected TokenError.deleted
judge_deleted now a none = judge_disabled now a a.is_disabled

-- the checks of an account once it is found, by whether the secret matches
unfoldable pub judge : ℕ → ServiceAccount → Option Bool → Verdict
unfolding judge_deleted
judge now a none = rejected TokenError.failed
judge now a (some false) = rejected TokenError.invalid
judge now a (some true) = judge_deleted now a a.deleted_at

module _ (h : Hasher) where
  judged : String → Result ServiceAccount × Session Accounts → Verdict × Session Accounts
  judged secret (ok a, s) = (judge s.clock a (h.matches secret a.secret_hash), s)
  judged secret (err e, s) = (rejected TokenError.failed, s)

  verify_parsed : Option (String × String) → Session Accounts → Verdict × Session Accounts
  unfolding judged
  verify_parsed none s = (rejected TokenError.failed, s)
  verify_parsed (some (lookup_id, secret)) s =
      judged secret (get_service_account_by_lookup_id lookup_id s)

  unfoldable pub verify_service_account : String → Session Accounts → Verdict × Session Accounts
  unfolding verify_parsed
  verify_service_account token = verify_parsed (parse_service_token token)

  -- with a token, its account or nobody
  by_verdict : Verdict × Session Accounts → Check (Option Principal) × Session Accounts
  by_verdict (accepted a, s) = (pass (some (service_account a)), s)
  by_verdict (rejected e, s) = (refuse 401, s)

  -- without a token, the user of the session
  by_cookie : Check (Option Principal) → Option User → Check (Option Principal)
  by_cookie otherwise (some u) = pass (some (user u))
  by_cookie otherwise none = otherwise

  authenticate :
      Bool
      → Option String
      → Option User
      → Check (Option Principal)
      → Session Accounts
      → Check (Option Principal) × Session Accounts
  unfolding by_verdict by_cookie
  authenticate true (some token) cookie otherwise s = by_verdict (verify_service_account token s)
  authenticate true none cookie otherwise s = (by_cookie otherwise cookie, s)
  authenticate false token cookie otherwise s = (by_cookie otherwise cookie, s)

  -- `current` is the principal that the context holds; `cookie` is the session's user
  unfoldable pub optional_auth :
      Config
      → String
      → Option User
      → Option Principal
      → Session Accounts
      → Check (Option Principal) × Session Accounts
  unfolding authenticate
  optional_auth cfg header cookie current =
      authenticate cfg.storage_enabled (extract_authorization_header header) cookie (pass current)

  unfoldable pub require_auth :
      Config
      → String
      → Option User
      → Option Principal
      → Session Accounts
      → Check (Option Principal) × Session Accounts
  unfolding authenticate
  require_auth cfg header cookie none =
      authenticate cfg.storage_enabled (extract_authorization_header header) cookie (refuse 401)
  require_auth cfg header cookie (some p) =
      authenticate cfg.storage_enabled (extract_authorization_header header) cookie (pass (some p))

-- RequireCookieAuth
unfoldable pub require_cookie_auth : Option Principal → Check (Option Principal)
require_cookie_auth (some (user u)) = pass (some (user u))
require_cookie_auth _ = refuse 401

unfoldable pub require_service_account_auth : Option Principal → Check (Option Principal)
require_service_account_auth (some (service_account a)) = pass (some (service_account a))
require_service_account_auth _ = refuse 401
