-- ===== src/Middlewares/Auth/Routes.antt =====
-- internal/server/handlers.go: the middlewares in front of the firewall's routes.
use dashboard_site.Common.{◌≡◌, sym, ap, String, Option, none, some}
use dashboard_site.Config.{Config}
use dashboard_site.Models.Principal.{User, Principal, user, service_account}
use dashboard_site.Storage.Sql.{Session}
use dashboard_site.Storage.Accounts.{Accounts}
use dashboard_site.Handlers.Http.{Check, pass, refuse, ◌>>=◌}
use dashboard_site.Middlewares.Token.{Hasher}
use dashboard_site.Middlewares.Auth.{optional_auth, require_cookie_auth}
use dashboard_site.Middlewares.Auth.Soundness.{WithoutToken, Authenticated, optional_auth_outcome}

-- r.Use(OptionalAuth) of /api, then r.Use(RequireCookieAuth) of /firewall
unfoldable pub firewall_guard :
    Hasher → Config → String → Option User → Session Accounts → Check (Option Principal)
firewall_guard h cfg header cookie s =
    (optional_auth h cfg header cookie none s).0 >>= require_cookie_auth

module _ (h : Hasher) (cfg : Config) (header : String) (cookie : Option User)
    (s : Session Accounts) where
  -- the caller is the user of the session, and no token was read
  pub record IsCookieUser (p : Option Principal) : Type 0 where
    pub who : User
    pub passed : p ≡ some (user who)
    pub signed_in : cookie ≡ some who
    pub tokenless : WithoutToken h cfg header cookie s.tables s.clock

  by_case :
      (c : Check (Option Principal)) (p : Option Principal)
      → Authenticated h cfg header cookie s.tables s.clock c
      → (c >>= require_cookie_auth) ≡ pass p
      → IsCookieUser p
  unfolding require_cookie_auth
  by_case (pass (some (user u))) p k e = record {
    who = u;
    passed = passed_value p (some (user u)) e;
    signed_in = k.1;
    tokenless = k.0;
  }
    where
      value : Check (Option Principal) → Option Principal
      value (pass q) = q
      value (refuse n) = none

      passed_value : (p q : Option Principal) → pass q ≡ pass p → p ≡ q
      passed_value p q e = sym (ap value e)
  by_case (pass (some (service_account a))) p k e = cc
  by_case (pass none) p k e = cc
  by_case (refuse n) p k e = cc

-- Whoever reaches the routes of the firewall is the user of a session, and came without a bearer
-- token, or with storage disabled: a service account never does, whatever statements fail.
pub firewall_guard-IsCookieUser :
    (h : Hasher) (cfg : Config) (header : String) (cookie : Option User) (s : Session Accounts)
    (p : Option Principal)
    → firewall_guard h cfg header cookie s ≡ pass p
    → IsCookieUser h cfg header cookie s p
unfolding firewall_guard
firewall_guard-IsCookieUser h cfg header cookie s p e =
    by_case h cfg header cookie s (optional_auth h cfg header cookie none s).0 p
      (optional_auth_outcome h cfg header cookie s) e
