-- ===== src/Middlewares/Auth/Keeping.antt =====
-- internal/middlewares/require_auth.go only reads the tables.
use dashboard_site.Common.{String, Bool, true, false, Option, none, some}
use dashboard_site.Config.{Config}
use dashboard_site.Models.Principal.{User, ServiceAccount, Principal}
use dashboard_site.Storage.Sql.{Result, ok, err, Session}
use dashboard_site.Storage.Sql.Keeps.{Keeps, Keeps-pure, Keeps-query, Keeps-bind}
use dashboard_site.Storage.Accounts.{Accounts, get_service_account_by_lookup_id}
use dashboard_site.Handlers.Http.{pass}
use dashboard_site.Middlewares.Header.{extract_authorization_header}
use dashboard_site.Middlewares.Token.{Hasher, parse_service_token}
use dashboard_site.Middlewares.Auth.{
  Verdict, accepted, rejected, judged, verify_parsed, verify_service_account, by_verdict,
  authenticate, optional_auth,
}

module _ (I : Accounts → Type 0) (h : Hasher) where
  lookup-Keeps : (lookup_id : String) → Keeps I (get_service_account_by_lookup_id lookup_id)
  unfolding get_service_account_by_lookup_id
  lookup-Keeps lookup_id =
      Keeps-bind _ _ (Keeps-query _) (λ a. Keeps-bind _ _ (Keeps-query _) (λ ss. Keeps-pure _))

  judged-keeps :
      (secret : String) (r : Result ServiceAccount × Session Accounts)
      → I r.1.tables
      → I (judged h secret r).1.tables
  unfolding judged
  judged-keeps secret (ok a, s) k = k
  judged-keeps secret (err e, s) k = k

  parsed-keeps :
      (o : Option (String × String)) (s : Session Accounts)
      → I s.tables
      → I (verify_parsed h o s).1.tables
  unfolding verify_parsed
  parsed-keeps none s k = k
  parsed-keeps (some (lookup_id, secret)) s k =
      judged-keeps secret (get_service_account_by_lookup_id lookup_id s)
        ((lookup-Keeps lookup_id).at s k)

  verdict-keeps : (v : Verdict × Session Accounts) → I v.1.tables → I (by_verdict h v).1.tables
  unfolding by_verdict
  verdict-keeps (accepted a, s) k = k
  verdict-keeps (rejected e, s) k = k

  module _ (cookie : Option User) (current : Option Principal) where
    authenticate-keeps :
        (enabled : Bool) (token : Option String) (s : Session Accounts)
        → I s.tables
        → I (authenticate h enabled token cookie (pass current) s).1.tables
    unfolding authenticate verify_service_account
    authenticate-keeps true (some token) s k =
        verdict-keeps (verify_service_account h token s)
          (parsed-keeps (parse_service_token token) s k)
    authenticate-keeps true none s k = k
    authenticate-keeps false token s k = k

    pub optional_auth-keeps :
        (cfg : Config) (header : String) (s : Session Accounts)
        → I s.tables
        → I (optional_auth h cfg header cookie current s).1.tables
    unfolding optional_auth
    optional_auth-keeps cfg header =
        authenticate-keeps cfg.storage_enabled (extract_authorization_header header)
