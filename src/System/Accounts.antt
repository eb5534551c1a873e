-- ===== src/System/Accounts.antt =====
-- The service accounts as the server handles them: requests of the routes under /service-accounts that
-- internal/server/handlers.go registers, and requests that OptionalAuth looks at, one after the other. The routes take
-- users only (RequireCookieAuth).
pub mod Safety
pub mod Passing
use dashboard_site.Common.{ℕ, String, Bool, Option, none, some, List, [], ◌∷◌}
use dashboard_site.Config.{Config}
use dashboard_site.Models.Principal.{User, user}
use dashboard_site.Storage.Sql.{Session}
use dashboard_site.Storage.Accounts.{Accounts}
use dashboard_site.Middlewares.Token.{Hasher}
use dashboard_site.Middlewares.Auth.{optional_auth}
use dashboard_site.Handlers.Accounts.{
  AccountBody, Draws, post_service_account, get_service_accounts, delete_service_account,
  patch_service_account_pause, patch_service_account_unpause,
}

pub data Action : Type 0 where
  post : User → Option AccountBody → Draws → Action
  list : User → Action
  delete pause unpause : User → String → String → Action
  authenticate : String → Option User → Action

-- Before an action, time passes, and a new schedule of faults is set.
pub record Round : Type 0 where
  pub action : Action
  pub clock : ℕ
  pub faults : List Bool

module _ (h : Hasher) (cfg : Config) where
  unfoldable pub serve : Action → Session Accounts → Session Accounts
  serve (post u body draws) s = (post_service_account h cfg (some (user u)) body draws s).1
  serve (list u) s = (get_service_accounts u s).1
  serve (delete u iss sub) s = (delete_service_account u iss sub s).1
  serve (pause u iss sub) s = (patch_service_account_pause (some (user u)) iss sub s).1
  serve (unpause u iss sub) s = (patch_service_account_unpause (some (user u)) iss sub s).1
  serve (authenticate header cookie) s = (optional_auth h cfg header cookie none s).1

  unfoldable pub serve_all : List Round → Session Accounts → Session Accounts
  unfolding serve
  serve_all [] s = s
  serve_all (o ∷ os) s =
      serve_all os (serve o.action (record s { clock = o.clock; faults = o.faults }))
