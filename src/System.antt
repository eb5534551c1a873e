-- ===== src/System.antt =====
-- The whitelist as the server runs it: requests of the routes that internal/server/handlers.go registers,
-- and rounds of the background jobs, one after the other.
pub mod Safety
pub mod Certificates
pub mod Accounts
use dashboard_site.Common.{ℕ, String, Bool, Option, List, [], ◌∷◌}
use dashboard_site.Config.{Config}
use dashboard_site.Models.Address.{Net}
use dashboard_site.Storage.Sql.{Session}
use dashboard_site.Storage.Whitelist.Schema.{Tables}
use dashboard_site.Services.Firewall.{Router}
use dashboard_site.Handlers.Http.{Handler}
use dashboard_site.Handlers.Firewall.{
  Caller, AddRequest, post_add_ip_entry, delete_remove_ip_entry, delete_blacklist_ip_entry,
}
use dashboard_site.Handlers.Firewall.Reading.{EntriesQuery, get_user_entries}
use dashboard_site.Jobs.FirewallExpiration.{expire_old}
use dashboard_site.Jobs.FirewallSync.{sync_all_aliases}

-- `sync` carries the text of the router's error, should there be one
pub data Action : Type 0 where
  post : Caller → Option AddRequest → Action
  remove : Caller → Option ℕ → Action
  blacklist : Caller → Option ℕ → Option String → Action
  list : Caller → EntriesQuery → Action
  expire : Action
  sync : String → Action

-- Before an action, time passes, and a new schedule of faults is set.
pub record Round : Type 0 where
  pub action : Action
  pub clock : ℕ
  pub faults : List Bool

module _ (net : Net) (cfg : Config) (r : Router) where
  abbrev pub World : Type 0
  World = Session Tables × r.State

  unfoldable pub serve : Action → World → World
  serve (post caller body) (s, t) = ((post_add_ip_entry net cfg caller body s).1, t)
  serve (remove caller entry_id) (s, t) = ((delete_remove_ip_entry net cfg caller entry_id s).1, t)
  serve (blacklist caller entry_id reason) (s, t) =
      ((delete_blacklist_ip_entry net cfg caller entry_id reason s).1, t)
  serve (list caller q) (s, t) = ((get_user_entries net cfg caller.principal q s).1, t)
  serve expire (s, t) = ((expire_old s).1, t)
  serve (sync message) w = (sync_all_aliases net r message cfg w).1

  unfoldable pub serve_all : List Round → World → World
  unfolding serve
  serve_all [] w = w
  serve_all (o ∷ os) (s, t) =
      serve_all os (serve o.action (record s { clock = o.clock; faults = o.faults }, t))
