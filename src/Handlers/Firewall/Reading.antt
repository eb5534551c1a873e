-- ===== src/Handlers/Firewall/Reading.antt =====
-- internal/handlers/handler_firewall_aliases.go: GETAvailableAliases and GETUserEntries.
use dashboard_site.Common.{
  ℕ, ◌/◌, String, Bool, false, not, ◌&&◌, ◌||◌, Option, none, some, List, ◌==◌, map, if◌then◌else◌,
  contains, select_where,
}
use dashboard_site.Common.Keyed.{lookup}
use mathlib.Core.Option
use dashboard_site.Config.{Config, FirewallAliasConfig}
use dashboard_site.Models.Address.{Net}
use dashboard_site.Models.Principal.{Principal, has_scope, get_iss, get_sub, get_groups}
use dashboard_site.Models.Whitelist.{EntryView}
use dashboard_site.Storage.Whitelist.Schema.{Tables}
use dashboard_site.Storage.Whitelist.Read.{get_all_whitelist_entries, get_user_whitelist_entries}
use dashboard_site.Handlers.Http.{
  Check, pass, ◌>>=◌, success, error, Handler, finish, attempt, checked,
}
use dashboard_site.Handlers.Firewall.{with_scope}
use dashboard_site.Handlers.Scopes.{firewall_read_own, firewall_read_all}

pub record AvailableAlias : Type 0 where
  pub name : String
  pub uuid : String
  pub description : String
  pub max_ips_per_user : ℕ
  pub max_total_ips : ℕ
  pub default_ttl : Option ℕ

abbrev ns_per_hour : ℕ
ns_per_hour = 3_600_000_000_000

abbrev pub as_available : FirewallAliasConfig → AvailableAlias
as_available a = record {
  name = a.name;
  uuid = a.uuid;
  description = a.description;
  max_ips_per_user = a.max_ips_per_user;
  max_total_ips = a.max_total_ips;
  default_ttl = Option.map (λ ttl. ttl / ns_per_hour) a.default_ttl;
}

abbrev has_read_scope : Option (List String) → Bool
has_read_scope none = false
has_read_scope (some scopes) = contains firewall_read_own scopes

-- the `continue` statements of the loop
abbrev pub is_available : Config → Principal → FirewallAliasConfig → Bool
is_available cfg p a =
    contains a.auth_group (get_groups p) && has_read_scope (lookup a.auth_group cfg.group_scopes)

unfoldable pub get_available_aliases : Config → Option Principal → Check (List AvailableAlias)
get_available_aliases cfg who = do
  p ← with_scope cfg who (λ p. has_scope cfg p firewall_read_own)
  pass (map as_available (select_where (is_available cfg p) cfg.aliases))

-- the query parameters, empty where they are missing
pub record EntriesQuery : Type 0 where
  pub all_users : String
  pub owner_sub : String
  pub owner_iss : String

abbrev pub is_admin_query : EntriesQuery → Bool
is_admin_query q = q.all_users == "1" || not (q.owner_sub == "") || not (q.owner_iss == "")

module _ (net : Net) where
  entries_of : Config → EntriesQuery → Principal → Handler Tables (List EntryView)
  entries_of cfg q p =
      if is_admin_query q
      then (if not (has_scope cfg p firewall_read_all)
          then finish (error 403)
          else (if q.all_users == "1"
              then attempt (get_all_whitelist_entries net) (λ _. 500) (λ vs. finish (success vs))
              else (if q.owner_sub == "" || q.owner_iss == ""
                  then finish (error 400)
                  else attempt (get_user_whitelist_entries net q.owner_iss q.owner_sub) (λ _. 500)
                      (λ vs. finish (success vs)))))
      else attempt (get_user_whitelist_entries net (get_iss p) (get_sub p)) (λ _. 500)
          (λ vs. finish (success vs))

  unfoldable pub get_user_entries :
      Config → Option Principal → EntriesQuery → Handler Tables (List EntryView)
  unfolding entries_of
  get_user_entries cfg who q =
      checked (with_scope cfg who (λ p. has_scope cfg p firewall_read_own)) (entries_of cfg q)
