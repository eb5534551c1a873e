-- ===== src/Handlers/Firewall.antt =====
-- internal/handlers/handler_firewall_aliases.go
pub mod Limits
pub mod Reading
pub mod Posting
pub mod Loading
pub mod Advancing
pub mod Removing
pub mod Blacklisting
pub mod Succeeding
use dashboard_site.Common.{
  ℕ, ◌+◌, ◌/◌, String, Bool, true, false, not, ◌&&◌, ◌||◌, Option, none, some, List, [], ◌∷◌, ◌==◌,
  leb, map, if◌then◌else◌, contains, trim_space, find_where, select_where,
}
use dashboard_site.Common.Keyed.{lookup}
use mathlib.Core.Option
use dashboard_site.Config.{Config, FirewallAliasConfig}
use dashboard_site.Models.Address.{Net, inet_arg}
use dashboard_site.Models.Principal.{
  Principal, User, user, service_account, has_scope, matches_owner, get_iss, get_sub, get_groups,
}
use dashboard_site.Models.Whitelist.{EntryView, WhitelistStatus, is_active, is_blacklisted}
use dashboard_site.Storage.Sql.{Session, StorageError, duplicate_ip}
use dashboard_site.Storage.Whitelist.Schema.{Tables}
use dashboard_site.Storage.Whitelist.Read.{
  is_ip_blacklisted, count_user_active_ips, count_total_active_ips, get_whitelist_entry_by_id,
  get_all_whitelist_entries, get_user_whitelist_entries,
}
use dashboard_site.Storage.Whitelist.Write.{
  NewEntry, add_ip_to_whitelist, remove_ip_from_whitelist, blacklist_ip_address,
}
use dashboard_site.Handlers.Http.{
  Check, pass, refuse, ◌>>=◌, ◌>>◌, require, or_refuse, Reply, success, error, Handler, finish,
  attempt, checked,
}
use dashboard_site.Handlers.Scopes.{
  firewall_read_own, firewall_request_own, firewall_revoke_own, firewall_read_all,
  firewall_revoke_all, firewall_blacklist,
}

-- who asks, and what SplitHostPort(RemoteAddr) and UserAgent() give
pub record Caller : Type 0 where
  pub principal : Option Principal
  pub remote_host : Option String
  pub user_agent : String

pub record AddRequest : Type 0 where
  pub alias_name : String
  pub ip_address : String
  pub description : String

abbrev pub with_scope : Config → Option Principal → (Principal → Bool) → Check Principal
with_scope cfg who allowed = do p ← or_refuse who 401; require (allowed p) 403; pass p

abbrev pub as_user : Principal → Check User
as_user (user u) = pass u
as_user (service_account a) = refuse 403

-- the alias of that name whose group the user is in
abbrev pub grants : String → User → FirewallAliasConfig → Bool
grants name u a = a.name == name && contains a.auth_group u.groups

pub record Accepted : Type 0 where
  pub requester : User
  pub alias : FirewallAliasConfig
  pub address : String
  pub description : String

-- POSTAddIPEntry down to the choice of the alias
unfoldable pub check_add : Net → Config → Option Principal → Option AddRequest → Check Accepted
check_add net cfg who body = do
  p ← with_scope cfg who (λ p. has_scope cfg p firewall_request_own)
  req ← or_refuse body 400
  require (not (trim_space req.alias_name == "")) 400
  require (not (trim_space req.ip_address == "")) 400
  address ← or_refuse (net.parse_ip (trim_space (trim_space req.ip_address))) 400
  u ← as_user p
  alias ← or_refuse (find_where (grants (trim_space req.alias_name) u) cfg.aliases) 403
  pass (record { requester = u; alias = alias; address = address; description = req.description })

-- an empty text becomes nil
abbrev pub or_nil : String → Option String
or_nil s = if s == "" then none else some s

abbrev pub host_or_nil : Option String → Option String
host_or_nil none = none
host_or_nil (some s) = or_nil s

abbrev pub add_status : StorageError → ℕ
add_status duplicate_ip = 409
add_status _ = 500

abbrev pub new_entry : Accepted → ℕ → NewEntry
new_entry a now = record {
  owner_iss = a.requester.iss;
  owner_sub = a.requester.sub;
  alias_name = a.alias.name;
  alias_uuid = a.alias.uuid;
  ip_address = a.address;
  description = a.description;
  expires_at = Option.map (λ ttl. now + ttl) a.alias.default_ttl;
}

-- removed, removed_by_admin or blacklisted_by_admin
abbrev pub is_gone : WhitelistStatus → Bool
is_gone WhitelistStatus.removed = true
is_gone WhitelistStatus.removed_by_admin = true
is_gone WhitelistStatus.blacklisted_by_admin = true
is_gone _ = false

abbrev pub may_revoke : Config → Principal → Bool
may_revoke cfg p = has_scope cfg p firewall_revoke_own || has_scope cfg p firewall_revoke_all

-- `entry_id` is none where the path parameter is missing or is no number
unfoldable pub check_path :
    Config → Option Principal → (Principal → Bool) → Option ℕ → Check (Principal × ℕ)
check_path cfg who allowed entry_id = do
  p ← with_scope cfg who allowed
  n ← or_refuse entry_id 400
  pass (p, n)

-- the client's data are recorded only where the owner removes the entry
abbrev pub if_owner : Bool → Option String → Option String
if_owner true o = o
if_owner false o = none

module _ (net : Net) where
  -- the checks of POSTAddIPEntry against the database: blacklist and limits
  unfoldable pub check_limits : {B : Type 0} → Accepted → Handler Tables B → Handler Tables B
  check_limits a next =
      attempt (is_ip_blacklisted net a.alias.uuid a.address) (λ _. 500)
        λ blacklisted.
          if blacklisted
          then finish (error 403)
          else (attempt (count_user_active_ips a.requester.iss a.requester.sub a.alias.uuid)
              (λ _. 500)
              λ mine.
                if leb a.alias.max_ips_per_user mine
                then finish (error 400)
                else (attempt (count_total_active_ips a.alias.uuid) (λ _. 500)
                    λ total. if leb a.alias.max_total_ips total then finish (error 400) else next))

  unfoldable pub store_request : Accepted → Caller → Handler Tables EntryView
  store_request a caller s =
      attempt
        (add_ip_to_whitelist net (new_entry a s.clock)
          (inet_arg net (host_or_nil caller.remote_host)) (or_nil caller.user_agent))
        add_status (λ entry. finish (success entry)) s

  unfoldable pub post_add_ip_entry : Config → Caller → Option AddRequest → Handler Tables EntryView
  post_add_ip_entry cfg caller body =
      checked (check_add net cfg caller.principal body) λ a. check_limits a (store_request a caller)

  unfoldable pub remove_entry : Config → Caller → Principal → ℕ → EntryView → Handler Tables Unit
  remove_entry cfg caller p n v =
      let is_owner = matches_owner p v.entry.owner_iss v.entry.owner_sub in
      if not is_owner && not (has_scope cfg p firewall_revoke_all)
      then finish (error 403)
      else (if is_gone v.entry.status
          then finish (error 400)
          else attempt
              (remove_ip_from_whitelist n (get_iss p) (get_sub p)
                (inet_arg net (if_owner is_owner (host_or_nil caller.remote_host)))
                (if_owner is_owner (or_nil caller.user_agent)))
              (λ _. 500) λ _. finish (success tt))

  unfoldable pub delete_remove_ip_entry : Config → Caller → Option ℕ → Handler Tables Unit
  delete_remove_ip_entry cfg caller entry_id =
      checked (check_path cfg caller.principal (may_revoke cfg) entry_id) λ q.
        attempt (get_whitelist_entry_by_id net q.1) (λ _. 404)
          λ v. remove_entry cfg caller q.0 q.1 v

  -- the reason is what the request body gives, if it gives one
  unfoldable pub delete_blacklist_ip_entry :
      Config → Caller → Option ℕ → Option String → Handler Tables Unit
  delete_blacklist_ip_entry cfg caller entry_id reason =
      checked (check_path cfg caller.principal (λ p. has_scope cfg p firewall_blacklist) entry_id)
        λ q.
          attempt (get_whitelist_entry_by_id net q.1) (λ _. 404)
            λ v.
              if is_blacklisted v.entry.status
              then finish (error 400)
              else attempt
                  (blacklist_ip_address net v.entry.alias_uuid v.entry.ip_address (get_iss q.0)
                    (get_sub q.0) (trim_space (Option.get_or reason "")))
                  (λ _. 500) λ _. finish (success tt)
