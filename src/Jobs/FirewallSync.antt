-- ===== src/Jobs/FirewallSync.antt =====
-- internal/jobs/firewall_sync_job.go: syncAlias and syncAllAliases. Go visits the keys of a map in
-- any order; here they come in the order of their first insertion.
pub mod Groups
pub mod Plan
pub mod Advancing
pub mod Effect
use dashboard_site.Common.{
  ℕ, String, Bool, true, false, not, ◌&&◌, ◌||◌, Option, none, some, List, [], ◌∷◌, ◌++◌, eqb, ◌==◌,
  map, if◌then◌else◌, length, contains, dedupe, select_where, any_where, flat_map,
}
use dashboard_site.Common.Keyed.{lookup, insert}
use mathlib.Core.Option
use dashboard_site.Config.{Config, FirewallAliasConfig}
use dashboard_site.Models.Address.{Net, strip_cidr, inet_null}
use dashboard_site.Models.Whitelist.{WhitelistEntry, EntryView, EventType, is_active, is_requested}
use dashboard_site.Storage.Sql.{Result, ok, err, StorageError, Session, Sql}
use dashboard_site.Storage.Whitelist.Schema.{Tables}
use dashboard_site.Storage.Whitelist.Read.{get_all_whitelist_entries, get_system_user}
use dashboard_site.Storage.Whitelist.Write.{mark_ips_as_added, create_whitelist_event}
use dashboard_site.Services.Firewall.{Router, get_alias_ips, update_alias}

abbrev pub Groups : Type 0
Groups = List (String × List WhitelistEntry)

-- `ipToEntries[cleanIP] = append(ipToEntries[cleanIP], entry)`
unfoldable pub add_to_group : Groups → WhitelistEntry → Groups
add_to_group m e =
    let ip = strip_cidr e.ip_address in insert ip (Option.get_or (lookup ip m) [] ++ e ∷ []) m

unfoldable pub group_by_ip : Groups → List WhitelistEntry → Groups
group_by_ip m [] = m
group_by_ip m (e ∷ es) = group_by_ip (add_to_group m e) es

-- `hasActiveEntry`
abbrev pub has_active : List WhitelistEntry → Bool
has_active = any_where (λ e. is_active e.status)

abbrev pub pending_ids : List WhitelistEntry → List ℕ
pending_ids es = map (λ e. e.id) (select_where (λ e. is_requested e.status) es)

-- ipStatusMap: true is "add", false is "remove"
unfoldable pub statuses : Groups → List (String × Bool)
statuses = map (λ g. (g.0, has_active g.1))

unfoldable pub ips_to_add : List String → List (String × Bool) → List String
ips_to_add current status =
    map (λ g. g.0) (select_where (λ g. g.1 && not (contains g.0 current)) status)

abbrev is_unwanted : Option Bool → Bool
is_unwanted none = true
is_unwanted (some wanted) = not wanted

-- `current` are the keys of currentIPSet
unfoldable pub ips_to_remove : List String → List (String × Bool) → List String
ips_to_remove current status = select_where (λ ip. is_unwanted (lookup ip status)) current

-- the calls of MarkIPsAsAdded, one for each address with requested entries; an error is only logged
mark_group : String × String → List ℕ → Session Tables → Session Tables
mark_group sys [] s = s
mark_group sys (n ∷ ns) s = (mark_ips_as_added (n ∷ ns) sys.0 sys.1 s).1

unfoldable pub mark_pending : String × String → Groups → Session Tables → Session Tables
unfolding mark_group
mark_pending sys [] s = s
mark_pending sys ((ip, es) ∷ gs) s = mark_pending sys gs (mark_group sys (pending_ids es) s)

-- the sync_failed events, whose errors are ignored
unfoldable pub note_failure :
    String × String → String → List WhitelistEntry → Session Tables → Session Tables
note_failure sys message [] s = s
note_failure sys message (e ∷ es) s =
    note_failure sys message es
      (create_whitelist_event e.id sys.0 sys.1 EventType.sync_failed message inet_null none s).1

abbrev of_alias : String → List EntryView → List WhitelistEntry
of_alias uuid vs = select_where (λ e. e.alias_uuid == uuid) (map (λ v. v.entry) vs)

module _ (net : Net) (r : Router) (message : String) where
  abbrev World : Type 0
  World = Session Tables × r.State

  -- the end of syncAlias; the flag is false where it returns an error
  push_changes :
      String → String × String → Groups → List String → List String → World → Bool × World
  push_changes uuid sys groups [] [] w = (true, w)
  push_changes uuid sys groups to_add to_remove (s, t) =
      let (updated, t') = update_alias r uuid to_add to_remove t in
      if updated
      then (true, (s, t'))
      else (false, (note_failure sys message (flat_map (λ g. g.1) groups) s, t'))

  unfoldable pub sync_groups :
      String → String × String → List String → Groups → World → Bool × World
  unfolding push_changes
  sync_groups uuid sys current groups (s, t) =
      let present = dedupe current in
      push_changes uuid sys groups (ips_to_add present (statuses groups))
        (ips_to_remove present (statuses groups)) (mark_pending sys groups s, t)

  sync_entries :
      String
      → String × String
      → List String
      → Result (List EntryView) × Session Tables
      → r.State
      → Bool × World
  sync_entries uuid sys current (err e, s) t = (false, (s, t))
  sync_entries uuid sys current (ok vs, s) t =
      sync_groups uuid sys current (group_by_ip [] (of_alias uuid vs)) (s, t)

  sync_current :
      String → String × String → Option (List String) × r.State → Session Tables → Bool × World
  unfolding sync_entries
  sync_current uuid sys (none, t) s = (false, (s, t))
  sync_current uuid sys (some current, t) s =
      sync_entries uuid sys current (get_all_whitelist_entries net s) t

  unfoldable pub sync_alias : FirewallAliasConfig → String × String → World → Bool × World
  unfolding sync_current
  sync_alias alias sys (s, t) = sync_current alias.uuid sys (get_alias_ips r alias.uuid t) s

  -- an alias that fails is logged, and the next one is synced
  unfoldable pub sync_each : List FirewallAliasConfig → String × String → World → World
  sync_each [] sys w = w
  sync_each (a ∷ as') sys w = sync_each as' sys (sync_alias a sys w).1

  with_system : Config → Result (String × String) × Session Tables → r.State → Bool × World
  with_system cfg (err e, s) t = (false, (s, t))
  with_system cfg (ok sys, s) t = (true, sync_each cfg.aliases sys (s, t))

  unfoldable pub sync_all_aliases : Config → World → Bool × World
  unfolding with_system
  sync_all_aliases cfg (s, t) = with_system cfg (get_system_user s) t
