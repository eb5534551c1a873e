-- ===== src/Jobs/FirewallSync/Advancing.antt =====
-- What a round of the synchronisation does to the whitelist.
use dashboard_site.Common.{
  ℕ, String, Bool, Option, none, some, List, [], ◌∷◌, flat_map, dedupe, Bool-cases, inl, inr,
}
use dashboard_site.Config.{Config, FirewallAliasConfig}
use dashboard_site.Models.Address.{Net, inet_null}
use dashboard_site.Models.Whitelist.{WhitelistEntry, EntryView, EventType}
use dashboard_site.Storage.Sql.{Result, ok, err, Session}
use dashboard_site.Storage.Whitelist.Schema.{Tables}
use dashboard_site.Storage.Whitelist.Read.{get_all_whitelist_entries, get_system_user}
use dashboard_site.Storage.Whitelist.Write.{create_whitelist_event}
use dashboard_site.Storage.Whitelist.Soundness.{IsSound}
use dashboard_site.Storage.Whitelist.Advancing.{
  Advanced, Advanced-refl, Advanced-trans, read-Advanced, mark-Advanced, event-Advanced,
}
use dashboard_site.Services.Firewall.{Router, get_alias_ips, update_alias}
use dashboard_site.Jobs.FirewallSync.{
  Groups, statuses, ips_to_add, ips_to_remove, group_by_ip, of_alias, pending_ids, mark_group,
  mark_pending, note_failure, push_changes, sync_groups, sync_entries, sync_current, sync_alias,
  sync_each, with_system, sync_all_aliases,
}

module _ (low : ℕ) where
  mark_group-Advanced :
      (sys : String × String) (ns : List ℕ) (s : Session Tables)
      → IsSound low s.tables
      → Advanced low s.tables (mark_group sys ns s).tables
  unfolding mark_group
  mark_group-Advanced sys [] s h = Advanced-refl low s.tables h
  mark_group-Advanced sys (n ∷ ns) s h = mark-Advanced low s h (n ∷ ns) sys.0 sys.1

  mark_pending-Advanced :
      (sys : String × String) (groups : Groups) (s : Session Tables)
      → IsSound low s.tables
      → Advanced low s.tables (mark_pending sys groups s).tables
  unfolding mark_pending
  mark_pending-Advanced sys [] s h = Advanced-refl low s.tables h
  mark_pending-Advanced sys ((ip, es) ∷ gs) s h =
      let first = mark_group-Advanced sys (pending_ids es) s h in
      Advanced-trans low s.tables (mark_group sys (pending_ids es) s).tables _ first
        (mark_pending-Advanced sys gs (mark_group sys (pending_ids es) s) first.sound)

  note_failure-Advanced :
      (sys : String × String) (message : String) (es : List WhitelistEntry) (s : Session Tables)
      → IsSound low s.tables
      → Advanced low s.tables (note_failure sys message es s).tables
  unfolding note_failure
  note_failure-Advanced sys message [] s h = Advanced-refl low s.tables h
  note_failure-Advanced sys message (e ∷ es) s h =
      let first =
        event-Advanced low s h e.id sys.0 sys.1 EventType.sync_failed message inet_null none in
      Advanced-trans low s.tables _ _ first (
        note_failure-Advanced sys message es
          (create_whitelist_event e.id sys.0 sys.1 EventType.sync_failed message inet_null none s).1
          first.sound)

module _ (net : Net) (r : Router) (message : String) (low : ℕ) where
  abbrev World : Type 0
  World = Session Tables × r.State

  abbrev Reached : World → Bool × World → Type 0
  Reached w v = Advanced low w.0.tables v.1.0.tables

  push_changes-Advanced :
      (uuid : String) (sys : String × String) (groups : Groups) (to_add to_remove : List String)
      (s : Session Tables) (t : r.State)
      → IsSound low s.tables
      → Reached (s, t) (push_changes net r message uuid sys groups to_add to_remove (s, t))
  unfolding push_changes
  push_changes-Advanced uuid sys groups [] [] s t h = Advanced-refl low s.tables h
  push_changes-Advanced uuid sys groups (i ∷ is) to_remove s t h =
      elim (Bool-cases (update_alias r uuid (i ∷ is) to_remove t).0) [
        | inl e ↦ rw e (Advanced-refl low s.tables h)
        | inr e ↦ rw e (note_failure-Advanced low sys message (flat_map (λ g. g.1) groups) s h)
      ]
  push_changes-Advanced uuid sys groups [] (i ∷ is) s t h =
      elim (Bool-cases (update_alias r uuid [] (i ∷ is) t).0) [
        | inl e ↦ rw e (Advanced-refl low s.tables h)
        | inr e ↦ rw e (note_failure-Advanced low sys message (flat_map (λ g. g.1) groups) s h)
      ]

  sync_groups-Advanced :
      (uuid : String) (sys : String × String) (current : List String) (groups : Groups)
      (s : Session Tables) (t : r.State)
      → IsSound low s.tables
      → Reached (s, t) (sync_groups net r message uuid sys current groups (s, t))
  unfolding sync_groups
  sync_groups-Advanced uuid sys current groups s t h =
      let marked = mark_pending-Advanced low sys groups s h in
      Advanced-trans low s.tables (mark_pending sys groups s).tables _ marked (
        push_changes-Advanced uuid sys groups (ips_to_add (dedupe current) (statuses groups))
          (ips_to_remove (dedupe current) (statuses groups)) (mark_pending sys groups s) t
          marked.sound)

  sync_entries-Advanced :
      (uuid : String) (sys : String × String) (current : List String) (vs : Result (List EntryView))
      (s : Session Tables) (t : r.State)
      → IsSound low s.tables
      → Reached (s, t) (sync_entries net r message uuid sys current (vs, s) t)
  unfolding sync_entries
  sync_entries-Advanced uuid sys current (ok vs) s t h =
      sync_groups-Advanced uuid sys current (group_by_ip [] (of_alias uuid vs)) s t h
  sync_entries-Advanced uuid sys current (err e) s t h = Advanced-refl low s.tables h

  sync_current-Advanced :
      (uuid : String) (sys : String × String) (current : Option (List String)) (s : Session Tables)
      (t : r.State)
      → IsSound low s.tables
      → Reached (s, t) (sync_current net r message uuid sys (current, t) s)
  unfolding sync_current get_all_whitelist_entries
  sync_current-Advanced uuid sys none s t h = Advanced-refl low s.tables h
  sync_current-Advanced uuid sys (some current) s t h =
      let read = read-Advanced low s h _ in
      Advanced-trans low s.tables (get_all_whitelist_entries net s).1.tables _ read (
        sync_entries-Advanced uuid sys current (get_all_whitelist_entries net s).0
          (get_all_whitelist_entries net s).1 t read.sound)

  sync_alias-Advanced :
      (alias : FirewallAliasConfig) (sys : String × String) (s : Session Tables) (t : r.State)
      → IsSound low s.tables
      → Reached (s, t) (sync_alias net r message alias sys (s, t))
  unfolding sync_alias
  sync_alias-Advanced alias sys s t h =
      sync_current-Advanced alias.uuid sys (get_alias_ips r alias.uuid t).0 s
        (get_alias_ips r alias.uuid t).1 h

  sync_each-Advanced :
      (aliases : List FirewallAliasConfig) (sys : String × String) (w : World)
      → IsSound low w.0.tables
      → Advanced low w.0.tables (sync_each net r message aliases sys w).0.tables
  unfolding sync_each
  sync_each-Advanced [] sys w h = Advanced-refl low w.0.tables h
  sync_each-Advanced (a ∷ as') sys w h =
      let first = sync_alias-Advanced a sys w.0 w.1 h in
      Advanced-trans low w.0.tables (sync_alias net r message a sys w).1.0.tables _ first
        (sync_each-Advanced as' sys (sync_alias net r message a sys w).1 first.sound)

  with_system-Advanced :
      (cfg : Config) (sys : Result (String × String)) (s : Session Tables) (t : r.State)
      → IsSound low s.tables
      → Reached (s, t) (with_system net r message cfg (sys, s) t)
  unfolding with_system
  with_system-Advanced cfg (ok sys) s t h = sync_each-Advanced cfg.aliases sys (s, t) h
  with_system-Advanced cfg (err e) s t h = Advanced-refl low s.tables h

  pub sync-Advanced :
      (cfg : Config) (s : Session Tables) (t : r.State)
      → IsSound low s.tables
      → Advanced low s.tables (sync_all_aliases net r message cfg (s, t)).1.0.tables
  unfolding sync_all_aliases get_system_user
  sync-Advanced cfg s t h =
      let read = read-Advanced low s h _ in
      Advanced-trans low s.tables (get_system_user s).1.tables _ read
        (with_system-Advanced cfg (get_system_user s).0 (get_system_user s).1 t read.sound)
