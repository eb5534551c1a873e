-- ===== src/Handlers/Firewall/Removing.antt =====
-- The outcomes of DELETERemoveIPEntry.
use dashboard_site.Common.{
  ℕ, ◌≡◌, ◌⊎◌, inl, inr, refl, ap, String, Bool, true, false, not, ◌&&◌, ◌||◌, Option, some, List,
  ◌==◌, eqb, find_where, update_where,
}
use dashboard_site.Config.{Config}
use dashboard_site.Models.Address.{Net, InetArg}
use dashboard_site.Models.Principal.{Principal, has_scope, matches_owner, get_iss, get_sub}
use dashboard_site.Models.Whitelist.{
  WhitelistEntry, WhitelistStatus, EventType, EntryView, is_active,
}
use dashboard_site.Storage.Sql.{Result, ok, err, Session, StorageError, raise}
use dashboard_site.Storage.Sql.Ensures.{Ensures, Ensures-bind, Ensures-raise, Ensures-if}
use dashboard_site.Storage.Whitelist.Schema.{Tables, has_id}
use dashboard_site.Storage.Whitelist.Read.{as_text}
use dashboard_site.Storage.Whitelist.Write.{
  set_removed, create_whitelist_event, remove_ip_from_whitelist,
}
use dashboard_site.Storage.Whitelist.Advancing.{At}
use dashboard_site.Storage.Whitelist.Blacklist.Address.{
  Updated, update_entries_ensures, create_event-Holds,
}
use dashboard_site.Handlers.Http.{Reply, success, error, finish}
use dashboard_site.Handlers.Http.Replies.{
  Replies, Replies-finish, Replies-if, Replies-checked, Replies-attempt,
}
use dashboard_site.Handlers.Scopes.{firewall_revoke_own, firewall_revoke_all}
use dashboard_site.Handlers.Firewall.{
  Caller, is_gone, check_path, may_revoke, remove_entry, delete_remove_ip_entry,
}
use dashboard_site.Handlers.Firewall.Loading.{
  Loaded, load_ensures, still_active, IsPermitted, check_path-IsPermitted,
}

-- the owner of an entry, or who may revoke all
abbrev pub may_remove : Config → Principal → WhitelistEntry → Bool
may_remove cfg p e = matches_owner p e.owner_iss e.owner_sub || has_scope cfg p firewall_revoke_all

module _ (cfg : Config) (caller : Caller) (entry_id : Option ℕ) (old : Tables) (now : ℕ) where
  -- An active entry has been removed, by someone who may.
  pub record IsRemoval (t : Tables) : Type 0 where
    pub who : Principal
    pub n : ℕ
    pub entry : WhitelistEntry
    pub known : caller.principal ≡ some who
    pub named : entry_id ≡ some n
    pub scoped :
        has_scope cfg who firewall_revoke_own || has_scope cfg who firewall_revoke_all ≡ true
    pub found : find_where (has_id n) old.entries ≡ some entry
    pub active : is_active entry.status ≡ true
    pub permitted :
        (get_iss who == entry.owner_iss && get_sub who == entry.owner_sub)
          || has_scope cfg who firewall_revoke_all
        ≡ true
    pub changed :
        t.entries
        ≡ update_where
            (has_id n)
            (λ e. record e { status = WhitelistStatus.removed; removed_at = some now })
            old.entries

  abbrev pub Removed : Reply Unit → Tables → Type 0
  Removed (success _) t = IsRemoval t
  Removed (error k) t = (t.entries ≡ old.entries) ⊎ (IsRemoval t × (k ≡ 500))

  module _ (net : Net) (q : Principal × ℕ)
      (ok_path : IsPermitted caller.principal (may_revoke cfg) entry_id q.0 q.1) where
    -- the UPDATE, and the event whose failure leaves it
    abbrev Ends : Result Unit → Tables → ℕ → Type 0
    Ends (ok _) t c = IsRemoval t
    Ends (err e) t c = (t.entries ≡ old.entries) ⊎ IsRemoval t

    module _ (e : WhitelistEntry) (found : find_where (has_id q.1) old.entries ≡ some e)
        (active : is_active e.status ≡ true) (permitted : may_remove cfg q.0 e ≡ true) where
      removal :
          (t : Tables)
          → t.entries ≡ update_where (has_id q.1) (set_removed now) old.entries
          → IsRemoval t
      removal t h = record {
        who = q.0;
        n = q.1;
        entry = e;
        known = ok_path.known;
        named = ok_path.named;
        scoped = ok_path.scoped;
        found = found;
        active = active;
        permitted = permitted;
        changed = h;
      }

      abbrev rows : List WhitelistEntry
      rows = update_where (has_id q.1) (set_removed now) old.entries

      recorded :
          (iss sub : String) (ip : InetArg) (agent : Option String)
          → Ensures
              (λ t c. t.entries ≡ rows)
              (create_whitelist_event q.1 iss sub EventType.removed "" ip agent)
              Ends
      recorded iss sub ip agent = record {
        at = λ s h.
            either (create_whitelist_event q.1 iss sub EventType.removed "" ip agent s).0
              (create_whitelist_event q.1 iss sub EventType.removed "" ip agent s).1.tables
              (create_whitelist_event q.1 iss sub EventType.removed "" ip agent s).1.clock
              ((create_event-Holds rows q.1 iss sub EventType.removed "" ip agent).at s h);
      }
        where
          either : (r : Result Unit) (t : Tables) (c : ℕ) → t.entries ≡ rows → Ends r t c
          either (ok _) t c h = removal t h
          either (err x) t c h = inr (removal t h)

      not_there : Ensures (λ t c. t.entries ≡ rows) (raise StorageError.entry_not_found) Ends
      not_there = Ensures-raise _ (λ t c h. inr (removal t h))

      remove_ensures :
          (iss sub : String) (ip : InetArg) (agent : Option String)
          → Ensures (At old now) (remove_ip_from_whitelist q.1 iss sub ip agent) Ends
      unfolding remove_ip_from_whitelist
      remove_ensures iss sub ip agent =
          Ensures-bind (Updated old now (has_id q.1) set_removed) _ _
            (update_entries_ensures old now (has_id q.1) set_removed)
            (λ affected. Ensures-if (eqb affected 0) _ _ not_there (recorded iss sub ip agent))
            (λ x t c h. inl h)

    answered : (x : StorageError) (t : Tables) (c : ℕ) → Ends (err x) t c → Removed (error 500) t
    answered x t c (inl h) = inl h
    answered x t c (inr h) = inr (h, refl)

    stop :
        (k : ℕ) (v : EntryView)
        → Replies (Loaded net old now q.1 (ok v)) (finish (error k)) (λ r t c. Removed r t)
    stop k v = Replies-finish (error k) (λ t c h. inl (ap (λ u. u.entries) h.1.0))

    remove-Loaded :
        (iss sub : String) (ip : InetArg) (agent : Option String) (v : EntryView)
        → is_gone v.entry.status ≡ false
        → not (matches_owner q.0 v.entry.owner_iss v.entry.owner_sub)
            && not (has_scope cfg q.0 firewall_revoke_all)
          ≡ false
        → Ensures
            (Loaded net old now q.1 (ok v))
            (remove_ip_from_whitelist q.1 iss sub ip agent)
            Ends
    remove-Loaded iss sub ip agent v there allowed = record {
      at = λ s h.
          (remove_ensures h.0.0 h.0.1 (still_active net v h.0.0 h.0.2 there) (permitted h.0.0 h.0.2)
              iss sub ip agent).at
            s h.1;
    }
      where
        either : (a b : Bool) → not a && not b ≡ false → a || b ≡ true
        either true b h = refl
        either false true h = refl
        either false false h = cc

        permitted : (e : WhitelistEntry) → v.entry ≡ as_text net e → may_remove cfg q.0 e ≡ true
        permitted e same =
            let same_iss : v.entry.owner_iss ≡ e.owner_iss = ap (λ d. d.owner_iss) same in
            let same_sub : v.entry.owner_sub ≡ e.owner_sub = ap (λ d. d.owner_sub) same in
            rw (← same_iss, ← same_sub)
              (either (matches_owner q.0 v.entry.owner_iss v.entry.owner_sub)
                (has_scope cfg q.0 firewall_revoke_all) allowed)

    remove_entry_replies :
        (v : EntryView)
        → Replies
            (Loaded net old now q.1 (ok v))
            (remove_entry net cfg caller q.0 q.1 v)
            (λ r t c. Removed r t)
    unfolding remove_entry
    remove_entry_replies v =
        Replies-if
          (not (matches_owner q.0 v.entry.owner_iss v.entry.owner_sub)
            && not (has_scope cfg q.0 firewall_revoke_all))
          _ _ (λ _. stop 403 v)
          (λ allowed.
            Replies-if (is_gone v.entry.status) _ _ (λ _. stop 400 v)
              (λ there.
                Replies-attempt Ends _ _ _
                  (remove-Loaded (get_iss q.0) (get_sub q.0) _ _ v there allowed) answered
                  (λ _. Replies-finish (success tt) (λ t c h. h))))

  delete_replies :
      (net : Net)
      → Replies (At old now) (delete_remove_ip_entry net cfg caller entry_id) (λ r t c. Removed r t)
  unfolding delete_remove_ip_entry
  delete_replies net =
      Replies-checked (check_path cfg caller.principal (may_revoke cfg) entry_id) _
        (λ q passed.
          Replies-attempt (Loaded net old now q.1) _ _ _ (load_ensures net old now q.1)
            (λ e t c h. inl (ap (λ u. u.entries) h.0))
            (remove_entry_replies net q
              (check_path-IsPermitted cfg caller.principal (may_revoke cfg) entry_id q passed)))
        (λ n t c _ h. inl (ap (λ u. u.entries) h.0))

-- What a request to remove an entry can do, whichever statements fail. If it succeeds, it has marked
-- as removed, now, the entries of the id that it names, and nothing else: the first of them was
-- requested or added, and the caller has a scope to revoke and either owns it or may revoke all. If it
-- replies with an error, the entries are as they were, or the error is 500 and the entry is removed
-- all the same, since the event is written by a second statement outside any transaction.
pub delete_outcome :
    (net : Net) (cfg : Config) (caller : Caller) (entry_id : Option ℕ) (s : Session Tables)
    → Removed cfg caller entry_id s.tables s.clock
        (delete_remove_ip_entry net cfg caller entry_id s).0
        (delete_remove_ip_entry net cfg caller entry_id s).1.tables
delete_outcome net cfg caller entry_id s =
    (delete_replies cfg caller entry_id s.tables s.clock net).at s (refl, refl)
