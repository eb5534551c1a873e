-- ===== src/Handlers/Firewall/Advancing.antt =====
-- What a request of any kind does to the whitelist: its tables stay sound, and what is blacklisted
-- stays so.
pub mod Post
use dashboard_site.Common.{
  ℕ, ◌≡◌, ◌≢◌, ◌⊎◌, inl, inr, refl, sym, ap, subst, ◌∙◌, String, Bool, true, false, not, ◌&&◌,
  Option, none, some, List, [], ◌∷◌, ◌++◌, arith, any_where, find_where, trim_space, if◌then◌else◌,
}
use mathlib.Core.Option
use dashboard_site.Config.{Config}
use dashboard_site.Models.Address.{Net, InetArg}
use dashboard_site.Models.Principal.{Principal, has_scope, matches_owner, get_iss, get_sub}
use dashboard_site.Models.Whitelist.{
  WhitelistEntry, WhitelistEvent, EntryView, WhitelistStatus, is_blacklisted,
}
use dashboard_site.Storage.Sql.{Result, ok, err, StorageError, Session, Sql, query, pure, ◌>>=◌}
use dashboard_site.Storage.Sql.Keeps.{Keeps}
use dashboard_site.Storage.Sql.Ensures.{
  Ensures, Ensures-of_Keeps, Ensures-query, Ensures-bind, Ensures-pure,
}
use dashboard_site.Storage.Whitelist.Schema.{Tables, has_id}
use dashboard_site.Storage.Whitelist.Read.{
  as_text, or_missing, get_whitelist_entry_by_id, get_whitelist_events_by_entry,
}
use dashboard_site.Storage.Whitelist.Write.{remove_ip_from_whitelist, blacklist_ip_address}
use dashboard_site.Storage.Whitelist.Soundness.{IsSound}
use dashboard_site.Storage.Whitelist.Operations.{
  remove_ip_from_whitelist-IsSound, blacklist_ip_address-IsSound, add_ip_to_whitelist-IsSound,
}
use dashboard_site.Storage.Whitelist.Advancing.{Advanced, At, Ends, Advanced-still, advance}
use dashboard_site.Storage.Whitelist.Blacklist.Calls.{remove_ensures}
use dashboard_site.Storage.Whitelist.Blacklist.Barring.{blacklist_address_ensures}
use dashboard_site.Handlers.Http.{Check, Reply, success, error, Handler, finish, attempt, checked}
use dashboard_site.Handlers.Http.Replies.{
  Replies, Replies-finish, Replies-if, Replies-checked, Replies-attempt,
}
use dashboard_site.Handlers.Firewall.Loading.{Loaded, load_ensures, not_blacklisted}
use dashboard_site.Handlers.Firewall.{
  Caller, AddRequest, Accepted, is_gone, if_owner, host_or_nil, or_nil, check_path, may_revoke,
  remove_entry, delete_remove_ip_entry, delete_blacklist_ip_entry,
}
use dashboard_site.Handlers.Scopes.{firewall_blacklist, firewall_revoke_all}

module _ (net : Net) (low : ℕ) (old : Tables) (now : ℕ) (sound : IsSound low old) where
  still : (t : Tables) (c : ℕ) → At old now t c → Advanced low old t
  still = Advanced-still low old sound now

  remove-Loaded :
      (n : ℕ) (iss sub : String) (ip : InetArg) (agent : Option String) (v : EntryView)
      → is_gone v.entry.status ≡ false
      → Ensures
          (Loaded net old now n (ok v))
          (remove_ip_from_whitelist n iss sub ip agent)
          (Ends low old)
  remove-Loaded n iss sub ip agent v there = record {
    at = λ s h.
        (advance low old sound now (remove_ip_from_whitelist n iss sub ip agent)
            (remove_ip_from_whitelist-IsSound low n iss sub ip agent)
            (remove_ensures old now n iss sub ip agent h.0.0 sound.distinct h.0.1
              (not_blacklisted net v h.0.0 h.0.2 there))).at
          s h.1;
  }

  stop :
      (n k : ℕ) (v : EntryView)
      → Replies (Loaded net old now n (ok v)) (finish {B = Unit} (error k)) (Ends low old)
  stop n k v = Replies-finish (error k) (λ t c h. still t c h.1)

  remove_entry_replies :
      (cfg : Config) (caller : Caller) (p : Principal) (n : ℕ) (v : EntryView)
      → Replies (Loaded net old now n (ok v)) (remove_entry net cfg caller p n v) (Ends low old)
  unfolding remove_entry
  remove_entry_replies cfg caller p n v =
      Replies-if
        (not (matches_owner p v.entry.owner_iss v.entry.owner_sub)
          && not (has_scope cfg p firewall_revoke_all))
        _ _ (λ _. stop n 403 v)
        (λ _.
          Replies-if (is_gone v.entry.status) _ _ (λ _. stop n 400 v)
            (λ there.
              Replies-attempt (Ends low old) _ _ _
                (remove-Loaded n (get_iss p) (get_sub p) _ _ v there) (λ e t c h. h)
                (λ _. Replies-finish (success tt) (λ t c h. h))))

  pub delete_replies :
      (cfg : Config) (caller : Caller) (entry_id : Option ℕ)
      → Replies (At old now) (delete_remove_ip_entry net cfg caller entry_id) (Ends low old)
  unfolding delete_remove_ip_entry
  delete_replies cfg caller entry_id =
      Replies-checked (check_path cfg caller.principal (may_revoke cfg) entry_id) _
        (λ q _.
          Replies-attempt (Loaded net old now q.1) _ _ _ (load_ensures net old now q.1)
            (λ e t c h. still t c h) (λ v. remove_entry_replies cfg caller q.0 q.1 v))
        (λ n t c _ h. still t c h)

  blacklist-Loaded :
      (n : ℕ) (v : EntryView) (uuid ip iss sub reason : String)
      → Ensures
          (Loaded net old now n (ok v))
          (blacklist_ip_address net uuid ip iss sub reason)
          (Ends low old)
  blacklist-Loaded n v uuid ip iss sub reason = record {
    at = λ s h.
        (advance low old sound now (blacklist_ip_address net uuid ip iss sub reason)
            (blacklist_ip_address-IsSound net low uuid ip iss sub reason)
            (blacklist_address_ensures old net now uuid ip iss sub reason sound.distinct)).at
          s h.1;
  }

  pub blacklist_replies :
      (cfg : Config) (caller : Caller) (entry_id : Option ℕ) (reason : Option String)
      → Replies
          (At old now)
          (delete_blacklist_ip_entry net cfg caller entry_id reason)
          (Ends low old)
  unfolding delete_blacklist_ip_entry
  blacklist_replies cfg caller entry_id reason =
      Replies-checked
        (check_path cfg caller.principal (λ p. has_scope cfg p firewall_blacklist) entry_id) _
        (λ q _.
          Replies-attempt (Loaded net old now q.1) _ _ _ (load_ensures net old now q.1)
            (λ e t c h. still t c h)
            (λ v.
              Replies-if (is_blacklisted v.entry.status) _ _ (λ _. stop q.1 400 v)
                (λ _.
                  Replies-attempt (Ends low old) _ _ _
                    (blacklist-Loaded q.1 v _ _ (get_iss q.0) (get_sub q.0) _) (λ e t c h. h)
                    (λ _. Replies-finish (success tt) (λ t c h. h)))))
        (λ n t c _ h. still t c h)
