-- ===== src/Handlers/Firewall/Blacklisting.antt =====
-- The outcomes of DELETEBlacklistIPEntry.
use dashboard_site.Common.{
  ℕ, ◌<◌, ◌≡◌, ◌∙◌, refl, sym, ap, subst, String, Bool, true, false, Option, some, trim_space,
  find_where,
}
use mathlib.Core.Option
use dashboard_site.Config.{Config}
use dashboard_site.Models.Address.{Net}
use dashboard_site.Models.Principal.{Principal, has_scope, get_iss, get_sub}
use dashboard_site.Models.Whitelist.{WhitelistEntry, EntryView, is_blacklisted}
use dashboard_site.Storage.Sql.{Result, ok, err, Session, Sql}
use dashboard_site.Storage.Sql.Ensures.{Ensures}
use dashboard_site.Storage.Whitelist.Schema.{Tables, has_id}
use dashboard_site.Storage.Whitelist.Write.{blacklist_ip_address}
use dashboard_site.Storage.Whitelist.Soundness.{IsSound}
use dashboard_site.Storage.Whitelist.Advancing.{At}
use dashboard_site.Storage.Whitelist.Blacklist.{IsBarred}
use dashboard_site.Storage.Whitelist.Blacklist.Entering.{none_active, some_listed}
use dashboard_site.Storage.Whitelist.Blacklist.Address.{
  IsBlacklisting, Blacklisting, blacklist_ip_address_ensures,
}
use dashboard_site.Handlers.Http.{Reply, success, error, finish}
use dashboard_site.Handlers.Http.Replies.{
  Replies, Replies-finish, Replies-if, Replies-checked, Replies-attempt,
}
use dashboard_site.Handlers.Scopes.{firewall_blacklist}
use dashboard_site.Handlers.Firewall.{Caller, check_path, delete_blacklist_ip_entry}
use dashboard_site.Handlers.Firewall.Loading.{
  Loaded, load_ensures, IsPermitted, check_path-IsPermitted,
}

abbrev pub may_blacklist : Config → Principal → Bool
may_blacklist cfg p = has_scope cfg p firewall_blacklist

module _ (net : Net) (cfg : Config) (caller : Caller) (entry_id : Option ℕ) (reason : Option String)
    (old : Tables) (now : ℕ) where
  -- The address of an entry that was not blacklisted is barred, by someone who may.
  pub record IsBan (t : Tables) : Type 0 where
    pub who : Principal
    pub n : ℕ
    pub entry : WhitelistEntry
    pub address : String
    pub known : caller.principal ≡ some who
    pub named : entry_id ≡ some n
    pub scoped : may_blacklist cfg who ≡ true
    pub found : find_where (has_id n) old.entries ≡ some entry
    pub fresh : is_blacklisted entry.status ≡ false
    pub stored : net.inet_in (net.inet_text entry.ip_address) ≡ some address
    pub barred : IsBarred entry.alias_uuid address t.entries

  abbrev pub Banned : Reply Unit → Tables → Type 0
  Banned (success _) t = IsBan t
  Banned (error k) t = t.entries ≡ old.entries

  module _ (low : ℕ) (sound : IsSound low old) (q : Principal × ℕ)
      (ok_path : IsPermitted caller.principal (may_blacklist cfg) entry_id q.0 q.1) where
    abbrev Ends : Result ℕ → Tables → ℕ → Type 0
    Ends (ok _) t c = IsBan t
    Ends (err e) t c = t.entries ≡ old.entries

    module _ (why : String) (e : WhitelistEntry)
        (found : find_where (has_id q.1) old.entries ≡ some e)
        (fresh : is_blacklisted e.status ≡ false) where
      abbrev call : Sql Tables ℕ
      call =
          blacklist_ip_address net e.alias_uuid (net.inet_text e.ip_address) (get_iss q.0)
            (get_sub q.0) why

      ban :
          (n : ℕ) (t : Tables)
          → IsBlacklisting old now net e.alias_uuid
              (net.inet_text e.ip_address)
              (get_iss q.0)
              (get_sub q.0)
              why
              sound.distinct
              n
              t
          → IsBan t
      ban n t h = record {
        who = q.0;
        n = q.1;
        entry = e;
        address = h.address;
        known = ok_path.known;
        named = ok_path.named;
        scoped = ok_path.scoped;
        found = found;
        fresh = fresh;
        stored = h.stored;
        barred = subst (IsBarred e.alias_uuid h.address) (sym h.changed) (record {
          listed =
              some_listed e.alias_uuid h.address (get_iss q.0) (get_sub q.0) why now old.entries
                (subst (λ k. 0 < k) h.counted h.found);
          idle = none_active e.alias_uuid h.address (get_iss q.0) (get_sub q.0) why now old.entries;
        });
      }

      call_ensures : Ensures (At old now) call Ends
      call_ensures = record {
        at = λ s h. ended (call s).0 (call s).1.tables (call s).1.clock (
            (blacklist_ip_address_ensures old now net e.alias_uuid (net.inet_text e.ip_address)
                (get_iss q.0) (get_sub q.0) why sound.distinct).at
              s h);
      }
        where
          ended :
              (r : Result ℕ) (t : Tables) (c : ℕ)
              → Blacklisting old now net e.alias_uuid
                  (net.inet_text e.ip_address)
                  (get_iss q.0)
                  (get_sub q.0)
                  why
                  sound.distinct
                  r
                  t
                  c
              → Ends r t c
          ended (ok n) t c h = ban n t h
          ended (err x) t c h = h

    stop :
        (k : ℕ) (v : EntryView)
        → Replies (Loaded net old now q.1 (ok v)) (finish (error k)) (λ r t c. Banned r t)
    stop k v = Replies-finish (error k) (λ t c h. ap (λ u. u.entries) h.1.0)

    call-Loaded :
        (why : String) (v : EntryView)
        → is_blacklisted v.entry.status ≡ false
        → Ensures
            (Loaded net old now q.1 (ok v))
            (blacklist_ip_address net v.entry.alias_uuid v.entry.ip_address
              (get_iss q.0)
              (get_sub q.0)
              why)
            Ends
    call-Loaded why v fresh = record {
      at = λ s h.
          let e = h.0.0 in
          subst
            (λ (x : WhitelistEntry).
              Ends
                (blacklist_ip_address net x.alias_uuid x.ip_address (get_iss q.0) (get_sub q.0) why
                  s).0
                (blacklist_ip_address net x.alias_uuid x.ip_address (get_iss q.0) (get_sub q.0) why
                  s).1.tables
                (blacklist_ip_address net x.alias_uuid x.ip_address (get_iss q.0) (get_sub q.0) why
                  s).1.clock)
            (sym h.0.2)
            ((call_ensures why e h.0.1
                (ap (λ (d : WhitelistEntry). is_blacklisted d.status) (sym h.0.2) ∙ fresh)).at
              s h.1);
    }

  blacklist_replies :
      (low : ℕ)
      → IsSound low old
      → Replies
          (At old now)
          (delete_blacklist_ip_entry net cfg caller entry_id reason)
          (λ r t c. Banned r t)
  unfolding delete_blacklist_ip_entry
  blacklist_replies low sound =
      Replies-checked (check_path cfg caller.principal (may_blacklist cfg) entry_id) _
        (λ q passed.
          let ok_path =
            check_path-IsPermitted cfg caller.principal (may_blacklist cfg) entry_id q passed in
          Replies-attempt (Loaded net old now q.1) _ _ _ (load_ensures net old now q.1)
            (λ e t c h. ap (λ u. u.entries) h.0)
            (λ v.
              Replies-if (is_blacklisted v.entry.status) _ _ (λ _. stop low sound q ok_path 400 v)
                (λ fresh.
                  Replies-attempt (Ends low sound q ok_path) _ _ _
                    (call-Loaded low sound q ok_path (trim_space (Option.get_or reason "")) v fresh)
                    (λ e t c h. h) (λ _. Replies-finish (success tt) (λ t c h. h)))))
        (λ n t c _ h. ap (λ u. u.entries) h.0)

-- What a request to blacklist an entry's address can do in a sound state, whichever statements fail.
-- If it succeeds, the caller has the scope to blacklist, the entry was not blacklisted, and afterwards
-- its address is blacklisted for its alias and no entry of any user is requested or added there; if it
-- replies with an error, every entry is as it was.
pub blacklist_outcome :
    (net : Net) (cfg : Config) (caller : Caller) (entry_id : Option ℕ) (reason : Option String)
    (low : ℕ) (s : Session Tables)
    → IsSound low s.tables
    → Banned net cfg caller entry_id reason s.tables s.clock
        (delete_blacklist_ip_entry net cfg caller entry_id reason s).0
        (delete_blacklist_ip_entry net cfg caller entry_id reason s).1.tables
blacklist_outcome net cfg caller entry_id reason low s sound =
    (blacklist_replies net cfg caller entry_id reason s.tables s.clock low sound).at s (refl, refl)
