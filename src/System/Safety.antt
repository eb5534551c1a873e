-- ===== src/System/Safety.antt =====
-- A blacklisted address stays out.
use dashboard_site.Common.{
  ℕ, String, ◌≡◌, refl, true, Option, List, [], ◌∷◌, ◌==◌, ◌||◌, not, any_where,
}
use dashboard_site.Config.{Config}
use dashboard_site.Models.Address.{Net}
use dashboard_site.Models.Principal.{Principal, has_scope}
use dashboard_site.Storage.Sql.{Session, Result, query}
use dashboard_site.Handlers.Scopes.{firewall_read_all, firewall_read_own}
use dashboard_site.Storage.Sql.Ensures.{Ensures, Ensures-bind, Ensures-query}
use dashboard_site.Storage.Whitelist.Schema.{Tables}
use dashboard_site.Storage.Whitelist.Read.{
  blacklisted_at, get_system_user, get_all_whitelist_entries, get_user_whitelist_entries,
}
use dashboard_site.Storage.Whitelist.Soundness.{IsSound}
use dashboard_site.Storage.Whitelist.Blacklist.{IsClean, IsBarred}
use dashboard_site.Storage.Whitelist.Advancing.{
  Advanced, At, Ends, Advanced-refl, Advanced-trans, Advanced-still, expire_advances,
}
use dashboard_site.Services.Firewall.{Router}
use dashboard_site.Handlers.Http.{success, error, finish, attempt}
use dashboard_site.Handlers.Http.Replies.{
  Replies, Replies-finish, Replies-if, Replies-checked, Replies-attempt,
}
use dashboard_site.Handlers.Firewall.{with_scope}
use dashboard_site.Handlers.Firewall.Advancing.{delete_replies, blacklist_replies}
use dashboard_site.Handlers.Firewall.Advancing.Post.{post-Advanced}
use dashboard_site.Handlers.Firewall.Reading.{EntriesQuery, is_admin_query, get_user_entries}
use dashboard_site.Jobs.FirewallExpiration.{expire_old}
use dashboard_site.Jobs.FirewallSync.Advancing.{sync-Advanced}
use dashboard_site.System.{
  Action, post, remove, blacklist, list, expire, sync, Round, serve, serve_all,
}

module _ (low : ℕ) (old : Tables) (sound : IsSound low old) (now : ℕ) where
  -- a query leaves the tables
  reads :
      {A : Type 0} (f : Tables → ℕ → Result A)
      → Replies (At old now) (attempt (query f) (λ _. 500) (λ a. finish (success a))) (Ends low old)
  reads f =
      Replies-attempt (λ r t c. Advanced low old t) _ _ _
        (Ensures-query _ _ _ (Advanced-still low old sound now) (Advanced-still low old sound now))
        (λ e t c h. h) (λ a. Replies-finish (success a) (λ t c h. h))

  refuses : {B : Type 0} (n : ℕ) → Replies (At old now) (finish {B = B} (error n)) (Ends low old)
  refuses n = Replies-finish (error n) (Advanced-still low old sound now)

  list_replies :
      (net : Net) (cfg : Config) (who : Option Principal) (q : EntriesQuery)
      → Replies (At old now) (get_user_entries net cfg who q) (Ends low old)
  unfolding get_user_entries get_all_whitelist_entries get_user_whitelist_entries
  list_replies net cfg who q =
      Replies-checked (with_scope cfg who (λ p. has_scope cfg p firewall_read_own)) _
        (λ p _.
          Replies-if (is_admin_query q) _ _
            (λ _.
              Replies-if (not (has_scope cfg p firewall_read_all)) _ _ (λ _. refuses 403)
                (λ _.
                  Replies-if (q.all_users == "1") _ _ (λ _. reads _)
                    (λ _.
                      Replies-if (q.owner_sub == "" || q.owner_iss == "") _ _ (λ _. refuses 400)
                        (λ _. reads _))))
            (λ _. reads _))
        (λ n t c _ h. Advanced-still low old sound now t c h)

  expire_ensures : Ensures (At old now) expire_old (Ends low old)
  unfolding expire_old get_system_user
  expire_ensures =
      Ensures-bind (λ r t c. At old now t c) _ _ (Ensures-query _ _ _ (λ t c h. h) (λ t c h. h))
        (λ sys. expire_advances low old sound now sys.0 sys.1)
        (λ e t c h. Advanced-still low old sound now t c h)

module _ (net : Net) (cfg : Config) (r : Router) (low : ℕ) where
  serve-Advanced :
      (a : Action) (s : Session Tables) (t : r.State)
      → IsSound low s.tables
      → Advanced low s.tables (serve net cfg r a (s, t)).0.tables
  unfolding serve
  serve-Advanced (post caller body) s t h = post-Advanced net low cfg caller body s h
  serve-Advanced (remove caller entry_id) s t h =
      (delete_replies net low s.tables s.clock h cfg caller entry_id).at s (refl, refl)
  serve-Advanced (blacklist caller entry_id reason) s t h =
      (blacklist_replies net low s.tables s.clock h cfg caller entry_id reason).at s (refl, refl)
  serve-Advanced (list caller q) s t h =
      (list_replies low s.tables h s.clock net cfg caller.principal q).at s (refl, refl)
  serve-Advanced expire s t h = (expire_ensures low s.tables h s.clock).at s (refl, refl)
  serve-Advanced (sync message) s t h = sync-Advanced net r message low cfg s t h

  pub serve_all-Advanced :
      (os : List Round) (s : Session Tables) (t : r.State)
      → IsSound low s.tables
      → Advanced low s.tables (serve_all net cfg r os (s, t)).0.tables
  unfolding serve_all
  serve_all-Advanced [] s t h = Advanced-refl low s.tables h
  serve_all-Advanced (o ∷ os) s t h =
      let now = record s { clock = o.clock; faults = o.faults } in
      let first = serve-Advanced o.action now t h in
      Advanced-trans low s.tables (serve net cfg r o.action (now, t)).0.tables _ first (
        serve_all-Advanced os (serve net cfg r o.action (now, t)).0
          (serve net cfg r o.action (now, t)).1 first.sound)

-- Once an address is blacklisted for an alias, it stays so and has no requested or added entry there,
-- after any sequence of requests and job rounds, whatever they carry, whenever they happen, whichever
-- of their statements and router calls fail; the tables are sound at the start, and no address is both
-- blacklisted and active for an alias there.
pub serve_all-IsBarred :
    (net : Net) (cfg : Config) (r : Router) (low : ℕ) (os : List Round) (s : Session Tables)
    (t : r.State) (uuid ip : String)
    → IsSound low s.tables
    → IsClean s.tables.entries
    → any_where (blacklisted_at uuid ip) s.tables.entries ≡ true
    → IsBarred uuid ip (serve_all net cfg r os (s, t)).0.tables.entries
serve_all-IsBarred net cfg r low os s t uuid ip sound clean barred =
    let all = serve_all-Advanced net cfg r low os s t sound in
    let listed = all.lawful.stays uuid ip barred in
    record { listed = listed; idle = all.lawful.clean clean uuid ip listed }
