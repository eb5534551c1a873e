-- ===== src/Handlers/Firewall/Advancing/Post.antt =====
-- POSTAddIPEntry keeps the tables sound, and enters no blacklisted address.
use dashboard_site.Common.{ℕ, ◌≡◌, sym, subst, inl, inr, false, Option, leb, any_where}
use dashboard_site.Config.{Config}
use dashboard_site.Models.Address.{Net, inet_arg}
use dashboard_site.Models.Whitelist.{EntryView}
use dashboard_site.Storage.Sql.{Session, Sql, StorageError}
use dashboard_site.Storage.Sql.Keeps.{Keeps, Keeps-query}
use dashboard_site.Storage.Sql.Ensures.{Ensures-of_Keeps}
use dashboard_site.Storage.Whitelist.Schema.{Tables}
use dashboard_site.Storage.Whitelist.Read.{
  blacklisted_at, is_ip_blacklisted, count_user_active_ips, count_total_active_ips,
}
use dashboard_site.Storage.Whitelist.Soundness.{IsSound}
use dashboard_site.Storage.Whitelist.Operations.{add_ip_to_whitelist-IsSound}
use dashboard_site.Storage.Whitelist.Adding.{IsUnchanged}
use dashboard_site.Storage.Whitelist.Blacklist.{IsLawful, IsLawful-refl}
use dashboard_site.Storage.Whitelist.Blacklist.Entering.{insert-IsLawful}
use dashboard_site.Handlers.Http.{Reply, success, error, Handler, finish, attempt}
use dashboard_site.Handlers.Http.Replies.{
  Replies, Replies-finish, Replies-if, Replies-checked, Replies-attempt,
}
use dashboard_site.Handlers.Firewall.{
  Caller, AddRequest, Accepted, new_entry, host_or_nil, or_nil, add_status, check_add, check_limits,
  store_request, post_add_ip_entry,
}
use dashboard_site.Handlers.Firewall.Posting.{IsPosted, Posted, post_outcome}
use dashboard_site.Storage.Whitelist.Advancing.{Advanced}

module _ (net : Net) (low : ℕ) where
  abbrev Sound : Tables → ℕ → Type 0
  Sound t c = IsSound low t

  abbrev StaysSound : {B : Type 0} → Handler Tables B → Type 0
  StaysSound h = Replies Sound h (λ r. Sound)

  attempt-IsSound :
      {A B : Type 0} (m : Sql Tables A) (fail : StorageError → ℕ) (k : A → Handler Tables B)
      → Keeps (IsSound low) m
      → ((a : A) → StaysSound (k a))
      → StaysSound (attempt m fail k)
  attempt-IsSound m fail k keeps rest =
      Replies-attempt (λ r. Sound) m fail k (Ensures-of_Keeps (IsSound low) m keeps) (λ e t c h. h)
        rest

  finish-IsSound : {B : Type 0} (r : Reply B) → StaysSound (finish r)
  finish-IsSound r = Replies-finish r (λ t c h. h)

  check_limits-IsSound :
      {B : Type 0} (a : Accepted) (next : Handler Tables B)
      → StaysSound next
      → StaysSound (check_limits net a next)
  unfolding check_limits is_ip_blacklisted count_user_active_ips count_total_active_ips
  check_limits-IsSound a next go = attempt-IsSound _ _ _ (Keeps-query _) (λ b.
      Replies-if b _ _ (λ _. finish-IsSound (error 403))
        (λ _. attempt-IsSound _ _ _ (Keeps-query _) (λ m.
          Replies-if (leb a.alias.max_ips_per_user m) _ _ (λ _. finish-IsSound (error 400))
            (λ _. attempt-IsSound _ _ _ (Keeps-query _) (λ n.
              Replies-if (leb a.alias.max_total_ips n) _ _ (λ _. finish-IsSound (error 400))
                (λ _. go))))))

  store_request-IsSound : (a : Accepted) (caller : Caller) → StaysSound (store_request net a caller)
  unfolding store_request
  store_request-IsSound a caller = record {
    at = λ s h.
        (attempt-IsSound _ add_status (λ v. finish (success v))
            (add_ip_to_whitelist-IsSound net low (new_entry a s.clock)
              (inet_arg net (host_or_nil caller.remote_host)) (or_nil caller.user_agent))
            (λ v. finish-IsSound (success v))).at
          s h;
  }

  post-IsSound :
      (cfg : Config) (caller : Caller) (body : Option AddRequest)
      → StaysSound (post_add_ip_entry net cfg caller body)
  unfolding post_add_ip_entry
  post-IsSound cfg caller body =
      Replies-checked (check_add net cfg caller.principal body) _
        (λ a _.
          check_limits-IsSound a (store_request net a caller) (store_request-IsSound a caller))
        (λ n t c _ h. h)

  module _ (cfg : Config) (caller : Caller) (body : Option AddRequest) (old : Tables)
      (now : ℕ) where
    unchanged-IsLawful : (t : Tables) → IsUnchanged old t → IsLawful old.entries t.entries
    unchanged-IsLawful t h =
        subst (IsLawful old.entries) (sym h.same_entries) (IsLawful-refl old.entries)

    posted-IsLawful :
        (t : Tables) → IsPosted net cfg caller body old now t → IsLawful old.entries t.entries
    posted-IsLawful t p = subst (IsLawful old.entries) (sym p.added.one_entry) (
        insert-IsLawful (new_entry p.accepted now) p.added.address old.next_id now old.entries (
          subst (λ ip. any_where (blacklisted_at p.accepted.alias.uuid ip) old.entries ≡ false)
            (sym p.same_address) p.room.free))

    outcome-IsLawful :
        (r : Reply EntryView) (t : Tables)
        → Posted net cfg caller body old now r t
        → IsLawful old.entries t.entries
    outcome-IsLawful (success v) t h = posted-IsLawful t h.0
    outcome-IsLawful (error n) t (inl h) = unchanged-IsLawful t h
    outcome-IsLawful (error n) t (inr h) = posted-IsLawful t h.0

  pub post-Advanced :
      (cfg : Config) (caller : Caller) (body : Option AddRequest) (s : Session Tables)
      → IsSound low s.tables
      → Advanced low s.tables (post_add_ip_entry net cfg caller body s).1.tables
  post-Advanced cfg caller body s sound = record {
    sound = (post-IsSound cfg caller body).at s sound;
    lawful =
        outcome-IsLawful cfg caller body s.tables s.clock _ _
          (post_outcome net cfg caller body low s sound);
  }
