-- ===== src/Handlers/Firewall/Succeeding.antt =====
-- POSTAddIPEntry succeeds where nothing stands against it.
use dashboard_site.Common.{
  ℕ, ◌<◌, ◌≡◌, ap, ◌∙◌, suc, ◌&&◌, [], ◌∷◌, ◌++◌, Bool, true, false, not, ◌==◌, Option, some, arith,
  leb, any_where, count_where, if◌then◌else◌,
}
use dashboard_site.Config.{Config}
use dashboard_site.Models.Address.{Net, inet_arg, is_refused}
use dashboard_site.Models.Whitelist.{EntryView}
use dashboard_site.Storage.Sql.{Result, ok, Session, Sql, StorageError}
use dashboard_site.Storage.Sql.Calm.{calm, query-calm}
use dashboard_site.Storage.Whitelist.Schema.{Tables, after}
use dashboard_site.Storage.Whitelist.Read.{
  duplicates, with_inet, is_ip_blacklisted, count_user_active_ips, count_total_active_ips,
  blacklisted_at, user_active_at, active_at,
}
use dashboard_site.Storage.Whitelist.Write.{add_ip_to_whitelist}
use dashboard_site.Storage.Whitelist.Soundness.{IsSound}
use dashboard_site.Storage.Whitelist.Adding.Storing.{view_of, add_ip_to_whitelist_stores}
use dashboard_site.Handlers.Http.{
  Check, pass, success, error, Handler, finish, attempt, resume, checked,
}
use dashboard_site.Handlers.Firewall.{
  Caller, AddRequest, Accepted, new_entry, host_or_nil, or_nil, add_status, check_add, check_limits,
  store_request, post_add_ip_entry,
}
use dashboard_site.Handlers.Firewall.Limits.{check_add-IsAllowed, HasRoom, posted_row, posted_event}

module _ {T A B : Type 0} (m : Sql T A) (fail : StorageError → ℕ) (k : A → Handler T B) where
  attempt-ok : (s u : Session T) (a : A) → m s ≡ (ok a, u) → attempt m fail k s ≡ k a u
  unfolding attempt
  attempt-ok s u a h = ap (λ (r : Result A × Session T). resume r.0 fail k r.1) h

below : (limit n : ℕ) → n < limit → leb limit n ≡ false
below limit n h = ground arith

module _ (net : Net) (a : Accepted) (t : Tables) (now : ℕ)
    (stored : net.inet_in a.address ≡ some a.address) (room : HasRoom a t) where
  abbrev mine : ℕ
  mine = count_where (user_active_at a.requester.iss a.requester.sub a.alias.uuid) t.entries

  abbrev total : ℕ
  total = count_where (active_at a.alias.uuid) t.entries

  blacklist_runs :
      is_ip_blacklisted net a.alias.uuid a.address (calm t now) ≡ (ok false, calm t now)
  unfolding is_ip_blacklisted
  blacklist_runs = query-calm t now _ ∙ ap (λ (r : Result Bool). (r, calm t now)) listed
    where
      listed :
          with_inet
            (net.inet_in a.address)
            (λ x. any_where (blacklisted_at a.alias.uuid x) t.entries)
          ≡ ok false
      listed = rw stored (ap ok room.free)

  mine_runs :
      count_user_active_ips a.requester.iss a.requester.sub a.alias.uuid (calm t now)
      ≡ (ok mine, calm t now)
  unfolding count_user_active_ips
  mine_runs = query-calm t now _

  total_runs : count_total_active_ips a.alias.uuid (calm t now) ≡ (ok total, calm t now)
  unfolding count_total_active_ips
  total_runs = query-calm t now _

  total_passes :
      {B : Type 0} (next : Handler Tables B)
      → attempt
          (count_total_active_ips a.alias.uuid)
          (λ _. 500)
          (λ n. if leb a.alias.max_total_ips n then finish (error 400) else next)
          (calm t now)
        ≡ next (calm t now)
  total_passes next =
      attempt-ok _ _ _ (calm t now) (calm t now) total total_runs
      ∙ ap (λ b. (if b then finish (error 400) else next) (calm t now))
          (below a.alias.max_total_ips total room.total_room)

  mine_passes :
      {B : Type 0} (next : Handler Tables B)
      → attempt
          (count_user_active_ips a.requester.iss a.requester.sub a.alias.uuid)
          (λ _. 500)
          (λ n. if leb a.alias.max_ips_per_user n then finish (error 400) else next)
          (calm t now)
        ≡ next (calm t now)
  mine_passes next =
      attempt-ok _ _ _ (calm t now) (calm t now) mine mine_runs
      ∙ ap (λ b. (if b then finish (error 400) else next) (calm t now))
          (below a.alias.max_ips_per_user mine room.user_room)

  limits_pass :
      {B : Type 0} (next : Handler Tables B)
      → check_limits net a next (calm t now) ≡ next (calm t now)
  unfolding check_limits
  limits_pass next =
      attempt-ok _ _ _ (calm t now) (calm t now) false blacklist_runs
      ∙ mine_passes _
      ∙ total_passes next

  stores :
      (caller : Caller) (v : EntryView) (u : Tables)
      → add_ip_to_whitelist net
          (new_entry a now)
          (inet_arg net (host_or_nil caller.remote_host))
          (or_nil caller.user_agent)
          (calm t now)
        ≡ (ok v, calm u now)
      → store_request net a caller (calm t now) ≡ (success v, calm u now)
  unfolding store_request
  stores caller v u h = attempt-ok _ add_status _ (calm t now) (calm u now) v h

-- A POST succeeds where it should: in a sound state, with the database at its work, for a request that
-- passes the checks on it alone, while the address is not blacklisted, the counts are below their
-- limits, and the user, who is in the table of users and whose issuer and subject are not empty, has no
-- requested or added entry for the address; the client's address is missing or one that the database
-- reads; an alias's time to live, if any, is not 0. It then stores the requested entry of the user and
-- its one event, and replies with that entry and that event, with their addresses as texts.
pub post_succeeds :
    (net : Net) (cfg : Config) (caller : Caller) (body : Option AddRequest) (a : Accepted)
    (t : Tables) (now low : ℕ)
    → IsSound low t
    → check_add net cfg caller.principal body ≡ pass a
    → HasRoom a t
    → any_where (duplicates a.requester.iss a.requester.sub a.alias.uuid a.address) t.entries
      ≡ false
    → any_where (λ u. u.iss == a.requester.iss && u.sub == a.requester.sub) t.users ≡ true
    → is_refused (inet_arg net (host_or_nil caller.remote_host)) ≡ false
    → not (a.requester.iss == "") ≡ true
    → not (a.requester.sub == "") ≡ true
    → after now (new_entry a now).expires_at ≡ true
    → post_add_ip_entry net cfg caller body (calm t now) ≡ (
      success (
          view_of net
            (posted_row a t.next_id now)
            (posted_event net caller a t.next_event_id t.next_id now)),
      calm
          (record t {
            entries = t.entries ++ posted_row a t.next_id now ∷ [];
            next_id = suc t.next_id;
            events = t.events ++ posted_event net caller a t.next_event_id t.next_id now ∷ [];
            next_event_id = suc t.next_event_id;
          })
          now,
    )
unfolding post_add_ip_entry
post_succeeds net cfg caller body a t now low sound passed room free user seen iss sub later =
    let allowed = check_add-IsAllowed net cfg caller.principal body a passed in
    let stored = net.parsed_inet _ a.address allowed.parsed in
    let added =
      add_ip_to_whitelist_stores net (new_entry a now)
        (inet_arg net (host_or_nil caller.remote_host)) (or_nil caller.user_agent) t now low
        a.address sound
        (record {
          accepted = seen;
          registered = user;
          parsed = stored;
          free = free;
          named_iss = iss;
          named_sub = sub;
          later = later;
        }) in
    ap
      (λ (c : Check Accepted).
        checked c (λ b. check_limits net b (store_request net b caller)) (calm t now))
      passed
    ∙ limits_pass net a t now stored room (store_request net a caller)
    ∙ stores net a t now stored room caller _ _ added
