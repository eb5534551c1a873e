-- ===== src/Handlers/Firewall/Posting.antt =====
-- The outcomes of POSTAddIPEntry.
pub mod Counting
use dashboard_site.Common.{
  ℕ, ◌+◌, ◌≤◌, ◌≡◌, ◌≢◌, ◌⊎◌, inl, inr, refl, sym, ap, subst, ◌∙◌, Option, some, [], ◌∷◌, ◌++◌,
  arith, count_where, count_where-append, eq_refl,
}
use mathlib.Core.Option.{some-injective}
use dashboard_site.Config.{Config}
use dashboard_site.Models.Address.{Net, inet_arg}
use dashboard_site.Models.Whitelist.{EntryView}
use dashboard_site.Storage.Sql.{Session, Result, ok, err, StorageError, duplicate_ip}
use dashboard_site.Storage.Whitelist.Schema.{Tables}
use dashboard_site.Storage.Whitelist.Read.{active_at, user_active_at}
use dashboard_site.Storage.Whitelist.Write.{add_ip_to_whitelist}
use dashboard_site.Storage.Whitelist.Soundness.{IsSound}
use dashboard_site.Storage.Whitelist.Adding.{stored_row, IsAdded, IsUnchanged}
use dashboard_site.Storage.Whitelist.Adding.Outcome.{Outcome, add_ensures}
use dashboard_site.Handlers.Http.{Reply, success, error, attempt, resume, finish}
use dashboard_site.Handlers.Http.Replies.{Replies, Replies-checked}
use dashboard_site.Handlers.Firewall.{
  Caller, AddRequest, Accepted, check_add, store_request, post_add_ip_entry, new_entry, host_or_nil,
  or_nil, add_status,
}
use dashboard_site.Handlers.Firewall.Limits.{
  IsAllowed, posted_row, posted_event, check_add-IsAllowed, HasRoom, check_limits_replies, At,
}

module _ (net : Net) (cfg : Config) (caller : Caller) (body : Option AddRequest) (old : Tables)
    (now : ℕ) where
  -- A request that was allowed, and for which there was room, has been stored.
  pub record IsPosted (t : Tables) : Type 0 where
    pub accepted : Accepted
    pub allowed : IsAllowed net cfg caller.principal body accepted
    pub room : HasRoom accepted old
    pub added :
        IsAdded net
          (new_entry accepted now)
          (inet_arg net (host_or_nil caller.remote_host))
          (or_nil caller.user_agent)
          old
          now
          t
    pub row : t.entries ≡ old.entries ++ posted_row accepted old.next_id now ∷ []
    pub event :
        t.events
        ≡ old.events ++ posted_event net caller accepted old.next_event_id old.next_id now ∷ []
    pub same_address : added.address ≡ accepted.address

  abbrev pub Posted : Reply EntryView → Tables → Type 0
  Posted (success v) t =
      (p : IsPosted t) × (v.entry ≡ record (posted_row p.accepted old.next_id now) {
        ip_address = net.inet_text p.accepted.address;
      })
  Posted (error n) t = IsUnchanged old t ⊎ (IsPosted t × (n ≡ 500))

  module _ (a : Accepted) (allowed : IsAllowed net cfg caller.principal body a)
      (room : HasRoom a old) where
    stored : net.inet_in a.address ≡ some a.address
    stored = net.parsed_inet _ a.address allowed.parsed

    posted :
        (t : Tables)
        → IsAdded net
            (new_entry a now)
            (inet_arg net (host_or_nil caller.remote_host))
            (or_nil caller.user_agent)
            old
            now
            t
        → IsPosted t
    posted t h =
        let same = some-injective _ _ (sym h.stored ∙ stored) in
        record {
          accepted = a;
          allowed = allowed;
          room = room;
          added = h;
          row =
              h.one_entry
              ∙ ap (λ x. old.entries ++ stored_row (new_entry a now) x old.next_id now ∷ []) same;
          event = h.one_event;
          same_address = same;
        }

    failed_status : (e : StorageError) → e ≢ duplicate_ip → add_status e ≡ 500
    failed_status StorageError.duplicate_ip h = absurd (h refl)
    failed_status _ h = refl

    reply-Posted :
        (r : Result EntryView) (s : Session Tables)
        → Outcome net
            (new_entry a now)
            (inet_arg net (host_or_nil caller.remote_host))
            (or_nil caller.user_agent)
            old
            now
            r
            s.tables
        → Posted
            (resume r add_status (λ entry. finish (success entry)) s).0
            (resume r add_status (λ entry. finish (success entry)) s).1.tables
    unfolding posted
    reply-Posted (ok v) s (h, e) = (
      posted s.tables h,
      e
          ∙ ap
              (λ x. record (stored_row (new_entry a now) x old.next_id now) {
                ip_address = net.inet_text x;
              })
              (some-injective _ _ (sym h.stored ∙ stored)),
    )
    reply-Posted (err e) s (inl h) = inl h.0
    reply-Posted (err e) s (inr h) = inr (posted s.tables h.0, failed_status e h.1)

    module _ (low : ℕ) (sound : IsSound low old) where
      store_replies : Replies (At old now) (store_request net a caller) (λ r t _. Posted r t)
      unfolding store_request attempt
      store_replies = record {
        at = λ s h.
            let add : ℕ → Result EntryView × Session Tables = λ c.
              add_ip_to_whitelist net (new_entry a c)
                (inet_arg net (host_or_nil caller.remote_host)) (or_nil caller.user_agent) s in
            subst
              (λ c.
                Posted (resume (add c).0 add_status (λ v. finish (success v)) (add c).1).0
                  (resume (add c).0 add_status (λ v. finish (success v)) (add c).1).1.tables)
              (sym h.1)
              (reply-Posted (add now).0 (add now).1 (
                (add_ensures net (new_entry a now) (inet_arg net (host_or_nil caller.remote_host))
                    (or_nil caller.user_agent) old now low sound).at
                  s h));
      }

  unchanged : (t : Tables) → t ≡ old → IsUnchanged old t
  unchanged t e = record {
    same_entries = ap (λ u. u.entries) e;
    same_events = ap (λ u. u.events) e;
  }

  post_replies :
      (low : ℕ)
      → IsSound low old
      → Replies (At old now) (post_add_ip_entry net cfg caller body) (λ r t _. Posted r t)
  unfolding post_add_ip_entry
  post_replies low sound =
      Replies-checked (check_add net cfg caller.principal body) _
        (λ a passed.
          let allowed = check_add-IsAllowed net cfg caller.principal body a passed in
          check_limits_replies old now net a (net.parsed_inet _ a.address allowed.parsed) _
            (λ n t c h. inl (unchanged t h.0)) _ (λ room. store_replies a allowed room low sound))
        (λ n t c e h. inl (unchanged t h.0))

-- What a POST of a whitelist entry can do, in a sound state and whichever statements fail: it
-- leaves entries and events as they were and replies with an error; or it stores exactly one
-- requested entry with its event and replies with that entry, or with status 500 where only the
-- reading back failed. It stores only for a user who has the request scope and is in the group of
-- the alias, a well-formed address that is not blacklisted for the alias and that the user has no
-- active entry for, and only while the user's and the alias's counts are below their limits.
pub post_outcome :
    (net : Net) (cfg : Config) (caller : Caller) (body : Option AddRequest) (low : ℕ)
    (s : Session Tables)
    → IsSound low s.tables
    → Posted net cfg caller body s.tables s.clock
        (post_add_ip_entry net cfg caller body s).0
        (post_add_ip_entry net cfg caller body s).1.tables
post_outcome net cfg caller body low s sound =
    (post_replies net cfg caller body s.tables s.clock low sound).at s (refl, refl)
