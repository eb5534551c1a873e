-- ===== src/Handlers/Firewall/Posting/Counting.antt =====
-- The limits after POSTAddIPEntry.
use dashboard_site.Common.{
  ℕ, ◌+◌, ◌≤◌, ◌≡◌, ◌⊎◌, inl, inr, Option, arith, count_where, count_where-append, eq_refl,
}
use dashboard_site.Config.{Config}
use dashboard_site.Models.Address.{Net}
use dashboard_site.Models.Whitelist.{EntryView}
use dashboard_site.Storage.Sql.{Session}
use dashboard_site.Storage.Whitelist.Schema.{Tables}
use dashboard_site.Storage.Whitelist.Read.{active_at, user_active_at}
use dashboard_site.Storage.Whitelist.Soundness.{IsSound}
use dashboard_site.Storage.Whitelist.Adding.{IsUnchanged}
use dashboard_site.Handlers.Http.{Reply, success, error}
use dashboard_site.Handlers.Firewall.{Caller, AddRequest, Accepted, post_add_ip_entry}
use dashboard_site.Handlers.Firewall.Limits.{IsAllowed}
use dashboard_site.Handlers.Firewall.Posting.{IsPosted, Posted, post_outcome}

module _ (net : Net) (cfg : Config) (caller : Caller) (body : Option AddRequest) (old : Tables)
    (now : ℕ) (t : Tables) (p : IsPosted net cfg caller body old now t) where
  abbrev requester_count : Tables → ℕ
  requester_count u =
      count_where
        (user_active_at p.accepted.requester.iss p.accepted.requester.sub p.accepted.alias.uuid)
        u.entries

  abbrev alias_count : Tables → ℕ
  alias_count u = count_where (active_at p.accepted.alias.uuid) u.entries

  one_more_mine : requester_count t ≡ requester_count old + 1
  unfolding count_where
  one_more_mine = rw (p.added.one_entry, count_where-append) (simp (eq_refl) (omega arith))

  one_more : alias_count t ≡ alias_count old + 1
  unfolding count_where
  one_more = rw (p.added.one_entry, count_where-append) (simp eq_refl (omega arith))

  within :
      (requester_count t ≤ p.accepted.alias.max_ips_per_user)
      × (alias_count t ≤ p.accepted.alias.max_total_ips)
  within =
      (omega (arith, one_more_mine, p.room.user_room), omega (arith, one_more, p.room.total_room))

abbrev user_count : Accepted → Tables → ℕ
user_count a t = count_where (user_active_at a.requester.iss a.requester.sub a.alias.uuid) t.entries

abbrev total_count : Accepted → Tables → ℕ
total_count a t = count_where (active_at a.alias.uuid) t.entries

-- both counts have grown by one, and are within the limits
pub record IsWithinLimits (net : Net) (cfg : Config) (caller : Caller) (body : Option AddRequest)
    (old t : Tables) : Type 0 where
  pub accepted : Accepted
  pub allowed : IsAllowed net cfg caller.principal body accepted
  pub user_counted : user_count accepted t ≡ user_count accepted old + 1
  pub user_within : user_count accepted t ≤ accepted.alias.max_ips_per_user
  pub total_counted : total_count accepted t ≡ total_count accepted old + 1
  pub total_within : total_count accepted t ≤ accepted.alias.max_total_ips

module _ (net : Net) (cfg : Config) (caller : Caller) (body : Option AddRequest)
    (s : Session Tables) (t : Tables) where
  counted :
      IsPosted net cfg caller body s.tables s.clock t
      → IsWithinLimits net cfg caller body s.tables t
  counted p = record {
    accepted = p.accepted;
    allowed = p.allowed;
    user_counted = one_more_mine net cfg caller body s.tables s.clock t p;
    user_within = (within net cfg caller body s.tables s.clock t p).0;
    total_counted = one_more net cfg caller body s.tables s.clock t p;
    total_within = (within net cfg caller body s.tables s.clock t p).1;
  }

  IsUnchanged-or_counted :
      (r : Reply EntryView)
      → Posted net cfg caller body s.tables s.clock r t
      → IsUnchanged s.tables t ⊎ IsWithinLimits net cfg caller body s.tables t
  IsUnchanged-or_counted (success v) h = inr (counted h.0)
  IsUnchanged-or_counted (error n) (inl h) = inl h
  IsUnchanged-or_counted (error n) (inr h) = inr (counted h.0)

-- Handled alone, a POST never takes a user or an alias above its limit: it leaves the entries as they
-- were, or the user's and the alias's counts of active entries both grow by one and stay within the
-- limits that the alias's configuration sets.
pub post-IsWithinLimits :
    (net : Net) (cfg : Config) (caller : Caller) (body : Option AddRequest) (low : ℕ)
    (s : Session Tables)
    → IsSound low s.tables
    → IsUnchanged s.tables (post_add_ip_entry net cfg caller body s).1.tables
      ⊎ IsWithinLimits net cfg caller body s.tables
          (post_add_ip_entry net cfg caller body s).1.tables
post-IsWithinLimits net cfg caller body low s sound =
    IsUnchanged-or_counted net cfg caller body s (post_add_ip_entry net cfg caller body s).1.tables
      (post_add_ip_entry net cfg caller body s).0 (post_outcome net cfg caller body low s sound)
