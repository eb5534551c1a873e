-- ===== src/Handlers/Firewall/Limits.antt =====
-- What POSTAddIPEntry lets through.
use dashboard_site.Common.{
  ℕ, ◌<◌, ◌≡◌, refl, ap, ◌∙◌, Bool, true, false, Option, none, some, arith, find_where,
  find_where-any, any_where, ◌+◌, ◌==◌, contains, count_where, trim_space, leb,
}
use mathlib.Core.Option
use dashboard_site.Config.{Config}
use dashboard_site.Models.Address.{Net, column, inet_arg}
use dashboard_site.Models.Whitelist.{WhitelistEntry, WhitelistEvent, WhitelistStatus, EventType}
use dashboard_site.Models.Principal.{Principal, user, service_account, has_scope}
use dashboard_site.Storage.Sql.{Result, ok, err, query}
use dashboard_site.Storage.Sql.Ensures.{Ensures, Ensures-query}
use dashboard_site.Storage.Whitelist.Schema.{Tables}
use dashboard_site.Storage.Whitelist.Read.{
  active_at, user_active_at, blacklisted_at, with_inet, is_ip_blacklisted, count_user_active_ips,
  count_total_active_ips,
}
use dashboard_site.Handlers.Http.{pass, Reply, error, Handler, finish, attempt}
use dashboard_site.Handlers.Http.Replies.{
  Replies, Replies-fact, Replies-finish, Replies-if, Replies-attempt,
}
use dashboard_site.Handlers.Scopes.{firewall_request_own}
use dashboard_site.Handlers.Firewall.{
  Caller, host_or_nil, or_nil, AddRequest, Accepted, grants, check_add, check_limits,
}

-- What a request meets that passes the checks on it alone.
pub record IsAllowed (net : Net) (cfg : Config) (who : Option Principal) (body : Option AddRequest)
    (a : Accepted) : Type 0 where
  pub request : AddRequest
  pub given : body ≡ some request
  pub known : who ≡ some (user a.requester)
  pub scoped : has_scope cfg (user a.requester) firewall_request_own ≡ true
  pub granted :
      find_where (grants (trim_space request.alias_name) a.requester) cfg.aliases ≡ some a.alias
  pub named : a.alias.name == trim_space request.alias_name ≡ true
  pub member : contains a.alias.auth_group a.requester.groups ≡ true
  pub parsed : net.parse_ip (trim_space (trim_space request.ip_address)) ≡ some a.address

pub check_add-IsAllowed :
    (net : Net) (cfg : Config) (who : Option Principal) (body : Option AddRequest) (a : Accepted)
    → check_add net cfg who body ≡ pass a
    → IsAllowed net cfg who body a
unfolding check_add
check_add-IsAllowed net cfg none body a h = cc
check_add-IsAllowed net cfg (some p) none a h = ground arith
check_add-IsAllowed net cfg (some (service_account x)) (some r) a h = ground arith
check_add-IsAllowed net cfg (some (user u)) (some r) a h =
    let found : find_where (grants (trim_space r.alias_name) a.requester) cfg.aliases
        ≡ some a.alias =
      ground arith in
    let chosen = (find_where-any _ cfg.aliases a.alias found).0 in
    record {
      request = r;
      given = refl;
      known = ground arith;
      scoped = ground arith;
      granted = found;
      named = ground arith;
      member = ground arith;
      parsed = ground arith;
    }

-- what the POST stores for such a request, column by column
abbrev pub posted_row : Accepted → ℕ → ℕ → WhitelistEntry
posted_row a n now = record {
  id = n;
  owner_iss = a.requester.iss;
  owner_sub = a.requester.sub;
  alias_name = a.alias.name;
  alias_uuid = a.alias.uuid;
  ip_address = a.address;
  description = a.description;
  status = WhitelistStatus.requested;
  requested_at = now;
  added_at = none;
  removed_at = none;
  expires_at = Option.map (λ ttl. now + ttl) a.alias.default_ttl;
  removed_by_iss = none;
  removed_by_sub = none;
  removal_reason = none;
}

-- and its event, with the address and the program of the client
abbrev pub posted_event : Net → Caller → Accepted → ℕ → ℕ → ℕ → WhitelistEvent
posted_event net caller a event_id n now = record {
  id = event_id;
  whitelist_id = n;
  actor_iss = a.requester.iss;
  actor_sub = a.requester.sub;
  event_type = EventType.requested;
  notes = none;
  client_ip = column (inet_arg net (host_or_nil caller.remote_host));
  user_agent = or_nil caller.user_agent;
  created_at = now;
}

-- The address is not blacklisted for the alias, and neither limit is reached.
pub record HasRoom (a : Accepted) (old : Tables) : Type 0 where
  pub free : any_where (blacklisted_at a.alias.uuid a.address) old.entries ≡ false
  pub user_room :
      count_where (user_active_at a.requester.iss a.requester.sub a.alias.uuid) old.entries
      < a.alias.max_ips_per_user
  pub total_room : count_where (active_at a.alias.uuid) old.entries < a.alias.max_total_ips

module _ (old : Tables) (now : ℕ) where
  abbrev pub At : Tables → ℕ → Type 0
  At t c = (t ≡ old) × (c ≡ now)

  -- a SELECT leaves the tables, and returns what it computes from them
  abbrev Selected : {A : Type 0} → (Tables → Result A) → Result A → Tables → ℕ → Type 0
  Selected f (ok b) t c = (ok b ≡ f old) × At t c
  Selected f (err e) t c = At t c

  selected :
      {A : Type 0} (f : Tables → Result A) (t : Tables) (c : ℕ) (r : Result A)
      → r ≡ f t
      → At t c
      → Selected f r t c
  selected f t c (ok b) e h = (e ∙ ap f h.0, h)
  selected f t c (err x) e h = h

  select_ensures :
      {A : Type 0} (f : Tables → Result A) → Ensures At (query (λ t _. f t)) (Selected f)
  select_ensures f = Ensures-query _ _ _ (λ t c h. selected f t c (f t) refl h) (λ t c h. h)

  module _ (net : Net) (a : Accepted) (stored : net.inet_in a.address ≡ some a.address) {B : Type 0}
      (Q : Reply B → Tables → ℕ → Type 0)
      (refused : (n : ℕ) (t : Tables) (c : ℕ) → At t c → Q (error n) t c) (next : Handler Tables B)
      (go : HasRoom a old → Replies At next Q) where
    abbrev mine : ℕ
    mine = count_where (user_active_at a.requester.iss a.requester.sub a.alias.uuid) old.entries

    abbrev listed : Bool
    listed = any_where (blacklisted_at a.alias.uuid a.address) old.entries

    stop : (n : ℕ) → Replies At (finish (error n)) Q
    stop n = Replies-finish (error n) (refused n)

    -- one SELECT of the handler, and the rest of it
    select_replies :
        {C : Type 0} (f : Tables → Result C) (k : C → Handler Tables B)
        → ((b : C) → ok b ≡ f old → Replies At (k b) Q)
        → Replies At (attempt (query (λ t _. f t)) (λ _. 500) k) Q
    select_replies f k rest =
        Replies-attempt (Selected f) _ _ k (select_ensures f) (λ e t c h. refused 500 t c h)
          (λ b. Replies-fact (k b) (rest b))

    not_listed :
        (b : Bool)
        → ok b
          ≡ with_inet
              (net.inet_in a.address)
              (λ x. any_where (blacklisted_at a.alias.uuid x) old.entries)
        → b ≡ false
        → listed ≡ false
    not_listed b e n = let e' = rw stored at e in cc

    pub check_limits_replies : Replies At (check_limits net a next) Q
    unfolding check_limits is_ip_blacklisted count_user_active_ips count_total_active_ips
    check_limits_replies = select_replies _ _ (λ b listed_fact.
        Replies-if b _ _ (λ _. stop 403)
          (λ clear. select_replies _ _ (λ m mine_fact.
            Replies-if (leb a.alias.max_ips_per_user m) _ _ (λ _. stop 400)
              (λ room. select_replies _ _ (λ n total_fact.
                Replies-if (leb a.alias.max_total_ips n) _ _ (λ _. stop 400)
                  (λ total_room. go (record {
                    free = not_listed b listed_fact clear;
                    user_room = ground arith;
                    total_room = ground arith;
                  })))))))
