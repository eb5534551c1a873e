-- ===== src/Storage/Whitelist/Read.antt =====
-- The SELECT statements on the whitelist.
use dashboard_site.Common.{
  ℕ, String, Bool, not, ◌&&◌, ◌||◌, Option, none, some, List, [], ◌∷◌, ◌++◌, map, ◌==◌, eqb, ltb,
  if◌then◌else◌, true, false, any_where, select_where, count_where, find_where, sort_by, flat_map,
}
use mathlib.Core.Option
use dashboard_site.Models.Address.{Net}
use dashboard_site.Models.Whitelist.{
  WhitelistEntry, WhitelistEvent, EntryView, is_active, is_requested, is_blacklisted,
}
use dashboard_site.Storage.Sql.{Result, ok, err, failed, entry_not_found, Sql, pure, query, ◌>>=◌}
use dashboard_site.Storage.Whitelist.Schema.{Tables, UserRow, has_id, at_address, owned_by}

-- a text parameter that is compared with an INET column
abbrev pub with_inet : {A : Type 0} → Option String → (String → A) → Result A
with_inet none f = err failed
with_inet (some ip) f = ok (f ip)

abbrev pub active_at : String → WhitelistEntry → Bool
active_at uuid e = e.alias_uuid == uuid && is_active e.status

abbrev pub user_active_at : String → String → String → WhitelistEntry → Bool
user_active_at iss sub uuid e = owned_by iss sub e && active_at uuid e

-- an active entry of the owner for the address
abbrev pub duplicates : String → String → String → String → WhitelistEntry → Bool
duplicates iss sub uuid ip e = owned_by iss sub e && at_address uuid ip e && is_active e.status

abbrev pub blacklisted_at : String → String → WhitelistEntry → Bool
blacklisted_at uuid ip e = at_address uuid ip e && is_blacklisted e.status

unfoldable pub count_user_active_ips : String → String → String → Sql Tables ℕ
count_user_active_ips iss sub uuid =
    query λ t _. ok (count_where (user_active_at iss sub uuid) t.entries)

unfoldable pub count_total_active_ips : String → Sql Tables ℕ
count_total_active_ips uuid = query λ t _. ok (count_where (active_at uuid) t.entries)

abbrev pub is_live : ℕ → Option ℕ → Bool
is_live now none = true
is_live now (some at) = ltb now at

abbrev is_pending : String → ℕ → WhitelistEntry → Bool
is_pending uuid now e = e.alias_uuid == uuid && is_requested e.status && is_live now e.expires_at

-- `ORDER BY created_at DESC` and the like
abbrev pub newest_first : WhitelistEvent → WhitelistEvent → Bool
newest_first a b = ltb b.created_at a.created_at

abbrev pub events_of : ℕ → List WhitelistEvent → List WhitelistEvent
events_of n = select_where (λ v. eqb v.whitelist_id n)

abbrev pub has_user : List UserRow → String → String → Bool
has_user users iss sub = any_where (λ u. u.iss == iss && u.sub == sub) users

-- COALESCE(actor.username, sa_creator.username) is not NULL: the actor is a user, or a service account
-- that a user has created
unfoldable pub known_actor : Tables → WhitelistEvent → Bool
known_actor t v =
    has_user t.users v.actor_iss v.actor_sub
    || any_where
        (λ a.
          a.iss == v.actor_iss
          && a.sub == v.actor_sub
          && has_user t.users a.created_by_iss a.created_by_sub)
        t.accounts

abbrev pub nameless : Tables → WhitelistEvent → Bool
nameless t v = not (known_actor t v)

-- NULL cannot be scanned into the name of an event's actor
abbrev pub unless : {A : Type 0} → Bool → A → Result A
unless true a = err failed
unless false a = ok a

abbrev pub or_missing : {A : Type 0} → Option A → Result A
or_missing none = err entry_not_found
or_missing (some a) = ok a

-- what holds of both results
pub unless-cases :
    {A : Type 0} (P : Result A → Type 0) (b : Bool) (a : A)
    → P (ok a)
    → P (err failed)
    → P (unless b a)
unless-cases P true a h k = k
unless-cases P false a h k = h

-- a row of a list query: the LEFT JOIN leaves no event where an entry has none
abbrev pub Row : Type 0
Row = WhitelistEntry × Option WhitelistEvent

abbrev rows_of : WhitelistEntry → List WhitelistEvent → List Row
rows_of e [] = (e, none) ∷ []
rows_of e (v ∷ vs) = map (λ w. (e, some w)) (v ∷ vs)

abbrev pub known_owner : List UserRow → WhitelistEntry → Bool
known_owner users e = has_user users e.owner_iss e.owner_sub

-- NULL comes first in a descending order
abbrev newer_event : Option WhitelistEvent → Option WhitelistEvent → Bool
newer_event none (some b) = true
newer_event (some a) (some b) = ltb b.created_at a.created_at
newer_event _ none = false

abbrev earlier_row : Row → Row → Bool
earlier_row a b =
    if ltb b.0.requested_at a.0.requested_at
    then true
    else eqb a.0.requested_at b.0.requested_at && newer_event a.1 b.1

unfoldable pub join_rows : (WhitelistEntry → Bool) → Tables → List Row
join_rows p t = sort_by earlier_row (
    flat_map (λ e. rows_of e (events_of e.id t.events))
      (select_where (λ e. known_owner t.users e && p e) t.entries))

abbrev with_event : Option WhitelistEvent → List WhitelistEvent → List WhitelistEvent
with_event none vs = vs
with_event (some v) vs = vs ++ v ∷ []

-- `entriesMap` and `entryOrder` together: the entries seen, in the order of their first rows
unfoldable pub add_row : Row → List EntryView → List EntryView
add_row (e, v) [] = record { entry = e; events = with_event v [] } ∷ []
add_row (e, v) (w ∷ ws) =
    if eqb w.entry.id e.id
    then record w { events = with_event v w.events } ∷ ws
    else w ∷ add_row (e, v) ws

-- the loop over `rows.Next()`
unfoldable pub group_rows : List EntryView → List Row → List EntryView
group_rows seen [] = seen
group_rows seen (r ∷ rs) = group_rows (add_row r seen) rs

-- GetSystemUser of database.go
unfoldable pub get_system_user : Sql Tables (String × String)
get_system_user =
    query
      λ t _. or_missing (Option.map (λ u. (u.iss, u.sub)) (find_where (λ u. u.is_system) t.users))

module _ (net : Net) where
  abbrev pub as_text : WhitelistEntry → WhitelistEntry
  as_text e = record e { ip_address = net.inet_text e.ip_address }

  abbrev pub event_text : WhitelistEvent → WhitelistEvent
  event_text v = record v { client_ip = Option.map net.inet_text v.client_ip }

  unfoldable pub get_whitelist_events_by_entry : ℕ → Sql Tables (List WhitelistEvent)
  get_whitelist_events_by_entry n = query λ t _.
      unless (any_where (nameless t) (events_of n t.events))
        (map event_text (sort_by newest_first (events_of n t.events)))

  unfoldable pub get_whitelist_entry_by_id : ℕ → Sql Tables EntryView
  get_whitelist_entry_by_id n = do
    found ← query (λ t _. or_missing (find_where (has_id n) t.entries))
    events ← get_whitelist_events_by_entry n
    pure (record { entry = as_text found; events = events })

  abbrev text_row : Row → Row
  text_row (e, v) = (as_text e, Option.map event_text v)

  abbrev nameless_row : Tables → Row → Bool
  nameless_row t (e, none) = false
  nameless_row t (e, some v) = nameless t v

  -- The loop dereferences the name of each event's actor: a NULL panics, which ends the request with
  -- status 500 and the round of a job with its process.
  abbrev pub read_rows : (WhitelistEntry → Bool) → Sql Tables (List EntryView)
  read_rows p = query λ t _.
      unless (any_where (nameless_row t) (join_rows p t))
        (group_rows [] (map text_row (join_rows p t)))

  unfoldable pub get_user_whitelist_entries : String → String → Sql Tables (List EntryView)
  get_user_whitelist_entries iss sub = read_rows (owned_by iss sub)

  unfoldable pub get_all_whitelist_entries : Sql Tables (List EntryView)
  get_all_whitelist_entries = read_rows (λ _. true)

  unfoldable pub is_ip_blacklisted : String → String → Sql Tables Bool
  is_ip_blacklisted uuid ip =
      query λ t _. with_inet (net.inet_in ip) (λ a. any_where (blacklisted_at uuid a) t.entries)

  -- the oldest request first
  unfoldable pub get_pending_ips : String → Sql Tables (List EntryView)
  get_pending_ips uuid = query λ t now. ok (
      map (λ e. record { entry = as_text e; events = [] })
        (sort_by (λ a b. ltb a.requested_at b.requested_at)
          (select_where (is_pending uuid now) t.entries)))
