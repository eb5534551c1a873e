-- ===== src/Storage/Whitelist/Schema.antt =====
-- The tables of internal/storage/migrations/003_firewall_aliases.up.sql with their constraints. `users`
-- and `accounts` hold what the queries on events, the list queries and GetSystemUser read of the tables
-- users and service_accounts.
use dashboard_site.Common.{
  ℕ, suc, ◌≡◌, refl, String, Bool, true, false, not, ◌&&◌, Option, none, some, List, [], ◌∷◌, ◌++◌,
  ◌==◌, eqb, ltb, leb, if◌then◌else◌, any_where,
}
use dashboard_site.Models.Address.{InetArg, is_refused, column}
use dashboard_site.Models.Whitelist.{WhitelistEntry, WhitelistEvent, EventType, is_active}
use dashboard_site.Storage.Sql.{Result, ok, err, failed}

pub record UserRow : Type 0 where
  pub iss : String
  pub sub : String
  pub is_system : Bool

pub record AccountRow : Type 0 where
  pub iss : String
  pub sub : String
  pub created_by_iss : String
  pub created_by_sub : String

pub record Tables : Type 0 where
  pub entries : List WhitelistEntry
  pub events : List WhitelistEvent
  pub next_id : ℕ
  pub next_event_id : ℕ
  pub users : List UserRow
  pub accounts : List AccountRow

-- sequences are not rolled back
abbrev pub restore : Tables → Tables → Tables
restore old new = record old { next_id = new.next_id; next_event_id = new.next_event_id }

abbrev pub has_id : ℕ → WhitelistEntry → Bool
has_id n e = eqb e.id n

abbrev pub at_address : String → String → WhitelistEntry → Bool
at_address uuid ip e = e.alias_uuid == uuid && e.ip_address == ip

abbrev pub owned_by : String → String → WhitelistEntry → Bool
owned_by iss sub e = e.owner_iss == iss && e.owner_sub == sub

-- a nullable column after another point of time, at the latest then
abbrev not_before : ℕ → Option ℕ → Bool
not_before low none = true
not_before low (some t) = leb low t

abbrev pub after : ℕ → Option ℕ → Bool
after low none = true
after low (some t) = ltb low t

abbrev remover_ok : Option String → Option String → Bool
remover_ok none none = true
remover_ok (some iss) (some sub) = not (iss == "") && not (sub == "")
remover_ok _ _ = false

-- the CHECK constraints of a row; `valid_status` is the type `WhitelistStatus`
unfoldable pub row_ok : WhitelistEntry → Bool
row_ok e =
    not (e.owner_iss == "")
    && not (e.owner_sub == "")
    && remover_ok e.removed_by_iss e.removed_by_sub
    && after e.requested_at e.expires_at
    && not_before e.requested_at e.added_at
    && not_before e.requested_at e.removed_at

-- idx_unique_active_ip_per_user
abbrev pub same_active : WhitelistEntry → WhitelistEntry → Bool
same_active d e =
    is_active d.status
    && is_active e.status
    && at_address d.alias_uuid d.ip_address e
    && owned_by d.owner_iss d.owner_sub e

unfoldable pub constraints : List WhitelistEntry → Bool
unfolding row_ok any_where
constraints [] = true
constraints (e ∷ es) = row_ok e && not (any_where (same_active e) es) && constraints es

pub constraints-cons :
    (e : WhitelistEntry) (es : List WhitelistEntry)
    → constraints (e ∷ es) ≡ (row_ok e && not (any_where (same_active e) es) && constraints es)
unfolding constraints
constraints-cons e es = refl

-- An UPDATE or INSERT that violates a constraint changes nothing.
abbrev pub set_entries : {A : Type 0} → A → List WhitelistEntry → Tables → Result A × Tables
set_entries a rows t =
    if constraints rows then (ok a, record t { entries = rows }) else (err failed, t)

-- The foreign key and the CHECK of firewall_whitelist_events. A text that is no address is refused
-- before the statement runs.
unfoldable pub insert_event :
    ℕ
    → String
    → String
    → EventType
    → Option String
    → InetArg
    → Option String
    → Tables
    → ℕ
    → Result Unit × Tables
insert_event n iss sub type notes client_ip user_agent t now =
    let t' = record t { next_event_id = suc t.next_event_id } in
    let event : WhitelistEvent = record {
      id = t.next_event_id;
      whitelist_id = n;
      actor_iss = iss;
      actor_sub = sub;
      event_type = type;
      notes = notes;
      client_ip = column client_ip;
      user_agent = user_agent;
      created_at = now;
    } in
    if is_refused client_ip
    then (err failed, t)
    else (if any_where (has_id n) t.entries && not (iss == "") && not (sub == "")
        then (ok tt, record t' { events = t.events ++ event ∷ [] })
        else (err failed, t'))
