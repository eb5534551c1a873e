-- ===== src/Storage/Whitelist/Adding.antt =====
-- What AddIPToWhitelist does to the tables on each of its outcomes.
pub mod Body
pub mod Outcome
pub mod Storing
use dashboard_site.Common.{
  ℕ, ◌≡◌, ◌≢◌, ◌⊎◌, inl, inr, ◌∙◌, refl, ap, subst, sym, String, Bool, true, false, not, ◌&&◌, ◌==◌,
  Option, none, some, List, [], ◌∷◌, ◌++◌, arith, eqb, any_where, count_where, find_where,
  find_where-any, find_where-none, find_where-append_one, any_where-map, any_where-false,
  Bool-cases, Option-cases, ◌<◌, ltb,
}
use mathlib.Core.Option.{some-injective}
use dashboard_site.Models.Address.{Net, InetArg, column, is_refused}
use dashboard_site.Models.Whitelist.{
  WhitelistEntry, WhitelistEvent, WhitelistStatus, EventType, EntryView,
}
use dashboard_site.Storage.Sql.{
  Result, ok, err, failed, duplicate_ip, Session, Sql, StorageError, pure, query, exec, ◌>>=◌, ◌>>◌,
}
use dashboard_site.Storage.Sql.Ensures.{
  Ensures, Ensures-pure, Ensures-raise, Ensures-query, Ensures-exec, Ensures-bind,
  Ensures-transaction,
}
use dashboard_site.Storage.Whitelist.Schema.{Tables, restore, has_id, constraints, insert_event}
use dashboard_site.Storage.Whitelist.Read.{
  with_inet, active_at, user_active_at, duplicates, as_text, get_whitelist_entry_by_id,
  get_whitelist_events_by_entry, or_missing,
}
use dashboard_site.Storage.Whitelist.Write.{
  ids, NewEntry, requested_entry, insert_entry, refuse_duplicate, add_ip_to_whitelist,
}
use dashboard_site.Storage.Whitelist.Soundness.{IsSound}

-- all that a rollback may change are the sequences
pub record IsUnchanged (old t : Tables) : Type 0 where
  pub same_entries : t.entries ≡ old.entries
  pub same_events : t.events ≡ old.events

-- the row that is stored for a request, column by column
abbrev pub stored_row : NewEntry → String → ℕ → ℕ → WhitelistEntry
stored_row a address n now = record {
  id = n;
  owner_iss = a.owner_iss;
  owner_sub = a.owner_sub;
  alias_name = a.alias_name;
  alias_uuid = a.alias_uuid;
  ip_address = address;
  description = a.description;
  status = WhitelistStatus.requested;
  requested_at = now;
  added_at = none;
  removed_at = none;
  expires_at = a.expires_at;
  removed_by_iss = none;
  removed_by_sub = none;
  removal_reason = none;
}

module _ (net : Net) (a : NewEntry) (ip : InetArg) (agent : Option String) (old : Tables)
    (now : ℕ) where
  abbrev pub requested_event : WhitelistEvent
  requested_event = record {
    id = old.next_event_id;
    whitelist_id = old.next_id;
    actor_iss = a.owner_iss;
    actor_sub = a.owner_sub;
    event_type = EventType.requested;
    notes = none;
    client_ip = column ip;
    user_agent = agent;
    created_at = now;
  }

  -- an active entry of the same owner, alias and address
  abbrev pub has_duplicate : String → Bool
  has_duplicate address =
      any_where (duplicates a.owner_iss a.owner_sub a.alias_uuid address) old.entries

  -- the request has been stored, with its event
  pub record IsAdded (t : Tables) : Type 0 where
    pub address : String
    pub stored : net.inet_in a.ip_address ≡ some address
    pub accepted : is_refused ip ≡ false
    pub unique : has_duplicate address ≡ false
    pub one_entry : t.entries ≡ old.entries ++ stored_row a address old.next_id now ∷ []
    pub one_event : t.events ≡ old.events ++ requested_event ∷ []

  abbrev pub IsDuplicate : Type 0
  IsDuplicate =
      (address : String) × (net.inet_in a.ip_address ≡ some address)
      × (has_duplicate address ≡ true)

  -- inside the transaction
  abbrev pub Before : Tables → ℕ → Type 0
  Before t c = (t ≡ old) × (c ≡ now)

  abbrev pub BodyEnds : Result ℕ → Tables → ℕ → Type 0
  BodyEnds (ok n) t c = (n ≡ old.next_id) × IsAdded t × (c ≡ now)
  BodyEnds (err e) t c = (e ≡ duplicate_ip → IsDuplicate) × (c ≡ now)

  abbrev pub Found : Result (Option WhitelistEntry) → Tables → ℕ → Type 0
  Found (ok none) t c =
      (address : String) × (net.inet_in a.ip_address ≡ some address)
      × (has_duplicate address ≡ false)
      × (t ≡ old)
      × (c ≡ now)
  Found (ok (some e)) t c = IsDuplicate × (c ≡ now)
  Found (err e) t c = (e ≢ duplicate_ip) × (c ≡ now)

  abbrev pub Unique : Result Unit → Tables → ℕ → Type 0
  Unique (ok _) t c = Found (ok none) t c
  Unique (err e) t c = BodyEnds (err e) t c

  -- the row is in, and its event is not
  abbrev pub Inserted : Result ℕ → Tables → ℕ → Type 0
  Inserted (ok n) t c =
      (n ≡ old.next_id)
      × ((address : String) × (net.inet_in a.ip_address ≡ some address)
          × (has_duplicate address ≡ false)
          × (t.entries ≡ old.entries ++ stored_row a address old.next_id now ∷ []))
      × (t.events ≡ old.events)
      × (t.next_event_id ≡ old.next_event_id)
      × (c ≡ now)
  Inserted (err e) t c = (e ≢ duplicate_ip) × (c ≡ now)

  pub find_duplicate :
      (o : Option String)
      → net.inet_in a.ip_address ≡ o
      → (t : Tables) (c : ℕ) → Before t c
      → Found
          (with_inet o
            (λ x. find_where (duplicates a.owner_iss a.owner_sub a.alias_uuid x) t.entries))
          t
          c
  find_duplicate none e t c h = (λ x. cc, h.1)
  find_duplicate (some x) e t c h =
      elim (Option-cases
        (find_where (duplicates a.owner_iss a.owner_sub a.alias_uuid x) t.entries)) [
          | inl n ↦ rw n (
            x,
            e,
            subst
                (λ u.
                  any_where (duplicates a.owner_iss a.owner_sub a.alias_uuid x) u.entries ≡ false)
                h.0 (find_where-none _ t.entries n),
            h.0,
            h.1,
          )
          | inr (d, f) ↦ rw f (
            (
              x,
              e,
              subst
                  (λ u.
                    any_where (duplicates a.owner_iss a.owner_sub a.alias_uuid x) u.entries ≡ true)
                  h.0 (find_where-any _ t.entries d f).1,
            ),
            h.1,
          )
        ]
