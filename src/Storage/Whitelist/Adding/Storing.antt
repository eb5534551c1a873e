-- ===== src/Storage/Whitelist/Adding/Storing.antt =====
-- AddIPToWhitelist stores an entry where nothing stands against it.
use dashboard_site.Common.{
  ℕ, suc, ◌≡◌, refl, sym, ap, ◌∙◌, String, Bool, true, false, not, ◌&&◌, ◌==◌, eq_iff, Option, none,
  some, List, [], ◌∷◌, ◌++◌, arith, eqb_iff, sort_by, any_where, any_where-append,
  any_where-append_one, find_where, find_where-never, find_where-append_one, any_where-false,
  any_where-map, All-map, Bool-cases, inl, inr, eqb, ◌<◌, select_where, All, All-of_any_false,
}
use mathlib.Core.Option
use dashboard_site.Models.Address.{Net, InetArg, is_refused}
use dashboard_site.Models.Whitelist.{WhitelistEntry, WhitelistEvent, EventType, EntryView}
use dashboard_site.Storage.Sql.{ok, ◌>>=◌, transaction}
use dashboard_site.Storage.Whitelist.Schema.{
  Tables, restore, has_id, row_ok, same_active, after, constraints, constraints-cons, insert_event,
}
use dashboard_site.Storage.Whitelist.Read.{
  duplicates, has_user, known_actor, nameless, events_of, get_whitelist_entry_by_id,
  get_whitelist_events_by_entry,
}
use dashboard_site.Storage.Whitelist.Write.{
  ids, NewEntry, requested_entry, insert_entry, refuse_duplicate, add_ip_to_whitelist,
}
use dashboard_site.Storage.Whitelist.Soundness.{IsSound, IsKnown}
use dashboard_site.Storage.Whitelist.Adding.{stored_row, requested_event}
use dashboard_site.Storage.Whitelist.Adding.Body.{transaction_body}
use dashboard_site.Storage.Sql.Calm.{calm, bind-calm, transaction-calm}

module _ (a : NewEntry) (ip : String) (n now : ℕ) where
  abbrev row : WhitelistEntry
  row = requested_entry a ip n now

  abbrev taken : WhitelistEntry → Bool
  taken = duplicates a.owner_iss a.owner_sub a.alias_uuid ip

  not_same : (e : WhitelistEntry) → taken e ≡ false → same_active e row ≡ false
  not_same e h = ground (
    arith,
    eq_iff e.owner_iss a.owner_iss,
    eq_iff e.owner_sub a.owner_sub,
    eq_iff e.alias_uuid a.alias_uuid,
    eq_iff e.ip_address ip,
    eq_iff a.owner_iss e.owner_iss,
    eq_iff a.owner_sub e.owner_sub,
    eq_iff a.alias_uuid e.alias_uuid,
    eq_iff ip e.ip_address,
  )

  with_row :
      (fits same rest same' rest' : Bool)
      → fits && not same && rest ≡ true
      → same' ≡ same
      → (rest ≡ true → rest' ≡ true)
      → fits && not same' && rest' ≡ true
  with_row fits same rest same' rest' h e k = ground arith

  -- the constraints hold of the table with the new row
  pub constraints-append :
      (es : List WhitelistEntry)
      → All (λ e. taken e ≡ false) es
      → row_ok row ≡ true
      → constraints es ≡ true
      → constraints (es ++ row ∷ []) ≡ true
  unfolding any_where
  constraints-append [] free fits h = constraints-cons row [] ∙ single fits h
    where
      single :
          row_ok row ≡ true
          → constraints [] ≡ true
          → row_ok row && not (any_where (same_active row) []) && constraints [] ≡ true
      single f k = rw (f, k) refl
  constraints-append (e ∷ es) free fits h =
      constraints-cons e (es ++ row ∷ [])
      ∙ with_row (row_ok e) (any_where (same_active e) es) (constraints es) _ _
          (sym (constraints-cons e es) ∙ h)
          (any_where-append_one (same_active e) es row (not_same e free.0))
          (constraints-append es free.1 fits)

  row_fits :
      not (a.owner_iss == "") ≡ true
      → not (a.owner_sub == "") ≡ true
      → after now a.expires_at ≡ true
      → row_ok row ≡ true
  unfolding row_ok
  row_fits named_iss named_sub later = ground arith

select_where-last {ℓ} :
    {A : Type ℓ} (p : A → Bool) (xs : List A) (y : A)
    → All (λ a. p a ≡ false) xs
    → p y ≡ true
    → select_where p (xs ++ y ∷ []) ≡ y ∷ []
unfolding select_where
select_where-last p [] y h k = rw k refl
select_where-last p (x ∷ xs) y h k = rw (h.0) (select_where-last p xs y h.1 k)

-- an entry and its one event as they are read, with their addresses as texts
abbrev pub view_of : Net → WhitelistEntry → WhitelistEvent → EntryView
view_of net e v = record {
  entry = record e { ip_address = net.inet_text e.ip_address };
  events = record v { client_ip = Option.map net.inet_text v.client_ip } ∷ [];
}

module _ (net : Net) (a : NewEntry) (ip : InetArg) (agent : Option String) (t : Tables)
    (now : ℕ) where
  -- what must hold for an entry to be stored at `x`, besides the database's being there
  pub record IsStorable (x : String) : Type 0 where
    pub accepted : is_refused ip ≡ false
    pub registered : has_user t.users a.owner_iss a.owner_sub ≡ true
    pub parsed : net.inet_in a.ip_address ≡ some x
    pub free : any_where (duplicates a.owner_iss a.owner_sub a.alias_uuid x) t.entries ≡ false
    pub named_iss : not (a.owner_iss == "") ≡ true
    pub named_sub : not (a.owner_sub == "") ≡ true
    pub later : after now a.expires_at ≡ true

  abbrev of_new : WhitelistEvent → Bool
  of_new v = eqb v.whitelist_id t.next_id

  module _ (low : ℕ) (sound : IsSound low t) (x : String) (h : IsStorable x) where
    abbrev new_row : WhitelistEntry
    new_row = requested_entry a x t.next_id now

    abbrev with_entry : Tables
    with_entry = record t { entries = t.entries ++ new_row ∷ []; next_id = suc t.next_id }

    fits : constraints (t.entries ++ new_row ∷ []) ≡ true
    fits =
        constraints-append a x t.next_id now t.entries
          (All-of_any_false (duplicates a.owner_iss a.owner_sub a.alias_uuid x) t.entries h.free)
          (row_fits a x t.next_id now h.named_iss h.named_sub h.later) sound.constrained

    inserted : insert_entry a (some x) t now ≡ (ok t.next_id, with_entry)
    unfolding insert_entry
    inserted = rw fits refl

    -- the new row is the one that is read back
    known : any_where (has_id t.next_id) with_entry.entries ≡ true
    unfolding any_where
    known = ground (
      arith,
      any_where-append (has_id t.next_id) t.entries (new_row ∷ []),
      (eqb_iff t.next_id t.next_id).1 refl,
    )

    abbrev with_event : Tables
    with_event = record with_entry {
      events = t.events ++ requested_event net a ip agent t now ∷ [];
      next_event_id = suc t.next_event_id;
    }

    event_inserted :
        insert_event t.next_id a.owner_iss a.owner_sub EventType.requested none ip agent with_entry
          now
        ≡ (ok tt, with_event)
    unfolding insert_event
    event_inserted = rw (h.accepted, known, h.named_iss, h.named_sub) refl

    none_found : find_where (duplicates a.owner_iss a.owner_sub a.alias_uuid x) t.entries ≡ none
    none_found = find_where-never _ t.entries h.free

    body_runs :
        transaction_body net a ip agent t now (calm t now) ≡ (ok t.next_id, calm with_event now)
    unfolding transaction_body ◌>>=◌ refuse_duplicate
    body_runs = rw (h.parsed, none_found, inserted, event_inserted) refl

    abbrev event : WhitelistEvent
    event = requested_event net a ip agent t now

    -- no id is in use that the sequence has not given out
    unused : any_where (λ m. eqb m t.next_id) (ids t.entries) ≡ false
    unused =
        any_where-false (λ m. m < t.next_id) (λ m. eqb m t.next_id) (ids t.entries)
          (λ m k. ground arith) sound.fresh

    found_again : find_where (has_id t.next_id) with_entry.entries ≡ some new_row
    found_again =
        find_where-append_one (has_id t.next_id) t.entries new_row
          (sym (any_where-map (λ m. eqb m t.next_id) (λ e. e.id) t.entries) ∙ unused)
          ((eqb_iff t.next_id t.next_id).1 refl)

    not_its : (v : WhitelistEvent) → IsKnown (ids t.entries) v.whitelist_id → of_new v ≡ false
    not_its v k = elim (Bool-cases (of_new v)) [
      | inl e ↦
          let same : v.whitelist_id ≡ t.next_id = (eqb_iff v.whitelist_id t.next_id).0 e in
          absurd
            (cc (sym unused ∙ ap (λ n. any_where (λ m. eqb m n) (ids t.entries)) (sym same) ∙ k))
      | inr e ↦ e
    ]

    one_event : events_of t.next_id with_event.events ≡ event ∷ []
    one_event =
        select_where-last of_new t.events event
          (All-map (λ v. IsKnown (ids t.entries) v.whitelist_id) (λ v. of_new v ≡ false) not_its
            t.events sound.linked)
          ((eqb_iff t.next_id t.next_id).1 refl)

    named : nameless with_event event ≡ false
    unfolding known_actor
    named = rw h.registered refl

    read_runs :
        get_whitelist_entry_by_id net t.next_id (calm with_event now)
        ≡ (ok (view_of net new_row event), calm with_event now)
    unfolding get_whitelist_entry_by_id get_whitelist_events_by_entry ◌>>=◌ any_where sort_by
    read_runs = rw (found_again, one_event, named) refl

    add_runs :
        add_ip_to_whitelist net a ip agent (calm t now)
        ≡ (ok (view_of net new_row event), calm with_event now)
    unfolding add_ip_to_whitelist transaction_body
    add_runs =
        bind-calm t now (transaction restore (transaction_body net a ip agent t now)) _ t.next_id
          with_event
          (transaction-calm t now restore (transaction_body net a ip agent t now) t.next_id
            with_event body_runs)
        ∙ read_runs

-- With the database at its work, AddIPToWhitelist stores what it is given and returns it: in a sound
-- state, for an owner with names who is in the table of users, an address that the database reads and
-- that the owner has no requested or added entry for, an expiry after now, if any, and no client
-- address or one that the database reads. Then it appends the requested row and its one event to the
-- tables, changes nothing else of them but the two sequences, and returns that row and that event with
-- their addresses as texts. No limit of a user or of an alias stands against it.
pub add_ip_to_whitelist_stores :
    (net : Net) (a : NewEntry) (ip : InetArg) (agent : Option String) (t : Tables) (now low : ℕ)
    (x : String)
    → IsSound low t
    → IsStorable net a ip agent t now x
    → add_ip_to_whitelist net a ip agent (calm t now) ≡ (
      ok (view_of net (stored_row a x t.next_id now) (requested_event net a ip agent t now)),
      calm
          (record t {
            entries = t.entries ++ stored_row a x t.next_id now ∷ [];
            next_id = suc t.next_id;
            events = t.events ++ requested_event net a ip agent t now ∷ [];
            next_event_id = suc t.next_event_id;
          })
          now,
    )
add_ip_to_whitelist_stores net a ip agent t now low x sound h =
    add_runs net a ip agent t now low sound x h
