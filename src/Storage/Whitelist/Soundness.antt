-- ===== src/Storage/Whitelist/Soundness.antt =====
-- What holds of the whitelist's tables between two statements, whichever statements fail.
use dashboard_site.Common.{
  ℕ, suc, ◌≤◌, ◌<◌, ◌≡◌, ◌≢◌, refl, String, Bool, true, Option, none, some, List, [], ◌∷◌, ◌++◌,
  arith, eqb, All, AllPairs, All-map, All-concat, AllPairs-append_one, any_where, update_where,
  map-update_where, any_where-map, any_where-append, Bool-cases, inl, inr,
}
use mathlib.Core.List.{map-append}
use dashboard_site.Common.{◌∙◌, not, ◌&&◌, ◌==◌}
use dashboard_site.Models.Address.{InetArg, inet_null, is_refused}
use dashboard_site.Models.Whitelist.{WhitelistEntry, EventType}
use dashboard_site.Storage.Sql.{exec}
use dashboard_site.Storage.Sql.Keeps.{Keeps, Keeps-exec, Keeps-bind, Keeps-pure}
use dashboard_site.Storage.Whitelist.Schema.{
  Tables, restore, has_id, constraints, set_entries, insert_event,
}
use dashboard_site.Storage.Whitelist.Write.{
  ids, update_entries, record_events, NewEntry, requested_entry, insert_entry,
}

-- an id in use
abbrev pub IsKnown : List ℕ → ℕ → Type 0
IsKnown ns n = any_where (λ m. eqb m n) ns ≡ true

-- Ids are distinct and below the sequence's next value, which is at least `low`; the constraints
-- hold; each event is of an entry that exists.
pub record IsSound (low : ℕ) (t : Tables) : Type 0 where
  pub grown : low ≤ t.next_id
  pub fresh : All (λ n. n < t.next_id) (ids t.entries)
  pub distinct : AllPairs (λ m n. m ≢ n) (ids t.entries)
  pub constrained : constraints t.entries ≡ true
  pub linked : All (λ v. IsKnown (ids t.entries) v.whitelist_id) t.events

-- an UPDATE that leaves the ids alone
set_entries-IsSound :
    {A : Type 0} (low : ℕ) (a : A) (rows : List WhitelistEntry) (t : Tables)
    → ids rows ≡ ids t.entries
    → IsSound low t
    → IsSound low (set_entries a rows t).1
set_entries-IsSound low a rows t same h = elim (Bool-cases (constraints rows)) [
  | inl e ↦ rw e (record {
    grown = h.grown;
    fresh = rw same h.fresh;
    distinct = rw same h.distinct;
    constrained = e;
    linked = rw same h.linked;
  })
  | inr e ↦ rw e h
]

pub update_entries-IsSound :
    (low : ℕ) (p : WhitelistEntry → Bool) (f : ℕ → WhitelistEntry → WhitelistEntry)
    → ((now : ℕ) (e : WhitelistEntry) → (f now e).id ≡ e.id)
    → Keeps (IsSound low) (update_entries p f)
unfolding update_entries
update_entries-IsSound low p f same = Keeps-exec _ λ t now h.
    set_entries-IsSound low _ (update_where p (f now) t.entries) t
      (map-update_where p (f now) (λ e. e.id) (same now) t.entries) h

IsKnown-has_id :
    (n : ℕ) (es : List WhitelistEntry) → any_where (has_id n) es ≡ true → IsKnown (ids es) n
IsKnown-has_id n es h = any_where-map (λ m. eqb m n) (λ e. e.id) es ∙ h

insert_event_cases :
    (low n : ℕ) (iss sub : String) (type : EventType) (notes : Option String) (ip : InetArg)
    (agent : Option String) (t : Tables) (now : ℕ)
    → IsSound low t
    → IsSound low (insert_event n iss sub type notes ip agent t now).1
unfolding insert_event
insert_event_cases low n iss sub type notes ip agent t now h = elim (Bool-cases (is_refused ip)) [
  | inl k ↦ rw k h
  | inr k ↦
      rw k
        (elim (Bool-cases (any_where (has_id n) t.entries && not (iss == "") && not (sub == ""))) [
          | inl e ↦ rw e (record {
            grown = h.grown;
            fresh = h.fresh;
            distinct = h.distinct;
            constrained = h.constrained;
            linked =
                All-concat (λ v. IsKnown (ids t.entries) v.whitelist_id) t.events _ h.linked
                  (IsKnown-has_id n t.entries (ground arith));
          })
          | inr e ↦ rw e (record {
            grown = h.grown;
            fresh = h.fresh;
            distinct = h.distinct;
            constrained = h.constrained;
            linked = h.linked;
          })
        ])
]

pub insert_event-IsSound :
    (low n : ℕ) (iss sub : String) (type : EventType) (notes : Option String) (ip : InetArg)
    (agent : Option String)
    → Keeps (IsSound low) (exec (insert_event n iss sub type notes ip agent))
insert_event-IsSound low n iss sub type notes ip agent =
    Keeps-exec _ (insert_event_cases low n iss sub type notes ip agent)

pub record_events-IsSound :
    (low : ℕ) (iss sub : String) (type : EventType) (notes : Option String) (ns : List ℕ)
    → Keeps (IsSound low) (record_events iss sub type notes ns)
unfolding record_events
record_events-IsSound low iss sub type notes [] = Keeps-pure tt
record_events-IsSound low iss sub type notes (n ∷ ns) =
    Keeps-bind _ _ (insert_event-IsSound low n iss sub type notes inet_null none)
      (λ _. record_events-IsSound low iss sub type notes ns)

-- the new row's id is the sequence's value
IsSound-append :
    (low : ℕ) (e : WhitelistEntry) (t : Tables)
    → e.id ≡ t.next_id
    → constraints (t.entries ++ e ∷ []) ≡ true
    → IsSound low t
    → IsSound low (record t { entries = t.entries ++ e ∷ []; next_id = suc t.next_id })
IsSound-append low e t new valid h =
    let grown_ids : ids (t.entries ++ e ∷ []) ≡ ids t.entries ++ e.id ∷ [] =
      map-append (λ d. d.id) t.entries (e ∷ []) in
    record {
      grown = omega (arith, h.grown);
      fresh = rw grown_ids (
          All-concat (λ n. n < suc t.next_id) (ids t.entries) e.id
            (All-map (λ n. n < t.next_id) (λ n. n < suc t.next_id) (λ n k. omega arith) _ h.fresh)
            (omega arith));
      distinct = rw grown_ids (
          AllPairs-append_one (λ m n. m ≢ n) (ids t.entries) e.id h.distinct
            (All-map (λ n. n < t.next_id) (λ n. n ≢ e.id) (λ n k. omega arith) _ h.fresh));
      constrained = valid;
      linked =
          All-map _ _ (λ v known. rw (grown_ids, any_where-append) (rw known)) t.events h.linked;
    }

pub insert_entry-IsSound :
    (low : ℕ) (a : NewEntry) (ip : Option String) (t : Tables) (now : ℕ)
    → IsSound low t
    → IsSound low (insert_entry a ip t now).1
unfolding insert_entry
insert_entry-IsSound low a none t now h = h
insert_entry-IsSound low a (some ip) t now h =
    elim (Bool-cases (constraints (t.entries ++ requested_entry a ip t.next_id now ∷ []))) [
      | inl e ↦ rw e (IsSound-append low (requested_entry a ip t.next_id now) t refl e h)
      | inr e ↦ rw e (record {
        grown = omega (arith, h.grown);
        fresh =
            All-map (λ n. n < t.next_id) (λ n. n < suc t.next_id) (λ n k. omega arith) _ h.fresh;
        distinct = h.distinct;
        constrained = h.constrained;
        linked = h.linked;
      })
    ]

pub IsSound-rebase : (low high : ℕ) (t : Tables) → high ≤ t.next_id → IsSound low t → IsSound high t
IsSound-rebase low high t le h = record {
  grown = le;
  fresh = h.fresh;
  distinct = h.distinct;
  constrained = h.constrained;
  linked = h.linked;
}

pub IsSound-restore :
    (low : ℕ) (old new : Tables)
    → IsSound low old
    → IsSound old.next_id new
    → IsSound low (restore old new)
IsSound-restore low old new h k = record {
  grown = omega (arith, h.grown, k.grown);
  fresh =
      All-map (λ n. n < old.next_id) (λ n. n < new.next_id) (λ n l. omega (arith, k.grown)) _
        h.fresh;
  distinct = h.distinct;
  constrained = h.constrained;
  linked = h.linked;
}
