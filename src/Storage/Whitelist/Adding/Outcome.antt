-- ===== src/Storage/Whitelist/Adding/Outcome.antt =====
-- The transaction of AddIPToWhitelist, and the read behind it.
use dashboard_site.Common.{
  ℕ, ◌≡◌, ◌≢◌, ◌⊎◌, ◌<◌, inl, inr, refl, ap, String, Option, some, List, arith, eqb, find_where,
  find_where-append_one, any_where-map, any_where-false, sym, ◌∙◌,
}
use dashboard_site.Models.Address.{Net, InetArg}
use dashboard_site.Models.Whitelist.{WhitelistEntry, WhitelistEvent, EntryView}
use dashboard_site.Storage.Sql.{Result, ok, err, duplicate_ip, Session, transaction}
use dashboard_site.Storage.Sql.Ensures.{
  Ensures, Ensures-pure, Ensures-query, Ensures-bind, Ensures-transaction,
}
use dashboard_site.Storage.Whitelist.Schema.{Tables, restore, has_id}
use dashboard_site.Storage.Whitelist.Read.{
  as_text, get_whitelist_entry_by_id, get_whitelist_events_by_entry, or_missing, unless-cases,
}
use dashboard_site.Storage.Whitelist.Write.{ids, NewEntry, add_ip_to_whitelist}
use dashboard_site.Storage.Whitelist.Soundness.{IsSound}
use dashboard_site.Storage.Whitelist.Adding.{
  stored_row, IsUnchanged, IsAdded, IsDuplicate, Before, BodyEnds,
}
use dashboard_site.Storage.Whitelist.Adding.Body.{transaction_body, transaction_body_ensures}

abbrev view_of : WhitelistEntry → Result (List WhitelistEvent) → Result WhitelistEntry
view_of e (ok _) = ok e
view_of e (err x) = err x

module _ (net : Net) (a : NewEntry) (ip : InetArg) (agent : Option String) (old : Tables)
    (now : ℕ) where
  abbrev pub Outcome : Result EntryView → Tables → Type 0
  Outcome (ok v) t =
      (h : IsAdded net a ip agent old now t) × (v.entry
        ≡ record (stored_row a h.address old.next_id now) { ip_address = net.inet_text h.address })
  Outcome (err e) t =
      (IsUnchanged old t × (e ≡ duplicate_ip → IsDuplicate net a ip agent old now))
      ⊎ (IsAdded net a ip agent old now t × (e ≢ duplicate_ip))

  abbrev Committed : Result ℕ → Tables → ℕ → Type 0
  Committed (ok n) t c = (n ≡ old.next_id) × IsAdded net a ip agent old now t × (c ≡ now)
  Committed (err e) t c =
      IsUnchanged old t × (e ≡ duplicate_ip → IsDuplicate net a ip agent old now)

  rolled_back : (o new : Tables) → o ≡ old → IsUnchanged old (restore o new)
  rolled_back o new e = record {
    same_entries = ap (λ t. t.entries) e;
    same_events = ap (λ t. t.events) e;
  }

  transaction_ensures :
      Ensures
        (Before net a ip agent old now)
        (transaction restore (transaction_body net a ip agent old now))
        Committed
  transaction_ensures =
      Ensures-transaction restore (Before net a ip agent old now)
        (λ _ r t c. BodyEnds net a ip agent old now r t c) Committed (λ o new n b c h k. k)
        (λ o new e b c h k. (rolled_back o new h.0, k.0))
        (λ o new n b c h k. (rolled_back o new h.0, (λ x. cc)))
        (λ o c h. (rolled_back o o h.0, (λ x. cc))) (transaction_body net a ip agent old now)
        (λ o c h. record {
          at = λ s k. (transaction_body_ensures net a ip agent old now).at s (k.0 ∙ h.0, k.1 ∙ h.1);
        })

  module _ (low : ℕ) (sound : IsSound low old) where
    read_back :
        (t : Tables) (h : IsAdded net a ip agent old now t)
        → find_where (has_id old.next_id) t.entries ≡ some (stored_row a h.address old.next_id now)
    read_back t h = rw (h.one_entry) (
        find_where-append_one (has_id old.next_id) old.entries _
          (sym (any_where-map (λ m. eqb m old.next_id) (λ e. e.id) old.entries)
            ∙ any_where-false (λ m. m < old.next_id) (λ m. eqb m old.next_id) (ids old.entries)
                (λ m k. ground arith) sound.fresh)
          (ground arith))

    abbrev Read : Result WhitelistEntry → Tables → ℕ → Type 0
    Read (ok e) t c =
        (h : IsAdded net a ip agent old now t) × (e ≡ stored_row a h.address old.next_id now)
    Read (err e) t c = IsAdded net a ip agent old now t × (e ≢ duplicate_ip)

    found_row :
        (n : ℕ) (t : Tables) (c : ℕ)
        → Committed (ok n) t c
        → Read (or_missing (find_where (has_id n) t.entries)) t c
    found_row n t c h = rw (h.0, read_back t h.1) (h.1, refl)

    read_ensures :
        (n : ℕ)
        → Ensures (Committed (ok n)) (get_whitelist_entry_by_id net n) (λ r t _. Outcome r t)
    unfolding get_whitelist_entry_by_id get_whitelist_events_by_entry
    read_ensures n =
        Ensures-bind Read _ _ (Ensures-query _ _ _ (found_row n) (λ t c h. (h.1, (λ x. cc))))
          (λ e.
            Ensures-bind (λ r t c. Read (view_of e r) t c) _ _
              (Ensures-query _ _ _
                (λ t c h.
                  unless-cases (λ r. Read (view_of e r) t c) _ _ h (h.0, (λ x. absurd (cc))))
                (λ t c h. (h.0, (λ x. cc))))
              (λ vs. Ensures-pure _ (λ t c h. (h.0, ap (as_text net) h.1))) (λ x t c h. inr h))
          (λ x t c h. inr h)

    pub add_ensures :
        Ensures
          (Before net a ip agent old now)
          (add_ip_to_whitelist net a ip agent)
          (λ r t _. Outcome r t)
    unfolding add_ip_to_whitelist transaction_body
    add_ensures = Ensures-bind Committed _ _ transaction_ensures read_ensures (λ x t c h. inl h)

-- A call of AddIPToWhitelist, in a sound state and whichever of its statements fail, either leaves
-- entries and events as they were or stores exactly one requested entry together with its one event,
-- never one without the other. If it returns an entry, that is the stored one; if it reports a
-- duplicate, nothing changed and the owner has an active entry for the address; an entry is stored
-- only where the owner had no active one for the address.
pub add_ip_to_whitelist_atomic :
    (net : Net) (a : NewEntry) (ip : InetArg) (agent : Option String) (low : ℕ) (s : Session Tables)
    → IsSound low s.tables
    → Outcome net a ip agent s.tables s.clock
        (add_ip_to_whitelist net a ip agent s).0
        (add_ip_to_whitelist net a ip agent s).1.tables
add_ip_to_whitelist_atomic net a ip agent low s sound =
    (add_ensures net a ip agent s.tables s.clock low sound).at s (refl, refl)
