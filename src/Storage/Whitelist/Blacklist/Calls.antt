-- ===== src/Storage/Whitelist/Blacklist/Calls.antt =====
-- What the operations that change the whitelist do to blacklisted addresses, whichever of their
-- statements fail.
use dashboard_site.Common.{
  ℕ, ◌≡◌, ◌≢◌, sym, ap, ◌∙◌, subst, String, Bool, false, not, ◌&&◌, ◌==◌, Option, none, some, List,
  [], ◌∷◌, AllPairs, any_where, find_where, select_where, update_where, update_where-congr,
  key_in-selected, Bool-cases, inl, inr, eqb, if◌then◌else◌,
}
use dashboard_site.Models.Address.{InetArg, inet_null, is_refused}
use dashboard_site.Models.Whitelist.{WhitelistEntry, EventType, is_blacklisted}
use dashboard_site.Storage.Sql.{Result, ok, err, Sql, StorageError, raise, ◌>>=◌}
use dashboard_site.Storage.Sql.Keeps.{Keeps, Keeps-pure, Keeps-raise, Keeps-exec, Keeps-bind}
use dashboard_site.Storage.Sql.Ensures.{
  Ensures, Ensures-query, Ensures-exec, Ensures-bind, Ensures-of_Keeps,
}
use dashboard_site.Storage.Whitelist.Schema.{Tables, has_id, constraints, set_entries, insert_event}
use dashboard_site.Storage.Whitelist.Write.{
  ids, has_id_in, set_removed, set_added, is_expired, update_entries, create_whitelist_event,
  record_events, remove_ip_from_whitelist, mark_ips_as_added, expire_all, expire_old_ips,
}
use dashboard_site.Storage.Whitelist.Blacklist.{
  IsLawful, IsLawful-refl, expire-IsLawful, mark-IsLawful, remove-IsLawful,
}

module _ (old : Tables) where
  abbrev pub Lawful : Tables → Type 0
  Lawful t = IsLawful old.entries t.entries

  event_keeps :
      (n : ℕ) (iss sub : String) (type : EventType) (notes : Option String) (ip : InetArg)
      (agent : Option String) (t : Tables) (c : ℕ)
      → Lawful t
      → Lawful (insert_event n iss sub type notes ip agent t c).1
  unfolding insert_event
  event_keeps n iss sub type notes ip agent t c h = elim (Bool-cases (is_refused ip)) [
    | inl k ↦ rw k h
    | inr k ↦
        rw k
          (elim (Bool-cases
            (any_where (has_id n) t.entries && not (iss == "") && not (sub == ""))) [
              | inl e ↦ rw e h
              | inr e ↦ rw e h
            ])
  ]

  record_events-Keeps :
      (iss sub : String) (type : EventType) (notes : Option String) (ns : List ℕ)
      → Keeps Lawful (record_events iss sub type notes ns)
  unfolding record_events
  record_events-Keeps iss sub type notes [] = Keeps-pure tt
  record_events-Keeps iss sub type notes (n ∷ ns) =
      Keeps-bind _ _ (Keeps-exec _ (event_keeps n iss sub type notes inet_null none))
        (λ _. record_events-Keeps iss sub type notes ns)

  module _ (now : ℕ) where
    abbrev At : Tables → ℕ → Type 0
    At t c = (t ≡ old) × (c ≡ now)

    abbrev Ends : {A : Type 0} → Result A → Tables → ℕ → Type 0
    Ends r t c = Lawful t

    unmoved : (t : Tables) (c : ℕ) → At t c → Lawful t
    unmoved t c h = subst Lawful (sym h.0) (IsLawful-refl old.entries)

    updated :
        (p : WhitelistEntry → Bool) (f : ℕ → WhitelistEntry → WhitelistEntry) (t : Tables) (c : ℕ)
        → IsLawful old.entries (update_where p (f now) old.entries)
        → At t c
        → (k : ℕ) → Lawful (set_entries k (update_where p (f c) t.entries) t).1
    updated p f t c l h k = elim (Bool-cases (constraints (update_where p (f c) t.entries))) [
      | inl e ↦ rw e (
          subst (λ x. IsLawful old.entries (update_where p (f x) t.entries)) (sym h.1)
            (subst (λ u. IsLawful old.entries (update_where p (f now) u.entries)) (sym h.0) l))
      | inr e ↦ rw e (unmoved t c h)
    ]

    update_ensures :
        (p : WhitelistEntry → Bool) (f : ℕ → WhitelistEntry → WhitelistEntry)
        → IsLawful old.entries (update_where p (f now) old.entries)
        → Ensures At (update_entries p f) Ends
    unfolding update_entries
    update_ensures p f l = Ensures-exec _ _ _ (λ t c h. updated p f t c l h _) unmoved

    -- an update, and then statements that keep the entries
    update_then :
        {A : Type 0} (p : WhitelistEntry → Bool) (f : ℕ → WhitelistEntry → WhitelistEntry)
        (k : ℕ → Sql Tables A)
        → IsLawful old.entries (update_where p (f now) old.entries)
        → ((n : ℕ) → Keeps Lawful (k n))
        → Ensures At (update_entries p f >>= k) Ends
    update_then p f k l rest =
        Ensures-bind Ends _ k (update_ensures p f l) (λ n. Ensures-of_Keeps Lawful (k n) (rest n))
          (λ e t c h. h)

    pub create_event_ensures :
        (n : ℕ) (iss sub : String) (type : EventType) (notes : String) (ip : InetArg)
        (agent : Option String)
        → Ensures At (create_whitelist_event n iss sub type notes ip agent) Ends
    unfolding create_whitelist_event
    create_event_ensures n iss sub type notes ip agent =
        Ensures-exec _ _ _
          (λ t c h. event_keeps n iss sub type (some notes) ip agent t c (unmoved t c h)) unmoved

    after_remove :
        (n affected : ℕ) (iss sub : String) (ip : InetArg) (agent : Option String)
        → Keeps Lawful (
            if eqb affected 0
            then raise StorageError.entry_not_found
            else create_whitelist_event n iss sub EventType.removed "" ip agent)
    unfolding create_whitelist_event
    after_remove n affected iss sub ip agent = elim (Bool-cases (eqb affected 0)) [
      | inl e ↦ rw e (Keeps-raise _)
      | inr e ↦ rw e (Keeps-exec _ (event_keeps n iss sub EventType.removed (some "") ip agent))
    ]

    pub remove_ensures :
        (n : ℕ) (iss sub : String) (ip : InetArg) (agent : Option String) (e : WhitelistEntry)
        → AllPairs (λ m k. m ≢ k) (ids old.entries)
        → find_where (has_id n) old.entries ≡ some e
        → is_blacklisted e.status ≡ false
        → Ensures At (remove_ip_from_whitelist n iss sub ip agent) Ends
    unfolding remove_ip_from_whitelist
    remove_ensures n iss sub ip agent e distinct found h =
        update_then (has_id n) set_removed _ (remove-IsLawful now n old.entries e distinct found h)
          (λ affected. after_remove n affected iss sub ip agent)

    pub mark_ensures :
        (ns : List ℕ) (iss sub : String) → Ensures At (mark_ips_as_added ns iss sub) Ends
    unfolding mark_ips_as_added
    mark_ensures ns iss sub =
        update_then _ set_added _ (mark-IsLawful now ns old.entries)
          (λ _. record_events-Keeps iss sub EventType.added (some "") ns)

    expire_all_ensures :
        (ns : List ℕ) (iss sub : String)
        → IsLawful old.entries (update_where (has_id_in ns) (set_removed now) old.entries)
        → Ensures At (expire_all ns iss sub) Ends
    unfolding expire_all
    expire_all_ensures [] iss sub l = record {
      at = λ s h. (Keeps-pure {P = Lawful} 0).at s (unmoved s.tables s.clock h);
    }
    expire_all_ensures (n ∷ ns) iss sub l = update_then _ set_removed _ l (λ _.
        Keeps-bind _ _ (record_events-Keeps iss sub EventType.expired (some "") (n ∷ ns))
          (λ _. Keeps-pure _))

    -- the SELECT of the ids, from the same tables
    abbrev Found : (ℕ → WhitelistEntry → Bool) → Result (List ℕ) → Tables → ℕ → Type 0
    Found q (ok ns) t c = (ns ≡ ids (select_where (q now) old.entries)) × At t c
    Found q (err e) t c = At t c

    pub expire_ensures :
        (iss sub : String)
        → AllPairs (λ m k. m ≢ k) (ids old.entries)
        → Ensures At (expire_old_ips iss sub) Ends
    unfolding expire_old_ips
    expire_ensures iss sub distinct =
        Ensures-bind (Found is_expired) _ _
          (Ensures-query _ _ _
            (λ t c h. (
              ap (λ u. ids (select_where (is_expired c) u.entries)) h.0
                  ∙ ap (λ x. ids (select_where (is_expired x) old.entries)) h.1,
              h,
            ))
            (λ t c h. h))
          (λ ns. record {
            at = λ s h.
                (expire_all_ensures ns iss sub (
                    subst
                      (λ ms.
                        IsLawful old.entries
                          (update_where (has_id_in ms) (set_removed now) old.entries))
                      (sym h.0)
                      (rw
                        (update_where-congr _ (is_expired now) (set_removed now) old.entries
                          (key_in-selected (λ e. e.id) (is_expired now) old.entries distinct))
                        (expire-IsLawful now old.entries)))).at
                  s h.1;
          })
          (λ e t c h. unmoved t c h)
