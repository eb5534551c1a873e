-- ===== src/Storage/Whitelist/Blacklist/Address.antt =====
-- BlacklistIPAddress: all entries of an address, or none.
use dashboard_site.Common.{
  ℕ, ◌<◌, ◌≡◌, ◌≢◌, refl, ap, ◌∙◌, String, Bool, not, ◌&&◌, ◌==◌, Option, none, some, List, [], ◌∷◌,
  arith, length, AllPairs, any_where, select_where, update_where, Bool-cases, inl, inr,
}
use dashboard_site.Models.Address.{Net, InetArg, inet_null, is_refused}
use dashboard_site.Models.Whitelist.{WhitelistEntry, EventType}
use dashboard_site.Storage.Sql.{Result, ok, err, Sql, query, pure, ◌>>=◌, ◌>>◌}
use dashboard_site.Storage.Sql.Keeps.{Keeps, Keeps-exec, Keeps-bind, Keeps-pure}
use dashboard_site.Storage.Sql.Ensures.{
  Ensures, Ensures-bind, Ensures-query, Ensures-exec, Ensures-pure, Ensures-of_Keeps,
  Ensures-transaction,
}
use dashboard_site.Storage.Whitelist.Schema.{
  Tables, restore, has_id, constraints, set_entries, insert_event,
}
use dashboard_site.Storage.Whitelist.Read.{with_inet}
use dashboard_site.Storage.Whitelist.Write.{
  ids, has_id_in, create_whitelist_event, update_entries, set_blacklisted, blacklistable, some_ids,
  record_events, blacklist_ip_address,
}
use dashboard_site.Storage.Whitelist.Blacklist.Entering.{found_rows}

module _ (rows : List WhitelistEntry) where
  abbrev Holds : Tables → Type 0
  Holds t = t.entries ≡ rows

  event-Holds :
      (n : ℕ) (iss sub : String) (type : EventType) (notes : Option String) (ip : InetArg)
      (agent : Option String) (t : Tables) (c : ℕ)
      → Holds t
      → Holds (insert_event n iss sub type notes ip agent t c).1
  unfolding insert_event
  event-Holds n iss sub type notes ip agent t c h = elim (Bool-cases (is_refused ip)) [
    | inl k ↦ rw k h
    | inr k ↦
        rw k
          (elim (Bool-cases
            (any_where (has_id n) t.entries && not (iss == "") && not (sub == ""))) [
              | inl e ↦ rw e h
              | inr e ↦ rw e h
            ])
  ]

  pub create_event-Holds :
      (n : ℕ) (iss sub : String) (type : EventType) (notes : String) (ip : InetArg)
      (agent : Option String)
      → Keeps Holds (create_whitelist_event n iss sub type notes ip agent)
  unfolding create_whitelist_event
  create_event-Holds n iss sub type notes ip agent =
      Keeps-exec _ (event-Holds n iss sub type (some notes) ip agent)

  record_events_hold :
      (iss sub : String) (type : EventType) (notes : Option String) (ns : List ℕ)
      → Keeps Holds (record_events iss sub type notes ns)
  unfolding record_events
  record_events_hold iss sub type notes [] = Keeps-pure tt
  record_events_hold iss sub type notes (n ∷ ns) =
      Keeps-bind _ _ (Keeps-exec _ (event-Holds n iss sub type notes inet_null none))
        (λ _. record_events_hold iss sub type notes ns)

module _ (old : Tables) (now : ℕ) where
  abbrev At : Tables → ℕ → Type 0
  At t c = (t ≡ old) × (c ≡ now)

  -- an UPDATE that succeeds changes the entries as it says
  abbrev pub Updated :
      (WhitelistEntry → Bool)
      → (ℕ → WhitelistEntry → WhitelistEntry)
      → Result ℕ
      → Tables
      → ℕ
      → Type 0
  Updated p f (ok k) t c = t.entries ≡ update_where p (f now) old.entries
  Updated p f (err e) t c = t.entries ≡ old.entries

  updated :
      (p : WhitelistEntry → Bool) (f : ℕ → WhitelistEntry → WhitelistEntry) (t : Tables) (c k : ℕ)
      → At t c
      → Updated p f
          (set_entries k (update_where p (f c) t.entries) t).0
          (set_entries k (update_where p (f c) t.entries) t).1
          c
  updated p f t c k h = elim (Bool-cases (constraints (update_where p (f c) t.entries))) [
    | inl e ↦ rw e (
        ap (λ u. update_where p (f c) u.entries) h.0
        ∙ ap (λ x. update_where p (f x) old.entries) h.1)
    | inr e ↦ rw e (ap (λ u. u.entries) h.0)
  ]

  pub update_entries_ensures :
      (p : WhitelistEntry → Bool) (f : ℕ → WhitelistEntry → WhitelistEntry)
      → Ensures At (update_entries p f) (Updated p f)
  unfolding update_entries
  update_entries_ensures p f =
      Ensures-exec _ _ _ (λ t c h. updated p f t c _ h) (λ t c h. ap (λ u. u.entries) h.0)

  module _ (net : Net) (uuid ip iss sub reason : String)
      (distinct : AllPairs (λ m k. m ≢ k) (ids old.entries)) where
    -- what a call that returns `n` has done
    pub record IsBlacklisting (n : ℕ) (t : Tables) : Type 0 where
      pub address : String
      pub stored : net.inet_in ip ≡ some address
      pub changed :
          t.entries
          ≡ update_where
              (blacklistable uuid address)
              (set_blacklisted iss sub reason now)
              old.entries
      pub counted : n ≡ length (ids (select_where (blacklistable uuid address) old.entries))
      pub found : 0 < n

    abbrev pub Blacklisting : Result ℕ → Tables → ℕ → Type 0
    Blacklisting (ok n) t c = IsBlacklisting n t
    Blacklisting (err e) t c = t.entries ≡ old.entries

    abbrev BodyEnds : Result ℕ → Tables → ℕ → Type 0
    BodyEnds (ok n) t c = IsBlacklisting n t
    BodyEnds (err e) t c = Unit

    abbrev chosen : Option String → Tables → Result (List ℕ)
    chosen o t = with_inet o (λ a. ids (select_where (blacklistable uuid a) t.entries))

    abbrev Chosen : Result (List ℕ) → Tables → ℕ → Type 0
    Chosen (ok ns) t c = (ok ns ≡ chosen (net.inet_in ip) old) × At t c
    Chosen (err e) t c = Unit

    is_chosen :
        (r : Result (List ℕ)) (t : Tables) (c : ℕ)
        → r ≡ chosen (net.inet_in ip) t
        → At t c
        → Chosen r t c
    is_chosen (ok ns) t c e h = (e ∙ ap (chosen (net.inet_in ip)) h.0, h)
    is_chosen (err x) t c e h = tt

    finished :
        (n : ℕ) (ns : List ℕ) (t : Tables) (o : Option String)
        → net.inet_in ip ≡ o
        → ok (n ∷ ns) ≡ chosen o old
        → t.entries
          ≡ update_where (has_id_in (n ∷ ns)) (set_blacklisted iss sub reason now) old.entries
        → IsBlacklisting (length (n ∷ ns)) t
    finished n ns t none e c h = absurd (cc)
    finished n ns t (some a) e c h =
        let same : n ∷ ns ≡ ids (select_where (blacklistable uuid a) old.entries) = cc in
        record {
          address = a;
          stored = e;
          changed =
              h
              ∙ ap
                  (λ ms.
                    update_where (has_id_in ms) (set_blacklisted iss sub reason now) old.entries)
                  same
              ∙ found_rows uuid a iss sub reason now old.entries distinct;
          counted = ap length same;
          found = omega arith;
        }

    body_ensures :
        (ns : List ℕ)
        → Ensures
            (Chosen (ok ns))
            (do
              some_ids ns
              update_entries (has_id_in ns) (set_blacklisted iss sub reason)
              record_events iss sub EventType.blacklisted_by_admin (some reason) ns
              pure (length ns))
            BodyEnds
    unfolding some_ids ◌>>=◌
    body_ensures [] = record { at = λ s h. tt }
    body_ensures (n ∷ ns) = record {
      at = λ s h.
          (Ensures-bind (Updated (has_id_in (n ∷ ns)) (set_blacklisted iss sub reason))
              {Q = BodyEnds} _ _
              (update_entries_ensures (has_id_in (n ∷ ns)) (set_blacklisted iss sub reason))
              (λ _.
                Ensures-bind (λ r t c. Holds _ t) _ _
                  (Ensures-of_Keeps (Holds _) _ (
                    record_events_hold
                      (update_where (has_id_in (n ∷ ns)) (set_blacklisted iss sub reason now)
                        old.entries)
                      iss sub EventType.blacklisted_by_admin (some reason) (n ∷ ns)))
                  (λ _. Ensures-pure _ (λ t c e. finished n ns t (net.inet_in ip) refl h.0 e))
                  (λ e t c k. tt))
              (λ e t c k. tt)).at
            s h.1;
    }

    transaction_body : Sql Tables ℕ
    transaction_body = do
      found ← query (λ t _.
          with_inet (net.inet_in ip) (λ a. ids (select_where (blacklistable uuid a) t.entries)))
      some_ids found
      update_entries (has_id_in found) (set_blacklisted iss sub reason)
      record_events iss sub EventType.blacklisted_by_admin (some reason) found
      pure (length found)

    transaction_body_ensures : Ensures At transaction_body BodyEnds
    unfolding transaction_body
    transaction_body_ensures =
        Ensures-bind Chosen _ _
          (Ensures-query _ _ _ (λ t c h. is_chosen _ t c refl h) (λ t c h. tt)) body_ensures
          (λ e t c h. tt)

    pub blacklist_ip_address_ensures :
        Ensures At (blacklist_ip_address net uuid ip iss sub reason) Blacklisting
    unfolding blacklist_ip_address transaction_body
    blacklist_ip_address_ensures =
        Ensures-transaction restore At (λ _. BodyEnds) Blacklisting (λ o new a b c h k. k)
          (λ o new e b c h k. ap (λ u. u.entries) h.0) (λ o new a b c h k. ap (λ u. u.entries) h.0)
          (λ o c h. ap (λ u. u.entries) h.0) _
          (λ o c h. record { at = λ s k. transaction_body_ensures.at s (k.0 ∙ h.0, k.1 ∙ h.1) })
