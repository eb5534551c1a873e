-- ===== src/Storage/Whitelist/Operations.antt =====
-- The invariant of the tables through each operation of the whitelist, at whatever statement it fails.
use dashboard_site.Common.{
  ℕ, refl, String, Bool, true, false, Option, none, some, List, [], ◌∷◌, arith, eqb, if◌then◌else◌,
}
use dashboard_site.Models.Address.{Net, InetArg, inet_null}
use dashboard_site.Models.Whitelist.{WhitelistEntry, EventType}
use dashboard_site.Storage.Sql.{Sql, transaction}
use dashboard_site.Storage.Sql.Keeps.{
  Keeps, Keeps-exec, Keeps-bind, Keeps-pure, Keeps-raise, Keeps-query, Keeps-transaction,
}
use dashboard_site.Storage.Whitelist.Schema.{Tables, restore, has_id}
use dashboard_site.Storage.Whitelist.Read.{get_whitelist_entry_by_id, get_whitelist_events_by_entry}
use dashboard_site.Storage.Whitelist.Write.{
  set_removed, set_added, set_blacklisted, create_whitelist_event, remove_ip_from_whitelist,
  blacklist_ip, blacklist_ip_address, some_ids, mark_ips_as_added, expire_all, expire_old_ips,
  NewEntry, refuse_duplicate, add_ip_to_whitelist,
}
use dashboard_site.Storage.Whitelist.Soundness.{
  IsSound, update_entries-IsSound, insert_event-IsSound, record_events-IsSound,
  insert_entry-IsSound, IsSound-rebase, IsSound-restore,
}

transaction-IsSound :
    {A : Type 0} (low : ℕ) (body : Sql Tables A)
    → ((old : Tables) → Keeps (IsSound old.next_id) body)
    → Keeps (IsSound low) (transaction restore body)
transaction-IsSound low =
    Keeps-transaction restore (λ old. IsSound old.next_id)
      (λ old h. IsSound-rebase low old.next_id old (omega arith) h) (IsSound-restore low)
      (λ old new h k. IsSound-rebase old.next_id low new (omega (arith, h.grown, k.grown)) k)

module _ (low : ℕ) where
  pub create_whitelist_event-IsSound :
      (n : ℕ) (iss sub : String) (type : EventType) (notes : String) (ip : InetArg)
      (agent : Option String)
      → Keeps (IsSound low) (create_whitelist_event n iss sub type notes ip agent)
  unfolding create_whitelist_event
  create_whitelist_event-IsSound n iss sub type notes ip agent =
      insert_event-IsSound low n iss sub type (some notes) ip agent

  if-IsSound :
      {A : Type 0} (b : Bool) {m n : Sql Tables A}
      → Keeps (IsSound low) m
      → Keeps (IsSound low) n
      → Keeps (IsSound low) (if b then m else n)
  if-IsSound true km kn = km
  if-IsSound false km kn = kn

  pub remove_ip_from_whitelist-IsSound :
      (n : ℕ) (iss sub : String) (ip : InetArg) (agent : Option String)
      → Keeps (IsSound low) (remove_ip_from_whitelist n iss sub ip agent)
  unfolding remove_ip_from_whitelist
  remove_ip_from_whitelist-IsSound n iss sub ip agent =
      Keeps-bind _ _ (update_entries-IsSound low (has_id n) set_removed (λ now e. refl))
        (λ affected.
          if-IsSound (eqb affected 0) (Keeps-raise _)
            (create_whitelist_event-IsSound n iss sub EventType.removed "" ip agent))

  blacklist_ip-IsSound :
      (n : ℕ) (iss sub reason : String) → Keeps (IsSound low) (blacklist_ip n iss sub reason)
  unfolding blacklist_ip
  blacklist_ip-IsSound n iss sub reason =
      Keeps-bind _ _
        (update_entries-IsSound low (has_id n) (set_blacklisted iss sub reason) (λ now e. refl))
        (λ affected. if-IsSound (eqb affected 0) (Keeps-raise _) (
          create_whitelist_event-IsSound n iss sub EventType.blacklisted_by_admin reason inet_null
            none))

  some_ids-IsSound : (ns : List ℕ) → Keeps (IsSound low) (some_ids ns)
  unfolding some_ids
  some_ids-IsSound [] = Keeps-raise _
  some_ids-IsSound (n ∷ ns) = Keeps-pure tt

  pub mark_ips_as_added-IsSound :
      (ns : List ℕ) (iss sub : String) → Keeps (IsSound low) (mark_ips_as_added ns iss sub)
  unfolding mark_ips_as_added
  mark_ips_as_added-IsSound ns iss sub =
      Keeps-bind _ _ (update_entries-IsSound low _ set_added (λ now e. refl))
        (λ _. record_events-IsSound low iss sub EventType.added (some "") ns)

  expire_all-IsSound :
      (ns : List ℕ) (iss sub : String) → Keeps (IsSound low) (expire_all ns iss sub)
  unfolding expire_all
  expire_all-IsSound [] iss sub = Keeps-pure 0
  expire_all-IsSound (n ∷ ns) iss sub =
      Keeps-bind _ _ (update_entries-IsSound low _ set_removed (λ now e. refl)) (λ _.
        Keeps-bind _ _ (record_events-IsSound low iss sub EventType.expired (some "") (n ∷ ns))
          (λ _. Keeps-pure _))

  pub expire_old_ips-IsSound : (iss sub : String) → Keeps (IsSound low) (expire_old_ips iss sub)
  unfolding expire_old_ips
  expire_old_ips-IsSound iss sub =
      Keeps-bind _ _ (Keeps-query _) (λ found. expire_all-IsSound found iss sub)

module _ (net : Net) (low : ℕ) where
  pub blacklist_ip_address-IsSound :
      (uuid ip iss sub reason : String)
      → Keeps (IsSound low) (blacklist_ip_address net uuid ip iss sub reason)
  unfolding blacklist_ip_address
  blacklist_ip_address-IsSound uuid ip iss sub reason = transaction-IsSound low _ (λ old.
      Keeps-bind _ _ (Keeps-query _) (λ found.
        Keeps-bind _ _ (some_ids-IsSound old.next_id found) (λ _.
          Keeps-bind _ _
            (update_entries-IsSound old.next_id _ (set_blacklisted iss sub reason) (λ now e. refl))
            (λ _.
              Keeps-bind _ _
                (record_events-IsSound old.next_id iss sub EventType.blacklisted_by_admin
                  (some reason) found)
                (λ _. Keeps-pure _)))))

  refuse_duplicate-IsSound : (e : Option WhitelistEntry) → Keeps (IsSound low) (refuse_duplicate e)
  unfolding refuse_duplicate
  refuse_duplicate-IsSound none = Keeps-pure tt
  refuse_duplicate-IsSound (some e) = Keeps-raise _

  pub get_whitelist_entry_by_id-IsSound :
      (n : ℕ) → Keeps (IsSound low) (get_whitelist_entry_by_id net n)
  unfolding get_whitelist_entry_by_id get_whitelist_events_by_entry
  get_whitelist_entry_by_id-IsSound n =
      Keeps-bind _ _ (Keeps-query _) (λ _. Keeps-bind _ _ (Keeps-query _) (λ _. Keeps-pure _))

module _ (net : Net) (low : ℕ) where
  pub add_ip_to_whitelist-IsSound :
      (a : NewEntry) (ip : InetArg) (agent : Option String)
      → Keeps (IsSound low) (add_ip_to_whitelist net a ip agent)
  unfolding add_ip_to_whitelist
  add_ip_to_whitelist-IsSound a ip agent =
      Keeps-bind _ _
        (transaction-IsSound low _ (λ old. Keeps-bind _ _ (Keeps-query _) (λ _.
          Keeps-bind _ _ (Keeps-query _) (λ _. Keeps-bind _ _ (Keeps-query _) (λ existing.
            Keeps-bind _ _ (refuse_duplicate-IsSound net old.next_id existing) (λ _.
              Keeps-bind _ _
                (Keeps-exec _ (insert_entry-IsSound old.next_id a (net.inet_in a.ip_address)))
                (λ n.
                  Keeps-bind _ _
                    (insert_event-IsSound old.next_id n a.owner_iss a.owner_sub EventType.requested
                      none ip agent)
                    (λ _. Keeps-pure n))))))))
        (λ n. get_whitelist_entry_by_id-IsSound net low n)
