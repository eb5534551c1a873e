-- ===== src/Storage/Whitelist/Adding/Body.antt =====
-- The steps inside the transaction of AddIPToWhitelist.
use dashboard_site.Common.{
  ℕ, ◌≡◌, ◌≢◌, inl, inr, ◌∙◌, refl, ap, subst, sym, String, false, not, ◌&&◌, ◌==◌, Option, none,
  some, [], ◌∷◌, ◌++◌, any_where, count_where, find_where, Bool-cases,
}
use mathlib.Core.Option.{some-injective}
use dashboard_site.Models.Address.{Net, InetArg, is_refused}
use dashboard_site.Models.Whitelist.{WhitelistEntry, EventType}
use dashboard_site.Storage.Sql.{
  Result, ok, err, duplicate_ip, Sql, StorageError, pure, query, exec, ◌>>=◌, ◌>>◌,
}
use dashboard_site.Storage.Sql.Ensures.{
  Ensures, Ensures-pure, Ensures-raise, Ensures-query, Ensures-exec, Ensures-bind,
}
use dashboard_site.Storage.Whitelist.Schema.{Tables, has_id, constraints, insert_event}
use dashboard_site.Storage.Whitelist.Read.{with_inet, active_at, user_active_at, duplicates}
use dashboard_site.Storage.Whitelist.Write.{
  NewEntry, requested_entry, insert_entry, refuse_duplicate,
}
use dashboard_site.Storage.Whitelist.Adding.{
  has_duplicate, Before, BodyEnds, Found, Unique, Inserted, find_duplicate,
}

module _ (net : Net) (a : NewEntry) (ip : InetArg) (agent : Option String) (old : Tables)
    (now : ℕ) where
  refuse_ensures :
      (o : Option WhitelistEntry)
      → Ensures
          ((Found net a ip agent old now) (ok o))
          (refuse_duplicate o)
          (Unique net a ip agent old now)
  unfolding refuse_duplicate
  refuse_ensures none = Ensures-pure tt (λ t c h. h)
  refuse_ensures (some e) = Ensures-raise duplicate_ip (λ t c h. ((λ _. h.0), h.1))

  insert_stored :
      (o : Option String)
      → net.inet_in a.ip_address ≡ o
      → (t : Tables) (c : ℕ) → (Unique net a ip agent old now) (ok tt) t c
      → (Inserted net a ip agent old now) (insert_entry a o t c).0 (insert_entry a o t c).1 c
  unfolding insert_entry
  insert_stored none e t c h = ((λ x. cc), h.4)
  insert_stored (some x) e t c h =
      elim (Bool-cases (constraints (t.entries ++ requested_entry a x t.next_id c ∷ []))) [
        | inl v ↦ rw v (
          ap (λ u. u.next_id) h.3,
          (
            x,
            e,
            subst (λ y. (has_duplicate net a ip agent old now) y ≡ false)
                (some-injective _ _ (sym h.1 ∙ e)) h.2,
            rw (h.3, h.4),
          ),
          ap (λ u. u.events) h.3,
          ap (λ u. u.next_event_id) h.3,
          h.4,
        )
        | inr v ↦ rw v ((λ x. cc), h.4)
      ]

  insert_ensures :
      Ensures
        ((Unique net a ip agent old now) (ok tt))
        (exec (insert_entry a (net.inet_in a.ip_address)))
        (Inserted net a ip agent old now)
  insert_ensures =
      Ensures-exec _ _ _ (insert_stored (net.inet_in a.ip_address) refl) (λ t c h. ((λ x. cc), h.4))

  abbrev EventDone : ℕ → Result Unit → Tables → ℕ → Type 0
  EventDone n (ok _) t c = (BodyEnds net a ip agent old now) (ok n) t c
  EventDone n (err e) t c = (e ≢ duplicate_ip) × (c ≡ now)

  event_stored :
      (n : ℕ) (t : Tables) (c : ℕ)
      → (Inserted net a ip agent old now) (ok n) t c
      → let done = insert_event n a.owner_iss a.owner_sub EventType.requested none ip agent t c in
        EventDone n done.0 done.1 c
  unfolding insert_event
  event_stored n t c (same_id, (x, stored, unique, entry), events, event_id, same_clock) =
      elim (Bool-cases (is_refused ip)) [
        | inl k ↦ rw k ((λ x. cc), same_clock)
        | inr k ↦
            rw k
              (elim (Bool-cases (
                any_where (has_id n) t.entries
                && not (a.owner_iss == "")
                && not (a.owner_sub == ""))) [
                  | inl e ↦ rw e (
                    same_id,
                    record {
                      address = x;
                      stored = stored;
                      accepted = k;
                      unique = unique;
                      one_entry = entry;
                      one_event = rw (events, event_id, same_id, same_clock);
                    },
                    same_clock,
                  )
                  | inr e ↦ rw e ((λ x. cc), same_clock)
                ])
      ]

  body_ensures :
      (n : ℕ)
      → Ensures
          ((Inserted net a ip agent old now) (ok n))
          (do
            exec (insert_event n a.owner_iss a.owner_sub EventType.requested none ip agent)
            pure n)
          (BodyEnds net a ip agent old now)
  body_ensures n =
      Ensures-bind (EventDone n) _ _
        (Ensures-exec _ _ _ (event_stored n) (λ t c h. ((λ x. cc), h.4)))
        (λ _. Ensures-pure n (λ t c h. h)) (λ e t c h. ((λ x. absurd (h.0 x)), h.1))

  -- the two counts are read, and nothing depends on them
  abbrev Counted : Result ℕ → Tables → ℕ → Type 0
  Counted (ok n) t c = (Before net a ip agent old now) t c
  Counted (err e) t c = (e ≢ duplicate_ip) × (c ≡ now)

  unfoldable pub transaction_body : Sql Tables ℕ
  transaction_body = do
    query (λ t _. ok (count_where (user_active_at a.owner_iss a.owner_sub a.alias_uuid) t.entries))
    query (λ t _. ok (count_where (active_at a.alias_uuid) t.entries))
    existing ← query (λ t _.
        with_inet (net.inet_in a.ip_address)
          (λ x. find_where (duplicates a.owner_iss a.owner_sub a.alias_uuid x) t.entries))
    refuse_duplicate existing
    n ← exec (insert_entry a (net.inet_in a.ip_address))
    exec (insert_event n a.owner_iss a.owner_sub EventType.requested none ip agent)
    pure n

  abbrev not_duplicate :
      {A : Type 0} {B : Type 0} (e : StorageError)
      → (e ≢ duplicate_ip) × B
      → (e ≡ duplicate_ip → A) × B
  not_duplicate e h = ((λ x. absurd (h.0 x)), h.1)

  pub transaction_body_ensures :
      Ensures (Before net a ip agent old now) transaction_body (BodyEnds net a ip agent old now)
  unfolding transaction_body
  transaction_body_ensures =
      Ensures-bind Counted _ _ (Ensures-query _ _ _ (λ t c h. h) (λ t c h. ((λ x. cc), h.1)))
        (λ _.
          Ensures-bind Counted _ _ (Ensures-query _ _ _ (λ t c h. h) (λ t c h. ((λ x. cc), h.1)))
            (λ _.
              Ensures-bind (Found net a ip agent old now) _ _
                (Ensures-query _ _ _
                  (find_duplicate net a ip agent old now (net.inet_in a.ip_address) refl)
                  (λ t c h. ((λ x. cc), h.1)))
                (λ existing.
                  Ensures-bind (Unique net a ip agent old now) _ _ (refuse_ensures existing)
                    (λ _.
                      Ensures-bind (Inserted net a ip agent old now) _ _ insert_ensures body_ensures
                        (λ e t c h. not_duplicate e h))
                    (λ e t c h. h))
                (λ e t c h. not_duplicate e h))
            (λ e t c h. not_duplicate e h))
        (λ e t c h. not_duplicate e h)
