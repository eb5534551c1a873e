-- ===== src/Storage/Users/Upserting.antt =====
-- What the transaction of UpsertUser stores.
use dashboard_site.Common.{
  ℕ, ◌≡◌, ◌∙◌, inl, inr, refl, sym, ap, some-cancel, String, Option, none, some, List, [], ◌∷◌,
  ◌++◌, map, Bool-cases, any_where,
}
use mathlib.Core.List.{append-nil, append_assoc}
use dashboard_site.Storage.Sql.{Result, ok, err, transaction}
use dashboard_site.Storage.Sql.Ensures.{
  Ensures, Ensures-exec, Ensures-bind, Ensures-pure, Ensures-transaction,
}
use dashboard_site.Storage.Users.{
  Profile, GroupRow, Users, is_user, upsert_row, new_group, is_group, add_groups, or_refused,
  insert_groups, others, store_groups, restore, upsert_body,
}

added : (rows gs end : List GroupRow) → add_groups rows gs ≡ some end → end ≡ rows ++ gs
unfolding add_groups
added rows [] end e = sym (some-cancel _ _ e) ∙ sym (append-nil rows)
added rows (g ∷ gs) end e = elim (Bool-cases (any_where (is_group g) rows)) [
  | inl k ↦ absurd (cc (rw k at e))
  | inr k ↦ added (rows ++ g ∷ []) gs end (rw k at e) ∙ append_assoc rows (g ∷ []) gs
]

module _ (p : Profile) (names : List String) (old : Users) (now : ℕ) where
  abbrev pub Start : Users → ℕ → Type 0
  Start t c = (t ≡ old) × (c ≡ now)

  -- the user is stored with just these groups, and the rest is as it was
  abbrev pub stored : Users
  stored = record {
    rows = upsert_row p now old.rows;
    groups = others p.iss p.sub old.groups ++ map (new_group p.iss p.sub) names;
  }

  abbrev cleared : Users
  cleared = record { rows = upsert_row p now old.rows; groups = others p.iss p.sub old.groups }

  abbrev Step : Users → Result Unit → Users → ℕ → Type 0
  Step u (ok _) t c = (t ≡ u) × (c ≡ now)
  Step u (err e) t c = Unit

  abbrev Ended : Result Unit → Users → ℕ → Type 0
  Ended (ok _) t c = t ≡ stored
  Ended (err e) t c = Unit

  refused_cases :
      (o : Option (List GroupRow)) (ns : List String) (t : Users) (c : ℕ)
      → names ≡ ns
      → add_groups t.groups (map (new_group p.iss p.sub) ns) ≡ o
      → t ≡ cleared
      → Ended (or_refused t o).0 (or_refused t o).1 c
  refused_cases none ns t c n e k = tt
  refused_cases (some end) ns t c n e k =
      ap (λ l. record t { groups = l }) (added t.groups _ end e)
      ∙ (λ i. record (k i) { groups = (k i).groups ++ map (new_group p.iss p.sub) (sym n i) })

  insert_cases :
      (ns : List String)
      → names ≡ ns
      → (t : Users) (c : ℕ) → (t ≡ cleared) × (c ≡ now)
      → Ended (insert_groups p.iss p.sub ns t c).0 (insert_groups p.iss p.sub ns t c).1 c
  unfolding insert_groups
  insert_cases ns n t c k = elim (Bool-cases (any_where (is_user p.iss p.sub) t.rows)) [
    | inl e ↦ rw e (refused_cases _ ns t c n refl k.0)
    | inr e ↦ rw e tt
  ]

  groups_ensures :
      (ns : List String)
      → names ≡ ns
      → Ensures (λ t c. (t ≡ cleared) × (c ≡ now)) (store_groups p.iss p.sub ns) Ended
  groups_ensures [] n = Ensures-pure tt (λ t c h. h.0 ∙ (λ i. record cleared {
    groups =
        (sym (append-nil cleared.groups)
            ∙ ap (λ l. cleared.groups ++ map (new_group p.iss p.sub) l) (sym n))
          i;
  }))
  groups_ensures (m ∷ ms) n = Ensures-exec _ _ _ (insert_cases (m ∷ ms) n) (λ t c h. tt)

  body_ensures : Ensures Start (upsert_body p names) Ended
  body_ensures =
      Ensures-bind (Step (record old { rows = upsert_row p now old.rows })) _ _
        (Ensures-exec _ _ _
          (λ t c h. (λ i. record (h.0 i) { rows = upsert_row p (h.1 i) (h.0 i).rows }, h.1))
          (λ t c h. tt))
        (λ u.
          Ensures-bind (Step cleared) _ _
            (Ensures-exec _ _ _
              (λ t c h. (λ i. record (h.0 i) { groups = others p.iss p.sub (h.0 i).groups }, h.1))
              (λ t c h. tt))
            (λ v. groups_ensures names refl) (λ e t c h. tt))
        (λ e t c h. tt)

  abbrev pub Committed : Result Unit → Users → ℕ → Type 0
  Committed (ok _) t c = t ≡ stored
  Committed (err e) t c = t ≡ old

  pub commit_ensures : Ensures Start (transaction restore (upsert_body p names)) Committed
  commit_ensures =
      Ensures-transaction restore Start (λ _ r t c. Ended r t c) Committed (λ o n u t c q r. r)
        (λ o n e t c q r. q.0) (λ o n u t c q r. q.0) (λ o c q. q.0) _
        (λ o t q. record { at = λ s h. body_ensures.at s (h.0 ∙ q.0, h.1 ∙ q.1) })
