-- ===== src/Storage/Users/LoggingIn.antt =====
-- The outcome of UpsertUser.
use dashboard_site.Common.{
  ℕ, ◌≡◌, ◌⊎◌, ◌∙◌, inl, inr, refl, sym, ap, subst, String, Bool, true, false, ◌&&◌, ◌==◌, Option,
  some, List, [], ◌∷◌, ◌++◌, map, arith, eq_iff, eq_refl, Bool-cases, any_where, find_where,
  find_where-any, find_where-append_one, find_where-some, find_where-update_here,
  find_where-update_other, select_where,
}
use dashboard_site.Storage.Sql.{Result, ok, err, Session}
use dashboard_site.Storage.Sql.Ensures.{Ensures, Ensures-query, Ensures-bind, Ensures-pure}
use dashboard_site.Storage.Whitelist.Read.{or_missing}
use dashboard_site.Storage.Users.{
  Order, occurs, Profile, UserEntry, GroupRow, Users, UserView, is_user, is_owner, groups_of,
  get_user_by_id, new_user, log_in, upsert_row, new_group, others, upsert_user,
}
use dashboard_site.Storage.Users.Upserting.{Start, stored, Committed, commit_ensures}

same_profile :
    (p : Profile) (u : UserEntry)
    → is_user p.iss p.sub u ≡ true
    → record p { iss = u.profile.iss; sub = u.profile.sub } ≡ p
same_profile p u e =
    let same_iss : u.profile.iss ≡ p.iss = (eq_iff u.profile.iss p.iss).0 (ground arith) in
    let same_sub : u.profile.sub ≡ p.sub = (eq_iff u.profile.sub p.sub).0 (ground arith) in
    λ i. record p { iss = same_iss i; sub = same_sub i }

-- the row of the user after the upsert
upserted :
    (p : Profile) (now : ℕ) (rows : List UserEntry)
    → (u : UserEntry) × (find_where (is_user p.iss p.sub) (upsert_row p now rows) ≡ some u)
      × (u.profile ≡ p)
      × (u.last_logged_in ≡ now)
unfolding upsert_row
upserted p now rows = elim (Bool-cases (any_where (is_user p.iss p.sub) rows)) [
  | inl e ↦
      let (u, found) = find_where-some (is_user p.iss p.sub) rows e in
      let key = (find_where-any (is_user p.iss p.sub) rows u found).0 in
      (
        log_in p now u,
        rw e (find_where-update_here (is_user p.iss p.sub) (log_in p now) (λ a. refl) rows u found),
        same_profile p u key,
        refl,
      )
  | inr e ↦ (
    new_user p now,
    rw e (
        find_where-append_one (is_user p.iss p.sub) rows (new_user p now) e
          (rw (eq_refl p.iss, eq_refl p.sub) refl)),
    refl,
    refl,
  )
]

module _ (iss sub : String) where
  select-none :
      (gs hs : List GroupRow)
      → select_where (is_owner iss sub) (others iss sub gs ++ hs)
        ≡ select_where (is_owner iss sub) hs
  unfolding select_where
  select-none [] hs = refl
  select-none (g ∷ gs) hs = elim (Bool-cases (is_owner iss sub g)) [
    | inl e ↦ rw e (select-none gs hs)
    | inr e ↦ rw e (rw e (select-none gs hs))
  ]

  select-own :
      (names : List String)
      → map (λ g. g.group_name) (select_where (is_owner iss sub) (map (new_group iss sub) names))
        ≡ names
  unfolding select_where
  select-own [] = refl
  select-own (n ∷ ns) = rw (eq_refl iss, eq_refl sub) (ap (λ l. n ∷ l) (select-own ns))

module _ (o : Order) (p : Profile) (names : List String) (old : Users) (now : ℕ) where
  abbrev pub New : Users
  New = stored p names old now

  own_groups : groups_of New p.iss p.sub ≡ names
  own_groups =
      ap (map (λ g. g.group_name))
        (select-none p.iss p.sub old.groups (map (new_group p.iss p.sub) names))
      ∙ select-own p.iss p.sub names

  -- the user as given, logged in now
  abbrev IsIt : UserView → Type 0
  IsIt v =
      (v.entry.profile ≡ p)
      × (v.entry.last_logged_in ≡ now)
      × ((g : String) → occurs g v.groups ≡ occurs g names)

  abbrev Row : Result UserEntry → Users → ℕ → Type 0
  Row (ok u) t c = (u.profile ≡ p) × (u.last_logged_in ≡ now) × (t ≡ New)
  Row (err e) t c = t ≡ New

  abbrev Groups : UserEntry → Result (List String) → Users → ℕ → Type 0
  Groups u (ok l) t c =
      (u.profile ≡ p)
      × (u.last_logged_in ≡ now)
      × (t ≡ New)
      × ((g : String) → occurs g l ≡ occurs g names)
  Groups u (err e) t c = t ≡ New

  abbrev pub Upserted : Result UserView → Users → ℕ → Type 0
  Upserted (ok v) t c = IsIt v × (t ≡ New)
  Upserted (err e) t c = (t ≡ old) ⊎ (t ≡ New)

  read_row :
      (t : Users) (c : ℕ) → t ≡ New → Row (or_missing (find_where (is_user p.iss p.sub) t.rows)) t c
  read_row t c h =
      let (u, found, same, at) = upserted p now old.rows in
      subst (λ (o : Option UserEntry). Row (or_missing o) t c)
        (sym (ap (λ (x : Users). find_where (is_user p.iss p.sub) x.rows) h ∙ found)) (same, at, h)

  loads : Ensures (λ t c. t ≡ New) (get_user_by_id o p.iss p.sub) Upserted
  unfolding get_user_by_id
  loads =
      Ensures-bind Row _ _ (Ensures-query _ _ _ read_row (λ t c h. h))
        (λ u.
          Ensures-bind (Groups u) _ _
            (Ensures-query _ _ _
              (λ t c h. (
                h.0,
                h.1,
                h.2,
                λ g.
                    o.same g _
                    ∙ ap (occurs g) ((λ i. groups_of (h.2 i) (h.0 i).iss (h.0 i).sub) ∙ own_groups),
              ))
              (λ t c h. h.2))
            (λ l. Ensures-pure _ (λ t c h. ((h.0, h.1, h.3), h.2))) (λ e t c h. inr h))
        (λ e t c h. inr h)

  upserts : Ensures (Start p names old now) (upsert_user o p names) Upserted
  unfolding upsert_user
  upserts =
      Ensures-bind (Committed p names old now) _ _ (commit_ensures p names old now) (λ _. loads)
        (λ e t c h. inl h)

find_where-append_other :
    (q : UserEntry → Bool) (xs : List UserEntry) (y : UserEntry)
    → q y ≡ false
    → find_where q (xs ++ y ∷ []) ≡ find_where q xs
unfolding find_where
find_where-append_other q [] y h = rw h refl
find_where-append_other q (x ∷ xs) y h = rw (find_where-append_other q xs y h) refl

-- another user, as before
abbrev pub Untouched : String → String → Users → Users → Type 0
Untouched iss sub old t =
    (find_where (is_user iss sub) t.rows ≡ find_where (is_user iss sub) old.rows)
    × (groups_of t iss sub ≡ groups_of old iss sub)

module _ (o : Order) (p : Profile) (iss sub : String)
    (apart : (p.iss == iss && p.sub == sub) ≡ false) where
  other_key : (u : UserEntry) → is_user p.iss p.sub u ≡ true → is_user iss sub u ≡ false
  other_key u e =
      let same_iss : u.profile.iss ≡ p.iss = (eq_iff u.profile.iss p.iss).0 (ground arith) in
      let same_sub : u.profile.sub ≡ p.sub = (eq_iff u.profile.sub p.sub).0 (ground arith) in
      (λ i. same_iss i == iss && same_sub i == sub) ∙ apart

  other_row :
      (now : ℕ) (rows : List UserEntry)
      → find_where (is_user iss sub) (upsert_row p now rows) ≡ find_where (is_user iss sub) rows
  unfolding upsert_row
  other_row now rows = elim (Bool-cases (any_where (is_user p.iss p.sub) rows)) [
    | inl e ↦ rw e (
        find_where-update_other (is_user iss sub) (is_user p.iss p.sub) (log_in p now)
          (λ u k. (other_key u k, other_key u k)) rows)
    | inr e ↦ rw e (find_where-append_other (is_user iss sub) rows (new_user p now) apart)
  ]

  select-other :
      (gs hs : List GroupRow)
      → select_where (is_owner iss sub) hs ≡ []
      → select_where (is_owner iss sub) (others p.iss p.sub gs ++ hs)
        ≡ select_where (is_owner iss sub) gs
  unfolding select_where
  select-other [] hs k = k
  select-other (g ∷ gs) hs k = elim (Bool-cases (is_owner p.iss p.sub g)) [
    | inl e ↦
        let same_iss : g.owner_iss ≡ p.iss = (eq_iff g.owner_iss p.iss).0 (ground arith) in
        let same_sub : g.owner_sub ≡ p.sub = (eq_iff g.owner_sub p.sub).0 (ground arith) in
        let not_it : is_owner iss sub g ≡ false =
          (λ i. same_iss i == iss && same_sub i == sub) ∙ apart in
        rw (e, not_it) (select-other gs hs k)
    | inr e ↦ rw (e, select-other gs hs k) refl
  ]

  select-new :
      (names : List String)
      → select_where (is_owner iss sub) (map (new_group p.iss p.sub) names) ≡ []
  unfolding select_where
  select-new [] = refl
  select-new (n ∷ ns) = rw apart (select-new ns)

  untouched :
      (names : List String) (old : Users) (now : ℕ) → Untouched iss sub old (New o p names old now)
  untouched names old now = (
    other_row now old.rows,
    ap (map (λ g. g.group_name))
        (select-other old.groups (map (new_group p.iss p.sub) names) (select-new names)),
  )

  kept :
      (names : List String) (old : Users) (now : ℕ) (r : Result UserView) (t : Users) (c : ℕ)
      → Upserted o p names old now r t c
      → Untouched iss sub old t
  kept names old now (ok v) t c h =
      subst (Untouched iss sub old) (sym h.1) (untouched names old now)
  kept names old now (err e) t c (inl h) = subst (Untouched iss sub old) (sym h) (refl, refl)
  kept names old now (err e) t c (inr h) =
      subst (Untouched iss sub old) (sym h) (untouched names old now)

-- The outcome of UpsertUser, whichever statements fail. If it succeeds, the user that it returns has the profile that
-- was given, is logged in now, and has exactly the groups that were given, each as often, in whatever order the
-- database returns them, and none of the old ones. If it
-- fails, the tables are as before, or all of the user is stored. And whatever it does, no other user's row or groups
-- change.
pub upsert_outcome :
    (o : Order) (p : Profile) (names : List String) (s : Session Users) (iss sub : String)
    → (p.iss == iss && p.sub == sub) ≡ false
    → Upserted o p names s.tables s.clock
        (upsert_user o p names s).0
        (upsert_user o p names s).1.tables
        (upsert_user o p names s).1.clock
      × Untouched iss sub s.tables (upsert_user o p names s).1.tables
upsert_outcome o p names s iss sub apart =
    let done = (upserts o p names s.tables s.clock).at s (refl, refl) in
    (done, kept o p iss sub apart names s.tables s.clock _ _ _ done)
