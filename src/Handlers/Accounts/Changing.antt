-- ===== src/Handlers/Accounts/Changing.antt =====
-- The outcomes of DELETEServiceAccount, PATCHServiceAccountPause and PATCHServiceAccountUnpause.
use dashboard_site.Common.{
  ℕ, ◌≤◌, ◌≡◌, ◌∙◌, refl, sym, ap, subst, String, Bool, true, false, ◌&&◌, ◌||◌, ◌==◌, Option, none,
  some, arith, ltb, Bool-cases, inl, inr, find_where, count_where, count_where_mono, update_where,
  update_where-no_rows,
}
use dashboard_site.Models.Principal.{User, ServiceAccount, user}
use dashboard_site.Storage.Sql.{Result, ok, err, failed, Session}
use dashboard_site.Storage.Sql.Ensures.{
  Ensures, Ensures-exec, Ensures-bind, Ensures-pure, Ensures-raise,
}
use dashboard_site.Storage.Accounts.{Accounts, is_account, get_service_account_by_id}
use dashboard_site.Storage.Accounts.Writing.{
  is_kept, is_live, update_accounts, just_one, Change, change_account, paused, unpaused, deleted,
  pause_service_account, unpause_service_account,
}
use dashboard_site.Storage.Accounts.Writing
use dashboard_site.Storage.Accounts.Loading.{Loaded, load_ensures}
use dashboard_site.Handlers.Http.{
  Reply, success, error, require, ◌>>◌, Handler, resume, attempt, checked,
}
use dashboard_site.Handlers.Http.Replies.{Replies, Replies-finish, Replies-attempt}
use dashboard_site.Handlers.Accounts.{
  is_creator, reply_with, may_change, manage, delete_service_account, patch_service_account_pause,
  patch_service_account_unpause,
}

module _ (f : Change) (iss sub : String) (old : Accounts) (now : ℕ) where
  -- `old` with the change made to the account
  abbrev pub Changed : Accounts
  Changed = record old {
    rows = update_where (λ a. is_account iss sub a && is_kept a.deleted_at) (f now) old.rows;
  }

  abbrev pub At : Accounts → ℕ → Type 0
  At t c = (t ≡ old) × (c ≡ now)

  module _ (unique : count_where (is_account iss sub) old.rows ≤ 1) where
    abbrev Counted : Result ℕ → Accounts → ℕ → Type 0
    Counted (ok n) t c = (n ≡ count_where (is_live iss sub) old.rows) × (t ≡ Changed)
    Counted (err e) t c = t ≡ old

    abbrev pub Ends : Result Unit → Accounts → ℕ → Type 0
    Ends (ok _) t c = t ≡ Changed
    Ends (err e) t c = t ≡ old

    counts :
        (t : Accounts) (c : ℕ)
        → At t c
        → Counted (update_accounts (f c) iss sub t c).0 (update_accounts (f c) iss sub t c).1 c
    unfolding update_accounts
    counts t c (e, k) = (
      ap (λ (u : Accounts). count_where (is_live iss sub) u.rows) e,
      λ i. record (e i) { rows = update_where (is_live iss sub) (f (k i)) (e i).rows },
    )

    few : count_where (is_live iss sub) old.rows ≤ 1
    few =
        let fewer =
          count_where_mono (is_live iss sub) (is_account iss sub) (λ a h. ground arith) old.rows in
        omega (arith, fewer, unique)

    untouched :
        (n : ℕ) → ltb n 1 ≡ true → n ≡ count_where (is_live iss sub) old.rows → Changed ≡ old
    untouched n e h =
        ap (λ rows. record old { rows = rows })
          (update_where-no_rows (is_live iss sub) (f now) old.rows (ground arith))

    too_many : (n : ℕ) → ltb 1 n ≡ true → n ≡ count_where (is_live iss sub) old.rows → ⊥
    too_many n e h = let one = few in ground arith

    judged : (n : ℕ) → Ensures (Counted (ok n)) (just_one n) Ends
    judged n = elim (Bool-cases (ltb n 1)) [
      | inl e ↦ rw e (Ensures-raise failed (λ t c h. h.1 ∙ untouched n e h.0))
      | inr e ↦ elim (Bool-cases (ltb 1 n)) [
        | inl k ↦ rw (e, k) (Ensures-raise failed (λ t c h. absurd (too_many n k h.0)))
        | inr k ↦ rw (e, k) (Ensures-pure tt (λ t c h. h.1))
      ]
    ]

    pub change_ensures : Ensures At (change_account f iss sub) Ends
    unfolding change_account
    change_ensures =
        Ensures-bind Counted _ _ (Ensures-exec _ _ _ counts (λ t c h. h.0)) judged (λ e t c h. h)

-- both columns of the creator are those of the user
abbrev pub made_by : User → ServiceAccount → Bool
made_by u row = row.created_by_iss == u.iss && row.created_by_sub == u.sub

module _ (u : User) (f : Change) (iss sub : String) (old : Accounts) (now : ℕ) where
  abbrev Found : ServiceAccount → Type 0
  Found row = find_where (is_account iss sub) old.rows ≡ some row

  -- the branches of the three handlers: the reply, and the tables afterwards
  pub data Managed : Reply Unit → Accounts → Type 0 where
    done :
        (row : ServiceAccount)
        → Found row
        → made_by u row ≡ true
        → row.deleted_at ≡ none
        → Managed (success tt) (Changed f iss sub old now)
    unnamed : (iss == "" || sub == "") ≡ true → Managed (error 400) old
    not_found : (iss == "" || sub == "") ≡ false → Managed (error 404) old
    foreign : (row : ServiceAccount) → Found row → made_by u row ≡ false → Managed (error 403) old
    already :
        (row : ServiceAccount) (at : ℕ)
        → Found row
        → made_by u row ≡ true
        → row.deleted_at ≡ some at
        → Managed (error 410) old
    failing :
        (row : ServiceAccount)
        → Found row
        → made_by u row ≡ true
        → row.deleted_at ≡ none
        → Managed (error 500) old

  module _ (unique : count_where (is_account iss sub) old.rows ≤ 1) where
    abbrev Named : Type 0
    Named = (iss == "" || sub == "") ≡ false

    -- the account has been read
    abbrev Held : Result ServiceAccount → Accounts → ℕ → Type 0
    Held = Loaded (At f iss sub old now) iss sub

    at_old : (r : Reply Unit) (t : Accounts) → Managed r old → t ≡ old → Managed r t
    at_old r t m e = subst (Managed r) (sym e) m

    -- what follows the lookup, by what the two tests find
    follow : Bool → Option ℕ → Handler Accounts Unit
    follow b o =
        checked (require b 403 >> require (is_kept o) 410)
          λ _. attempt (change_account f iss sub) (λ _. 500) reply_with

    follows :
        (row : ServiceAccount) (b : Bool) (o : Option ℕ)
        → Found row
        → is_creator u row ≡ b
        → row.deleted_at ≡ o
        → Replies (At f iss sub old now) (follow b o) (λ r t c. Managed r t)
    unfolding follow
    follows row false o found e k = record { at = λ s h. at_old _ _ (foreign row found e) h.0 }
    follows row true (some at) found e k = record {
      at = λ s h. at_old _ _ (already row at found e k) h.0;
    }
    follows row true none found e k =
        Replies-attempt (Ends f iss sub old now unique) (change_account f iss sub) _ _
          (change_ensures f iss sub old now unique)
          (λ x t c h. at_old _ t (failing row found e k) h)
          (λ _.
            Replies-finish _ (λ t c h. subst (Managed (success tt)) (sym h) (done row found e k)))

    loaded :
        Named
        → (r : Result ServiceAccount)
        → Replies
            (Held r)
            (resume r (λ _. 404) (λ a. follow (is_creator u a) a.deleted_at))
            (λ r t c. Managed r t)
    loaded named (ok a) = record {
      at = λ s h.
          let row = h.0.row in
          (subst
              (λ (b : ServiceAccount).
                Replies (At f iss sub old now) (follow (is_creator u b) b.deleted_at)
                  (λ r t c. Managed r t))
              (sym h.0.filled)
              (follows row (is_creator u row) row.deleted_at
                (subst (λ (t : Accounts). find_where (is_account iss sub) t.rows ≡ some row) h.1.0
                  h.0.found)
                refl refl)).at
            s h.1;
    }
    loaded named (err e) = record { at = λ s h. at_old _ _ (not_found named) h.0 }

    pub managed :
        Replies (At f iss sub old now) (manage (change_account f) u iss sub) (λ r t c. Managed r t)
    unfolding manage may_change follow attempt
    managed = elim (Bool-cases (iss == "" || sub == "")) [
      | inl e ↦ rw e (record { at = λ s h. at_old _ _ (unnamed e) h.0 })
      | inr e ↦ rw e (record {
        at = λ s h.
            (loaded e (get_service_account_by_id iss sub s).0).at
              (get_service_account_by_id iss sub s).1
              ((load_ensures (At f iss sub old now) iss sub).at s h);
      })
    ]

-- All branches of DELETEServiceAccount, PATCHServiceAccountPause and PATCHServiceAccountUnpause of a user, whichever
-- statements fail, where the issuer and the subject name one account at most. The request succeeds only if the user
-- created the account and it is not deleted, and then the one account is changed and nothing else: DELETE marks it as deleted now and as disabled, a
-- pause disables it, and an unpause enables it. A refusal leaves the
-- tables as they were: 400 for a name that is missing, 404 where nothing is found, 403 for an account of someone else,
-- 410 for a deleted one, 500 only for an account that could have been changed.
pub managed_outcome :
    (u : User) (iss sub : String) (s : Session Accounts)
    → count_where (is_account iss sub) s.tables.rows ≤ 1
    → Managed u
        (λ now a. record a { deleted_at = some now; is_disabled = true })
        iss
        sub
        s.tables
        s.clock
        (delete_service_account u iss sub s).0
        (delete_service_account u iss sub s).1.tables
      × Managed u
          (λ now a. record a { is_disabled = true })
          iss
          sub
          s.tables
          s.clock
          (patch_service_account_pause (some (user u)) iss sub s).0
          (patch_service_account_pause (some (user u)) iss sub s).1.tables
      × Managed u
          (λ now a. record a { is_disabled = false })
          iss
          sub
          s.tables
          s.clock
          (patch_service_account_unpause (some (user u)) iss sub s).0
          (patch_service_account_unpause (some (user u)) iss sub s).1.tables
unfolding delete_service_account patch_service_account_pause patch_service_account_unpause
    pause_service_account unpause_service_account Writing.delete_service_account
managed_outcome u iss sub s unique = (
  (managed u deleted iss sub s.tables s.clock unique).at s (refl, refl),
  (managed u paused iss sub s.tables s.clock unique).at s (refl, refl),
  (managed u unpaused iss sub s.tables s.clock unique).at s (refl, refl),
)
