-- ===== src/Storage/Accounts/Lasting.antt =====
-- What becomes of one service account in internal/storage/service_account_queries.go, whichever statements fail.
use dashboard_site.Common.{
  ℕ, ◌≡◌, ◌⊎◌, inl, inr, ◌∙◌, refl, sym, ap, String, Bool, true, false, ◌&&◌, not, ◌==◌, Option,
  none, some, List, [], ◌∷◌, ltb, arith, All, All-concat, eqb, eq_iff, Bool-cases, any_where,
  any_where-append, any_where-update_grow, update_where, select_where-append_one, map,
}
use dashboard_site.Models.Principal.{ServiceAccount}
use dashboard_site.Storage.Sql.{Result, ok, err, failed}
use dashboard_site.Storage.Sql.Keeps.{
  Keeps, Keeps-pure, Keeps-raise, Keeps-if, Keeps-query, Keeps-exec, Keeps-bind, Keeps-transaction,
}
use dashboard_site.Storage.Sql.Ensures.{
  Ensures, Ensures-exec, Ensures-bind, Ensures-raise, Ensures-if,
}
use dashboard_site.Storage.Accounts.{Accounts, is_account, scopes_of, get_service_account_by_id}
use dashboard_site.Storage.Accounts.Writing.{
  restore, new_account, may_insert, insert_account, new_scope, is_scope, insert_scope,
  insert_scopes, insert_all, create_service_account, is_kept, is_live, update_accounts, just_one,
  Change, change_account,
}

-- an account `x` at a later time: as it was but for the two columns on its state; deleted, just as it was
pub record Follows (x y : ServiceAccount) : Type 0 where
  pub same : record y { is_disabled = x.is_disabled; deleted_at = x.deleted_at } ≡ x
  pub gone : (y ≡ x) ⊎ (x.deleted_at ≡ none)

module _ (x : ServiceAccount) where
  abbrev pub is_it : ServiceAccount → Bool
  is_it = is_account x.iss x.sub

  abbrev pub Later : ServiceAccount → Type 0
  Later a = (is_it a ≡ false) ⊎ Follows x a

  -- `x` is still there, alone under its key, with the scopes `scopes`
  pub record Lasts (scopes : List String) (t : Accounts) : Type 0 where
    pub there : any_where is_it t.rows ≡ true
    pub later : All Later t.rows
    pub scoped : scopes_of t x ≡ scopes

  module _ (p : ServiceAccount → Bool) (f : ServiceAccount → ServiceAccount)
      (live : (a : ServiceAccount) → p a ≡ true → a.deleted_at ≡ none)
      (rest : (a : ServiceAccount)
        → record (f a) { is_disabled = a.is_disabled; deleted_at = a.deleted_at } ≡ a) where
    same_iss : (a : ServiceAccount) → (f a).iss ≡ a.iss
    same_iss a = ap (λ b. b.iss) (rest a)

    same_sub : (a : ServiceAccount) → (f a).sub ≡ a.sub
    same_sub a = ap (λ b. b.sub) (rest a)

    same_it : (a : ServiceAccount) → is_it (f a) ≡ is_it a
    same_it a = rw (same_iss a, same_sub a) refl

    never_gone : (a : ServiceAccount) → p a ≡ true → Follows x a → x.deleted_at ≡ none
    never_gone a h k = elim k.gone [ inl e ↦ ap (λ b. b.deleted_at) (sym e) ∙ live a h | inr e ↦ e ]

    changed : (a : ServiceAccount) → p a ≡ true → Later a → Later (f a)
    changed a h (inl e) = inl (same_it a ∙ e)
    changed a h (inr k) = inr (record {
      same =
          ap
            (λ (b : ServiceAccount). record b {
              is_disabled = x.is_disabled;
              deleted_at = x.deleted_at;
            })
            (rest a)
          ∙ k.same;
      gone = inr (never_gone a h k);
    })

    pub later-update :
        (rows : List ServiceAccount) → All Later rows → All Later (update_where p f rows)
    unfolding update_where
    later-update [] h = tt
    later-update (a ∷ rows) h = elim (Bool-cases (p a)) [
      | inl e ↦ rw e (changed a e h.0, later-update rows h.1)
      | inr e ↦ rw e (h.0, later-update rows h.1)
    ]

    pub Lasts-update :
        (scopes : List String) (t : Accounts)
        → Lasts scopes t
        → Lasts scopes (record t { rows = update_where p f t.rows })
    Lasts-update scopes t h = record {
      there = any_where-update_grow is_it p f (λ a _ e. same_it a ∙ e) t.rows h.there;
      later = later-update t.rows h.later;
      scoped = h.scoped;
    }

abbrev pub Restful : Change → Type 0
Restful f =
    (now : ℕ) (a : ServiceAccount)
    → record (f now a) { is_disabled = a.is_disabled; deleted_at = a.deleted_at } ≡ a

pub live-kept :
    (iss sub : String) (a : ServiceAccount) → is_live iss sub a ≡ true → a.deleted_at ≡ none
live-kept iss sub a h = kept a.deleted_at (ground arith)
  where
    kept : (o : Option ℕ) → is_kept o ≡ true → o ≡ none
    kept none e = refl
    kept (some at) e = absurd (cc)

just_one-Keeps : (P : Accounts → Type 0) (n : ℕ) → Keeps P (just_one n)
just_one-Keeps P n =
    Keeps-if (ltb n 1) _ _ (Keeps-raise failed)
      (Keeps-if (ltb 1 n) _ _ (Keeps-raise failed) (Keeps-pure tt))

pub load-Keeps :
    (P : Accounts → Type 0) (iss sub : String) → Keeps P (get_service_account_by_id iss sub)
unfolding get_service_account_by_id
load-Keeps P iss sub =
    Keeps-bind _ _ (Keeps-query _) (λ a. Keeps-bind _ _ (Keeps-query _) (λ ss. Keeps-pure _))

other_key :
    (x : ServiceAccount) (iss sub : String) (rows : List ServiceAccount)
    → any_where (is_it x) rows ≡ true
    → any_where (is_account iss sub) rows ≡ false
    → (iss == x.iss && sub == x.sub) ≡ false
other_key x iss sub rows h k = elim (Bool-cases (iss == x.iss && sub == x.sub)) [
  | inl e ↦
      let same_iss : iss ≡ x.iss = (eq_iff iss x.iss).0 (ground arith) in
      let same_sub : sub ≡ x.sub = (eq_iff sub x.sub).0 (ground arith) in
      absurd (
        differ (
          sym h
          ∙ ap (λ i. any_where (is_account i x.sub) rows) (sym same_iss)
          ∙ ap (λ s. any_where (is_account iss s) rows) (sym same_sub)
          ∙ k))
  | inr e ↦ e
]
  where
    differ : true ≡ false → ⊥
    differ e = cc

module _ (x : ServiceAccount) (scopes : List String) where
  pub change-Lasts :
      (f : Change)
      → Restful f
      → (iss sub : String) → Keeps (Lasts x scopes) (change_account f iss sub)
  unfolding change_account update_accounts
  change-Lasts f rest iss sub =
      Keeps-bind _ _
        (Keeps-exec _ (λ t now.
          Lasts-update x (is_live iss sub) (f now) (live-kept iss sub) (rest now) scopes t))
        (just_one-Keeps (Lasts x scopes))

  scope_cases :
      (iss sub scope : String)
      → (iss == x.iss && sub == x.sub) ≡ false
      → (t : Accounts) (now : ℕ) → Lasts x scopes t
      → Lasts x scopes (insert_scope iss sub scope t now).1
  unfolding insert_scope
  scope_cases iss sub scope other t now h =
      elim (Bool-cases (
        not (any_where (is_scope iss sub scope) t.scopes)
        && any_where (is_account iss sub) t.rows)) [
          | inl e ↦ rw e (record {
            there = h.there;
            later = h.later;
            scoped =
                ap (map (λ r. r.scope_name))
                  (select_where-append_one _ t.scopes (new_scope iss sub scope) other)
                ∙ h.scoped;
          })
          | inr e ↦ rw e h
        ]

  scopes-Keeps :
      (iss sub : String)
      → (iss == x.iss && sub == x.sub) ≡ false
      → (ss : List String) → Keeps (Lasts x scopes) (insert_scopes iss sub ss)
  unfolding insert_scopes
  scopes-Keeps iss sub other [] = Keeps-pure _
  scopes-Keeps iss sub other (s ∷ ss) =
      Keeps-bind _ _ (Keeps-exec _ (scope_cases iss sub s other))
        (λ _. scopes-Keeps iss sub other ss)

  module _ (a : ServiceAccount) where
    -- an account that is inserted has another key
    abbrev Inserted : Result ℕ → Accounts → ℕ → Type 0
    Inserted (ok n) t c = ((a.iss == x.iss && a.sub == x.sub) ≡ false) × Lasts x scopes t
    Inserted (err e) t c = Lasts x scopes t

    insert_cases :
        (t : Accounts) (now : ℕ)
        → Lasts x scopes t
        → Inserted (insert_account a t now).0 (insert_account a t now).1 now
    unfolding insert_account
    insert_cases t now h = elim (Bool-cases (may_insert a t)) [
      | inl e ↦
          let other = other_key x a.iss a.sub t.rows h.there (ground arith) in
          rw e (
            other,
            record {
              there = any_where-append (is_it x) t.rows _ ∙ rw h.there refl;
              later = All-concat (Later x) t.rows (new_account a now) h.later (inl other);
              scoped = h.scoped;
            },
          )
      | inr e ↦ rw e h
    ]

    abbrev Done : Result Unit → Accounts → ℕ → Type 0
    Done r t c = Lasts x scopes t

    body-ensures : Ensures (λ t c. Lasts x scopes t) (insert_all a) Done
    body-ensures =
        Ensures-bind Inserted _ _ (Ensures-exec _ _ _ insert_cases (λ t c h. h))
          (λ n.
            Ensures-if (eqb n 1) _ _
              (record { at = λ s h. (scopes-Keeps a.iss a.sub h.0 a.scopes).at s h.1 })
              (Ensures-raise failed (λ t c h. h.1)))
          (λ e t c h. h)

    pub create-Lasts : Keeps (Lasts x scopes) (create_service_account a)
    unfolding create_service_account
    create-Lasts =
        Keeps-bind _ _
          (Keeps-transaction restore (λ old. Lasts x scopes) (λ old h. h) (λ old new h k. h)
            (λ old new h k. k) _ (λ old. record { at = λ s h. body-ensures.at s h }))
          (λ _. load-Keeps (Lasts x scopes) a.iss a.sub)
