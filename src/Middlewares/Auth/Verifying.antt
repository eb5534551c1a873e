-- ===== src/Middlewares/Auth/Verifying.antt =====
-- Which tokens VerifyServiceAccount accepts.
use dashboard_site.Common.{
  ℕ, ◌≤◌, ◌≡◌, refl, sym, ap, ◌∙◌, subst, String, Bool, true, false, Option, none, some, List,
  arith, ltb, find_where,
}
use dashboard_site.Models.Principal.{ServiceAccount}
use dashboard_site.Storage.Sql.{Result, ok, err, Session}
use dashboard_site.Storage.Sql.Ensures.{Ensures, Ensures-bind, Ensures-query, Ensures-pure}
use dashboard_site.Storage.Whitelist.Read.{or_missing}
use dashboard_site.Storage.Accounts.{
  Accounts, scopes_of, has_lookup_id, get_service_account_by_lookup_id,
}
use dashboard_site.Middlewares.Token.{Hasher, parse_service_token}
use dashboard_site.Middlewares.Auth.{
  Verdict, accepted, rejected, judge, judge_deleted, judge_disabled, judge_expiry, judged,
  verify_parsed, verify_service_account,
}

module _ (h : Hasher) (t : Accounts) (now : ℕ) where
  -- A token names an account that is kept, enabled and not expired, and has its secret.
  pub record IsGenuine (token : String) (a : ServiceAccount) : Type 0 where
    pub lookup_id : String
    pub secret : String
    pub row : ServiceAccount
    pub parsed : parse_service_token token ≡ some (lookup_id, secret)
    pub found : find_where (has_lookup_id lookup_id) t.rows ≡ some row
    pub filled : a ≡ record row { scopes = scopes_of t row }
    pub matching : h.matches secret row.secret_hash ≡ some true
    pub kept : row.deleted_at ≡ none
    pub enabled : row.is_disabled ≡ false
    pub fresh : now ≤ row.token_expires_at

  abbrev pub Verified : String → Verdict → Type 0
  Verified token (accepted a) = IsGenuine token a
  Verified token (rejected e) = Unit

  abbrev Read : String → Result ServiceAccount → Accounts → ℕ → Type 0
  Read lookup_id (ok a) u c =
      ((row : ServiceAccount) × (find_where (has_lookup_id lookup_id) t.rows ≡ some row)
        × (a ≡ record row { scopes = scopes_of t row }))
      × (c ≡ now)
  Read lookup_id (err e) u c = Unit

  abbrev Row : String → Result ServiceAccount → Accounts → ℕ → Type 0
  Row lookup_id (ok row) u c =
      (find_where (has_lookup_id lookup_id) t.rows ≡ some row) × (u ≡ t) × (c ≡ now)
  Row lookup_id (err e) u c = Unit

  row_found :
      (lookup_id : String) (o : Option ServiceAccount) (u : Accounts) (c : ℕ)
      → find_where (has_lookup_id lookup_id) t.rows ≡ o
      → u ≡ t
      → c ≡ now
      → Row lookup_id (or_missing o) u c
  row_found lookup_id none u c e same at = tt
  row_found lookup_id (some row) u c e same at = (e, same, at)

  abbrev Scopes : String → ServiceAccount → Result (List String) → Accounts → ℕ → Type 0
  Scopes lookup_id row (ok l) u c =
      (find_where (has_lookup_id lookup_id) t.rows ≡ some row) × (l ≡ scopes_of t row) × (c ≡ now)
  Scopes lookup_id row (err e) u c = Unit

  lookup_ensures :
      (lookup_id : String)
      → Ensures
          (λ u c. (u ≡ t) × (c ≡ now))
          (get_service_account_by_lookup_id lookup_id)
          (Read lookup_id)
  unfolding get_service_account_by_lookup_id
  lookup_ensures lookup_id =
      Ensures-bind (Row lookup_id) _ _
        (Ensures-query _ _ _
          (λ u c k.
            row_found lookup_id _ u c
              (ap (λ (v : Accounts). find_where (has_lookup_id lookup_id) v.rows) (sym k.0)) k.0
              k.1)
          (λ u c k. tt))
        (λ row.
          Ensures-bind (Scopes lookup_id row) _ _
            (Ensures-query _ _ _ (λ u c k. (k.0, ap (λ v. scopes_of v row) k.1, k.2)) (λ u c k. tt))
            (λ l.
              Ensures-pure _ (λ u c k.
                ((row, k.0, ap (λ (m : List String). record row { scopes = m }) k.1), k.2)))
            (λ e u c k. tt))
        (λ e u c k. tt)

  module _ (token lookup_id secret : String) (row a : ServiceAccount)
      (parsed : parse_service_token token ≡ some (lookup_id, secret))
      (found : find_where (has_lookup_id lookup_id) t.rows ≡ some row)
      (filled : a ≡ record row { scopes = scopes_of t row }) where
    module _ (matching : h.matches secret a.secret_hash ≡ some true) where
      expiry_sound :
          (late : Bool)
          → a.deleted_at ≡ none
          → a.is_disabled ≡ false
          → ltb a.token_expires_at now ≡ late
          → Verified token (judge_expiry now a late)
      unfolding judge_expiry
      expiry_sound true q r l = tt
      expiry_sound false q r l = record {
        lookup_id = lookup_id;
        secret = secret;
        row = row;
        parsed = parsed;
        found = found;
        filled = filled;
        matching =
            ap (λ (b : ServiceAccount). h.matches secret b.secret_hash) (sym filled) ∙ matching;
        kept = ap (λ (b : ServiceAccount). b.deleted_at) (sym filled) ∙ q;
        enabled = ap (λ (b : ServiceAccount). b.is_disabled) (sym filled) ∙ r;
        fresh =
            in_time row.token_expires_at
              (ap (λ (b : ServiceAccount). ltb b.token_expires_at now) (sym filled) ∙ l);
      }
        where
          in_time : (at : ℕ) → ltb at now ≡ false → now ≤ at
          in_time at k = ground arith

      disabled_sound :
          (off : Bool)
          → a.deleted_at ≡ none
          → a.is_disabled ≡ off
          → Verified token (judge_disabled now a off)
      unfolding judge_disabled
      disabled_sound true q r = tt
      disabled_sound false q r = expiry_sound (ltb a.token_expires_at now) q r refl

      deleted_sound : (at : Option ℕ) → a.deleted_at ≡ at → Verified token (judge_deleted now a at)
      unfolding judge_deleted
      deleted_sound (some x) q = tt
      deleted_sound none q = disabled_sound a.is_disabled q refl

    judge_sound :
        (m : Option Bool) → h.matches secret a.secret_hash ≡ m → Verified token (judge now a m)
    unfolding judge
    judge_sound none p = tt
    judge_sound (some false) p = tt
    judge_sound (some true) p = deleted_sound p a.deleted_at refl

  judged_sound :
      (token lookup_id secret : String) (r : Result ServiceAccount) (s : Session Accounts)
      → parse_service_token token ≡ some (lookup_id, secret)
      → Read lookup_id r s.tables s.clock
      → Verified token (judged h secret (r, s)).0
  unfolding judged
  judged_sound token lookup_id secret (err e) s p k = tt
  judged_sound token lookup_id secret (ok a) s p k =
      subst (λ c. Verified token (judge c a (h.matches secret a.secret_hash))) (sym k.1)
        (judge_sound token lookup_id secret k.0.0 a p k.0.1 k.0.2 (h.matches secret a.secret_hash)
          refl)

  verify_parsed_sound :
      (token : String) (o : Option (String × String)) (s : Session Accounts)
      → parse_service_token token ≡ o
      → s.tables ≡ t
      → s.clock ≡ now
      → Verified token (verify_parsed h o s).0
  unfolding verify_parsed
  verify_parsed_sound token none s p same at = tt
  verify_parsed_sound token (some (lookup_id, secret)) s p same at =
      judged_sound token lookup_id secret (get_service_account_by_lookup_id lookup_id s).0
        (get_service_account_by_lookup_id lookup_id s).1 p
        ((lookup_ensures lookup_id).at s (same, at))

  pub verify_sound :
      (token : String) (s : Session Accounts)
      → s.tables ≡ t
      → s.clock ≡ now
      → Verified token (verify_service_account h token s).0
  unfolding verify_service_account
  verify_sound token s = verify_parsed_sound token (parse_service_token token) s refl
