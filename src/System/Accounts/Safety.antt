-- ===== src/System/Accounts/Safety.antt =====
-- What sequences of requests do to a service account.
use dashboard_site.Common.{
  ℕ, ◌≡◌, ◌≢◌, inl, inr, ◌∙◌, refl, sym, ap, subst, some-cancel, String, Bool, false, Option, none,
  some, List, [], ◌∷◌, All, Bool-cases, find_where,
}
use dashboard_site.Config.{Config}
use dashboard_site.Models.Principal.{User, ServiceAccount, Principal, user, service_account}
use dashboard_site.Storage.Sql.{Session}
use dashboard_site.Storage.Accounts.{Accounts, is_account, has_lookup_id}
use dashboard_site.Storage.Accounts.Writing.{
  pause_service_account, unpause_service_account, paused, unpaused, deleted,
}
use dashboard_site.Storage.Accounts.Writing
use dashboard_site.Storage.Accounts.Lasting.{Later, Lasts, change-Lasts, create-Lasts}
use dashboard_site.Middlewares.Token.{Hasher}
use dashboard_site.Middlewares.Auth.{optional_auth}
use dashboard_site.Middlewares.Auth.Soundness.{Authenticated, optional_auth_outcome}
use dashboard_site.Middlewares.Auth.Verifying.{IsGenuine}
use dashboard_site.Middlewares.Auth.Keeping.{optional_auth-keeps}
use dashboard_site.Handlers.Http.{Check, pass, refuse}
use dashboard_site.Handlers.Accounts.Keeping.{
  delete-Kept, pause-Kept, unpause-Kept, post-Kept, list-Kept,
}
use dashboard_site.System.Accounts.{
  Action, post, list, delete, pause, unpause, authenticate, Round, serve, serve_all,
}

module _ (h : Hasher) (cfg : Config) (x : ServiceAccount) (scopes : List String) where
  serve-Lasts :
      (a : Action) (s : Session Accounts)
      → Lasts x scopes s.tables
      → Lasts x scopes (serve h cfg a s).tables
  unfolding serve pause_service_account unpause_service_account Writing.delete_service_account
  serve-Lasts (post u body draws) s k =
      (post-Kept (Lasts x scopes) (create-Lasts x scopes) h cfg _ body draws).at s k
  serve-Lasts (list u) s k = (list-Kept (Lasts x scopes) u).at s k
  serve-Lasts (delete u iss sub) s k =
      (delete-Kept (Lasts x scopes) (change-Lasts x scopes deleted (λ now a. refl)) u iss sub).at s
        k
  serve-Lasts (pause u iss sub) s k =
      (pause-Kept (Lasts x scopes) (change-Lasts x scopes paused (λ now a. refl)) _ iss sub).at s k
  serve-Lasts (unpause u iss sub) s k =
      (unpause-Kept (Lasts x scopes) (change-Lasts x scopes unpaused (λ now a. refl)) _ iss sub).at
        s k
  serve-Lasts (authenticate header cookie) s k =
      optional_auth-keeps (Lasts x scopes) h cookie none cfg header s k

-- Whatever requests follow, whichever statements fail: an account that is stored, alone under its issuer and subject, is
-- still there, alone, with the scopes that it had; of its columns only `is_disabled` and `deleted_at` ever change; and
-- once it is deleted, none does.
pub serve_all-Lasts :
    (h : Hasher) (cfg : Config) (x : ServiceAccount) (scopes : List String) (os : List Round)
    (s : Session Accounts)
    → Lasts x scopes s.tables
    → Lasts x scopes (serve_all h cfg os s).tables
unfolding serve_all
serve_all-Lasts h cfg x scopes [] s k = k
serve_all-Lasts h cfg x scopes (o ∷ os) s k =
    serve_all-Lasts h cfg x scopes os _
      (serve-Lasts h cfg x scopes o.action (record s { clock = o.clock; faults = o.faults }) k)

found-Later :
    (x : ServiceAccount) (p : ServiceAccount → Bool) (rows : List ServiceAccount)
    (row : ServiceAccount)
    → All (Later x) rows
    → find_where p rows ≡ some row
    → Later x row
unfolding find_where
found-Later x p [] row h e = absurd (cc)
found-Later x p (a ∷ rows) row h e = elim (Bool-cases (p a)) [
  | inl k ↦ subst (Later x) (some-cancel a row (rw k at e)) h.0
  | inr k ↦ found-Later x p rows row h.1 (rw k at e)
]

passed_account :
    (b a : ServiceAccount)
    → pass (some (service_account b)) ≡ pass (some (service_account a))
    → b ≡ a
passed_account b a e = cc

module _ (h : Hasher) (cfg : Config) (x : ServiceAccount) (at : ℕ) (header : String)
    (cookie : Option User) (gone : x.deleted_at ≡ some at) where
  not_gone : x.deleted_at ≢ none
  not_gone e = cc

  not_genuine :
      (t : Accounts) (now : ℕ) (token : String) (b : ServiceAccount)
      → All (Later x) t.rows
      → IsGenuine h t now token b
      → is_account x.iss x.sub b ≡ false
  not_genuine t now token b k g =
      ap (is_account x.iss x.sub) g.filled
      ∙ elim (found-Later x (has_lookup_id g.lookup_id) t.rows g.row k g.found) [
        | inl e ↦ e
        | inr f ↦ absurd (elim f.gone [
          | inl e ↦ not_gone (ap (λ b. b.deleted_at) (sym e) ∙ g.kept)
          | inr e ↦ not_gone e
        ])
      ]

  -- whoever is let through is not the deleted account
  never :
      (t : Accounts) (now : ℕ) (c : Check (Option Principal)) (a : ServiceAccount)
      → All (Later x) t.rows
      → Authenticated h cfg header cookie t now c
      → c ≡ pass (some (service_account a))
      → is_account x.iss x.sub a ≡ false
  never t now (pass (some (service_account b))) a k (token, w, g) e =
      subst (λ (b : ServiceAccount). is_account x.iss x.sub b ≡ false) (passed_account b a e)
        (not_genuine t now token b k g)
  never t now (pass (some (user u))) a k w e = absurd (cc)
  never t now (pass none) a k w e = absurd (cc)
  never t now (refuse n) a k w e = absurd (cc)

-- A deleted account is never let in again: whatever requests follow, whichever statements fail, no header makes
-- OptionalAuth let a request pass as the account that is deleted at the start.
pub deleted_never_passes :
    (h : Hasher) (cfg : Config) (x : ServiceAccount) (at : ℕ) (scopes : List String)
    (os : List Round) (s : Session Accounts) (header : String) (cookie : Option User)
    (a : ServiceAccount)
    → Lasts x scopes s.tables
    → x.deleted_at ≡ some at
    → (optional_auth h cfg header cookie none (serve_all h cfg os s)).0
      ≡ pass (some (service_account a))
    → is_account x.iss x.sub a ≡ false
deleted_never_passes h cfg x at scopes os s header cookie a k gone e =
    let u = serve_all h cfg os s in
    never h cfg x at header cookie gone u.tables u.clock
      (optional_auth h cfg header cookie none u).0 a (serve_all-Lasts h cfg x scopes os s k).later
      (optional_auth_outcome h cfg header cookie u) e
