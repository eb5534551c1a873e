-- ===== src/Handlers/Accounts/Keeping.antt =====
-- Invariants of the service accounts under the handlers of internal/handlers/handler_service_accounts.go.
use dashboard_site.Common.{ℕ, String, Option, List, [], ◌∷◌}
use dashboard_site.Config.{Config}
use dashboard_site.Models.Principal.{User, ServiceAccount, Principal}
use dashboard_site.Storage.Sql.{Sql, StorageError}
use dashboard_site.Storage.Sql.Keeps.{Keeps, Keeps-pure, Keeps-query, Keeps-bind}
use dashboard_site.Storage.Sql.Ensures.{Ensures-of_Keeps}
use dashboard_site.Storage.Accounts.{Accounts, with_scopes, get_service_accounts_by_creator}
use dashboard_site.Storage.Accounts.Writing.{
  create_service_account, pause_service_account, unpause_service_account,
}
use dashboard_site.Storage.Accounts.Writing
use dashboard_site.Storage.Accounts.Lasting.{load-Keeps}
use dashboard_site.Middlewares.Token.{Hasher, generate_api_token}
use dashboard_site.Handlers.Http.{Check, or_refuse, Handler, attempt, checked}
use dashboard_site.Handlers.Http.Replies.{Replies, Replies-finish, Replies-checked, Replies-attempt}
use dashboard_site.Handlers.Accounts.{
  AccountBody, Draws, check_account, wanted_account, post_at, post_service_account,
  get_service_accounts, manage, delete_service_account, patch_service_account_pause,
  patch_service_account_unpause,
}

module _ (I : Accounts → Type 0) where
  abbrev pub Kept : {B : Type 0} → Handler Accounts B → Type 0
  Kept h = Replies (λ t c. I t) h (λ r t c. I t)

  attempt-Kept :
      {A B : Type 0} (m : Sql Accounts A) (fail : StorageError → ℕ) (k : A → Handler Accounts B)
      → Keeps I m
      → ((a : A) → Kept (k a))
      → Kept (attempt m fail k)
  attempt-Kept m fail k h next =
      Replies-attempt (λ r t c. I t) m fail k (Ensures-of_Keeps I m h) (λ e t c p. p) next

  checked-Kept :
      {A B : Type 0} (c : Check A) (k : A → Handler Accounts B)
      → ((a : A) → Kept (k a))
      → Kept (checked c k)
  checked-Kept c k next = Replies-checked c k (λ a e. next a) (λ n t now e p. p)

  manage-Kept :
      (change : String → String → Sql Accounts Unit)
      → ((iss sub : String) → Keeps I (change iss sub))
      → (u : User) (iss sub : String) → Kept (manage change u iss sub)
  unfolding manage
  manage-Kept change h u iss sub = checked-Kept _ _ λ _.
      attempt-Kept _ _ _ (load-Keeps I iss sub)
        λ a. checked-Kept _ _ λ _. attempt-Kept _ _ _ (h iss sub) λ _. Replies-finish _ (λ t c p. p)

  pub delete-Kept :
      ((iss sub : String) → Keeps I (Writing.delete_service_account iss sub))
      → (u : User) (iss sub : String) → Kept (delete_service_account u iss sub)
  unfolding delete_service_account
  delete-Kept = manage-Kept Writing.delete_service_account

  pub pause-Kept :
      ((iss sub : String) → Keeps I (pause_service_account iss sub))
      → (who : Option Principal) (iss sub : String) → Kept (patch_service_account_pause who iss sub)
  unfolding patch_service_account_pause
  pause-Kept h who iss sub = checked-Kept _ _ λ u. manage-Kept pause_service_account h u iss sub

  pub unpause-Kept :
      ((iss sub : String) → Keeps I (unpause_service_account iss sub))
      → (who : Option Principal) (iss sub : String)
      → Kept (patch_service_account_unpause who iss sub)
  unfolding patch_service_account_unpause
  unpause-Kept h who iss sub = checked-Kept _ _ λ u. manage-Kept unpause_service_account h u iss sub

  module _ (k : (a : ServiceAccount) → Keeps I (create_service_account a)) (h : Hasher)
      (cfg : Config) (who : Option Principal) (body : Option AccountBody) (draws : Draws) where
    post_at-Kept : (now : ℕ) → Kept (post_at h cfg who body draws now)
    unfolding post_at
    post_at-Kept now = checked-Kept (check_account cfg who body now) _ λ q.
        checked-Kept (or_refuse (generate_api_token h draws.lookup_bytes draws.secret_bytes) 500) _
          λ token.
            attempt-Kept _ _ _ (k (wanted_account cfg draws token now q))
              λ a. Replies-finish _ (λ t c i. i)

    pub post-Kept : Kept (post_service_account h cfg who body draws)
    unfolding post_service_account
    post-Kept = record { at = λ s p. (post_at-Kept s.clock).at s p }

  fill-Keeps : (accounts : List ServiceAccount) → Keeps I (with_scopes accounts)
  unfolding with_scopes
  fill-Keeps [] = Keeps-pure _
  fill-Keeps (a ∷ rest) = Keeps-bind _ _ (Keeps-query _) (λ _. Keeps-pure _)

  pub list-Kept : (u : User) → Kept (get_service_accounts u)
  unfolding get_service_accounts get_service_accounts_by_creator
  list-Kept u =
      attempt-Kept _ _ _ (Keeps-bind _ _ (Keeps-query _) fill-Keeps)
        λ _. Replies-finish _ (λ t c p. p)
