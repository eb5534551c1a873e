-- ===== src/Storage/Accounts/Writing.antt =====
-- internal/storage/service_account_queries.go: the operations that change the service accounts, with the constraints of
-- internal/storage/migrations/002_service_accounts.up.sql.
use dashboard_site.Common.{
  ℕ, String, Bool, true, false, not, ◌&&◌, ◌==◌, Option, none, some, List, [], ◌∷◌, ◌++◌, ltb, eqb,
  any_where, count_where, update_where, if◌then◌else◌,
}
use dashboard_site.Models.Principal.{ServiceAccount}
use dashboard_site.Storage.Sql.{
  Result, ok, err, failed, Sql, pure, raise, exec, ◌>>=◌, ◌>>◌, transaction,
}
use dashboard_site.Storage.Accounts.{
  Accounts, ScopeRow, has_lookup_id, is_account, get_service_account_by_id,
}
use dashboard_site.Middlewares.Base64.{count}

-- no sequence is modelled, so a rollback leaves nothing
abbrev pub restore : Accounts → Accounts → Accounts
restore old new = old

-- the row that is inserted; the scopes have a table of their own
abbrev pub new_account : ServiceAccount → ℕ → ServiceAccount
new_account a now = record a { scopes = []; deleted_at = none; created_at = now }

-- the unique columns, and the length of the lookup id
abbrev pub may_insert : ServiceAccount → Accounts → Bool
may_insert a t =
    not (any_where (has_lookup_id a.lookup_id) t.rows)
    && not (any_where (is_account a.iss a.sub) t.rows)
    && not (ltb (count a.lookup_id) 16)

-- with the number of rows that it affects
unfoldable pub insert_account : ServiceAccount → Accounts → ℕ → Result ℕ × Accounts
insert_account a t now =
    if may_insert a t
    then (ok 1, record t { rows = t.rows ++ new_account a now ∷ [] })
    else (err failed, t)

abbrev pub is_scope : String → String → String → ScopeRow → Bool
is_scope iss sub scope r = r.owner_iss == iss && r.owner_sub == sub && r.scope_name == scope

abbrev pub new_scope : String → String → String → ScopeRow
new_scope iss sub scope = record { owner_iss = iss; owner_sub = sub; scope_name = scope }

-- the primary key and the foreign key
unfoldable pub insert_scope : String → String → String → Accounts → ℕ → Result Unit × Accounts
insert_scope iss sub scope t now =
    if not (any_where (is_scope iss sub scope) t.scopes) && any_where (is_account iss sub) t.rows
    then (ok tt, record t { scopes = t.scopes ++ new_scope iss sub scope ∷ [] })
    else (err failed, t)

unfoldable pub insert_scopes : String → String → List String → Sql Accounts Unit
insert_scopes iss sub [] = pure tt
insert_scopes iss sub (scope ∷ rest) =
    exec (insert_scope iss sub scope) >> insert_scopes iss sub rest

-- what stands between BEGIN and COMMIT
abbrev pub insert_all : ServiceAccount → Sql Accounts Unit
insert_all a = do
  affected ← exec (insert_account a)
  if eqb affected 1 then insert_scopes a.iss a.sub a.scopes else raise failed

unfoldable pub create_service_account : ServiceAccount → Sql Accounts ServiceAccount
create_service_account a = do
  transaction restore (insert_all a)
  get_service_account_by_id a.iss a.sub

abbrev pub is_kept : Option ℕ → Bool
is_kept none = true
is_kept (some at) = false

abbrev pub is_live : String → String → ServiceAccount → Bool
is_live iss sub a = is_account iss sub a && is_kept a.deleted_at

-- `UPDATE service_accounts SET f WHERE … AND deleted_at IS NULL`
unfoldable pub update_accounts :
    (ServiceAccount → ServiceAccount) → String → String → Accounts → ℕ → Result ℕ × Accounts
update_accounts f iss sub t now = (
  ok (count_where (is_live iss sub) t.rows),
  record t { rows = update_where (is_live iss sub) f t.rows },
)

abbrev pub just_one : ℕ → Sql Accounts Unit
just_one n = if ltb n 1 then raise failed else (if ltb 1 n then raise failed else pure tt)

-- who may be changed, and how: at a time
abbrev pub Change : Type 0
Change = ℕ → ServiceAccount → ServiceAccount

unfoldable pub change_account : Change → String → String → Sql Accounts Unit
change_account f iss sub = do
  affected ← exec (λ t now. update_accounts (f now) iss sub t now)
  just_one affected

abbrev pub paused : Change
paused now a = record a { is_disabled = true }

abbrev pub unpaused : Change
unpaused now a = record a { is_disabled = false }

abbrev pub deleted : Change
deleted now a = record a { deleted_at = some now; is_disabled = true }

unfoldable pub pause_service_account : String → String → Sql Accounts Unit
pause_service_account = change_account paused

unfoldable pub unpause_service_account : String → String → Sql Accounts Unit
unpause_service_account = change_account unpaused

unfoldable pub delete_service_account : String → String → Sql Accounts Unit
delete_service_account = change_account deleted

unfoldable pub disable_service_account : String → String → Sql Accounts Unit
disable_service_account = pause_service_account

unfoldable pub enable_service_account : String → String → Sql Accounts Unit
enable_service_account = unpause_service_account
