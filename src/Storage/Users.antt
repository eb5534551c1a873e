-- ===== src/Storage/Users.antt =====
-- internal/storage/user_queries.go, on the tables users and user_groups of
-- internal/storage/migrations/001_initial_schema.up.sql.
pub mod Upserting
pub mod LoggingIn
use dashboard_site.Common.{
  ℕ, String, Bool, true, false, not, ◌&&◌, ◌==◌, Option, none, some, List, [], ◌∷◌, ◌++◌, map, ltb,
  any_where, find_where, select_where, count_where, ◌≡◌, update_where, if◌then◌else◌,
}
use dashboard_site.Storage.Sql.{
  Result, ok, err, failed, Sql, pure, raise, query, exec, ◌>>=◌, ◌>>◌, transaction,
}
use dashboard_site.Storage.Whitelist.Read.{or_missing}

-- what a login knows of a user
pub record Profile : Type 0 where
  pub sub : String
  pub iss : String
  pub username : String
  pub display_name : String
  pub email : String

pub record UserEntry : Type 0 where
  pub profile : Profile
  pub is_system : Bool
  pub last_logged_in : ℕ
  pub created_at : ℕ

pub record GroupRow : Type 0 where
  pub owner_iss : String
  pub owner_sub : String
  pub group_name : String

pub record Users : Type 0 where
  pub rows : List UserEntry
  pub groups : List GroupRow

-- a user with the groups
pub record UserView : Type 0 where
  pub entry : UserEntry
  pub groups : List String

abbrev pub is_user : String → String → UserEntry → Bool
is_user iss sub u = u.profile.iss == iss && u.profile.sub == sub

abbrev pub is_owner : String → String → GroupRow → Bool
is_owner iss sub g = g.owner_iss == iss && g.owner_sub == sub

abbrev pub groups_of : Users → String → String → List String
groups_of t iss sub = map (λ g. g.group_name) (select_where (is_owner iss sub) t.groups)

abbrev pub occurs : String → List String → ℕ
occurs g = count_where (λ h. h == g)

-- The SELECT on the groups has no ORDER BY: they come in some order, each as often as it is stored.
pub record Order : Type 0 where
  pub arrange : List String → List String
  pub same : (g : String) (l : List String) → occurs g (arrange l) ≡ occurs g l

unfoldable pub get_user_by_id : Order → String → String → Sql Users UserView
get_user_by_id o iss sub = do
  u ← query (λ t _. or_missing (find_where (is_user iss sub) t.rows))
  groups ← query (λ t _. ok (o.arrange (groups_of t u.profile.iss u.profile.sub)))
  pure (record { entry = u; groups = groups })

abbrev pub new_user : Profile → ℕ → UserEntry
new_user p now = record { profile = p; is_system = false; last_logged_in = now; created_at = now }

-- the primary key
unfoldable pub insert_user : Profile → Users → ℕ → Result ℕ × Users
insert_user p t now =
    if any_where (is_user p.iss p.sub) t.rows
    then (err failed, t)
    else (ok 1, record t { rows = t.rows ++ new_user p now ∷ [] })

unfoldable pub create_user : Order → Profile → Sql Users UserView
create_user o p = do
  affected ← exec (insert_user p)
  if ltb affected 1
      then raise failed
      else (if ltb 1 affected then raise failed else get_user_by_id o p.iss p.sub)

-- `ON CONFLICT (iss, sub) DO UPDATE`
abbrev pub log_in : Profile → ℕ → UserEntry → UserEntry
log_in p now u = record u {
  profile = record p { iss = u.profile.iss; sub = u.profile.sub };
  last_logged_in = now;
}

unfoldable pub upsert_row : Profile → ℕ → List UserEntry → List UserEntry
upsert_row p now rows =
    if any_where (is_user p.iss p.sub) rows
    then update_where (is_user p.iss p.sub) (log_in p now) rows
    else rows ++ new_user p now ∷ []

abbrev pub new_group : String → String → String → GroupRow
new_group iss sub name = record { owner_iss = iss; owner_sub = sub; group_name = name }

abbrev pub is_group : GroupRow → GroupRow → Bool
is_group g h =
    h.owner_iss == g.owner_iss && h.owner_sub == g.owner_sub && h.group_name == g.group_name

-- the rows of one INSERT, where the primary key takes none twice
unfoldable pub add_groups : List GroupRow → List GroupRow → Option (List GroupRow)
add_groups rows [] = some rows
add_groups rows (g ∷ gs) =
    let rest = add_groups (rows ++ g ∷ []) gs in if any_where (is_group g) rows then none else rest

abbrev or_refused : Users → Option (List GroupRow) → Result Unit × Users
or_refused t none = (err failed, t)
or_refused t (some groups) = (ok tt, record t { groups = groups })

-- with the foreign key
unfoldable pub insert_groups : String → String → List String → Users → ℕ → Result Unit × Users
insert_groups iss sub names t now =
    if any_where (is_user iss sub) t.rows
    then or_refused t (add_groups t.groups (map (new_group iss sub) names))
    else (err failed, t)

abbrev pub others : String → String → List GroupRow → List GroupRow
others iss sub = select_where (λ g. not (is_owner iss sub g))

-- `if len(groups) > 0`
abbrev pub store_groups : String → String → List String → Sql Users Unit
store_groups iss sub [] = pure tt
store_groups iss sub (name ∷ names) = exec (insert_groups iss sub (name ∷ names))

abbrev pub restore : Users → Users → Users
restore old new = old

abbrev pub upsert_body : Profile → List String → Sql Users Unit
upsert_body p groups = do
  exec (λ t now. (ok tt, record t { rows = upsert_row p now t.rows }))
  exec (λ t now. (ok tt, record t { groups = others p.iss p.sub t.groups }))
  store_groups p.iss p.sub groups

unfoldable pub upsert_user : Order → Profile → List String → Sql Users UserView
upsert_user o p groups = do transaction restore (upsert_body p groups); get_user_by_id o p.iss p.sub
