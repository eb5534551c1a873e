-- ===== src/Models/Principal.antt =====
-- internal/models/user.go, service_account.go, and the interface of middlewares/principal.go.
use dashboard_site.Common.{
  ℕ, String, Bool, ◌&&◌, Option, none, some, List, [], ◌==◌, dedupe, flat_map, contains,
}
use dashboard_site.Common.Keyed.{lookup}
use dashboard_site.Config.{Config}
pub mod Granting

pub record User : Type 0 where
  pub sub : String
  pub iss : String
  pub username : String
  pub display_name : String
  pub email : String
  pub groups : List String
  pub is_system : Bool

pub record ServiceAccount : Type 0 where
  pub sub : String
  pub iss : String
  pub name : String
  pub lookup_id : String
  pub secret_hash : String
  pub token_expires_at : ℕ
  pub scopes : List String
  pub is_disabled : Bool
  pub deleted_at : Option ℕ
  pub created_by_sub : String
  pub created_by_iss : String
  pub created_at : ℕ

abbrev or_empty : Option (List String) → List String
or_empty none = []
or_empty (some l) = l

unfoldable pub map_group_to_scopes : Config → String → List String
map_group_to_scopes cfg group = or_empty (lookup group cfg.group_scopes)

-- User.GetScopes
unfoldable pub user_scopes : Config → User → List String
user_scopes cfg u = dedupe (flat_map (map_group_to_scopes cfg) u.groups)

-- The implementations of the interface `Principal`.
pub data Principal : Type 0 where
  user : User → Principal
  service_account : ServiceAccount → Principal

abbrev pub get_iss : Principal → String
get_iss (user u) = u.iss
get_iss (service_account a) = a.iss

abbrev pub get_sub : Principal → String
get_sub (user u) = u.sub
get_sub (service_account a) = a.sub

abbrev pub get_groups : Principal → List String
get_groups (user u) = u.groups
get_groups (service_account a) = []

abbrev pub get_username : Principal → String
get_username (user u) = u.username
get_username (service_account a) = a.name

abbrev pub get_display_name : Principal → String
get_display_name (user u) = u.display_name
get_display_name (service_account a) = a.name

abbrev pub get_email : Principal → String
get_email (user u) = u.email
get_email (service_account a) = ""

unfoldable pub get_scopes : Config → Principal → List String
get_scopes cfg (user u) = user_scopes cfg u
get_scopes cfg (service_account a) = a.scopes

unfoldable pub has_scope : Config → Principal → String → Bool
has_scope cfg p scope = contains scope (get_scopes cfg p)

abbrev pub matches_owner : Principal → String → String → Bool
matches_owner p iss sub = get_iss p == iss && get_sub p == sub
