-- ===== src/Models/Principal/Granting.antt =====
-- User.HasScope of internal/models/user.go against the settings: which groups grant a scope.
use dashboard_site.Common.{
  String, Bool, false, ◌||◌, ◌≡◌, refl, List, [], ◌∷◌, flat_map, contains, ◌∙◌, contains-append,
  contains-dedupe, Option, none, some,
}
use dashboard_site.Common.Keyed.{lookup}
use dashboard_site.Config.{Config}
use dashboard_site.Models.Principal.{
  User, user, has_scope, get_scopes, user_scopes, map_group_to_scopes, or_empty,
}

-- the list of the settings for one group
abbrev lists : String → Option (List String) → Bool
lists scope none = false
lists scope (some scopes) = contains scope scopes

-- one of the groups has the scope in its list of the settings
unfoldable pub is_granted : Config → String → List String → Bool
is_granted cfg scope [] = false
is_granted cfg scope (g ∷ gs) = lists scope (lookup g cfg.group_scopes) || is_granted cfg scope gs

contains-or_empty :
    (scope : String) (o : Option (List String)) → contains scope (or_empty o) ≡ lists scope o
unfolding contains
contains-or_empty scope none = refl
contains-or_empty scope (some scopes) = refl

contains-flat_map :
    (cfg : Config) (scope : String) (gs : List String)
    → contains scope (flat_map (map_group_to_scopes cfg) gs) ≡ is_granted cfg scope gs
unfolding flat_map is_granted contains map_group_to_scopes
contains-flat_map cfg scope [] = refl
contains-flat_map cfg scope (g ∷ gs) =
    contains-append scope (map_group_to_scopes cfg g) (flat_map (map_group_to_scopes cfg) gs)
    ∙ rw (contains-or_empty scope (lookup g cfg.group_scopes), contains-flat_map cfg scope gs) refl

-- A user has a scope exactly when the settings list the scope for one of the user's groups:
-- collecting the groups' scopes and removing the duplicates neither loses a scope nor adds one.
pub has_scope_by_groups :
    (cfg : Config) (u : User) (scope : String)
    → has_scope cfg (user u) scope ≡ is_granted cfg scope u.groups
unfolding has_scope get_scopes user_scopes
has_scope_by_groups cfg u scope =
    contains-dedupe scope (flat_map (map_group_to_scopes cfg) u.groups)
    ∙ contains-flat_map cfg scope u.groups
