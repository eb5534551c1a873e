-- ===== src/Services/Firewall.antt =====
-- internal/services/firewall: the client of the OPNsense router. The router itself answers over HTTP
-- and is a parameter. An alias is what its GET returns: the items of its content by their keys.
pub mod Updating
pub mod Effect
use Prim.Native.Char.{code}
use dashboard_site.Common.{
  ℕ, String, Bool, true, false, not, ◌&&◌, ◌||◌, Option, none, some, List, [], ◌∷◌, ◌++◌, eqb, map,
  if◌then◌else◌, contains, dedupe, select_where, any_where,
}
use mathlib.Core.Option
use text.Mathlib.Text.{starts_with}
use dashboard_site.Models.Address.{strip_cidr}

pub record ContentItem : Type 0 where
  pub value : String
  pub selected : ℕ

abbrev pub Content : Type 0
Content = List (String × ContentItem)

-- isInternalAlias
unfoldable pub is_internal_alias : String → Bool
is_internal_alias key =
    any_where (λ prefix. starts_with key prefix) ("__" ∷ "bogons" ∷ "virusprot" ∷ "sshlockout" ∷ [])

starts_with_dash : String → Bool
starts_with_dash String.[] = false
starts_with_dash (String.◌∷◌ c s) = eqb (code c) b'-'

-- the loop of isAliasReference: a dot, a colon, or a dash in a key that does not begin with one
has_ip_chars : Bool → String → Bool
has_ip_chars dash String.[] = false
has_ip_chars dash (String.◌∷◌ c s) =
    eqb (code c) b'.' || eqb (code c) b':' || (eqb (code c) b'-' && not dash) || has_ip_chars dash s

unfoldable pub is_alias_reference : String → Bool
unfolding starts_with_dash has_ip_chars
is_alias_reference key = not (has_ip_chars (starts_with_dash key) key)

abbrev is_listed : String × ContentItem → Bool
is_listed (key, item) =
    eqb item.selected 1 && not (is_internal_alias key) && not (is_alias_reference key)

-- GetSelectedIPs
unfoldable pub get_selected_ips : Content → List String
get_selected_ips content = map (λ i. strip_cidr i.1.value) (select_where is_listed content)

-- `ipMap[ip] = true`
abbrev put : List String → String → List String
put m ip = if contains ip m then m else m ++ ip ∷ []

put_all : List String → List String → List String
put_all m [] = m
put_all m (ip ∷ ips) = put_all (put m ip) ips

-- the keys of `ipMap` in UpdateAlias after its three loops
unfoldable pub new_ips : List String → List String → List String → List String
unfolding put_all
new_ips current to_add to_remove =
    put_all (select_where (λ ip. not (contains ip to_remove)) (dedupe current)) to_add

-- A router, whose calls may fail: GET of an alias, POST of its lines, and the POST that applies them.
pub record Router : Type 1 where
  pub State : Type 0
  pub get_item : String → State → Option Content × State
  pub set_item : String → List String → State → Bool × State
  pub reconfigure : State → Bool × State

module _ (r : Router) where
  -- `none` is an error
  unfoldable pub get_alias_ips : String → r.State → Option (List String) × r.State
  get_alias_ips uuid s =
      let (content, s') = r.get_item uuid s in (Option.map get_selected_ips content, s')

  apply_lines : String → List String → r.State → Bool × r.State
  apply_lines uuid lines s =
      let (written, s') = r.set_item uuid lines s in
      if written then r.reconfigure s' else (false, s')

  -- the second GET, for the alias's other settings, which are sent back as they are
  with_settings : String → List String → Option Content × r.State → Bool × r.State
  unfolding apply_lines
  with_settings uuid lines (none, s) = (false, s)
  with_settings uuid lines (some content, s) = apply_lines uuid lines s

  change : String → List String → List String → Option (List String) × r.State → Bool × r.State
  unfolding with_settings
  change uuid to_add to_remove (none, s) = (false, s)
  change uuid to_add to_remove (some current, s) =
      with_settings uuid (map strip_cidr (new_ips current to_add to_remove)) (r.get_item uuid s)

  unfoldable pub update_alias : String → List String → List String → r.State → Bool × r.State
  unfolding change
  update_alias uuid to_add to_remove s = change uuid to_add to_remove (get_alias_ips uuid s)
