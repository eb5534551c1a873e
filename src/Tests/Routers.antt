-- ===== src/Tests/Routers.antt =====
-- A router that holds the addresses of one alias, and the theorems on it.
use dashboard_site.Common.{
  ◌≡◌, refl, sym, ap, ◌∙◌, String, Bool, true, not, ◌&&◌, ◌||◌, ◌==◌, eq_iff, Option, none, some,
  List, [], ◌∷◌, map, arith, if◌then◌else◌, contains, select_where, any_where, dedupe, Bool-cases,
  inl, inr,
}
use mathlib.Core.Option.{some-injective}
use dashboard_site.Models.Address.{strip_cidr}
use dashboard_site.Models.Whitelist.{WhitelistEntry, WhitelistStatus}
use dashboard_site.Services.Firewall.{
  ContentItem, Content, Router, get_selected_ips, is_internal_alias, is_alias_reference,
  update_alias, get_alias_ips, new_ips,
}
use dashboard_site.Services.Firewall.Effect.{IsFaithful, update_alias_effect}
use dashboard_site.Common.Keyed.{insert, lookup}
use dashboard_site.Jobs.FirewallSync.{
  add_to_group, group_by_ip, statuses, ips_to_add, ips_to_remove, sync_groups,
}
use dashboard_site.Jobs.FirewallSync.Groups.{is_desired}
use dashboard_site.Jobs.FirewallSync.Effect.{sync_groups_effect}
use dashboard_site.Tests.Network.{plain}
use dashboard_site.Tests.Whitelist.{entry, sample}

bare : strip_cidr "10.0.0.2" ≡ "10.0.0.2"
unfolding strip_cidr
bare = refl

all_bare : List String → Bool
all_bare [] = true
all_bare (ip ∷ ips) = strip_cidr ip == ip && all_bare ips

abbrev item : String → String × ContentItem
item ip = ("0.0.0.0", record { value = ip; selected = 1 })

abbrev show : List String → Option Content
show held = if all_bare held then some (map item held) else none

-- It takes and shows addresses without masks only.
abbrev plain_router : Router
plain_router = record {
  State = List String;
  get_item = λ uuid held. (show held, held);
  set_item = λ uuid lines held. (all_bare lines, if all_bare lines then lines else held);
  reconfigure = λ held. (true, held);
}

shown_ips :
    (ip : String) (held : List String)
    → all_bare held ≡ true
    → contains ip (get_selected_ips (map item held)) ≡ contains ip held
unfolding all_bare get_selected_ips select_where contains is_internal_alias is_alias_reference
    any_where
shown_ips ip [] h = refl
shown_ips ip (i ∷ is) h =
    let same : strip_cidr i ≡ i = (eq_iff (strip_cidr i) i).0 (ground arith) in
    let rest = shown_ips ip is (ground arith) in rw (same, rest) refl

shows_held :
    (ip : String) (held : List String) (content : Content)
    → show held ≡ some content
    → contains ip (get_selected_ips content) ≡ contains ip held
shows_held ip held content h = elim (Bool-cases (all_bare held)) [
  | inl e ↦
      let same : map item held ≡ content = some-injective _ _ (sym (rw e refl) ∙ h) in
      ap (λ c. contains ip (get_selected_ips c)) (sym same) ∙ shown_ips ip held e
  | inr e ↦ cc (rw e at h)
]

abbrev faithful : IsFaithful plain_router
faithful = record {
  held = λ uuid held. held;
  shows = λ uuid ip held content h. shows_held ip held content h;
  keeps = λ uuid held. refl;
  writes = λ uuid ip lines held h. rw h refl;
  applies = λ uuid held. refl;
}

abbrev before : List String
before = "10.0.0.1" ∷ "10.0.0.7" ∷ []

updates : (update_alias plain_router "u1" ("10.0.0.2" ∷ []) ("10.0.0.7" ∷ []) before).0 ≡ true
unfolding update_alias get_alias_ips get_selected_ips is_internal_alias is_alias_reference new_ips
    all_bare strip_cidr contains select_where any_where dedupe
updates = refl

update_alias_effect_example :
    contains "10.0.0.2"
      (update_alias plain_router "u1" ("10.0.0.2" ∷ []) ("10.0.0.7" ∷ []) before).1
    ≡ ((contains "10.0.0.2" before && not (contains "10.0.0.2" ("10.0.0.7" ∷ [])))
        || contains "10.0.0.2" ("10.0.0.2" ∷ []))
update_alias_effect_example =
    update_alias_effect plain_router faithful "u1" "10.0.0.2" ("10.0.0.2" ∷ []) ("10.0.0.7" ∷ [])
      before (bare, tt) updates

abbrev stored : List WhitelistEntry
stored =
    entry 1 "10.0.0.1" WhitelistStatus.removed ∷ entry 2 "10.0.0.2" WhitelistStatus.requested ∷ []

syncs :
    (sync_groups plain plain_router "" "u1"
      ("iss", "system")
      before
      (group_by_ip [] stored)
      (sample, before)).0
    ≡ true
unfolding sync_groups group_by_ip add_to_group statuses ips_to_add ips_to_remove insert lookup
    update_alias get_alias_ips get_selected_ips is_internal_alias is_alias_reference new_ips
    all_bare strip_cidr contains select_where any_where dedupe
syncs = refl

sync_groups_effect_example :
    contains "10.0.0.2"
      (sync_groups plain plain_router "" "u1"
        ("iss", "system")
        before
        (group_by_ip [] stored)
        (sample, before)).1.1
    ≡ is_desired "10.0.0.2" stored
sync_groups_effect_example =
    sync_groups_effect plain plain_router "" "u1" "10.0.0.2" ("iss", "system") faithful before
      stored sample before refl syncs
