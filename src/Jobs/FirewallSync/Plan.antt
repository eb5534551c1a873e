-- ===== src/Jobs/FirewallSync/Plan.antt =====
-- What syncAlias asks the router to write.
use dashboard_site.Common.{
  String, ◌≡◌, ◌≢◌, refl, ap, ◌∙◌, subst, Bool, false, not, ◌&&◌, Option, none, some, List, [], ◌∷◌,
  arith, ◌==◌, eq_iff, All, contains, dedupe, select_where, any_where, Bool-cases, inl, inr,
  contains-select_where, contains-dedupe,
}
use dashboard_site.Common.Keyed.{lookup}
use mathlib.Core.Option
use dashboard_site.Models.Whitelist.{WhitelistEntry}
use dashboard_site.Services.Firewall.{new_ips}
use dashboard_site.Services.Firewall.Updating.{contains-new_ips}
use dashboard_site.Jobs.FirewallSync.{
  group_by_ip, has_active, statuses, ips_to_add, ips_to_remove, is_unwanted,
}
use dashboard_site.Jobs.FirewallSync.Groups.{
  keys, HasUniqueKeys, group_by_ip-HasUniqueKeys, group_of-group_by_ip, lookup-statuses,
  statuses-HasUniqueKeys, is_desired, has_active-select_where,
}

abbrev wanted : Option Bool → Bool
wanted none = false
wanted (some b) = b

module _ (q : String × Bool → Bool) where
  not_selected :
      (ip : String) (m : List (String × Bool))
      → All (λ j. ip ≢ j) (keys m)
      → contains ip (keys (select_where q m)) ≡ false
  unfolding contains select_where
  not_selected ip [] h = refl
  not_selected ip (g ∷ m) h = ground (arith, eq_iff g.0 ip, h.0, not_selected ip m h.1)

abbrev passes : (String × Bool → Bool) → String → Option Bool → Bool
passes q ip none = false
passes q ip (some b) = q (ip, b)

-- the selected keys are those whose value passes
contains-selected :
    (q : String × Bool → Bool) (ip : String) (m : List (String × Bool))
    → HasUniqueKeys m
    → contains ip (keys (select_where q m)) ≡ passes q ip (lookup ip m)
unfolding contains select_where lookup
contains-selected q ip [] h = refl
contains-selected q ip ((j, b) ∷ m) h = elim (Bool-cases (j == ip)) [
  | inl e ↦
      let same : j ≡ ip = (eq_iff j ip).0 e in
      let gone = not_selected q ip m (subst (λ i. All (λ k. i ≢ k) (keys m)) same h.0) in
      ground (arith, gone, ap (λ i. q (i, b)) same)
  | inr e ↦ ground (arith, contains-selected q ip m h.1)
]

abbrev plan : List WhitelistEntry → List (String × Bool)
plan es = statuses (group_by_ip [] es)

wanted-map :
    (o : Option (List WhitelistEntry))
    → wanted (Option.map has_active o) ≡ has_active (Option.get_or o [])
unfolding any_where
wanted-map none = refl
wanted-map (some es) = refl

-- an address is wanted where one of its entries is active
wanted-plan :
    (ip : String) (es : List WhitelistEntry) → wanted (lookup ip (plan es)) ≡ is_desired ip es
unfolding lookup
wanted-plan ip es =
    ap wanted (lookup-statuses ip (group_by_ip [] es))
    ∙ wanted-map (lookup ip (group_by_ip [] es))
    ∙ ap has_active (group_of-group_by_ip ip [] es)
    ∙ has_active-select_where ip es

contains-ips_to_add :
    (ip : String) (current : List String) (m : List (String × Bool))
    → HasUniqueKeys m
    → contains ip (ips_to_add current m) ≡ (wanted (lookup ip m) && not (contains ip current))
unfolding ips_to_add
contains-ips_to_add ip current m h = contains-selected _ ip m h ∙ by_case (lookup ip m)
  where
    by_case :
        (o : Option Bool)
        → passes (λ g. g.1 && not (contains g.0 current)) ip o
          ≡ (wanted o && not (contains ip current))
    by_case none = refl
    by_case (some b) = refl

contains-ips_to_remove :
    (ip : String) (current : List String) (m : List (String × Bool))
    → contains ip (ips_to_remove current m) ≡ (contains ip current && not (wanted (lookup ip m)))
unfolding ips_to_remove
contains-ips_to_remove ip current m =
    contains-select_where ip _ current ∙ ap (λ b. contains ip current && b) (by_case (lookup ip m))
  where
    by_case : (o : Option Bool) → is_unwanted o ≡ not (wanted o)
    by_case none = refl
    by_case (some b) = refl

-- the addresses that the router holds after the update that syncAlias asks for
abbrev pub synced : List String → List WhitelistEntry → List String
synced current es =
    let present = dedupe current in
    new_ips current (ips_to_add present (plan es)) (ips_to_remove present (plan es))

-- Whatever addresses the router holds, the update that a sync asks for leaves exactly those that some
-- active entry of the alias has.
pub contains-synced :
    (ip : String) (current : List String) (es : List WhitelistEntry)
    → contains ip (synced current es) ≡ is_desired ip es
contains-synced ip current es =
    let unique : HasUniqueKeys (plan es) =
      statuses-HasUniqueKeys _ (group_by_ip-HasUniqueKeys [] es tt) in
    ground (
      arith,
      contains-new_ips ip current (ips_to_add (dedupe current) (plan es))
          (ips_to_remove (dedupe current) (plan es)),
      contains-ips_to_add ip (dedupe current) (plan es) unique,
      contains-ips_to_remove ip (dedupe current) (plan es),
      contains-dedupe ip current,
      wanted-plan ip es,
    )
