-- ===== src/Jobs/FirewallSync/Groups.antt =====
-- The groups of a list of entries by address.
use dashboard_site.Common.{
  String, ◌≡◌, ◌≢◌, inl, inr, refl, sym, ap, ◌∙◌, Bool, ◌&&◌, List, [], ◌∷◌, ◌++◌, map, arith, ◌==◌,
  eq_iff, All, AllPairs, select_where, any_where, Bool-cases,
}
use dashboard_site.Common.Keyed.{lookup, insert, lookup-insert}
use mathlib.Core.Option
use mathlib.Core.List.{append_assoc, append-nil, map-map}
use dashboard_site.Models.Address.{strip_cidr}
use dashboard_site.Models.Whitelist.{WhitelistEntry, is_active}
use dashboard_site.Jobs.FirewallSync.{Groups, add_to_group, group_by_ip, has_active, statuses}

abbrev pub keys {ℓ} : {V : Type ℓ} → List (String × V) → List String
keys = map (λ g. g.0)

abbrev pub HasUniqueKeys {ℓ} : {V : Type ℓ} → List (String × V) → Type 0
HasUniqueKeys m = AllPairs (λ j k. j ≢ k) (keys m)

module _ {V : Type 0} where
  insert-apart :
      (j k : String) (v : V) (m : List (String × V))
      → j ≢ k
      → All (λ i. j ≢ i) (keys m)
      → All (λ i. j ≢ i) (keys (insert k v m))
  unfolding insert
  insert-apart j k v [] ne h = (ne, tt)
  insert-apart j k v ((i, w) ∷ m) ne h = elim (Bool-cases (i == k)) [
    | inl e ↦ rw e h
    | inr e ↦ rw e (h.0, insert-apart j k v m ne h.1)
  ]

  insert-HasUniqueKeys :
      (k : String) (v : V) (m : List (String × V)) → HasUniqueKeys m → HasUniqueKeys (insert k v m)
  unfolding insert
  insert-HasUniqueKeys k v [] h = (tt, tt)
  insert-HasUniqueKeys k v ((i, w) ∷ m) h = elim (Bool-cases (i == k)) [
    | inl e ↦ rw e h
    | inr e ↦
        let other : i ≢ k = λ x. cc ((eq_iff i k).1 x) in
        rw e (insert-apart i k v m other h.0, insert-HasUniqueKeys k v m h.1)
  ]

pub group_by_ip-HasUniqueKeys :
    (m : Groups) (es : List WhitelistEntry) → HasUniqueKeys m → HasUniqueKeys (group_by_ip m es)
unfolding group_by_ip add_to_group
group_by_ip-HasUniqueKeys m [] h = h
group_by_ip-HasUniqueKeys m (e ∷ es) h =
    group_by_ip-HasUniqueKeys (add_to_group m e) es (insert-HasUniqueKeys _ _ m h)

abbrev pub at_ip : String → WhitelistEntry → Bool
at_ip ip e = strip_cidr e.ip_address == ip

-- the entries of an address, as if each address had a group
abbrev pub group_of : String → Groups → List WhitelistEntry
group_of ip m = Option.get_or (lookup ip m) []

group_of-add :
    (ip : String) (m : Groups) (e : WhitelistEntry)
    → group_of ip (add_to_group m e) ≡ group_of ip m ++ select_where (at_ip ip) (e ∷ [])
unfolding add_to_group select_where
group_of-add ip m e = elim (Bool-cases (strip_cidr e.ip_address == ip)) [
  | inl h ↦
      let same : strip_cidr e.ip_address ≡ ip = (eq_iff _ _).0 h in rw (lookup-insert, h) (rw same)
  | inr h ↦ rw (lookup-insert, h) (sym (append-nil _))
]

select_where-cons :
    (ip : String) (e : WhitelistEntry) (es : List WhitelistEntry)
    → select_where (at_ip ip) (e ∷ []) ++ select_where (at_ip ip) es
      ≡ select_where (at_ip ip) (e ∷ es)
unfolding select_where
select_where-cons ip e es = elim (Bool-cases (at_ip ip e)) [ inl h ↦ rw h | inr h ↦ rw h ]

-- Each group holds the entries of its address, in their order.
pub group_of-group_by_ip :
    (ip : String) (m : Groups) (es : List WhitelistEntry)
    → group_of ip (group_by_ip m es) ≡ group_of ip m ++ select_where (at_ip ip) es
unfolding group_by_ip select_where
group_of-group_by_ip ip m [] = sym (append-nil _)
group_of-group_by_ip ip m (e ∷ es) =
    group_of-group_by_ip ip (add_to_group m e) es
    ∙ ap (λ l. l ++ select_where (at_ip ip) es) (group_of-add ip m e)
    ∙ append_assoc (group_of ip m) _ _
    ∙ ap (λ l. group_of ip m ++ l) (select_where-cons ip e es)

pub lookup-statuses :
    (ip : String) (m : Groups) → lookup ip (statuses m) ≡ Option.map has_active (lookup ip m)
unfolding lookup statuses
lookup-statuses ip [] = refl
lookup-statuses ip ((j, es) ∷ m) = ground (arith, lookup-statuses ip m)

pub statuses-HasUniqueKeys : (m : Groups) → HasUniqueKeys m → HasUniqueKeys (statuses m)
unfolding statuses
statuses-HasUniqueKeys m h = rw (map-map _ _ m) h

-- an active entry of the address
abbrev pub is_desired : String → List WhitelistEntry → Bool
is_desired ip = any_where (λ e. at_ip ip e && is_active e.status)

pub has_active-select_where :
    (ip : String) (es : List WhitelistEntry)
    → has_active (select_where (at_ip ip) es) ≡ is_desired ip es
unfolding any_where select_where
has_active-select_where ip [] = refl
has_active-select_where ip (e ∷ es) = ground (arith, has_active-select_where ip es)
