-- ===== src/Services/Firewall/Effect.antt =====
-- What UpdateAlias does to a router that does what it is told.
use dashboard_site.Common.{
  ◌≡◌, refl, ap, ◌∙◌, String, Bool, true, not, ◌&&◌, ◌||◌, Option, none, some, List, [], ◌∷◌, ◌++◌,
  map, eqb, contains, dedupe, dedupe_from, select_where, All, All-concat, Bool-cases, inl, inr,
}
use Prim.Native.Char.{code}
use mathlib.Core.Path.{ap₂}
use mathlib.Core.Option
use dashboard_site.Models.Address.{strip_cidr}
use dashboard_site.Services.Firewall.{
  Content, Router, get_selected_ips, put_all, new_ips, get_alias_ips, apply_lines, with_settings,
  change, update_alias,
}
use dashboard_site.Services.Firewall.Updating.{contains-new_ips}

-- an address without a mask
abbrev pub IsBare : String → Type 0
IsBare ip = strip_cidr ip ≡ ip

pub strip_cidr-IsBare : (s : String) → IsBare (strip_cidr s)
unfolding strip_cidr
strip_cidr-IsBare String.[] = refl
strip_cidr-IsBare (String.◌∷◌ c s) = elim (Bool-cases (eqb (code c) b'/')) [
  | inl e ↦ rw e refl
  | inr e ↦ rw (e, e) (ap (λ t. String.◌∷◌ c t) (strip_cidr-IsBare s))
]

select_where-IsBare :
    (p : String → Bool) (ips : List String) → All IsBare ips → All IsBare (select_where p ips)
unfolding select_where
select_where-IsBare p [] h = tt
select_where-IsBare p (ip ∷ ips) h = elim (Bool-cases (p ip)) [
  | inl e ↦ rw e (h.0, select_where-IsBare p ips h.1)
  | inr e ↦ rw e (select_where-IsBare p ips h.1)
]

dedupe_from-IsBare : (seen ips : List String) → All IsBare ips → All IsBare (dedupe_from seen ips)
unfolding dedupe_from
dedupe_from-IsBare seen [] h = tt
dedupe_from-IsBare seen (ip ∷ ips) h = elim (Bool-cases (contains ip seen)) [
  | inl e ↦ rw e (dedupe_from-IsBare seen ips h.1)
  | inr e ↦ rw e (h.0, dedupe_from-IsBare (ip ∷ seen) ips h.1)
]

put_all-IsBare : (m ips : List String) → All IsBare m → All IsBare ips → All IsBare (put_all m ips)
unfolding put_all
put_all-IsBare m [] h k = h
put_all-IsBare m (ip ∷ ips) h k = elim (Bool-cases (contains ip m)) [
  | inl e ↦ rw e (put_all-IsBare m ips h k.1)
  | inr e ↦ rw e (put_all-IsBare (m ++ ip ∷ []) ips (All-concat IsBare m ip h k.0) k.1)
]

new_ips-IsBare :
    (current to_add to_remove : List String)
    → All IsBare current
    → All IsBare to_add
    → All IsBare (new_ips current to_add to_remove)
unfolding new_ips dedupe
new_ips-IsBare current to_add to_remove h k =
    put_all-IsBare _ to_add (select_where-IsBare _ _ (dedupe_from-IsBare [] current h)) k

strip_each : (ips : List String) → All IsBare ips → map strip_cidr ips ≡ ips
strip_each [] h = refl
strip_each (ip ∷ ips) h = ap₂ ◌∷◌ h.0 (strip_each ips h.1)

selected-IsBare : (items : Content) → All IsBare (map (λ i. strip_cidr i.1.value) items)
selected-IsBare [] = tt
selected-IsBare (i ∷ is) = (strip_cidr-IsBare i.1.value, selected-IsBare is)

get_selected_ips-IsBare : (content : Content) → All IsBare (get_selected_ips content)
unfolding get_selected_ips
get_selected_ips-IsBare content = selected-IsBare _

-- A router whose aliases hold addresses: a GET shows those of the alias and changes nothing, a POST of
-- lines that succeeds leaves exactly these, and applying changes nothing.
pub record IsFaithful (r : Router) : Type 0 where
  pub held : String → r.State → List String
  pub shows :
      (uuid ip : String) (s : r.State) (content : Content)
      → (r.get_item uuid s).0 ≡ some content
      → contains ip (get_selected_ips content) ≡ contains ip (held uuid s)
  pub keeps : (uuid : String) (s : r.State) → held uuid (r.get_item uuid s).1 ≡ held uuid s
  pub writes :
      (uuid ip : String) (lines : List String) (s : r.State)
      → (r.set_item uuid lines s).0 ≡ true
      → contains ip (held uuid (r.set_item uuid lines s).1) ≡ contains ip lines
  pub applies : (uuid : String) (s : r.State) → held uuid (r.reconfigure s).1 ≡ held uuid s

module _ (r : Router) (f : IsFaithful r) (uuid ip : String) where
  lines_applied :
      (lines : List String) (s : r.State)
      → (apply_lines r uuid lines s).0 ≡ true
      → contains ip (f.held uuid (apply_lines r uuid lines s).1) ≡ contains ip lines
  unfolding apply_lines
  lines_applied lines s h = elim (Bool-cases (r.set_item uuid lines s).0) [
    | inl e ↦
        rw e (
          ap (contains ip) (f.applies uuid (r.set_item uuid lines s).1)
          ∙ f.writes uuid ip lines s e)
    | inr e ↦ cc (rw e at h)
  ]

  settings_applied :
      (lines : List String) (o : Option Content) (s : r.State)
      → (with_settings r uuid lines (o, s)).0 ≡ true
      → contains ip (f.held uuid (with_settings r uuid lines (o, s)).1) ≡ contains ip lines
  unfolding with_settings
  settings_applied lines none s h = cc
  settings_applied lines (some content) s h = lines_applied lines s h

  module _ (to_add to_remove : List String) (bare : All IsBare to_add) where
    changed :
        (o : Option Content) (s t : r.State)
        → (r.get_item uuid s).0 ≡ o
        → (change r uuid to_add to_remove (Option.map get_selected_ips o, t)).0 ≡ true
        → contains ip
            (f.held uuid (change r uuid to_add to_remove (Option.map get_selected_ips o, t)).1)
          ≡ ((contains ip (f.held uuid s) && not (contains ip to_remove)) || contains ip to_add)
    unfolding change
    changed none s t e h = cc
    changed (some content) s t e h =
        let current = get_selected_ips content in
        settings_applied (map strip_cidr (new_ips current to_add to_remove)) (r.get_item uuid t).0
          (r.get_item uuid t).1 h
        ∙ ap (contains ip) (
            strip_each _
              (new_ips-IsBare current to_add to_remove (get_selected_ips-IsBare content) bare))
        ∙ contains-new_ips ip current to_add to_remove
        ∙ ap (λ b. (b && not (contains ip to_remove)) || contains ip to_add)
            (f.shows uuid ip s content e)

-- Where UpdateAlias succeeds on a router that does what it is told, the alias holds afterwards what it
-- held before less what was to be removed, and what was to be added, which are addresses without
-- masks.
pub update_alias_effect :
    (r : Router) (f : IsFaithful r) (uuid ip : String) (to_add to_remove : List String)
    (s : r.State)
    → All IsBare to_add
    → (update_alias r uuid to_add to_remove s).0 ≡ true
    → contains ip (f.held uuid (update_alias r uuid to_add to_remove s).1)
      ≡ ((contains ip (f.held uuid s) && not (contains ip to_remove)) || contains ip to_add)
unfolding update_alias get_alias_ips
update_alias_effect r f uuid ip to_add to_remove s bare h =
    changed r f uuid ip to_add to_remove bare (r.get_item uuid s).0 s (r.get_item uuid s).1 refl h
