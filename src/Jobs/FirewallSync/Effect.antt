-- ===== src/Jobs/FirewallSync/Effect.antt =====
-- What a round of the synchronisation does to a router that does what it is told.
use dashboard_site.Common.{
  ◌≡◌, sym, ap, ◌∙◌, String, Bool, true, false, not, ◌&&◌, ◌||◌, List, [], ◌∷◌, arith, ◌==◌,
  contains, dedupe, select_where, All, Bool-cases, inl, inr,
}
use dashboard_site.Common.Keyed.{insert}
use dashboard_site.Models.Address.{Net, strip_cidr}
use dashboard_site.Models.Whitelist.{WhitelistEntry}
use dashboard_site.Storage.Sql.{Session}
use dashboard_site.Storage.Whitelist.Schema.{Tables}
use dashboard_site.Services.Firewall.{Router, update_alias}
use dashboard_site.Services.Firewall.Updating.{contains-new_ips}
use dashboard_site.Services.Firewall.Effect.{
  IsBare, strip_cidr-IsBare, IsFaithful, update_alias_effect,
}
use dashboard_site.Jobs.FirewallSync.{
  Groups, add_to_group, group_by_ip, statuses, ips_to_add, ips_to_remove, mark_pending,
  push_changes, sync_groups,
}
use dashboard_site.Jobs.FirewallSync.Groups.{keys, is_desired}
use dashboard_site.Jobs.FirewallSync.Plan.{contains-synced}

insert-IsBare :
    {V : Type 0} (k : String) (v : V) (m : List (String × V))
    → IsBare k
    → All IsBare (keys m)
    → All IsBare (keys (insert k v m))
unfolding insert
insert-IsBare k v [] b h = (b, tt)
insert-IsBare k v ((i, w) ∷ m) b h = elim (Bool-cases (i == k)) [
  | inl e ↦ rw e h
  | inr e ↦ rw e (h.0, insert-IsBare k v m b h.1)
]

group_by_ip-IsBare :
    (m : Groups) (es : List WhitelistEntry)
    → All IsBare (keys m)
    → All IsBare (keys (group_by_ip m es))
unfolding group_by_ip add_to_group
group_by_ip-IsBare m [] h = h
group_by_ip-IsBare m (e ∷ es) h =
    group_by_ip-IsBare (add_to_group m e) es
      (insert-IsBare (strip_cidr e.ip_address) _ m (strip_cidr-IsBare e.ip_address) h)

statuses-IsBare : (m : Groups) → All IsBare (keys m) → All IsBare (keys (statuses m))
unfolding statuses
statuses-IsBare [] h = tt
statuses-IsBare ((ip, es) ∷ m) h = (h.0, statuses-IsBare m h.1)

selected-IsBare :
    (q : String × Bool → Bool) (m : List (String × Bool))
    → All IsBare (keys m)
    → All IsBare (keys (select_where q m))
unfolding select_where
selected-IsBare q [] h = tt
selected-IsBare q (g ∷ m) h = elim (Bool-cases (q g)) [
  | inl e ↦ rw e (h.0, selected-IsBare q m h.1)
  | inr e ↦ rw e (selected-IsBare q m h.1)
]

ips_to_add-IsBare :
    (current : List String) (m : List (String × Bool))
    → All IsBare (keys m)
    → All IsBare (ips_to_add current m)
unfolding ips_to_add
ips_to_add-IsBare current m h = selected-IsBare _ m h

module _ (net : Net) (r : Router) (message uuid ip : String) (sys : String × String)
    (f : IsFaithful r) (groups : Groups) (s : Session Tables) (t : r.State) where
  pushed :
      (to_add to_remove : List String)
      → All IsBare to_add
      → (push_changes net r message uuid sys groups to_add to_remove (s, t)).0 ≡ true
      → contains ip
          (f.held uuid (push_changes net r message uuid sys groups to_add to_remove (s, t)).1.1)
        ≡ ((contains ip (f.held uuid t) && not (contains ip to_remove)) || contains ip to_add)
  unfolding push_changes contains
  pushed [] [] bare h = same (contains ip (f.held uuid t))
    where
      same : (b : Bool) → b ≡ (b && true) || false
      same b = ground arith
  pushed (i ∷ is) to_remove bare h =
      elim (Bool-cases (update_alias r uuid (i ∷ is) to_remove t).0) [
        | inl e ↦ rw e (update_alias_effect r f uuid ip (i ∷ is) to_remove t bare e)
        | inr e ↦ cc (rw e at h)
      ]
  pushed [] (i ∷ is) bare h = elim (Bool-cases (update_alias r uuid [] (i ∷ is) t).0) [
    | inl e ↦ rw e (update_alias_effect r f uuid ip [] (i ∷ is) t bare e)
    | inr e ↦ cc (rw e at h)
  ]

-- Where a sync of an alias succeeds, on a router that does what it is told and has shown the addresses
-- it holds, the router holds afterwards exactly the addresses that a requested or added entry of the
-- alias has.
pub sync_groups_effect :
    (net : Net) (r : Router) (message uuid ip : String) (sys : String × String) (f : IsFaithful r)
    (current : List String) (es : List WhitelistEntry) (s : Session Tables) (t : r.State)
    → contains ip current ≡ contains ip (f.held uuid t)
    → (sync_groups net r message uuid sys current (group_by_ip [] es) (s, t)).0 ≡ true
    → contains ip
        (f.held uuid (sync_groups net r message uuid sys current (group_by_ip [] es) (s, t)).1.1)
      ≡ is_desired ip es
unfolding sync_groups
sync_groups_effect net r message uuid ip sys f current es s t shown h =
    let groups = group_by_ip [] es in
    let to_add = ips_to_add (dedupe current) (statuses groups) in
    let to_remove = ips_to_remove (dedupe current) (statuses groups) in
    pushed net r message uuid ip sys f groups (mark_pending sys groups s) t to_add to_remove
      (ips_to_add-IsBare (dedupe current) (statuses groups)
        (statuses-IsBare groups (group_by_ip-IsBare [] es tt)))
      h
    ∙ ap (λ b. (b && not (contains ip to_remove)) || contains ip to_add) (sym shown)
    ∙ sym (contains-new_ips ip current to_add to_remove)
    ∙ contains-synced ip current es
