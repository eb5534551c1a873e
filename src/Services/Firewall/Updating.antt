-- ===== src/Services/Firewall/Updating.antt =====
-- The addresses that UpdateAlias writes.
use dashboard_site.Common.{
  ◌≡◌, ap, String, not, ◌&&◌, ◌||◌, List, [], ◌∷◌, arith, eq_iff, ◌==◌, contains, contains-append,
  contains-select_where, contains-dedupe, Bool-cases, inl, inr, select_where, dedupe,
}
use dashboard_site.Services.Firewall.{put, put_all, new_ips}

contains-put : (s ip : String) (m : List String) → contains s (put m ip) ≡ (contains s m || ip == s)
unfolding contains
contains-put s ip m = elim (Bool-cases (ip == s)) [
  | inl e ↦
      let same : ip ≡ s = (eq_iff ip s).0 e in
      ground (arith, contains-append s m (ip ∷ []), ap (λ x. contains x m) same)
  | inr e ↦ ground (arith, contains-append s m (ip ∷ []))
]

contains-put_all :
    (s : String) (m ips : List String)
    → contains s (put_all m ips) ≡ (contains s m || contains s ips)
unfolding put_all contains
contains-put_all s m [] = ground arith
contains-put_all s m (ip ∷ ips) =
    ground (arith, contains-put_all s (put m ip) ips, contains-put s ip m)

-- What is added is there, what is removed and not added is gone, and all else is as it was.
pub contains-new_ips :
    (s : String) (current to_add to_remove : List String)
    → contains s (new_ips current to_add to_remove)
      ≡ ((contains s current && not (contains s to_remove)) || contains s to_add)
unfolding new_ips
contains-new_ips s current to_add to_remove = ground (
  arith,
  contains-put_all s (select_where (λ ip. not (contains ip to_remove)) (dedupe current)) to_add,
  contains-select_where s (λ ip. not (contains ip to_remove)) (dedupe current),
  contains-dedupe s current,
)
