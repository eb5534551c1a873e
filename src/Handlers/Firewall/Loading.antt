-- ===== src/Handlers/Firewall/Loading.antt =====
-- The entry that DELETERemoveIPEntry and DELETEBlacklistIPEntry read first.
use dashboard_site.Common.{
  ℕ, ◌≡◌, ◌≢◌, refl, sym, ap, ◌∙◌, subst, arith, Bool-cases, inl, inr, Bool, true, false, Option,
  none, some, List, find_where,
}
use dashboard_site.Models.Address.{Net}
use dashboard_site.Models.Whitelist.{
  WhitelistEntry, WhitelistEvent, WhitelistStatus, EntryView, is_active, is_blacklisted,
}
use dashboard_site.Storage.Sql.{Result, ok, err}
use dashboard_site.Storage.Sql.Ensures.{Ensures, Ensures-query, Ensures-bind, Ensures-pure}
use dashboard_site.Storage.Whitelist.Schema.{Tables, has_id}
use dashboard_site.Storage.Whitelist.Read.{
  as_text, or_missing, get_whitelist_entry_by_id, get_whitelist_events_by_entry,
}
use dashboard_site.Storage.Whitelist.Advancing.{At}
use dashboard_site.Config.{Config}
use dashboard_site.Models.Principal.{Principal}
use dashboard_site.Handlers.Http.{Check, pass, refuse}
use dashboard_site.Handlers.Firewall.{is_gone, check_path}

module _ (net : Net) (old : Tables) (now : ℕ) where
  -- an entry that was read
  abbrev pub Loaded : ℕ → Result EntryView → Tables → ℕ → Type 0
  Loaded n (ok v) t c =
      ((e : WhitelistEntry) × (find_where (has_id n) old.entries ≡ some e)
        × (v.entry ≡ as_text net e))
      × At old now t c
  Loaded n (err e) t c = At old now t c

  abbrev RowFound : ℕ → Result WhitelistEntry → Tables → ℕ → Type 0
  RowFound n (ok e) t c = (find_where (has_id n) old.entries ≡ some e) × At old now t c
  RowFound n (err e) t c = At old now t c

  row_found :
      (n : ℕ) (o : Option WhitelistEntry) (t : Tables) (c : ℕ)
      → find_where (has_id n) old.entries ≡ o
      → At old now t c
      → RowFound n (or_missing o) t c
  row_found n none t c e h = h
  row_found n (some x) t c e h = (e, h)

  pub load_ensures : (n : ℕ) → Ensures (At old now) (get_whitelist_entry_by_id net n) (Loaded n)
  unfolding get_whitelist_entry_by_id get_whitelist_events_by_entry
  load_ensures n =
      Ensures-bind (RowFound n) _ _
        (Ensures-query _ _ _
          (λ t c h.
            row_found n (find_where (has_id n) t.entries) t c
              (ap (λ u. find_where (has_id n) u.entries) (sym h.0)) h)
          (λ t c h. h))
        (λ e.
          Ensures-bind (λ (r : Result (List WhitelistEvent)) t c. RowFound n (ok e) t c) _ _
            (Ensures-query _ _ _ (λ t c h. h) (λ t c h. h))
            (λ vs. Ensures-pure _ (λ t c h. ((e, h.0, refl), h.1))) (λ x t c h. h.1))
        (λ x t c h. h)

module _ (net : Net) where
  pub not_blacklisted :
      (v : EntryView) (e : WhitelistEntry)
      → v.entry ≡ as_text net e
      → is_gone v.entry.status ≡ false
      → is_blacklisted e.status ≡ false
  not_blacklisted v e same h =
      let status : v.entry.status ≡ e.status = ap (λ d. d.status) same in
      by_case e.status (rw (← status) h)
    where
      by_case : (s : WhitelistStatus) → is_gone s ≡ false → is_blacklisted s ≡ false
      by_case WhitelistStatus.added k = refl
      by_case WhitelistStatus.requested k = refl
      by_case WhitelistStatus.removed k = refl
      by_case WhitelistStatus.removed_by_admin k = refl
      by_case WhitelistStatus.blacklisted_by_admin k = cc

  pub still_active :
      (v : EntryView) (e : WhitelistEntry)
      → v.entry ≡ as_text net e
      → is_gone v.entry.status ≡ false
      → is_active e.status ≡ true
  still_active v e same h =
      let status : v.entry.status ≡ e.status = ap (λ d. d.status) same in
      by_case e.status (rw (← status) h)
    where
      by_case : (s : WhitelistStatus) → is_gone s ≡ false → is_active s ≡ true
      by_case WhitelistStatus.added k = refl
      by_case WhitelistStatus.requested k = refl
      by_case WhitelistStatus.removed k = cc
      by_case WhitelistStatus.removed_by_admin k = cc
      by_case WhitelistStatus.blacklisted_by_admin k = cc

pass_value : Check (Principal × ℕ) → Principal × ℕ → Principal × ℕ
pass_value (pass a) b = a
pass_value (refuse n) b = b

pass-injective : (a b : Principal × ℕ) → pass a ≡ pass b → a ≡ b
unfolding pass_value
pass-injective a b h = ap (λ c. pass_value c b) h

refuse_pass : (n : ℕ) (a : Principal × ℕ) → refuse n ≢ pass a
refuse_pass n a h = cc

-- what a request meets that passes the checks on it alone
pub record IsPermitted (who : Option Principal) (allowed : Principal → Bool) (entry_id : Option ℕ)
    (p : Principal) (n : ℕ) : Type 0 where
  pub known : who ≡ some p
  pub named : entry_id ≡ some n
  pub scoped : allowed p ≡ true

pub check_path-IsPermitted :
    (cfg : Config) (who : Option Principal) (allowed : Principal → Bool) (entry_id : Option ℕ)
    (q : Principal × ℕ)
    → check_path cfg who allowed entry_id ≡ pass q
    → IsPermitted who allowed entry_id q.0 q.1
unfolding check_path
check_path-IsPermitted cfg none allowed entry_id q h = cc
check_path-IsPermitted cfg (some p) allowed none q h = ground arith
check_path-IsPermitted cfg (some p) allowed (some n) q h = elim (Bool-cases (allowed p)) [
  | inl e ↦
      let same : q ≡ (p, n) = pass-injective q (p, n) (sym h ∙ rw e refl) in
      subst (λ x. IsPermitted (some p) allowed (some n) x.0 x.1) (sym same)
        (record { known = refl; named = refl; scoped = e })
  | inr e ↦ absurd (refuse_pass 403 q (sym (rw e refl) ∙ h))
]
