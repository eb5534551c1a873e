-- ===== src/Storage/Whitelist/Blacklist/Entering.antt =====
-- New rows and newly blacklisted rows.
use dashboard_site.Common.{
  ℕ, ◌<◌, length, ◌≡◌, ◌≢◌, refl, subst, String, true, false, ◌&&◌, List, [], ◌∷◌, ◌++◌, arith,
  eq_iff, ◌==◌, AllPairs, any_where, any_where-append, select_where, update_where,
  any_where-update_mono, any_where-update_grow, update_where-congr, key_in-selected, Bool-cases,
  inl, inr,
}
use dashboard_site.Models.Whitelist.{WhitelistEntry}
use dashboard_site.Storage.Whitelist.Read.{blacklisted_at}
use dashboard_site.Storage.Whitelist.Write.{
  ids, has_id_in, set_blacklisted, blacklistable, NewEntry, requested_entry,
}
use dashboard_site.Storage.Whitelist.Blacklist.{active_address, IsClean, IsLawful, contra}

module _ (uuid ip iss sub reason : String) (now : ℕ) where
  abbrev blacklisted : WhitelistEntry → WhitelistEntry
  blacklisted = set_blacklisted iss sub reason now

  abbrev after : List WhitelistEntry → List WhitelistEntry
  after = update_where (blacklistable uuid ip) blacklisted

  -- no active row is left at the address
  pub none_active :
      (es : List WhitelistEntry) → any_where (active_address uuid ip) (after es) ≡ false
  unfolding any_where update_where
  none_active [] = refl
  none_active (e ∷ es) = ground (arith, none_active es)

  -- where the SELECT finds a row, the address is blacklisted afterwards
  pub some_listed :
      (es : List WhitelistEntry)
      → 0 < length (ids (select_where (blacklistable uuid ip) es))
      → any_where (blacklisted_at uuid ip) (after es) ≡ true
  unfolding any_where update_where select_where
  some_listed [] h = absurd (omega (arith, h))
  some_listed (e ∷ es) h = elim (Bool-cases (blacklistable uuid ip e)) [
    | inl chosen ↦ ground arith
    | inr other ↦ ground (arith, some_listed es (rw other at h))
  ]

  elsewhere :
      (u i : String) (es : List WhitelistEntry)
      → (u == uuid && i == ip) ≡ false
      → any_where (blacklisted_at u i) (after es) ≡ true
      → any_where (blacklisted_at u i) es ≡ true
  elsewhere u i es other =
      any_where-update_mono (blacklisted_at u i) (blacklistable uuid ip) blacklisted
        (λ e p h. ground (
          arith,
          eq_iff e.alias_uuid uuid,
          eq_iff e.ip_address ip,
          eq_iff e.alias_uuid u,
          eq_iff e.ip_address i,
          eq_iff u uuid,
          eq_iff i ip,
        ))
        es

  IsClean-after : (es : List WhitelistEntry) → IsClean es → IsClean (after es)
  IsClean-after es c u i h = elim (Bool-cases (u == uuid && i == ip)) [
    | inl here ↦
        let same_uuid : u ≡ uuid = ground (arith, eq_iff u uuid) in
        let same_ip : i ≡ ip = ground (arith, eq_iff i ip) in
        rw (same_uuid, same_ip) (none_active es)
    | inr there ↦
        contra _ _
          (any_where-update_mono (active_address u i) (blacklistable uuid ip) blacklisted
            (λ e p k. ground arith) es)
          (c u i (elsewhere u i es there h))
  ]

  pub blacklist_rows : (es : List WhitelistEntry) → IsLawful es (after es)
  blacklist_rows es = record {
    stays = λ u i.
        any_where-update_grow (blacklisted_at u i) (blacklistable uuid ip) blacklisted
          (λ e p h. ground arith) es;
    clean = IsClean-after es;
  }

  -- The ids that the SELECT found are those of the rows at the address that are not yet blacklisted.
  pub found_rows :
      (es : List WhitelistEntry)
      → AllPairs (λ m n. m ≢ n) (ids es)
      → update_where (has_id_in (ids (select_where (blacklistable uuid ip) es))) blacklisted es
        ≡ after es
  found_rows es distinct =
      update_where-congr _ (blacklistable uuid ip) blacklisted es
        (key_in-selected (λ e. e.id) (blacklistable uuid ip) es distinct)

  pub blacklist-IsLawful :
      (es : List WhitelistEntry)
      → AllPairs (λ m n. m ≢ n) (ids es)
      → IsLawful es
          (update_where (has_id_in (ids (select_where (blacklistable uuid ip) es))) blacklisted es)
  blacklist-IsLawful es distinct = rw (found_rows es distinct) (blacklist_rows es)

module _ (a : NewEntry) (ip : String) (n now : ℕ) where
  abbrev row : WhitelistEntry
  row = requested_entry a ip n now

  -- a new row at an address that is not blacklisted
  pub insert-IsLawful :
      (es : List WhitelistEntry)
      → any_where (blacklisted_at a.alias_uuid ip) es ≡ false
      → IsLawful es (es ++ row ∷ [])
  unfolding any_where
  insert-IsLawful es free = record {
    stays = λ u i h. rw (any_where-append (blacklisted_at u i) es (row ∷ []), h);
    clean = λ c u i h.
        let before : any_where (blacklisted_at u i) es ≡ true =
          ground (arith, any_where-append (blacklisted_at u i) es (row ∷ [])) in
        let idle = c u i before in
        elim (Bool-cases (a.alias_uuid == u && ip == i)) [
          | inl here ↦
              let same_uuid : a.alias_uuid ≡ u = ground (arith, eq_iff a.alias_uuid u) in
              let same_ip : ip ≡ i = ground (arith, eq_iff ip i) in
              cc (
                subst (λ x. any_where (blacklisted_at x i) es ≡ false) same_uuid
                  (subst (λ x. any_where (blacklisted_at a.alias_uuid x) es ≡ false) same_ip free))
          | inr there ↦ ground (arith, any_where-append (active_address u i) es (row ∷ []))
        ];
  }
