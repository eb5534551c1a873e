-- ===== src/Storage/Whitelist/Blacklist/Barring.antt =====
-- BlacklistIPAddress is lawful.
use dashboard_site.Common.{ℕ, ◌≡◌, ◌≢◌, sym, subst, String, AllPairs}
use dashboard_site.Models.Address.{Net}
use dashboard_site.Storage.Sql.{Result, ok, err}
use dashboard_site.Storage.Sql.Ensures.{Ensures}
use dashboard_site.Storage.Whitelist.Schema.{Tables}
use dashboard_site.Storage.Whitelist.Write.{ids, blacklist_ip_address}
use dashboard_site.Storage.Whitelist.Blacklist.{IsLawful, IsLawful-refl}
use dashboard_site.Storage.Whitelist.Blacklist.Entering.{blacklist_rows}
use dashboard_site.Storage.Whitelist.Blacklist.Address.{Blacklisting, blacklist_ip_address_ensures}

module _ (old : Tables) (net : Net) (now : ℕ) (uuid ip iss sub reason : String)
    (distinct : AllPairs (λ m k. m ≢ k) (ids old.entries)) where
  Blacklisting-IsLawful :
      (r : Result ℕ) (t : Tables) (c : ℕ)
      → Blacklisting old now net uuid ip iss sub reason distinct r t c
      → IsLawful old.entries t.entries
  Blacklisting-IsLawful (ok n) t c h =
      subst (IsLawful old.entries) (sym h.changed)
        (blacklist_rows uuid h.address iss sub reason now old.entries)
  Blacklisting-IsLawful (err e) t c h =
      subst (IsLawful old.entries) (sym h) (IsLawful-refl old.entries)

  pub blacklist_address_ensures :
      Ensures
        (λ t c. (t ≡ old) × (c ≡ now))
        (blacklist_ip_address net uuid ip iss sub reason)
        (λ r t c. IsLawful old.entries t.entries)
  blacklist_address_ensures = record {
    at = λ s h.
        Blacklisting-IsLawful (blacklist_ip_address net uuid ip iss sub reason s).0
          (blacklist_ip_address net uuid ip iss sub reason s).1.tables
          (blacklist_ip_address net uuid ip iss sub reason s).1.clock
          ((blacklist_ip_address_ensures old now net uuid ip iss sub reason distinct).at s h);
  }
