-- ===== src/Config.antt =====
-- internal/config/schema.go: the settings that the modelled handlers and jobs read. Durations are
-- numbers of nanoseconds; Validate refuses limits below 1 and a default_ttl below an hour, so
-- natural numbers serve.
use dashboard_site.Common.{ℕ, String, Bool, Option, List}
use dashboard_site.Common.Int.{ℤ}

pub record FirewallAliasConfig : Type 0 where
  pub name : String
  pub uuid : String
  pub description : String
  pub max_ips_per_user : ℕ
  pub max_total_ips : ℕ
  pub default_ttl : Option ℕ
  pub auth_group : String

-- authorization.group_scopes, features.firewall_management.aliases, storage.enabled,
-- server.external_url, and of features.mtls_management the bounds of a certificate's validity
pub record Config : Type 0 where
  pub group_scopes : List (String × List String)
  pub aliases : List FirewallAliasConfig
  pub storage_enabled : Bool
  pub external_url : String
  pub min_certificate_validity_days : ℤ
  pub max_certificate_validity_days : ℤ
