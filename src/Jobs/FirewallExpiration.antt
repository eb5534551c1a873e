-- ===== src/Jobs/FirewallExpiration.antt =====
-- internal/jobs/firewall_expiration_job.go
use dashboard_site.Common.{ℕ}
use dashboard_site.Storage.Sql.{Sql, ◌>>=◌}
use dashboard_site.Storage.Whitelist.Schema.{Tables}
use dashboard_site.Storage.Whitelist.Read.{get_system_user}
use dashboard_site.Storage.Whitelist.Write.{expire_old_ips}

-- One tick of the job: the number of entries that it expired.
unfoldable pub expire_old : Sql Tables ℕ
expire_old = do system ← get_system_user; expire_old_ips system.0 system.1
