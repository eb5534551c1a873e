-- ===== src/Tests/Sync.antt =====
-- The theorems of the synchronisation at a small alias.
use dashboard_site.Common.{String, ◌≡◌, List, [], ◌∷◌, contains}
use dashboard_site.Models.Whitelist.{WhitelistEntry, WhitelistStatus}
use dashboard_site.Jobs.FirewallSync.Groups.{is_desired}
use dashboard_site.Jobs.FirewallSync.Plan.{synced, contains-synced}
use dashboard_site.Tests.Whitelist.{entry}

abbrev current : List String
current = "10.0.0.1" ∷ "10.0.0.7" ∷ []

abbrev stored : List WhitelistEntry
stored =
    entry 1 "10.0.0.1" WhitelistStatus.removed ∷ entry 2 "10.0.0.2" WhitelistStatus.requested ∷ []

contains-synced_example : contains "10.0.0.2" (synced current stored) ≡ is_desired "10.0.0.2" stored
contains-synced_example = contains-synced "10.0.0.2" current stored
