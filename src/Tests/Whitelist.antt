-- ===== src/Tests/Whitelist.antt =====
-- The whitelist.
use dashboard_site.Common.{ℕ, refl, String, false, none, [], ◌∷◌, arith}
use dashboard_site.Models.Whitelist.{WhitelistEntry, WhitelistStatus}
use dashboard_site.Storage.Sql.{Session}
use dashboard_site.Storage.Whitelist.Schema.{Tables, constraints}
use dashboard_site.Storage.Whitelist.Soundness.{IsSound}

abbrev pub entry : ℕ → String → WhitelistStatus → WhitelistEntry
entry n ip status = record {
  id = n;
  owner_iss = "iss";
  owner_sub = "ann";
  alias_name = "home";
  alias_uuid = "u1";
  ip_address = ip;
  description = "";
  status = status;
  requested_at = 10;
  added_at = none;
  removed_at = none;
  expires_at = none;
  removed_by_iss = none;
  removed_by_sub = none;
  removal_reason = none;
}

abbrev pub sample : Session Tables
sample = record {
  tables = record {
    entries =
        entry 1 "10.0.0.1" WhitelistStatus.added
        ∷ entry 2 "10.0.0.2" WhitelistStatus.requested
        ∷ [];
    events = [];
    next_id = 3;
    next_event_id = 1;
    users = record { iss = "iss"; sub = "ann"; is_system = false } ∷ [];
    accounts = [];
  };
  clock = 20;
  faults = [];
}

pub sample-IsSound : IsSound 3 sample.tables
unfolding constraints
sample-IsSound = record {
  grown = omega arith;
  fresh = omega arith;
  distinct = omega arith;
  constrained = refl;
  linked = tt;
}
