-- ===== src/Tests/System.antt =====
-- The theorems of whole requests and of sequences of them, at a small table.
use dashboard_site.Common.{
  String, ◌≡◌, refl, true, false, none, some, List, [], ◌∷◌, arith, map, any_where,
}
use dashboard_site.Models.Whitelist.{WhitelistStatus}
use dashboard_site.Storage.Sql.{Session}
use dashboard_site.Storage.Whitelist.Schema.{Tables, constraints}
use dashboard_site.Storage.Whitelist.Read.{blacklisted_at}
use dashboard_site.Storage.Whitelist.Soundness.{IsSound}
use dashboard_site.Storage.Whitelist.Blacklist.{IsClean, IsBarred}
use dashboard_site.Services.Firewall.{Router}
use dashboard_site.Handlers.Firewall.{delete_remove_ip_entry, delete_blacklist_ip_entry}
use dashboard_site.Handlers.Firewall.Removing.{Removed, delete_outcome}
use dashboard_site.Handlers.Firewall.Blacklisting.{Banned, blacklist_outcome}
use dashboard_site.System.{Action, Round, serve_all}
use dashboard_site.System.Safety.{serve_all-IsBarred}
use dashboard_site.Tests.Network.{plain}
use dashboard_site.Tests.Whitelist.{entry, sample, sample-IsSound}
use dashboard_site.Tests.Examples.{settings, browser, request}

delete_outcome_example :
    Removed settings browser
      (some 1)
      sample.tables
      20
      (delete_remove_ip_entry plain settings browser (some 1) sample).0
      (delete_remove_ip_entry plain settings browser (some 1) sample).1.tables
delete_outcome_example = delete_outcome plain settings browser (some 1) sample

blacklist_outcome_example :
    Banned plain settings browser
      (some 2)
      none
      sample.tables
      20
      (delete_blacklist_ip_entry plain settings browser (some 2) none sample).0
      (delete_blacklist_ip_entry plain settings browser (some 2) none sample).1.tables
blacklist_outcome_example =
    blacklist_outcome plain settings browser (some 2) none 3 sample sample-IsSound

-- a router that holds the addresses of one alias
abbrev box : Router
box = record {
  State = List String;
  get_item = λ uuid held. (some (map (λ ip. (ip, record { value = ip; selected = 1 })) held), held);
  set_item = λ uuid lines held. (true, lines);
  reconfigure = λ held. (true, held);
}

abbrev banned : Session Tables
banned = record {
  tables = record {
    entries = entry 1 "10.0.0.3" WhitelistStatus.blacklisted_by_admin ∷ [];
    events = [];
    next_id = 2;
    next_event_id = 1;
    users = record { iss = "iss"; sub = "system"; is_system = true } ∷ [];
    accounts = [];
  };
  clock = 20;
  faults = [];
}

banned-IsSound : IsSound 2 banned.tables
unfolding constraints
banned-IsSound = record {
  grown = omega arith;
  fresh = omega arith;
  distinct = omega arith;
  constrained = refl;
  linked = tt;
}

-- its one entry is not active
banned-IsClean : IsClean banned.tables.entries
unfolding any_where
banned-IsClean uuid ip h = ground arith

banned_listed : any_where (blacklisted_at "u1" "10.0.0.3") banned.tables.entries ≡ true
unfolding any_where
banned_listed = refl

abbrev rounds : List Round
rounds =
    record { action = Action.post browser (some request); clock = 30; faults = [] }
    ∷ record { action = Action.remove browser (some 1); clock = 31; faults = [] }
    ∷ record { action = Action.sync "no route"; clock = 40; faults = false ∷ true ∷ [] }
    ∷ record { action = Action.expire; clock = 50; faults = [] }
    ∷ []

serve_all-IsBarred_example :
    IsBarred "u1" "10.0.0.3"
      (serve_all plain settings box rounds (banned, "10.0.0.3" ∷ [])).0.tables.entries
serve_all-IsBarred_example =
    serve_all-IsBarred plain settings box 2 rounds banned ("10.0.0.3" ∷ []) "u1" "10.0.0.3"
      banned-IsSound banned-IsClean banned_listed
