-- ===== src/Tests/Examples.antt =====
-- The theorems of the storage and of the handlers at a small table.
use dashboard_site.Common.{true, false, ◌≡◌, ◌⊎◌, none, some, [], ◌∷◌}
use dashboard_site.Common.Int.{pos}
use dashboard_site.Config.{Config}
use dashboard_site.Models.Address.{inet_value}
use dashboard_site.Models.Principal.{User, user, has_scope}
use dashboard_site.Models.Principal.Granting.{is_granted, has_scope_by_groups}
use dashboard_site.Storage.Whitelist.Write.{NewEntry, add_ip_to_whitelist}
use dashboard_site.Storage.Whitelist.Adding.{IsUnchanged}
use dashboard_site.Storage.Whitelist.Adding.Outcome.{Outcome, add_ip_to_whitelist_atomic}
use dashboard_site.Handlers.Firewall.{Caller, AddRequest, post_add_ip_entry}
use dashboard_site.Handlers.Firewall.Posting.{Posted, post_outcome}
use dashboard_site.Handlers.Firewall.Posting.Counting.{IsWithinLimits, post-IsWithinLimits}
use dashboard_site.Tests.Network.{plain}
use dashboard_site.Tests.Whitelist.{sample, sample-IsSound}

abbrev pub laptop : NewEntry
laptop = record {
  owner_iss = "iss";
  owner_sub = "ann";
  alias_name = "home";
  alias_uuid = "u1";
  ip_address = "10.0.0.3";
  description = "laptop";
  expires_at = some 100;
}

abbrev pub ann : User
ann = record {
  sub = "ann";
  iss = "iss";
  username = "ann";
  display_name = "Ann";
  email = "";
  groups = "home" ∷ [];
  is_system = false;
}

abbrev pub settings : Config
settings = record {
  group_scopes =
      ("home", "firewall:request:own" ∷ "firewall:revoke:own" ∷ "firewall:blacklist" ∷ []) ∷ [];
  aliases =
      record {
        name = "home";
        uuid = "u1";
        description = "";
        max_ips_per_user = 3;
        max_total_ips = 10;
        default_ttl = none;
        auth_group = "home";
      }
      ∷ [];
  storage_enabled = true;
  external_url = "iss";
  min_certificate_validity_days = pos 1;
  max_certificate_validity_days = pos 365;
}

abbrev pub browser : Caller
browser = record {
  principal = some (user ann);
  remote_host = some "10.0.0.9";
  user_agent = "firefox";
}

abbrev pub request : AddRequest
request = record { alias_name = "home"; ip_address = "10.0.0.3"; description = "" }

add_ip_to_whitelist_atomic_example :
    Outcome plain laptop
      (inet_value "10.0.0.9")
      none
      sample.tables
      20
      (add_ip_to_whitelist plain laptop (inet_value "10.0.0.9") none sample).0
      (add_ip_to_whitelist plain laptop (inet_value "10.0.0.9") none sample).1.tables
add_ip_to_whitelist_atomic_example =
    add_ip_to_whitelist_atomic plain laptop (inet_value "10.0.0.9") none 3 sample sample-IsSound

post_outcome_example :
    Posted plain settings browser
      (some request)
      sample.tables
      20
      (post_add_ip_entry plain settings browser (some request) sample).0
      (post_add_ip_entry plain settings browser (some request) sample).1.tables
post_outcome_example = post_outcome plain settings browser (some request) 3 sample sample-IsSound

post-IsWithinLimits_example :
    IsUnchanged sample.tables
      (post_add_ip_entry plain settings browser (some request) sample).1.tables
    ⊎ IsWithinLimits plain settings browser
        (some request)
        sample.tables
        (post_add_ip_entry plain settings browser (some request) sample).1.tables
post-IsWithinLimits_example =
    post-IsWithinLimits plain settings browser (some request) 3 sample sample-IsSound

has_scope_by_groups_example :
    has_scope settings (user ann) "firewall:blacklist"
    ≡ is_granted settings "firewall:blacklist" ("home" ∷ [])
has_scope_by_groups_example = has_scope_by_groups settings ann "firewall:blacklist"
