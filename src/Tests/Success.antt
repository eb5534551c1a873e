-- ===== src/Tests/Success.antt =====
-- The theorems on requests that succeed, at a small table.
use dashboard_site.Common.{
  ◌≡◌, suc, ◌&&◌, ◌==◌, [], ◌∷◌, ◌++◌, refl, true, false, none, some, arith, any_where, count_where,
  contains, find_where, trim_space, dedupe, flat_map,
}
use dashboard_site.Common.Keyed.{lookup}
use dashboard_site.Models.Address.{strip_cidr, inet_null}
use dashboard_site.Models.Principal.{has_scope, get_scopes, user_scopes, map_group_to_scopes}
use dashboard_site.Storage.Sql.{ok}
use dashboard_site.Storage.Sql.Calm.{calm}
use dashboard_site.Storage.Whitelist.Read.{duplicates}
use dashboard_site.Storage.Whitelist.Write.{add_ip_to_whitelist}
use dashboard_site.Storage.Whitelist.Adding.{stored_row, requested_event}
use dashboard_site.Storage.Whitelist.Adding.Storing.{
  IsStorable, view_of, add_ip_to_whitelist_stores,
}
use dashboard_site.Handlers.Http.{pass, success}
use dashboard_site.Handlers.Firewall.{Accepted, check_add, post_add_ip_entry}
use dashboard_site.Handlers.Firewall.Limits.{HasRoom, posted_row, posted_event}
use dashboard_site.Handlers.Firewall.Succeeding.{post_succeeds}
use dashboard_site.Tests.Network.{plain, whole}
use dashboard_site.Tests.Whitelist.{sample, sample-IsSound}
use dashboard_site.Tests.Examples.{laptop, ann, settings, browser, request}

laptop-IsStorable : IsStorable plain laptop inet_null none sample.tables 20 "10.0.0.3"
unfolding whole strip_cidr any_where
laptop-IsStorable = record {
  accepted = refl;
  registered = refl;
  parsed = refl;
  free = refl;
  named_iss = refl;
  named_sub = refl;
  later = refl;
}

add_ip_to_whitelist_stores_example :
    add_ip_to_whitelist plain laptop inet_null none (calm sample.tables 20) ≡ (
      ok (
          view_of plain
            (stored_row laptop "10.0.0.3" sample.tables.next_id 20)
            (requested_event plain laptop inet_null none sample.tables 20)),
      calm
          (record sample.tables {
            entries =
                sample.tables.entries ++ stored_row laptop "10.0.0.3" sample.tables.next_id 20 ∷ [];
            next_id = suc sample.tables.next_id;
            events =
                sample.tables.events
                ++ requested_event plain laptop inet_null none sample.tables 20 ∷ [];
            next_event_id = suc sample.tables.next_event_id;
          })
          20,
    )
add_ip_to_whitelist_stores_example =
    add_ip_to_whitelist_stores plain laptop inet_null none sample.tables 20 3 "10.0.0.3"
      sample-IsSound laptop-IsStorable

abbrev accepted : Accepted
accepted = record {
  requester = ann;
  alias = record {
    name = "home";
    uuid = "u1";
    description = "";
    max_ips_per_user = 3;
    max_total_ips = 10;
    default_ttl = none;
    auth_group = "home";
  };
  address = "10.0.0.3";
  description = "";
}

passes : check_add plain settings browser.principal (some request) ≡ pass accepted
unfolding check_add whole strip_cidr trim_space contains find_where has_scope get_scopes user_scopes
    map_group_to_scopes dedupe flat_map lookup
passes = refl

roomy : HasRoom accepted sample.tables
unfolding any_where count_where
roomy = record { free = refl; user_room = omega arith; total_room = omega arith }

free_address : any_where (duplicates "iss" "ann" "u1" "10.0.0.3") sample.tables.entries ≡ false
unfolding any_where
free_address = refl

ann_there : any_where (λ u. u.iss == "iss" && u.sub == "ann") sample.tables.users ≡ true
unfolding any_where
ann_there = refl

post_succeeds_example :
    post_add_ip_entry plain settings browser (some request) (calm sample.tables 20) ≡ (
      success (
          view_of plain (posted_row accepted sample.tables.next_id 20) (
            posted_event plain browser accepted sample.tables.next_event_id sample.tables.next_id
              20)),
      calm
          (record sample.tables {
            entries = sample.tables.entries ++ posted_row accepted sample.tables.next_id 20 ∷ [];
            next_id = suc sample.tables.next_id;
            events =
                sample.tables.events
                ++ posted_event plain browser accepted sample.tables.next_event_id
                    sample.tables.next_id 20
                  ∷ [];
            next_event_id = suc sample.tables.next_event_id;
          })
          20,
    )
unfolding whole strip_cidr
post_succeeds_example =
    post_succeeds plain settings browser (some request) accepted sample.tables 20 3 sample-IsSound
      passes roomy free_address ann_there refl refl refl refl
