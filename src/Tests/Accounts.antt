-- ===== src/Tests/Accounts.antt =====
-- The theorems on service accounts at small tables.
use dashboard_site.Common.{
  ◌≡◌, inl, inr, refl, true, false, none, some, List, [], ◌∷◌, arith, ◌≤◌, any_where, select_where,
  count_where, contains,
}
use dashboard_site.Common.Int.{pos}
use dashboard_site.Common.{
  ap, find_where, sort_by, insert_by, count_where, update_where, flat_map, trim_space, dedupe,
  dedupe_from,
}
use dashboard_site.Common.Keyed.{lookup}
use dashboard_site.Models.Principal.{user_scopes, map_group_to_scopes}
use dashboard_site.Middlewares.Header.{extract_authorization_header, cut, equal_fold}
use dashboard_site.Middlewares.Token.{parse_service_token, split, generate_api_token, join}
use dashboard_site.Middlewares.Base64.{encode, count, is_decodable}
use dashboard_site.Middlewares.Auth.{verify_service_account, judge}
use dashboard_site.Storage.Sql.{◌>>=◌}
use dashboard_site.Storage.Accounts.{
  get_service_account_by_lookup_id, get_service_account_by_id, get_service_accounts_by_creator,
  with_scopes, fill_scopes,
}
use dashboard_site.Storage.Accounts.Writing.{
  unpause_service_account, change_account, update_accounts, create_service_account, insert_account,
  insert_all, restore, insert_scope, insert_scopes,
}
use dashboard_site.Handlers.Http.{attempt, resume}
use dashboard_site.Handlers.Accounts.{
  get_service_accounts, manage, may_change, post_at, check_account, wanted_account,
}
use dashboard_site.System.Accounts.{serve}
use dashboard_site.Config.{Config}
use dashboard_site.Models.Principal.{ServiceAccount, user, service_account}
use dashboard_site.Storage.Sql.{Session, Result, ok, transaction}
use dashboard_site.Storage.Sql.Calm.{calm, bind-calm, transaction-calm}
use dashboard_site.Storage.Accounts.{Accounts, is_account}
use dashboard_site.Storage.Accounts.Writing.{paused, unpaused, deleted}
use dashboard_site.Storage.Accounts.Lasting.{Lasts}
use dashboard_site.Middlewares.Auth.{optional_auth}
use dashboard_site.Handlers.Http.{success, pass}
use dashboard_site.Handlers.Accounts.{
  AccountBody, Draws, AccountView, shown, post_service_account, delete_service_account,
  patch_service_account_pause, patch_service_account_unpause, has_all_scopes,
}
use dashboard_site.Handlers.Accounts.{reply_with}
use dashboard_site.Handlers.Accounts.Changing.{Managed, managed_outcome}
use dashboard_site.Handlers.Accounts.Posting.{Posted, account_outcome}
use dashboard_site.Tests.Examples.{ann}
use dashboard_site.Tests.Tokens.{
  mirror, lookup_bytes, secret_bytes, token, header, row, accounts, sent,
}
use dashboard_site.System.Accounts.{Action, Round, serve_all}
use dashboard_site.System.Accounts.Safety.{serve_all-Lasts, deleted_never_passes}
use dashboard_site.System.Accounts.Passing.{created_account_passes}

abbrev office : Config
office = record {
  group_scopes = ("home", "mtls:request" ∷ "mtls:approve" ∷ []) ∷ [];
  aliases = [];
  storage_enabled = true;
  external_url = "home";
  min_certificate_validity_days = pos 30;
  max_certificate_validity_days = pos 365;
}

-- beside the account of `Tests.Tokens`, a deleted one
abbrev gone : ServiceAccount
gone = record row {
  sub = "old";
  lookup_id = "0123456789abcdef";
  deleted_at = some 5;
  is_disabled = true;
}

abbrev both : Accounts
both = record accounts { rows = row ∷ gone ∷ [] }

row-Lasts : Lasts row ("mtls:read" ∷ []) accounts
unfolding any_where select_where
row-Lasts = record {
  there = refl;
  later = (inr (record { same = refl; gone = inl refl }), tt);
  scoped = refl;
}

gone-Lasts : Lasts gone [] both
unfolding any_where select_where
gone-Lasts = record {
  there = refl;
  later = (inl refl, (inr (record { same = refl; gone = inl refl }), tt));
  scoped = refl;
}

abbrev body : AccountBody
body = record { name = "robot"; token_expires_at = some 100; scopes = "mtls:approve" ∷ [] }

abbrev draws : Draws
draws = record { lookup_bytes = lookup_bytes; secret_bytes = secret_bytes; uuid = "robot" }

abbrev empty : Accounts
empty = record { rows = []; scopes = [] }

abbrev rounds : List Round
rounds =
    record { action = Action.pause ann "dashboard" "robot"; clock = 60; faults = [] }
    ∷ record { action = Action.post ann (some body) draws; clock = 70; faults = false ∷ true ∷ [] }
    ∷ record { action = Action.unpause ann "dashboard" "robot"; clock = 80; faults = [] }
    ∷ record { action = Action.delete ann "dashboard" "robot"; clock = 90; faults = [] }
    ∷ []

abbrev tries : List Round
tries =
    record { action = Action.unpause ann "dashboard" "old"; clock = 60; faults = [] }
    ∷ record { action = Action.authenticate header none; clock = 70; faults = true ∷ [] }
    ∷ record { action = Action.list ann; clock = 80; faults = [] }
    ∷ []

abbrev seen : ServiceAccount
seen = record row { scopes = "mtls:read" ∷ [] }

lets :
    (optional_auth mirror office header none none (serve_all mirror office tries (calm both 50))).0
    ≡ pass (some (service_account seen))
unfolding serve_all serve optional_auth extract_authorization_header cut verify_service_account
    parse_service_token split count is_decodable get_service_account_by_lookup_id ◌>>=◌ find_where
    select_where equal_fold judge get_service_accounts attempt get_service_accounts_by_creator
    with_scopes sort_by insert_by any_where fill_scopes patch_service_account_unpause manage
    may_change get_service_account_by_id unpause_service_account change_account update_accounts
    count_where update_where
lets = refl

serve_all-Lasts_example :
    Lasts row ("mtls:read" ∷ []) (serve_all mirror office rounds (calm accounts 50)).tables
serve_all-Lasts_example =
    serve_all-Lasts mirror office row ("mtls:read" ∷ []) rounds (calm accounts 50) row-Lasts

deleted_never_passes_example : is_account "dashboard" "old" seen ≡ false
deleted_never_passes_example =
    deleted_never_passes mirror office gone 5 [] tries (calm both 50) header none seen gone-Lasts
      refl lets

unique : count_where (is_account "dashboard" "robot") accounts.rows ≤ 1
unfolding count_where
unique = omega arith

managed_outcome_example :
    Managed ann deleted "dashboard" "robot" accounts 50
      (delete_service_account ann "dashboard" "robot" (calm accounts 50)).0
      (delete_service_account ann "dashboard" "robot" (calm accounts 50)).1.tables
    × Managed ann paused "dashboard" "robot" accounts 50
        (patch_service_account_pause (some (user ann)) "dashboard" "robot" (calm accounts 50)).0
        (patch_service_account_pause
          (some (user ann))
          "dashboard"
          "robot"
          (calm accounts 50)).1.tables
    × Managed ann unpaused "dashboard" "robot" accounts 50
        (patch_service_account_unpause (some (user ann)) "dashboard" "robot" (calm accounts 50)).0
        (patch_service_account_unpause
          (some (user ann))
          "dashboard"
          "robot"
          (calm accounts 50)).1.tables
managed_outcome_example = managed_outcome ann "dashboard" "robot" (calm accounts 50) unique

account_outcome_example :
    Posted mirror office
      (some (user ann))
      (some body)
      draws
      empty
      50
      (post_service_account mirror office (some (user ann)) (some body) draws (calm empty 50)).0
      (post_service_account mirror office
        (some (user ann))
        (some body)
        draws
        (calm empty 50)).1.tables
account_outcome_example =
    account_outcome mirror office (some (user ann)) (some body) draws (calm empty 50) tt

abbrev view : AccountView
view = record {
  sub = "robot";
  iss = "home";
  name = "robot";
  token = some token.raw;
  expires_at = 100;
  is_disabled = false;
  deleted_at = none;
  scopes = "mtls:approve" ∷ [];
  created_by_iss = "iss";
  created_by_sub = "ann";
  created_at = 50;
}

abbrev wanted : ServiceAccount
wanted = record {
  sub = "robot";
  iss = "home";
  name = "robot";
  lookup_id = token.lookup_id;
  secret_hash = token.hashed_secret;
  token_expires_at = 100;
  scopes = "mtls:approve" ∷ [];
  is_disabled = false;
  deleted_at = none;
  created_by_sub = "ann";
  created_by_iss = "iss";
  created_at = 50;
}

abbrev filled : Accounts
filled = record {
  rows = record wanted { scopes = [] } ∷ [];
  scopes = record { owner_iss = "home"; owner_sub = "robot"; scope_name = "mtls:approve" } ∷ [];
}

inserts : insert_all wanted (calm empty 50) ≡ (ok tt, calm filled 50)
unfolding insert_account insert_scope insert_scopes ◌>>=◌ any_where count
inserts = refl

stores : create_service_account wanted (calm empty 50) ≡ (ok wanted, calm filled 50)
unfolding create_service_account get_service_account_by_id ◌>>=◌ find_where select_where
stores =
    bind-calm empty 50 (transaction restore (insert_all wanted))
      (λ _. get_service_account_by_id "home" "robot") tt filled
      (transaction-calm empty 50 restore (insert_all wanted) tt filled inserts)

posts :
    (post_service_account mirror office (some (user ann)) (some body) draws (calm empty 50)).0
    ≡ success view
unfolding post_service_account post_at check_account trim_space has_all_scopes contains user_scopes
    map_group_to_scopes flat_map dedupe dedupe_from lookup generate_api_token join encode
    wanted_account attempt
posts =
    ap
      (λ (r : Result ServiceAccount × Session Accounts).
        (resume r.0 (λ _. 500) (λ a. reply_with (shown (some token.raw) a)) r.1).0)
      stores

created_account_passes_example :
    (a : ServiceAccount) × ((optional_auth mirror office header none none (
        calm
          (post_service_account mirror office
            (some (user ann))
            (some body)
            draws
            (calm empty 50)).1.tables
          80)).0
      ≡ pass (some (service_account a)))
    × (shown (some token.raw) a ≡ view)
created_account_passes_example =
    created_account_passes mirror office (some (user ann)) (some body) draws (calm empty 50) view
      token.raw header none none 80 tt refl refl refl posts refl sent (omega arith)
