-- ===== src/Tests/Logins.antt =====
-- The theorem on logins at one user.
use dashboard_site.Common.{String, refl, false, [], ◌∷◌}
use dashboard_site.Storage.Sql.Calm.{calm}
use dashboard_site.Storage.Users.{Order, Profile, Users, upsert_user}
use dashboard_site.Storage.Users.LoggingIn.{Upserted, Untouched, upsert_outcome}

abbrev profile : String → Profile
profile name = record { sub = name; iss = "iss"; username = name; display_name = name; email = "" }

abbrev users : Users
users = record {
  rows =
      record { profile = profile "ann"; is_system = false; last_logged_in = 1; created_at = 1 }
      ∷ record { profile = profile "bob"; is_system = false; last_logged_in = 2; created_at = 2 }
      ∷ [];
  groups =
      record { owner_iss = "iss"; owner_sub = "ann"; group_name = "staff" }
      ∷ record { owner_iss = "iss"; owner_sub = "bob"; group_name = "staff" }
      ∷ [];
}

-- as they are stored
abbrev as_stored : Order
as_stored = record { arrange = λ l. l; same = λ g l. refl }

upsert_outcome_example :
    Upserted as_stored
      (profile "ann")
      ("home" ∷ "staff" ∷ [])
      users
      9
      (upsert_user as_stored (profile "ann") ("home" ∷ "staff" ∷ []) (calm users 9)).0
      (upsert_user as_stored (profile "ann") ("home" ∷ "staff" ∷ []) (calm users 9)).1.tables
      (upsert_user as_stored (profile "ann") ("home" ∷ "staff" ∷ []) (calm users 9)).1.clock
    × Untouched "iss" "bob" users
        (upsert_user as_stored (profile "ann") ("home" ∷ "staff" ∷ []) (calm users 9)).1.tables
upsert_outcome_example =
    upsert_outcome as_stored (profile "ann") ("home" ∷ "staff" ∷ []) (calm users 9) "iss" "bob" refl
