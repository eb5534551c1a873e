-- ===== src/Models/Whitelist.antt =====
-- internal/models/ip_whitelist.go. A point of time is a number of nanoseconds; the generated column
-- `ip_version` and the display names, which queries join in from `users`, are left out.
use dashboard_site.Common.{ℕ, String, Bool, true, false, Option, List}

pub data WhitelistStatus : Type 0 where
  added requested removed removed_by_admin blacklisted_by_admin : WhitelistStatus

pub data EventType : Type 0 where
  requested added removed removed_by_admin blacklisted_by_admin expired sync_failed : EventType

pub record WhitelistEntry : Type 0 where
  pub id : ℕ
  pub owner_iss : String
  pub owner_sub : String
  pub alias_name : String
  pub alias_uuid : String
  pub ip_address : String
  pub description : String
  pub status : WhitelistStatus
  pub requested_at : ℕ
  pub added_at : Option ℕ
  pub removed_at : Option ℕ
  pub expires_at : Option ℕ
  pub removed_by_iss : Option String
  pub removed_by_sub : Option String
  pub removal_reason : Option String

pub record WhitelistEvent : Type 0 where
  pub id : ℕ
  pub whitelist_id : ℕ
  pub actor_iss : String
  pub actor_sub : String
  pub event_type : EventType
  pub notes : Option String
  pub client_ip : Option String
  pub user_agent : Option String
  pub created_at : ℕ

-- an entry as it is read, with its events
pub record EntryView : Type 0 where
  pub entry : WhitelistEntry
  pub events : List WhitelistEvent

-- `status IN ('requested', 'added')`
abbrev pub is_active : WhitelistStatus → Bool
is_active WhitelistStatus.requested = true
is_active WhitelistStatus.added = true
is_active _ = false

abbrev pub is_requested : WhitelistStatus → Bool
is_requested WhitelistStatus.requested = true
is_requested _ = false

abbrev pub is_blacklisted : WhitelistStatus → Bool
is_blacklisted WhitelistStatus.blacklisted_by_admin = true
is_blacklisted _ = false
