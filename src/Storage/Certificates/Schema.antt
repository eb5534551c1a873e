-- ===== src/Storage/Certificates/Schema.antt =====
-- The tables certificate_requests and certificate_events of
-- internal/storage/migrations/001_initial_schema.up.sql, 002_service_accounts.up.sql and
-- 004_certificate_provider_abstraction.up.sql with their constraints. `users` holds what the queries read of the table
-- of that name.
use dashboard_site.Common.{
  ℕ, suc, String, Bool, not, ◌&&◌, none, List, [], ◌∷◌, ◌++◌, ◌==◌, eqb, if◌then◌else◌, any_where,
}
use dashboard_site.Common.Int.{ℤ}
use dashboard_site.Models.Certificate.{
  CertificateRequest, CertificateEvent, CertificateRequestStatus,
}
use dashboard_site.Storage.Sql.{Result, ok, err, failed}
use dashboard_site.Storage.Whitelist.Schema.{UserRow}

pub record Tables : Type 0 where
  pub requests : List CertificateRequest
  pub events : List CertificateEvent
  pub next_id : ℕ
  pub next_event_id : ℕ
  pub users : List UserRow

-- sequences are not rolled back
abbrev pub restore : Tables → Tables → Tables
restore old new = record old { next_id = new.next_id; next_event_id = new.next_event_id }

abbrev pub has_id : ℕ → CertificateRequest → Bool
has_id n r = eqb r.id n

abbrev pub is_user : String → String → UserRow → Bool
is_user iss sub u = u.iss == iss && u.sub == sub

-- the checks of migration 002 on a person: certificate_requests_owner_not_empty and its like
abbrev pub is_filled : String → String → Bool
is_filled iss sub = not (iss == "") && not (sub == "")

pub record NewRequest : Type 0 where
  pub owner_sub : String
  pub owner_iss : String
  pub common_name : String
  pub status : CertificateRequestStatus
  pub message : String
  pub dns_names : List String
  pub organizational_units : List String
  pub validity_days : ℤ

abbrev pub new_row : NewRequest → ℕ → ℕ → CertificateRequest
new_row a n now = record {
  id = n;
  owner_iss = a.owner_iss;
  owner_sub = a.owner_sub;
  message = a.message;
  common_name = a.common_name;
  dns_names = a.dns_names;
  organizational_units = a.organizational_units;
  validity_days = a.validity_days;
  status = a.status;
  requested_at = now;
  certificate_identifier = none;
  provider_metadata = none;
  issued_at = none;
  expires_at = none;
  serial_number = none;
  certificate_pem = none;
}

-- The owner is not empty: a user or a service account.
unfoldable pub insert_request : NewRequest → Tables → ℕ → Result ℕ × Tables
insert_request a t now =
    let n = t.next_id in
    let t' = record t { next_id = suc n } in
    if is_filled a.owner_iss a.owner_sub
    then (ok n, record t' { requests = t.requests ++ new_row a n now ∷ [] })
    else (err failed, t')

abbrev pub new_event :
    ℕ
    → String
    → String
    → String
    → String
    → CertificateRequestStatus
    → String
    → ℕ
    → ℕ
    → CertificateEvent
new_event n iss sub reviewer_iss reviewer_sub status notes v now = record {
  id = v;
  certificate_request_id = n;
  requester_iss = iss;
  requester_sub = sub;
  reviewer_iss = reviewer_iss;
  reviewer_sub = reviewer_sub;
  new_status = status;
  review_notes = notes;
  created_at = now;
}

-- The request has to exist, and both persons are not empty.
unfoldable pub insert_event :
    ℕ
    → String
    → String
    → String
    → String
    → CertificateRequestStatus
    → String
    → Tables
    → ℕ
    → Result Unit × Tables
insert_event n iss sub reviewer_iss reviewer_sub status notes t now =
    let v = t.next_event_id in
    let t' = record t { next_event_id = suc v } in
    if any_where (has_id n) t.requests && is_filled iss sub && is_filled reviewer_iss reviewer_sub
    then (
      ok tt,
      record t' {
        events = t.events ++ new_event n iss sub reviewer_iss reviewer_sub status notes v now ∷ [];
      },
    )
    else (err failed, t')
