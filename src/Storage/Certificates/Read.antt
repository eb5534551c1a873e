-- ===== src/Storage/Certificates/Read.antt =====
-- The SELECT statements on the certificate requests.
use dashboard_site.Common.{
  ℕ, ◌+◌, String, Bool, true, false, ◌&&◌, Option, none, some, List, [], ◌∷◌, map, eqb, ltb, ◌==◌,
  if◌then◌else◌, length, any_where, select_where, find_where, sort_by, zero, suc,
}
use dashboard_site.Common.Int.{ℤ, pos, negsuc}
use mathlib.Core.Option
use dashboard_site.Models.Certificate.{
  CertificateRequest, CertificateEvent, CertificateRequestStatus, RequestView, same_status,
}
use dashboard_site.Storage.Sql.{Result, ok, err, request_not_found, Sql, pure, query, ◌>>=◌}
use dashboard_site.Storage.Certificates.Schema.{Tables, has_id, is_user}

abbrev pub or_missing : {A : Type 0} → Option A → Result A
or_missing none = err request_not_found
or_missing (some a) = ok a

abbrev pub of_request : ℕ → CertificateEvent → Bool
of_request n v = eqb v.certificate_request_id n

-- the events come in no stated order
unfoldable pub get_certificate_request_by_id : ℕ → Sql Tables RequestView
get_certificate_request_by_id n = do
  found ← query (λ t _. or_missing (find_where (has_id n) t.requests))
  events ← query (λ t _. ok (select_where (of_request n) t.events))
  pure (record { request = found; events = events })

-- `ORDER BY requested_at DESC`, `ASC`, and the order of events by time
abbrev pub newest_first : CertificateRequest → CertificateRequest → Bool
newest_first a b = ltb b.requested_at a.requested_at

abbrev pub oldest_first : CertificateRequest → CertificateRequest → Bool
oldest_first a b = ltb a.requested_at b.requested_at

abbrev earlier_event : CertificateEvent → CertificateEvent → Bool
earlier_event a b = ltb a.created_at b.created_at

-- The events of each request by `requestMap`: the query's order by request and time leaves them in
-- the order of time for each request.
unfoldable pub attach : List CertificateEvent → List CertificateRequest → List RequestView
attach events = map λ r. record {
  request = r;
  events = sort_by earlier_event (select_where (of_request r.id) events);
}

-- no request, no second query
unfoldable pub with_events :
    (CertificateEvent → Tables → Bool) → List CertificateRequest → Sql Tables (List RequestView)
with_events joined [] = pure []
with_events joined (r ∷ rs) = do
  events ← query (λ t _. ok (select_where (λ v. joined v t) t.events))
  pure (attach events (r ∷ rs))

unfoldable pub get_certificate_requests : Sql Tables (List RequestView)
get_certificate_requests = do
  requests ← query (λ t _. ok (sort_by newest_first t.requests))
  with_events (λ _ _. true) requests

-- the two joins of the query on the events
abbrev joins_users : CertificateEvent → Tables → Bool
joins_users v t =
    any_where (is_user v.requester_iss v.requester_sub) t.users
    && any_where (is_user v.reviewer_iss v.reviewer_sub) t.users

abbrev owned_by_user : String → String → Tables → CertificateRequest → Bool
owned_by_user iss sub t r =
    any_where (is_user r.owner_iss r.owner_sub) t.users && r.owner_sub == sub && r.owner_iss == iss

unfoldable pub get_certificate_requests_by_user : String → String → Sql Tables (List RequestView)
get_certificate_requests_by_user sub iss = do
  requests ←
      query (λ t _. ok (sort_by newest_first (select_where (owned_by_user iss sub t) t.requests)))
  with_events joins_users requests

unfoldable pub get_approved_certificate_requests : Sql Tables (List CertificateRequest)
get_approved_certificate_requests = query λ t _. ok (
    sort_by oldest_first
      (select_where (λ r. same_status r.status CertificateRequestStatus.approved) t.requests))

abbrev pub is_known : Option String → Bool
is_known none = false
is_known (some _) = true

abbrev pub awaits_certificate : CertificateRequest → Bool
awaits_certificate r =
    same_status r.status CertificateRequestStatus.pending && is_known r.certificate_identifier

unfoldable pub get_pending_certificate_requests : Sql Tables (List CertificateRequest)
get_pending_certificate_requests =
    query λ t _. ok (sort_by oldest_first (select_where awaits_certificate t.requests))

-- `LIMIT` and `OFFSET`
abbrev pub take {ℓ} : {A : Type ℓ} → ℕ → List A → List A
take zero xs = []
take (suc n) [] = []
take (suc n) (x ∷ xs) = x ∷ take n xs

abbrev pub drop {ℓ} : {A : Type ℓ} → ℕ → List A → List A
drop zero xs = xs
drop (suc n) [] = []
drop (suc n) (x ∷ xs) = drop n xs

-- the limit and the offset that are used
unfoldable pub page_limit : ℤ → ℕ
page_limit (negsuc n) = 20
page_limit (pos n) = if eqb n 0 then 20 else (if ltb 100 n then 100 else n)

unfoldable pub page_offset : ℤ → ℕ
page_offset (negsuc n) = 0
page_offset (pos n) = n

pub record PaginatedCertResult : Type 0 where
  pub requests : List RequestView
  pub total : ℕ
  pub limit : ℕ
  pub offset : ℕ
  pub has_more : Bool

unfoldable pub get_certificate_requests_paginated : ℤ → ℤ → Sql Tables PaginatedCertResult
get_certificate_requests_paginated limit offset = do
  total ← query (λ t _. ok (length t.requests))
  page ← query (λ t _.
      ok (take (page_limit limit) (drop (page_offset offset) (sort_by newest_first t.requests))))
  views ← with_events (λ _ _. true) page
  pure (record {
    requests = views;
    total = total;
    limit = page_limit limit;
    offset = page_offset offset;
    has_more = ltb (page_offset offset + length page) total;
  })

-- GetSystemUser of database.go
unfoldable pub get_system_user : Sql Tables (String × String)
get_system_user =
    query
      λ t _. or_missing (Option.map (λ u. (u.iss, u.sub)) (find_where (λ u. u.is_system) t.users))
