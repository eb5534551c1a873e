-- ===== src/Storage/Certificates/Write.antt =====
-- The statements that change the certificate requests.
use dashboard_site.Common.{
  ℕ, String, Option, some, eqb, if◌then◌else◌, count_where, find_where, update_where,
}
use dashboard_site.Models.Certificate.{CertificateRequest, CertificateRequestStatus, RequestView}
use dashboard_site.Storage.Sql.{
  ok, request_not_found, Sql, pure, raise, query, exec, ◌>>=◌, ◌>>◌, transaction,
}
use dashboard_site.Storage.Certificates.Schema.{
  Tables, restore, has_id, NewRequest, insert_request, insert_event,
}
use dashboard_site.Storage.Certificates.Read.{or_missing, get_certificate_request_by_id}

unfoldable pub create_certificate_request : NewRequest → Sql Tables RequestView
create_certificate_request a = do n ← exec (insert_request a); get_certificate_request_by_id n

-- `UPDATE certificate_requests SET f WHERE id = n`, with the number of rows that it affects
unfoldable pub update_request : ℕ → (CertificateRequest → CertificateRequest) → Sql Tables ℕ
update_request n f = exec λ t _. (
  ok (count_where (has_id n) t.requests),
  record t { requests = update_where (has_id n) f t.requests },
)

abbrev pub set_status : CertificateRequestStatus → CertificateRequest → CertificateRequest
set_status new r = record r { status = new }

-- The status read first is not used.
unfoldable pub update_certificate_request_status :
    ℕ → CertificateRequestStatus → String → String → String → Sql Tables Unit
update_certificate_request_status n new reviewer_iss reviewer_sub notes = transaction restore (do
  current ← query (λ t _. or_missing (find_where (has_id n) t.requests))
  update_request n (set_status new)
  exec (insert_event n current.owner_iss current.owner_sub reviewer_iss reviewer_sub new notes))

abbrev pub set_metadata : String → Option String → CertificateRequest → CertificateRequest
set_metadata identifier metadata r = record r {
  certificate_identifier = some identifier;
  provider_metadata = metadata;
}

unfoldable pub update_certificate_metadata : ℕ → String → Option String → Sql Tables Unit
update_certificate_metadata n identifier metadata = do
  affected ← update_request n (set_metadata identifier metadata)
  if eqb affected 0 then raise request_not_found else pure tt

pub record Issuance : Type 0 where
  pub certificate_pem : String
  pub serial_number : String
  pub issued_at : ℕ
  pub expires_at : ℕ

abbrev pub set_issued : Issuance → CertificateRequest → CertificateRequest
set_issued d r = record r {
  status = CertificateRequestStatus.issued;
  certificate_pem = some d.certificate_pem;
  serial_number = some d.serial_number;
  issued_at = some d.issued_at;
  expires_at = some d.expires_at;
}

unfoldable pub update_certificate_request_issued : ℕ → Issuance → String → String → Sql Tables Unit
update_certificate_request_issued n d system_iss system_sub = transaction restore (do
  current ← query (λ t _. or_missing (find_where (has_id n) t.requests))
  affected ← update_request n (set_issued d)
  if eqb affected 0
      then raise request_not_found
      else exec (
          insert_event n current.owner_iss current.owner_sub system_iss system_sub
            CertificateRequestStatus.issued "Certificate issued by cert-manager"))
