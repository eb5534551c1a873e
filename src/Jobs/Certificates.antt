-- ===== src/Jobs/Certificates.antt =====
-- internal/jobs/certificate_creation_job.go and certificate_status_job.go: one round of each job.
-- The certificate manager of internal/services/certificate (a store of issued certificates or the API
-- of Kubernetes) is a parameter, whose calls may fail with the text of an error.
pub mod Creating
pub mod Issuing
pub mod Looping
pub mod Rounds
pub mod Running
pub mod Outcomes
use Prim.Native.Char.{code}
use dashboard_site.Common.{
  ℕ, ◌+◌, String, Bool, true, false, ◌&&◌, ◌||◌, Option, none, some, List, [], ◌∷◌, leb, eqb,
  if◌then◌else◌, for_each,
}
use dashboard_site.Models.Certificate.{CertificateRequest, CertificateRequestStatus}
use dashboard_site.Storage.Sql.{Result, ok, err, Session}
use dashboard_site.Storage.Certificates.Schema.{Tables}
use dashboard_site.Storage.Certificates.Read.{
  get_system_user, get_approved_certificate_requests, get_pending_certificate_requests,
}
use dashboard_site.Storage.Certificates.Write.{
  update_certificate_request_status, update_certificate_metadata, update_certificate_request_issued,
}

pub data Answer (A : Type 0) : Type 0 where
  answer : A → Answer A
  refusal : String → Answer A

-- what ParseCertificateDetails reads of a certificate
pub record Details : Type 0 where
  pub serial_number : String
  pub not_before : ℕ
  pub not_after : ℕ

pub record Manager : Type 1 where
  pub State : Type 0
  -- the identifier and the metadata
  pub create : CertificateRequest → State → Answer (String × Option String) × State
  -- the certificate of GetCertificateData
  pub get_data : String → State → Answer String × State
  pub is_ready : String → State → Answer Bool × State
  -- GenerateCertificateName, a hash
  pub certificate_name : String → String → ℕ → String
  pub parse_details : String → Option Details

lower : ℕ → ℕ
lower c = if leb b'A' c && leb c b'Z' then c + 32 else c

-- a text begins with another, but for the case of its ASCII letters
begins_lower : String → String → Bool
unfolding lower
begins_lower s String.[] = true
begins_lower String.[] (String.◌∷◌ d t) = false
begins_lower (String.◌∷◌ c s) (String.◌∷◌ d t) = eqb (lower (code c)) (code d) && begins_lower s t

-- strings.Contains(strings.ToLower(s), "not found"): no letter beyond ASCII becomes one of these
unfoldable pub is_not_found_error : String → Bool
unfolding begins_lower
is_not_found_error String.[] = false
is_not_found_error (String.◌∷◌ c s) =
    begins_lower (String.◌∷◌ c s) "not found" || is_not_found_error s

abbrev pub Person : Type 0
Person = String × String

module _ (m : Manager) where
  abbrev pub World : Type 0
  World = Session Tables × m.State

  -- UpdateCertificateMetadata, whose error is only logged
  store_metadata :
      CertificateRequest
      → Answer (String × Option String) × m.State
      → Session Tables
      → Person
      → World
  store_metadata cert (answer (identifier, metadata), t) s sys =
      ((update_certificate_metadata cert.id identifier metadata s).1, t)
  store_metadata cert (refusal e, t) s sys = (
    (update_certificate_request_status cert.id CertificateRequestStatus.approved sys.0 sys.1
        "Certificate creation failed" s).1,
    t,
  )

  -- The certificate may exist already. A refusal that does not say "not found" leaves the request.
  obtain : CertificateRequest → Answer String × m.State → Session Tables → Person → World
  unfolding store_metadata
  obtain cert (answer _, t) s sys =
      store_metadata cert
        (
          answer (
            m.certificate_name cert.owner_sub cert.owner_iss cert.requested_at,
            cert.provider_metadata,
          ),
          t,
        )
        s sys
  obtain cert (refusal e, t) s sys =
      if is_not_found_error e then store_metadata cert (m.create cert t) s sys else (s, t)

  reserved : CertificateRequest → Result Unit × Session Tables → m.State → Person → World
  unfolding obtain
  reserved cert (ok _, s) t sys =
      obtain cert
        (m.get_data (m.certificate_name cert.owner_sub cert.owner_iss cert.requested_at) t) s sys
  reserved cert (err e, s) t sys = (s, t)

  reserve : CertificateRequest → Result Person × Session Tables → m.State → World
  unfolding reserved
  reserve cert (ok sys, s) t =
      reserved cert
        (update_certificate_request_status cert.id CertificateRequestStatus.pending sys.0 sys.1
          "Pending certificate issuance" s)
        t sys
  reserve cert (err e, s) t = (s, t)

  -- the body of the loop of handleApprovedCertificates; each `continue` ends it
  unfoldable pub create_one : CertificateRequest → World → World
  unfolding reserve
  create_one cert (s, t) = reserve cert (get_system_user s) t

  unfoldable pub handle_approved_certificates : List CertificateRequest → World → World
  handle_approved_certificates = for_each create_one

  on_list :
      (List CertificateRequest → World → World)
      → Result (List CertificateRequest) × Session Tables
      → m.State
      → World
  on_list handle (ok certs, s) t = handle certs (s, t)
  on_list handle (err e, s) t = (s, t)

  -- one round of CertificateCreationJob: an error of the query leaves no certificate to handle
  unfoldable pub create_round : World → World
  unfolding on_list
  create_round (s, t) = on_list handle_approved_certificates (get_approved_certificate_requests s) t

  store_issued :
      CertificateRequest → Person → String → Option Details → Session Tables → Session Tables
  store_issued cert sys pem none s = s
  store_issued cert sys pem (some d) s =
      (update_certificate_request_issued cert.id
        (record {
          certificate_pem = pem;
          serial_number = d.serial_number;
          issued_at = d.not_before;
          expires_at = d.not_after;
        })
        sys.0 sys.1 s).1

  fetched : CertificateRequest → Person → Answer String × m.State → Session Tables → World
  unfolding store_issued
  fetched cert sys (answer pem, t) s = (store_issued cert sys pem (m.parse_details pem) s, t)
  fetched cert sys (refusal e, t) s = (s, t)

  when_ready : CertificateRequest → Person → String → Answer Bool × m.State → Session Tables → World
  unfolding fetched
  when_ready cert sys identifier (answer true, t) s = fetched cert sys (m.get_data identifier t) s
  when_ready cert sys identifier (answer false, t) s = (s, t)
  when_ready cert sys identifier (refusal e, t) s = (s, t)

  identified : CertificateRequest → Person → Option String → World → World
  unfolding when_ready
  identified cert sys none w = w
  identified cert sys (some identifier) (s, t) =
      when_ready cert sys identifier (m.is_ready identifier t) s

  -- the body of the loop of handleIssuedCertificates
  unfoldable pub issue_one : Person → CertificateRequest → World → World
  unfolding identified
  issue_one sys cert w = identified cert sys cert.certificate_identifier w

  with_system : List CertificateRequest → Result Person × Session Tables → m.State → World
  with_system certs (ok sys, s) t = for_each (issue_one sys) certs (s, t)
  with_system certs (err e, s) t = (s, t)

  -- GetSystemUser is called once, before the loop
  unfoldable pub handle_issued_certificates : List CertificateRequest → World → World
  unfolding with_system
  handle_issued_certificates [] w = w
  handle_issued_certificates (c ∷ cs) (s, t) = with_system (c ∷ cs) (get_system_user s) t

  -- one round of CertificateIssuedStatusJob; it ends where no request waits
  unfoldable pub status_round : World → World
  unfolding on_list
  status_round (s, t) = on_list handle_issued_certificates (get_pending_certificate_requests s) t
