-- ===== src/Jobs/Certificates/Outcomes.antt =====
-- What becomes of one approved request when the database is there.
use dashboard_site.Common.{ℕ, ◌≡◌, ◌∙◌, refl, ap, String, true, false, Option, some, find_where}
use dashboard_site.Models.Certificate.{CertificateRequest, CertificateRequestStatus}
use dashboard_site.Storage.Sql.{Result, Session}
use dashboard_site.Storage.Sql.Calm.{calm}
use dashboard_site.Storage.Certificates.Schema.{Tables, has_id}
use dashboard_site.Storage.Certificates.Write.{set_status, set_metadata, set_issued, Issuance}
use dashboard_site.Storage.Certificates.Tracking.{RowAt}
use dashboard_site.Jobs.Certificates.{
  answer, refusal, Details, Manager, Person, is_not_found_error, create_one, issue_one, reserve,
  reserved, obtain, store_metadata, identified, when_ready, fetched, store_issued,
}
use dashboard_site.Jobs.Certificates.Running.{
  IsServed, changed, changed_row, with_event, status_runs, metadata_runs, issued_runs, system_runs,
}

abbrev pub pending : CertificateRequestStatus
pending = CertificateRequestStatus.pending

abbrev pub name_of : Manager → CertificateRequest → String
name_of m cert = m.certificate_name cert.owner_sub cert.owner_iss cert.requested_at

module _ (m : Manager) (cert : CertificateRequest) (t : Tables) (now : ℕ) (sys : Person)
    (found : RowAt cert.id cert t) (served : IsServed cert t.users sys) where
  abbrev pub marked : Tables
  marked =
      with_event cert.id cert t now found (set_status pending) pending sys.0 sys.1
        "Pending certificate issuance"

  pub marked_row : RowAt cert.id (set_status pending cert) marked
  marked_row = changed_row cert.id cert t now found (set_status pending) (λ r. refl)

  -- the lookup of the certificate fails, and not because it is not there
  pub strands :
      (st st' : m.State) (e : String)
      → m.get_data (name_of m cert) st ≡ (refusal e, st')
      → is_not_found_error e ≡ false
      → create_one m cert (calm t now, st) ≡ (calm marked now, st')
  unfolding create_one reserve reserved obtain
  strands st st' e h k =
      rw
        (
          system_runs t now sys.0 sys.1 true served.system,
          status_runs cert.id cert t now found pending sys.0 sys.1 "Pending certificate issuance"
              served.owner served.actor,
          h,
          k,
        )
        refl

  -- how the manager has to answer for the certificate to be issued
  pub record Cooperates (st : m.State) : Type 0 where
    pub message : String
    pub identifier : String
    pub metadata : Option String
    pub certificate_pem : String
    pub details : Details
    pub looked : m.State
    pub created : m.State
    pub ready : m.State
    pub read : m.State
    pub missing : m.get_data (name_of m cert) st ≡ (refusal message, looked)
    pub says_so : is_not_found_error message ≡ true
    pub creates : m.create cert looked ≡ (answer (identifier, metadata), created)
    pub is_there : m.is_ready identifier created ≡ (answer true, ready)
    pub gives : m.get_data identifier ready ≡ (answer certificate_pem, read)
    pub parses : m.parse_details certificate_pem ≡ some details

  module _ (st : m.State) (c : Cooperates st) where
    abbrev pub created_row : CertificateRequest
    created_row = record cert {
      status = pending;
      certificate_identifier = some c.identifier;
      provider_metadata = c.metadata;
    }

    abbrev created_tables : Tables
    created_tables =
        changed cert.id (set_status pending cert) marked now marked_row
          (set_metadata c.identifier c.metadata)

    creates_runs : create_one m cert (calm t now, st) ≡ (calm created_tables now, c.created)
    unfolding create_one reserve reserved obtain store_metadata
    creates_runs =
        rw
          (
            system_runs t now sys.0 sys.1 true served.system,
            status_runs cert.id cert t now found pending sys.0 sys.1 "Pending certificate issuance"
                served.owner served.actor,
            c.missing,
            c.says_so,
            c.creates,
            metadata_runs cert.id (set_status pending cert) marked now marked_row c.identifier
                c.metadata,
          )
          refl

    there : RowAt cert.id created_row created_tables
    there =
        changed_row cert.id (set_status pending cert) marked now marked_row
          (set_metadata c.identifier c.metadata) (λ r. refl)

    abbrev issuance : Issuance
    issuance = record {
      certificate_pem = c.certificate_pem;
      serial_number = c.details.serial_number;
      issued_at = c.details.not_before;
      expires_at = c.details.not_after;
    }

    abbrev pub issued_row : CertificateRequest
    issued_row = record cert {
      status = CertificateRequestStatus.issued;
      certificate_identifier = some c.identifier;
      provider_metadata = c.metadata;
      certificate_pem = some c.certificate_pem;
      serial_number = some c.details.serial_number;
      issued_at = some c.details.not_before;
      expires_at = some c.details.not_after;
    }

    issue_runs :
        (issue_one m sys created_row (create_one m cert (calm t now, st))).0.tables
        ≡ with_event cert.id created_row created_tables now there
            (set_issued issuance)
            CertificateRequestStatus.issued
            sys.0
            sys.1
            "Certificate issued by cert-manager"
    unfolding issue_one identified when_ready fetched store_issued
    issue_runs =
        rw (creates_runs, c.is_there, c.gives, c.parses)
          (ap (λ (r : Result Unit × Session Tables). r.1.tables)
            (issued_runs cert.id created_row created_tables now there issuance sys.0 sys.1
              served.owner served.actor))

    issued_there :
        RowAt cert.id issued_row
          (issue_one m sys created_row (create_one m cert (calm t now, st))).0.tables
    issued_there =
        ap (λ u. find_where (has_id cert.id) u.requests) issue_runs
        ∙ changed_row cert.id created_row created_tables now there (set_issued issuance) (λ r. refl)

    created_there : RowAt cert.id created_row (create_one m cert (calm t now, st)).0.tables
    created_there =
        ap (λ (w : Session Tables × m.State). find_where (has_id cert.id) w.0.tables.requests)
          creates_runs
        ∙ there

-- Where no statement fails and the manager creates a certificate, says that it is ready and hands it
-- out, the two jobs issue it: the creation job's handling of a stored request leaves it pending with
-- the identifier and the metadata of the certificate, and then the status job's handling of that row
-- makes it issued, with the certificate, its serial number and its two dates.
pub create-issue :
    (m : Manager) (cert : CertificateRequest) (t : Tables) (now : ℕ) (sys : Person)
    (found : RowAt cert.id cert t) (served : IsServed cert t.users sys) (st : m.State)
    (c : Cooperates m cert t now sys found served st)
    → RowAt cert.id
        (created_row m cert t now sys found served st c)
        (create_one m cert (calm t now, st)).0.tables
      × RowAt cert.id
          (issued_row m cert t now sys found served st c)
          (issue_one m sys
            (created_row m cert t now sys found served st c)
            (create_one m cert (calm t now, st))).0.tables
create-issue m cert t now sys found served st c = (
  created_there m cert t now sys found served st c,
  issued_there m cert t now sys found served st c,
)
