-- ===== src/System/Certificates/Stranding.antt =====
-- A certificate request that the creation job gives up for good.
use dashboard_site.Common.{ℕ, ◌≡◌, ◌∙◌, refl, ap, String, false, none, List, find_where}
use dashboard_site.Config.{Config}
use dashboard_site.Models.Certificate.{CertificateRequest, CertificateRequestStatus}
use dashboard_site.Storage.Sql.{Session}
use dashboard_site.Storage.Sql.Calm.{calm}
use dashboard_site.Storage.Certificates.Schema.{Tables, has_id}
use dashboard_site.Storage.Certificates.Write.{set_status}
use dashboard_site.Storage.Certificates.Tracking.{RowAt}
use dashboard_site.Storage.Certificates.Soundness.{
  IsSound, status-IsSound, metadata-IsSound, system-IsSound,
}
use dashboard_site.Jobs.Certificates.{refusal, Manager, Person, is_not_found_error, create_one}
use dashboard_site.Jobs.Certificates.Creating.{create_one-keeps}
use dashboard_site.Jobs.Certificates.Running.{IsServed}
use dashboard_site.Jobs.Certificates.Outcomes.{name_of, marked_row, strands}
use dashboard_site.System.Certificates.{Round, serve_all}
use dashboard_site.System.Certificates.Safety.{serve_all-stranded}

-- A request without an identifier whose certificate the manager cannot look up, for another reason
-- than that it is not there, is left pending by the creation job, although no statement fails; in a
-- sound state it then stays pending, without an identifier, whatever requests and job rounds follow
-- and whatever the manager answers later.
pub create-strands :
    (cfg : Config) (m : Manager) (cert : CertificateRequest) (t : Tables) (now : ℕ) (sys : Person)
    (st st' : m.State) (e : String) (os : List Round)
    → IsSound t
    → RowAt cert.id cert t
    → IsServed cert t.users sys
    → cert.certificate_identifier ≡ none
    → m.get_data (name_of m cert) st ≡ (refusal e, st')
    → is_not_found_error e ≡ false
    → RowAt cert.id
        (set_status CertificateRequestStatus.pending cert)
        (serve_all cfg m os (create_one m cert (calm t now, st))).0.tables
create-strands cfg m cert t now sys st st' e os sound found served bare h k =
    serve_all-stranded cfg m cert.id (set_status CertificateRequestStatus.pending cert) os
      (create_one m cert (calm t now, st))
      (create_one-keeps m IsSound cert system-IsSound (status-IsSound cert.id)
        (metadata-IsSound cert.id) (calm t now, st) sound)
      (ap (λ (w : Session Tables × m.State). find_where (has_id cert.id) w.0.tables.requests)
          (strands m cert t now sys found served st st' e h k)
        ∙ marked_row m cert t now sys found served)
      (refl, bare)
