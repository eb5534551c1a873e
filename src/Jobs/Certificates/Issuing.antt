-- ===== src/Jobs/Certificates/Issuing.antt =====
-- What CertificateIssuedStatusJob does for one pending request to a stored certificate request.
use dashboard_site.Common.{ℕ, ◌≡◌, sym, subst, String, Bool, true, false, Option, none, some}
use dashboard_site.Models.Certificate.{CertificateRequest, CertificateRequestStatus}
use dashboard_site.Storage.Sql.{Result, ok, err, Session}
use dashboard_site.Storage.Sql.Keeps.{Keeps}
use dashboard_site.Storage.Certificates.Schema.{Tables}
use dashboard_site.Storage.Certificates.Read.{is_known}
use dashboard_site.Storage.Certificates.Write.{
  set_issued, Issuance, update_certificate_request_issued,
}
use dashboard_site.Storage.Certificates.Tracking.{RowAt, Updated, issued-here}
use dashboard_site.Storage.Certificates.Life.{issue, Stepped, stayed}
use dashboard_site.Jobs.Certificates.{
  Answer, answer, refusal, Details, Manager, Person, is_not_found_error, create_one, issue_one,
  store_metadata, obtain, reserved, store_issued, fetched, when_ready, identified,
}
use dashboard_site.Jobs.Certificates

abbrev pending : CertificateRequestStatus
pending = CertificateRequestStatus.pending

-- an invariant that the call of the storage keeps
module _ (m : Manager) (I : Tables → Type 0) (cert : CertificateRequest) (sys : Person)
    (by_issue : (d : Issuance)
      → Keeps I (update_certificate_request_issued cert.id d sys.0 sys.1)) where
  store_issued-keeps :
      (pem : String) (o : Option Details) (s : Session Tables)
      → I s.tables
      → I (store_issued m cert sys pem o s).tables
  unfolding store_issued
  store_issued-keeps pem none s h = h
  store_issued-keeps pem (some d) s h = (by_issue _).at s h

  fetched-keeps :
      (a : Answer String × m.State) (s : Session Tables)
      → I s.tables
      → I (fetched m cert sys a s).0.tables
  unfolding fetched
  fetched-keeps (answer pem, t) s h = store_issued-keeps pem (m.parse_details pem) s h
  fetched-keeps (refusal e, t) s h = h

  when_ready-keeps :
      (identifier : String) (a : Answer Bool × m.State) (s : Session Tables)
      → I s.tables
      → I (when_ready m cert sys identifier a s).0.tables
  unfolding when_ready
  when_ready-keeps identifier (answer true, t) s h = fetched-keeps _ s h
  when_ready-keeps identifier (answer false, t) s h = h
  when_ready-keeps identifier (refusal e, t) s h = h

  identified-keeps :
      (o : Option String) (w : Certificates.World m)
      → I w.0.tables
      → I (identified m cert sys o w).0.tables
  unfolding identified
  identified-keeps none w h = h
  identified-keeps (some identifier) (s, t) h = when_ready-keeps identifier _ s h

  pub issue_one-keeps :
      (w : Certificates.World m) → I w.0.tables → I (issue_one m sys cert w).0.tables
  unfolding issue_one
  issue_one-keeps w h = identified-keeps cert.certificate_identifier w h

module _ (m : Manager) (n : ℕ) (x : CertificateRequest) (cert : CertificateRequest)
    (sys : Person) where
  abbrev finish : Issuance → Session Tables → Result Unit × Session Tables
  finish d s = update_certificate_request_issued cert.id d sys.0 sys.1 s

  module _ (same : cert.id ≡ n) (start : x.status ≡ pending)
      (known : is_known x.certificate_identifier ≡ true) where
    issued :
        (d : Issuance) (r : Result Unit) (t : Tables) (c : ℕ)
        → Updated n x (set_issued d x) r t c
        → Stepped n x t
    issued d (ok _) t c h = record {
      now_row = set_issued d x;
      found = h;
      step = issue x d start known;
    }
    issued d (err e) t c h = stayed n x t h

    finish-here :
        (d : Issuance) (s : Session Tables) → RowAt n x s.tables → Stepped n x (finish d s).1.tables
    finish-here d s h = issued d (finish d s).0 (finish d s).1.tables (finish d s).1.clock (
        subst
          (λ j.
            Updated n x (set_issued d x) (update_certificate_request_issued j d sys.0 sys.1 s).0
              (update_certificate_request_issued j d sys.0 sys.1 s).1.tables
              (update_certificate_request_issued j d sys.0 sys.1 s).1.clock)
          (sym same) ((issued-here n x d sys.0 sys.1).at s h))

    store_issued-here :
        (pem : String) (o : Option Details) (s : Session Tables)
        → RowAt n x s.tables
        → Stepped n x (store_issued m cert sys pem o s).tables
    unfolding store_issued
    store_issued-here pem none s h = stayed n x s.tables h
    store_issued-here pem (some d) s h = finish-here _ s h

    fetched-here :
        (a : Answer String × m.State) (s : Session Tables)
        → RowAt n x s.tables
        → Stepped n x (fetched m cert sys a s).0.tables
    unfolding fetched
    fetched-here (answer pem, t) s h = store_issued-here pem (m.parse_details pem) s h
    fetched-here (refusal e, t) s h = stayed n x s.tables h

    when_ready-here :
        (identifier : String) (a : Answer Bool × m.State) (s : Session Tables)
        → RowAt n x s.tables
        → Stepped n x (when_ready m cert sys identifier a s).0.tables
    unfolding when_ready
    when_ready-here identifier (answer true, t) s h = fetched-here _ s h
    when_ready-here identifier (answer false, t) s h = stayed n x s.tables h
    when_ready-here identifier (refusal e, t) s h = stayed n x s.tables h

    identified-here :
        (o : Option String) (w : Certificates.World m)
        → RowAt n x w.0.tables
        → Stepped n x (identified m cert sys o w).0.tables
    unfolding identified
    identified-here none w h = stayed n x w.0.tables h
    identified-here (some identifier) (s, t) h = when_ready-here identifier _ s h

    pub issue_one-here :
        (w : Certificates.World m)
        → RowAt n x w.0.tables
        → Stepped n x (issue_one m sys cert w).0.tables
    unfolding issue_one
    issue_one-here w h = identified-here cert.certificate_identifier w h
