-- ===== src/Jobs/Certificates/Rounds.antt =====
-- A whole round of each certificate job: invariants, and what it does to one stored request.
use dashboard_site.Common.{ℕ, ◌≡◌, String, Bool, true, Option, List, [], ◌∷◌, arith}
use dashboard_site.Models.Certificate.{CertificateRequest, CertificateRequestStatus, same_status}
use dashboard_site.Storage.Sql.{Result, ok, err, Session}
use dashboard_site.Storage.Sql.Keeps.{Keeps, Keeps-query}
use dashboard_site.Storage.Sql.Ensures.{Ensures, Ensures-query}
use dashboard_site.Storage.Certificates.Schema.{Tables}
use dashboard_site.Storage.Certificates.Read.{
  get_system_user, is_known, awaits_certificate, get_approved_certificate_requests,
  get_pending_certificate_requests,
}
use dashboard_site.Storage.Certificates.Write.{
  Issuance, update_certificate_request_status, update_certificate_metadata,
  update_certificate_request_issued,
}
use dashboard_site.Storage.Certificates.Tracking.{RowAt, status-other, metadata-other, issued-other}
use dashboard_site.Storage.Certificates.Life.{Stepped, stayed}
use dashboard_site.Storage.Certificates.Soundness.{IsSound}
use dashboard_site.Jobs.Certificates.{
  Manager, Person, create_one, issue_one, create_round, status_round, on_list, with_system,
  handle_approved_certificates, handle_issued_certificates,
}
use dashboard_site.Jobs.Certificates
use dashboard_site.Jobs.Certificates.Creating.{create_one-keeps, create_one-here}
use dashboard_site.Jobs.Certificates.Issuing.{issue_one-keeps, issue_one-here}
use dashboard_site.Jobs.Certificates.Looping.{loop-keeps, loop-steps, Good, Read, selected}

pub system-Keeps : (I : Tables → Type 0) → Keeps I get_system_user
unfolding get_system_user
system-Keeps I = Keeps-query _

approved-Keeps : (I : Tables → Type 0) → Keeps I get_approved_certificate_requests
unfolding get_approved_certificate_requests
approved-Keeps I = Keeps-query _

pending-Keeps : (I : Tables → Type 0) → Keeps I get_pending_certificate_requests
unfolding get_pending_certificate_requests
pending-Keeps I = Keeps-query _

module _ (m : Manager) where
  abbrev tables : Certificates.World m → Tables
  tables w = w.0.tables

  module _ (I : Tables → Type 0) where
    list-keeps :
        (handle : List CertificateRequest → Certificates.World m → Certificates.World m)
        → ((cs : List CertificateRequest) (w : Certificates.World m)
            → I (tables w)
            → I (tables (handle cs w)))
        → (r : Result (List CertificateRequest) × Session Tables) (t : m.State) → I r.1.tables
        → I (tables (on_list m handle r t))
    unfolding on_list
    list-keeps handle k (ok cs, s) t h = k cs (s, t) h
    list-keeps handle k (err e, s) t h = h

    pub create_round-keeps :
        ((n : ℕ) (new : CertificateRequestStatus) (iss sub notes : String)
          → Keeps I (update_certificate_request_status n new iss sub notes))
        → ((n : ℕ) (identifier : String) (metadata : Option String)
            → Keeps I (update_certificate_metadata n identifier metadata))
        → (w : Certificates.World m) → I (tables w)
        → I (tables (create_round m w))
    unfolding create_round handle_approved_certificates
    create_round-keeps status metadata (s, t) h =
        list-keeps (handle_approved_certificates m)
          (loop-keeps tables (create_one m) I
            (λ c w. create_one-keeps m I c (system-Keeps I) (status c.id) (metadata c.id) w))
          (get_approved_certificate_requests s) t ((approved-Keeps I).at s h)

    module _
        (by_issue : (n : ℕ) (d : Issuance) (iss sub : String)
          → Keeps I (update_certificate_request_issued n d iss sub)) where
      with_system-keeps :
          (cs : List CertificateRequest) (r : Result Person × Session Tables) (t : m.State)
          → I r.1.tables
          → I (tables (with_system m cs r t))
      unfolding with_system
      with_system-keeps cs (ok sys, s) t h =
          loop-keeps tables (issue_one m sys) I
            (λ c w. issue_one-keeps m I c sys (λ d. by_issue c.id d sys.0 sys.1) w) cs (s, t) h
      with_system-keeps cs (err e, s) t h = h

      issuing-keeps :
          (cs : List CertificateRequest) (w : Certificates.World m)
          → I (tables w)
          → I (tables (handle_issued_certificates m cs w))
      unfolding handle_issued_certificates
      issuing-keeps [] w h = h
      issuing-keeps (c ∷ cs) (s, t) h =
          with_system-keeps (c ∷ cs) (get_system_user s) t ((system-Keeps I).at s h)

      pub status_round-keeps :
          (w : Certificates.World m) → I (tables w) → I (tables (status_round m w))
      unfolding status_round
      status_round-keeps (s, t) h =
          list-keeps (handle_issued_certificates m) issuing-keeps
            (get_pending_certificate_requests s) t ((pending-Keeps I).at s h)

  module _ (n : ℕ) (x : CertificateRequest) where
    abbrev Start : Tables → ℕ → Type 0
    Start t c = RowAt n x t × IsSound t

    abbrev is_approved : CertificateRequest → Bool
    is_approved r = same_status r.status CertificateRequestStatus.approved

    approved_status :
        (s : CertificateRequestStatus)
        → same_status s CertificateRequestStatus.approved ≡ true
        → s ≡ CertificateRequestStatus.approved
    approved_status s h = ground arith

    reads_approved : Ensures Start get_approved_certificate_requests (Read n x is_approved)
    unfolding get_approved_certificate_requests
    reads_approved =
        Ensures-query _ _ _ (λ t c h. (selected n x is_approved t h.0 h.1, h.0)) (λ t c h. h.0)

    approved_list :
        (r : Result (List CertificateRequest) × Session Tables) (t : m.State)
        → Read n x is_approved r.0 r.1.tables r.1.clock
        → Stepped n x (tables (on_list m (handle_approved_certificates m) r t))
    unfolding on_list handle_approved_certificates
    approved_list (ok cs, s) t h =
        loop-steps tables (create_one m) n x
          (λ y c w apart.
            create_one-keeps m (RowAt n y) c (system-Keeps (RowAt n y))
              (status-other n y c.id apart) (metadata-other n y c.id apart) w)
          (is_approved x ≡ true)
          (λ c w same q k. create_one-here m n x c same (approved_status x.status q) w k) cs (s, t)
          h.0.0 h.0.1 h.1
    approved_list (err e, s) t h = stayed n x s.tables h

    pub create_round-steps :
        (w : Certificates.World m)
        → Start (tables w) w.0.clock
        → Stepped n x (tables (create_round m w))
    unfolding create_round
    create_round-steps (s, t) h =
        approved_list (get_approved_certificate_requests s) t (reads_approved.at s h)

    reads_pending : Ensures Start get_pending_certificate_requests (Read n x awaits_certificate)
    unfolding get_pending_certificate_requests
    reads_pending =
        Ensures-query _ _ _ (λ t c h. (selected n x awaits_certificate t h.0 h.1, h.0))
          (λ t c h. h.0)

    waiting :
        (r : CertificateRequest)
        → awaits_certificate r ≡ true
        → (r.status ≡ CertificateRequestStatus.pending) × (is_known r.certificate_identifier ≡ true)
    waiting r h = (ground arith, ground arith)

    with_system-steps :
        (cs : List CertificateRequest) (r : Result Person × Session Tables) (t : m.State)
        → Good n x awaits_certificate cs
        → RowAt n x r.1.tables
        → Stepped n x (tables (with_system m cs r t))
    unfolding with_system
    with_system-steps cs (ok sys, s) t g h =
        loop-steps tables (issue_one m sys) n x
          (λ y c w apart.
            issue_one-keeps m (RowAt n y) c sys (λ d. issued-other n y c.id apart d sys.0 sys.1) w)
          (awaits_certificate x ≡ true)
          (λ c w same q k. issue_one-here m n x c sys same (waiting x q).0 (waiting x q).1 w k) cs
          (s, t) g.0 g.1 h
    with_system-steps cs (err e, s) t g h = stayed n x s.tables h

    issuing-steps :
        (cs : List CertificateRequest) (w : Certificates.World m)
        → Good n x awaits_certificate cs
        → RowAt n x (tables w)
        → Stepped n x (tables (handle_issued_certificates m cs w))
    unfolding handle_issued_certificates
    issuing-steps [] w g h = stayed n x (tables w) h
    issuing-steps (c ∷ cs) (s, t) g h =
        with_system-steps (c ∷ cs) (get_system_user s) t g ((system-Keeps (RowAt n x)).at s h)

    pending_list :
        (r : Result (List CertificateRequest) × Session Tables) (t : m.State)
        → Read n x awaits_certificate r.0 r.1.tables r.1.clock
        → Stepped n x (tables (on_list m (handle_issued_certificates m) r t))
    unfolding on_list
    pending_list (ok cs, s) t h = issuing-steps cs (s, t) h.0 h.1
    pending_list (err e, s) t h = stayed n x s.tables h

    pub status_round-steps :
        (w : Certificates.World m)
        → Start (tables w) w.0.clock
        → Stepped n x (tables (status_round m w))
    unfolding status_round
    status_round-steps (s, t) h =
        pending_list (get_pending_certificate_requests s) t (reads_pending.at s h)
