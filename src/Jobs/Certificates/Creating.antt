-- ===== src/Jobs/Certificates/Creating.antt =====
-- What CertificateCreationJob does for one approved request to a stored certificate request.
use dashboard_site.Common.{
  ℕ, ◌≡◌, ◌⊎◌, ◌∙◌, inl, inr, sym, ap, subst, String, Option, some, Bool-cases,
}
use dashboard_site.Models.Certificate.{CertificateRequest, CertificateRequestStatus}
use dashboard_site.Storage.Sql.{Result, ok, err, Session}
use dashboard_site.Storage.Sql.Keeps.{Keeps, Keeps-query}
use dashboard_site.Storage.Certificates.Schema.{Tables}
use dashboard_site.Storage.Certificates.Read.{get_system_user}
use dashboard_site.Storage.Certificates.Write.{
  set_status, set_metadata, update_certificate_request_status, update_certificate_metadata,
}
use dashboard_site.Storage.Certificates.Tracking.{RowAt, Updated, status-here, metadata-here}
use dashboard_site.Storage.Certificates.Life.{reserve, create, Stepped, stayed}
use dashboard_site.Jobs.Certificates.{
  Answer, answer, refusal, Details, Manager, Person, is_not_found_error, create_one, issue_one,
  store_metadata, obtain, reserved, store_issued, fetched, when_ready, identified,
}
use dashboard_site.Jobs.Certificates

abbrev approved : CertificateRequestStatus
approved = CertificateRequestStatus.approved

abbrev pending : CertificateRequestStatus
pending = CertificateRequestStatus.pending

abbrev mark : ℕ → Person → Session Tables → Result Unit × Session Tables
mark k sys s =
    update_certificate_request_status k pending sys.0 sys.1 "Pending certificate issuance" s

system-Keeps : (n : ℕ) (x : CertificateRequest) → Keeps (RowAt n x) get_system_user
unfolding get_system_user
system-Keeps n x = Keeps-query _

-- an invariant that the calls of the storage keep
module _ (m : Manager) (I : Tables → Type 0) (cert : CertificateRequest)
    (system : Keeps I get_system_user) where
  module _
      (status : (new : CertificateRequestStatus) (iss sub notes : String)
        → Keeps I (update_certificate_request_status cert.id new iss sub notes))
      (metadata_of : (identifier : String) (metadata : Option String)
        → Keeps I (update_certificate_metadata cert.id identifier metadata)) where
    store_metadata-keeps :
        (a : Answer (String × Option String) × m.State) (s : Session Tables) (sys : Person)
        → I s.tables
        → I (store_metadata m cert a s sys).0.tables
    unfolding store_metadata
    store_metadata-keeps (answer (identifier, metadata), t) s sys h =
        (metadata_of identifier metadata).at s h
    store_metadata-keeps (refusal e, t) s sys h =
        (status approved sys.0 sys.1 "Certificate creation failed").at s h

    obtain-keeps :
        (a : Answer String × m.State) (s : Session Tables) (sys : Person)
        → I s.tables
        → I (obtain m cert a s sys).0.tables
    unfolding obtain
    obtain-keeps (answer _, t) s sys h = store_metadata-keeps (answer _, t) s sys h
    obtain-keeps (refusal e, t) s sys h = elim (Bool-cases (is_not_found_error e)) [
      | inl k ↦ rw k (store_metadata-keeps (m.create cert t) s sys h)
      | inr k ↦ rw k h
    ]

    reserved-keeps :
        (r : Result Unit × Session Tables) (t : m.State) (sys : Person)
        → I r.1.tables
        → I (reserved m cert r t sys).0.tables
    unfolding reserved
    reserved-keeps (ok _, s) t sys h = obtain-keeps _ s sys h
    reserved-keeps (err e, s) t sys h = h

    reserve-keeps :
        (r : Result Person × Session Tables) (t : m.State)
        → I r.1.tables
        → I (Certificates.reserve m cert r t).0.tables
    unfolding Certificates.reserve
    reserve-keeps (ok sys, s) t h =
        reserved-keeps _ t sys ((status pending sys.0 sys.1 "Pending certificate issuance").at s h)
    reserve-keeps (err e, s) t h = h

    pub create_one-keeps :
        (w : Certificates.World m) → I w.0.tables → I (create_one m cert w).0.tables
    unfolding create_one
    create_one-keeps (s, t) h = reserve-keeps (get_system_user s) t (system.at s h)

module _ (m : Manager) (n : ℕ) (x : CertificateRequest) (cert : CertificateRequest) where
  module _ (same : cert.id ≡ n) (start : x.status ≡ approved) where
    abbrev y : CertificateRequest
    y = set_status pending x

    started : (t : Tables) → RowAt n y t → Stepped n x t
    started t h = record { now_row = y; found = h; step = reserve x start }

    undone :
        (r : Result Unit) (t : Tables) (c : ℕ)
        → Updated n y (set_status approved y) r t c
        → Stepped n x t
    undone (ok _) t c h = stayed n x t (h ∙ ap (λ s. some (set_status s x)) (sym start))
    undone (err e) t c h = started t h

    stored :
        (identifier : String) (metadata : Option String) (t : Tables)
        → RowAt n y t ⊎ RowAt n (set_metadata identifier metadata y) t
        → Stepped n x t
    stored identifier metadata t (inl h) = started t h
    stored identifier metadata t (inr h) = record {
      now_row = set_metadata identifier metadata y;
      found = h;
      step = create x identifier metadata start;
    }

    store_metadata-here :
        (a : Answer (String × Option String) × m.State) (s : Session Tables) (sys : Person)
        → RowAt n y s.tables
        → Stepped n x (store_metadata m cert a s sys).0.tables
    unfolding store_metadata
    store_metadata-here (answer (identifier, metadata), t) s sys h =
        rw same (stored identifier metadata _ ((metadata-here n y identifier metadata).at s h))
    store_metadata-here (refusal e, t) s sys h = rw same (
        undone
          (update_certificate_request_status n approved sys.0 sys.1 "Certificate creation failed"
            s).0
          _ _ ((status-here n y approved sys.0 sys.1 "Certificate creation failed").at s h))

    obtain-here :
        (a : Answer String × m.State) (s : Session Tables) (sys : Person)
        → RowAt n y s.tables
        → Stepped n x (obtain m cert a s sys).0.tables
    unfolding obtain
    obtain-here (answer _, t) s sys h = store_metadata-here (answer _, t) s sys h
    obtain-here (refusal e, t) s sys h = elim (Bool-cases (is_not_found_error e)) [
      | inl k ↦ rw k (store_metadata-here (m.create cert t) s sys h)
      | inr k ↦ rw k (started s.tables h)
    ]

    reserved-here :
        (r : Result Unit × Session Tables) (t : m.State) (sys : Person)
        → Updated n x y r.0 r.1.tables r.1.clock
        → Stepped n x (reserved m cert r t sys).0.tables
    unfolding reserved
    reserved-here (ok _, s) t sys h = obtain-here _ s sys h
    reserved-here (err e, s) t sys h = stayed n x s.tables h

    marked :
        (s : Session Tables) (sys : Person)
        → RowAt n x s.tables
        → Updated n x y
            (mark cert.id sys s).0
            (mark cert.id sys s).1.tables
            (mark cert.id sys s).1.clock
    marked s sys h =
        subst (λ j. Updated n x y (mark j sys s).0 (mark j sys s).1.tables (mark j sys s).1.clock)
          (sym same) ((status-here n x pending sys.0 sys.1 "Pending certificate issuance").at s h)

    reserve-here :
        (r : Result Person × Session Tables) (t : m.State)
        → RowAt n x r.1.tables
        → Stepped n x (Certificates.reserve m cert r t).0.tables
    unfolding Certificates.reserve
    reserve-here (ok sys, s) t h = reserved-here (mark cert.id sys s) t sys (marked s sys h)
    reserve-here (err e, s) t h = stayed n x s.tables h

    pub create_one-here :
        (w : Certificates.World m)
        → RowAt n x w.0.tables
        → Stepped n x (create_one m cert w).0.tables
    unfolding create_one
    create_one-here (s, t) h = reserve-here (get_system_user s) t ((system-Keeps n x).at s h)
