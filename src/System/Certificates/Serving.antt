-- ===== src/System/Certificates/Serving.antt =====
-- One action, and a sequence: the invariants that they keep, and the step that one stored request takes.
use dashboard_site.Common.{
  ℕ, ◌<◌, ◌≡◌, subst, String, Option, some, List, [], ◌∷◌, arith, All, find_where,
}
use dashboard_site.Config.{Config}
use dashboard_site.Models.Certificate.{CertificateRequest, CertificateRequestStatus}
use dashboard_site.Storage.Sql.Keeps.{Keeps}
use dashboard_site.Storage.Certificates.Schema.{Tables, has_id, NewRequest}
use dashboard_site.Storage.Certificates.Write.{
  Issuance, update_certificate_request_status, update_certificate_metadata,
  update_certificate_request_issued, create_certificate_request,
}
use dashboard_site.Storage.Certificates.Tracking.{RowAt}
use dashboard_site.Storage.Certificates.Life.{Step, Stepped, stayed}
use dashboard_site.Storage.Certificates.Soundness.{
  IsSound, ids, status-IsSound, metadata-IsSound, issued-IsSound, creation-IsSound,
}
use dashboard_site.Handlers.Certificates.Keeping.{
  list-Kept, mine-Kept, read-Kept, review-Kept, post-Kept,
}
use dashboard_site.Handlers.Certificates.Stepping.{post-keeps}
use dashboard_site.Handlers.Certificates.Reviewing.{review-steps}
use dashboard_site.Jobs.Certificates.{Manager}
use dashboard_site.Jobs.Certificates.Rounds.{
  create_round-keeps, create_round-steps, status_round-keeps, status_round-steps,
}
use dashboard_site.System.Certificates.{
  Action, ask, review, list, mine, show, creation_job, status_job, Round, serve, serve_all,
}
use dashboard_site.System.Certificates

module _ (cfg : Config) (m : Manager) where
  abbrev pub tables : Certificates.World cfg m → Tables
  tables w = w.0.tables

  -- an invariant that each call of the storage keeps
  module _ (I : Tables → Type 0)
      (status : (n : ℕ) (new : CertificateRequestStatus) (iss sub notes : String)
        → Keeps I (update_certificate_request_status n new iss sub notes))
      (metadata_of : (n : ℕ) (identifier : String) (metadata : Option String)
        → Keeps I (update_certificate_metadata n identifier metadata))
      (by_issue : (n : ℕ) (d : Issuance) (iss sub : String)
        → Keeps I (update_certificate_request_issued n d iss sub))
      (creation : (a : NewRequest)
        → a.status ≡ CertificateRequestStatus.awaiting_review
        → Keeps I (create_certificate_request a)) where
    serve-keeps :
        (a : Action) (w : Certificates.World cfg m) → I (tables w) → I (tables (serve cfg m a w))
    unfolding serve
    serve-keeps (ask who body) (s, t) h = (post-Kept I cfg who status creation body).at s h
    serve-keeps (review who request_id body) (s, t) h =
        (review-Kept I cfg who status request_id body).at s h
    serve-keeps (list who) (s, t) h = (list-Kept I cfg who).at s h
    serve-keeps (mine who) (s, t) h = (mine-Kept I cfg who).at s h
    serve-keeps (show who request_id) (s, t) h = (read-Kept I cfg who request_id).at s h
    serve-keeps creation_job w h = create_round-keeps m I status metadata_of w h
    serve-keeps status_job w h = status_round-keeps m I by_issue w h

    pub serve_all-keeps :
        (os : List Round) (w : Certificates.World cfg m)
        → I (tables w)
        → I (tables (serve_all cfg m os w))
    unfolding serve_all
    serve_all-keeps [] w h = h
    serve_all-keeps (o ∷ os) (s, t) h =
        serve_all-keeps os _
          (serve-keeps o.action (record s { clock = o.clock; faults = o.faults }, t) h)

  pub serve-IsSound :
      (a : Action) (w : Certificates.World cfg m)
      → IsSound (tables w)
      → IsSound (tables (serve cfg m a w))
  serve-IsSound =
      serve-keeps IsSound status-IsSound metadata-IsSound issued-IsSound (λ a _. creation-IsSound a)

fresh_row :
    (n top : ℕ) (x : CertificateRequest) (rows : List CertificateRequest)
    → All (λ k. k < top) (ids rows)
    → find_where (has_id n) rows ≡ some x
    → n < top
unfolding find_where
fresh_row n top x [] h e = absurd (cc)
fresh_row n top x (r ∷ rows) h e = ground (arith, fresh_row n top x rows h.1)

module _ (cfg : Config) (m : Manager) (n : ℕ) (x : CertificateRequest) where
  pub serve-steps :
      (a : Action) (w : Certificates.World cfg m)
      → RowAt n x (tables cfg m w)
      → IsSound (tables cfg m w)
      → Stepped n x (tables cfg m (serve cfg m a w))
  unfolding serve
  serve-steps (ask who body) (s, t) h k = stayed n x _ (
      (post-keeps cfg n x who body).at s
        (h, fresh_row n s.tables.next_id x s.tables.requests k.fresh h))
  serve-steps (review who request_id body) (s, t) h k =
      (review-steps cfg n x who request_id body).at s h
  serve-steps (list who) (s, t) h k = stayed n x _ ((list-Kept (RowAt n x) cfg who).at s h)
  serve-steps (mine who) (s, t) h k = stayed n x _ ((mine-Kept (RowAt n x) cfg who).at s h)
  serve-steps (show who request_id) (s, t) h k =
      stayed n x _ ((read-Kept (RowAt n x) cfg who request_id).at s h)
  serve-steps creation_job w h k = create_round-steps m n x w (h, k)
  serve-steps status_job w h k = status_round-steps m n x w (h, k)

  -- a row that takes no step but to stay
  module _ (stuck : (y : CertificateRequest) → Step x y → y ≡ x) where
    pub serve_all-stuck :
        (os : List Round) (w : Certificates.World cfg m)
        → RowAt n x (tables cfg m w)
        → IsSound (tables cfg m w)
        → RowAt n x (tables cfg m (serve_all cfg m os w))
    unfolding serve_all
    serve_all-stuck [] w h k = h
    serve_all-stuck (o ∷ os) (s, t) h k =
        let w : Certificates.World cfg m = (record s { clock = o.clock; faults = o.faults }, t) in
        let one = serve-steps o.action w h k in
        serve_all-stuck os (serve cfg m o.action w)
          (subst (λ (y : CertificateRequest). RowAt n y (tables cfg m (serve cfg m o.action w)))
            (stuck one.now_row one.step) one.found)
          (serve-IsSound cfg m o.action w k)
