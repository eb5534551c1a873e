-- ===== src/System/Certificates/Safety.antt =====
-- What sequences of requests and job rounds do to the certificate requests.
use dashboard_site.Common.{ℕ, ◌≡◌, ◌⊎◌, ◌∙◌, inl, inr, refl, sym, subst, true, List, [], ◌∷◌}
use dashboard_site.Config.{Config}
use dashboard_site.Models.Certificate.{
  CertificateRequest, CertificateRequestStatus, can_transition_to,
}
use dashboard_site.Storage.Certificates.Schema.{Tables}
use dashboard_site.Storage.Certificates.Tracking.{RowAt}
use dashboard_site.Storage.Certificates.Life.{
  Follows, Step-Follows, is_settled, Step-settled, IsStranded, Step-stranded,
}
use dashboard_site.Storage.Certificates.Soundness.{IsSound}
use dashboard_site.Storage.Certificates.Recording.{
  IsRecorded, status-IsRecorded, metadata-IsRecorded, issued-IsRecorded, creation-IsRecorded,
}
use dashboard_site.Jobs.Certificates.{Manager}
use dashboard_site.System.Certificates.{
  Action, ask, review, list, mine, show, creation_job, status_job, Round, serve, serve_all,
}
use dashboard_site.System.Certificates
use dashboard_site.System.Certificates.Serving.{
  tables, serve-steps, serve-IsSound, serve_all-keeps, serve_all-stuck,
}

-- statuses that are joined by a chain of entries of `validTransitions`
pub data Leads (s : CertificateRequestStatus) : CertificateRequestStatus → Type 0 where
  here : Leads s s
  onward : {t u : CertificateRequestStatus} → Leads s t → can_transition_to t u ≡ true → Leads s u

-- a stored request after some whole actions: what it never loses, and where its status may then be
pub record Lives (n : ℕ) (x : CertificateRequest) (t : Tables) : Type 0 where
  pub now_row : CertificateRequest
  pub found : RowAt n now_row t
  pub same_owner : (now_row.owner_iss ≡ x.owner_iss) × (now_row.owner_sub ≡ x.owner_sub)
  pub same_name : now_row.common_name ≡ x.common_name
  pub same_days : now_row.validity_days ≡ x.validity_days
  pub path : Leads x.status now_row.status

led :
    {s t u : CertificateRequestStatus}
    → Leads s t
    → (u ≡ t) ⊎ (can_transition_to t u ≡ true)
    → Leads s u
led {s} l (inl e) = subst (Leads s) (sym e) l
led l (inr k) = onward l k

follow :
    (n : ℕ) (x y z : CertificateRequest) (t : Tables)
    → (y.owner_iss ≡ x.owner_iss) × (y.owner_sub ≡ x.owner_sub)
    → y.common_name ≡ x.common_name
    → y.validity_days ≡ x.validity_days
    → Leads x.status y.status
    → Follows y z
    → RowAt n z t
    → Lives n x t
follow n x y z t owner name days l f h = record {
  now_row = z;
  found = h;
  same_owner = (f.same_owner.0 ∙ owner.0, f.same_owner.1 ∙ owner.1);
  same_name = f.same_name ∙ name;
  same_days = f.same_days ∙ days;
  path = led l f.allowed;
}

module _ (cfg : Config) (m : Manager) (n : ℕ) where
  serving-Lives :
      (os : List Round) (w : Certificates.World cfg m) (x : CertificateRequest)
      → IsSound (tables cfg m w)
      → Lives n x (tables cfg m w)
      → Lives n x (tables cfg m (serve_all cfg m os w))
  unfolding serve_all
  serving-Lives [] w x k l = l
  serving-Lives (o ∷ os) (s, t) x k l =
      let w : Certificates.World cfg m = (record s { clock = o.clock; faults = o.faults }, t) in
      let one = serve-steps cfg m n l.now_row o.action w l.found k in
      serving-Lives os (serve cfg m o.action w) x (serve-IsSound cfg m o.action w k) (
        follow n x l.now_row one.now_row _ l.same_owner l.same_name l.same_days l.path
          (Step-Follows one.step) one.found)

-- In a sound state, whatever whole requests and whole job rounds follow one another, whichever
-- statements fail and whatever the certificate manager answers: a stored certificate request is still
-- there with its owner, its common name and its validity, and its status as it is after the last of
-- them is joined to the status before the first by transitions of `validTransitions`, although no code
-- asks CanTransitionTo. This compares the states between whole actions and not the single writes
-- within one: where the manager fails to create a certificate, one round of the creation job writes
-- pending and then approved again, and `validTransitions` has no such transition.
pub serve_all-Lives :
    (cfg : Config) (m : Manager) (n : ℕ) (x : CertificateRequest) (os : List Round)
    (w : Certificates.World cfg m)
    → IsSound w.0.tables
    → RowAt n x w.0.tables
    → Lives n x (serve_all cfg m os w).0.tables
serve_all-Lives cfg m n x os w k h = serving-Lives cfg m n os w x k (record {
  now_row = x;
  found = h;
  same_owner = (refl, refl);
  same_name = refl;
  same_days = refl;
  path = here;
})

-- In a sound state, a request that is rejected, failed, completed or issued is never changed again,
-- in any column, by any sequence of requests and job rounds, whichever statements fail.
pub serve_all-settled :
    (cfg : Config) (m : Manager) (n : ℕ) (x : CertificateRequest) (os : List Round)
    (w : Certificates.World cfg m)
    → IsSound w.0.tables
    → RowAt n x w.0.tables
    → is_settled x.status ≡ true
    → RowAt n x (serve_all cfg m os w).0.tables
serve_all-settled cfg m n x os w k h e =
    serve_all-stuck cfg m n x (λ y st. Step-settled st e) os w h k

-- In a sound state, a request that is pending and has no certificate identifier stays so for ever:
-- no request and no job round changes it, also when no statement fails and the manager could issue
-- its certificate.
pub serve_all-stranded :
    (cfg : Config) (m : Manager) (n : ℕ) (x : CertificateRequest) (os : List Round)
    (w : Certificates.World cfg m)
    → IsSound w.0.tables
    → RowAt n x w.0.tables
    → IsStranded x
    → RowAt n x (serve_all cfg m os w).0.tables
serve_all-stranded cfg m n x os w k h e =
    serve_all-stuck cfg m n x (λ y st. Step-stranded st e) os w h k

-- The audit trail is complete: where each certificate request that does not await its review has an
-- event that gave it its current status, this still holds after any sequence of requests and job
-- rounds, whichever statements fail.
pub serve_all-IsRecorded :
    (cfg : Config) (m : Manager) (os : List Round) (w : Certificates.World cfg m)
    → IsRecorded w.0.tables
    → IsRecorded (serve_all cfg m os w).0.tables
serve_all-IsRecorded cfg m =
    serve_all-keeps cfg m IsRecorded status-IsRecorded metadata-IsRecorded issued-IsRecorded
      creation-IsRecorded
