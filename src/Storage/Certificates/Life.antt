-- ===== src/Storage/Certificates/Life.antt =====
-- How a stored certificate request may change while an action is served: the specification of the
-- handlers and jobs for one row.
use dashboard_site.Common.{
  ℕ, ◌≡◌, ◌⊎◌, ◌∙◌, inl, inr, refl, ap, Bool, true, false, ◌||◌, Option, none, String,
}
use dashboard_site.Models.Certificate.{
  CertificateRequest, CertificateRequestStatus, same_status, can_transition_to, is_terminal,
}
use dashboard_site.Storage.Certificates.Schema.{Tables}
use dashboard_site.Storage.Certificates.Read.{is_known}
use dashboard_site.Storage.Certificates.Write.{set_status, set_metadata, set_issued, Issuance}
use dashboard_site.Storage.Certificates.Tracking.{RowAt}

abbrev pub IsVerdict : CertificateRequestStatus → Type 0
IsVerdict s = (s ≡ CertificateRequestStatus.approved) ⊎ (s ≡ CertificateRequestStatus.rejected)

-- the row as it is, a review, the start of the issuance with or without its identifier, and its end
pub data Step : CertificateRequest → CertificateRequest → Type 0 where
  stay : (r : CertificateRequest) → Step r r
  review :
      (r : CertificateRequest) (new : CertificateRequestStatus)
      → r.status ≡ CertificateRequestStatus.awaiting_review
      → IsVerdict new
      → Step r (set_status new r)
  reserve :
      (r : CertificateRequest)
      → r.status ≡ CertificateRequestStatus.approved
      → Step r (set_status CertificateRequestStatus.pending r)
  create :
      (r : CertificateRequest) (identifier : String) (metadata : Option String)
      → r.status ≡ CertificateRequestStatus.approved
      → Step r (set_metadata identifier metadata (set_status CertificateRequestStatus.pending r))
  issue :
      (r : CertificateRequest) (d : Issuance)
      → r.status ≡ CertificateRequestStatus.pending
      → is_known r.certificate_identifier ≡ true
      → Step r (set_issued d r)

pub record Stepped (n : ℕ) (x : CertificateRequest) (t : Tables) : Type 0 where
  pub now_row : CertificateRequest
  pub found : RowAt n now_row t
  pub step : Step x now_row

pub stayed : (n : ℕ) (x : CertificateRequest) (t : Tables) → RowAt n x t → Stepped n x t
stayed n x t h = record { now_row = x; found = h; step = stay x }

-- what never changes, and how the status may
pub record Follows (x y : CertificateRequest) : Type 0 where
  pub same_owner : (y.owner_iss ≡ x.owner_iss) × (y.owner_sub ≡ x.owner_sub)
  pub same_name : y.common_name ≡ x.common_name
  pub same_days : y.validity_days ≡ x.validity_days
  pub allowed : (y.status ≡ x.status) ⊎ (can_transition_to x.status y.status ≡ true)

verdict_allowed :
    (s new : CertificateRequestStatus)
    → s ≡ CertificateRequestStatus.awaiting_review
    → IsVerdict new
    → can_transition_to s new ≡ true
unfolding can_transition_to
verdict_allowed s new e (inl k) = rw (e, k) refl
verdict_allowed s new e (inr k) = rw (e, k) refl

pub Step-Follows : {x y : CertificateRequest} → Step x y → Follows x y
unfolding can_transition_to
Step-Follows (stay r) = record {
  same_owner = (refl, refl);
  same_name = refl;
  same_days = refl;
  allowed = inl refl;
}
Step-Follows (review r new e v) = record {
  same_owner = (refl, refl);
  same_name = refl;
  same_days = refl;
  allowed = inr (verdict_allowed r.status new e v);
}
Step-Follows (reserve r e) = record {
  same_owner = (refl, refl);
  same_name = refl;
  same_days = refl;
  allowed = inr (ap (λ s. can_transition_to s CertificateRequestStatus.pending) e);
}
Step-Follows (create r identifier metadata e) = record {
  same_owner = (refl, refl);
  same_name = refl;
  same_days = refl;
  allowed = inr (ap (λ s. can_transition_to s CertificateRequestStatus.pending) e);
}
Step-Follows (issue r d e k) = record {
  same_owner = (refl, refl);
  same_name = refl;
  same_days = refl;
  allowed = inr (ap (λ s. can_transition_to s CertificateRequestStatus.issued) e);
}

-- a status that no action leaves: a final one, or that of an issued certificate
abbrev pub is_settled : CertificateRequestStatus → Bool
is_settled s = is_terminal s || same_status s CertificateRequestStatus.issued

settled_status :
    {s k : CertificateRequestStatus} → s ≡ k → is_settled k ≡ false → is_settled s ≡ false
settled_status e h = ap is_settled e ∙ h

pub Step-settled : {x y : CertificateRequest} → Step x y → is_settled x.status ≡ true → y ≡ x
unfolding is_terminal
Step-settled (stay r) h = refl
Step-settled (review r new e v) h = absurd (cc (settled_status e refl))
Step-settled (reserve r e) h = absurd (cc (settled_status e refl))
Step-settled (create r identifier metadata e) h = absurd (cc (settled_status e refl))
Step-settled (issue r d e k) h = absurd (cc (settled_status e refl))

-- pending, and without the identifier of a certificate
abbrev pub IsStranded : CertificateRequest → Type 0
IsStranded x = (x.status ≡ CertificateRequestStatus.pending) × (x.certificate_identifier ≡ none)

pub Step-stranded : {x y : CertificateRequest} → Step x y → IsStranded x → y ≡ x
Step-stranded (stay r) h = refl
Step-stranded (review r new e v) h = absurd (cc)
Step-stranded (reserve r e) h = absurd (cc)
Step-stranded (create r identifier metadata e) h = absurd (cc)
Step-stranded (issue r d e k) h = absurd (cc (ap is_known h.1))
