-- ===== src/Models/Certificate.antt =====
-- internal/models/certificate.go. Points of time are numbers; the metadata of a provider, a JSON
-- value, is a text, and the names that queries join in are left out.
use dashboard_site.Common.{
  ℕ, String, Bool, true, false, ◌||◌, Option, List, [], ◌∷◌, any_where, ◌≡◌, ◌↔◌, refl,
}
use dashboard_site.Common.Int.{ℤ}

pub data CertificateRequestStatus : Type 0 where
  awaiting_review approved rejected pending issued failed completed : CertificateRequestStatus

abbrev pub same_status : CertificateRequestStatus → CertificateRequestStatus → Bool
same_status awaiting_review awaiting_review = true
same_status approved approved = true
same_status rejected rejected = true
same_status pending pending = true
same_status issued issued = true
same_status failed failed = true
same_status completed completed = true
same_status _ _ = false

-- the map `validTransitions`; a status that is no key has none
unfoldable pub get_valid_transitions : CertificateRequestStatus → List CertificateRequestStatus
get_valid_transitions awaiting_review = approved ∷ rejected ∷ []
get_valid_transitions approved = pending ∷ []
get_valid_transitions pending = issued ∷ failed ∷ []
get_valid_transitions issued = completed ∷ []
get_valid_transitions _ = []

unfoldable pub can_transition_to : CertificateRequestStatus → CertificateRequestStatus → Bool
unfolding get_valid_transitions any_where
can_transition_to s next = any_where (λ valid. same_status valid next) (get_valid_transitions s)

unfoldable pub is_terminal : CertificateRequestStatus → Bool
is_terminal s = same_status s rejected || same_status s failed || same_status s completed

-- a row of the table `certificate_requests`
pub record CertificateRequest : Type 0 where
  pub id : ℕ
  pub owner_iss : String
  pub owner_sub : String
  pub message : String
  pub common_name : String
  pub dns_names : List String
  pub organizational_units : List String
  pub validity_days : ℤ
  pub status : CertificateRequestStatus
  pub requested_at : ℕ
  pub certificate_identifier : Option String
  pub provider_metadata : Option String
  pub issued_at : Option ℕ
  pub expires_at : Option ℕ
  pub serial_number : Option String
  pub certificate_pem : Option String

pub record CertificateEvent : Type 0 where
  pub id : ℕ
  pub certificate_request_id : ℕ
  pub requester_iss : String
  pub requester_sub : String
  pub reviewer_iss : String
  pub reviewer_sub : String
  pub new_status : CertificateRequestStatus
  pub review_notes : String
  pub created_at : ℕ

-- a request as it is read, with its events
pub record RequestView : Type 0 where
  pub request : CertificateRequest
  pub events : List CertificateEvent

-- A status is terminal exactly when it can go over to no status.
pub is_terminal_iff :
    (s : CertificateRequestStatus)
    → (is_terminal s ≡ true) ↔ ((t : CertificateRequestStatus) → can_transition_to s t ≡ false)
unfolding is_terminal can_transition_to
is_terminal_iff awaiting_review = ((λ h. absurd (cc)), λ k. absurd (cc (k approved)))
is_terminal_iff approved = ((λ h. absurd (cc)), λ k. absurd (cc (k pending)))
is_terminal_iff rejected = ((λ h t. refl), λ k. refl)
is_terminal_iff pending = ((λ h. absurd (cc)), λ k. absurd (cc (k issued)))
is_terminal_iff issued = ((λ h. absurd (cc)), λ k. absurd (cc (k completed)))
is_terminal_iff failed = ((λ h t. refl), λ k. refl)
is_terminal_iff completed = ((λ h t. refl), λ k. refl)
