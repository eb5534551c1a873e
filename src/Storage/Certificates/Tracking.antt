-- ===== src/Storage/Certificates/Tracking.antt =====
-- What the statements do to the request of one id, whichever of them fail.
use dashboard_site.Common.{
  ℕ, ◌≡◌, ◌≢◌, ◌∙◌, ◌⊎◌, refl, ap, String, ◌&&◌, Option, some, arith, eqb, eqb_iff, Bool-cases, inl,
  inr, any_where, find_where, update_where, find_where-update_here, find_where-update_other,
}
use dashboard_site.Models.Certificate.{CertificateRequest, CertificateRequestStatus}
use dashboard_site.Storage.Sql.{Result, ok, err, request_not_found, exec}
use dashboard_site.Storage.Sql.Keeps.{
  Keeps, Keeps-pure, Keeps-raise, Keeps-query, Keeps-exec, Keeps-bind, Keeps-transaction, Keeps-if,
}
use dashboard_site.Storage.Sql.Ensures.{
  Ensures, Ensures-raise, Ensures-query, Ensures-exec, Ensures-bind, Ensures-if,
  Ensures-transaction, Ensures-pure,
}
use dashboard_site.Storage.Certificates.Schema.{Tables, restore, has_id, is_filled, insert_event}
use dashboard_site.Storage.Certificates.Write.{
  update_request, set_status, set_metadata, set_issued, Issuance, update_certificate_request_status,
  update_certificate_metadata, update_certificate_request_issued,
}

-- the row of the id
abbrev pub RowAt : ℕ → CertificateRequest → Tables → Type 0
RowAt n x t = find_where (has_id n) t.requests ≡ some x

abbrev pub Holds : ℕ → CertificateRequest → Tables → ℕ → Type 0
Holds n x t c = RowAt n x t

pub insert_event-requests :
    (n : ℕ) (iss sub by_iss by_sub : String) (status : CertificateRequestStatus) (notes : String)
    (t : Tables) (now : ℕ)
    → (insert_event n iss sub by_iss by_sub status notes t now).1.requests ≡ t.requests
unfolding insert_event
insert_event-requests n iss sub by_iss by_sub status notes t now =
    elim (Bool-cases
      (any_where (has_id n) t.requests && is_filled iss sub && is_filled by_iss by_sub)) [
        | inl e ↦ rw e refl
        | inr e ↦ rw e refl
      ]

module _ (n : ℕ) (x : CertificateRequest) where
  pub event-Keeps :
      (m : ℕ) (iss sub by_iss by_sub : String) (status : CertificateRequestStatus) (notes : String)
      → Keeps (RowAt n x) (exec (insert_event m iss sub by_iss by_sub status notes))
  event-Keeps m iss sub by_iss by_sub status notes = Keeps-exec _ λ t now h.
      ap (find_where (has_id n)) (insert_event-requests m iss sub by_iss by_sub status notes t now)
      ∙ h

  other_row :
      (m : ℕ)
      → n ≢ m
      → (f : CertificateRequest → CertificateRequest) → ((r : CertificateRequest) → (f r).id ≡ r.id)
      → (t : Tables) → RowAt n x t
      → find_where (has_id n) (update_where (has_id m) f t.requests) ≡ some x
  other_row m apart f same t h =
      find_where-update_other (has_id n) (has_id m) f
        (λ r k. (ground (arith, eqb_iff r.id m), ground (arith, same r, eqb_iff r.id m))) t.requests
      ∙ h

  module _ (m : ℕ) (apart : n ≢ m) where
    update-other :
        (f : CertificateRequest → CertificateRequest)
        → ((r : CertificateRequest) → (f r).id ≡ r.id)
        → Keeps (RowAt n x) (update_request m f)
    unfolding update_request
    update-other f same = Keeps-exec _ λ t now h. other_row m apart f same t h

    pub status-other :
        (new : CertificateRequestStatus) (iss sub notes : String)
        → Keeps (RowAt n x) (update_certificate_request_status m new iss sub notes)
    unfolding update_certificate_request_status
    status-other new iss sub notes =
        Keeps-transaction restore (λ old. RowAt n x) (λ old h. h) (λ old new h k. h)
          (λ old new h k. k) _
          (λ old. Keeps-bind _ _ (Keeps-query _) λ current.
            Keeps-bind _ _ (update-other (set_status new) (λ r. refl))
              λ _. event-Keeps m current.owner_iss current.owner_sub iss sub new notes)

    pub metadata-other :
        (identifier : String) (metadata : Option String)
        → Keeps (RowAt n x) (update_certificate_metadata m identifier metadata)
    unfolding update_certificate_metadata
    metadata-other identifier metadata =
        Keeps-bind _ _ (update-other (set_metadata identifier metadata) (λ r. refl))
          λ affected. Keeps-if (eqb affected 0) _ _ (Keeps-raise request_not_found) (Keeps-pure tt)

    pub issued-other :
        (d : Issuance) (iss sub : String)
        → Keeps (RowAt n x) (update_certificate_request_issued m d iss sub)
    unfolding update_certificate_request_issued
    issued-other d iss sub =
        Keeps-transaction restore (λ old. RowAt n x) (λ old h. h) (λ old new h k. h)
          (λ old new h k. k) _
          (λ old. Keeps-bind _ _ (Keeps-query _) λ current.
            Keeps-bind _ _ (update-other (set_issued d) (λ r. refl)) λ affected.
              Keeps-if (eqb affected 0) _ _ (Keeps-raise request_not_found) (
                event-Keeps m current.owner_iss current.owner_sub iss sub
                  CertificateRequestStatus.issued "Certificate issued by cert-manager"))

  -- an update of the row: done, or left
  abbrev pub Updated : {A : Type 0} → CertificateRequest → Result A → Tables → ℕ → Type 0
  Updated y (ok _) t c = RowAt n y t
  Updated y (err e) t c = RowAt n x t

  abbrev Here :
      {A : Type 0} → (CertificateRequest → CertificateRequest) → Result A → Tables → ℕ → Type 0
  Here f = Updated (f x)

  update-Here :
      (f : CertificateRequest → CertificateRequest)
      → ((r : CertificateRequest) → (f r).id ≡ r.id)
      → Ensures (Holds n x) (update_request n f) (Here f)
  unfolding update_request
  update-Here f same =
      Ensures-exec (Holds n x) (Here f) _
        (λ t c h.
          find_where-update_here (has_id n) f (λ r. ap (λ k. eqb k n) (same r)) t.requests x h)
        (λ t c h. h)

  -- within the transactions: the row before the update, and after
  abbrev Body :
      {A : Type 0}
      → (CertificateRequest → CertificateRequest)
      → Tables
      → Result A
      → Tables
      → ℕ
      → Type 0
  Body f old (ok _) t c = RowAt n (f x) t
  Body f old (err e) t c = Unit

  event-here :
      (f : CertificateRequest → CertificateRequest) (old : Tables) (iss sub by_iss by_sub : String)
      (status : CertificateRequestStatus) (notes : String)
      → Ensures
          (λ t c. RowAt n (f x) t)
          (exec (insert_event n iss sub by_iss by_sub status notes))
          (Body f old)
  event-here f old iss sub by_iss by_sub status notes =
      Ensures-exec _ _ _
        (λ t c h.
          either (insert_event n iss sub by_iss by_sub status notes t c).0
            (insert_event n iss sub by_iss by_sub status notes t c).1 c
            (ap (find_where (has_id n))
                (insert_event-requests n iss sub by_iss by_sub status notes t c)
              ∙ h))
        (λ t c h. tt)
    where
      either : (r : Result Unit) (t : Tables) (c : ℕ) → RowAt n (f x) t → Body f old r t c
      either (ok _) t c h = h
      either (err e) t c h = tt

  pub status-here :
      (new : CertificateRequestStatus) (iss sub notes : String)
      → Ensures
          (Holds n x)
          (update_certificate_request_status n new iss sub notes)
          (Updated (set_status new x))
  unfolding update_certificate_request_status
  status-here new iss sub notes =
      Ensures-transaction restore (Holds n x) (Body (set_status new)) (Updated (set_status new x))
        (λ old t a now c h k. k) (λ old t e now c h k. h) (λ old t a now c h k. h) (λ old c h. h) _
        (λ old now h.
          Ensures-bind (λ (r : Result CertificateRequest) t c. RowAt n x t) _ _
            (Ensures-query _ _ _ (λ t c k. ap (λ u. find_where (has_id n) u.requests) k.0 ∙ h)
              (λ t c k. ap (λ u. find_where (has_id n) u.requests) k.0 ∙ h))
            (λ current.
              Ensures-bind (Here (set_status new)) _ _ (update-Here (set_status new) (λ r. refl))
                (λ _.
                  event-here (set_status new) old current.owner_iss current.owner_sub iss sub new
                    notes)
                (λ e t c k. tt))
            (λ e t c k. tt))

  pub issued-here :
      (d : Issuance) (iss sub : String)
      → Ensures
          (Holds n x)
          (update_certificate_request_issued n d iss sub)
          (Updated (set_issued d x))
  unfolding update_certificate_request_issued
  issued-here d iss sub =
      Ensures-transaction restore (Holds n x) (Body (set_issued d)) (Updated (set_issued d x))
        (λ old t a now c h k. k) (λ old t e now c h k. h) (λ old t a now c h k. h) (λ old c h. h) _
        (λ old now h.
          Ensures-bind (λ (r : Result CertificateRequest) t c. RowAt n x t) _ _
            (Ensures-query _ _ _ (λ t c k. ap (λ u. find_where (has_id n) u.requests) k.0 ∙ h)
              (λ t c k. ap (λ u. find_where (has_id n) u.requests) k.0 ∙ h))
            (λ current.
              Ensures-bind (Here (set_issued d)) _ _ (update-Here (set_issued d) (λ r. refl))
                (λ affected.
                  Ensures-if (eqb affected 0) _ _ (Ensures-raise request_not_found (λ t c k. tt)) (
                    event-here (set_issued d) old current.owner_iss current.owner_sub iss sub
                      CertificateRequestStatus.issued "Certificate issued by cert-manager"))
                (λ e t c k. tt))
            (λ e t c k. tt))

  pub metadata-here :
      (identifier : String) (metadata : Option String)
      → Ensures
          (Holds n x)
          (update_certificate_metadata n identifier metadata)
          (λ r t c. RowAt n x t ⊎ RowAt n (set_metadata identifier metadata x) t)
  unfolding update_certificate_metadata
  metadata-here identifier metadata =
      Ensures-bind (Here (set_metadata identifier metadata)) _ _
        (update-Here (set_metadata identifier metadata) (λ r. refl))
        (λ affected.
          Ensures-if (eqb affected 0) _ _ (Ensures-raise request_not_found (λ t c k. inr k))
            (Ensures-pure tt (λ t c k. inr k)))
        (λ e t c k. inl k)
