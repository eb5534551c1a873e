-- ===== src/Storage/Certificates/Recording.antt =====
-- The audit trail: the current status of each certificate request is that of one of its events.
use dashboard_site.Common.{
  ℕ, ◌≡◌, refl, sym, subst, String, Bool, true, ◌&&◌, ◌||◌, Option, List, [], ◌∷◌, ◌++◌, arith, eqb,
  eqb_iff, All, All-concat, any_where, any_where-append, update_where, Bool-cases, inl, inr,
}
use dashboard_site.Models.Certificate.{
  CertificateRequest, CertificateEvent, CertificateRequestStatus, same_status,
}
use dashboard_site.Storage.Sql.{Result, ok, err, Sql, exec, request_not_found}
use dashboard_site.Storage.Sql.Keeps.{
  Keeps, Keeps-pure, Keeps-raise, Keeps-if, Keeps-query, Keeps-exec, Keeps-bind,
}
use dashboard_site.Storage.Sql.Ensures.{
  Ensures, Ensures-query, Ensures-exec, Ensures-bind, Ensures-if, Ensures-raise,
  Ensures-transaction,
}
use dashboard_site.Storage.Certificates.Schema.{
  Tables, restore, has_id, is_filled, NewRequest, new_event, insert_request, insert_event,
}
use dashboard_site.Storage.Certificates.Read.{of_request, get_certificate_request_by_id}
use dashboard_site.Storage.Certificates.Write.{
  update_request, set_status, set_metadata, set_issued, Issuance, create_certificate_request,
  update_certificate_request_status, update_certificate_metadata, update_certificate_request_issued,
}

-- an event that gave the request its status
abbrev pub gave : CertificateRequest → CertificateEvent → Bool
gave r v = of_request r.id v && same_status v.new_status r.status

abbrev pub is_recorded : List CertificateEvent → CertificateRequest → Bool
is_recorded events r =
    same_status r.status CertificateRequestStatus.awaiting_review || any_where (gave r) events

abbrev pub IsRecorded : Tables → Type 0
IsRecorded t = All (λ r. is_recorded t.events r ≡ true) t.requests

same_status_refl : (s : CertificateRequestStatus) → same_status s s ≡ true
same_status_refl CertificateRequestStatus.awaiting_review = refl
same_status_refl CertificateRequestStatus.approved = refl
same_status_refl CertificateRequestStatus.rejected = refl
same_status_refl CertificateRequestStatus.pending = refl
same_status_refl CertificateRequestStatus.issued = refl
same_status_refl CertificateRequestStatus.failed = refl
same_status_refl CertificateRequestStatus.completed = refl

-- more events do no harm
grown :
    (events : List CertificateEvent) (v : CertificateEvent) (r : CertificateRequest)
    → is_recorded events r ≡ true
    → is_recorded (events ++ v ∷ []) r ≡ true
grown events v r h = ground (arith, any_where-append (gave r) events (v ∷ []))

module _ (n : ℕ) (new : CertificateRequestStatus) (f : CertificateRequest → CertificateRequest)
    (same : (r : CertificateRequest) → (f r).id ≡ r.id)
    (sets : (r : CertificateRequest) → (f r).status ≡ new) (v : CertificateEvent)
    (of_it : v.certificate_request_id ≡ n) (gives : v.new_status ≡ new) where
  given :
      (events : List CertificateEvent) (r : CertificateRequest)
      → r.id ≡ n
      → is_recorded (events ++ v ∷ []) (f r) ≡ true
  unfolding any_where
  given events r e =
      let here : gave (f r) v ≡ true =
        rw (of_it, gives, same r, sets r, e, (eqb_iff n n).1 refl, same_status_refl new) refl in
      ground (arith, any_where-append (gave (f r)) events (v ∷ []))

  rows_recorded :
      (events : List CertificateEvent) (rows : List CertificateRequest)
      → All (λ r. is_recorded events r ≡ true) rows
      → All (λ r. is_recorded (events ++ v ∷ []) r ≡ true) (update_where (has_id n) f rows)
  unfolding update_where
  rows_recorded events [] h = tt
  rows_recorded events (r ∷ rows) h = elim (Bool-cases (has_id n r)) [
    | inl e ↦ rw e (given events r ((eqb_iff r.id n).0 e), rows_recorded events rows h.1)
    | inr e ↦ rw e (grown events v r h.0, rows_recorded events rows h.1)
  ]

module _ (n : ℕ) (new : CertificateRequestStatus) (f : CertificateRequest → CertificateRequest)
    (same : (r : CertificateRequest) → (f r).id ≡ r.id)
    (sets : (r : CertificateRequest) → (f r).status ≡ new) where
  -- the rows are updated, and the event is still missing
  record Between (t : Tables) : Type 0 where
    rows : List CertificateRequest
    updated : t.requests ≡ update_where (has_id n) f rows
    recorded : All (λ r. is_recorded t.events r ≡ true) rows

  abbrev Body : {A : Type 0} → Tables → Result A → Tables → ℕ → Type 0
  Body old (ok _) t c = IsRecorded t
  Body old (err e) t c = Unit

  abbrev Half : {A : Type 0} → Result A → Tables → ℕ → Type 0
  Half (ok _) t c = Between t
  Half (err e) t c = Unit

  updating : Ensures (λ t c. IsRecorded t) (update_request n f) Half
  unfolding update_request
  updating =
      Ensures-exec _ _ _ (λ t c h. record { rows = t.requests; updated = refl; recorded = h })
        (λ t c h. tt)

  event_cases :
      (old : Tables) (iss sub by_iss by_sub notes : String) (t : Tables) (c : ℕ)
      → Between t
      → Body old
          (insert_event n iss sub by_iss by_sub new notes t c).0
          (insert_event n iss sub by_iss by_sub new notes t c).1
          c
  unfolding insert_event
  event_cases old iss sub by_iss by_sub notes t c h =
      elim (Bool-cases
        (any_where (has_id n) t.requests && is_filled iss sub && is_filled by_iss by_sub)) [
          | inl e ↦
              let v = new_event n iss sub by_iss by_sub new notes t.next_event_id c in
              rw e (
                subst (All (λ r. is_recorded (t.events ++ v ∷ []) r ≡ true)) (sym h.updated)
                  (rows_recorded n new f same sets v refl refl t.events h.rows h.recorded))
          | inr e ↦ rw e tt
        ]

  event_ensures :
      (old : Tables) (iss sub by_iss by_sub notes : String)
      → Ensures
          (λ t c. Between t)
          (exec (insert_event n iss sub by_iss by_sub new notes))
          (Body old)
  event_ensures old iss sub by_iss by_sub notes =
      Ensures-exec _ _ _ (event_cases old iss sub by_iss by_sub notes) (λ t c h. tt)

-- both results of a call
abbrev Always : {A : Type 0} → Result A → Tables → ℕ → Type 0
Always r t c = IsRecorded t

always :
    {A : Type 0} (m : Sql Tables A) → Ensures (λ t c. IsRecorded t) m Always → Keeps IsRecorded m
always m e = record { at = λ s h. e.at s h }

pub status-IsRecorded :
    (n : ℕ) (new : CertificateRequestStatus) (iss sub notes : String)
    → Keeps IsRecorded (update_certificate_request_status n new iss sub notes)
unfolding update_certificate_request_status
status-IsRecorded n new iss sub notes = always _ (
    Ensures-transaction restore (λ t c. IsRecorded t)
      (Body n new (set_status new) (λ r. refl) (λ r. refl)) Always (λ old t a now c h k. k)
      (λ old t e now c h k. h) (λ old t a now c h k. h) (λ old c h. h) _
      (λ old now h.
        Ensures-bind (λ (r : Result CertificateRequest) t c. IsRecorded t) _ _
          (Ensures-query _ _ _ (λ t c k. subst IsRecorded (sym k.0) h)
            (λ t c k. subst IsRecorded (sym k.0) h))
          (λ current.
            Ensures-bind (Half n new (set_status new) (λ r. refl) (λ r. refl)) _ _
              (updating n new (set_status new) (λ r. refl) (λ r. refl))
              (λ _.
                event_ensures n new (set_status new) (λ r. refl) (λ r. refl) old current.owner_iss
                  current.owner_sub iss sub notes)
              (λ e t c k. tt))
          (λ e t c k. tt)))

pub issued-IsRecorded :
    (n : ℕ) (d : Issuance) (iss sub : String)
    → Keeps IsRecorded (update_certificate_request_issued n d iss sub)
unfolding update_certificate_request_issued
issued-IsRecorded n d iss sub =
    let issued = CertificateRequestStatus.issued in
    always _ (
      Ensures-transaction restore (λ t c. IsRecorded t)
        (Body n issued (set_issued d) (λ r. refl) (λ r. refl)) Always (λ old t a now c h k. k)
        (λ old t e now c h k. h) (λ old t a now c h k. h) (λ old c h. h) _
        (λ old now h.
          Ensures-bind (λ (r : Result CertificateRequest) t c. IsRecorded t) _ _
            (Ensures-query _ _ _ (λ t c k. subst IsRecorded (sym k.0) h)
              (λ t c k. subst IsRecorded (sym k.0) h))
            (λ current.
              Ensures-bind (Half n issued (set_issued d) (λ r. refl) (λ r. refl)) _ _
                (updating n issued (set_issued d) (λ r. refl) (λ r. refl))
                (λ affected.
                  Ensures-if (eqb affected 0) _ _ (Ensures-raise request_not_found (λ t c k. tt)) (
                    event_ensures n issued (set_issued d) (λ r. refl) (λ r. refl) old
                      current.owner_iss current.owner_sub iss sub
                      "Certificate issued by cert-manager"))
                (λ e t c k. tt))
            (λ e t c k. tt)))

metadata_rows :
    (n : ℕ) (identifier : String) (metadata : Option String) (events : List CertificateEvent)
    (rows : List CertificateRequest)
    → All (λ r. is_recorded events r ≡ true) rows
    → All
        (λ r. is_recorded events r ≡ true)
        (update_where (has_id n) (set_metadata identifier metadata) rows)
unfolding update_where
metadata_rows n identifier metadata events [] h = tt
metadata_rows n identifier metadata events (r ∷ rows) h = elim (Bool-cases (has_id n r)) [
  | inl e ↦ rw e (h.0, metadata_rows n identifier metadata events rows h.1)
  | inr e ↦ rw e (h.0, metadata_rows n identifier metadata events rows h.1)
]

pub metadata-IsRecorded :
    (n : ℕ) (identifier : String) (metadata : Option String)
    → Keeps IsRecorded (update_certificate_metadata n identifier metadata)
unfolding update_certificate_metadata update_request
metadata-IsRecorded n identifier metadata =
    Keeps-bind _ _
      (Keeps-exec _ λ t now h. metadata_rows n identifier metadata t.events t.requests h)
      λ affected. Keeps-if (eqb affected 0) _ _ (Keeps-raise request_not_found) (Keeps-pure tt)

insert_cases :
    (a : NewRequest) (t : Tables) (now : ℕ)
    → a.status ≡ CertificateRequestStatus.awaiting_review
    → IsRecorded t
    → IsRecorded (insert_request a t now).1
unfolding insert_request
insert_cases a t now e h = elim (Bool-cases (is_filled a.owner_iss a.owner_sub)) [
  | inl k ↦ rw k (All-concat (λ r. is_recorded t.events r ≡ true) t.requests _ h (rw e refl))
  | inr k ↦ rw k h
]

pub creation-IsRecorded :
    (a : NewRequest)
    → a.status ≡ CertificateRequestStatus.awaiting_review
    → Keeps IsRecorded (create_certificate_request a)
unfolding create_certificate_request get_certificate_request_by_id
creation-IsRecorded a e =
    Keeps-bind _ _ (Keeps-exec _ (λ t now h. insert_cases a t now e h))
      λ n. Keeps-bind _ _ (Keeps-query _) λ r. Keeps-bind _ _ (Keeps-query _) λ vs. Keeps-pure _
