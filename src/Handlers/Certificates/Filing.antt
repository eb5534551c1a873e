-- ===== src/Handlers/Certificates/Filing.antt =====
-- The outcomes of POSTCertificateRequest.
use dashboard_site.Common.{
  ℕ, ◌<◌, ◌≡◌, ◌⊎◌, ◌∙◌, inl, inr, refl, sym, ap, subst, String, Bool, true, false, none, Option,
  List, [], ◌∷◌, ◌++◌, arith, eqb, eqb_iff, All, any_where, any_where-map, any_where-false,
  find_where, find_where-append_one, update_where, update_where-append_one, Bool-cases, some-cancel,
  if◌then◌else◌,
}
use dashboard_site.Config.{Config}
use dashboard_site.Models.Principal.{Principal, has_scope}
use dashboard_site.Models.Certificate.{CertificateRequest, CertificateRequestStatus, RequestView}
use dashboard_site.Storage.Sql.{Result, ok, err, Session}
use dashboard_site.Storage.Sql.Ensures.{Ensures, Ensures-exec, Ensures-bind}
use dashboard_site.Storage.Certificates.Schema.{
  Tables, has_id, is_filled, NewRequest, new_row, insert_request,
}
use dashboard_site.Storage.Certificates.Write.{
  set_status, create_certificate_request, update_certificate_request_status,
}
use dashboard_site.Storage.Certificates.Tracking.{RowAt}
use dashboard_site.Storage.Certificates.Loading.{Loaded, load_ensures}
use dashboard_site.Storage.Certificates.Soundness.{IsSound, ids}
use dashboard_site.Handlers.Http.{Reply, success, error}
use dashboard_site.Handlers.Http.Replies.{
  Replies, Replies-finish, Replies-if, Replies-checked, Replies-attempt,
}
use dashboard_site.Handlers.Scopes.{mtls_auto_approve_cert}
use dashboard_site.Handlers.Certificates.{
  CertificateBody, check_request, read_back, auto_approve, post_certificate_request,
}
use dashboard_site.Handlers.Certificates.Requesting.{IsWanted, check_request-IsWanted}
use dashboard_site.Handlers.Certificates.Deciding.{At, status_ensures, Marked}

none_has :
    (n : ℕ) (rows : List CertificateRequest)
    → All (λ k. k < n) (ids rows)
    → any_where (has_id n) rows ≡ false
none_has n rows h =
    sym (any_where-map (λ k. eqb k n) (λ r. r.id) rows)
    ∙ any_where-false (λ k. k < n) (λ k. eqb k n) (ids rows) (λ k l. ground arith) h

module _ (cfg : Config) (who : Option Principal) (body : Option CertificateBody) (old : Tables)
    (now : ℕ) where
  -- the row that a request adds, with a status
  abbrev pub added : NewRequest → CertificateRequestStatus → CertificateRequest
  added a s = record {
    id = old.next_id;
    owner_iss = a.owner_iss;
    owner_sub = a.owner_sub;
    message = a.message;
    common_name = a.common_name;
    dns_names = a.dns_names;
    organizational_units = a.organizational_units;
    validity_days = a.validity_days;
    status = s;
    requested_at = now;
    certificate_identifier = none;
    provider_metadata = none;
    issued_at = none;
    expires_at = none;
    serial_number = none;
    certificate_pem = none;
  }

  abbrev pub Appended : CertificateRequest → Tables → Type 0
  Appended row t = t.requests ≡ old.requests ++ row ∷ []

  abbrev pub awaits : CertificateRequestStatus
  awaits = CertificateRequestStatus.awaiting_review

  abbrev pub first_status : Principal → CertificateRequestStatus
  first_status p =
      if has_scope cfg p mtls_auto_approve_cert then CertificateRequestStatus.approved else awaits

  -- A request has been stored for someone who may ask for it; `now_status` is its status.
  pub record IsFiled (now_status : Principal → CertificateRequestStatus) (t : Tables) : Type 0 where
    pub asker : Principal × NewRequest
    pub wanted : IsWanted cfg who body asker
    pub stored : Appended (added asker.1 (now_status asker.0)) t

  abbrev pub Filed : Reply RequestView → Tables → Type 0
  Filed (success v) t =
      (f : IsFiled first_status t) × (v.request ≡ added f.asker.1 (first_status f.asker.0))
  Filed (error k) t =
      (t.requests ≡ old.requests) ⊎ ((k ≡ 500) × (IsFiled (λ p. awaits) t ⊎ IsFiled first_status t))

  module _ (sound : IsSound old) where
    fresh : any_where (has_id old.next_id) old.requests ≡ false
    fresh = none_has old.next_id old.requests sound.fresh

    appended_row :
        (row : CertificateRequest) (t : Tables)
        → row.id ≡ old.next_id
        → Appended row t
        → RowAt old.next_id row t
    appended_row row t e h =
        ap (find_where (has_id old.next_id)) h
        ∙ find_where-append_one (has_id old.next_id) old.requests row fresh
            ((eqb_iff row.id old.next_id).1 e)

    module _ (q : Principal × NewRequest) (wants : IsWanted cfg who body q) where
      awaiting : q.1.status ≡ awaits
      awaiting = ap (λ a. a.status) wants.made

      abbrev Created : Result RequestView → Tables → ℕ → Type 0
      Created (ok v) t c =
          (v.request ≡ added q.1 awaits)
          × (v.request.id ≡ old.next_id)
          × Appended (added q.1 awaits) t
      Created (err e) t c = (t.requests ≡ old.requests) ⊎ Appended (added q.1 awaits) t

      abbrev Inserted : Result ℕ → Tables → ℕ → Type 0
      Inserted (ok n) t c = (n ≡ old.next_id) × Appended (added q.1 awaits) t
      Inserted (err e) t c = t.requests ≡ old.requests

      insert_cases :
          (t : Tables) (c : ℕ)
          → At old now t c
          → Inserted (insert_request q.1 t c).0 (insert_request q.1 t c).1 c
      unfolding insert_request
      insert_cases t c (e, k) = elim (Bool-cases (is_filled q.1.owner_iss q.1.owner_sub)) [
        | inl u ↦ rw u (
          ap (λ x. x.next_id) e,
          (λ i. (e i).requests ++ new_row q.1 (e i).next_id (k i) ∷ [])
              ∙ ap (λ s. old.requests ++ set_status s (new_row q.1 old.next_id now) ∷ []) awaiting,
        )
        | inr u ↦ rw u (ap (λ x. x.requests) e)
      ]

      created :
          (n : ℕ) (r : Result RequestView) (t : Tables) (c : ℕ)
          → Loaded (Inserted (ok n)) n r t c
          → Created r t c
      created n (ok v) t c (row, (e, h)) =
          let same : v.request ≡ added q.1 awaits = some-cancel _ _ (
            sym (subst (λ (j : ℕ). RowAt j v.request t) e row)
            ∙ appended_row (added q.1 awaits) t refl h) in
          (same, ap (λ r. r.id) same, h)
      created n (err e) t c h = inr h.1

      creates : Ensures (At old now) (create_certificate_request q.1) Created
      unfolding create_certificate_request
      creates =
          Ensures-bind Inserted _ _
            (Ensures-exec _ _ _ insert_cases (λ t c h. ap (λ x. x.requests) h.0))
            (λ n. record {
              at = λ s h. created n _ _ _ ((load_ensures (Inserted (ok n)) n).at s h);
            })
            (λ e t c h. inl h)

      filed :
          (s : Principal → CertificateRequestStatus) (t : Tables)
          → Appended (added q.1 (s q.0)) t
          → IsFiled s t
      filed s t h = record { asker = q; wanted = wants; stored = h }

      -- the request as it is read back, with the status that it has
      back :
          (k : ℕ)
          → k ≡ old.next_id
          → Replies
              (λ t c. Appended (added q.1 (first_status q.0)) t)
              (read_back k)
              (λ r t c. Filed r t)
      unfolding filed
      back k e =
          Replies-attempt (Loaded (λ t c. Appended (added q.1 (first_status q.0)) t) k) _ _ _
            (load_ensures (λ t c. Appended (added q.1 (first_status q.0)) t) k)
            (λ x t c h. inr (refl, inr (filed first_status t h)))
            (λ v. Replies-finish (success v) (λ t c h. (
              filed first_status t h.1,
              some-cancel _ _ (
                  sym (subst (λ (j : ℕ). RowAt j v.request t) e h.0)
                  ∙ appended_row (added q.1 (first_status q.0)) t refl h.1),
            )))

      abbrev Approved : Result Unit → Tables → ℕ → Type 0
      Approved (ok _) t c = Appended (added q.1 CertificateRequestStatus.approved) t
      Approved (err e) t c = Appended (added q.1 awaits) t

      approved :
          (u t : Tables) (c d : ℕ) (iss sub notes : String) (r : Result Unit)
          → Appended (added q.1 awaits) u
          → Marked u d old.next_id CertificateRequestStatus.approved iss sub notes r t c
          → Approved r t c
      approved u t c d iss sub notes (ok _) h k =
          k.2.0
          ∙ ap (update_where (has_id old.next_id) (set_status CertificateRequestStatus.approved)) h
          ∙ update_where-append_one (has_id old.next_id)
              (set_status CertificateRequestStatus.approved) old.requests (added q.1 awaits) fresh
              ((eqb_iff old.next_id old.next_id).1 refl)
      approved u t c d iss sub notes (err e) h k = k.0 ∙ h

      approves :
          (k : ℕ) (iss sub notes : String)
          → k ≡ old.next_id
          → Ensures
              (λ t c. Appended (added q.1 awaits) t)
              (update_certificate_request_status k CertificateRequestStatus.approved iss sub notes)
              Approved
      approves k iss sub notes e = record {
        at = λ s h.
            subst
              (λ (j : ℕ).
                Approved
                  (update_certificate_request_status j CertificateRequestStatus.approved iss sub
                    notes s).0
                  (update_certificate_request_status j CertificateRequestStatus.approved iss sub
                    notes s).1.tables
                  (update_certificate_request_status j CertificateRequestStatus.approved iss sub
                    notes s).1.clock)
              (sym e)
              (approved s.tables _ _ s.clock iss sub notes _ h (
                (status_ensures s.tables s.clock old.next_id CertificateRequestStatus.approved iss
                    sub notes).at
                  s (refl, refl)));
      }

      status_is :
          (b : Bool) (t : Tables)
          → has_scope cfg q.0 mtls_auto_approve_cert ≡ b
          → Appended (added q.1 (if b then CertificateRequestStatus.approved else awaits)) t
          → Appended (added q.1 (first_status q.0)) t
      status_is b t e h =
          subst
            (λ (x : Bool).
              Appended (added q.1 (if x then CertificateRequestStatus.approved else awaits)) t)
            (sym e) h

      deciding :
          (k : ℕ)
          → k ≡ old.next_id
          → Replies
              (λ t c. Appended (added q.1 awaits) t)
              (auto_approve cfg q.0 k)
              (λ r t c. Filed r t)
      unfolding auto_approve
      deciding k e =
          Replies-if (has_scope cfg q.0 mtls_auto_approve_cert) _ _
            (λ yes'.
              Replies-attempt Approved _ _ _
                (approves k cfg.external_url "system" "Auto Approved" e)
                (λ x t c h. inr (refl, inl (filed (λ p. awaits) t h)))
                (λ _. record { at = λ s h. (back k e).at s (status_is true s.tables yes' h) }))
            (λ no'. record { at = λ s h. (back k e).at s (status_is false s.tables no' h) })

      after_creation :
          (v : RequestView)
          → Replies (Created (ok v)) (auto_approve cfg q.0 v.request.id) (λ r t c. Filed r t)
      after_creation v = record { at = λ s h. (deciding v.request.id h.1).at s h.2 }

      unfinished :
          (x : Tables)
          → (x.requests ≡ old.requests) ⊎ Appended (added q.1 awaits) x
          → Filed (error 500) x
      unfinished x (inl h) = inl h
      unfinished x (inr h) = inr (refl, inl (filed (λ p. awaits) x h))

    filing_replies :
        Replies (At old now) (post_certificate_request cfg who body) (λ r t c. Filed r t)
    unfolding post_certificate_request
    filing_replies =
        Replies-checked (check_request cfg who body) _
          (λ q passed.
            let wants = check_request-IsWanted cfg who body q passed in
            Replies-attempt (Created q wants) _ _ _ (creates q wants)
              (λ x t c h. unfinished q wants t h) (after_creation q wants))
          (λ k t c _ h. inl (ap (λ u. u.requests) h.0))

-- What a request for a certificate can do in a sound state, whichever statements fail. If it succeeds,
-- the caller has the scope to request certificates and the validity, 90 days by default, is within the
-- configured bounds; one row has been added, owned by the caller, approved where the caller has the
-- scope for automatic approval and awaiting its review otherwise, and the reply shows it. If it
-- replies with an error, nothing has been added, or the status is 500 and that row is stored,
-- approved or still awaiting its review.
pub filing_outcome :
    (cfg : Config) (who : Option Principal) (body : Option CertificateBody) (s : Session Tables)
    → IsSound s.tables
    → Filed cfg who body s.tables s.clock
        (post_certificate_request cfg who body s).0
        (post_certificate_request cfg who body s).1.tables
filing_outcome cfg who body s sound =
    (filing_replies cfg who body s.tables s.clock sound).at s (refl, refl)
