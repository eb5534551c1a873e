-- ===== src/Handlers/Certificates/Deciding.antt =====
-- The outcomes of POSTCertificateReview.
use dashboard_site.Common.{
  ℕ, ◌≡◌, ◌⊎◌, ◌∙◌, inl, inr, refl, sym, ap, subst, String, false, not, ◌&&◌, ◌==◌, arith, Option,
  some, [], ◌∷◌, ◌++◌, any_where, find_where, update_where, find_where-update_here, Bool-cases,
  some-cancel, none,
}
use dashboard_site.Config.{Config}
use dashboard_site.Models.Principal.{Principal, has_scope, get_iss, get_sub}
use dashboard_site.Models.Certificate.{
  CertificateRequest, CertificateEvent, CertificateRequestStatus, RequestView, same_status,
}
use dashboard_site.Storage.Sql.{Result, ok, err, Session}
use dashboard_site.Storage.Sql.Ensures.{
  Ensures, Ensures-query, Ensures-exec, Ensures-bind, Ensures-transaction,
}
use dashboard_site.Storage.Certificates.Schema.{
  Tables, restore, has_id, is_filled, new_event, insert_event,
}
use dashboard_site.Storage.Certificates.Read.{or_missing}
use dashboard_site.Storage.Certificates.Write.{
  update_request, set_status, update_certificate_request_status,
}
use dashboard_site.Storage.Certificates.Tracking.{RowAt}
use dashboard_site.Storage.Certificates.Loading.{Loaded, load_ensures, RowAt-id}
use dashboard_site.Handlers.Http.{Reply, success, error}
use dashboard_site.Handlers.Http.Replies.{
  Replies, Replies-finish, Replies-if, Replies-checked, Replies-attempt,
}
use dashboard_site.Handlers.Scopes.{mtls_self_approve_certs}
use dashboard_site.Handlers.Certificates.{
  ReviewBody, Verdict, check_review, is_own, read_back, review_request, post_certificate_review,
}
use dashboard_site.Handlers.Certificates.Reviewing.{
  IsAdmitted, check_review-IsAdmitted, same_status-awaiting,
}

module _ (old : Tables) (now : ℕ) where
  abbrev pub At : Tables → ℕ → Type 0
  At t c = (t ≡ old) × (c ≡ now)

  abbrev pub Same : Tables → Type 0
  Same t = (t.requests ≡ old.requests) × (t.events ≡ old.events)

  module _ (n : ℕ) (new : CertificateRequestStatus) (iss sub notes : String) where
    abbrev pub event : CertificateRequest → CertificateEvent
    event r = record {
      id = old.next_event_id;
      certificate_request_id = n;
      requester_iss = r.owner_iss;
      requester_sub = r.owner_sub;
      reviewer_iss = iss;
      reviewer_sub = sub;
      new_status = new;
      review_notes = notes;
      created_at = now;
    }

    -- the new status with its event
    abbrev pub Decided : CertificateRequest → Tables → Type 0
    Decided r t =
        (t.requests ≡ update_where (has_id n) (λ q. record q { status = new }) old.requests)
        × (t.events ≡ old.events ++ event r ∷ [])

    abbrev pub Marked : Result Unit → Tables → ℕ → Type 0
    Marked (ok _) t c = (r : CertificateRequest) × RowAt n r old × Decided r t
    Marked (err e) t c = Same t

    abbrev Found : Result CertificateRequest → Tables → ℕ → Type 0
    Found (ok r) t c = RowAt n r old × At t c
    Found (err e) t c = Unit

    abbrev Half : CertificateRequest → Result ℕ → Tables → ℕ → Type 0
    Half r (ok _) t c =
        RowAt n r old
        × (t ≡ record old { requests = update_where (has_id n) (set_status new) old.requests })
        × (c ≡ now)
    Half r (err e) t c = Unit

    abbrev Body : Result Unit → Tables → ℕ → Type 0
    Body (ok _) t c = (r : CertificateRequest) × RowAt n r old × Decided r t
    Body (err e) t c = Unit

    found :
        (o : Option CertificateRequest) (t : Tables) (c : ℕ)
        → find_where (has_id n) old.requests ≡ o
        → At t c
        → Found (or_missing o) t c
    found none t c e h = tt
    found (some r) t c e h = (e, h)

    event_cases :
        (r : CertificateRequest) (t : Tables) (c : ℕ)
        → Half r (ok 0) t c
        → Body
            (insert_event n r.owner_iss r.owner_sub iss sub new notes t c).0
            (insert_event n r.owner_iss r.owner_sub iss sub new notes t c).1
            c
    unfolding insert_event
    event_cases r t c (row, e, k) =
        elim (Bool-cases (
          any_where (has_id n) t.requests
          && is_filled r.owner_iss r.owner_sub
          && is_filled iss sub)) [
            | inl q ↦ rw q (
              r,
              row,
              (
                ap (λ u. u.requests) e,
                λ i.
                    (e i).events
                    ++ new_event n r.owner_iss r.owner_sub iss sub new notes (e i).next_event_id
                        (k i)
                      ∷ [],
              ),
            )
            | inr q ↦ rw q tt
          ]

    half :
        (r : CertificateRequest)
        → Ensures (Found (ok r)) (update_request n (set_status new)) (Half r)
    unfolding update_request
    half r =
        Ensures-exec _ _ _
          (λ t c h. (
            h.0,
            ap
                (λ (u : Tables). record u {
                  requests = update_where (has_id n) (set_status new) u.requests;
                })
                h.1.0,
            h.1.1,
          ))
          (λ t c h. tt)

    pub status_ensures : Ensures At (update_certificate_request_status n new iss sub notes) Marked
    unfolding update_certificate_request_status
    status_ensures =
        Ensures-transaction restore At (λ _. Body) Marked (λ o t a c d h k. k)
          (λ o t e c d h k. (ap (λ u. u.requests) h.0, ap (λ u. u.events) h.0))
          (λ o t a c d h k. (ap (λ u. u.requests) h.0, ap (λ u. u.events) h.0))
          (λ o c h. (ap (λ u. u.requests) h.0, ap (λ u. u.events) h.0)) _
          (λ o c h.
            Ensures-bind Found _ _
              (Ensures-query _ _ _
                (λ t d k.
                  found (find_where (has_id n) t.requests) t d
                    (ap (λ u. find_where (has_id n) u.requests) (sym (k.0 ∙ h.0)))
                    (k.0 ∙ h.0, k.1 ∙ h.1))
                (λ t d k. tt))
              (λ r.
                Ensures-bind (Half r) _ _ (half r)
                  (λ _. Ensures-exec _ _ _ (event_cases r) (λ t d k. tt)) (λ e t d k. tt))
              (λ e t d k. tt))

module _ (cfg : Config) (who : Option Principal) (request_id : Option ℕ) (body : Option ReviewBody)
    (old : Tables) (now : ℕ) where
  -- A request that awaited its review has a verdict, by someone who may give it.
  pub record IsReview (t : Tables) : Type 0 where
    pub verdict : Verdict
    pub row : CertificateRequest
    pub admitted : IsAdmitted cfg who request_id body verdict
    pub found : RowAt verdict.request_id row old
    pub foreign :
        get_iss verdict.reviewer == row.owner_iss
          && get_sub verdict.reviewer == row.owner_sub
          && not (has_scope cfg verdict.reviewer mtls_self_approve_certs)
        ≡ false
    pub open_yet : row.status ≡ CertificateRequestStatus.awaiting_review
    pub decided :
        Decided old now verdict.request_id verdict.new_status
          (get_iss verdict.reviewer)
          (get_sub verdict.reviewer)
          verdict.review_notes
          row
          t

  abbrev pub Reviewed : Reply RequestView → Tables → Type 0
  Reviewed (success v) t =
      (r : IsReview t) × (v.request ≡ record r.row { status = r.verdict.new_status })
  Reviewed (error k) t = Same old now t ⊎ (IsReview t × (k ≡ 500))

  module _ (d : Verdict) (admitted : IsAdmitted cfg who request_id body d) where
    abbrev iss : String
    iss = get_iss d.reviewer

    abbrev sub : String
    sub = get_sub d.reviewer

    abbrev Ends : Result Unit → Tables → ℕ → Type 0
    Ends (ok _) t c = IsReview t
    Ends (err e) t c = Same old now t

    abbrev LoadedAt : RequestView → Tables → ℕ → Type 0
    LoadedAt v = Loaded (At old now) d.request_id (ok v)

    old_row :
        (v : RequestView) (t : Tables) (c : ℕ) → LoadedAt v t c → RowAt d.request_id v.request old
    old_row v t c h = subst (λ u. RowAt d.request_id v.request u) h.1.0 h.0

    not_own :
        (p : Principal) (r : CertificateRequest)
        → is_own cfg p r ≡ false
        → get_iss p == r.owner_iss
            && get_sub p == r.owner_sub
            && not (has_scope cfg p mtls_self_approve_certs)
          ≡ false
    unfolding is_own
    not_own p r e = ground arith

    ended :
        (v : RequestView) (r : Result Unit) (t : Tables) (c : ℕ)
        → RowAt d.request_id v.request old
        → is_own cfg d.reviewer v.request ≡ false
        → v.request.status ≡ CertificateRequestStatus.awaiting_review
        → Marked old now d.request_id d.new_status iss sub d.review_notes r t c
        → Ends r t c
    ended v (ok _) t c row foreign open_yet (r, same, marked) =
        let one : r ≡ v.request = some-cancel r v.request (sym same ∙ row) in
        record {
          verdict = d;
          row = v.request;
          admitted = admitted;
          found = row;
          foreign = not_own d.reviewer v.request foreign;
          open_yet = open_yet;
          decided =
              subst
                (λ (q : CertificateRequest).
                  Decided old now d.request_id d.new_status iss sub d.review_notes q t)
                one marked;
        }
    ended v (err e) t c row foreign open_yet h = h

    call-Ends :
        (v : RequestView)
        → is_own cfg d.reviewer v.request ≡ false
        → v.request.status ≡ CertificateRequestStatus.awaiting_review
        → Ensures
            (LoadedAt v)
            (update_certificate_request_status v.request.id d.new_status iss sub d.review_notes)
            Ends
    call-Ends v foreign open_yet = record {
      at = λ s h.
          subst
            (λ (j : ℕ).
              Ends (update_certificate_request_status j d.new_status iss sub d.review_notes s).0
                (update_certificate_request_status j d.new_status iss sub d.review_notes s).1.tables
                (update_certificate_request_status j d.new_status iss sub d.review_notes s).1.clock)
            (sym (RowAt-id d.request_id v.request s.tables h.0))
            (ended v _ _ _ (old_row v s.tables s.clock h) foreign open_yet
              ((status_ensures old now d.request_id d.new_status iss sub d.review_notes).at s h.1));
    }

    -- what is read back after the decision
    shown :
        (v : RequestView) (t : Tables)
        → RowAt d.request_id v.request t
        → IsReview t
        → Reviewed (success v) t
    shown v t h r =
        let one : r.verdict.request_id ≡ d.request_id =
          some-cancel _ _ (sym r.admitted.named ∙ admitted.named) in
        let row : RowAt r.verdict.request_id (set_status r.verdict.new_status r.row) t =
          ap (find_where (has_id r.verdict.request_id)) r.decided.0
          ∙ find_where-update_here (has_id r.verdict.request_id) (set_status r.verdict.new_status)
              (λ q. refl) old.requests r.row r.found in
        (r, some-cancel _ _ (sym (subst (λ (j : ℕ). RowAt j v.request t) (sym one) h) ∙ row))

    reading_back : Replies (Ends (ok tt)) (read_back d.request_id) (λ r t c. Reviewed r t)
    reading_back =
        Replies-attempt (Loaded (λ t c. IsReview t) d.request_id) _ _ _
          (load_ensures (λ t c. IsReview t) d.request_id) (λ e t c h. inr (h, refl))
          (λ v. Replies-finish (success v) (λ t c h. shown v t h.0 h.1))

    same : (t : Tables) (c : ℕ) → At old now t c → Same old now t
    same t c h = (ap (λ u. u.requests) h.0, ap (λ u. u.events) h.0)

    decision_replies :
        (v : RequestView) → Replies (LoadedAt v) (review_request cfg d v) (λ r t c. Reviewed r t)
    unfolding review_request
    decision_replies v =
        Replies-if (is_own cfg d.reviewer v.request) _ _
          (λ _. Replies-finish (error 403) (λ t c h. inl (same t c h.1)))
          (λ foreign.
            Replies-if (not (same_status v.request.status CertificateRequestStatus.awaiting_review))
              _ _ (λ _. Replies-finish (error 400) (λ t c h. inl (same t c h.1)))
              (λ e.
                Replies-attempt Ends _ _ _
                  (call-Ends v foreign (same_status-awaiting v.request.status e)) (λ _ t c h. inl h)
                  (λ _. reading_back)))

  review_replies :
      Replies (At old now) (post_certificate_review cfg who request_id body) (λ r t c. Reviewed r t)
  unfolding post_certificate_review
  review_replies =
      Replies-checked (check_review cfg who request_id body) _
        (λ d passed.
          let admitted = check_review-IsAdmitted cfg who request_id body d passed in
          Replies-attempt (Loaded (At old now) d.request_id) _ _ _
            (load_ensures (At old now) d.request_id) (λ e t c h. inl (same d admitted t c h))
            (λ v. decision_replies d admitted v))
        (λ k t c _ h. inl (ap (λ u. u.requests) h.0, ap (λ u. u.events) h.0))

-- What a review of a certificate request can do, whichever statements fail. If it succeeds, the
-- caller has the scope to approve, the request awaited its review and is not the caller's own (unless
-- the caller may approve these); it has the status approved or rejected afterwards, with one event by
-- the caller, no other request or event has changed, and the reply shows it. If it replies with an
-- error, no request and no event has changed, or the status is 500 and the review is stored but could
-- not be read back.
pub review_outcome :
    (cfg : Config) (who : Option Principal) (request_id : Option ℕ) (body : Option ReviewBody)
    (s : Session Tables)
    → Reviewed cfg who request_id body s.tables s.clock
        (post_certificate_review cfg who request_id body s).0
        (post_certificate_review cfg who request_id body s).1.tables
review_outcome cfg who request_id body s =
    (review_replies cfg who request_id body s.tables s.clock).at s (refl, refl)
