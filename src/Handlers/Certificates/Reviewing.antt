-- ===== src/Handlers/Certificates/Reviewing.antt =====
-- What POSTCertificateReview does to a stored certificate request.
use dashboard_site.Common.{
  ℕ, ◌≡◌, ◌≢◌, ◌⊎◌, eq_iff, ◌∙◌, inl, inr, refl, sym, ap, subst, String, true, false, not, Option,
  some, ◌==◌, arith, eqb, eqb_iff, Bool-cases, trim_space, some-cancel,
}
use dashboard_site.Config.{Config}
use dashboard_site.Models.Principal.{Principal, has_scope, get_iss, get_sub}
use dashboard_site.Models.Certificate.{
  CertificateRequest, CertificateRequestStatus, RequestView, same_status,
}
use dashboard_site.Storage.Sql.{Result, ok, err, Sql}
use dashboard_site.Storage.Sql.Ensures.{Ensures}
use dashboard_site.Storage.Certificates.Schema.{Tables}
use dashboard_site.Storage.Certificates.Write.{update_certificate_request_status, set_status}
use dashboard_site.Storage.Certificates.Tracking.{RowAt, Holds, Updated, status-here, status-other}
use dashboard_site.Storage.Certificates.Loading.{Loaded, load_ensures, RowAt-id}
use dashboard_site.Storage.Certificates.Life.{review, IsVerdict, Stepped, stayed}
use dashboard_site.Handlers.Http.{pass, or_refuse, require, error}
use dashboard_site.Handlers.Http.Checks.{bind-passes, or_refuse-passes, require-passes}
use dashboard_site.Handlers.Http.Replies.{
  Replies, Replies-finish, Replies-if, Replies-checked, Replies-attempt,
}
use dashboard_site.Handlers.Scopes.{mtls_approve_cert}
use dashboard_site.Handlers.Firewall.{with_scope}
use dashboard_site.Handlers.Certificates.{
  ReviewBody, Verdict, check_review, reviewed_status, is_own, review_request,
  post_certificate_review,
}
use dashboard_site.Handlers.Certificates.Stepping.{read_back-keeps}

reviewed_status-IsVerdict :
    (s : String) (new : CertificateRequestStatus) → reviewed_status s ≡ some new → IsVerdict new
unfolding reviewed_status
reviewed_status-IsVerdict s new h = elim (Bool-cases (s == "approved")) [
  | inl e ↦ inl (cc (rw e at h))
  | inr e ↦ elim (Bool-cases (s == "rejected")) [
    | inl k ↦ inr (cc (rw (e, k) at h))
    | inr k ↦ absurd (cc (rw (e, k) at h))
  ]
]

-- the two words of a review
abbrev pub Says : String → CertificateRequestStatus → Type 0
Says s new =
    ((s ≡ "approved") × (new ≡ CertificateRequestStatus.approved))
    ⊎ ((s ≡ "rejected") × (new ≡ CertificateRequestStatus.rejected))

reviewed_status-Says :
    (s : String) (new : CertificateRequestStatus) → reviewed_status s ≡ some new → Says s new
unfolding reviewed_status
reviewed_status-Says s new h = elim (Bool-cases (s == "approved")) [
  | inl e ↦ inl ((eq_iff s "approved").0 e, cc (rw e at h))
  | inr e ↦ elim (Bool-cases (s == "rejected")) [
    | inl k ↦ inr ((eq_iff s "rejected").0 k, cc (rw (e, k) at h))
    | inr k ↦ absurd (cc (rw (e, k) at h))
  ]
]

-- what a review that passes the checks is
pub record IsAdmitted (cfg : Config) (who : Option Principal) (request_id : Option ℕ)
    (body : Option ReviewBody) (d : Verdict) : Type 0 where
  pub known : who ≡ some d.reviewer
  pub named : request_id ≡ some d.request_id
  pub scoped : has_scope cfg d.reviewer mtls_approve_cert ≡ true
  pub asked : ReviewBody
  pub sent : body ≡ some asked
  pub stated : Says (trim_space asked.new_status) d.new_status
  pub noted : d.review_notes ≡ asked.review_notes
  pub verdict : IsVerdict d.new_status

pub check_review-IsAdmitted :
    (cfg : Config) (who : Option Principal) (request_id : Option ℕ) (body : Option ReviewBody)
    (d : Verdict)
    → check_review cfg who request_id body ≡ pass d
    → IsAdmitted cfg who request_id body d
unfolding check_review
check_review-IsAdmitted cfg who request_id body d h =
    let (n, named, h1) = bind-passes (or_refuse request_id 400) _ d h in
    let (p, scoped, h2) =
      bind-passes (with_scope cfg who (λ p. has_scope cfg p mtls_approve_cert)) _ d h1 in
    let (q, known, h3) = bind-passes (or_refuse who 401) _ p scoped in
    let (u, allowed, h4) = bind-passes (require (has_scope cfg q mtls_approve_cert) 403) _ p h3 in
    let (b, sent, h5) = bind-passes (or_refuse body 400) _ d h2 in
    let (new, chosen, h6) =
      bind-passes (or_refuse (reviewed_status (trim_space b.new_status)) 400) _ d h5 in
    let same : d
        ≡ record { reviewer = p; request_id = n; new_status = new; review_notes = b.review_notes } =
      cc in
    let who' : q ≡ p = cc in
    subst (IsAdmitted cfg who request_id body) (sym same) (record {
      known = or_refuse-passes who 401 q known ∙ ap some who';
      named = or_refuse-passes request_id 400 n named;
      scoped =
          ap (λ x. has_scope cfg x mtls_approve_cert) (sym who') ∙ require-passes _ 403 u allowed;
      asked = b;
      sent = or_refuse-passes body 400 b sent;
      stated =
          reviewed_status-Says (trim_space b.new_status) new
            (or_refuse-passes (reviewed_status (trim_space b.new_status)) 400 new chosen);
      noted = refl;
      verdict =
          reviewed_status-IsVerdict (trim_space b.new_status) new
            (or_refuse-passes (reviewed_status (trim_space b.new_status)) 400 new chosen);
    })

pub same_status-awaiting :
    (s : CertificateRequestStatus)
    → not (same_status s CertificateRequestStatus.awaiting_review) ≡ false
    → s ≡ CertificateRequestStatus.awaiting_review
same_status-awaiting s h = ground arith

module _ (cfg : Config) (n : ℕ) (x : CertificateRequest) (d : Verdict)
    (verdict : IsVerdict d.new_status) where
  -- the row of the id, beside the request that was read
  abbrev Read : RequestView → Tables → ℕ → Type 0
  Read v t c = RowAt d.request_id v.request t × RowAt n x t

  abbrev Ends : {A : Type 0} → Result A → Tables → ℕ → Type 0
  Ends r t c = Stepped n x t

  moved :
      {A : Type 0} (r : Result A) (t : Tables) (c : ℕ)
      → x.status ≡ CertificateRequestStatus.awaiting_review
      → Updated n x (set_status d.new_status x) r t c
      → Ends r t c
  moved (ok _) t c e h = record {
    now_row = set_status d.new_status x;
    found = h;
    step = review x d.new_status e verdict;
  }
  moved (err _) t c e h = stayed n x t h

  abbrev call : ℕ → String → String → String → Sql Tables Unit
  call k iss sub notes = update_certificate_request_status k d.new_status iss sub notes

  call-here :
      (iss sub notes : String)
      → x.status ≡ CertificateRequestStatus.awaiting_review
      → Ensures (Holds n x) (call n iss sub notes) Ends
  call-here iss sub notes e = record {
    at = λ s h.
        moved (call n iss sub notes s).0 (call n iss sub notes s).1.tables
          (call n iss sub notes s).1.clock e ((status-here n x d.new_status iss sub notes).at s h);
  }

  call-other :
      (k : ℕ) (iss sub notes : String) → n ≢ k → Ensures (Holds n x) (call k iss sub notes) Ends
  call-other k iss sub notes apart = record {
    at = λ s h. stayed n x _ ((status-other n x k apart d.new_status iss sub notes).at s h);
  }

  call-steps :
      (v : RequestView) (iss sub notes : String)
      → v.request.status ≡ CertificateRequestStatus.awaiting_review
      → Ensures (Read v) (call v.request.id iss sub notes) Ends
  call-steps v iss sub notes e = record {
    at = λ s h.
        let named : v.request.id ≡ d.request_id = RowAt-id d.request_id v.request s.tables h.0 in
        elim (Bool-cases (eqb n d.request_id)) [
          | inl k ↦
              let same : n ≡ d.request_id = (eqb_iff n d.request_id).0 k in
              let row : RowAt d.request_id x s.tables =
                subst (λ (j : ℕ). RowAt j x s.tables) same h.1 in
              let one : v.request ≡ x = some-cancel v.request x (sym h.0 ∙ row) in
              subst (λ (j : ℕ). Ends (call j iss sub notes s).0 (call j iss sub notes s).1.tables 0)
                (same ∙ sym named)
                ((call-here iss sub notes
                    (ap (λ (r : CertificateRequest). r.status) (sym one) ∙ e)).at
                  s h.1)
          | inr k ↦
              (call-other v.request.id iss sub notes
                  (λ q. absurd (cc ((eqb_iff n d.request_id).1 (q ∙ named))))).at
                s h.1
        ];
  }

  review_replies :
      (v : RequestView) → Replies (Read v) (review_request cfg d v) (λ r t c. Stepped n x t)
  unfolding review_request
  review_replies v =
      Replies-if (is_own cfg d.reviewer v.request) _ _
        (λ _. Replies-finish (error 403) (λ t c h. stayed n x t h.1))
        (λ _.
          Replies-if (not (same_status v.request.status CertificateRequestStatus.awaiting_review)) _
            _ (λ _. Replies-finish (error 400) (λ t c h. stayed n x t h.1))
            (λ e.
              Replies-attempt (λ r t c. Stepped n x t) _ _ _
                (call-steps v (get_iss d.reviewer) (get_sub d.reviewer) d.review_notes
                  (same_status-awaiting v.request.status e))
                (λ _ t c h. h) (λ _. read_back-keeps (λ t c. Stepped n x t) d.request_id)))

pub review-steps :
    (cfg : Config) (n : ℕ) (x : CertificateRequest) (who : Option Principal) (request_id : Option ℕ)
    (body : Option ReviewBody)
    → Replies (Holds n x) (post_certificate_review cfg who request_id body) (λ r t c. Stepped n x t)
unfolding post_certificate_review
review-steps cfg n x who request_id body =
    Replies-checked (check_review cfg who request_id body) _
      (λ d passed.
        let verdict = (check_review-IsAdmitted cfg who request_id body d passed).verdict in
        Replies-attempt (Loaded (Holds n x) d.request_id) _ _ _
          (load_ensures (Holds n x) d.request_id) (λ e t c h. stayed n x t h)
          (λ v. review_replies cfg n x d verdict v))
      (λ k t c _ h. stayed n x t h)
