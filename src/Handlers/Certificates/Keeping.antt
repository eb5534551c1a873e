-- ===== src/Handlers/Certificates/Keeping.antt =====
-- An invariant of the tables that the calls of the storage keep is kept by the certificate handlers.
use dashboard_site.Common.{ℕ, ◌≡◌, ap, String, Bool, not, Option, List, [], ◌∷◌}
use dashboard_site.Config.{Config}
use dashboard_site.Models.Principal.{Principal, has_scope}
use dashboard_site.Models.Certificate.{
  CertificateRequest, CertificateEvent, CertificateRequestStatus, same_status,
}
use dashboard_site.Storage.Sql.{StorageError, Sql}
use dashboard_site.Storage.Sql.Keeps.{Keeps, Keeps-pure, Keeps-query, Keeps-bind}
use dashboard_site.Storage.Sql.Ensures.{Ensures-of_Keeps}
use dashboard_site.Storage.Certificates.Schema.{Tables}
use dashboard_site.Storage.Certificates.Read.{
  get_certificate_request_by_id, get_certificate_requests, get_certificate_requests_by_user,
  with_events,
}
use dashboard_site.Storage.Certificates.Write.{
  create_certificate_request, update_certificate_request_status,
}
use dashboard_site.Handlers.Http.{
  Check, pass, or_refuse, Reply, success, error, Handler, finish, attempt, checked,
}
use dashboard_site.Handlers.Http.Replies.{
  Replies, Replies-finish, Replies-if, Replies-checked, Replies-attempt,
}
use dashboard_site.Handlers.Scopes.{mtls_auto_approve_cert, mtls_read_all_certs}
use dashboard_site.Handlers.Certificates.{
  CertificateBody, ReviewBody, check_request, check_review, is_own, read_back, auto_approve,
  post_certificate_request, review_request, post_certificate_review, get_all_requests,
  get_certificate_request, get_user_certificate_requests, may_read, check_reader,
  redact_certificate_fields,
}
use dashboard_site.Handlers.Firewall.{with_scope}
use dashboard_site.Handlers.Certificates.Requesting.{check_request-IsWanted}
use dashboard_site.Storage.Certificates.Schema.{NewRequest}

module _ (I : Tables → Type 0) where
  abbrev Kept : {B : Type 0} → Handler Tables B → Type 0
  Kept h = Replies (λ t c. I t) h (λ r t c. I t)

  calls :
      {A B : Type 0} (m : Sql Tables A) (fail : StorageError → ℕ) (k : A → Handler Tables B)
      → Keeps I m
      → ((a : A) → Kept (k a))
      → Kept (attempt m fail k)
  calls m fail k km kk =
      Replies-attempt (λ r t c. I t) m fail k (Ensures-of_Keeps I m km) (λ e t c h. h) kk

  done : {B : Type 0} (r : Reply B) → Kept (finish r)
  done r = Replies-finish r (λ t c h. h)

  checks :
      {A B : Type 0} (c : Check A) (k : A → Handler Tables B)
      → ((a : A) → c ≡ pass a → Kept (k a))
      → Kept (checked c k)
  checks c k kk = Replies-checked c k kk (λ n t now _ h. h)

  loading : (n : ℕ) → Keeps I (get_certificate_request_by_id n)
  unfolding get_certificate_request_by_id
  loading n = Keeps-bind _ _ (Keeps-query _) λ r. Keeps-bind _ _ (Keeps-query _) λ vs. Keeps-pure _

  read_back-Kept : (n : ℕ) → Kept (read_back n)
  read_back-Kept n = calls _ _ _ (loading n) (λ v. done (success v))

  events-keep :
      (joined : CertificateEvent → Tables → Bool) (rs : List CertificateRequest)
      → Keeps I (with_events joined rs)
  unfolding with_events
  events-keep joined [] = Keeps-pure []
  events-keep joined (r ∷ rs) = Keeps-bind _ _ (Keeps-query _) (λ vs. Keeps-pure _)

  module _ (cfg : Config) (who : Option Principal) where
    pub list-Kept : Kept (get_all_requests cfg who)
    unfolding get_all_requests get_certificate_requests
    list-Kept = checks (with_scope cfg who (λ p. has_scope cfg p mtls_read_all_certs)) _ (λ _ _.
        calls _ _ _ (Keeps-bind _ _ (Keeps-query _) (λ rs. events-keep _ rs))
          (λ vs. done (success (redact_certificate_fields vs))))

    pub mine-Kept : Kept (get_user_certificate_requests who)
    unfolding get_user_certificate_requests get_certificate_requests_by_user
    mine-Kept = checks (or_refuse who 401) _ (λ p _.
        calls _ _ _ (Keeps-bind _ _ (Keeps-query _) (λ rs. events-keep _ rs))
          (λ vs. done (success (redact_certificate_fields vs))))

    pub read-Kept : (request_id : Option ℕ) → Kept (get_certificate_request cfg who request_id)
    unfolding get_certificate_request
    read-Kept request_id = checks (check_reader who request_id) _ (λ q _.
        calls _ _ _ (loading q.1) (λ v.
          Replies-if (may_read cfg q.0 v.request) _ _
            (λ _. done (success (redact_certificate_fields (v ∷ [])))) (λ _. done (error 403))))

    module _
        (status : (n : ℕ) (new : CertificateRequestStatus) (iss sub notes : String)
          → Keeps I (update_certificate_request_status n new iss sub notes)) where
      pub review-Kept :
          (request_id : Option ℕ) (body : Option ReviewBody)
          → Kept (post_certificate_review cfg who request_id body)
      unfolding post_certificate_review review_request
      review-Kept request_id body = checks (check_review cfg who request_id body) _ (λ d _.
          calls _ _ _ (loading d.request_id) (λ v.
            Replies-if (is_own cfg d.reviewer v.request) _ _ (λ _. done (error 403))
              (λ _.
                Replies-if
                  (not (same_status v.request.status CertificateRequestStatus.awaiting_review)) _ _
                  (λ _. done (error 400))
                  (λ _.
                    calls _ _ _ (status v.request.id d.new_status _ _ d.review_notes)
                      (λ _. read_back-Kept d.request_id)))))

      approve-Kept : (p : Principal) (n : ℕ) → Kept (auto_approve cfg p n)
      unfolding auto_approve
      approve-Kept p n =
          Replies-if (has_scope cfg p mtls_auto_approve_cert) _ _
            (λ _. calls _ _ _ (status n _ _ _ _) (λ _. read_back-Kept n)) (λ _. read_back-Kept n)

      pub post-Kept :
          (creation : (a : NewRequest)
            → a.status ≡ CertificateRequestStatus.awaiting_review
            → Keeps I (create_certificate_request a))
          (body : Option CertificateBody)
          → Kept (post_certificate_request cfg who body)
      unfolding post_certificate_request
      post-Kept creation body = checks (check_request cfg who body) _ (λ q passed.
          calls _ _ _
            (creation q.1 (ap (λ a. a.status) (check_request-IsWanted cfg who body q passed).made))
            (λ v. approve-Kept q.0 v.request.id))
