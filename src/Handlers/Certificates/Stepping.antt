-- ===== src/Handlers/Certificates/Stepping.antt =====
-- What one request to the certificate handlers does to a stored certificate request.
use dashboard_site.Common.{ℕ, ◌≢◌, sym, Option}
use dashboard_site.Config.{Config}
use dashboard_site.Models.Principal.{Principal, has_scope}
use dashboard_site.Models.Certificate.{CertificateRequest, CertificateRequestStatus, RequestView}
use dashboard_site.Storage.Sql.{ok, Sql}
use dashboard_site.Storage.Sql.Keeps.{Keeps}
use dashboard_site.Storage.Sql.Ensures.{Ensures, Ensures-of_Keeps}
use dashboard_site.Storage.Certificates.Schema.{Tables}
use dashboard_site.Storage.Certificates.Tracking.{RowAt, Holds, status-other}
use dashboard_site.Storage.Certificates.Loading.{Loaded, load_ensures, Old, Created, create_ensures}
use dashboard_site.Handlers.Http.{success}
use dashboard_site.Handlers.Http.Replies.{
  Replies, Replies-finish, Replies-if, Replies-checked, Replies-attempt,
}
use dashboard_site.Handlers.Scopes.{mtls_auto_approve_cert}
use dashboard_site.Handlers.Certificates.{
  CertificateBody, check_request, read_back, auto_approve, post_certificate_request,
}

-- reading back keeps whatever holds
pub read_back-keeps : (I : Tables → ℕ → Type 0) (k : ℕ) → Replies I (read_back k) (λ r t c. I t c)
read_back-keeps I k =
    Replies-attempt (Loaded I k) _ _ _ (load_ensures I k) (λ e t c h. h)
      (λ v. Replies-finish (success v) (λ t c h. h.1))

-- a call that keeps the row
kept :
    {A : Type 0} (n : ℕ) (x : CertificateRequest) (m : Sql Tables A)
    → Keeps (RowAt n x) m
    → Ensures (Holds n x) m (λ r t c. RowAt n x t)
kept n x m k = Ensures-of_Keeps (RowAt n x) m k

module _ (cfg : Config) (n : ℕ) (x : CertificateRequest) where
  approve-other :
      (p : Principal) (k : ℕ)
      → n ≢ k
      → Replies (Holds n x) (auto_approve cfg p k) (λ r t c. RowAt n x t)
  unfolding auto_approve
  approve-other p k apart =
      Replies-if (has_scope cfg p mtls_auto_approve_cert) _ _
        (λ _.
          Replies-attempt (λ r t c. RowAt n x t) _ _ _
            (kept n x _ (
              status-other n x k apart CertificateRequestStatus.approved cfg.external_url "system"
                "Auto Approved"))
            (λ e t c h. h) (λ _. read_back-keeps (Holds n x) k))
        (λ _. read_back-keeps (Holds n x) k)

  after_creation :
      (p : Principal) (v : RequestView)
      → Replies (Created n x (ok v)) (auto_approve cfg p v.request.id) (λ r t c. RowAt n x t)
  after_creation p v = record {
    at = λ s h. (approve-other p v.request.id (λ e. h.1 (sym e))).at s h.0;
  }

  pub post-keeps :
      (who : Option Principal) (body : Option CertificateBody)
      → Replies (Old n x) (post_certificate_request cfg who body) (λ r t c. RowAt n x t)
  unfolding post_certificate_request
  post-keeps who body =
      Replies-checked (check_request cfg who body) _
        (λ q _.
          Replies-attempt (Created n x) _ _ _ (create_ensures n x q.1) (λ e t c h. h)
            (λ v. after_creation q.0 v))
        (λ k t c _ h. h.0)
