-- ===== src/Handlers/Certificates.antt =====
-- internal/handlers/handler_certificate_request.go, and deriveCommonName of utils.go.
pub mod Stepping
pub mod Reviewing
pub mod Requesting
pub mod Keeping
pub mod Deciding
pub mod Filing
use dashboard_site.Common.{
  ℕ, String, Bool, not, ◌&&◌, Option, none, some, List, [], ◌∷◌, ◌==◌, map, if◌then◌else◌,
  trim_space,
}
use dashboard_site.Common.Int.{ℤ, pos, leb_ℤ, is_zero}
use Prim.Native.String.{◌++◌}
use text.Mathlib.Text.{starts_with}
use dashboard_site.Config.{Config}
use dashboard_site.Models.Principal.{
  Principal, has_scope, matches_owner, get_iss, get_sub, get_display_name, get_username, get_email,
}
use dashboard_site.Models.Certificate.{
  CertificateRequest, CertificateRequestStatus, RequestView, same_status,
}
use dashboard_site.Storage.Certificates.Schema.{Tables, NewRequest}
use dashboard_site.Storage.Certificates.Read.{
  get_certificate_request_by_id, get_certificate_requests, get_certificate_requests_by_user,
}
use dashboard_site.Storage.Certificates.Write.{
  create_certificate_request, update_certificate_request_status,
}
use dashboard_site.Handlers.Http.{
  Check, pass, require, or_refuse, ◌>>=◌, ◌>>◌, success, error, Handler, finish, attempt, checked,
}
use dashboard_site.Handlers.Firewall.{with_scope}
use dashboard_site.Handlers.Scopes.{
  mtls_request_cert, mtls_approve_cert, mtls_read_all_certs, mtls_auto_approve_cert,
  mtls_self_approve_certs,
}

-- what follows as many characters as the first text has
after : String → String → String
after String.[] s = s
after (String.◌∷◌ c p) String.[] = ""
after (String.◌∷◌ c p) (String.◌∷◌ d s) = after p s

-- strings.TrimPrefix
trim_prefix : String → String → String
unfolding after
trim_prefix s prefix = if starts_with s prefix then after prefix s else s

unfoldable pub derive_common_name : Principal → String
unfolding trim_prefix
derive_common_name p =
    if not (get_display_name p == "")
    then get_display_name p
    else (if not (get_username p == "")
        then get_username p
        else (if not (get_email p == "")
            then get_email p
            else get_sub p ++ "@" ++ trim_prefix (trim_prefix (get_iss p) "https://") "http://"))

-- the body of POSTCertificateRequest
pub record CertificateBody : Type 0 where
  pub message : String
  pub validity_days : ℤ

abbrev pub or_default : ℤ → ℤ
or_default days = if is_zero days then pos 90 else days

unfoldable pub within_validity : Config → ℤ → Bool
within_validity cfg days =
    leb_ℤ cfg.min_certificate_validity_days days && leb_ℤ days cfg.max_certificate_validity_days

abbrev pub wanted : Principal → String → ℤ → NewRequest
wanted p message days = record {
  owner_sub = get_sub p;
  owner_iss = get_iss p;
  common_name = derive_common_name p;
  status = CertificateRequestStatus.awaiting_review;
  message = message;
  dns_names = [];
  organizational_units = [];
  validity_days = days;
}

-- POSTCertificateRequest down to the first call of the storage
unfoldable pub check_request :
    Config → Option Principal → Option CertificateBody → Check (Principal × NewRequest)
check_request cfg who body = do
  p ← with_scope cfg who (λ p. has_scope cfg p mtls_request_cert)
  req ← or_refuse body 400
  require (within_validity cfg (or_default req.validity_days)) 400
  pass (p, wanted p req.message (or_default req.validity_days))

abbrev pub reply_with : {A : Type 0} → A → Handler Tables A
reply_with a = finish (success a)

-- the answer is read back from the database
abbrev pub read_back : ℕ → Handler Tables RequestView
read_back n = attempt (get_certificate_request_by_id n) (λ _. 500) reply_with

unfoldable pub auto_approve : Config → Principal → ℕ → Handler Tables RequestView
auto_approve cfg p n =
    if has_scope cfg p mtls_auto_approve_cert
    then attempt
        (update_certificate_request_status n CertificateRequestStatus.approved cfg.external_url
          "system" "Auto Approved")
        (λ _. 500) (λ _. read_back n)
    else read_back n

unfoldable pub post_certificate_request :
    Config → Option Principal → Option CertificateBody → Handler Tables RequestView
post_certificate_request cfg who body =
    checked (check_request cfg who body) λ q.
      attempt (create_certificate_request q.1) (λ _. 500) λ v. auto_approve cfg q.0 v.request.id

-- the fields that a reply to a user leaves out
abbrev pub redacted : RequestView → RequestView
redacted v = record v {
  request = record v.request {
    certificate_identifier = none;
    provider_metadata = none;
    certificate_pem = none;
  };
}

unfoldable pub redact_certificate_fields : List RequestView → List RequestView
redact_certificate_fields = map redacted

unfoldable pub get_all_requests : Config → Option Principal → Handler Tables (List RequestView)
get_all_requests cfg who =
    checked (with_scope cfg who (λ p. has_scope cfg p mtls_read_all_certs)) λ _.
      attempt get_certificate_requests (λ _. 500) λ vs. reply_with (redact_certificate_fields vs)

-- `request_id` is none where the path parameter is missing or is no number
unfoldable pub check_reader : Option Principal → Option ℕ → Check (Principal × ℕ)
check_reader who request_id = do n ← or_refuse request_id 400; p ← or_refuse who 401; pass (p, n)

unfoldable pub may_read : Config → Principal → CertificateRequest → Bool
may_read cfg p r =
    not (not (matches_owner p r.owner_iss r.owner_sub) && not (has_scope cfg p mtls_read_all_certs))

unfoldable pub get_certificate_request :
    Config → Option Principal → Option ℕ → Handler Tables (List RequestView)
get_certificate_request cfg who request_id = checked (check_reader who request_id) λ q.
    attempt (get_certificate_request_by_id q.1) (λ _. 500)
      λ v.
        if may_read cfg q.0 v.request
        then reply_with (redact_certificate_fields (v ∷ []))
        else finish (error 403)

pub record ReviewBody : Type 0 where
  pub new_status : String
  pub review_notes : String

-- the status that a review may give
unfoldable pub reviewed_status : String → Option CertificateRequestStatus
reviewed_status s =
    if s == "approved"
    then some CertificateRequestStatus.approved
    else (if s == "rejected" then some CertificateRequestStatus.rejected else none)

pub record Verdict : Type 0 where
  pub reviewer : Principal
  pub request_id : ℕ
  pub new_status : CertificateRequestStatus
  pub review_notes : String

-- POSTCertificateReview down to the first call of the storage
unfoldable pub check_review :
    Config → Option Principal → Option ℕ → Option ReviewBody → Check Verdict
check_review cfg who request_id body = do
  n ← or_refuse request_id 400
  p ← with_scope cfg who (λ p. has_scope cfg p mtls_approve_cert)
  review ← or_refuse body 400
  new ← or_refuse (reviewed_status (trim_space review.new_status)) 400
  pass (record {
    reviewer = p;
    request_id = n;
    new_status = new;
    review_notes = review.review_notes;
  })

-- someone's own request, without the scope to approve these
unfoldable pub is_own : Config → Principal → CertificateRequest → Bool
is_own cfg p r =
    not (has_scope cfg p mtls_self_approve_certs) && matches_owner p r.owner_iss r.owner_sub

unfoldable pub review_request : Config → Verdict → RequestView → Handler Tables RequestView
review_request cfg d v =
    if is_own cfg d.reviewer v.request
    then finish (error 403)
    else (if not (same_status v.request.status CertificateRequestStatus.awaiting_review)
        then finish (error 400)
        else attempt
            (update_certificate_request_status v.request.id d.new_status (get_iss d.reviewer)
              (get_sub d.reviewer) d.review_notes)
            (λ _. 500) (λ _. read_back d.request_id))

unfoldable pub post_certificate_review :
    Config → Option Principal → Option ℕ → Option ReviewBody → Handler Tables RequestView
post_certificate_review cfg who request_id body =
    checked (check_review cfg who request_id body) λ d.
      attempt (get_certificate_request_by_id d.request_id) (λ _. 500) λ v. review_request cfg d v

unfoldable pub get_user_certificate_requests : Option Principal → Handler Tables (List RequestView)
get_user_certificate_requests who = checked (or_refuse who 401) λ p.
    attempt (get_certificate_requests_by_user (get_sub p) (get_iss p)) (λ _. 500)
      λ vs. reply_with (redact_certificate_fields vs)
