-- ===== src/Handlers/Certificates/Requesting.antt =====
-- What POSTCertificateRequest asks the storage for.
use dashboard_site.Common.Int.{ℤ, pos, negsuc, leb_ℤ}
use dashboard_site.Models.Certificate.{CertificateRequestStatus}
use dashboard_site.Common.{
  eqb, arith, zero, suc, ◌⊎◌, ◌≢◌, inl, inr, Bool, false, ◌&&◌, [], ◌≡◌, ◌∙◌, refl, sym, ap, subst,
  true, Option, some,
}
use dashboard_site.Config.{Config}
use dashboard_site.Models.Principal.{Principal, has_scope, get_iss, get_sub}
use dashboard_site.Storage.Certificates.Schema.{NewRequest}
use dashboard_site.Handlers.Http.{pass, or_refuse, require}
use dashboard_site.Handlers.Http.Checks.{bind-passes, or_refuse-passes, require-passes}
use dashboard_site.Handlers.Scopes.{mtls_request_cert}
use dashboard_site.Handlers.Firewall.{with_scope}
use dashboard_site.Handlers.Certificates.{
  CertificateBody, check_request, within_validity, or_default, wanted, derive_common_name,
}

-- 90 days where none are asked for
abbrev pub Chosen : ℤ → ℤ → Type 0
Chosen asked days = ((asked ≡ pos 0) × (days ≡ pos 90)) ⊎ ((asked ≢ pos 0) × (days ≡ asked))

or_default-Chosen : (asked : ℤ) → Chosen asked (or_default asked)
or_default-Chosen (pos zero) = inl (refl, refl)
or_default-Chosen (pos (suc n)) =
    let positive : eqb (suc n) 0 ≡ false = ground arith in inr (λ e. cc, rw positive refl)
or_default-Chosen (negsuc n) = inr (λ e. cc, refl)

within_both :
    (cfg : Config) (days : ℤ)
    → within_validity cfg days ≡ true
    → (leb_ℤ cfg.min_certificate_validity_days days ≡ true)
      × (leb_ℤ days cfg.max_certificate_validity_days ≡ true)
unfolding within_validity
within_both cfg days e =
    both (leb_ℤ cfg.min_certificate_validity_days days)
      (leb_ℤ days cfg.max_certificate_validity_days) e
  where
    both : (a b : Bool) → a && b ≡ true → (a ≡ true) × (b ≡ true)
    both true true h = (refl, refl)
    both true false h = absurd (cc)
    both false b h = absurd (cc)

-- what a request that passes the checks is
pub record IsWanted (cfg : Config) (who : Option Principal) (body : Option CertificateBody)
    (q : Principal × NewRequest) : Type 0 where
  pub known : who ≡ some q.0
  pub scoped : has_scope cfg q.0 mtls_request_cert ≡ true
  pub asked : CertificateBody
  pub sent : body ≡ some asked
  pub days : ℤ
  pub chosen : Chosen asked.validity_days days
  pub bounded :
      (leb_ℤ cfg.min_certificate_validity_days days ≡ true)
      × (leb_ℤ days cfg.max_certificate_validity_days ≡ true)
  pub made : q.1 ≡ record {
    owner_sub = get_sub q.0;
    owner_iss = get_iss q.0;
    common_name = derive_common_name q.0;
    status = CertificateRequestStatus.awaiting_review;
    message = asked.message;
    dns_names = [];
    organizational_units = [];
    validity_days = days;
  }

pub check_request-IsWanted :
    (cfg : Config) (who : Option Principal) (body : Option CertificateBody)
    (q : Principal × NewRequest)
    → check_request cfg who body ≡ pass q
    → IsWanted cfg who body q
unfolding check_request
check_request-IsWanted cfg who body q h =
    let (p, scoped, h1) =
      bind-passes (with_scope cfg who (λ p. has_scope cfg p mtls_request_cert)) _ q h in
    let (o, known, h2) = bind-passes (or_refuse who 401) _ p scoped in
    let (u, allowed, h3) = bind-passes (require (has_scope cfg o mtls_request_cert) 403) _ p h2 in
    let (b, sent, h4) = bind-passes (or_refuse body 400) _ q h1 in
    let (v, bounded, h5) =
      bind-passes (require (within_validity cfg (or_default b.validity_days)) 400) _ q h4 in
    let same : q ≡ (p, wanted p b.message (or_default b.validity_days)) = cc in
    let one : o ≡ p = cc in
    subst (IsWanted cfg who body) (sym same) (record {
      known = or_refuse-passes who 401 o known ∙ ap some one;
      scoped =
          ap (λ x. has_scope cfg x mtls_request_cert) (sym one) ∙ require-passes _ 403 u allowed;
      asked = b;
      sent = or_refuse-passes body 400 b sent;
      days = or_default b.validity_days;
      chosen = or_default-Chosen b.validity_days;
      bounded = within_both cfg (or_default b.validity_days) (require-passes _ 400 v bounded);
      made = refl;
    })
