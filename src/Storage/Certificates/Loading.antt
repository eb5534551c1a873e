-- ===== src/Storage/Certificates/Loading.antt =====
-- A request that is read or created, beside what else holds of the tables.
use dashboard_site.Common.{
  ℕ, ◌<◌, ◌≡◌, ◌≢◌, ◌∙◌, refl, sym, Option, none, some, List, arith, eqb_iff, Bool-cases, inl, inr,
  find_where, find_where-any, find_where-append,
}
use dashboard_site.Models.Certificate.{CertificateRequest, CertificateEvent, RequestView}
use dashboard_site.Storage.Sql.{Result, ok, err}
use dashboard_site.Storage.Sql.Ensures.{
  Ensures, Ensures-query, Ensures-exec, Ensures-bind, Ensures-pure,
}
use dashboard_site.Storage.Certificates.Schema.{
  Tables, has_id, is_filled, NewRequest, insert_request,
}
use dashboard_site.Storage.Certificates.Read.{or_missing, get_certificate_request_by_id}
use dashboard_site.Storage.Certificates.Write.{create_certificate_request}
use dashboard_site.Storage.Certificates.Tracking.{RowAt}

module _ (I : Tables → ℕ → Type 0) where
  abbrev pub Loaded : ℕ → Result RequestView → Tables → ℕ → Type 0
  Loaded n (ok v) t c = RowAt n v.request t × I t c
  Loaded n (err e) t c = I t c

  abbrev RowFound : ℕ → Result CertificateRequest → Tables → ℕ → Type 0
  RowFound n (ok r) t c = RowAt n r t × I t c
  RowFound n (err e) t c = I t c

  row_found :
      (n : ℕ) (o : Option CertificateRequest) (t : Tables) (c : ℕ)
      → find_where (has_id n) t.requests ≡ o
      → I t c
      → RowFound n (or_missing o) t c
  row_found n none t c e h = h
  row_found n (some r) t c e h = (e, h)

  pub load_ensures : (n : ℕ) → Ensures I (get_certificate_request_by_id n) (Loaded n)
  unfolding get_certificate_request_by_id
  load_ensures n =
      Ensures-bind (RowFound n) _ _
        (Ensures-query _ _ _ (λ t c h. row_found n (find_where (has_id n) t.requests) t c refl h)
          (λ t c h. h))
        (λ r.
          Ensures-bind (λ (q : Result (List CertificateEvent)) t c. RowFound n (ok r) t c) _ _
            (Ensures-query _ _ _ (λ t c h. h) (λ t c h. h)) (λ vs. Ensures-pure _ (λ t c h. h))
            (λ e t c h. h.1))
        (λ e t c h. h)

pub RowAt-id : (n : ℕ) (r : CertificateRequest) (t : Tables) → RowAt n r t → r.id ≡ n
RowAt-id n r t h = (eqb_iff r.id n).0 (find_where-any (has_id n) t.requests r h).0

module _ (n : ℕ) (x : CertificateRequest) where
  abbrev pub Old : Tables → ℕ → Type 0
  Old t c = RowAt n x t × (n < t.next_id)

  -- the row is still there, and the new request has another id
  abbrev pub Created : Result RequestView → Tables → ℕ → Type 0
  Created (ok v) t c = RowAt n x t × (v.request.id ≢ n)
  Created (err e) t c = RowAt n x t

  abbrev Inserted : Result ℕ → Tables → ℕ → Type 0
  Inserted (ok k) t c = RowAt n x t × (k ≢ n)
  Inserted (err e) t c = RowAt n x t

  insert_cases :
      (a : NewRequest) (t : Tables) (c : ℕ)
      → Old t c
      → Inserted (insert_request a t c).0 (insert_request a t c).1 c
  unfolding insert_request
  insert_cases a t c h = elim (Bool-cases (is_filled a.owner_iss a.owner_sub)) [
    | inl e ↦ rw e (find_where-append (has_id n) t.requests _ x h.0, omega (arith, h.1))
    | inr e ↦ rw e h.0
  ]

  pub create_ensures : (a : NewRequest) → Ensures Old (create_certificate_request a) Created
  unfolding create_certificate_request
  create_ensures a =
      Ensures-bind Inserted _ _ (Ensures-exec _ _ _ (insert_cases a) (λ t c h. h.0)) loaded
        (λ e t c h. h)
    where
      ended :
          (k : ℕ) (r : Result RequestView) (t : Tables) (c : ℕ)
          → Loaded (Inserted (ok k)) k r t c
          → Created r t c
      ended k (ok v) t c h = (h.1.0, λ e. h.1.1 (sym (RowAt-id k v.request t h.0) ∙ e))
      ended k (err e) t c h = h.0

      loaded : (k : ℕ) → Ensures (Inserted (ok k)) (get_certificate_request_by_id k) Created
      loaded k = record {
        at = λ s h.
            ended k (get_certificate_request_by_id k s).0
              (get_certificate_request_by_id k s).1.tables
              (get_certificate_request_by_id k s).1.clock
              ((load_ensures (Inserted (ok k)) k).at s h);
      }
