-- ===== src/Storage/Certificates/Paging.antt =====
-- The pages of certificate requests.
use dashboard_site.Common.{
  ℕ, zero, suc, ◌+◌, ◌≤◌, ◌<◌, ◌≡◌, ◌↔◌, ◌⊎◌, ◌∙◌, refl, sym, ap, Bool, true, List, [], ◌∷◌, map,
  arith, ltb, length, sort_by,
}
use dashboard_site.Common.Int.{ℤ, pos, negsuc}
use dashboard_site.Models.Certificate.{CertificateRequest, CertificateEvent, RequestView}
use dashboard_site.Storage.Sql.{Result, ok, err, Session}
use dashboard_site.Storage.Sql.Ensures.{Ensures, Ensures-query, Ensures-bind, Ensures-pure}
use dashboard_site.Storage.Certificates.Schema.{Tables}
use dashboard_site.Storage.Certificates.Read.{
  attach, with_events, take, drop, newest_first, page_limit, page_offset, PaginatedCertResult,
  get_certificate_requests_paginated,
}

length-map {ℓ κ} :
    {A : Type ℓ} {B : Type κ} (f : A → B) (xs : List A) → length (map f xs) ≡ length xs
length-map f [] = refl
length-map f (x ∷ xs) = omega (arith, length-map f xs)

length-take {ℓ} : {A : Type ℓ} (n : ℕ) (xs : List A) → length (take n xs) ≤ n
length-take zero xs = omega arith
length-take (suc n) [] = omega arith
length-take (suc n) (x ∷ xs) = omega (arith, length-take n xs)

-- the limit that is used: 20 for zero and less, 100 for more than that
abbrev pub UsedLimit : ℤ → ℕ → Type 0
UsedLimit (negsuc n) used = used ≡ 20
UsedLimit (pos n) used =
    ((n ≡ 0) × (used ≡ 20)) ⊎ ((100 < n) × (used ≡ 100)) ⊎ (0 < n) × (n ≤ 100) × (used ≡ n)

-- the offset that is used: 0 for a negative one
abbrev pub UsedOffset : ℤ → ℕ → Type 0
UsedOffset (negsuc n) used = used ≡ 0
UsedOffset (pos n) used = used ≡ n

page_limit-UsedLimit : (limit : ℤ) → UsedLimit limit (page_limit limit)
unfolding page_limit
page_limit-UsedLimit (negsuc n) = refl
page_limit-UsedLimit (pos n) = ground arith

page_offset-UsedOffset : (offset : ℤ) → UsedOffset offset (page_offset offset)
unfolding page_offset
page_offset-UsedOffset (negsuc n) = refl
page_offset-UsedOffset (pos n) = refl

page_limit_bounds : (limit : ℤ) → (0 < page_limit limit) × (page_limit limit ≤ 100)
unfolding page_limit
page_limit_bounds (negsuc n) = omega arith
page_limit_bounds (pos n) = ground arith

request-attach :
    (events : List CertificateEvent) (rs : List CertificateRequest)
    → map (λ v. v.request) (attach events rs) ≡ rs
unfolding attach
request-attach events [] = refl
request-attach events (r ∷ rs) = ap (λ l. r ∷ l) (request-attach events rs)

-- the page of `limit` rows after `offset` rows, of the rows of `t` by their age
pub record IsPage (limit offset : ℤ) (t : Tables) (p : PaginatedCertResult) : Type 0 where
  pub limited : UsedLimit limit p.limit
  pub skipped : UsedOffset offset p.offset
  pub bounded : (0 < p.limit) × (p.limit ≤ 100)
  pub short : length p.requests ≤ p.limit
  pub window :
      map (λ v. v.request) p.requests
      ≡ take p.limit (drop p.offset (sort_by newest_first t.requests))
  pub counted : p.total ≡ length t.requests
  pub more : (p.has_more ≡ true) ↔ (p.offset + length p.requests < p.total)

module _ (limit offset : ℤ) (old : Tables) where
  abbrev pub Paged : Result PaginatedCertResult → Type 0
  Paged (ok p) = IsPage limit offset old p
  Paged (err e) = Unit

  abbrev At : Tables → ℕ → Type 0
  At t c = t ≡ old

  abbrev rows : List CertificateRequest
  rows = take (page_limit limit) (drop (page_offset offset) (sort_by newest_first old.requests))

  abbrev Counted : Result ℕ → Tables → ℕ → Type 0
  Counted (ok n) t c = (n ≡ length old.requests) × (t ≡ old)
  Counted (err e) t c = Unit

  abbrev Windowed : ℕ → Result (List CertificateRequest) → Tables → ℕ → Type 0
  Windowed n (ok l) t c = (n ≡ length old.requests) × (l ≡ rows)
  Windowed n (err e) t c = Unit

  abbrev Viewed : ℕ → List CertificateRequest → Result (List RequestView) → Tables → ℕ → Type 0
  Viewed n l (ok vs) t c = (n ≡ length old.requests) × (l ≡ rows) × (map (λ v. v.request) vs ≡ l)
  Viewed n l (err e) t c = Unit

  views :
      (n : ℕ) (joined : CertificateEvent → Tables → Bool) (l : List CertificateRequest)
      → Ensures (Windowed n (ok l)) (with_events joined l) (Viewed n l)
  unfolding with_events
  views n joined [] = Ensures-pure [] (λ t c h. (h.0, h.1, refl))
  views n joined (r ∷ rs) =
      Ensures-bind (λ (e : Result (List CertificateEvent)) t c. Windowed n (ok (r ∷ rs)) t c) _ _
        (Ensures-query _ _ _ (λ t c h. h) (λ t c h. h))
        (λ events. Ensures-pure _ (λ t c h. (h.0, h.1, request-attach events (r ∷ rs))))
        (λ e t c h. tt)

  page :
      (n : ℕ) (l : List CertificateRequest) (vs : List RequestView)
      → n ≡ length old.requests
      → l ≡ rows
      → map (λ v. v.request) vs ≡ l
      → IsPage limit offset old (record {
        requests = vs;
        total = n;
        limit = page_limit limit;
        offset = page_offset offset;
        has_more = ltb (page_offset offset + length l) n;
      })
  page n l vs e k q =
      let same : length vs ≡ length l = sym (length-map (λ v. v.request) vs) ∙ ap length q in
      record {
        limited = page_limit-UsedLimit limit;
        skipped = page_offset-UsedOffset offset;
        bounded = page_limit_bounds limit;
        short = omega (
          arith,
          same,
          ap length k,
          length-take (page_limit limit)
              (drop (page_offset offset) (sort_by newest_first old.requests)),
        );
        window = q ∙ k;
        counted = e;
        more = rw same (ltb_iff (page_offset offset + length l) n);
      }
    where
      ltb_iff : (a b : ℕ) → (ltb a b ≡ true) ↔ (a < b)
      ltb_iff a b = ground arith

  paged : Ensures At (get_certificate_requests_paginated limit offset) (λ r t c. Paged r)
  unfolding get_certificate_requests_paginated
  paged =
      Ensures-bind Counted _ _
        (Ensures-query _ _ _ (λ t c h. (ap (λ u. length u.requests) h, h)) (λ t c h. tt))
        (λ n.
          Ensures-bind (Windowed n) _ _
            (Ensures-query _ _ _
              (λ t c h. (
                h.0,
                ap
                    (λ (u : Tables).
                      take (page_limit limit)
                        (drop (page_offset offset) (sort_by newest_first u.requests)))
                    h.1,
              ))
              (λ t c h. tt))
            (λ l.
              Ensures-bind (Viewed n l) _ _ (views n _ l)
                (λ vs. Ensures-pure _ (λ t c h. page n l vs h.0 h.1 h.2)) (λ e t c h. tt))
            (λ e t c h. tt))
        (λ e t c h. tt)

-- A page that is returned names the limit and the offset it uses: the limit is the one asked for, but
-- 20 where zero or less is asked for and 100 where more than 100 is, and the offset is the one asked
-- for, but 0 where it is negative. It has no more rows than its limit, and they are those of the
-- sorted table after its offset, up to its limit; its total is the number of the rows of the table;
-- and it says that there is more exactly when rows of the table come after it.
pub paginated_outcome :
    (limit offset : ℤ) (s : Session Tables)
    → Paged limit offset s.tables (get_certificate_requests_paginated limit offset s).0
paginated_outcome limit offset s = (paged limit offset s.tables).at s refl
