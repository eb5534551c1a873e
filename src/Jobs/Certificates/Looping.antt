-- ===== src/Jobs/Certificates/Looping.antt =====
-- Loops over certificate requests that a query has returned, and what they do to one of them.
use dashboard_site.Common.{
  ℕ, ◌≡◌, ◌≢◌, ◌∙◌, inl, inr, sym, ap, subst, Bool, true, some, List, [], ◌∷◌, eqb, eqb_iff,
  Bool-cases, some-cancel, All, All-map, AllPairs, Apart, All-select, select-passes,
  AllPairs-select, All-sort, AllPairs-sort, found_by_key, AllPairs-of_map, find_where, select_where,
  sort_by, for_each,
}
use dashboard_site.Models.Certificate.{CertificateRequest}
use dashboard_site.Storage.Sql.{Result, ok, err}
use dashboard_site.Storage.Certificates.Schema.{Tables, has_id}
use dashboard_site.Storage.Certificates.Read.{oldest_first}
use dashboard_site.Storage.Certificates.Tracking.{RowAt}
use dashboard_site.Storage.Certificates.Life.{Stepped, stayed}
use dashboard_site.Storage.Certificates.Soundness.{IsSound}

module _ {W : Type 0} (tables : W → Tables) (body : CertificateRequest → W → W) where
  pub loop-keeps :
      (I : Tables → Type 0)
      → ((c : CertificateRequest) (w : W) → I (tables w) → I (tables (body c w)))
      → (cs : List CertificateRequest) (w : W) → I (tables w)
      → I (tables (for_each body cs w))
  unfolding for_each
  loop-keeps I k [] w h = h
  loop-keeps I k (c ∷ cs) w h = loop-keeps I k cs (body c w) (k c w h)

  module _ (n : ℕ) (x : CertificateRequest)
      (others : (y c : CertificateRequest) (w : W)
        → n ≢ c.id
        → RowAt n y (tables w)
        → RowAt n y (tables (body c w))) where
    -- a loop that does not come to the id
    loop-other :
        (y : CertificateRequest) (cs : List CertificateRequest) (w : W)
        → All (λ c. n ≢ c.id) cs
        → RowAt n y (tables w)
        → RowAt n y (tables (for_each body cs w))
    unfolding for_each
    loop-other y [] w a h = h
    loop-other y (c ∷ cs) w a h = loop-other y cs (body c w) a.1 (others y c w a.0 h)

    module _ (Q : Type 0)
        (here : (c : CertificateRequest) (w : W)
          → c.id ≡ n
          → Q
          → RowAt n x (tables w)
          → Stepped n x (tables (body c w))) where
      -- a loop over different ids: the row takes one step, if its id comes
      pub loop-steps :
          (cs : List CertificateRequest) (w : W)
          → AllPairs (Apart (λ c. c.id)) cs
          → All (λ c. c.id ≡ n → Q) cs
          → RowAt n x (tables w)
          → Stepped n x (tables (for_each body cs w))
      unfolding for_each
      loop-steps [] w a q h = stayed n x (tables w) h
      loop-steps (c ∷ cs) w a q h = elim (Bool-cases (eqb c.id n)) [
        | inl e ↦
            let same : c.id ≡ n = (eqb_iff c.id n).0 e in
            let one = here c w same (q.0 same) h in
            record {
              now_row = one.now_row;
              found =
                  loop-other one.now_row cs (body c w)
                    (All-map (λ d. c.id ≢ d.id) (λ d. n ≢ d.id) (λ d k r. k (same ∙ r)) cs a.0)
                    one.found;
              step = one.step;
            }
        | inr e ↦
            loop-steps cs (body c w) a.1 q.1
              (others x c w (λ r. absurd (cc ((eqb_iff c.id n).1 (sym r)))) h)
      ]

-- what a query of the rows that pass a test returns
module _ (n : ℕ) (x : CertificateRequest) (p : CertificateRequest → Bool) where
  abbrev pub Good : List CertificateRequest → Type 0
  Good cs = AllPairs (Apart (λ c. c.id)) cs × All (λ c. c.id ≡ n → p x ≡ true) cs

  abbrev pub Read : Result (List CertificateRequest) → Tables → ℕ → Type 0
  Read (ok cs) t c = Good cs × RowAt n x t
  Read (err e) t c = RowAt n x t

  passes :
      (t : Tables) (cs : List CertificateRequest)
      → RowAt n x t
      → All (λ c. p c ≡ true) cs
      → All (λ c. find_where (has_id c.id) t.requests ≡ some c) cs
      → All (λ c. c.id ≡ n → p x ≡ true) cs
  passes t [] h k f = tt
  passes t (c ∷ cs) h k f = (
    λ e.
        let row : RowAt n c t = subst (λ (j : ℕ). RowAt j c t) e f.0 in
        let one : c ≡ x = some-cancel c x (sym row ∙ h) in ap p (sym one) ∙ k.0,
    passes t cs h k.1 f.1,
  )

  pub selected :
      (t : Tables)
      → RowAt n x t
      → IsSound t
      → Good (sort_by oldest_first (select_where p t.requests))
  selected t h s =
      let apart = AllPairs-of_map (λ c. c.id) t.requests s.distinct in
      (
        AllPairs-sort oldest_first (Apart (λ c. c.id)) (λ a b k e. k (sym e)) _
            (AllPairs-select (Apart (λ c. c.id)) p t.requests apart),
        passes t _ h (All-sort oldest_first _ _ (select-passes p t.requests)) (
            All-sort oldest_first _ _
              (All-select _ p t.requests (found_by_key (λ c. c.id) t.requests apart))),
      )
