-- ===== src/Storage/Certificates/Soundness.antt =====
-- What holds of the tables of the certificate requests between two statements, whichever fail.
use dashboard_site.Common.{
  ℕ, suc, ◌<◌, ◌≡◌, ◌≢◌, refl, sym, subst, String, Option, List, [], ◌∷◌, ◌++◌, map, arith, eqb,
  All, AllPairs, All-map, All-concat, AllPairs-append_one, any_where, update_where,
  map-update_where, Bool-cases, inl, inr, ◌&&◌,
}
use mathlib.Core.List.{map-append}
use dashboard_site.Models.Certificate.{CertificateRequest, CertificateRequestStatus}
use dashboard_site.Storage.Sql.{request_not_found}
use dashboard_site.Storage.Sql.Keeps.{
  Keeps, Keeps-pure, Keeps-raise, Keeps-if, Keeps-query, Keeps-exec, Keeps-bind, Keeps-transaction,
}
use dashboard_site.Storage.Certificates.Schema.{
  Tables, restore, has_id, is_filled, NewRequest, new_row, insert_request, insert_event,
}
use dashboard_site.Storage.Certificates.Read.{get_certificate_request_by_id, get_system_user}
use dashboard_site.Storage.Certificates.Write.{
  update_request, set_status, set_metadata, set_issued, Issuance, create_certificate_request,
  update_certificate_request_status, update_certificate_metadata, update_certificate_request_issued,
}

abbrev pub ids : List CertificateRequest → List ℕ
ids = map (λ r. r.id)

-- Ids are distinct, and below the sequence's next value.
pub record IsSound (t : Tables) : Type 0 where
  pub fresh : All (λ n. n < t.next_id) (ids t.requests)
  pub distinct : AllPairs (λ m n. m ≢ n) (ids t.requests)

-- sound, with the sequence where it was
record IsStill (low : ℕ) (t : Tables) : Type 0 where
  sound : IsSound t
  still : t.next_id ≡ low

keep_ids :
    (t : Tables) (rows : List CertificateRequest)
    → ids rows ≡ ids t.requests
    → IsSound t
    → IsSound (record t { requests = rows })
keep_ids t rows same h = record { fresh = rw same h.fresh; distinct = rw same h.distinct }

update_rows :
    (m : ℕ) (f : CertificateRequest → CertificateRequest)
    → ((r : CertificateRequest) → (f r).id ≡ r.id)
    → (t : Tables) → IsSound t
    → IsSound (record t { requests = update_where (has_id m) f t.requests })
update_rows m f same t h =
    keep_ids t _ (map-update_where (has_id m) f (λ r. r.id) same t.requests) h

module _ (m : ℕ) (iss sub by_iss by_sub : String) (status : CertificateRequestStatus)
    (notes : String) where
  event_cases :
      (low : ℕ) (t : Tables) (now : ℕ)
      → IsStill low t
      → IsStill low (insert_event m iss sub by_iss by_sub status notes t now).1
  unfolding insert_event
  event_cases low t now h =
      elim (Bool-cases
        (any_where (has_id m) t.requests && is_filled iss sub && is_filled by_iss by_sub)) [
          | inl e ↦ rw e (record {
            sound = record { fresh = h.sound.fresh; distinct = h.sound.distinct };
            still = h.still;
          })
          | inr e ↦ rw e (record {
            sound = record { fresh = h.sound.fresh; distinct = h.sound.distinct };
            still = h.still;
          })
        ]

module _ (m : ℕ) where
  update-IsStill :
      (low : ℕ) (f : CertificateRequest → CertificateRequest)
      → ((r : CertificateRequest) → (f r).id ≡ r.id)
      → Keeps (IsStill low) (update_request m f)
  unfolding update_request
  update-IsStill low f same =
      Keeps-exec _ λ t now h. record { sound = update_rows m f same t h.sound; still = h.still }

  restored : (old new : Tables) → IsSound old → IsStill old.next_id new → IsSound (restore old new)
  restored old new h k = record {
    fresh = subst (λ top. All (λ n. n < top) (ids old.requests)) (sym k.still) h.fresh;
    distinct = h.distinct;
  }

  pub status-IsSound :
      (new : CertificateRequestStatus) (iss sub notes : String)
      → Keeps IsSound (update_certificate_request_status m new iss sub notes)
  unfolding update_certificate_request_status
  status-IsSound new iss sub notes =
      Keeps-transaction restore (λ old. IsStill old.next_id)
        (λ old h. record { sound = h; still = refl }) restored (λ old new h k. k.sound) _
        (λ old. Keeps-bind _ _ (Keeps-query _) λ current.
          Keeps-bind _ _ (update-IsStill old.next_id (set_status new) (λ r. refl)) λ _.
            Keeps-exec _
              (event_cases m current.owner_iss current.owner_sub iss sub new notes old.next_id))

  pub issued-IsSound :
      (d : Issuance) (iss sub : String)
      → Keeps IsSound (update_certificate_request_issued m d iss sub)
  unfolding update_certificate_request_issued
  issued-IsSound d iss sub =
      Keeps-transaction restore (λ old. IsStill old.next_id)
        (λ old h. record { sound = h; still = refl }) restored (λ old new h k. k.sound) _
        (λ old. Keeps-bind _ _ (Keeps-query _) λ current.
          Keeps-bind _ _ (update-IsStill old.next_id (set_issued d) (λ r. refl)) λ affected.
            Keeps-if (eqb affected 0) _ _ (Keeps-raise request_not_found) (
              Keeps-exec _ (
                event_cases m current.owner_iss current.owner_sub iss sub
                  CertificateRequestStatus.issued "Certificate issued by cert-manager"
                  old.next_id)))

  pub metadata-IsSound :
      (identifier : String) (metadata : Option String)
      → Keeps IsSound (update_certificate_metadata m identifier metadata)
  unfolding update_certificate_metadata update_request
  metadata-IsSound identifier metadata =
      Keeps-bind _ _
        (Keeps-exec _ λ t now h. update_rows m (set_metadata identifier metadata) (λ r. refl) t h)
        λ affected. Keeps-if (eqb affected 0) _ _ (Keeps-raise request_not_found) (Keeps-pure tt)

insert_cases :
    (a : NewRequest) (t : Tables) (now : ℕ) → IsSound t → IsSound (insert_request a t now).1
unfolding insert_request
insert_cases a t now h = elim (Bool-cases (is_filled a.owner_iss a.owner_sub)) [
  | inl e ↦
      let grown : ids (t.requests ++ new_row a t.next_id now ∷ [])
          ≡ ids t.requests ++ t.next_id ∷ [] =
        map-append (λ r. r.id) t.requests (new_row a t.next_id now ∷ []) in
      rw e (record {
        fresh = rw grown (
            All-concat (λ n. n < suc t.next_id) (ids t.requests) t.next_id
              (All-map (λ n. n < t.next_id) (λ n. n < suc t.next_id) (λ n k. omega arith) _ h.fresh)
              (omega arith));
        distinct = rw grown (
            AllPairs-append_one (λ m n. m ≢ n) (ids t.requests) t.next_id h.distinct
              (All-map (λ n. n < t.next_id) (λ n. n ≢ t.next_id) (λ n k. omega arith) _ h.fresh));
      })
  | inr e ↦ rw e (record {
    fresh = All-map (λ n. n < t.next_id) (λ n. n < suc t.next_id) (λ n k. omega arith) _ h.fresh;
    distinct = h.distinct;
  })
]

pub reading-IsSound : (n : ℕ) → Keeps IsSound (get_certificate_request_by_id n)
unfolding get_certificate_request_by_id
reading-IsSound n =
    Keeps-bind _ _ (Keeps-query _) λ r. Keeps-bind _ _ (Keeps-query _) λ vs. Keeps-pure _

pub creation-IsSound : (a : NewRequest) → Keeps IsSound (create_certificate_request a)
unfolding create_certificate_request
creation-IsSound a = Keeps-bind _ _ (Keeps-exec _ (insert_cases a)) reading-IsSound

pub system-IsSound : Keeps IsSound get_system_user
unfolding get_system_user
system-IsSound = Keeps-query _
