-- ===== src/Jobs/Certificates/Running.antt =====
-- Runs of the certificate jobs in which no statement fails.
use dashboard_site.Common.{
  ℕ, suc, ◌≡◌, ◌∙◌, refl, ap, String, Bool, true, false, Option, some, List, [], ◌∷◌, ◌++◌, arith,
  eqb, any_where, find_where, find_where-any, count_where, update_where, find_where-update_here,
  if◌then◌else◌,
}
use dashboard_site.Models.Certificate.{CertificateRequest, CertificateRequestStatus}
use dashboard_site.Storage.Sql.{ok, Sql, query, exec, raise, request_not_found, ◌>>=◌}
use dashboard_site.Storage.Sql.Calm.{calm, query-calm, transaction-calm}
use dashboard_site.Storage.Whitelist.Schema.{UserRow}
use dashboard_site.Storage.Certificates.Schema.{
  Tables, restore, has_id, is_filled, new_event, insert_event,
}
use dashboard_site.Storage.Certificates.Read.{or_missing, get_system_user}
use dashboard_site.Storage.Certificates.Write.{
  update_request, set_status, set_metadata, set_issued, Issuance, update_certificate_request_status,
  update_certificate_metadata, update_certificate_request_issued,
}
use dashboard_site.Storage.Certificates.Tracking.{RowAt}

-- there is a system user, and neither it nor the owner of the row is empty
pub record IsServed (row : CertificateRequest) (users : List UserRow) (sys : String × String)
    : Type 0 where
  pub system :
      find_where (λ u. u.is_system) users
      ≡ some (record { iss = sys.0; sub = sys.1; is_system = true })
  pub actor : is_filled sys.0 sys.1 ≡ true
  pub owner : is_filled row.owner_iss row.owner_sub ≡ true

module _ (n : ℕ) (row : CertificateRequest) (t : Tables) (now : ℕ) (found : RowAt n row t) where
  there : any_where (has_id n) t.requests ≡ true
  there = (find_where-any (has_id n) t.requests row found).1

  abbrev pub changed : (CertificateRequest → CertificateRequest) → Tables
  changed f = record t { requests = update_where (has_id n) f t.requests }

  pub changed_row :
      (f : CertificateRequest → CertificateRequest)
      → ((r : CertificateRequest) → (f r).id ≡ r.id)
      → RowAt n (f row) (changed f)
  changed_row f same =
      find_where-update_here (has_id n) f (λ r. ap (λ k. eqb k n) (same r)) t.requests row found

  abbrev pub with_event :
      (CertificateRequest → CertificateRequest)
      → CertificateRequestStatus
      → String
      → String
      → String
      → Tables
  with_event f new iss sub notes = record (changed f) {
    events =
        t.events
        ++ new_event n row.owner_iss row.owner_sub iss sub new notes t.next_event_id now ∷ [];
    next_event_id = suc t.next_event_id;
  }

  event_runs :
      (f : CertificateRequest → CertificateRequest)
      → ((r : CertificateRequest) → (f r).id ≡ r.id)
      → (new : CertificateRequestStatus) (iss sub notes : String)
      → is_filled row.owner_iss row.owner_sub ≡ true
      → is_filled iss sub ≡ true
      → insert_event n row.owner_iss row.owner_sub iss sub new notes (changed f) now
        ≡ (ok tt, with_event f new iss sub notes)
  unfolding insert_event
  event_runs f same new iss sub notes owner actor =
      let still : any_where (has_id n) (changed f).requests ≡ true =
        (find_where-any (has_id n) (changed f).requests (f row) (changed_row f same)).1 in
      rw (still, owner, actor) refl

  abbrev status_body : CertificateRequestStatus → String → String → String → Sql Tables Unit
  status_body new iss sub notes =
      query (λ t _. or_missing (find_where (has_id n) t.requests)) >>= λ current.
      update_request n (set_status new) >>= λ _.
      exec (insert_event n current.owner_iss current.owner_sub iss sub new notes)

  status_body-runs :
      (new : CertificateRequestStatus) (iss sub notes : String)
      → is_filled row.owner_iss row.owner_sub ≡ true
      → is_filled iss sub ≡ true
      → status_body new iss sub notes (calm t now)
        ≡ (ok tt, calm (with_event (set_status new) new iss sub notes) now)
  unfolding ◌>>=◌ update_request
  status_body-runs new iss sub notes owner actor =
      rw (found, event_runs (set_status new) (λ r. refl) new iss sub notes owner actor) refl

  pub status_runs :
      (new : CertificateRequestStatus) (iss sub notes : String)
      → is_filled row.owner_iss row.owner_sub ≡ true
      → is_filled iss sub ≡ true
      → update_certificate_request_status n new iss sub notes (calm t now)
        ≡ (ok tt, calm (with_event (set_status new) new iss sub notes) now)
  unfolding update_certificate_request_status
  status_runs new iss sub notes owner actor =
      transaction-calm t now restore (status_body new iss sub notes) tt
        (with_event (set_status new) new iss sub notes)
        (status_body-runs new iss sub notes owner actor)

  counted :
      (p : CertificateRequest → Bool) (rows : List CertificateRequest)
      → any_where p rows ≡ true
      → eqb (count_where p rows) 0 ≡ false
  unfolding any_where count_where
  counted p [] h = absurd (cc)
  counted p (r ∷ rows) h = ground (arith, counted p rows)

  one_there : eqb (count_where (has_id n) t.requests) 0 ≡ false
  one_there = counted (has_id n) t.requests there

  abbrev pub done : String
  done = "Certificate issued by cert-manager"

  abbrev pub issued : CertificateRequestStatus
  issued = CertificateRequestStatus.issued

  abbrev issued_body : Issuance → String → String → Sql Tables Unit
  issued_body d iss sub =
      query (λ t _. or_missing (find_where (has_id n) t.requests)) >>= λ current.
      update_request n (set_issued d) >>= λ affected.
      if eqb affected 0
      then raise request_not_found
      else exec (insert_event n current.owner_iss current.owner_sub iss sub issued done)

  issued_body-runs :
      (d : Issuance) (iss sub : String)
      → is_filled row.owner_iss row.owner_sub ≡ true
      → is_filled iss sub ≡ true
      → issued_body d iss sub (calm t now)
        ≡ (ok tt, calm (with_event (set_issued d) issued iss sub done) now)
  unfolding ◌>>=◌ update_request
  issued_body-runs d iss sub owner actor =
      rw (found, one_there, event_runs (set_issued d) (λ r. refl) issued iss sub done owner actor)
        refl

  pub issued_runs :
      (d : Issuance) (iss sub : String)
      → is_filled row.owner_iss row.owner_sub ≡ true
      → is_filled iss sub ≡ true
      → update_certificate_request_issued n d iss sub (calm t now)
        ≡ (ok tt, calm (with_event (set_issued d) issued iss sub done) now)
  unfolding update_certificate_request_issued
  issued_runs d iss sub owner actor =
      transaction-calm t now restore (issued_body d iss sub) tt
        (with_event (set_issued d) issued iss sub done) (issued_body-runs d iss sub owner actor)

  pub metadata_runs :
      (identifier : String) (metadata : Option String)
      → update_certificate_metadata n identifier metadata (calm t now)
        ≡ (ok tt, calm (changed (set_metadata identifier metadata)) now)
  unfolding update_certificate_metadata update_request ◌>>=◌
  metadata_runs identifier metadata = rw one_there refl

pub system_runs :
    (t : Tables) (now : ℕ) (iss sub : String) (b : Bool)
    → find_where (λ u. u.is_system) t.users ≡ some (record { iss = iss; sub = sub; is_system = b })
    → get_system_user (calm t now) ≡ (ok (iss, sub), calm t now)
unfolding get_system_user
system_runs t now iss sub b h = query-calm t now _ ∙ rw h refl
