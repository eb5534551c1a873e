-- ===== src/Tests/Certificates.antt =====
-- The theorems on certificate requests at a small table.
use dashboard_site.Common.{
  ℕ, String, Bool, ◌≡◌, refl, true, false, none, some, List, [], ◌∷◌, arith, any_where, find_where,
  if◌then◌else◌, ◌↔◌,
}
use dashboard_site.Common.Int.{pos, negsuc}
use dashboard_site.Config.{Config}
use dashboard_site.Models.Principal.{User, user}
use dashboard_site.Models.Certificate.{
  CertificateRequest, CertificateEvent, CertificateRequestStatus, is_terminal, can_transition_to,
  is_terminal_iff,
}
use dashboard_site.Storage.Sql.Calm.{calm}
use dashboard_site.Storage.Certificates.Schema.{Tables}
use dashboard_site.Storage.Certificates.Read.{get_certificate_requests_paginated}
use dashboard_site.Storage.Certificates.Write.{set_status}
use dashboard_site.Storage.Certificates.Tracking.{RowAt}
use dashboard_site.Storage.Certificates.Soundness.{IsSound}
use dashboard_site.Storage.Certificates.Recording.{IsRecorded}
use dashboard_site.Storage.Certificates.Paging.{Paged, paginated_outcome}
use dashboard_site.Handlers.Certificates.{
  CertificateBody, ReviewBody, post_certificate_request, post_certificate_review,
}
use dashboard_site.Handlers.Certificates.Deciding.{Reviewed, review_outcome}
use dashboard_site.Handlers.Certificates.Filing.{Filed, filing_outcome}
use dashboard_site.Jobs.Certificates.{
  Manager, answer, refusal, is_not_found_error, create_one, issue_one,
}
use dashboard_site.Jobs.Certificates.Running.{IsServed}
use dashboard_site.Jobs.Certificates.Outcomes.{Cooperates, created_row, issued_row, create-issue}
use dashboard_site.System.Certificates.{Action, Round, serve_all}
use dashboard_site.System.Certificates.Safety.{
  Lives, serve_all-Lives, serve_all-settled, serve_all-IsRecorded,
}
use dashboard_site.System.Certificates.Stranding.{create-strands}

abbrev person : String → User
person name = record {
  sub = name;
  iss = "iss";
  username = name;
  display_name = name;
  email = "";
  groups = "staff" ∷ [];
  is_system = false;
}

abbrev office : Config
office = record {
  group_scopes = ("staff", "mtls:request" ∷ "mtls:approve" ∷ []) ∷ [];
  aliases = [];
  storage_enabled = true;
  external_url = "iss";
  min_certificate_validity_days = pos 30;
  max_certificate_validity_days = pos 365;
}

abbrev row : ℕ → CertificateRequestStatus → CertificateRequest
row n status = record {
  id = n;
  owner_iss = "iss";
  owner_sub = "ann";
  message = "";
  common_name = "ann";
  dns_names = [];
  organizational_units = [];
  validity_days = pos 90;
  status = status;
  requested_at = n;
  certificate_identifier = none;
  provider_metadata = none;
  issued_at = none;
  expires_at = none;
  serial_number = none;
  certificate_pem = none;
}

abbrev waiting : CertificateRequest
waiting = row 1 CertificateRequestStatus.awaiting_review

abbrev refused : CertificateRequest
refused = row 2 CertificateRequestStatus.rejected

abbrev granted : CertificateRequest
granted = row 3 CertificateRequestStatus.approved

abbrev event : ℕ → ℕ → CertificateRequestStatus → CertificateEvent
event v n status = record {
  id = v;
  certificate_request_id = n;
  requester_iss = "iss";
  requester_sub = "ann";
  reviewer_iss = "iss";
  reviewer_sub = "bob";
  new_status = status;
  review_notes = "";
  created_at = 5;
}

abbrev table : Tables
table = record {
  requests = waiting ∷ refused ∷ granted ∷ [];
  events =
      event 1 2 CertificateRequestStatus.rejected
      ∷ event 2 3 CertificateRequestStatus.approved
      ∷ [];
  next_id = 4;
  next_event_id = 3;
  users =
      record { iss = "iss"; sub = "system"; is_system = true }
      ∷ record { iss = "iss"; sub = "ann"; is_system = false }
      ∷ record { iss = "iss"; sub = "bob"; is_system = false }
      ∷ [];
}

table-IsSound : IsSound table
table-IsSound = record { fresh = omega arith; distinct = omega arith }

table-IsRecorded : IsRecorded table
unfolding any_where
table-IsRecorded = (refl, (refl, (refl, tt)))

-- a manager that keeps whether it has made its one certificate
abbrev maker : Manager
maker = record {
  State = Bool;
  create = λ request made. (answer ("cert-1", none), true);
  get_data = λ name made. ((if made then answer "PEM" else refusal "certificate Not Found"), made);
  is_ready = λ name made. (answer made, made);
  certificate_name = λ sub iss at. "cert-1";
  parse_details = λ pem. some (record { serial_number = "7"; not_before = 20; not_after = 900 });
}

-- one that cannot be reached
abbrev unreachable : Manager
unreachable = record {
  State = Unit;
  create = λ request s. (refusal "timeout", s);
  get_data = λ name s. (refusal "timeout", s);
  is_ready = λ name s. (refusal "timeout", s);
  certificate_name = λ sub iss at. "cert-1";
  parse_details = λ pem. none;
}

abbrev bob_approves : ReviewBody
bob_approves = record { new_status = " approved "; review_notes = "fine" }

abbrev rounds : List Round
rounds =
    record {
      action = Action.review (some (user (person "bob"))) (some 1) (some bob_approves);
      clock = 30;
      faults = false ∷ true ∷ [];
    }
    ∷ record { action = Action.creation_job; clock = 31; faults = [] }
    ∷ record { action = Action.status_job; clock = 32; faults = [] }
    ∷ []

serve_all-Lives_example :
    Lives 1 waiting (serve_all office maker rounds (calm table 20, false)).0.tables
unfolding find_where
serve_all-Lives_example =
    serve_all-Lives office maker 1 waiting rounds (calm table 20, false) table-IsSound refl

serve_all-settled_example :
    RowAt 2 refused (serve_all office maker rounds (calm table 20, false)).0.tables
unfolding find_where is_terminal
serve_all-settled_example =
    serve_all-settled office maker 2 refused rounds (calm table 20, false) table-IsSound refl refl

serve_all-IsRecorded_example :
    IsRecorded (serve_all office maker rounds (calm table 20, false)).0.tables
serve_all-IsRecorded_example =
    serve_all-IsRecorded office maker rounds (calm table 20, false) table-IsRecorded

review_outcome_example :
    Reviewed office
      (some (user (person "bob")))
      (some 1)
      (some bob_approves)
      table
      20
      (post_certificate_review office
        (some (user (person "bob")))
        (some 1)
        (some bob_approves)
        (calm table 20)).0
      (post_certificate_review office
        (some (user (person "bob")))
        (some 1)
        (some bob_approves)
        (calm table 20)).1.tables
review_outcome_example =
    review_outcome office (some (user (person "bob"))) (some 1) (some bob_approves) (calm table 20)

abbrev order : CertificateBody
order = record { message = "please"; validity_days = pos 0 }

filing_outcome_example :
    Filed office
      (some (user (person "ann")))
      (some order)
      table
      20
      (post_certificate_request office (some (user (person "ann"))) (some order) (calm table 20)).0
      (post_certificate_request office
        (some (user (person "ann")))
        (some order)
        (calm table 20)).1.tables
filing_outcome_example =
    filing_outcome office (some (user (person "ann"))) (some order) (calm table 20) table-IsSound

granted_there : RowAt 3 granted table
unfolding find_where
granted_there = refl

granted-IsServed : IsServed granted table.users ("iss", "system")
unfolding find_where any_where
granted-IsServed = record { system = refl; actor = refl; owner = refl }

abbrev cooperation :
    Cooperates maker granted table 20 ("iss", "system") granted_there granted-IsServed false
unfolding is_not_found_error
cooperation = record {
  message = "certificate Not Found";
  identifier = "cert-1";
  metadata = none;
  certificate_pem = "PEM";
  details = record { serial_number = "7"; not_before = 20; not_after = 900 };
  looked = false;
  created = true;
  ready = true;
  read = true;
  missing = refl;
  says_so = refl;
  creates = refl;
  is_there = refl;
  gives = refl;
  parses = refl;
}

create-issue_example :
    RowAt 3
      (created_row maker granted table 20
        ("iss", "system")
        granted_there
        granted-IsServed
        false
        cooperation)
      (create_one maker granted (calm table 20, false)).0.tables
    × RowAt 3
        (issued_row maker granted table 20
          ("iss", "system")
          granted_there
          granted-IsServed
          false
          cooperation)
        (issue_one maker
          ("iss", "system")
          (created_row maker granted table 20
            ("iss", "system")
            granted_there
            granted-IsServed
            false
            cooperation)
          (create_one maker granted (calm table 20, false))).0.tables
create-issue_example =
    create-issue maker granted table 20 ("iss", "system") granted_there granted-IsServed false
      cooperation

create-strands_example :
    RowAt 3
      (set_status CertificateRequestStatus.pending granted)
      (serve_all office unreachable rounds
        (create_one unreachable granted (calm table 20, tt))).0.tables
unfolding is_not_found_error
create-strands_example =
    create-strands office unreachable granted table 20 ("iss", "system") tt tt "timeout" rounds
      table-IsSound granted_there granted-IsServed refl refl refl

paginated_outcome_example :
    Paged
      (pos 500)
      (negsuc 0)
      table
      (get_certificate_requests_paginated (pos 500) (negsuc 0) (calm table 20)).0
paginated_outcome_example = paginated_outcome (pos 500) (negsuc 0) (calm table 20)

is_terminal_iff_example :
    (is_terminal CertificateRequestStatus.issued ≡ true)
    ↔ ((t : CertificateRequestStatus) → can_transition_to CertificateRequestStatus.issued t ≡ false)
is_terminal_iff_example = is_terminal_iff CertificateRequestStatus.issued
