-- ===== src/System/Certificates.antt =====
-- The certificate requests as the server handles them: requests of the certificate routes that
-- internal/server/handlers.go registers, and rounds of the two certificate jobs, one after the other.
pub mod Serving
pub mod Safety
pub mod Stranding
use dashboard_site.Common.{ℕ, Bool, Option, List, [], ◌∷◌}
use dashboard_site.Config.{Config}
use dashboard_site.Models.Principal.{Principal}
use dashboard_site.Storage.Sql.{Session}
use dashboard_site.Storage.Certificates.Schema.{Tables}
use dashboard_site.Handlers.Certificates.{
  CertificateBody, ReviewBody, post_certificate_request, post_certificate_review, get_all_requests,
  get_certificate_request, get_user_certificate_requests,
}
use dashboard_site.Jobs.Certificates.{Manager, create_round, status_round}

pub data Action : Type 0 where
  ask : Option Principal → Option CertificateBody → Action
  review : Option Principal → Option ℕ → Option ReviewBody → Action
  list : Option Principal → Action
  mine : Option Principal → Action
  show : Option Principal → Option ℕ → Action
  creation_job : Action
  status_job : Action

-- Before an action, time passes, and a new schedule of faults is set.
pub record Round : Type 0 where
  pub action : Action
  pub clock : ℕ
  pub faults : List Bool

module _ (cfg : Config) (m : Manager) where
  abbrev pub World : Type 0
  World = Session Tables × m.State

  unfoldable pub serve : Action → World → World
  serve (ask who body) (s, t) = ((post_certificate_request cfg who body s).1, t)
  serve (review who request_id body) (s, t) =
      ((post_certificate_review cfg who request_id body s).1, t)
  serve (list who) (s, t) = ((get_all_requests cfg who s).1, t)
  serve (mine who) (s, t) = ((get_user_certificate_requests who s).1, t)
  serve (show who request_id) (s, t) = ((get_certificate_request cfg who request_id s).1, t)
  serve creation_job w = create_round m w
  serve status_job w = status_round m w

  unfoldable pub serve_all : List Round → World → World
  unfolding serve
  serve_all [] w = w
  serve_all (o ∷ os) (s, t) =
      serve_all os (serve o.action (record s { clock = o.clock; faults = o.faults }, t))
