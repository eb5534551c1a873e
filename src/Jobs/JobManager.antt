-- ===== src/Jobs/JobManager.antt =====
-- internal/jobs/job_manager.go. The contexts that are not cancelled stand in `cancel_funcs` by the names of their jobs;
-- `launched` is the sequence of the goroutines that were started.
pub mod Monitoring
use dashboard_site.Common.{
  String, Bool, true, false, not, ◌&&◌, List, [], ◌∷◌, ◌++◌, ◌==◌, contains, select_where, for_each,
  if◌then◌else◌,
}

pub record Job : Type 0 where
  pub name : String
  pub requires_leadership : Bool

pub record JobManager : Type 0 where
  pub jobs : List Job
  pub cancel_funcs : List String
  pub launched : List String

-- NewJobManager, and Register
abbrev pub new_job_manager : JobManager
new_job_manager = record { jobs = []; cancel_funcs = []; launched = [] }

abbrev pub register : Job → JobManager → JobManager
register j m = record m { jobs = m.jobs ++ j ∷ [] }

abbrev pub is_for : Bool → Job → Bool
is_for true j = j.requires_leadership
is_for false j = not j.requires_leadership

abbrev start_one : Bool → Job → JobManager → JobManager
start_one leader j m =
    if is_for leader j && not (contains j.name m.cancel_funcs)
    then record m { cancel_funcs = j.name ∷ m.cancel_funcs; launched = m.launched ++ j.name ∷ [] }
    else m

-- `delete(jm.cancelFuncs, name)`
abbrev drop_name : String → List String → List String
drop_name name = select_where (λ n. not (n == name))

abbrev stop_one : (Job → Bool) → Job → JobManager → JobManager
stop_one p j m =
    if p j && contains j.name m.cancel_funcs
    then record m { cancel_funcs = drop_name j.name m.cancel_funcs }
    else m

unfoldable pub start_jobs : Bool → JobManager → JobManager
start_jobs leader m = for_each (start_one leader) m.jobs m

-- startLeaderJobs and startNonLeaderJobs
abbrev pub start_leader_jobs : JobManager → JobManager
start_leader_jobs = start_jobs true

abbrev pub start_non_leader_jobs : JobManager → JobManager
start_non_leader_jobs = start_jobs false

unfoldable pub stop_where : (Job → Bool) → JobManager → JobManager
stop_where p m = for_each (stop_one p) m.jobs m

abbrev pub stop_leader_jobs : JobManager → JobManager
stop_leader_jobs = stop_where (is_for true)

abbrev pub stop_all_jobs : JobManager → JobManager
stop_all_jobs = stop_where (λ _. true)

-- one tick of monitorLeadership: what IsLeader says, and the manager with `wasLeader`
unfoldable pub tick : Bool → JobManager × Bool → JobManager × Bool
tick true (m, false) = (start_leader_jobs m, true)
tick false (m, true) = (stop_leader_jobs m, false)
tick is_leader (m, was_leader) = (m, is_leader)

unfoldable pub monitor : List Bool → JobManager × Bool → JobManager × Bool
unfolding tick
monitor [] w = w
monitor (is_leader ∷ rest) w = monitor rest (tick is_leader w)

-- Start with an election, with the ticks that follow, and without one
unfoldable pub start_elected : List Bool → JobManager → JobManager
start_elected readings m = (monitor readings (start_non_leader_jobs m, false)).0

unfoldable pub start_alone : JobManager → JobManager
start_alone m = start_leader_jobs (start_non_leader_jobs m)
