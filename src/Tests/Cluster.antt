-- ===== src/Tests/Cluster.antt =====
-- The theorems on the election and the job manager at small runs, and a run in which two instances lead.
use dashboard_site.Common.{
  ◌+◌, ◌<◌, ◌≡◌, ◌≢◌, refl, String, Bool, true, false, ◌&&◌, some, List, [], ◌∷◌, ◌==◌, eq_iff,
  subst, Bool-cases, inl, inr, arith, contains, any_where,
}
use dashboard_site.Distributed.{Event, Link, live, step, run, started}
use dashboard_site.Distributed.Leasing.{leases, lease}
use dashboard_site.Distributed.Electing.{leases_of, leases_exclude, lease_protects}
use dashboard_site.Jobs.JobManager.{JobManager, is_for, start_elected, start_alone, stop_all_jobs}
use dashboard_site.Jobs.JobManager.Monitoring.{named, due, last, monitoring_outcome}

abbrev won : List Event
won =
    Event.campaign "a" 5 Link.answered
    ∷ Event.campaign "b" 3 Link.answered
    ∷ Event.campaign "b" 1 Link.answered
    ∷ []

running : (run 30 won started).clock < leases_of 30 won "a"
unfolding run leases step lease
running = omega arith

abbrev a : String
a = "a"

abbrev b : String
b = "b"

leases_exclude_example :
    (live (run 30 won started).clock (run 30 won started).key ≡ some "a") × (a ≡ a)
leases_exclude_example = leases_exclude 30 won "a" "a" running running

apart : a ≢ b
apart e = absurd (differ ((eq_iff "a" "b").1 e))
  where
    differ : ("a" == "b") ≡ true → ⊥
    differ k = cc

-- `b` led before: its key expired while it could not reach Redis
abbrev split : List Event
split =
    Event.campaign "b" 5 Link.answered
    ∷ Event.campaign "b" 40 Link.unsent
    ∷ Event.campaign "a" 1 Link.answered
    ∷ []

still : (run 30 split started).clock + 10 < leases_of 30 split "a"
unfolding run leases step lease
still = omega arith

two_leaders :
    (((run 30 split started).instances "a").is_leader ≡ true)
    × (((run 30 split started).instances "b").is_leader ≡ true)
unfolding run step
two_leaders = (refl, refl)

unreached :
    ((step 30 (Event.campaign "b" 10 Link.unsent) (run 30 split started)).instances "b").is_leader
    ≡ true
unfolding run step
unreached = refl

lease_protects_example : ((run 30 split started).instances "b").is_leader ≡ true
lease_protects_example = lease_protects 30 split "a" "b" 10 Link.unsent apart still unreached

abbrev manager : JobManager
manager = record {
  jobs =
      record { name = "data_fetch"; requires_leadership = false }
      ∷ record { name = "firewall_ip_sync"; requires_leadership = true }
      ∷ [];
  cancel_funcs = [];
  launched = [];
}

disjoint :
    (n : String)
    → (named (is_for true) n manager.jobs && named (is_for false) n manager.jobs) ≡ false
unfolding any_where
disjoint n = elim (Bool-cases ("firewall_ip_sync" == n)) [
  | inl e ↦
      subst
        (λ m. (named (is_for true) m manager.jobs && named (is_for false) m manager.jobs) ≡ false)
        ((eq_iff "firewall_ip_sync" n).0 e) refl
  | inr e ↦ rw e refl
]

abbrev readings : List Bool
readings = true ∷ true ∷ false ∷ true ∷ []

monitoring_outcome_example :
    (contains "firewall_ip_sync" (start_elected readings manager).cancel_funcs
      ≡ due manager.jobs (last false readings) "firewall_ip_sync")
    × (contains "firewall_ip_sync" (start_alone manager).cancel_funcs
        ≡ named (λ _. true) "firewall_ip_sync" manager.jobs)
    × (contains "firewall_ip_sync" (stop_all_jobs (start_elected readings manager)).cancel_funcs
        ≡ false)
monitoring_outcome_example = monitoring_outcome manager readings "firewall_ip_sync" refl disjoint
