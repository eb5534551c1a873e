-- ===== src/Jobs/JobManager/Monitoring.antt =====
-- Which jobs run, by what the election says.
use dashboard_site.Common.{
  eq_sym, contains-select_where, ◌≡◌, ◌∙◌, refl, ap, String, Bool, true, false, not, ◌&&◌, ◌||◌,
  List, [], ◌∷◌, ◌==◌, arith, contains, any_where, for_each, Bool-cases, inl, inr, eq_iff,
}
use dashboard_site.Jobs.JobManager.{
  Job, JobManager, is_for, start_one, stop_one, start_jobs, stop_where, tick, monitor,
  start_elected, start_alone, stop_all_jobs,
}

-- a job of this kind has the name
abbrev pub named : (Job → Bool) → String → List Job → Bool
named p s = any_where (λ j. p j && j.name == s)

start_one-contains :
    (b : Bool) (s : String) (j : Job) (m : JobManager)
    → contains s (start_one b j m).cancel_funcs
      ≡ (contains s m.cancel_funcs || (is_for b j && j.name == s))
unfolding contains
start_one-contains b s j m = elim (Bool-cases (is_for b j)) [
  | inr e ↦ rw e (ground arith)
  | inl e ↦ elim (Bool-cases (j.name == s)) [
    | inl k ↦
        let same : contains j.name m.cancel_funcs ≡ contains s m.cancel_funcs =
          ap (λ n. contains n m.cancel_funcs) ((eq_iff j.name s).0 k) in
        ground arith
    | inr k ↦ ground arith
  ]
]

stop_one-contains :
    (p : Job → Bool) (s : String) (j : Job) (m : JobManager)
    → contains s (stop_one p j m).cancel_funcs
      ≡ (contains s m.cancel_funcs && not (p j && j.name == s))
stop_one-contains p s j m =
    let dropped = contains-select_where s (λ n. not (n == j.name)) m.cancel_funcs in
    let turned = eq_sym s j.name in
    elim (Bool-cases (j.name == s)) [
      | inl k ↦
          let same : contains j.name m.cancel_funcs ≡ contains s m.cancel_funcs =
            ap (λ n. contains n m.cancel_funcs) ((eq_iff j.name s).0 k) in
          ground arith
      | inr k ↦ ground arith
    ]

starting :
    (b : Bool) (s : String) (js : List Job) (m : JobManager)
    → contains s (for_each (start_one b) js m).cancel_funcs
      ≡ (contains s m.cancel_funcs || named (is_for b) s js)
unfolding for_each any_where
starting b s [] m = ground arith
starting b s (j ∷ js) m =
    let one = start_one-contains b s j m in
    let rest = starting b s js (start_one b j m) in ground arith

stopping :
    (p : Job → Bool) (s : String) (js : List Job) (m : JobManager)
    → contains s (for_each (stop_one p) js m).cancel_funcs
      ≡ (contains s m.cancel_funcs && not (named p s js))
unfolding for_each any_where
stopping p s [] m = ground arith
stopping p s (j ∷ js) m =
    let one = stop_one-contains p s j m in
    let rest = stopping p s js (stop_one p j m) in ground arith

starting-jobs :
    (b : Bool) (js : List Job) (m : JobManager) → (for_each (start_one b) js m).jobs ≡ m.jobs
unfolding for_each
starting-jobs b [] m = refl
starting-jobs b (j ∷ js) m =
    starting-jobs b js (start_one b j m)
    ∙ elim (Bool-cases (is_for b j && not (contains j.name m.cancel_funcs))) [
      | inl e ↦ rw e refl
      | inr e ↦ rw e refl
    ]

stopping-jobs :
    (p : Job → Bool) (js : List Job) (m : JobManager) → (for_each (stop_one p) js m).jobs ≡ m.jobs
unfolding for_each
stopping-jobs p [] m = refl
stopping-jobs p (j ∷ js) m =
    stopping-jobs p js (stop_one p j m)
    ∙ elim (Bool-cases (p j && contains j.name m.cancel_funcs)) [
      | inl e ↦ rw e refl
      | inr e ↦ rw e refl
    ]

-- the last reading
abbrev pub last : Bool → List Bool → Bool
last was [] = was
last was (b ∷ bs) = last b bs

module _ (js : List Job) where
  -- which names run while an instance leads or does not
  abbrev pub due : Bool → String → Bool
  due leads s = named (is_for false) s js || (leads && named (is_for true) s js)

  record IsRunning (leads : Bool) (m : JobManager) : Type 0 where
    same_jobs : m.jobs ≡ js
    running : (s : String) → contains s m.cancel_funcs ≡ due leads s

  start-IsRunning : (m : JobManager) → IsRunning false m → IsRunning true (start_jobs true m)
  unfolding start_jobs
  start-IsRunning m k = record {
    same_jobs = starting-jobs true m.jobs m ∙ k.same_jobs;
    running = λ s.
        starting true s m.jobs m
        ∙ ap (λ l. contains s m.cancel_funcs || named (is_for true) s l) k.same_jobs
        ∙ started_due s (k.running s);
  }
    where
      started_due :
          (s : String)
          → contains s m.cancel_funcs ≡ due false s
          → (contains s m.cancel_funcs || named (is_for true) s js) ≡ due true s
      started_due s e = ground arith

  module _
      (disjoint : (s : String)
        → (named (is_for true) s js && named (is_for false) s js) ≡ false) where
    stop-IsRunning :
        (m : JobManager) → IsRunning true m → IsRunning false (stop_where (is_for true) m)
    unfolding stop_where
    stop-IsRunning m k = record {
      same_jobs = stopping-jobs (is_for true) m.jobs m ∙ k.same_jobs;
      running = λ s.
          stopping (is_for true) s m.jobs m
          ∙ ap (λ l. contains s m.cancel_funcs && not (named (is_for true) s l)) k.same_jobs
          ∙ stopped_due s (k.running s) (disjoint s);
    }
      where
        stopped_due :
            (s : String)
            → contains s m.cancel_funcs ≡ due true s
            → (named (is_for true) s js && named (is_for false) s js) ≡ false
            → (contains s m.cancel_funcs && not (named (is_for true) s js)) ≡ due false s
        stopped_due s e d = ground arith

    monitor-IsRunning :
        (bs : List Bool) (was : Bool) (m : JobManager)
        → IsRunning was m
        → IsRunning (last was bs) (monitor bs (m, was)).0
    unfolding monitor tick
    monitor-IsRunning [] was m k = k
    monitor-IsRunning (true ∷ bs) false m k = monitor-IsRunning bs true _ (start-IsRunning m k)
    monitor-IsRunning (false ∷ bs) true m k = monitor-IsRunning bs false _ (stop-IsRunning m k)
    monitor-IsRunning (true ∷ bs) true m k = monitor-IsRunning bs true m k
    monitor-IsRunning (false ∷ bs) false m k = monitor-IsRunning bs false m k

-- nothing runs yet
base-IsRunning :
    (m : JobManager) → m.cancel_funcs ≡ [] → IsRunning m.jobs false (start_jobs false m)
unfolding start_jobs contains
base-IsRunning m e = record {
  same_jobs = starting-jobs false m.jobs m;
  running = λ s.
      starting false s m.jobs m
      ∙ ap (λ l. contains s l || named (is_for false) s m.jobs) e
      ∙ none_due s;
}
  where
    none_due : (s : String) → (false || named (is_for false) s m.jobs) ≡ due m.jobs false s
    none_due s = ground arith

named-all :
    (s : String) (js : List Job)
    → (named (is_for false) s js || named (is_for true) s js) ≡ named (λ _. true) s js
unfolding any_where
named-all s [] = refl
named-all s (j ∷ js) = let rest = named-all s js in ground arith

all_stopped :
    (js : List Job) (leads : Bool) (m : JobManager)
    → IsRunning js leads m
    → (s : String) → contains s (stop_all_jobs m).cancel_funcs ≡ false
unfolding stop_where
all_stopped js leads m k s =
    stopping (λ _. true) s m.jobs m
    ∙ ap (λ l. contains s m.cancel_funcs && not (named (λ _. true) s l)) k.same_jobs
    ∙ none_left (k.running s) (named-all s js)
  where
    none_left :
        contains s m.cancel_funcs ≡ due js leads s
        → (named (is_for false) s js || named (is_for true) s js) ≡ named (λ _. true) s js
        → (contains s m.cancel_funcs && not (named (λ _. true) s js)) ≡ false
    none_left e h = ground arith

-- Which jobs run, by the names that have a context that is not cancelled, where no job that requires leadership shares
-- its name with one that does not, and nothing ran before Start. With an election: after any sequence of ticks, exactly
-- the jobs that do not require leadership, and the others just while the last tick found that the instance leads.
-- Without an election: all of them. After Shutdown: none.
pub monitoring_outcome :
    (m : JobManager) (readings : List Bool) (s : String)
    → m.cancel_funcs ≡ []
    → ((n : String) → (named (is_for true) n m.jobs && named (is_for false) n m.jobs) ≡ false)
    → (contains s (start_elected readings m).cancel_funcs ≡ due m.jobs (last false readings) s)
      × (contains s (start_alone m).cancel_funcs ≡ named (λ _. true) s m.jobs)
      × (contains s (stop_all_jobs (start_elected readings m)).cancel_funcs ≡ false)
unfolding start_elected start_alone stop_where
monitoring_outcome m readings s e disjoint =
    let base = base-IsRunning m e in
    let ends = monitor-IsRunning m.jobs disjoint readings false (start_jobs false m) base in
    let all = start-IsRunning m.jobs (start_jobs false m) base in
    let both = named-all s m.jobs in
    (ends.running s, all.running s ∙ both, all_stopped m.jobs _ _ ends s)
