-- ===== src/Distributed/Electing.antt =====
-- What an instance may rely on while Redis keeps the key for it.
use dashboard_site.Common.{
  ℕ, ◌+◌, ◌<◌, ◌≡◌, ◌≢◌, ◌∙◌, inl, inr, sym, String, true, false, some, List, ◌==◌, eq_iff, eq_refl,
  Bool-cases, arith,
}
use mathlib.Core.Option.{some-injective}
use dashboard_site.Distributed.{
  Stage, World, Link, Event, campaign, live, is_own, continue_campaign, pass_time, step, run,
  started,
}
use dashboard_site.Distributed.Leasing.{IsLeased, leases, later, Held-live}
use dashboard_site.Distributed.Commands.{run-IsLeased}

-- the leases of a run from the start of all instances
abbrev pub leases_of : ℕ → List Event → String → ℕ
leases_of ttl es = leases ttl es started (λ _. 0)

run-Leased : (ttl : ℕ) (es : List Event) → IsLeased ttl (run ttl es started) (leases_of ttl es)
run-Leased ttl es =
    run-IsLeased ttl es started (λ _. 0) (record { bounded = tt; held = λ i. inl (omega arith) })

-- Whatever commands the instances gave, in whatever order, and whichever of them failed: while the time runs for which
-- Redis last answered an instance that it keeps the key for it, Redis has that instance's key, and there is no other
-- instance for which such a time runs.
pub leases_exclude :
    (ttl : ℕ) (es : List Event) (i j : String)
    → (run ttl es started).clock < leases_of ttl es i
    → (run ttl es started).clock < leases_of ttl es j
    → (live (run ttl es started).clock (run ttl es started).key ≡ some i) × (j ≡ i)
leases_exclude ttl es i j hi hj =
    let w = run ttl es started in
    let l = leases_of ttl es in
    let sound = run-Leased ttl es in
    let mine = Held-live ttl w.clock w.key l i (sound.held i) hi in
    let other = Held-live ttl w.clock w.key l j (sound.held j) hj in
    (mine, some-injective _ _ (sym other ∙ mine))

module _ (ttl : ℕ) (i j : String) (apart : i ≢ j) where
  not_own : is_own j (some i) ≡ false
  not_own = elim (Bool-cases (i == j)) [ inl e ↦ absurd (apart ((eq_iff i j).0 e)) | inr e ↦ e ]

  -- a command of `j` while the key is that of `i`
  command :
      (stage : Stage) (link : Link) (w : World)
      → live w.clock w.key ≡ some i
      → ((continue_campaign ttl stage j link w).instances j).is_leader ≡ true
      → (w.instances j).is_leader ≡ true
  command Stage.resting Link.answered w k e = rw (k, eq_refl j) at e
  command Stage.resting Link.unsent w k e = rw (eq_refl j) at e
  command Stage.resting Link.unanswered w k e = rw (eq_refl j) at e
  command Stage.refused Link.answered w k e = absurd (cc (rw (k, eq_refl j, not_own) at e))
  command Stage.refused Link.unsent w k e = absurd (cc (rw (eq_refl j) at e))
  command Stage.refused Link.unanswered w k e = absurd (cc (rw (eq_refl j) at e))
  command Stage.confirmed link w k e = rw (eq_refl j) at e

-- Until that time is over, no other instance becomes the leader: whatever came before, if another instance gives its
-- next command before then, whatever becomes of the command, and takes itself for the leader afterwards, then it did so
-- before.
pub lease_protects :
    (ttl : ℕ) (es : List Event) (i j : String) (elapsed : ℕ) (link : Link)
    → i ≢ j
    → (run ttl es started).clock + elapsed < leases_of ttl es i
    → ((step ttl (campaign j elapsed link) (run ttl es started)).instances j).is_leader ≡ true
    → ((run ttl es started).instances j).is_leader ≡ true
unfolding step
lease_protects ttl es i j elapsed link apart h e =
    let w = run ttl es started in
    let after = later ttl elapsed w (leases_of ttl es) (run-Leased ttl es) in
    command ttl i j apart (w.instances j).stage link (pass_time ttl elapsed w)
      (Held-live ttl (w.clock + elapsed) w.key (leases_of ttl es) i (after.held i) h) e
