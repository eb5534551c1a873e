-- ===== src/Distributed/Commands.antt =====
-- What each command of an instance does to the leases.
use dashboard_site.Common.{
  ℕ, ◌+◌, ◌≤◌, ◌≡◌, ◌⊎◌, ◌∙◌, inl, inr, refl, sym, ap, String, Bool, true, false, ◌&&◌, Option,
  none, some, List, [], ◌∷◌, ◌==◌, arith, ltb, eq_iff, Bool-cases, if◌then◌else◌,
}
use dashboard_site.Distributed.{
  Stage, World, Link, Event, campaign, resign, put, live, is_own, is_free, is_done, is_answered,
  renew, continue_campaign, try_resign, pass_time, step, run,
}
use dashboard_site.Distributed.Leasing.{
  Leases, by_stage, by_resigning, lease, leases, Bounded, Held, IsLeased, later, Held-free,
}

module _ (ttl : ℕ) where
  put-cases :
      {A : Type 0} (who i : String) (a : A) (f : String → A)
      → ((who ≡ i) × (put who a f i ≡ a)) ⊎ (put who a f i ≡ f i)
  put-cases who i a f = elim (Bool-cases (who == i)) [
    | inl e ↦ inl ((eq_iff who i).0 e, rw e refl)
    | inr e ↦ inr (rw e refl)
  ]

  put_same : {A : Type 0} (who i : String) (a : A) (f : String → A) → who ≡ i → put who a f i ≡ a
  put_same who i a f e = rw ((eq_iff who i).1 e) refl

  own_same :
      (now : ℕ) (who i : String) (until : ℕ)
      → is_own who (live now (some (i, until))) ≡ true
      → i ≡ who
  own_same now who i until e = elim (Bool-cases (ltb now until)) [
    | inl k ↦ (eq_iff i who).0 (rw k at e)
    | inr k ↦ absurd (cc (rw k at e))
  ]

  Held-same :
      (now : ℕ) (key : Option (String × ℕ)) (l m : Leases ttl) (i : String)
      → m i ≡ l i
      → Held ttl now key l i
      → Held ttl now key m i
  Held-same now key l m i e (inl h) = inl (omega (arith, e, h))
  Held-same now key l m i e (inr (until, same, h)) = inr (until, same, omega (arith, e, h))

  abbrev Sound : ℕ → Option (String × ℕ) → Leases ttl → Type 0
  Sound now key l = Bounded ttl now key × ((i : String) → Held ttl now key l i)

  module _ (now : ℕ) (key : Option (String × ℕ)) (l : Leases ttl) (who : String)
      (sound : Sound now key l) where
    abbrev mine : Option (String × ℕ)
    mine = some (who, now + ttl)

    -- the key is taken where it is free
    taken :
        (b : Bool)
        → is_free (live now key) ≡ true
        → Sound now mine (if b then put who (now + ttl) l else l)
    taken false e = (omega arith, λ i. inl (Held-free ttl now key l i e (sound.1 i)))
    taken true e = (
      omega arith,
      λ i. elim (put-cases who i (now + ttl) l) [
        | inl p ↦ inr (now + ttl, ap (λ j. some (j, now + ttl)) p.0, omega (arith, p.1))
        | inr p ↦ inl (omega (arith, p, Held-free ttl now key l i e (sound.1 i)))
      ],
    )

    set_nx-Sound :
        (free answer done : Bool)
        → (answer ≡ true → done ≡ true)
        → is_free (live now key) ≡ free
        → Sound now
            (if free && done then mine else key)
            (if free && answer then put who (now + ttl) l else l)
    set_nx-Sound true true true k e = taken true e
    set_nx-Sound true false true k e = taken false e
    set_nx-Sound true false false k e = sound
    set_nx-Sound true true false k e = absurd (cc (k refl))
    set_nx-Sound false answer done k e = sound

    given_up :
        (b : Bool)
        → (b ≡ true → is_own who (live now key) ≡ true)
        → Sound now (if b then none else key) (put who 0 l)
    given_up false k = (
      sound.0,
      λ i. elim (put-cases who i 0 l) [
        | inl p ↦ inl (omega (arith, p.1))
        | inr p ↦ Held-same now key l (put who 0 l) i p (sound.1 i)
      ],
    )
    given_up true k = (
      tt,
      λ i. inl (elim (put-cases who i 0 l) [
        | inl p ↦ omega (arith, p.1)
        | inr p ↦ elim (sound.1 i) [
          | inl h ↦ omega (arith, p, h)
          | inr h ↦
              let same : i ≡ who =
                own_same now who i h.0 (sym (ap (λ c. is_own who (live now c)) h.1) ∙ k refl) in
              let none_left = put_same who i 0 l (sym same) in omega (arith, none_left)
        ]
      ]),
    )

  module _ (now : ℕ) (l : Leases ttl) (who : String) where
    prolonged :
        (holder : String) (until : ℕ) (i : String)
        → until ≤ now + ttl
        → Held ttl now (some (holder, until)) l i
        → Held ttl now (some (holder, now + ttl)) l i
    prolonged holder until i b (inl h) = inl h
    prolonged holder until i b (inr (last, same, h)) =
        let same_holder : holder ≡ i = cc in
        let same_time : until ≡ last = cc in
        inr (now + ttl, ap (λ j. some (j, now + ttl)) same_holder, omega (arith, b, h, same_time))

    renewed_some :
        (holder : String) (until : ℕ) (b granted : Bool)
        → Sound now (some (holder, until)) l
        → (granted ≡ true → (b ≡ true) × (holder ≡ who))
        → Sound now
            (if b then some (holder, now + ttl) else some (holder, until))
            (if granted then put who (now + ttl) l else l)
    renewed_some holder until false false h k = h
    renewed_some holder until false true h k = absurd (cc (k refl).0)
    renewed_some holder until true false h k =
        (omega arith, λ i. prolonged holder until i h.0 (h.1 i))
    renewed_some holder until true true h k = (
      omega arith,
      λ i. elim (put-cases who i (now + ttl) l) [
        | inl p ↦
            inr (now + ttl, ap (λ j. some (j, now + ttl)) ((k refl).1 ∙ p.0), omega (arith, p.1))
        | inr p ↦
            Held-same now _ l (put who (now + ttl) l) i p (prolonged holder until i h.0 (h.1 i))
      ],
    )

    live_now :
        (holder : String) (until : ℕ) (done : Bool)
        → is_own who (live now (some (holder, until))) ≡ true
        → done ≡ true
        → (ltb now until && done) ≡ true
    live_now holder until done e d = elim (Bool-cases (ltb now until)) [
      | inl k ↦ rw (k, d) refl
      | inr k ↦ absurd (cc (rw k at e))
    ]

    -- the key is prolonged where it is live, whoever has it
    renewed :
        (key : Option (String × ℕ)) (done granted : Bool)
        → Sound now key l
        → (granted ≡ true → (done ≡ true) × (is_own who (live now key) ≡ true))
        → Sound now (renew ttl done key now) (if granted then put who (now + ttl) l else l)
    renewed none done false h k = h
    renewed none done true h k = absurd (cc (k refl).1)
    renewed (some (holder, until)) done granted h k =
        renewed_some holder until (ltb now until && done) granted h (λ e.
          let own = k e in
          (live_now holder until done own.1 own.0, own_same now who holder until own.1))

  answered-done : (link : Link) → is_answered link ≡ true → is_done link ≡ true
  answered-done Link.answered e = refl
  answered-done Link.unsent e = absurd (cc)
  answered-done Link.unanswered e = refl

  both-true : (b c : Bool) → (b && c) ≡ true → (b ≡ true) × (c ≡ true)
  both-true true true e = (refl, refl)
  both-true true false e = absurd (cc)
  both-true false c e = absurd (cc)

  sound : (w : World) (l : Leases ttl) → IsLeased ttl w l → Sound w.clock w.key l
  sound w l h = (h.bounded, h.held)

  leased : (w : World) (l : Leases ttl) → Sound w.clock w.key l → IsLeased ttl w l
  leased w l h = record { bounded = h.0; held = h.1 }

  campaign-IsLeased :
      (stage : Stage) (who : String) (link : Link) (w : World) (l : Leases ttl)
      → IsLeased ttl w l
      → IsLeased ttl (continue_campaign ttl stage who link w) (by_stage ttl stage who link w l)
  campaign-IsLeased Stage.resting who link w l h = leased _ _ (
      set_nx-Sound w.clock w.key l who (sound w l h) (is_free (live w.clock w.key))
        (is_answered link) (is_done link) (answered-done link) refl)
  campaign-IsLeased Stage.refused who link w l h = leased _ _ (sound w l h)
  campaign-IsLeased Stage.confirmed who link w l h = leased _ _ (
      renewed w.clock l who w.key (is_done link)
        (is_own who (live w.clock w.key) && is_answered link) (sound w l h)
        (λ e. let two = both-true _ _ e in (answered-done link two.1, two.0)))

  resign-IsLeased :
      (stage : Stage) (leader : Bool) (who : String) (link : Link) (w : World) (l : Leases ttl)
      → (w.instances who).is_leader ≡ leader
      → IsLeased ttl w l
      → IsLeased ttl (try_resign ttl stage who link w) (by_resigning ttl stage leader who l)
  resign-IsLeased Stage.resting true who link w l e h = rw e (
      leased _ _ (
        given_up w.clock w.key l who (sound w l h) (is_own who (live w.clock w.key) && is_done link)
          (λ k. (both-true _ _ k).0)))
  resign-IsLeased Stage.resting false who link w l e h = rw e h
  resign-IsLeased Stage.refused leader who link w l e h = h
  resign-IsLeased Stage.confirmed leader who link w l e h = h

  step-IsLeased :
      (e : Event) (w : World) (l : Leases ttl)
      → IsLeased ttl w l
      → IsLeased ttl (step ttl e w) (lease ttl e w l)
  unfolding step lease
  step-IsLeased (campaign who elapsed link) w l h =
      campaign-IsLeased (w.instances who).stage who link (pass_time ttl elapsed w) l
        (later ttl elapsed w l h)
  step-IsLeased (resign who elapsed link) w l h =
      resign-IsLeased (w.instances who).stage (w.instances who).is_leader who link
        (pass_time ttl elapsed w) l refl (later ttl elapsed w l h)

  pub run-IsLeased :
      (es : List Event) (w : World) (l : Leases ttl)
      → IsLeased ttl w l
      → IsLeased ttl (run ttl es w) (leases ttl es w l)
  unfolding run leases
  run-IsLeased [] w l h = h
  run-IsLeased (e ∷ es) w l h = run-IsLeased es _ _ (step-IsLeased e w l h)
