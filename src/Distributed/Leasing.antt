-- ===== src/Distributed/Leasing.antt =====
-- Who may take itself for the leader, by the time that Redis keeps the key for it.
use dashboard_site.Common.{
  ℕ, ◌+◌, ◌≤◌, ◌<◌, ◌≡◌, ◌⊎◌, ◌∙◌, inl, inr, sym, ap, String, Bool, true, ◌&&◌, Option, none, some,
  List, [], ◌∷◌, arith, if◌then◌else◌,
}
use dashboard_site.Distributed.{
  Stage, World, Link, Event, campaign, resign, put, live, is_own, is_free, is_answered, pass_time,
  step,
}

module _ (ttl : ℕ) where
  -- until when Redis keeps the key for each instance, by the answers that it got
  abbrev pub Leases : Type 0
  Leases = String → ℕ

  abbrev grant : Bool → String → World → Leases → Leases
  grant b who w l = if b then put who (w.clock + ttl) l else l

  abbrev pub by_stage : Stage → String → Link → World → Leases → Leases
  by_stage Stage.resting who link w = grant (is_free (live w.clock w.key) && is_answered link) who w
  by_stage Stage.refused who link w = λ l. l
  by_stage Stage.confirmed who link w =
      grant (is_own who (live w.clock w.key) && is_answered link) who w

  -- who resigns gives its lease up
  abbrev pub by_resigning : Stage → Bool → String → Leases → Leases
  by_resigning Stage.resting true who l = put who 0 l
  by_resigning _ _ who l = l

  unfoldable pub lease : Event → World → Leases → Leases
  lease (campaign who elapsed link) w l =
      by_stage (w.instances who).stage who link (pass_time ttl elapsed w) l
  lease (resign who elapsed link) w l =
      by_resigning (w.instances who).stage (w.instances who).is_leader who l

  unfoldable pub leases : List Event → World → Leases → Leases
  unfolding lease
  leases [] w l = l
  leases (e ∷ es) w l = leases es (step ttl e w) (lease e w l)

  abbrev pub Bounded : ℕ → Option (String × ℕ) → Type 0
  Bounded now none = Unit
  Bounded now (some (holder, until)) = until ≤ now + ttl

  -- a lease that runs is a key in Redis that lasts as long
  abbrev pub Held : ℕ → Option (String × ℕ) → Leases → String → Type 0
  Held now key l i = (l i ≤ now) ⊎ ((until : ℕ) × (key ≡ some (i, until)) × (l i ≤ until))

  pub record IsLeased (w : World) (l : Leases) : Type 0 where
    pub bounded : Bounded w.clock w.key
    pub held : (i : String) → Held w.clock w.key l i

  Bounded-later : (now d : ℕ) (key : Option (String × ℕ)) → Bounded now key → Bounded (now + d) key
  Bounded-later now d none h = tt
  Bounded-later now d (some (holder, until)) h = omega (arith, h)

  Held-later :
      (now d : ℕ) (key : Option (String × ℕ)) (l : Leases) (i : String)
      → Held now key l i
      → Held (now + d) key l i
  Held-later now d key l i (inl h) = inl (omega (arith, h))
  Held-later now d key l i (inr h) = inr h

  pub later : (d : ℕ) (w : World) (l : Leases) → IsLeased w l → IsLeased (pass_time ttl d w) l
  later d w l h = record {
    bounded = Bounded-later w.clock d w.key h.bounded;
    held = λ i. Held-later w.clock d w.key l i (h.held i);
  }

  -- a key that is not live holds no lease
  pub Held-free :
      (now : ℕ) (key : Option (String × ℕ)) (l : Leases) (i : String)
      → is_free (live now key) ≡ true
      → Held now key l i
      → l i ≤ now
  Held-free now key l i e (inl h) = h
  Held-free now key l i e (inr (until, same, h)) =
      lapsed until h (sym (ap (λ k. is_free (live now k)) same) ∙ e)
    where
      lapsed : (until : ℕ) → l i ≤ until → is_free (live now (some (i, until))) ≡ true → l i ≤ now
      lapsed until h e = ground arith

  -- a lease that runs is seen in Redis
  pub Held-live :
      (now : ℕ) (key : Option (String × ℕ)) (l : Leases) (i : String)
      → Held now key l i
      → now < l i
      → live now key ≡ some i
  Held-live now key l i (inl h) k = absurd (omega (arith, h, k))
  Held-live now key l i (inr (until, same, h)) k = ap (live now) same ∙ running until h
    where
      running : (until : ℕ) → l i ≤ until → live now (some (i, until)) ≡ some i
      running until h = ground arith
