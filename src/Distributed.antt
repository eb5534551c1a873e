-- ===== src/Distributed.antt =====
-- internal/distributed/election.go: the instances that stand for election, and the key that they share in Redis. Each
-- event is one command of one instance, so that the commands of several instances come in any order; a command may fail
-- before Redis carries it out, or after.
pub mod Leasing
pub mod Commands
pub mod Electing
use dashboard_site.Common.{
  ℕ, ◌+◌, String, Bool, true, false, ◌&&◌, Option, none, some, List, [], ◌∷◌, ◌==◌, ltb,
  if◌then◌else◌,
}

-- where an instance is in `campaign`: not in it, refused by SETNX, confirmed by GET
pub data Stage : Type 0 where
  resting refused confirmed : Stage

pub record Instance : Type 0 where
  pub is_leader : Bool
  pub stage : Stage

-- Redis with the one key, its value and when it expires; `ttl` is the TTL that all instances have
pub record World : Type 0 where
  pub key : Option (String × ℕ)
  pub clock : ℕ
  pub instances : String → Instance

pub data Link : Type 0 where
  answered unsent unanswered : Link

pub data Event : Type 0 where
  campaign resign : String → ℕ → Link → Event

abbrev pub put {ℓ} : {A : Type ℓ} → String → A → (String → A) → String → A
put i a f j = if i == j then a else f j

-- the value of the key, unless it has expired
abbrev pub live : ℕ → Option (String × ℕ) → Option String
live now none = none
live now (some (holder, until)) = if ltb now until then some holder else none

abbrev pub is_own : String → Option String → Bool
is_own who none = false
is_own who (some holder) = holder == who

abbrev pub is_free : Option String → Bool
is_free none = true
is_free (some _) = false

abbrev pub is_done : Link → Bool
is_done Link.unsent = false
is_done _ = true

abbrev pub is_answered : Link → Bool
is_answered Link.answered = true
is_answered _ = false

module _ (ttl : ℕ) where
  -- SETNX, where an error ends the campaign and leaves the flag
  abbrev pub set_nx : String → Link → World → World
  set_nx who link w =
      let me = w.instances who in
      let free = is_free (live w.clock w.key) in
      record w {
        key = if free && is_done link then some (who, w.clock + ttl) else w.key;
        instances =
            put who
              (if is_answered link
                then (if free
                    then record { is_leader = true; stage = Stage.resting }
                    else record me { stage = Stage.refused })
                else me)
              w.instances;
      }

  -- GET, where an error counts as someone else's key
  abbrev pub get : String → Link → World → World
  get who link w =
      let own = is_answered link && is_own who (live w.clock w.key) in
      record w {
        instances =
            put who
              (record { is_leader = own; stage = if own then Stage.confirmed else Stage.resting })
              w.instances;
      }

  -- EXPIRE, whose error nobody looks at
  abbrev pub renew : Bool → Option (String × ℕ) → ℕ → Option (String × ℕ)
  renew done none now = none
  renew done (some (holder, until)) now =
      if ltb now until && done then some (holder, now + ttl) else some (holder, until)

  abbrev pub expire : String → Link → World → World
  expire who link w = record w {
    key = renew (is_done link) w.key w.clock;
    instances = put who (record (w.instances who) { stage = Stage.resting }) w.instances;
  }

  abbrev pub continue_campaign : Stage → String → Link → World → World
  continue_campaign Stage.resting = set_nx
  continue_campaign Stage.refused = get
  continue_campaign Stage.confirmed = expire

  -- the script deletes the key of the instance itself
  abbrev pub give_up : Bool → String → Link → World → World
  give_up false who link w = w
  give_up true who link w = record w {
    key = if is_own who (live w.clock w.key) && is_done link then none else w.key;
    instances = put who (record (w.instances who) { is_leader = false }) w.instances;
  }

  -- `Start` resigns between two campaigns
  abbrev pub try_resign : Stage → String → Link → World → World
  try_resign Stage.resting who link w = give_up (w.instances who).is_leader who link w
  try_resign _ who link w = w

  abbrev pub pass_time : ℕ → World → World
  pass_time elapsed w = record w { clock = w.clock + elapsed }

  unfoldable pub step : Event → World → World
  step (campaign who elapsed link) w =
      continue_campaign (w.instances who).stage who link (pass_time elapsed w)
  step (resign who elapsed link) w =
      try_resign (w.instances who).stage who link (pass_time elapsed w)

  unfoldable pub run : List Event → World → World
  unfolding step
  run [] w = w
  run (e ∷ es) w = run es (step e w)

-- at the start of all instances
abbrev pub started : World
started = record {
  key = none;
  clock = 0;
  instances = λ _. record { is_leader = false; stage = Stage.resting };
}
