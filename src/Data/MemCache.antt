-- ===== src/Data/MemCache.antt =====
-- internal/data/mem_cache_provider.go. A timer of time.AfterFunc is a pair of the time at which it
-- fires and the key that it deletes; `tick` runs those that are due. A mutex makes each operation one
-- step.
pub mod Expiry
use dashboard_site.Common.{
  ℕ, ◌+◌, String, Bool, true, false, not, ◌&&◌, ◌==◌, Option, none, some, List, [], ◌∷◌, map, ltb,
  leb, length, if◌then◌else◌, select_where,
}
use dashboard_site.Common.Keyed.{lookup, insert, erase}

-- `none` is the zero time
pub record KvEntry : Type 0 where
  pub value : String
  pub expires_at : Option ℕ

pub data KeyError : Type 0 where
  not_found expired bad_value : KeyError

pub data Found : Type 0 where
  value : String → Found
  error : KeyError → Found

-- what SetKey's switch tells apart
pub data Value : Type 0 where
  text bytes : String → Value
  other : Value

abbrev pub Timers : Type 0
Timers = List (ℕ × String)

-- `D` is the type CachedData
pub record MemCache (D : Type 0) : Type 0 where
  pub cache : List (String × D)
  pub kv_store : List (String × KvEntry)
  pub timers : Timers

module _ {D : Type 0} where
  -- Get
  unfoldable pub get_query : String → MemCache D → Option D
  get_query name m = lookup name m.cache

  unfoldable pub list_all : MemCache D → List String
  list_all m = map (λ q. q.0) m.cache

  -- Set
  unfoldable pub set_query : String → D → MemCache D → MemCache D
  set_query name d m = record m { cache = insert name d m.cache }

  -- Delete
  unfoldable pub delete_query : String → MemCache D → MemCache D
  delete_query name m = record m { cache = erase name m.cache }

  unfoldable pub size : MemCache D → ℕ
  size m = length m.cache

-- the zero time is never past
abbrev pub is_over : ℕ → Option ℕ → Bool
is_over now none = false
is_over now (some at) = ltb at now

abbrev pub read_entry : ℕ → Option KvEntry → Found
read_entry now none = error KeyError.not_found
read_entry now (some e) = if is_over now e.expires_at then error KeyError.expired else value e.value

abbrev as_text : Value → Option String
as_text (text s) = some s
as_text (bytes s) = some s
as_text other = none

-- a `ttl` that is not above 0 is 0 here
abbrev pub expiry : ℕ → ℕ → Option ℕ
expiry now ttl = if ltb 0 ttl then some (now + ttl) else none

abbrev pub timers_for : ℕ → ℕ → String → Timers → Timers
timers_for now ttl key ts = if ltb 0 ttl then (now + ttl, key) ∷ ts else ts

module _ {D : Type 0} where
  unfoldable pub get_key : ℕ → String → MemCache D → Found
  get_key now key m = read_entry now (lookup key m.kv_store)

  store : ℕ → String → Option String → ℕ → MemCache D → Option KeyError × MemCache D
  store now key none ttl m = (some KeyError.bad_value, m)
  store now key (some s) ttl m = (
    none,
    record m {
      kv_store = insert key (record { value = s; expires_at = expiry now ttl }) m.kv_store;
      timers = timers_for now ttl key m.timers;
    },
  )

  unfoldable pub set_key : ℕ → String → Value → ℕ → MemCache D → Option KeyError × MemCache D
  unfolding store
  set_key now key v ttl m = store now key (as_text v) ttl m

  forget : String → Option KvEntry → MemCache D → MemCache D
  forget key none m = m
  forget key (some e) m = record m { kv_store = erase key m.kv_store }

  unfoldable pub get_del_key : ℕ → String → MemCache D → Found × MemCache D
  unfolding forget
  get_del_key now key m = (get_key now key m, forget key (lookup key m.kv_store) m)

-- the timers that are due delete their keys
unfoldable pub fire : ℕ → Timers → List (String × KvEntry) → List (String × KvEntry)
fire now [] kv = kv
fire now ((at, key) ∷ ts) kv =
    let rest = fire now ts kv in if leb at now then erase key rest else rest

unfoldable pub tick : {D : Type 0} → ℕ → MemCache D → MemCache D
tick now m = record m {
  kv_store = fire now m.timers m.kv_store;
  timers = select_where (λ t. not (leb t.0 now)) m.timers;
}
