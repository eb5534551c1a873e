-- ===== src/Data/MemCache/Expiry.antt =====
-- What is read after a SetKey.
use dashboard_site.Common.{
  ℕ, ◌+◌, ◌≡◌, refl, ap, ◌∙◌, String, Bool, true, false, ◌&&◌, ◌||◌, ◌==◌, eq_iff, eq_refl, Option,
  none, some, List, [], ◌∷◌, arith, ltb, leb, if◌then◌else◌, any_where, Bool-cases, Option-cases,
  inl, inr,
}
use dashboard_site.Common.Keyed.{lookup, insert, lookup-insert, lookup-erase}
use dashboard_site.Data.MemCache.{
  KvEntry, KeyError, value, error, text, MemCache, Timers, read_entry, expiry, timers_for, get_key,
  set_key, get_del_key, fire, tick,
}

-- a timer that is due and deletes the key
abbrev pub is_due : ℕ → String → ℕ × String → Bool
is_due now key t = leb t.0 now && t.1 == key

lookup-fire :
    (now : ℕ) (key : String) (ts : Timers) (kv : List (String × KvEntry))
    → lookup key (fire now ts kv) ≡ (if any_where (is_due now key) ts then none else lookup key kv)
unfolding fire any_where
lookup-fire now key [] kv = refl
lookup-fire now key ((at, k) ∷ ts) kv = elim (Bool-cases (leb at now)) [
  | inl due ↦ ground (arith, lookup-erase k key (fire now ts kv), lookup-fire now key ts kv)
  | inr early ↦ ground (arith, lookup-fire now key ts kv)
]

-- whether a time to live that began at `now` has run out
abbrev pub has_run_out : ℕ → ℕ → ℕ → Bool
has_run_out now ttl later = ltb 0 ttl && leb (now + ttl) later

module _ {D : Type 0} (now later : ℕ) (key s : String) (ttl : ℕ) (m : MemCache D) where
  abbrev written : KvEntry
  written = record { value = s; expires_at = expiry now ttl }

  due_after :
      any_where (is_due later key) (timers_for now ttl key m.timers)
      ≡ (has_run_out now ttl later || any_where (is_due later key) m.timers)
  unfolding any_where
  due_after = elim (Bool-cases (ltb 0 ttl)) [
    | inl e ↦
        rw (e, eq_refl key) (by_and (leb (now + ttl) later) (any_where (is_due later key) m.timers))
    | inr e ↦ rw e refl
  ]
    where
      by_and : (a b : Bool) → (a && true) || b ≡ a || b
      by_and a b = ground arith

  in_time : has_run_out now ttl later ≡ false → read_entry later (some written) ≡ value s
  in_time h = ground arith

-- What GetKey reads of a key after SetKey has stored a text: the text, until its time to live has run
-- out, if it has one; but nothing from the moment on at which a timer of an earlier SetKey of the same
-- key is due, even where the later time to live has not run out.
pub get_key-set_key :
    {D : Type 0} (now later : ℕ) (key s : String) (ttl : ℕ) (m : MemCache D)
    → get_key later key (tick later (set_key now key (text s) ttl m).1) ≡ (
        if has_run_out now ttl later || any_where (is_due later key) m.timers
        then error KeyError.not_found
        else value s)
unfolding get_key tick set_key
get_key-set_key now later key s ttl m =
    ap (read_entry later) (
      lookup-fire later key (timers_for now ttl key m.timers)
        (insert key (record { value = s; expires_at = expiry now ttl }) m.kv_store))
    ∙ rw (due_after now later key s ttl m, lookup-insert, eq_refl key)
        (by_case (has_run_out now ttl later) (any_where (is_due later key) m.timers)
          (in_time now later key s ttl m))
  where
    by_case :
        (out due : Bool)
        → (out ≡ false
            → read_entry later (some (record { value = s; expires_at = expiry now ttl })) ≡ value s)
        → read_entry later
            (if out || due then none else some (record { value = s; expires_at = expiry now ttl }))
          ≡ (if out || due then error KeyError.not_found else value s)
    by_case true due h = refl
    by_case false true h = refl
    by_case false false h = h refl

-- GetDelKey hands a value out once: afterwards the key is not found at any time, and every other key
-- reads as before.
pub get_del_key_once :
    {D : Type 0} (now later : ℕ) (key other_key : String) (m : MemCache D)
    → get_key later other_key (get_del_key now key m).1
      ≡ (if key == other_key then error KeyError.not_found else get_key later other_key m)
unfolding get_del_key get_key lookup
get_del_key_once now later key other_key m = elim (Option-cases (lookup key m.kv_store)) [
  | inl missing ↦ elim (Bool-cases (key == other_key)) [
    | inl same ↦
        let equal : key ≡ other_key = (eq_iff key other_key).0 same in
        rw (missing, same, ← equal, missing) refl
    | inr apart ↦ rw (missing, apart) refl
  ]
  | inr found ↦
      rw (found.1, lookup-erase) (by_case (key == other_key) (lookup other_key m.kv_store))
]
  where
    by_case :
        (same : Bool) (o : Option KvEntry)
        → read_entry later (if same then none else o)
          ≡ (if same then error KeyError.not_found else read_entry later o)
    by_case true o = refl
    by_case false o = refl
