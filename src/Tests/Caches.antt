-- ===== src/Tests/Caches.antt =====
-- The theorems on the memory cache at two keys.
use dashboard_site.Common.{◌≡◌, String, ◌||◌, ◌==◌, [], ◌∷◌, some, none, if◌then◌else◌, any_where}
use dashboard_site.Data.MemCache.{
  MemCache, KeyError, value, error, text, get_key, set_key, get_del_key, tick,
}
use dashboard_site.Data.MemCache.Expiry.{has_run_out, is_due, get_key-set_key, get_del_key_once}

-- `nonce` was stored at 0 for 10, and `state` for good
abbrev cache : MemCache String
cache = record {
  cache = [];
  kv_store =
      ("nonce", record { value = "n"; expires_at = some 10 })
      ∷ ("state", record { value = "s"; expires_at = none })
      ∷ [];
  timers = (10, "nonce") ∷ [];
}

get_key-set_key_example :
    get_key 12 "nonce" (tick 12 (set_key 5 "nonce" (text "m") 100 cache).1) ≡ (
      if has_run_out 5 100 12 || any_where (is_due 12 "nonce") cache.timers
      then error KeyError.not_found
      else value "m")
get_key-set_key_example = get_key-set_key 5 12 "nonce" "m" 100 cache

get_del_key_once_example :
    get_key 9 "nonce" (get_del_key 8 "nonce" cache).1
    ≡ (if "nonce" == "nonce" then error KeyError.not_found else get_key 9 "nonce" cache)
get_del_key_once_example = get_del_key_once 8 9 "nonce" "nonce" cache
