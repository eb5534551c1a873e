-- ===== src/Storage/Whitelist/Blacklist.antt =====
-- A blacklisted address: its entries stay blacklisted, and none is active for the alias.
pub mod Entering
pub mod Calls
pub mod Address
pub mod Barring
use dashboard_site.Common.{
  ℕ, ◌≡◌, ◌≢◌, refl, sym, ap, String, Bool, true, false, not, ◌&&◌, ◌||◌, Option, none, some, List,
  [], ◌∷◌, ◌++◌, map, arith, eqb, eq_iff, ◌==◌, All, AllPairs, All-always, any_where,
  any_where-append, find_where, select_where, update_where, any_where-update_mono,
  any_where-update_keep, any_where-update_grow, update_where-congr, key_in-selected, Bool-cases,
  inl, inr, count_where,
}
use dashboard_site.Models.Whitelist.{
  WhitelistEntry, WhitelistStatus, is_active, is_requested, is_blacklisted,
}
use dashboard_site.Storage.Whitelist.Schema.{has_id, at_address}
use dashboard_site.Storage.Whitelist.Read.{blacklisted_at}
use dashboard_site.Storage.Whitelist.Write.{
  ids, has_id_in, set_removed, set_added, set_blacklisted, blacklistable, is_expired, NewEntry,
  requested_entry,
}

abbrev pub active_address : String → String → WhitelistEntry → Bool
active_address uuid ip e = at_address uuid ip e && is_active e.status

-- For no alias is an address both blacklisted and active.
abbrev pub IsClean : List WhitelistEntry → Type 0
IsClean es =
    (uuid ip : String)
    → any_where (blacklisted_at uuid ip) es ≡ true
    → any_where (active_address uuid ip) es ≡ false

-- some entry of the address is blacklisted for the alias, and none is requested or added
pub record IsBarred (uuid ip : String) (es : List WhitelistEntry) : Type 0 where
  pub listed : any_where (blacklisted_at uuid ip) es ≡ true
  pub idle : any_where (active_address uuid ip) es ≡ false

-- What a change of the entries keeps: what was blacklisted stays so, and a clean list stays clean.
pub record IsLawful (es fs : List WhitelistEntry) : Type 0 where
  pub stays :
      (uuid ip : String)
      → any_where (blacklisted_at uuid ip) es ≡ true
      → any_where (blacklisted_at uuid ip) fs ≡ true
  pub clean : IsClean es → IsClean fs

pub IsLawful-refl : (es : List WhitelistEntry) → IsLawful es es
IsLawful-refl es = record { stays = λ u i h. h; clean = λ c. c }

pub IsLawful-trans :
    (es fs gs : List WhitelistEntry) → IsLawful es fs → IsLawful fs gs → IsLawful es gs
IsLawful-trans es fs gs h k = record {
  stays = λ u i b. k.stays u i (h.stays u i b);
  clean = λ c. k.clean (h.clean c);
}

pub contra : (a b : Bool) → (a ≡ true → b ≡ true) → b ≡ false → a ≡ false
contra a b k h = ground arith

-- An update that blacklists nothing, activates nothing and leaves blacklisted rows alone.
pub update-IsLawful :
    (p : WhitelistEntry → Bool) (f : WhitelistEntry → WhitelistEntry) (es : List WhitelistEntry)
    → All (λ e. is_blacklisted e.status ≡ true → p e ≡ false) es
    → ((e : WhitelistEntry) (uuid ip : String)
        → blacklisted_at uuid ip (f e) ≡ true
        → blacklisted_at uuid ip e ≡ true)
    → ((e : WhitelistEntry) (uuid ip : String)
        → p e ≡ true
        → active_address uuid ip (f e) ≡ true
        → active_address uuid ip e ≡ true)
    → IsLawful es (update_where p f es)
update-IsLawful p f es alone no_new no_active = record {
  stays =
      λ uuid ip. any_where-update_keep (blacklisted_at uuid ip) p f es (weaken uuid ip es alone);
  clean = λ c uuid ip h.
      contra _ _ (any_where-update_mono (active_address uuid ip) p f (λ e. no_active e uuid ip) es)
        (c uuid ip
          (any_where-update_mono (blacklisted_at uuid ip) p f (λ e _. no_new e uuid ip) es h));
}
  where
    weaken :
        (uuid ip : String) (xs : List WhitelistEntry)
        → All (λ e. is_blacklisted e.status ≡ true → p e ≡ false) xs
        → All (λ e. blacklisted_at uuid ip e ≡ true → p e ≡ false) xs
    weaken uuid ip [] h = tt
    weaken uuid ip (x ∷ xs) h = ((λ b. ground (arith, h.0)), weaken uuid ip xs h.1)

pub expire-IsLawful :
    (now : ℕ) (es : List WhitelistEntry)
    → IsLawful es (update_where (is_expired now) (set_removed now) es)
expire-IsLawful now es =
    update-IsLawful (is_expired now) (set_removed now) es (All-always _ (λ e h. ground arith) es)
      (λ e u i h. ground arith) (λ e u i p h. ground arith)

pub mark-IsLawful :
    (now : ℕ) (ns : List ℕ) (es : List WhitelistEntry)
    → IsLawful es (update_where (λ e. has_id_in ns e && is_requested e.status) (set_added now) es)
mark-IsLawful now ns es =
    update-IsLawful _ (set_added now) es (All-always _ (λ e h. ground arith) es)
      (λ e u i h. ground arith) (λ e u i p h. ground arith)

-- Where a row of that id that is not blacklisted is found, no row of that id is blacklisted.
found_alone :
    (n : ℕ) (es : List WhitelistEntry) (e : WhitelistEntry)
    → AllPairs (λ m k. m ≢ k) (ids es)
    → find_where (has_id n) es ≡ some e
    → is_blacklisted e.status ≡ false
    → All (λ d. is_blacklisted d.status ≡ true → has_id n d ≡ false) es
unfolding find_where
found_alone n [] e distinct found h = tt
found_alone n (x ∷ xs) e distinct found h = elim (Bool-cases (has_id n x)) [
  | inl here ↦ ((λ b. ground arith), others n x xs (ground arith) distinct.0)
  | inr there ↦ ((λ b. there), found_alone n xs e distinct.1 (rw there at found) h)
]
  where
    others :
        (m : ℕ) (y : WhitelistEntry) (ys : List WhitelistEntry)
        → y.id ≡ m
        → All (λ k. y.id ≢ k) (ids ys)
        → All (λ d. is_blacklisted d.status ≡ true → has_id m d ≡ false) ys
    others m y [] same k = tt
    others m y (z ∷ zs) same k = ((λ b. ground (arith, k.0)), others m y zs same k.1)

pub remove-IsLawful :
    (now n : ℕ) (es : List WhitelistEntry) (e : WhitelistEntry)
    → AllPairs (λ m k. m ≢ k) (ids es)
    → find_where (has_id n) es ≡ some e
    → is_blacklisted e.status ≡ false
    → IsLawful es (update_where (has_id n) (set_removed now) es)
remove-IsLawful now n es e distinct found h =
    update-IsLawful (has_id n) (set_removed now) es (found_alone n es e distinct found h)
      (λ e u i k. ground arith) (λ e u i p k. ground arith)
