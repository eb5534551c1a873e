-- ===== src/Storage/Whitelist/Advancing.antt =====
-- An operation advances the whitelist: its tables stay sound, and what is blacklisted stays so.
use dashboard_site.Common.{ℕ, String, ◌≡◌, refl, sym, subst, Option, List}
use dashboard_site.Models.Address.{InetArg}
use dashboard_site.Models.Whitelist.{EventType}
use dashboard_site.Storage.Sql.{Result, Session, Sql, query}
use dashboard_site.Storage.Sql.Keeps.{Keeps, Keeps-query}
use dashboard_site.Storage.Sql.Ensures.{Ensures}
use dashboard_site.Storage.Whitelist.Schema.{Tables}
use dashboard_site.Storage.Whitelist.Write.{
  create_whitelist_event, mark_ips_as_added, expire_old_ips,
}
use dashboard_site.Storage.Whitelist.Soundness.{IsSound}
use dashboard_site.Storage.Whitelist.Operations.{
  create_whitelist_event-IsSound, mark_ips_as_added-IsSound, expire_old_ips-IsSound,
}
use dashboard_site.Storage.Whitelist.Blacklist.{IsLawful, IsLawful-refl, IsLawful-trans}
use dashboard_site.Storage.Whitelist.Blacklist.Calls.{
  mark_ensures, expire_ensures, create_event_ensures,
}

-- from `old`, an operation has led to `t`
pub record Advanced (low : ℕ) (old t : Tables) : Type 0 where
  pub sound : IsSound low t
  pub lawful : IsLawful old.entries t.entries

module _ (low : ℕ) where
  pub Advanced-refl : (t : Tables) → IsSound low t → Advanced low t t
  Advanced-refl t h = record { sound = h; lawful = IsLawful-refl t.entries }

  pub Advanced-trans : (t u v : Tables) → Advanced low t u → Advanced low u v → Advanced low t v
  Advanced-trans t u v h k = record {
    sound = k.sound;
    lawful = IsLawful-trans t.entries u.entries v.entries h.lawful k.lawful;
  }

abbrev pub At : Tables → ℕ → Tables → ℕ → Type 0
At old now t c = (t ≡ old) × (c ≡ now)

abbrev pub Ends : ℕ → Tables → {A : Type 0} → A → Tables → ℕ → Type 0
Ends low old r t c = Advanced low old t

module _ (low : ℕ) (old : Tables) (sound : IsSound low old) (now : ℕ) where
  pub Advanced-still : (t : Tables) (c : ℕ) → At old now t c → Advanced low old t
  Advanced-still t c h = subst (Advanced low old) (sym h.0) (Advanced-refl low old sound)

  -- an operation that keeps the tables sound, and is lawful
  pub advance :
      {A : Type 0} (m : Sql Tables A)
      → Keeps (IsSound low) m
      → Ensures (At old now) m (λ r t c. IsLawful old.entries t.entries)
      → Ensures (At old now) m (Ends low old)
  advance m keeps lawful = record {
    at = λ s h. record {
      sound = keeps.at s (subst (IsSound low) (sym h.0) sound);
      lawful = lawful.at s h;
    };
  }

  pub expire_advances :
      (iss sub : String) → Ensures (At old now) (expire_old_ips iss sub) (Ends low old)
  expire_advances iss sub =
      advance _ (expire_old_ips-IsSound low iss sub) (expire_ensures old now iss sub sound.distinct)

module _ (low : ℕ) (s : Session Tables) (sound : IsSound low s.tables) where
  -- a SELECT
  pub read-Advanced :
      {A : Type 0} (f : Tables → ℕ → Result A) → Advanced low s.tables (query f s).1.tables
  read-Advanced f =
      (Keeps-query {P = Advanced low s.tables} f).at s (Advanced-refl low s.tables sound)

  pub mark-Advanced :
      (ns : List ℕ) (iss sub : String)
      → Advanced low s.tables (mark_ips_as_added ns iss sub s).1.tables
  mark-Advanced ns iss sub =
      (advance low s.tables sound s.clock _ (mark_ips_as_added-IsSound low ns iss sub)
          (mark_ensures s.tables s.clock ns iss sub)).at
        s (refl, refl)

  pub event-Advanced :
      (n : ℕ) (iss sub : String) (type : EventType) (notes : String) (ip : InetArg)
      (agent : Option String)
      → Advanced low s.tables (create_whitelist_event n iss sub type notes ip agent s).1.tables
  event-Advanced n iss sub type notes ip agent =
      (advance low s.tables sound s.clock _
          (create_whitelist_event-IsSound low n iss sub type notes ip agent)
          (create_event_ensures s.tables s.clock n iss sub type notes ip agent)).at
        s (refl, refl)
