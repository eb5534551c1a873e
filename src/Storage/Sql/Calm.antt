-- ===== src/Storage/Sql/Calm.antt =====
-- Runs in which no statement fails.
use dashboard_site.Common.{ℕ, ◌≡◌, refl, ap, []}
use dashboard_site.Storage.Sql.{
  Result, ok, Session, Sql, pure, query, exec, ◌>>=◌, transaction, guarded, close, close_commit,
  continue,
}

abbrev pub calm : {T : Type 0} → T → ℕ → Session T
calm t now = record { tables = t; clock = now; faults = [] }

module _ {T A : Type 0} (t : T) (now : ℕ) where
  pub pure-calm : (a : A) → pure a (calm t now) ≡ (ok a, calm t now)
  unfolding pure
  pure-calm a = refl

  pub query-calm : (f : T → ℕ → Result A) → query f (calm t now) ≡ (f t now, calm t now)
  unfolding query guarded
  query-calm f = refl

  pub exec-calm :
      (f : T → ℕ → Result A × T) → exec f (calm t now) ≡ ((f t now).0, calm (f t now).1 now)
  unfolding exec guarded
  exec-calm f = refl

  pub bind-calm :
      {B : Type 0} (m : Sql T A) (f : A → Sql T B) (a : A) (u : T)
      → m (calm t now) ≡ (ok a, calm u now)
      → (m >>= f) (calm t now) ≡ f a (calm u now)
  unfolding ◌>>=◌
  bind-calm m f a u h = ap (λ (r : Result A × Session T). continue r.0 f r.1) h

  pub transaction-calm :
      (restore : T → T → T) (body : Sql T A) (a : A) (u : T)
      → body (calm t now) ≡ (ok a, calm u now)
      → transaction restore body (calm t now) ≡ (ok a, calm u now)
  unfolding transaction close close_commit ◌>>=◌ query guarded
  transaction-calm restore body a u h = ap (λ (r : Result A × Session T). close restore t r.0 r.1) h
