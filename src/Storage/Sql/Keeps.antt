-- ===== src/Storage/Sql/Keeps.antt =====
-- Invariants of the tables, one rule for each way to build a statement.
use dashboard_site.Common.{ℕ, Bool, true, false, if◌then◌else◌, List, [], ◌∷◌}
use dashboard_site.Storage.Sql.{
  Result, ok, err, Session, Sql, StorageError, pure, raise, query, exec, ◌>>=◌, transaction,
  guarded, close, close_commit, continue,
}

-- `m` keeps `P`, whichever of its statements fail
pub record Keeps {T A : Type 0} (P : T → Type 0) (m : Sql T A) : Type 0 where
  pub at : (s : Session T) → P s.tables → P (m s).1.tables

module _ {T A : Type 0} (P : T → Type 0) where
  guarded_keeps :
      (m : Sql T A)
      → ((s : Session T) → P s.tables → P (m s).1.tables)
      → (l : List Bool) (s : Session T) → P s.tables
      → P (guarded l m s).1.tables
  unfolding guarded
  guarded_keeps m k [] s h = k s h
  guarded_keeps m k (false ∷ rest) s h = k (record s { faults = rest }) h
  guarded_keeps m k (true ∷ rest) s h = h

module _ {T A : Type 0} {P : T → Type 0} where
  pub Keeps-pure : (a : A) → Keeps P (pure {T = T} a)
  unfolding pure
  Keeps-pure a = record { at = λ s h. h }

  pub Keeps-raise : (e : StorageError) → Keeps P (raise {T = T} {A = A} e)
  unfolding raise
  Keeps-raise e = record { at = λ s h. h }

  pub Keeps-if : (b : Bool) (m n : Sql T A) → Keeps P m → Keeps P n → Keeps P (if b then m else n)
  Keeps-if true m n km kn = km
  Keeps-if false m n km kn = kn

  pub Keeps-query : (f : T → ℕ → Result A) → Keeps P (query f)
  unfolding query
  Keeps-query f = record { at = λ s h. guarded_keeps P _ (λ t k. k) s.faults s h }

  pub Keeps-exec :
      (f : T → ℕ → Result A × T) → ((t : T) (now : ℕ) → P t → P (f t now).1) → Keeps P (exec f)
  unfolding exec
  Keeps-exec f k = record {
    at = λ s h. guarded_keeps P _ (λ t p. k t.tables t.clock p) s.faults s h;
  }

module _ {T A B : Type 0} {P : T → Type 0} where
  Keeps-continue :
      (r : Result A) (f : A → Sql T B) → ((a : A) → Keeps P (f a)) → Keeps P (continue r f)
  Keeps-continue (ok a) f k = k a
  Keeps-continue (err e) f k = record { at = λ s h. h }

  pub Keeps-bind :
      (first : Sql T A) (next : A → Sql T B)
      → Keeps P first
      → ((a : A) → Keeps P (next a))
      → Keeps P (first >>= next)
  unfolding ◌>>=◌
  Keeps-bind first next kept after = record {
    at = λ s h. (Keeps-continue (first s).0 next after).at (first s).1 (kept.at s h);
  }

-- `Q old` is what the body keeps when it starts at `old`.
module _ {T A : Type 0} {P : T → Type 0} (restore : T → T → T) (Q : T → T → Type 0)
    (start : (old : T) → P old → Q old old)
    (restored : (old new : T) → P old → Q old new → P (restore old new))
    (finished : (old new : T) → P old → Q old new → P new) where
  close_commit-keeps :
      (old : T) (a : A) (r : Result Unit) (s : Session T)
      → P old
      → Q old s.tables
      → P (close_commit restore old a r s).1.tables
  unfolding close_commit
  close_commit-keeps old a (ok _) s o h = finished old s.tables o h
  close_commit-keeps old a (err e) s o h = restored old s.tables o h

  close-keeps :
      (old : T) (r : Result A) (s : Session T)
      → P old
      → Q old s.tables
      → P (close restore old r s).1.tables
  unfolding close
  close-keeps old (ok a) s o h =
      close_commit-keeps old a (query {A = Unit} (λ _ _. ok tt) s).0
        (query {A = Unit} (λ _ _. ok tt) s).1 o ((Keeps-query {P = Q old} (λ _ _. ok tt)).at s h)
  close-keeps old (err e) s o h = restored old s.tables o h

  pub Keeps-transaction :
      (body : Sql T A) → ((old : T) → Keeps (Q old) body) → Keeps P (transaction restore body)
  unfolding transaction
  Keeps-transaction body k = Keeps-bind _ _ (Keeps-query _) (λ _. record {
    at = λ s h. close-keeps s.tables (body s).0 (body s).1 h ((k s.tables).at s (start s.tables h));
  })

pub ruleset keeps_rules = (Keeps-pure, Keeps-raise, Keeps-query, Keeps-exec, Keeps-bind)
