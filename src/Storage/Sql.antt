-- ===== src/Storage/Sql.antt =====
-- Statements against the database (pgx in internal/storage/*_queries.go). A session holds the
-- tables, the database's clock, and a schedule that says which of the statements to come fail
-- (a lost connection, a cancelled context); when it is used up, no statement fails.
pub mod Keeps
pub mod Ensures
pub mod Calm
use dashboard_site.Common.{ℕ, Bool, true, false, List, [], ◌∷◌}

pub data StorageError : Type 0 where
  failed duplicate_ip entry_not_found no_entries request_not_found : StorageError

pub data Result (A : Type 0) : Type 0 where
  ok : A → Result A
  err : StorageError → Result A

pub record Session (T : Type 0) : Type 0 where
  pub tables : T
  pub clock : ℕ
  pub faults : List Bool

abbrev pub Sql : Type 0 → Type 0 → Type 0
Sql T A = Session T → Result A × Session T

module _ {T A : Type 0} where
  pub pure : A → Sql T A
  pure a s = (ok a, s)

  pub raise : StorageError → Sql T A
  raise e s = (err e, s)

  -- the outcome of one statement, by the schedule
  guarded : List Bool → Sql T A → Sql T A
  guarded [] m s = m s
  guarded (false ∷ rest) m s = m (record s { faults = rest })
  guarded (true ∷ rest) m s = (err failed, record s { faults = rest })

  -- a SELECT; it may refuse its input
  pub query : (T → ℕ → Result A) → Sql T A
  unfolding guarded
  query f s = guarded s.faults (λ t. (f t.tables t.clock, t)) s

  -- an INSERT or UPDATE; one that violates a constraint returns an error
  pub exec : (T → ℕ → Result A × T) → Sql T A
  unfolding guarded
  exec f s =
      guarded s.faults (λ t. ((f t.tables t.clock).0, record t { tables = (f t.tables t.clock).1 }))
        s

module _ {T A B : Type 0} where
  abbrev continue : Result A → (A → Sql T B) → Sql T B
  continue (ok a) f s = f a s
  continue (err e) f s = (err e, s)

  infixl 10 ◌>>=◌ ◌>>◌
  -- opening this opens the single statements too
  unfoldable pub ◌>>=◌ : Sql T A → (A → Sql T B) → Sql T B
  unfolding pure raise query exec
  ◌>>=◌ m f s = continue (m s).0 f (m s).1

  abbrev pub ◌>>◌ : Sql T A → Sql T B → Sql T B
  m >> n = m >>= λ _. n

-- `defer tx.Rollback`: `restore old new` is what a rollback leaves of the tables, `old` but for the
-- sequences.
module _ {T A : Type 0} (restore : T → T → T) where
  close_commit : T → A → Result Unit → Session T → Result A × Session T
  close_commit old a (ok _) s = (ok a, s)
  close_commit old a (err e) s = (err e, record s { tables = restore old s.tables })

  close : T → Result A → Session T → Result A × Session T
  unfolding close_commit
  close old (ok a) s =
      let done = query {A = Unit} (λ _ _. ok tt) s in close_commit old a done.0 done.1
  close old (err e) s = (err e, record s { tables = restore old s.tables })

  -- BEGIN, the body, and COMMIT if it succeeds
  pub transaction : Sql T A → Sql T A
  unfolding close
  transaction body = do query {A = Unit} (λ _ _. ok tt); λ s. close s.tables (body s).0 (body s).1
