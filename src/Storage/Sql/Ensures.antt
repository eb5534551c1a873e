-- ===== src/Storage/Sql/Ensures.antt =====
-- Postconditions of statements: what holds of the result and of the tables afterwards, whichever
-- statements fail. The clock stands still during an operation.
use dashboard_site.Common.{
  ℕ, ◌≡◌, refl, sym, subst, Bool, true, false, if◌then◌else◌, List, [], ◌∷◌,
}
use dashboard_site.Storage.Sql.Keeps.{Keeps}
use dashboard_site.Storage.Sql.{
  Result, ok, err, failed, Session, Sql, StorageError, pure, raise, query, exec, ◌>>=◌, transaction,
  guarded, close, close_commit, continue,
}

pub record Ensures {T A : Type 0} (P : T → ℕ → Type 0) (m : Sql T A) (Q : Result A → T → ℕ → Type 0)
    : Type 0 where
  pub at : (s : Session T) → P s.tables s.clock → Q (m s).0 (m s).1.tables (m s).1.clock

module _ {T A : Type 0} {P : T → ℕ → Type 0} {Q : Result A → T → ℕ → Type 0} where
  pub Ensures-pure : (a : A) → ((t : T) (c : ℕ) → P t c → Q (ok a) t c) → Ensures P (pure a) Q
  unfolding pure
  Ensures-pure a k = record { at = λ s h. k s.tables s.clock h }

  pub Ensures-raise :
      (e : StorageError) → ((t : T) (c : ℕ) → P t c → Q (err e) t c) → Ensures P (raise e) Q
  unfolding raise
  Ensures-raise e k = record { at = λ s h. k s.tables s.clock h }

  pub Ensures-if :
      (b : Bool) (m n : Sql T A) → Ensures P m Q → Ensures P n Q → Ensures P (if b then m else n) Q
  Ensures-if true m n km kn = km
  Ensures-if false m n km kn = kn

module _ {T A : Type 0} (P : T → ℕ → Type 0) (Q : Result A → T → ℕ → Type 0) where
  guarded_ensures :
      (m : Sql T A)
      → ((s : Session T) → P s.tables s.clock → Q (m s).0 (m s).1.tables (m s).1.clock)
      → ((t : T) (c : ℕ) → P t c → Q (err failed) t c)
      → (l : List Bool) (s : Session T) → P s.tables s.clock
      → Q (guarded l m s).0 (guarded l m s).1.tables (guarded l m s).1.clock
  unfolding guarded
  guarded_ensures m k e [] s h = k s h
  guarded_ensures m k e (false ∷ rest) s h = k (record s { faults = rest }) h
  guarded_ensures m k e (true ∷ rest) s h = e s.tables s.clock h

  pub Ensures-query :
      (f : T → ℕ → Result A)
      → ((t : T) (c : ℕ) → P t c → Q (f t c) t c)
      → ((t : T) (c : ℕ) → P t c → Q (err failed) t c)
      → Ensures P (query f) Q
  unfolding query
  Ensures-query f k e = record {
    at = λ s h. guarded_ensures _ (λ t p. k t.tables t.clock p) e s.faults s h;
  }

  pub Ensures-exec :
      (f : T → ℕ → Result A × T)
      → ((t : T) (c : ℕ) → P t c → Q (f t c).0 (f t c).1 c)
      → ((t : T) (c : ℕ) → P t c → Q (err failed) t c)
      → Ensures P (exec f) Q
  unfolding exec
  Ensures-exec f k e = record {
    at = λ s h. guarded_ensures _ (λ t p. k t.tables t.clock p) e s.faults s h;
  }

module _ {T A B : Type 0} (R : Result A → T → ℕ → Type 0) {Q : Result B → T → ℕ → Type 0} where
  continue_ensures :
      (f : A → Sql T B)
      → ((a : A) → Ensures (R (ok a)) (f a) Q)
      → ((e : StorageError) (t : T) (c : ℕ) → R (err e) t c → Q (err e) t c)
      → (r : Result A) → Ensures (R r) (continue r f) Q
  continue_ensures f k e (ok a) = k a
  continue_ensures f k e (err x) = record { at = λ s h. e x s.tables s.clock h }

  -- `R` is what holds between the two
  pub Ensures-bind :
      {P : T → ℕ → Type 0} (m : Sql T A) (f : A → Sql T B)
      → Ensures P m R
      → ((a : A) → Ensures (R (ok a)) (f a) Q)
      → ((e : StorageError) (t : T) (c : ℕ) → R (err e) t c → Q (err e) t c)
      → Ensures P (m >>= f) Q
  unfolding ◌>>=◌
  Ensures-bind m f km kf ke = record {
    at = λ s h. (continue_ensures f kf ke (m s).0).at (m s).1 (km.at s h);
  }

-- what a COMMIT may return
abbrev Fails : Result Unit → Type 0
Fails (ok _) = Unit
Fails (err e) = e ≡ failed

-- A transaction that starts at `old`: its body ends as `R` says; a failure, also one of the COMMIT,
-- leaves `restore old new`.
module _ {T A : Type 0} (restore : T → T → T) (P : T → ℕ → Type 0)
    (R : T → Result A → T → ℕ → Type 0) (Q : Result A → T → ℕ → Type 0)
    (done : (old new : T) (a : A) (now c : ℕ) → P old now → R old (ok a) new c → Q (ok a) new c)
    (undone : (old new : T) (e : StorageError) (now c : ℕ)
      → P old now
      → R old (err e) new c
      → Q (err e) (restore old new) c)
    (uncommitted : (old new : T) (a : A) (now c : ℕ)
      → P old now
      → R old (ok a) new c
      → Q (err failed) (restore old new) c)
    (unstarted : (old : T) (c : ℕ) → P old c → Q (err failed) old c) where
  commit_ensures :
      (old : T) (a : A) (now : ℕ) (r : Result Unit) (s : Session T)
      → P old now
      → R old (ok a) s.tables s.clock
      → Fails r
      → Q
          (close_commit restore old a r s).0
          (close_commit restore old a r s).1.tables
          (close_commit restore old a r s).1.clock
  unfolding close_commit
  commit_ensures old a now (ok _) s o h f = done old s.tables a now s.clock o h
  commit_ensures old a now (err e) s o h f =
      subst (λ x. Q (err x) (restore old s.tables) s.clock) (sym f)
        (uncommitted old s.tables a now s.clock o h)

  close_ensures :
      (old : T) (now : ℕ) (r : Result A) (s : Session T)
      → P old now
      → R old r s.tables s.clock
      → Q (close restore old r s).0 (close restore old r s).1.tables (close restore old r s).1.clock
  unfolding close
  close_ensures old now (ok a) s o h =
      let both =
        (Ensures-query (λ t c. R old (ok a) t c) (λ r t c. R old (ok a) t c × Fails r)
            (λ _ _. ok tt) (λ t c k. (k, tt)) (λ t c k. (k, refl))).at
          s h in
      commit_ensures old a now (query {A = Unit} (λ _ _. ok tt) s).0
        (query {A = Unit} (λ _ _. ok tt) s).1 o both.0 both.1
  close_ensures old now (err e) s o h = undone old s.tables e now s.clock o h

  pub Ensures-transaction :
      (body : Sql T A)
      → ((old : T) (now : ℕ) → P old now → Ensures (λ t c. (t ≡ old) × (c ≡ now)) body (R old))
      → Ensures P (transaction restore body) Q
  unfolding transaction
  Ensures-transaction body k =
      Ensures-bind (λ r. between r) _ _
        (Ensures-query P between (λ _ _. ok tt) (λ t c h. h) unstarted)
        (λ _. record {
          at = λ s h.
              close_ensures s.tables s.clock (body s).0 (body s).1 h
                ((k s.tables s.clock h).at s (refl, refl));
        })
        (λ e t c h. h)
    where
      between : Result Unit → T → ℕ → Type 0
      between (ok _) t c = P t c
      between (err e) t c = Q (err e) t c

pub Ensures-of_Keeps :
    {T A : Type 0} (P : T → Type 0) (m : Sql T A)
    → Keeps P m
    → Ensures (λ t c. P t) m (λ r t c. P t)
Ensures-of_Keeps P m k = record { at = λ s h. k.at s h }
