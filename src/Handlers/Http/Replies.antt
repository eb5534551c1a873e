-- ===== src/Handlers/Http/Replies.antt =====
-- Postconditions of handlers, one rule for each way to build a handler.
use dashboard_site.Common.{ℕ, ◌≡◌, refl, Bool, true, false, if◌then◌else◌}
use dashboard_site.Storage.Sql.{Result, ok, err, Session, Sql, StorageError}
use dashboard_site.Storage.Sql.Ensures.{Ensures}
use dashboard_site.Handlers.Http.{
  Check, pass, refuse, Reply, error, Handler, finish, resume, attempt, checked,
}

pub record Replies {T B : Type 0} (P : T → ℕ → Type 0) (h : Handler T B)
    (Q : Reply B → T → ℕ → Type 0) : Type 0 where
  pub at : (s : Session T) → P s.tables s.clock → Q (h s).0 (h s).1.tables (h s).1.clock

module _ {T B : Type 0} {P : T → ℕ → Type 0} {Q : Reply B → T → ℕ → Type 0} where
  pub Replies-finish : (r : Reply B) → ((t : T) (c : ℕ) → P t c → Q r t c) → Replies P (finish r) Q
  Replies-finish r k = record { at = λ s h. k s.tables s.clock h }

  pub Replies-if :
      (b : Bool) (m n : Handler T B)
      → (b ≡ true → Replies P m Q)
      → (b ≡ false → Replies P n Q)
      → Replies P (if b then m else n) Q
  Replies-if true m n km kn = km refl
  Replies-if false m n km kn = kn refl

  pub Replies-checked :
      {A : Type 0} (c : Check A) (k : A → Handler T B)
      → ((a : A) → c ≡ pass a → Replies P (k a) Q)
      → ((n : ℕ) (t : T) (now : ℕ) → c ≡ refuse n → P t now → Q (error n) t now)
      → Replies P (checked c k) Q
  Replies-checked (pass a) k kp kr = kp a refl
  Replies-checked (refuse n) k kp kr = record { at = λ s h. kr n s.tables s.clock refl h }

module _ {T A B : Type 0} (R : Result A → T → ℕ → Type 0) {Q : Reply B → T → ℕ → Type 0} where
  resume_replies :
      (fail : StorageError → ℕ) (k : A → Handler T B)
      → ((e : StorageError) (t : T) (c : ℕ) → R (err e) t c → Q (error (fail e)) t c)
      → ((a : A) → Replies (R (ok a)) (k a) Q)
      → (r : Result A) → Replies (R r) (resume r fail k) Q
  resume_replies fail k ke ka (ok a) = ka a
  resume_replies fail k ke ka (err e) = record { at = λ s h. ke e s.tables s.clock h }

  pub Replies-attempt :
      {P : T → ℕ → Type 0} (m : Sql T A) (fail : StorageError → ℕ) (k : A → Handler T B)
      → Ensures P m R
      → ((e : StorageError) (t : T) (c : ℕ) → R (err e) t c → Q (error (fail e)) t c)
      → ((a : A) → Replies (R (ok a)) (k a) Q)
      → Replies P (attempt m fail k) Q
  unfolding attempt
  Replies-attempt m fail k km ke ka = record {
    at = λ s h. (resume_replies fail k ke ka (m s).0).at (m s).1 (km.at s h);
  }

-- a fact about values only becomes a premise
pub Replies-fact :
    {T B F : Type 0} {P : T → ℕ → Type 0} {Q : Reply B → T → ℕ → Type 0} (h : Handler T B)
    → (F → Replies P h Q)
    → Replies (λ t c. F × P t c) h Q
Replies-fact h k = record { at = λ s p. (k p.0).at s p.1 }
