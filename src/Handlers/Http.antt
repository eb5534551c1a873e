-- ===== src/Handlers/Http.antt =====
-- Handlers as functions of the database session. The text of an error reply is left out, its status
-- is kept. `Check` is the part of a handler that only inspects the request: each early return is a
-- refusal with its status.
pub mod Replies
pub mod Checks
use dashboard_site.Common.{ℕ, Bool, true, false, Option, none, some}
use dashboard_site.Storage.Sql.{Result, ok, err, StorageError, Session, Sql}

pub data Check (A : Type 0) : Type 0 where
  pass : A → Check A
  refuse : ℕ → Check A

infixl 10 ◌>>=◌ ◌>>◌
abbrev pub ◌>>=◌ : {A B : Type 0} → Check A → (A → Check B) → Check B
pass a >>= f = f a
refuse n >>= f = refuse n

abbrev pub ◌>>◌ : {B : Type 0} → Check Unit → Check B → Check B
m >> k = m >>= λ _. k

-- `if !b { SetJSONError(n, …); return }`
abbrev pub require : Bool → ℕ → Check Unit
require true n = pass tt
require false n = refuse n

abbrev pub or_refuse : {A : Type 0} → Option A → ℕ → Check A
or_refuse none n = refuse n
or_refuse (some a) n = pass a

-- `B` is what a successful reply carries
pub data Reply (B : Type 0) : Type 0 where
  success : B → Reply B
  error : ℕ → Reply B

abbrev pub Handler : Type 0 → Type 0 → Type 0
Handler T B = Session T → Reply B × Session T

abbrev pub finish : {T B : Type 0} → Reply B → Handler T B
finish r s = (r, s)

module _ {T A B : Type 0} where
  abbrev pub resume : Result A → (StorageError → ℕ) → (A → Handler T B) → Handler T B
  resume (ok a) fail k s = k a s
  resume (err e) fail k s = (error (fail e), s)

  -- a call of the storage, the status where it fails, and the rest
  unfoldable pub attempt : Sql T A → (StorageError → ℕ) → (A → Handler T B) → Handler T B
  attempt m fail k s = resume (m s).0 fail k (m s).1

  abbrev pub checked : Check A → (A → Handler T B) → Handler T B
  checked (pass a) k s = k a s
  checked (refuse n) k s = (error n, s)
