-- ===== src/Transitions/Monad.antt =====
-- What a call of the service may read and change, and how calls are chained: a state and exception
-- monad in which an exception keeps what was written before it, as in Python.
use qiskit_serverless.Base.{Bool, List, Option, false, none, some, true, ℕ}
use qiskit_serverless.Models.{Db, Envelope, Job, Status}
use qiskit_serverless.Faults.{Error, Result, err, ok}

-- `job` is the caller's instance, which may be older than its row. `now` is what the clock says
-- during one call, `next_uuid` the supply of uuid4.
pub record World : Type 0 where
  pub db : Db
  pub job : Job
  pub now : ℕ
  pub next_uuid : ℕ
  pub sent : List Envelope  -- given to the billing sender
  pub mirrored : List Status  -- given to the workload mirror

-- What the service calls and is not modelled: the runner that cancels a fleet, the billing sender
-- and the workload mirror (`none`: it returned).
pub record Env : Type 0 where
  pub runner_stop : Job → Result Bool
  pub billing_send : Envelope → Option Error
  pub mirror_send : Job → Db → Option Error

abbrev pub Action : Type 0 → Type 0
Action A = World → Result A × World

module _ {A : Type 0} where
  abbrev pub pure : A → Action A
  pure a w = (ok a, w)

  abbrev pub raise : Error → Action A
  raise e w = (err e, w)

  abbrev pub gets : (World → A) → Action A
  gets f w = (ok (f w), w)

  -- The result of a computation that changes nothing.
  abbrev pub lift : Result A → Action A
  lift r w = (r, w)

-- What follows a call: the rest, or the exception.
abbrev pub continue : {A B : Type 0} → Result A × World → (A → Action B) → Result B × World
continue (ok a, w) f = f a w
continue (err e, w) f = (err e, w)

infixl 5 ◌>>=◌ ◌>>◌
abbrev pub ◌>>=◌ : {A B : Type 0} → Action A → (A → Action B) → Action B
◌>>=◌ m f w = continue (m w) f

abbrev pub ◌>>◌ : {A B : Type 0} → Action A → Action B → Action B
m >> k = m >>= λ _. k

abbrev pub modify : (World → World) → Action (Unit {0})
modify f w = (ok tt, f w)

abbrev pub modify_db : (Db → Db) → Action (Unit {0})
modify_db f = modify (λ w. record w { db = f w.db })

abbrev pub skip : Action (Unit {0})
skip = pure tt

abbrev pub when : Bool → Action (Unit {0}) → Action (Unit {0})
when true m = m
when false m = skip

abbrev pub raise_unless : Bool → Error → Action (Unit {0})
raise_unless true e = skip
raise_unless false e = raise e

-- An exception that a call reported, or nothing.
abbrev pub raised : Option Error → Action (Unit {0})
raised none = skip
raised (some e) = raise e

abbrev pub from_option : {A : Type 0} → Option A → Error → Action A
from_option none e = raise e
from_option (some a) e = pure a

-- The end of a transaction that began with these tables.
abbrev pub finish : {A : Type 0} → Db → Result A × World → Result A × World
finish db (ok a, w) = (ok a, w)
finish db (err e, w) = (err e, record w { db = db })

-- `with transaction.atomic()`: an exception restores the tables, and nothing else.
abbrev pub atomic : {A : Type 0} → Action A → Action A
atomic m w = finish w.db (m w)
