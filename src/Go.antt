-- ===== src/Go.antt =====
-- Go's control flow over a state: a function returns a value, an error or panics, and what was
-- written before stays written.
pub mod Frame
pub mod Post
use cluster_api_provider_clo.Base.{ℕ, String, Option, none, some, Bool, eqb, if◌then◌else◌}
use cluster_api_provider_clo.Errors.{Error, wrap, is_timeout_error}
use cluster_api_provider_clo.Sdk.{Answer, reply, failure}

-- What a Go function returned.
pub data Outcome (A : Type 0) : Type 0 where
  ok : A → Outcome A
  err : Error → Outcome A
  panic : Outcome A

-- The `reterr` that a deferred function sees.
abbrev pub error_of : {A : Type 0} → Outcome A → Option Error
error_of (ok a) = none
error_of (err e) = some e
error_of panic = none

abbrev pub wrap_outcome : {A : Type 0} → String → Outcome A → Outcome A
wrap_outcome context (ok a) = ok a
wrap_outcome context (err e) = err (wrap context e)
wrap_outcome context panic = panic

-- ctrl.Result: the delay of the requeue in seconds, 0 for none.
pub record CtrlResult : Type 0 where
  pub requeue_after : ℕ

abbrev pub no_requeue : CtrlResult
no_requeue = record { requeue_after = 0 }

abbrev pub requeue : ℕ → CtrlResult
requeue n = record { requeue_after = n }

abbrev pub is_zero : CtrlResult → Bool
is_zero r = eqb r.requeue_after 0

-- An action on a state: what it returns, and the state that it leaves.
abbrev pub Go : Type 0 → Type 0 → Type 0
Go S A = S → Outcome A × S

module _ {S A B : Type 0} where
  abbrev pub continue : Outcome A → (A → Go S B) → Go S B
  continue (ok a) f s = f a s
  continue (err e) f s = (err e, s)
  continue panic f s = (panic, s)

  infixl 5 ◌>>=◌ ◌>>◌
  unfoldable pub ◌>>=◌ : Go S A → (A → Go S B) → Go S B
  ◌>>=◌ m f s = let (r, s') = m s in continue r f s'

  abbrev pub ◌>>◌ : Go S A → Go S B → Go S B
  m >> n = m >>= λ _. n

module _ {S A : Type 0} where
  abbrev pub pure : A → Go S A
  pure a s = (ok a, s)

  abbrev pub raise : Error → Go S A
  raise e s = (err e, s)

  abbrev pub gets : (S → A) → Go S A
  gets f s = (ok (f s), s)

  -- A deferred function, which sees what is returned.
  abbrev pub deferred : Go S A → (Outcome A → S → S) → Go S A
  deferred m f s = let (r, s') = m s in (r, f r s')

  -- *p where p may be nil.
  abbrev pub deref : Option A → Go S A
  deref none s = (panic, s)
  deref (some a) s = (ok a, s)

  -- The value, or fmt.Errorf("<context>: %w", err).
  abbrev pub or_wrap : String → Answer A → Go S A
  or_wrap context (reply a) s = (ok a, s)
  or_wrap context (failure e) s = (err (wrap context e), s)

  -- `if err := m(); err != nil { return fmt.Errorf("<context>: %w", err) }`
  unfoldable pub annotate : String → Go S A → Go S A
  annotate context m s = let (r, s') = m s in (wrap_outcome context r, s')

module _ {S : Type 0} where
  abbrev pub modify : (S → S) → Go S (Unit {0})
  modify f s = (ok tt, f s)

abbrev pub unit_of : Option Error → Outcome (Unit {0})
unit_of none = ok tt
unit_of (some e) = err e

abbrev pub unit_answer : Option Error → Answer (Unit {0})
unit_answer none = reply tt
unit_answer (some e) = failure e

-- Where a step of a function ends it with a result, or lets it go on with a value.
pub data Flow (A : Type 0) : Type 0 where
  return_early : CtrlResult → Flow A
  proceed : A → Flow A

abbrev pub then_with : {S A : Type 0} → Flow A → (A → Go S CtrlResult) → Go S CtrlResult
then_with (return_early result) f = pure result
then_with (proceed a) f = f a

-- What the code does with the error of a create: a timeout is a requeue, any other error returns.
unfoldable pub requeue_on_timeout : {S A : Type 0} → ℕ → String → Error → Go S (Flow A)
unfolding is_timeout_error
requeue_on_timeout delay context e =
    if is_timeout_error e then pure (return_early (requeue delay)) else raise (wrap context e)

-- The same where nothing is left to do after the create.
unfoldable pub requeue_or_raise : {S : Type 0} → ℕ → String → Error → Go S CtrlResult
unfolding is_timeout_error
requeue_or_raise delay context e =
    if is_timeout_error e then pure (requeue delay) else raise (wrap context e)
