-- ===== src/Go/Frame.antt =====
-- How an action changes the state: relations between the state before and after it that hold of an
-- action put together from actions of which they hold.
use cluster_api_provider_clo.Base.{
  String, ◌≡◌, refl, ◌∙◌, Bool, true, false, Option, none, some, if◌then◌else◌,
}
use cluster_api_provider_clo.Errors.{Error}
use cluster_api_provider_clo.Sdk.{Answer, reply, failure}
use cluster_api_provider_clo.Go.{
  Go, Outcome, ok, err, panic, continue, ◌>>=◌, pure, raise, deferred, deref, or_wrap, annotate,
  modify,
}

-- A reflexive and transitive relation on states.
pub record IsFrame {S : Type 0} (R : S → S → Type 0) : Type 0 where
  pub same : (s : S) → R s s
  pub after : (s t u : S) → R s t → R t u → R s u

-- The state that `m` leaves is related to the one that it starts from, whatever `m` returns.
pub record Within {S A : Type 0} (R : S → S → Type 0) (m : Go S A) : Type 0 where
  pub at : (s : S) → R s (m s).1

-- The part of the state stays as it is.
abbrev pub Keeps : {S X : Type 0} → (S → X) → S → S → Type 0
Keeps f s t = f t ≡ f s

pub Keeps-IsFrame : {S X : Type 0} (f : S → X) → IsFrame (Keeps f)
Keeps-IsFrame f = record { same = λ s. refl; after = λ s t u p q. q ∙ p }

module _ {S A : Type 0} {R : S → S → Type 0} (frame : IsFrame R) where
  pub Within-pure : (a : A) → Within R (pure a)
  Within-pure a = record { at = frame.same }

  pub Within-raise : (e : Error) → Within R (raise {A = A} e)
  Within-raise e = record { at = frame.same }

  pub Within-deref : (o : Option A) → Within R (deref o)
  Within-deref none = record { at = frame.same }
  Within-deref (some a) = record { at = frame.same }

  pub Within-or_wrap : (context : String) (a : Answer A) → Within R (or_wrap context a)
  Within-or_wrap context (reply a) = record { at = frame.same }
  Within-or_wrap context (failure e) = record { at = frame.same }

  pub Within-if :
      (b : Bool) (m n : Go S A)
      → (b ≡ true → Within R m)
      → (b ≡ false → Within R n)
      → Within R (if b then m else n)
  Within-if true m n km kn = km refl
  Within-if false m n km kn = kn refl

  pub Within-annotate : (context : String) (m : Go S A) → Within R m → Within R (annotate context m)
  unfolding annotate
  Within-annotate context m k = record { at = k.at }

  pub Within-deferred :
      (m : Go S A) (f : Outcome A → S → S)
      → Within R m
      → ((r : Outcome A) (s : S) → R s (f r s))
      → Within R (deferred m f)
  Within-deferred m f k kf = record {
    at = λ s. frame.after s (m s).1 (f (m s).0 (m s).1) (k.at s) (kf (m s).0 (m s).1);
  }

module _ {S A B : Type 0} {R : S → S → Type 0} (frame : IsFrame R) where
  Within-continue :
      (r : Outcome A) (f : A → Go S B) (s t : S)
      → R s t
      → ((a : A) → Within R (f a))
      → R s (continue r f t).1
  Within-continue (ok a) f s t h kf = frame.after s t (f a t).1 h ((kf a).at t)
  Within-continue (err e) f s t h kf = h
  Within-continue panic f s t h kf = h

  pub Within-bind :
      (m : Go S A) (f : A → Go S B) → Within R m → ((a : A) → Within R (f a)) → Within R (m >>= f)
  unfolding ◌>>=◌
  Within-bind m f km kf = record { at = λ s. Within-continue (m s).0 f s (m s).1 (km.at s) kf }

module _ {S : Type 0} {R : S → S → Type 0} where
  pub Within-modify : (f : S → S) → ((s : S) → R s (f s)) → Within R (modify f)
  Within-modify f k = record { at = k }

pub ruleset frame_rules = (
  Within-modify, Within-pure, Within-raise, Within-deref, Within-or_wrap, Within-if,
  Within-annotate, Within-bind,
)
