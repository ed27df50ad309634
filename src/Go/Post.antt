-- ===== src/Go/Post.antt =====
-- What an action gives when it returns a value: a condition on the value and the state that it leaves.
use cluster_api_provider_clo.Base.{String, ◌≡◌, refl, Bool, true, false, if◌then◌else◌}
use cluster_api_provider_clo.Go.{
  Go, Outcome, ok, err, panic, wrap_outcome, continue, ◌>>=◌, gets, or_wrap, annotate,
}
use cluster_api_provider_clo.Sdk.{Answer, reply, failure}

pub record Gives {S A : Type 0} (P : S → Type 0) (m : Go S A) (Q : A → S → Type 0) : Type 0 where
  pub at : (s : S) (a : A) → P s → (m s).0 ≡ ok a → Q a (m s).1

-- The value of a call that returns one.
pub ok-injective : {A : Type 0} (a b : A) → ok a ≡ ok b → a ≡ b
ok-injective a b h = cc

pub wrap_outcome-ok :
    {A : Type 0} (context : String) (r : Outcome A) (a : A)
    → wrap_outcome context r ≡ ok a
    → r ≡ ok a
wrap_outcome-ok context (ok a) b h = h
wrap_outcome-ok context (err e) b h = cc
wrap_outcome-ok context panic b h = cc

module _ {S A B : Type 0} where
  Gives-continue :
      (Q : A → S → Type 0) (R : B → S → Type 0) (r : Outcome A) (f : A → Go S B) (s : S) (b : B)
      → ((a : A) → r ≡ ok a → Q a s)
      → ((a : A) → Gives (Q a) (f a) R)
      → (continue r f s).0 ≡ ok b
      → R b (continue r f s).1
  Gives-continue Q R (ok a) f s b q k h = (k a).at s b (q a refl) h
  Gives-continue Q R (err e) f s b q k h = cc
  Gives-continue Q R panic f s b q k h = cc

  pub Gives-bind :
      {P : S → Type 0} {m : Go S A} {f : A → Go S B} (Q : A → S → Type 0) {R : B → S → Type 0}
      → Gives P m Q
      → ((a : A) → Gives (Q a) (f a) R)
      → Gives P (m >>= f) R
  unfolding ◌>>=◌
  Gives-bind {m} {f} Q {R} km kf = record {
    at = λ s b p h. Gives-continue Q R (m s).0 f (m s).1 b (λ a e. km.at s a p e) kf h;
  }

module _ {S A : Type 0} {P : S → Type 0} {Q : A → S → Type 0} where
  pub Gives-if :
      (b : Bool) {m n : Go S A}
      → (b ≡ true → Gives P m Q)
      → (b ≡ false → Gives P n Q)
      → Gives P (if b then m else n) Q
  Gives-if true km kn = km refl
  Gives-if false km kn = kn refl

  pub Gives-annotate :
      (context : String) {m : Go S A} → Gives P m Q → Gives P (annotate context m) Q
  unfolding annotate
  Gives-annotate context {m} k = record {
    at = λ s a p h. k.at s a p (wrap_outcome-ok context (m s).0 a h);
  }

module _ {S A : Type 0} {P : S → Type 0} where
  pub Gives-gets : (f : S → A) → Gives P (gets f) (λ _. P)
  Gives-gets f = record { at = λ s a p h. p }

-- Where what comes first does not matter.
pub Gives-after :
    {S A B : Type 0} (m : Go S A) {f : A → Go S B} {R : B → S → Type 0}
    → ((a : A) → Gives (λ _. Unit {0}) (f a) R)
    → Gives (λ _. Unit {0}) (m >>= f) R
Gives-after m k = Gives-bind {m = m} (λ _ _. Unit {0}) (record { at = λ s a p h. tt }) k

-- What comes before a value that is returned: a value as well.
module _ {S A B : Type 0} where
  continue-ok :
      (r : Outcome A) (f : A → Go S B) (t : S) (b : B)
      → (continue r f t).0 ≡ ok b
      → (a : A) × (r ≡ ok a) × ((f a t).0 ≡ ok b)
  continue-ok (ok a) f t b h = (a, refl, h)
  continue-ok (err e) f t b h = cc
  continue-ok panic f t b h = cc

  pub bind-ok :
      (m : Go S A) (f : A → Go S B) (s : S) (b : B)
      → ((m >>= f) s).0 ≡ ok b
      → (a : A) × ((m s).0 ≡ ok a) × ((f a (m s).1).0 ≡ ok b)
  unfolding ◌>>=◌
  bind-ok m f s b h = continue-ok (m s).0 f (m s).1 b h

  pub or_wrap-ok :
      (context : String) (answer : Answer A) (f : A → Go S B) (s : S) (b : B)
      → ((or_wrap context answer >>= f) s).0 ≡ ok b
      → (a : A) × (answer ≡ reply a) × ((f a s).0 ≡ ok b)
  unfolding ◌>>=◌
  or_wrap-ok context (reply a) f s b h = (a, refl, h)
  or_wrap-ok context (failure e) f s b h = cc
