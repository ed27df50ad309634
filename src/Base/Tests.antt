-- ===== src/Base/Tests.antt =====
-- Boolean tests on native numbers and texts, and Go's conditionals.
use Prim.Native.Nat.{ℕ, zero, suc, compare, Ordering, ◌/◌, ◌%◌}
use Prim.Native.String.{String}
use Prim.Native.String
use mathlib.Core.Path.{◌≡◌, refl}
use mathlib.Core.Logic.{◌⊎◌, inl, inr, ◌≢◌, ◌↔◌}
use mathlib.Core.Bool.{Bool, true, false, not, ◌&&◌}
use mathlib.Core.Option.{Option, none, some}
use native.Mathlib.Omega.{arith}
use text.Mathlib.Text.{◌==◌}
use text.Mathlib.TextEquality.{eq_iff}

abbrev pub ltb : ℕ → ℕ → Bool
ltb a b = elim (compare a b) [ Ordering.lt ↦ true | _ ↦ false ]

abbrev pub eqb : ℕ → ℕ → Bool
eqb a b = elim (compare a b) [ Ordering.eq ↦ true | _ ↦ false ]

infix 1 if◌then◌else◌
abbrev pub if◌then◌else◌ {ℓ} : {A : Type ℓ} → Bool → A → A → A
if true then x else y = x
if false then x else y = y

abbrev pub eq_bool : Bool → Bool → Bool
eq_bool true b = b
eq_bool false b = not b

infixr 65 ◌<>◌
-- Go's `+` on texts.
abbrev pub ◌<>◌ : String → String → String
s <> t = String.◌++◌ s t

digit : ℕ → String
digit zero = "0"
digit (suc zero) = "1"
digit (suc (suc zero)) = "2"
digit (suc (suc (suc zero))) = "3"
digit (suc (suc (suc (suc zero)))) = "4"
digit (suc (suc (suc (suc (suc zero))))) = "5"
digit (suc (suc (suc (suc (suc (suc zero)))))) = "6"
digit (suc (suc (suc (suc (suc (suc (suc zero))))))) = "7"
digit (suc (suc (suc (suc (suc (suc (suc (suc zero)))))))) = "8"
digit _ = "9"

-- The digits of a number, on fuel; a number has fewer digits than its successor counts.
decimal_from : ℕ → ℕ → String
decimal_from zero n = ""
decimal_from (suc fuel) n =
    let rest = decimal_from fuel (n / 10) in if ltb n 10 then digit n else rest <> digit (n % 10)

-- A number in a message, as %d prints it.
unfoldable pub decimal : ℕ → String
unfolding digit decimal_from
decimal n = decimal_from (suc n) n

-- Whether a Go string is not "".
abbrev pub is_set : String → Bool
is_set s = not (s == "")

-- `ptr.Deref(p, d)`.
abbrev pub deref_or {ℓ} : {A : Type ℓ} → Option A → A → A
deref_or none d = d
deref_or (some a) d = a

abbrev pub is_some {ℓ} : {A : Type ℓ} → Option A → Bool
is_some none = false
is_some (some a) = true

pub Bool-cases : (b : Bool) → (b ≡ true) ⊎ (b ≡ false)
Bool-cases true = inl refl
Bool-cases false = inr refl

pub false-true : false ≡ true → ⊥
false-true h = cc

pub and-both : (a b : Bool) → (a && b ≡ true) ↔ ((a ≡ true) × (b ≡ true))
and-both true b = (λ h. (refl, h), λ h. h.1)
and-both false b = (λ h. cc, λ h. h.0)

pub Option-cases {ℓ} : {A : Type ℓ} (o : Option A) → ((a : A) × (o ≡ some a)) ⊎ (o ≡ none)
Option-cases none = inr refl
Option-cases (some a) = inl (a, refl)

-- A text that is not empty passes Go's test against "".
pub is_set-ne : (s : String) → is_set s ≡ true → s ≢ ""
is_set-ne s h e = ground (arith, eq_iff s "")

pub ne-is_set : (s : String) → s ≢ "" → is_set s ≡ true
ne-is_set s h = ground (arith, eq_iff s "")

pub unset-empty : (s : String) → is_set s ≡ false → s ≡ ""
unset-empty s h = ground (arith, eq_iff s "")

pub empty-unset : (s : String) → s ≡ "" → is_set s ≡ false
empty-unset s h = ground (arith, eq_iff s "")
