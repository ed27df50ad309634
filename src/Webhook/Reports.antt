-- ===== src/Webhook/Reports.antt =====
-- When a list of errors, put together from others, is empty.
use cluster_api_provider_clo.Base.{
  false-true, ◌≡◌, refl, sym, ◌↔◌, Bool, true, false, not, ◌&&◌, List, [], ◌++◌, append-empty,
}
use cluster_api_provider_clo.Webhook.Field.{FieldError, report}

pub report-empty : (b : Bool) (e : FieldError) → (report b e ≡ []) ↔ (b ≡ false)
report-empty true e = (λ h. cc, λ h. cc)
report-empty false e = (λ h. refl, λ h. refl)

-- The error of a test that must hold.
pub report_negated : (b : Bool) (e : FieldError) → (report (not b) e ≡ []) ↔ (b ≡ true)
report_negated true e = (λ h. refl, λ h. refl)
report_negated false e = (λ h. cc, λ h. cc)

module _ {ℓ} {A : Type ℓ} where
  pub append-both : (xs ys : List A) → xs ≡ [] → ys ≡ [] → xs ++ ys ≡ []
  append-both xs ys h k = rw h k

-- What a list of errors says: it is empty exactly where `P` holds.
abbrev pub Says {ℓ} : List FieldError → Type ℓ → Type ℓ
Says es P = (es ≡ []) ↔ P

-- Two lists of errors, one after the other.
infixl 65 ◌also◌
pub ◌also◌ {ℓ κ} :
    {P : Type ℓ} {Q : Type κ} {xs ys : List FieldError}
    → Says xs P
    → Says ys Q
    → Says (xs ++ ys) (P × Q)
◌also◌ {xs} {ys} f g = (
  λ h. let both = append-empty xs ys h in (f.0 both.0, g.0 both.1),
  λ h. append-both xs ys (f.1 h.0) (g.1 h.1),
)

pub says_itself : (es : List FieldError) → Says es (es ≡ [])
says_itself es = (λ h. h, λ h. h)

-- A rule that a first test brings in.
pub report_unless :
    (b c : Bool) (e : FieldError) → Says (report (b && not c) e) (b ≡ true → c ≡ true)
report_unless true true e = (λ h k. refl, λ h. refl)
report_unless true false e = (λ h. cc, λ h. absurd (false-true (h refl)))
report_unless false c e = (λ h. cc, λ h. refl)

-- A rule that two tests bring in.
pub report_both :
    (b c d : Bool) (e : FieldError)
    → Says (report (b && c && d) e) (b ≡ true → c ≡ true → d ≡ false)
report_both true true true e = (λ h. cc, λ h. absurd (false-true (sym (h refl refl))))
report_both true true false e = (λ h k l. refl, λ h. refl)
report_both true false d e = (λ h k l. cc, λ h. refl)
report_both false c d e = (λ h k. cc, λ h. refl)
