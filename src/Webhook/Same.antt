-- ===== src/Webhook/Same.antt =====
-- Rules that compare a field of the old spec with that of the new one.
use cluster_api_provider_clo.Base.{
  ℕ, String, ◌≡◌, refl, Bool, true, false, not, arith, ◌==◌, eq_iff, eqb, eq_bool,
}
use cluster_api_provider_clo.Webhook.Field.{FieldError, report}
use cluster_api_provider_clo.Webhook.Reports.{report_negated, Says}

pub text-same : (s t : String) (e : FieldError) → Says (report (not (s == t)) e) (s ≡ t)
text-same s t e = (
  λ h. (eq_iff s t).0 ((report_negated (s == t) e).0 h),
  λ k. (report_negated (s == t) e).1 ((eq_iff s t).1 k),
)

eqb-same : (m n : ℕ) → eqb m n ≡ true → m ≡ n
eqb-same m n h = ground arith

same-eqb : (m n : ℕ) → m ≡ n → eqb m n ≡ true
same-eqb m n h = ground arith

pub number-same : (m n : ℕ) (e : FieldError) → Says (report (not (eqb m n)) e) (m ≡ n)
number-same m n e = (
  λ h. eqb-same m n ((report_negated (eqb m n) e).0 h),
  λ k. (report_negated (eqb m n) e).1 (same-eqb m n k),
)

pub flag-same : (b c : Bool) (e : FieldError) → Says (report (not (eq_bool b c)) e) (b ≡ c)
flag-same true true e = (λ h. refl, λ h. refl)
flag-same true false e = (λ h. cc, λ h. cc)
flag-same false true e = (λ h. cc, λ h. cc)
flag-same false false e = (λ h. refl, λ h. refl)
