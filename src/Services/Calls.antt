-- ===== src/Services/Calls.antt =====
-- Which calls an action makes, as the scope records them.
use cluster_api_provider_clo.Base.{
  ◌≡◌, refl, sym, ap, ◌∙◌, Bool, true, false, List, [], ◌∷◌, ◌++◌, append-nil, append_assoc, All,
  All-append, All-map,
}
use cluster_api_provider_clo.Sdk.{Call, get_call, list_call}
use cluster_api_provider_clo.Scope.{Scope, call}
use cluster_api_provider_clo.Go.{Go}
use cluster_api_provider_clo.Go.Frame.{IsFrame, Within}

abbrev pub is_read : Call → Bool
is_read (get_call r id) = true
is_read (list_call r) = true
is_read _ = false

-- A state that records the calls made so far.
pub record HasCalls (S : Type 0) : Type 0 where
  pub calls_of : S → List Call

instance abbrev pub scope_calls : {W : Type 0} → HasCalls (Scope W)
scope_calls = record { calls_of = λ s. s.calls }

-- The calls of `t` are those of `s` and then others, each with the property.
pub record Makes {S : Type 0} ⦃h : HasCalls S⦄ (P : Call → Type 0) (s t : S) : Type 0 where
  pub made : List Call
  pub extends : h.calls_of t ≡ h.calls_of s ++ made
  pub each : All P made

module _ {S : Type 0} ⦃h : HasCalls S⦄ (P : Call → Type 0) where
  pub Makes-same : (s : S) → Makes P s s
  Makes-same s = record { made = []; extends = sym (append-nil (h.calls_of s)); each = tt }

  pub Makes-after : (s t u : S) → Makes P s t → Makes P t u → Makes P s u
  Makes-after s t u m n = record {
    made = m.made ++ n.made;
    extends =
        n.extends ∙ ap (λ cs. cs ++ n.made) m.extends ∙ append_assoc (h.calls_of s) m.made n.made;
    each = All-append P m.made n.made m.each n.each;
  }

  pub Makes-IsFrame : IsFrame {S = S} (Makes P)
  Makes-IsFrame = record { same = Makes-same; after = Makes-after }

  -- A step that leaves the calls alone.
  pub Makes-none : (s t : S) → h.calls_of t ≡ h.calls_of s → Makes P s t
  Makes-none s t e = record { made = []; extends = e ∙ sym (append-nil (h.calls_of s)); each = tt }

  pub Makes-one : (s t : S) (c : Call) → h.calls_of t ≡ h.calls_of s ++ c ∷ [] → P c → Makes P s t
  Makes-one s t c e h = record { made = c ∷ []; extends = e; each = (h, tt) }

  -- An action that makes no call.
  pub Within-quiet :
      {A : Type 0} (m : Go S A) → ((s : S) → h.calls_of (m s).1 ≡ h.calls_of s) → Within (Makes P) m
  Within-quiet m h = record { at = λ s. Makes-none s _ (h s) }

module _ {W : Type 0} (P : Call → Type 0) where
  pub Within-call : {A : Type 0} (c : Call) (f : W → A × W) → P c → Within (Makes P) (call c f)
  Within-call c f h = record { at = λ s. Makes-one P s _ c refl h }

module _ {S A : Type 0} ⦃h : HasCalls S⦄ where
  pub Within-weaken :
      (P Q : Call → Type 0) (m : Go S A)
      → ((c : Call) → P c → Q c)
      → Within (Makes P) m
      → Within (Makes Q) m
  Within-weaken P Q m f k = record {
    at = λ s. record {
      made = (k.at s).made;
      extends = (k.at s).extends;
      each = All-map P Q f (k.at s).made (k.at s).each;
    };
  }
