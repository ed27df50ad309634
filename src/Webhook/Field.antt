-- ===== src/Webhook/Field.antt =====
-- The errors of the package k8s.io/apimachinery/pkg/util/validation/field, as the webhooks make them,
-- and the package net/netip, which is a parameter.
use cluster_api_provider_clo.Base.{
  ℕ, String, decimal, Bool, true, false, Option, none, some, List, [], ◌∷◌, ◌++◌, suc, ◌==◌,
  if◌then◌else◌,
}
use cluster_api_provider_clo.Errors.{or_else}
use cluster_api_provider_clo.Sdk.{Answer}

-- field.Path, from the root.
pub data PathStep : Type 0 where
  child_step : String → PathStep
  index_step : ℕ → PathStep
  key_step : String → PathStep

abbrev pub FieldPath : Type 0
FieldPath = List PathStep

abbrev pub child : FieldPath → String → FieldPath
child path name = path ++ child_step name ∷ []

abbrev pub at_index : FieldPath → ℕ → FieldPath
at_index path i = path ++ index_step i ∷ []

abbrev pub at_key : FieldPath → String → FieldPath
at_key path key = path ++ key_step key ∷ []

pub data ErrorType : Type 0 where
  error_duplicate error_invalid error_not_found error_forbidden error_required : ErrorType
  error_too_many : ErrorType

-- field.Error; a value that the constructor does not take is "".
pub record FieldError : Type 0 where
  pub type : ErrorType
  pub field : FieldPath
  pub bad_value : String
  pub detail : String

abbrev pub duplicate : FieldPath → String → FieldError
duplicate path value = record {
  type = error_duplicate;
  field = path;
  bad_value = value;
  detail = "";
}

abbrev pub invalid : FieldPath → String → String → FieldError
invalid path value detail = record {
  type = error_invalid;
  field = path;
  bad_value = value;
  detail = detail;
}

abbrev pub not_found : FieldPath → String → FieldError
not_found path value = record {
  type = error_not_found;
  field = path;
  bad_value = value;
  detail = "";
}

abbrev pub forbidden : FieldPath → String → FieldError
forbidden path detail = record {
  type = error_forbidden;
  field = path;
  bad_value = "";
  detail = detail;
}

abbrev pub required : FieldPath → String → FieldError
required path detail = record {
  type = error_required;
  field = path;
  bad_value = "";
  detail = detail;
}

-- The value is the number of elements, and the detail their limit.
abbrev pub too_many : FieldPath → ℕ → ℕ → FieldError
too_many path actual limit = record {
  type = error_too_many;
  field = path;
  bad_value = decimal actual;
  detail = decimal limit;
}

-- `if b { allErrs = append(allErrs, e) }`
abbrev pub report : Bool → FieldError → List FieldError
report b e = if b then e ∷ [] else []

-- netip.ParsePrefix, netip.ParseAddr and Prefix.Contains.
pub record NetIp : Type 1 where
  pub Prefix : Type 0
  pub Addr : Type 0
  pub parse_prefix : String → Answer Prefix
  pub parse_addr : String → Answer Addr
  pub contains : Prefix → Addr → Bool

-- A lookup in a map with a true value for each of the names.
unfoldable pub has_name : List String → String → Bool
has_name [] name = false
has_name (n ∷ ns) name = if n == name then true else has_name ns name

-- An element and its index, where it is the one.
abbrev pub hit {ℓ} : {A : Type ℓ} → Bool → A → ℕ → Option (A × ℕ)
hit b x i = if b then some (x, i) else none

-- A lookup in the maps that a loop over a list fills, from the key of each element to the element and
-- to its index: a later element replaces an earlier one with its key.
unfoldable pub find_last {ℓ} : {A : Type ℓ} → (A → String) → String → ℕ → List A → Option (A × ℕ)
find_last key name i [] = none
find_last key name i (x ∷ xs) = or_else (find_last key name (suc i) xs) (hit (key x == name) x i)
