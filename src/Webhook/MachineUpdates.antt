-- ===== src/Webhook/MachineUpdates.antt =====
-- Which updates of a machine the webhook admits.
use cluster_api_provider_clo.Base.{
  Slice, and-both, String, ◌≡◌, refl, ap, ◌∙◌, ◌↔◌, Bool, true, false, not, Option, none, some,
  List, [], ◌∷◌, ◌==◌, eq_iff,
}
use text.Mathlib.Text.{starts_with}
use cluster_api_provider_clo.Api.Cluster.{name_cloudscale_provider_prefix}
use cluster_api_provider_clo.Api.Machine.{InterfaceSpec, ServerGroupSpec, CloudscaleMachine}
use cluster_api_provider_clo.Sdk.{TagMap}
use cluster_api_provider_clo.Webhook.Field.{FieldPath, FieldError, child, forbidden, report}
use cluster_api_provider_clo.Webhook.Machines.{
  same_text_option, same_interfaces, same_slice, same_group, provider_id_errors, validate_tags,
  validate_machine_spec_update, validate_machine_update, machine_spec_path,
}
use cluster_api_provider_clo.Webhook.Reports.{Says, ◌also◌, report-empty, report_negated}
use cluster_api_provider_clo.Webhook.Same.{text-same, number-same}

-- No key has the reserved prefix.
abbrev pub Unreserved : TagMap → Type 0
Unreserved [] = Unit
Unreserved ((key, value) ∷ rest) =
    (starts_with key name_cloudscale_provider_prefix ≡ false) × Unreserved rest

validate_tags-Unreserved :
    (tags : TagMap) (path : FieldPath) → Says (validate_tags tags path) (Unreserved tags)
unfolding validate_tags
validate_tags-Unreserved [] path = (λ h. tt, λ h. refl)
validate_tags-Unreserved ((key, value) ∷ rest) path =
    report-empty _ _ also validate_tags-Unreserved rest path

-- A provider ID, once set, stays.
abbrev pub OnceSet : Option String → Option String → Type 0
OnceSet new old = (id : String) → old ≡ some id → new ≡ some id

some-injective : {A : Type 0} {a b : A} → some a ≡ some b → a ≡ b
some-injective h = cc

none-some : {A : Type 0} {B : Type 0} {a : A} → none ≡ some a → B
none-some h = cc

cons-nil : {A : Type 0} {B : Type 0} {a : A} {as' : List A} → a ∷ as' ≡ [] → B
cons-nil h = cc

provider_id_errors-OnceSet :
    (new old : Option String) (path : FieldPath)
    → Says (provider_id_errors new old path) (OnceSet new old)
unfolding provider_id_errors
provider_id_errors-OnceSet none none path = (λ h id e. none-some e, λ h. refl)
provider_id_errors-OnceSet (some a) none path = (λ h id e. none-some e, λ h. refl)
provider_id_errors-OnceSet none (some b) path = (λ h. cons-nil h, λ h. none-some (h b refl))
provider_id_errors-OnceSet (some a) (some b) path =
    let rule = text-same a b (forbidden (child path "providerID") "field is immutable once set") in
    (λ h id e. ap some (rule.0 h) ∙ e, λ h. rule.1 (some-injective (h b refl)))

same_text_option-equal : (a b : Option String) → (same_text_option a b ≡ true) ↔ (a ≡ b)
same_text_option-equal none none = (λ h. refl, λ h. refl)
same_text_option-equal none (some b) = (λ h. cc, λ h. cc)
same_text_option-equal (some a) none = (λ h. cc, λ h. cc)
same_text_option-equal (some a) (some b) =
    (λ h. ap some ((eq_iff a b).0 h), λ h. (eq_iff a b).1 (some-injective h))

same_group-equal : (a b : Option ServerGroupSpec) → (same_group a b ≡ true) ↔ (a ≡ b)
same_group-equal none none = (λ h. refl, λ h. refl)
same_group-equal none (some b) = (λ h. cc, λ h. cc)
same_group-equal (some a) none = (λ h. cc, λ h. cc)
same_group-equal (some a) (some b) = (
  λ h. ap (λ n. some (record b { name = n })) ((eq_iff a.name b.name).0 h),
  λ h. (eq_iff a.name b.name).1 (ap (λ g. g.name) (some-injective h)),
)

same_fields :
    (a b : InterfaceSpec)
    → a.type ≡ b.type
    → a.network ≡ b.network
    → a.ip_family ≡ b.ip_family
    → a ≡ b
same_fields a b p q r = λ i. record b { type = p i; network = q i; ip_family = r i }

cons-heads : {A : Type 0} {a b : A} {as' bs : List A} → a ∷ as' ≡ b ∷ bs → a ≡ b
cons-heads h = cc

cons-tails : {A : Type 0} {a b : A} {as' bs : List A} → a ∷ as' ≡ b ∷ bs → as' ≡ bs
cons-tails h = cc

cons-equal : {A : Type 0} {a b : A} {as' bs : List A} → a ≡ b → as' ≡ bs → a ∷ as' ≡ b ∷ bs
cons-equal h k = cc

same_interfaces-equal : (a b : List InterfaceSpec) → (same_interfaces a b ≡ true) ↔ (a ≡ b)
same_interfaces-equal [] [] = (λ h. refl, λ h. refl)
same_interfaces-equal [] (b ∷ bs) = (λ h. cc, λ h. cc)
same_interfaces-equal (a ∷ as') [] = (λ h. cc, λ h. cc)
same_interfaces-equal (a ∷ as') (b ∷ bs) = (
  λ h.
      let all = (and-both _ _).0 h in
      let three = (and-both _ _).0 all.0 in
      let two = (and-both _ _).0 three.0 in
      cons-equal
        (same_fields a b ((eq_iff a.type b.type).0 two.0) ((eq_iff a.network b.network).0 two.1)
          ((same_text_option-equal a.ip_family b.ip_family).0 three.1))
        ((same_interfaces-equal as' bs).0 all.1),
  λ h.
      let same = cons-heads h in
      let two = (and-both (a.type == b.type) (a.network == b.network)).1 (
        (eq_iff a.type b.type).1 (ap (λ i. i.type) same),
        (eq_iff a.network b.network).1 (ap (λ i. i.network) same),
      ) in
      let families =
        (same_text_option-equal a.ip_family b.ip_family).1 (ap (λ i. i.ip_family) same) in
      (and-both _ _).1
        ((and-both _ _).1 (two, families), (same_interfaces-equal as' bs).1 (cons-tails h)),
)

same_slice-equal : (a b : Slice InterfaceSpec) → (same_slice a b ≡ true) ↔ (a ≡ b)
same_slice-equal none none = (λ h. refl, λ h. refl)
same_slice-equal none (some b) = (λ h. cc, λ h. cc)
same_slice-equal (some a) none = (λ h. cc, λ h. cc)
same_slice-equal (some a) (some b) = (
  λ h. ap some ((same_interfaces-equal a b).0 h),
  λ h. (same_interfaces-equal a b).1 (some-injective h),
)

-- An error for what is no longer the same.
by_test {ℓ} : {P : Type ℓ} (b : Bool) (e : FieldError) → (b ≡ true) ↔ P → Says (report (not b) e) P
by_test b e f = (λ h. f.0 ((report_negated b e).0 h), λ k. (report_negated b e).1 (f.1 k))

-- The webhook admits an update exactly where image, flavor, root volume, interfaces (a nil list is not
-- an empty one) and server group stay as they are, a provider ID that was set stays, and no tag of the new spec has the reserved
-- prefix.
pub validate_machine_update-Admits :
    (old new : CloudscaleMachine)
    → Says (validate_machine_update old new) (
        (new.spec.image ≡ old.spec.image)
        × (new.spec.flavor ≡ old.spec.flavor)
        × (new.spec.root_volume_size ≡ old.spec.root_volume_size)
        × OnceSet new.spec.provider_id old.spec.provider_id
        × (new.spec.interfaces ≡ old.spec.interfaces)
        × (new.spec.server_group ≡ old.spec.server_group)
        × Unreserved new.spec.tags)
unfolding validate_machine_update validate_machine_spec_update
validate_machine_update-Admits old new =
    let rules =
      text-same new.spec.image old.spec.image _
      also text-same new.spec.flavor old.spec.flavor _
      also number-same new.spec.root_volume_size old.spec.root_volume_size _
      also provider_id_errors-OnceSet new.spec.provider_id old.spec.provider_id machine_spec_path
      also by_test _ _ (same_slice-equal new.spec.interfaces old.spec.interfaces)
      also by_test _ _ (same_group-equal new.spec.server_group old.spec.server_group)
      also validate_tags-Unreserved new.spec.tags (child machine_spec_path "tags") in
    (
      λ h.
          let ((((((image, flavor), size), id), interfaces), group), tags) = rules.0 h in
          (image, flavor, size, id, interfaces, group, tags),
      λ (image, flavor, size, id, interfaces, group, tags).
          rules.1 ((((((image, flavor), size), id), interfaces), group), tags),
    )
