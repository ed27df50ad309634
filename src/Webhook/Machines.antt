-- ===== src/Webhook/Machines.antt =====
-- The webhook of a machine (internal/webhook/v1beta2/cloudscalemachine_validation.go and
-- cloudscalemachine_webhook.go), and the flavors that it knows (internal/cloudscale/flavors.go).
use text.Mathlib.Text.{starts_with}
use cluster_api_provider_clo.Base.{
  ℕ, String, Bool, true, false, not, ◌&&◌, Option, none, some, List, [], ◌∷◌, ◌++◌, suc, ◌==◌, eqb,
  ltb, eq_bool, is_set, is_some, deref_or, if◌then◌else◌, ◌<>◌, Slice, items,
}
use cluster_api_provider_clo.Api.Cluster.{name_cloudscale_provider_prefix, ip_family_dual_stack}
use cluster_api_provider_clo.Api.Machine.{
  InterfaceSpec, ServerGroupSpec, CloudscaleMachineSpec, CloudscaleMachine,
}
use cluster_api_provider_clo.Sdk.{TagMap}
use cluster_api_provider_clo.Webhook.Field.{
  FieldPath, child_step, child, at_index, at_key, FieldError, invalid, forbidden, too_many, report,
}

-- cloudscalesdk.Flavor, with the fields that the program reads; `gpu` is GPU.Count.
pub record Flavor : Type 0 where
  pub slug : String
  pub vcpu_count : ℕ
  pub memory_gb : ℕ
  pub gpu : Option ℕ

-- FlavorInfo: the flavors in the order in which NewFlavorInfo writes them to its map.
abbrev pub FlavorInfo : Type 0
FlavorInfo = List Flavor

-- IsValidFlavor
unfoldable pub is_valid_flavor : FlavorInfo → String → Bool
is_valid_flavor [] slug = false
is_valid_flavor (f ∷ rest) slug = if f.slug == slug then true else is_valid_flavor rest slug

abbrev pub public_type : String
public_type = "public"

-- defaultInterfaceIPFamily
unfoldable pub default_interface_ip_family : List InterfaceSpec → List InterfaceSpec
default_interface_ip_family [] = []
default_interface_ip_family (i ∷ rest) =
    (if (i.type == public_type) && not (is_some i.ip_family)
      then record i { ip_family = some ip_family_dual_stack }
      else i)
    ∷ default_interface_ip_family rest

-- Default, which writes to the elements of the slice.
abbrev pub each_interface : Slice InterfaceSpec → Slice InterfaceSpec
unfolding default_interface_ip_family
each_interface none = none
each_interface (some interfaces) = some (default_interface_ip_family interfaces)

unfoldable pub default_machine : CloudscaleMachine → CloudscaleMachine
unfolding default_interface_ip_family
default_machine m = record m {
  spec = record m.spec { interfaces = each_interface m.spec.interfaces };
}

unfoldable pub validate_tags : TagMap → FieldPath → List FieldError
validate_tags [] path = []
validate_tags ((key, value) ∷ rest) path =
    report (starts_with key name_cloudscale_provider_prefix) (
      forbidden (at_key path key)
        ("tag key prefix " <> name_cloudscale_provider_prefix <> " is reserved for internal use"))
    ++ validate_tags rest path

-- One turn of the loop of validateInterfaces.
unfoldable pub validate_interface : FieldPath → InterfaceSpec → List FieldError
validate_interface path iface =
    report (eq_bool (is_set iface.type) (is_set iface.network))
      (invalid path "" "exactly one of type or network must be specified")
    ++ report (is_some iface.ip_family && not (iface.type == public_type)) (
        invalid (child path "ipFamily") (deref_or iface.ip_family "")
          "ipFamily can only be set on public interfaces (type: public)")

unfoldable pub interface_errors_from : ℕ → FieldPath → List InterfaceSpec → List FieldError
unfolding validate_interface
interface_errors_from i path [] = []
interface_errors_from i path (iface ∷ rest) =
    validate_interface (at_index path i) iface ++ interface_errors_from (suc i) path rest

unfoldable pub public_count : List InterfaceSpec → ℕ
public_count [] = 0
public_count (iface ∷ rest) =
    let later = public_count rest in if iface.type == public_type then suc later else later

unfoldable pub validate_interfaces : List InterfaceSpec → FieldPath → List FieldError
unfolding interface_errors_from public_count
validate_interfaces interfaces path =
    interface_errors_from 0 path interfaces
    ++ report (ltb 1 (public_count interfaces)) (too_many path (public_count interfaces) 1)

unfoldable pub validate_flavor : Option FlavorInfo → String → FieldPath → List FieldError
unfolding is_valid_flavor
validate_flavor none flavor path = []
validate_flavor (some info) flavor path =
    report (not (is_valid_flavor info flavor))
      (invalid (child path "flavor") flavor "unknown flavor")

unfoldable pub validate_machine_spec :
    CloudscaleMachineSpec → Option FlavorInfo → FieldPath → List FieldError
unfolding validate_flavor validate_tags validate_interfaces
validate_machine_spec spec info path =
    validate_flavor info spec.flavor path
    ++ validate_tags spec.tags (child path "tags")
    ++ validate_interfaces (items spec.interfaces) (child path "interfaces")

-- reflect.DeepEqual on the interfaces, where a nil slice is not an empty one, and on the server group.
abbrev pub same_text_option : Option String → Option String → Bool
same_text_option none none = true
same_text_option (some a) (some b) = a == b
same_text_option _ _ = false

abbrev pub same_interfaces : List InterfaceSpec → List InterfaceSpec → Bool
same_interfaces [] [] = true
same_interfaces (a ∷ as') (b ∷ bs) =
    (a.type == b.type)
    && (a.network == b.network)
    && same_text_option a.ip_family b.ip_family
    && same_interfaces as' bs
same_interfaces _ _ = false

abbrev pub same_slice : Slice InterfaceSpec → Slice InterfaceSpec → Bool
same_slice none none = true
same_slice (some a) (some b) = same_interfaces a b
same_slice _ _ = false

abbrev pub same_group : Option ServerGroupSpec → Option ServerGroupSpec → Bool
same_group none none = true
same_group (some a) (some b) = a.name == b.name
same_group _ _ = false

unfoldable pub provider_id_errors : Option String → Option String → FieldPath → List FieldError
provider_id_errors new none path = []
provider_id_errors none (some old) path =
    forbidden (child path "providerID") "field is immutable once set" ∷ []
provider_id_errors (some new) (some old) path =
    report (not (new == old)) (forbidden (child path "providerID") "field is immutable once set")

unfoldable pub validate_machine_spec_update :
    CloudscaleMachineSpec → CloudscaleMachineSpec → FieldPath → List FieldError
unfolding provider_id_errors validate_tags
validate_machine_spec_update new old path =
    report (not (new.image == old.image)) (forbidden (child path "image") "field is immutable")
    ++ report (not (new.flavor == old.flavor))
        (forbidden (child path "flavor") "field is immutable")
    ++ report (not (eqb new.root_volume_size old.root_volume_size))
        (forbidden (child path "rootVolumeSize") "field is immutable")
    ++ provider_id_errors new.provider_id old.provider_id path
    ++ report (not (same_slice new.interfaces old.interfaces))
        (forbidden (child path "interfaces") "field is immutable")
    ++ report (not (same_group new.server_group old.server_group))
        (forbidden (child path "serverGroup") "field is immutable")
    ++ validate_tags new.tags (child path "tags")

abbrev pub machine_spec_path : FieldPath
machine_spec_path = child_step "spec" ∷ []

-- ValidateCreate, ValidateUpdate and ValidateDelete: the errors of the rejection; none is admission.
unfoldable pub validate_machine_create : Option FlavorInfo → CloudscaleMachine → List FieldError
unfolding validate_machine_spec
validate_machine_create info m = validate_machine_spec m.spec info machine_spec_path

unfoldable pub validate_machine_update : CloudscaleMachine → CloudscaleMachine → List FieldError
unfolding validate_machine_spec_update
validate_machine_update old new = validate_machine_spec_update new.spec old.spec machine_spec_path

unfoldable pub validate_machine_delete : CloudscaleMachine → List FieldError
validate_machine_delete m = []
