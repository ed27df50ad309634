-- ===== src/Webhook/Networks.antt =====
-- The rules for networks (internal/webhook/v1beta2/cloudscalecluster_webhook.go).
use cluster_api_provider_clo.Base.{
  ℕ, String, not, ◌&&◌, Option, none, some, List, [], ◌∷◌, ◌++◌, suc, ◌==◌, eqb, eq_bool, is_set,
  if◌then◌else◌, ◌<>◌,
}
use cluster_api_provider_clo.Errors.{error_text, quote}
use cluster_api_provider_clo.Sdk.{Answer, reply, failure}
use cluster_api_provider_clo.Api.Cluster.{NetworkSpec}
use cluster_api_provider_clo.Webhook.Field.{
  FieldPath, child, at_index, FieldError, duplicate, invalid, not_found, forbidden, report, NetIp,
  has_name, find_last,
}

abbrev pub immutable_text : String
immutable_text = "field is immutable after cluster creation"

module _ (ip : NetIp) where
  unfoldable pub address_in_prefix :
      String → ip.Prefix → String → Answer ip.Addr → FieldPath → List FieldError
  unfolding error_text
  address_in_prefix cidr prefix address (failure e) path =
      invalid path address ("invalid IP address: " <> error_text e) ∷ []
  address_in_prefix cidr prefix address (reply a) path =
      report (not (ip.contains prefix a)) (invalid path address ("must be within CIDR " <> cidr))

  unfoldable pub address_in_cidr : String → Answer ip.Prefix → String → FieldPath → List FieldError
  unfolding address_in_prefix
  address_in_cidr cidr (failure e) address path = []
  address_in_cidr cidr (reply prefix) address path =
      address_in_prefix cidr prefix address (ip.parse_addr address) path

  unfoldable pub validate_address_in_cidr : String → String → FieldPath → List FieldError
  unfolding address_in_cidr
  validate_address_in_cidr cidr address path =
      address_in_cidr cidr (ip.parse_prefix cidr) address path

  -- The error of a CIDR that does not parse.
  unfoldable pub cidr_errors : String → Answer ip.Prefix → FieldPath → List FieldError
  unfolding error_text
  cidr_errors cidr (reply prefix) path = []
  cidr_errors cidr (failure e) path = invalid path cidr ("invalid CIDR: " <> error_text e) ∷ []

  -- One turn of the loop of validateNetworks, with the names before.
  unfoldable pub validate_network : List String → FieldPath → NetworkSpec → List FieldError
  unfolding has_name cidr_errors validate_address_in_cidr
  validate_network names path n =
      report (has_name names n.name) (duplicate (child path "name") n.name)
      ++ report (eq_bool (is_set n.uuid) (is_set n.cidr))
          (invalid path n.name "exactly one of uuid or cidr must be specified")
      ++ (if is_set n.cidr
          then cidr_errors n.cidr (ip.parse_prefix n.cidr) (child path "cidr")
          else [])
      ++ report (is_set n.gateway_address && not (is_set n.cidr)) (
          invalid (child path "gatewayAddress") n.gateway_address
            "gatewayAddress can only be set when cidr is specified")
      ++ (if is_set n.gateway_address && is_set n.cidr
          then validate_address_in_cidr n.cidr n.gateway_address (child path "gatewayAddress")
          else [])

  unfoldable pub networks_from : List String → ℕ → FieldPath → List NetworkSpec → List FieldError
  unfolding validate_network
  networks_from names i path [] = []
  networks_from names i path (n ∷ rest) =
      validate_network names (at_index path i) n ++ networks_from (n.name ∷ names) (suc i) path rest

  unfoldable pub validate_networks : List NetworkSpec → FieldPath → List FieldError
  unfolding networks_from
  validate_networks networks path = networks_from [] 0 path networks

unfoldable pub validate_network_reference : String → List NetworkSpec → FieldPath → List FieldError
validate_network_reference name [] path = not_found path name ∷ []
validate_network_reference name (n ∷ rest) path =
    if n.name == name then [] else validate_network_reference name rest path

abbrev pub network_name : NetworkSpec → String
network_name n = n.name

-- What a network of the old spec must find in the new one.
unfoldable pub network_unchanged :
    FieldPath → NetworkSpec → Option (NetworkSpec × ℕ) → List FieldError
network_unchanged path old none =
    forbidden path ("removing network " <> quote old.name <> " is not allowed") ∷ []
network_unchanged path old (some (new, i)) =
    report (not (new.cidr == old.cidr)) (forbidden (child (at_index path i) "cidr") immutable_text)
    ++ report (not (new.uuid == old.uuid))
        (forbidden (child (at_index path i) "uuid") immutable_text)
    ++ report (not (eqb new.mtu old.mtu)) (forbidden (child (at_index path i) "mtu") immutable_text)
    ++ report (not (new.gateway_address == old.gateway_address))
        (forbidden (child (at_index path i) "gatewayAddress") immutable_text)

unfoldable pub validate_network_immutability :
    List NetworkSpec → List NetworkSpec → FieldPath → List FieldError
unfolding network_unchanged find_last
validate_network_immutability [] new path = []
validate_network_immutability (old ∷ rest) new path =
    network_unchanged path old (find_last network_name old.name 0 new)
    ++ validate_network_immutability rest new path
