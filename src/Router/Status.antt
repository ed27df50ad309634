-- ===== src/Router/Status.antt =====
-- The router entries of the status, and the index of a router's live interfaces
-- (internal/controller/cloudscalecluster_router.go).
use cluster_api_provider_clo.Base.{
  ℕ, String, Bool, true, false, ◌&&◌, Option, none, some, List, [], ◌∷◌, ◌==◌, if◌then◌else◌,
  eq_bool, ◌<>◌,
}
use cluster_api_provider_clo.Errors.{or_else}
use cluster_api_provider_clo.Api.Cluster.{
  RouterSpec, RouterInterfaceStatus, RouterStatus, name_cloudscale_provider_owned,
}
use cluster_api_provider_clo.Sdk.{TagMap, InterfaceAddress}
use cluster_api_provider_clo.Scope.{Scope, ok, Reconcile, update_status}

abbrev pub router_requeue_after : ℕ
router_requeue_after = 5

unfoldable pub set_router_status : RouterSpec → String → List RouterStatus → List RouterStatus
set_router_status spec router_id [] =
    record { name = spec.name; router_id = router_id; interfaces = []; managed = spec.uuid == "" }
    ∷ []
set_router_status spec router_id (r ∷ rest) =
    if r.name == spec.name
    then record r { router_id = router_id; managed = spec.uuid == "" } ∷ rest
    else r ∷ set_router_status spec router_id rest

-- The entry of an interface, updated or appended, and whether that changed anything.
unfoldable pub upsert_interface :
    String → String → Bool → List RouterInterfaceStatus → List RouterInterfaceStatus × Bool
upsert_interface network_name interface_id managed [] =
    (record { network = network_name; interface_id = interface_id; managed = managed } ∷ [], true)
upsert_interface network_name interface_id managed (i ∷ rest) =
    let later = upsert_interface network_name interface_id managed rest in
    if i.network == network_name
    then if (i.interface_id == interface_id) && eq_bool i.managed managed
      then (i ∷ rest, false)
      else (record i { interface_id = interface_id; managed = managed } ∷ rest, true)
    else (i ∷ later.0, later.1)

unfoldable pub set_router_interface_status :
    String → String → String → Bool → List RouterStatus → List RouterStatus × Bool
unfolding upsert_interface
set_router_interface_status router_name network_name interface_id managed [] = ([], false)
set_router_interface_status router_name network_name interface_id managed (r ∷ rest) =
    let later = set_router_interface_status router_name network_name interface_id managed rest in
    let updated = upsert_interface network_name interface_id managed r.interfaces in
    if r.name == router_name
    then (record r { interfaces = updated.0 } ∷ rest, updated.1)
    else (r ∷ later.0, later.1)

-- What a Go map filled in the order of the list holds at a key: the last element with that key.
unfoldable pub index_by {ℓ} : {A : Type ℓ} → (A → String) → List A → String → Option A
index_by key [] k = none
index_by key (x ∷ xs) k = or_else (index_by key xs k) (if key x == k then some x else none)

unfoldable pub interface_address : List InterfaceAddress → String → String
interface_address [] subnet_id = ""
interface_address (a ∷ rest) subnet_id =
    if a.subnet == subnet_id then a.address else interface_address rest subnet_id

unfoldable pub has_managed_interface : List RouterInterfaceStatus → Bool
has_managed_interface [] = false
has_managed_interface (i ∷ rest) = if i.managed then true else has_managed_interface rest

module _ {W : Type 0} where
  abbrev pub routers_of : Scope W → List RouterStatus
  routers_of s = s.cluster.status.routers

  abbrev pub put_routers : List RouterStatus → Scope W → Scope W
  put_routers rs = update_status λ st. record st { routers = rs }

  -- The call r.setRouterInterfaceStatus(clusterScope, ...).
  unfoldable pub write_interface : String → String → String → Bool → Reconcile W Bool
  unfolding set_router_interface_status
  write_interface router_name network_name interface_id managed s =
      let (routers, changed) =
        set_router_interface_status router_name network_name interface_id managed (routers_of s) in
      (ok changed, put_routers routers s)

  unfoldable pub router_tags : Scope W → String → TagMap
  router_tags s router_name = (name_cloudscale_provider_owned <> s.owner.name, router_name) ∷ []
