-- ===== src/Router/Interfaces.antt =====
-- reconcileRouterInterfaces and what it calls (internal/controller/cloudscalecluster_router.go).
-- The pointer into the router's status entry is a read of that entry when it is used: no entry is
-- appended to the list in between.
use cluster_api_provider_clo.Base.{
  String, true, false, not, ◌&&◌, Option, none, some, List, [], ◌∷◌, ◌==◌, if◌then◌else◌, ◌<>◌,
  is_set, is_some,
}
use cluster_api_provider_clo.Errors.{plain, quote}
use cluster_api_provider_clo.Api.Cluster.{
  RouterInterfaceSpec, RouterSpec, NetworkStatus, RouterStatus, get_interface_status,
  get_network_status, get_router_status,
}
use cluster_api_provider_clo.Sdk.{
  RouterInterface, Router, CreateInterfaceRequest, Answer, reply, failure, interface_request,
  create_call,
}
use cluster_api_provider_clo.Scope.{
  Scope, Env, CtrlResult, no_requeue, is_zero, Reconcile, ◌>>=◌, ◌>>◌, pure, raise, gets, call,
  deref, modify, emit, requeue_or_raise,
}
use cluster_api_provider_clo.Network.Status.{networks_of}
use cluster_api_provider_clo.Router.Status.{
  router_requeue_after, index_by, interface_address, routers_of, write_interface,
}

module _ {W : Type 0} (env : Env W) where
  unfoldable pub adopt_found :
      RouterSpec
      → RouterInterfaceSpec
      → NetworkStatus
      → Option RouterInterface
      → Reconcile W CtrlResult
  unfolding write_interface ◌>>=◌
  adopt_found router_spec iface_spec ns none = raise (
      plain (
        "router "
        <> quote router_spec.name
        <> " has no interface "
        <> iface_spec.uuid
        <> " to adopt, it may have been detached outside of CAPCS"))
  adopt_found router_spec iface_spec ns (some live) =
      if live.network == ns.network_id
      then (write_interface router_spec.name ns.name live.uuid false >> pure no_requeue)
      else raise (
          plain (
            "router "
            <> quote router_spec.name
            <> " interface "
            <> iface_spec.uuid
            <> " is attached to network "
            <> live.network
            <> ", not to network "
            <> quote iface_spec.network
            <> " ("
            <> ns.network_id
            <> ")"))

  unfoldable pub adopt_router_interface :
      RouterSpec → Router → RouterInterfaceSpec → NetworkStatus → Reconcile W CtrlResult
  unfolding adopt_found index_by
  adopt_router_interface router_spec router iface_spec ns =
      adopt_found router_spec iface_spec ns
        (index_by (λ (i : RouterInterface). i.uuid) router.interfaces iface_spec.uuid)

  -- The warning of an interface that holds another address than the spec asks for.
  unfoldable pub note_mismatch : RouterSpec → RouterInterfaceSpec → String → Scope W → Scope W
  note_mismatch router_spec iface_spec address = emit "RouterInterfaceAddressMismatch" (
      "Router "
      <> router_spec.name
      <> " is attached to network "
      <> iface_spec.network
      <> " at "
      <> quote address
      <> ", not at the requested "
      <> quote iface_spec.address
      <> ", which therefore has no effect")

  unfoldable pub claim_as_ours :
      RouterSpec → RouterInterfaceSpec → NetworkStatus → RouterInterface → Reconcile W CtrlResult
  unfolding write_interface interface_address note_mismatch ◌>>=◌
  claim_as_ours router_spec iface_spec ns live = do
    let address = interface_address live.addresses ns.subnet_id
    changed ← write_interface router_spec.name ns.name live.uuid true
    modify λ s.
        if changed && not (address == iface_spec.address)
        then note_mismatch router_spec iface_spec address s
        else s
    pure no_requeue

  unfoldable pub claim_router_interface :
      RouterSpec → RouterInterfaceSpec → NetworkStatus → RouterInterface → Reconcile W CtrlResult
  unfolding claim_as_ours get_router_status get_interface_status ◌>>=◌
  claim_router_interface router_spec iface_spec ns live = do
    found ← gets (λ s. get_router_status (routers_of s) router_spec.name)
    rs ← deref found
    if not (is_some (get_interface_status rs.interfaces ns.name)) && not rs.managed
        then raise (
            plain (
              "pre-existing router "
              <> quote router_spec.name
              <> " is already attached to network "
              <> quote iface_spec.network
              <> " by interface "
              <> live.uuid
              <> ": set spec.routers[].interfaces[].uuid to adopt that interface, or detach it"))
        else claim_as_ours router_spec iface_spec ns live

  unfoldable pub interface_created :
      RouterSpec
      → RouterInterfaceSpec
      → NetworkStatus
      → Answer RouterInterface
      → Reconcile W CtrlResult
  unfolding write_interface requeue_or_raise ◌>>=◌
  interface_created router_spec iface_spec ns (reply created) = do
    write_interface router_spec.name ns.name created.uuid true
    modify (
        emit "RouterInterfaceCreated" (
          "Attached router " <> router_spec.name <> " to network " <> iface_spec.network
          <> " with address " <> iface_spec.address))
    pure no_requeue
  interface_created router_spec iface_spec ns (failure e) =
      requeue_or_raise router_requeue_after
        ("creating interface for router "
          <> quote router_spec.name
          <> " network "
          <> quote iface_spec.network)
        e

  abbrev pub interface_request_of : RouterInterfaceSpec → NetworkStatus → CreateInterfaceRequest
  interface_request_of iface_spec ns = record {
    network = ns.network_id;
    addresses = record { subnet = ns.subnet_id; address = iface_spec.address } ∷ [];
  }

  unfoldable pub create_router_interface :
      RouterSpec → Router → RouterInterfaceSpec → NetworkStatus → Reconcile W CtrlResult
  unfolding write_interface interface_created ◌>>=◌
  create_router_interface router_spec router iface_spec ns = do
    write_interface router_spec.name ns.name "" true
    let req = interface_request_of iface_spec ns
    answer ←
        call (create_call (interface_request router.uuid req))
          (env.client.create_interface router.uuid req)
    interface_created router_spec iface_spec ns answer

  -- The cases of the switch below the one on the interface's UUID.
  unfoldable pub claim_or_create :
      RouterSpec
      → Router
      → RouterInterfaceSpec
      → NetworkStatus
      → Option RouterInterface
      → Reconcile W CtrlResult
  unfolding claim_router_interface create_router_interface
  claim_or_create router_spec router iface_spec ns (some live) =
      claim_router_interface router_spec iface_spec ns live
  claim_or_create router_spec router iface_spec ns none =
      create_router_interface router_spec router iface_spec ns

  unfoldable pub reconcile_interface_on :
      RouterSpec → Router → RouterInterfaceSpec → Option NetworkStatus → Reconcile W CtrlResult
  unfolding adopt_router_interface claim_or_create index_by
  reconcile_interface_on router_spec router iface_spec none = raise (
      plain (
        "network "
        <> quote iface_spec.network
        <> " not found in status for router "
        <> quote router_spec.name
        <> " interface"))
  reconcile_interface_on router_spec router iface_spec (some ns) =
      if is_set iface_spec.uuid
      then adopt_router_interface router_spec router iface_spec ns
      else claim_or_create router_spec router iface_spec ns
          (index_by (λ (i : RouterInterface). i.network) router.interfaces ns.network_id)

  unfoldable pub reconcile_interface :
      RouterSpec → Router → RouterInterfaceSpec → Reconcile W CtrlResult
  unfolding reconcile_interface_on get_network_status ◌>>=◌
  reconcile_interface router_spec router iface_spec = do
    ns ← gets (λ s. get_network_status (networks_of s) iface_spec.network)
    reconcile_interface_on router_spec router iface_spec ns

  unfoldable pub reconcile_interfaces :
      RouterSpec → Router → List RouterInterfaceSpec → Reconcile W CtrlResult
  unfolding reconcile_interface ◌>>=◌
  reconcile_interfaces router_spec router [] = pure no_requeue
  reconcile_interfaces router_spec router (i ∷ rest) = do
    result ← reconcile_interface router_spec router i
    if is_zero result then reconcile_interfaces router_spec router rest else pure result

  unfoldable pub interfaces_of_found :
      RouterSpec → Router → Option RouterStatus → Reconcile W CtrlResult
  unfolding reconcile_interfaces
  interfaces_of_found router_spec router none =
      raise (plain ("router " <> quote router_spec.name <> " not found in status"))
  interfaces_of_found router_spec router (some rs) =
      reconcile_interfaces router_spec router router_spec.interfaces

  unfoldable pub reconcile_router_interfaces : RouterSpec → Router → Reconcile W CtrlResult
  unfolding interfaces_of_found get_router_status ◌>>=◌
  reconcile_router_interfaces router_spec router = do
    rs ← gets (λ s. get_router_status (routers_of s) router_spec.name)
    interfaces_of_found router_spec router rs
