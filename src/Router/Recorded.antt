-- ===== src/Router/Recorded.antt =====
-- An attach that may have happened is on record, whatever became of the request.
use cluster_api_provider_clo.Base.{
  String, ◌≡◌, Bool, true, false, Option, none, some, List, [], ◌∷◌, arith, eq_refl, is_some,
}
use cluster_api_provider_clo.Api.Cluster.{
  RouterInterfaceSpec, RouterSpec, NetworkStatus, RouterInterfaceStatus, RouterStatus,
  get_interface_status, get_router_status,
}
use cluster_api_provider_clo.Sdk.{
  RouterInterface, Router, Answer, reply, failure, interface_request, create_call,
}
use cluster_api_provider_clo.Scope.{Scope, Env, ◌>>=◌, call}
use cluster_api_provider_clo.Router.Interfaces.{
  interface_created, interface_request_of, create_router_interface,
}
use cluster_api_provider_clo.Router.Status.{
  upsert_interface, set_router_interface_status, routers_of, write_interface,
}

abbrev managed_entry : Option RouterInterfaceStatus → Bool
managed_entry none = false
managed_entry (some i) = i.managed

-- Whether the router has an entry, and that a managed entry for its interface on the network.
abbrev pub records_managed : Option RouterStatus → String → Bool
records_managed none network = false
records_managed (some rs) network = managed_entry (get_interface_status rs.interfaces network)

upsert-managed :
    (network id : String) (is : List RouterInterfaceStatus)
    → managed_entry (get_interface_status (upsert_interface network id true is).0 network) ≡ true
unfolding upsert_interface get_interface_status
upsert-managed network id [] = ground (arith, eq_refl network)
upsert-managed network id (i ∷ is) = ground (arith, upsert-managed network id is)

set-managed :
    (router network id : String) (rs : List RouterStatus)
    → is_some (get_router_status rs router) ≡ true
    → records_managed
        (get_router_status (set_router_interface_status router network id true rs).0 router)
        network
      ≡ true
unfolding set_router_interface_status get_router_status
set-managed router network id [] h = cc
set-managed router network id (r ∷ rs) h =
    ground (arith, upsert-managed network id r.interfaces, set-managed router network id rs)

set-is_some :
    (router network id : String) (rs : List RouterStatus)
    → is_some (get_router_status rs router) ≡ true
    → is_some (get_router_status (set_router_interface_status router network id true rs).0 router)
      ≡ true
unfolding set_router_interface_status get_router_status
set-is_some router network id [] h = cc
set-is_some router network id (r ∷ rs) h = ground (arith, set-is_some router network id rs)

module _ {W : Type 0} (env : Env W) where
  abbrev OnRecord : RouterSpec → NetworkStatus → List RouterStatus → Type 0
  OnRecord spec ns rs = records_managed (get_router_status rs spec.name) ns.name ≡ true

  created-OnRecord :
      (spec : RouterSpec) (iface : RouterInterfaceSpec) (ns : NetworkStatus)
      (a : Answer RouterInterface) (s : Scope W)
      → is_some (get_router_status (routers_of s) spec.name) ≡ true
      → OnRecord spec ns (routers_of s)
      → OnRecord spec ns (routers_of (interface_created env spec iface ns a s).1)
  unfolding interface_created write_interface ◌>>=◌
  created-OnRecord spec iface ns (reply i) s h r =
      set-managed spec.name ns.name i.uuid (routers_of s) h
  created-OnRecord spec iface ns (failure e) s h r = ground arith

  -- Whatever the API answers to the attach, createRouterInterface leaves a managed entry for the
  -- interface in the router's entry, if the router has one.
  pub create_router_interface-recorded :
      (spec : RouterSpec) (router : Router) (iface : RouterInterfaceSpec) (ns : NetworkStatus)
      (s : Scope W)
      → is_some (get_router_status (routers_of s) spec.name) ≡ true
      → records_managed
          (get_router_status
            (routers_of (create_router_interface env spec router iface ns s).1)
            spec.name)
          ns.name
        ≡ true
  unfolding create_router_interface write_interface ◌>>=◌
  create_router_interface-recorded spec router iface ns s h =
      let started = (write_interface spec.name ns.name "" true s).1 in
      let req = interface_request_of env iface ns in
      let sent =
        call (create_call (interface_request router.uuid req))
          (env.client.create_interface router.uuid req) started in
      created-OnRecord spec iface ns (env.client.create_interface router.uuid req started.world).0
        sent.1 (set-is_some spec.name ns.name "" (routers_of s) h)
        (set-managed spec.name ns.name "" (routers_of s) h)
