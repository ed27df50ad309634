-- ===== src/Cluster/Ready.antt =====
-- When a cluster counts as provisioned, and when it is Ready.
use cluster_api_provider_clo.Base.{
  String, ◌≡◌, refl, ◌≢◌, Bool, true, false, ◌&&◌, Option, none, some, List, [], ◌∷◌, arith,
  if◌then◌else◌, ◌<>◌, is_set, is_some, All,
}
use cluster_api_provider_clo.Api.Conditions.{
  condition_true, condition_false, Condition, ConditionsLaws, is_true, ready_condition,
}
use cluster_api_provider_clo.Api.Cluster.{
  RouterInterfaceSpec, RouterSpec, NetworkStatus, RouterInterfaceStatus, RouterStatus,
  CloudscaleCluster, get_interface_status, get_router_status,
}
use cluster_api_provider_clo.Scope.{Scope, Env}
use cluster_api_provider_clo.Cluster.Readiness.{
  networks_provisioned, attached, interfaces_provisioned, router_provisioned, routers_provisioned,
  is_empty_list, is_infrastructure_provisioned, sub_conditions, not_ready, ready_from,
  set_ready_condition,
}
use cluster_api_provider_clo.FloatingIp.Target.{lb_enabled}
use cluster_api_provider_clo.Services.Conditions.{conditions_of, is_true-set_condition}

-- A router of the spec is in the status with its ID, and so is each of its interfaces.
abbrev pub Attached : List RouterInterfaceStatus → RouterInterfaceSpec → Type 0
Attached statuses i =
    (st : RouterInterfaceStatus) × (get_interface_status statuses i.network ≡ some st)
    × (is_set st.interface_id ≡ true)

abbrev pub RouterInPlace : List RouterStatus → RouterSpec → Type 0
RouterInPlace statuses spec =
    (rs : RouterStatus) × (get_router_status statuses spec.name ≡ some rs)
    × (is_set rs.router_id ≡ true)
    × All (Attached rs.interfaces) spec.interfaces

abbrev pub NetworkInPlace : NetworkStatus → Type 0
NetworkInPlace ns = (is_set ns.network_id ≡ true) × (is_set ns.subnet_id ≡ true)

-- What the cluster needs before it counts as provisioned.
pub record InPlace (c : CloudscaleCluster) : Type 0 where
  pub some_network : c.status.networks ≢ []
  pub networks : All NetworkInPlace c.status.networks
  pub routers : All (RouterInPlace c.status.routers) c.spec.routers
  pub load_balancer :
      lb_enabled c.spec ≡ true
      → (is_set c.status.load_balancer_id ≡ true)
        × (is_set c.status.load_balancer_pool_id ≡ true)
        × (is_set c.status.load_balancer_listener_id ≡ true)
  pub floating_ip : is_some c.spec.floating_ip ≡ true → is_set c.status.floating_ip ≡ true
  pub endpoint : is_set c.spec.control_plane_endpoint.host ≡ true

if-both : (b c : Bool) → (if b then c else false) ≡ true → (b ≡ true) × (c ≡ true)
if-both b c h = ground arith

networks-InPlace :
    (ns : List NetworkStatus) → networks_provisioned ns ≡ true → All NetworkInPlace ns
unfolding networks_provisioned
networks-InPlace [] h = tt
networks-InPlace (n ∷ ns) h = ground (arith, networks-InPlace ns)

InPlace-networks :
    (ns : List NetworkStatus) → All NetworkInPlace ns → networks_provisioned ns ≡ true
unfolding networks_provisioned
InPlace-networks [] h = refl
InPlace-networks (n ∷ ns) h = ground (arith, InPlace-networks ns h.1)

attached-some :
    (o : Option RouterInterfaceStatus)
    → attached o ≡ true
    → (st : RouterInterfaceStatus) × (o ≡ some st) × (is_set st.interface_id ≡ true)
unfolding attached
attached-some none h = cc
attached-some (some st) h = (st, refl, h)

some-attached :
    (o : Option RouterInterfaceStatus)
    → (st : RouterInterfaceStatus) × (o ≡ some st) × (is_set st.interface_id ≡ true)
    → attached o ≡ true
unfolding attached
some-attached none (st, e, h) = cc
some-attached (some x) (st, e, h) = ground arith

interfaces-InPlace :
    (statuses : List RouterInterfaceStatus) (is : List RouterInterfaceSpec)
    → interfaces_provisioned statuses is ≡ true
    → All (Attached statuses) is
unfolding interfaces_provisioned
interfaces-InPlace statuses [] h = tt
interfaces-InPlace statuses (i ∷ is) h =
    let both = if-both _ _ h in (attached-some _ both.0, interfaces-InPlace statuses is both.1)

InPlace-interfaces :
    (statuses : List RouterInterfaceStatus) (is : List RouterInterfaceSpec)
    → All (Attached statuses) is
    → interfaces_provisioned statuses is ≡ true
unfolding interfaces_provisioned
InPlace-interfaces statuses [] h = refl
InPlace-interfaces statuses (i ∷ is) h = ground (
  arith,
  some-attached (get_interface_status statuses i.network) h.0,
  InPlace-interfaces statuses is h.1,
)

router-some :
    (spec : RouterSpec) (o : Option RouterStatus)
    → router_provisioned spec o ≡ true
    → (rs : RouterStatus) × (o ≡ some rs)
      × (is_set rs.router_id ≡ true)
      × All (Attached rs.interfaces) spec.interfaces
unfolding router_provisioned
router-some spec none h = cc
router-some spec (some rs) h =
    (rs, refl, ground arith, interfaces-InPlace rs.interfaces spec.interfaces (ground arith))

some-router :
    (spec : RouterSpec) (o : Option RouterStatus) (rs : RouterStatus)
    → o ≡ some rs
    → is_set rs.router_id ≡ true
    → All (Attached rs.interfaces) spec.interfaces
    → router_provisioned spec o ≡ true
unfolding router_provisioned
some-router spec none rs e h a = cc
some-router spec (some x) rs e h a =
    ground (arith, InPlace-interfaces rs.interfaces spec.interfaces a)

routers-InPlace :
    (statuses : List RouterStatus) (specs : List RouterSpec)
    → routers_provisioned statuses specs ≡ true
    → All (RouterInPlace statuses) specs
unfolding routers_provisioned
routers-InPlace statuses [] h = tt
routers-InPlace statuses (spec ∷ specs) h =
    let both = if-both _ _ h in (router-some spec _ both.0, routers-InPlace statuses specs both.1)

InPlace-routers :
    (statuses : List RouterStatus) (specs : List RouterSpec)
    → All (RouterInPlace statuses) specs
    → routers_provisioned statuses specs ≡ true
unfolding routers_provisioned
InPlace-routers statuses [] h = refl
InPlace-routers statuses (spec ∷ specs) ((rs, e, i, a), rest) = ground (
  arith,
  some-router spec (get_router_status statuses spec.name) rs e i a,
  InPlace-routers statuses specs rest,
)

empty-false : {A : Type 0} (xs : List A) → is_empty_list xs ≡ false → xs ≢ []
unfolding is_empty_list
empty-false [] h e = cc
empty-false (x ∷ xs) h e = cc

false-empty : {A : Type 0} (xs : List A) → xs ≢ [] → is_empty_list xs ≡ false
unfolding is_empty_list
false-empty [] h = absurd (h refl)
false-empty (x ∷ xs) h = refl

provisioned-InPlace : (c : CloudscaleCluster) → is_infrastructure_provisioned c ≡ true → InPlace c
unfolding is_infrastructure_provisioned
provisioned-InPlace c h = record {
  some_network = empty-false c.status.networks (ground arith);
  networks = networks-InPlace c.status.networks (ground arith);
  routers = routers-InPlace c.status.routers c.spec.routers (ground arith);
  load_balancer = λ e. (ground arith, ground arith, ground arith);
  floating_ip = λ e. ground arith;
  endpoint = ground arith;
}

InPlace-provisioned : (c : CloudscaleCluster) → InPlace c → is_infrastructure_provisioned c ≡ true
unfolding is_infrastructure_provisioned
InPlace-provisioned c p = ground (
  arith,
  false-empty c.status.networks p.some_network,
  InPlace-networks c.status.networks p.networks,
  InPlace-routers c.status.routers c.spec.routers p.routers,
  p.load_balancer,
  p.floating_ip,
  p.endpoint,
)

-- isInfrastructureProvisioned answers true exactly where the status has a network, every network in
-- it has both IDs, each router of the spec and each of its interfaces has its ID, an enabled load
-- balancer has its load balancer, pool and listener, a floating IP of the spec is there, and the
-- endpoint has a host.
pub is_infrastructure_provisioned-InPlace :
    (c : CloudscaleCluster)
    → (is_infrastructure_provisioned c ≡ true → InPlace c)
      × (InPlace c → is_infrastructure_provisioned c ≡ true)
is_infrastructure_provisioned-InPlace c = (provisioned-InPlace c, InPlace-provisioned c)

module _ {W : Type 0} (env : Env W) (laws : ConditionsLaws env.conditions) where
  -- Whether every one of the conditions is true.
  abbrev pub all_true : List String → List Condition → Bool
  all_true [] cs = true
  all_true (t ∷ ts) cs = is_true env.conditions cs t && all_true ts cs

  not_ready-false :
      (type : String) (c : Option Condition) (s : Scope W)
      → is_true env.conditions (conditions_of env laws (not_ready env type c s)) ready_condition
        ≡ false
  unfolding not_ready
  not_ready-false type none s =
      is_true-set_condition env laws ready_condition condition_false "NotReady"
        ("Waiting for " <> type) s ready_condition
  not_ready-false type (some c) s =
      is_true-set_condition env laws ready_condition condition_false c.reason c.message s
        ready_condition

  pub ready_from-true :
      (types : List String) (s : Scope W)
      → is_true env.conditions (conditions_of env laws (ready_from env types s)) ready_condition
        ≡ all_true types (conditions_of env laws s)
  unfolding ready_from
  ready_from-true [] s =
      is_true-set_condition env laws ready_condition condition_true "Ready" "" s ready_condition
  ready_from-true (t ∷ ts) s = ground (
    arith,
    ready_from-true ts s,
    not_ready-false t (env.conditions.get (conditions_of env laws s) t) s,
  )

  -- setReadyCondition leaves Ready true exactly where all four conditions of the parts are.
  pub set_ready_condition-true :
      (s : Scope W)
      → is_true env.conditions (conditions_of env laws (set_ready_condition env s)) ready_condition
        ≡ all_true sub_conditions (conditions_of env laws s)
  unfolding set_ready_condition
  set_ready_condition-true s = ready_from-true sub_conditions s
