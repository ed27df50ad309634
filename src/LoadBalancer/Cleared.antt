-- ===== src/LoadBalancer/Cleared.antt =====
-- What deleteLoadBalancer does to the scope.
use cluster_api_provider_clo.Base.{
  String, ◌≡◌, refl, ap, ◌∙◌, true, Option, none, some, List, [], arith,
}
use cluster_api_provider_clo.Errors.{Error}
use cluster_api_provider_clo.Api.Conditions.{Condition}
use cluster_api_provider_clo.Api.Cluster.{CloudscaleClusterStatus, CloudscaleCluster}
use cluster_api_provider_clo.Scope.{
  Scope, Env, Outcome, ok, err, panic, error_of, Reconcile, continue, ◌>>=◌, modify, set_condition,
}
use cluster_api_provider_clo.FloatingIp.Target.{lb_enabled}
use cluster_api_provider_clo.LoadBalancer.Removal.{
  clear_load_balancer, delete_recorded_lb, delete_load_balancer_condition,
  delete_enabled_load_balancer, delete_load_balancer,
}

-- The load balancer, its pool, listener and health monitor, and the members of the pool, by ID.
abbrev pub LbParts : Type 0
LbParts = String × String × String × String × List String

abbrev pub lb_parts : CloudscaleClusterStatus → LbParts
lb_parts st = (
  st.load_balancer_id, st.load_balancer_pool_id, st.load_balancer_listener_id,
  st.load_balancer_health_monitor_id, st.load_balancer_member_ids,
)

abbrev pub no_parts : LbParts
no_parts = ("", "", "", "", [])

module _ {W : Type 0} (env : Env W) where
  lb_parts-condition :
      (e : Option Error) (s : Scope W)
      → lb_parts (delete_load_balancer_condition env e s).cluster.status ≡ lb_parts s.cluster.status
  unfolding delete_load_balancer_condition set_condition
  lb_parts-condition none s = refl
  lb_parts-condition (some e) s = refl

  -- What follows the call, by what it returned.
  abbrev clear_after : Outcome (Unit {0}) → Reconcile W (Unit {0})
  clear_after r = continue r (λ _. modify (clear_load_balancer env))

  clear_after-cleared :
      (r : Outcome (Unit {0})) (s : Scope W) (a : Unit {0})
      → (clear_after r s).0 ≡ ok a
      → lb_parts (clear_after r s).1.cluster.status ≡ no_parts
  clear_after-cleared (ok u) s a h = refl
  clear_after-cleared (err e) s a h = cc
  clear_after-cleared panic s a h = cc

  enabled-cleared :
      (s : Scope W) (a : Unit {0})
      → (delete_enabled_load_balancer env s).0 ≡ ok a
      → lb_parts (delete_enabled_load_balancer env s).1.cluster.status ≡ no_parts
  unfolding delete_enabled_load_balancer ◌>>=◌
  enabled-cleared s a h =
      let sent = delete_recorded_lb env s.cluster.status.load_balancer_id s in
      let run = clear_after sent.0 sent.1 in
      lb_parts-condition (error_of run.0) run.1 ∙ clear_after-cleared sent.0 sent.1 a h

  -- Where deleteLoadBalancer returns no error and the load balancer is enabled, the status names no
  -- load balancer, pool, listener, health monitor or member any more.
  pub delete_load_balancer-cleared :
      (s : Scope W) (a : Unit {0})
      → lb_enabled s.cluster.spec ≡ true
      → (delete_load_balancer env s).0 ≡ ok a
      → lb_parts (delete_load_balancer env s).1.cluster.status ≡ no_parts
  unfolding delete_load_balancer ◌>>=◌
  delete_load_balancer-cleared s a o h = ground (arith, enabled-cleared s a)

  module _ {X : Type 0} (g : CloudscaleCluster → X)
      (stable : (c : CloudscaleCluster) (lb pool listener monitor : String) (members : List String)
          (cs : List Condition)
        → g (record c {
          status = record c.status {
            load_balancer_id = lb;
            load_balancer_pool_id = pool;
            load_balancer_listener_id = listener;
            load_balancer_health_monitor_id = monitor;
            load_balancer_member_ids = members;
            conditions = cs;
          };
        })
          ≡ g c) where
    stable-conditions :
        (c : CloudscaleCluster) (cs : List Condition)
        → g (record c { status = record c.status { conditions = cs } }) ≡ g c
    stable-conditions c cs = stable c _ _ _ _ _ cs

    stable-condition :
        (e : Option Error) (s : Scope W)
        → g (delete_load_balancer_condition env e s).cluster ≡ g s.cluster
    unfolding delete_load_balancer_condition set_condition
    stable-condition none s = stable-conditions s.cluster _
    stable-condition (some e) s = stable-conditions s.cluster _

    cluster-recorded :
        (id : String) (s : Scope W) → (delete_recorded_lb env id s).1.cluster ≡ s.cluster
    unfolding delete_recorded_lb
    cluster-recorded id s = ground arith

    stable-clear :
        (r : Outcome (Unit {0})) (s : Scope W) → g (clear_after r s).1.cluster ≡ g s.cluster
    stable-clear (ok u) s = stable s.cluster "" "" "" "" [] s.cluster.status.conditions
    stable-clear (err e) s = refl
    stable-clear panic s = refl

    stable-enabled : (s : Scope W) → g (delete_enabled_load_balancer env s).1.cluster ≡ g s.cluster
    unfolding delete_enabled_load_balancer ◌>>=◌
    stable-enabled s =
        let sent = delete_recorded_lb env s.cluster.status.load_balancer_id s in
        let run = clear_after sent.0 sent.1 in
        stable-condition (error_of run.0) run.1
        ∙ stable-clear sent.0 sent.1
        ∙ ap g (cluster-recorded s.cluster.status.load_balancer_id s)

    -- deleteLoadBalancer changes nothing but the load balancer's parts and the conditions.
    pub delete_load_balancer-Keeps :
        (s : Scope W) → g (delete_load_balancer env s).1.cluster ≡ g s.cluster
    unfolding delete_load_balancer ◌>>=◌
    delete_load_balancer-Keeps s = ground (arith, stable-enabled s)
