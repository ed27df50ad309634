-- ===== src/LoadBalancer/Provision.antt =====
-- reconcileLoadBalancer (internal/controller/cloudscalecluster_loadbalancer.go).
use cluster_api_provider_clo.Base.{
  String, Bool, true, false, not, Option, none, some, List, [], ◌∷◌, ◌==◌, if◌then◌else◌, ◌<>◌,
  decimal, is_some,
}
use cluster_api_provider_clo.Errors.{error_text}
use cluster_api_provider_clo.Api.Conditions.{
  condition_true, condition_false, load_balancer_ready_condition,
}
use cluster_api_provider_clo.Sdk.{
  LoadBalancer, LoadBalancerPoolMember, Answer, reply, failure, Resource, get_call, list_call,
}
use cluster_api_provider_clo.Scope.{
  Scope, Env, Outcome, ok, err, panic, CtrlResult, no_requeue, requeue, is_zero, Reconcile, ◌>>=◌,
  ◌>>◌, pure, gets, deferred, call, or_wrap, annotate, modify, set_condition,
}
use cluster_api_provider_clo.FloatingIp.Target.{lb_enabled}
use cluster_api_provider_clo.LoadBalancer.Components.{
  reconcile_lb, reconcile_lb_pool, reconcile_lb_listener, reconcile_lb_health_monitor,
}
use cluster_api_provider_clo.LoadBalancer.Members.{reconcile_lb_members}

-- lbStatus
pub record LbStatus : Type 0 where
  pub ip_address : String
  pub ready : Bool

abbrev pub no_lb_status : LbStatus
no_lb_status = record { ip_address = ""; ready = false }

-- What the function returns, and the message of `lbPending`, which its deferred function reads.
pub record LbReport : Type 0 where
  pub status : LbStatus
  pub result : CtrlResult
  pub pending : Option String

abbrev pub early_report : CtrlResult → Option String → LbReport
early_report result pending = record { status = no_lb_status; result = result; pending = pending }

abbrev pub first_vip : List String → String
first_vip [] = ""
first_vip (a ∷ rest) = a

-- The members that fail their health check, as the message names them.
unfoldable pub down_members : List LoadBalancerPoolMember → List String
down_members [] = []
down_members (m ∷ rest) =
    let later = down_members rest in
    if m.monitor_status == "down"
    then (m.name <> "@" <> m.address <> ":" <> decimal m.protocol_port) ∷ later
    else later

-- A list of texts in a message, as %v prints it, without its brackets.
unfoldable pub spaced : List String → String
spaced [] = ""
spaced (s ∷ []) = s
spaced (s ∷ t ∷ rest) = s <> " " <> spaced (t ∷ rest)

unfoldable pub with_down : String → List String → String
unfolding spaced
with_down message [] = message
with_down message (d ∷ down) =
    message <> "; pool members failing health check: [" <> spaced (d ∷ down) <> "]"

unfoldable pub diagnose : String → Answer (List LoadBalancerPoolMember) → String
unfolding down_members with_down
diagnose message (reply members) = with_down message (down_members members)
diagnose message (failure e) = message

module _ {W : Type 0} (env : Env W) where
  unfoldable pub pending_message : String → Reconcile W String
  unfolding diagnose ◌>>=◌
  pending_message status = do
    pool_id ← gets (λ s. s.cluster.status.load_balancer_pool_id)
    if pool_id == "" then pure ("Load balancer is in " <> status) else do
      answer ← call (list_call Resource.pool_member) (env.client.list_pool_members pool_id)
      pure (diagnose ("Load balancer is in " <> status) answer)

  -- A step of the function: its error is annotated, and a requeue ends the function.
  unfoldable pub lb_step :
      String → Reconcile W CtrlResult → Option String → Reconcile W LbReport → Reconcile W LbReport
  unfolding annotate ◌>>=◌
  lb_step context step pending rest = do
    result ← annotate context step
    if is_zero result then rest else pure (early_report result pending)

  unfoldable pub reconcile_lb_components : LoadBalancer → Option String → Reconcile W LbReport
  unfolding lb_step reconcile_lb_pool reconcile_lb_listener reconcile_lb_health_monitor
      reconcile_lb_members
  reconcile_lb_components lb pending =
      lb_step "reconciling load balancer pool" (reconcile_lb_pool env) pending (
        lb_step "reconciling load balancer listener" (reconcile_lb_listener env) pending (
          lb_step "reconciling load balancer health monitor" (reconcile_lb_health_monitor env)
            pending
            (lb_step "reconciling load balancer members" (reconcile_lb_members env) pending (
              pure (record {
                status = record {
                  ip_address = first_vip lb.vip_addresses;
                  ready = not (is_some pending);
                };
                result = no_requeue;
                pending = pending;
              })))))

  -- The switch on the load balancer's status.
  unfoldable pub by_lb_status : LoadBalancer → Reconcile W LbReport
  unfolding pending_message reconcile_lb_components ◌>>=◌
  by_lb_status lb =
      if lb.status == "running"
      then reconcile_lb_components lb none
      else if lb.status == "changing"
      then pure (early_report (requeue 10) (some "Load balancer is not yet running"))
      else (pending_message lb.status >>= λ message. reconcile_lb_components lb (some message))

  unfoldable pub with_load_balancer : String → Reconcile W LbReport
  unfolding by_lb_status ◌>>=◌
  with_load_balancer lb_id =
      if lb_id == ""
      then pure (early_report (requeue 5) (some "Load balancer is not yet running"))
      else do
        answer ← call (get_call Resource.load_balancer lb_id) (env.client.load_balancers.get lb_id)
        lb ← or_wrap "getting load balancer status" answer
        by_lb_status lb

  unfoldable pub pending_condition : Option String → Scope W → Scope W
  unfolding set_condition
  pending_condition (some message) =
      set_condition env load_balancer_ready_condition condition_false "LoadBalancerNotReady" message
  pending_condition none =
      set_condition env load_balancer_ready_condition condition_true "LoadBalancerRunning" ""

  -- The deferred function. Nothing in reconcileLoadBalancer reads through a pointer that may be nil, so
  -- that the last case does not occur.
  unfoldable pub load_balancer_condition : Outcome LbReport → Scope W → Scope W
  unfolding set_condition pending_condition error_text
  load_balancer_condition (err e) =
      set_condition env load_balancer_ready_condition condition_false "LoadBalancerError"
        (error_text e)
  load_balancer_condition (ok report) = pending_condition report.pending
  load_balancer_condition panic =
      set_condition env load_balancer_ready_condition condition_true "LoadBalancerRunning" ""

  unfoldable pub reconcile_enabled_load_balancer : Reconcile W LbReport
  unfolding lb_step reconcile_lb with_load_balancer load_balancer_condition ◌>>=◌
  reconcile_enabled_load_balancer =
      deferred
        (lb_step "reconciling load balancer" (reconcile_lb env) none
          (gets (λ s. s.cluster.status.load_balancer_id) >>= with_load_balancer))
        load_balancer_condition

  unfoldable pub reconcile_load_balancer : Reconcile W (LbStatus × CtrlResult)
  unfolding reconcile_enabled_load_balancer set_condition lb_enabled ◌>>=◌
  reconcile_load_balancer = do
    spec ← gets (λ s. s.cluster.spec)
    if lb_enabled spec
        then (reconcile_enabled_load_balancer >>= λ report. pure (report.status, report.result))
        else (modify (
              set_condition env load_balancer_ready_condition condition_true "LoadBalancerDisabled"
                "")
            >> pure (record { ip_address = ""; ready = true }, no_requeue))
