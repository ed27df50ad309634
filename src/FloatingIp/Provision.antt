-- ===== src/FloatingIp/Provision.antt =====
-- reconcileFloatingIP (internal/controller/cloudscalecluster_floatingip.go).
use cluster_api_provider_clo.Base.{
  ℕ, String, Bool, false, not, Option, none, some, ◌==◌, if◌then◌else◌, ◌<>◌, is_set, deref_or,
}
use cluster_api_provider_clo.Errors.{Error, plain, error_text, quote}
use cluster_api_provider_clo.Api.Conditions.{
  condition_true, condition_false, floating_ip_ready_condition,
}
use cluster_api_provider_clo.Api.Cluster.{ip_family_ipv6, FloatingIpSpec}
use cluster_api_provider_clo.Sdk.{
  FloatingIp, FloatingIpCreateRequest, Answer, reply, failure, Resource, floating_ip_request,
  get_call, create_call,
}
use cluster_api_provider_clo.Scope.{
  Scope, Env, Outcome, ok, err, panic, error_of, CtrlResult, no_requeue, Reconcile, ◌>>=◌, ◌>>◌,
  pure, raise, gets, deferred, call, deref, or_wrap, update_status, modify, emit, set_condition,
  requeue_or_raise,
}
use cluster_api_provider_clo.Services.{cluster_ownership_tags, ensure_resource}
use cluster_api_provider_clo.FloatingIp.Target.{
  FloatingIpTarget, no_target, attempt_target, ensure_floating_ip_assignment,
}

abbrev pub create_floating_ip_timeout_requeue_after : ℕ
create_floating_ip_timeout_requeue_after = 5

-- Whether a region is another one than the cluster's; a global floating IP has none.
unfoldable pub other_region : Option String → String → Bool
other_region none region = false
other_region (some slug) region = not (slug == region)

unfoldable pub ip_version_of : Option String → ℕ
ip_version_of none = 4
ip_version_of (some family) = if family == ip_family_ipv6 then 6 else 4

-- The target of a new floating IP: none where it is not ready yet.
abbrev pub target_or_none : Outcome FloatingIpTarget → FloatingIpTarget
target_or_none (ok target) = target
target_or_none (err e) = no_target
target_or_none panic = no_target

module _ {W : Type 0} where
  abbrev pub put_floating_ip : String → Scope W → Scope W
  put_floating_ip ip = update_status λ st. record st { floating_ip = ip }

  unfoldable pub floating_ip_create_request :
      Scope W → FloatingIpSpec → FloatingIpTarget → FloatingIpCreateRequest
  unfolding cluster_ownership_tags ip_version_of
  floating_ip_create_request s fip_spec target = record {
    ip_version = ip_version_of fip_spec.ip_family;
    region = s.cluster.spec.region;
    load_balancer = target.lb_uuid;
    server = if is_set target.lb_uuid then "" else target.server_uuid;
    tags = cluster_ownership_tags s.cluster;
  }

module _ {W : Type 0} (env : Env W) where
  unfoldable pub use_pre_existing : FloatingIp → String → Reconcile W (Unit {0})
  unfolding ensure_floating_ip_assignment other_region ◌>>=◌
  use_pre_existing fip ip = do
    region ← gets (λ s. s.cluster.spec.region)
    if other_region fip.region region
        then raise (
            plain (
              "pre-existing floating IP "
              <> ip
              <> " is in region "
              <> quote (deref_or fip.region "")
              <> ", expected region "
              <> quote region))
        else (modify (put_floating_ip fip.ip) >> ensure_floating_ip_assignment env fip)

  unfoldable pub reconcile_pre_existing_floating_ip : String → Reconcile W (Unit {0})
  unfolding use_pre_existing ◌>>=◌
  reconcile_pre_existing_floating_ip ip = do
    answer ← call (get_call Resource.floating_ip ip) (env.client.floating_ips.get ip)
    fip ← or_wrap ("getting pre-existing floating IP " <> ip) answer
    use_pre_existing fip ip

  unfoldable pub floating_ip_created : Answer FloatingIp → Reconcile W CtrlResult
  unfolding requeue_or_raise ◌>>=◌
  floating_ip_created (reply fip) = do
    modify (put_floating_ip fip.ip)
    modify (emit "FloatingIPCreated" ("Created floating IP " <> fip.ip))
    pure no_requeue
  floating_ip_created (failure e) =
      requeue_or_raise create_floating_ip_timeout_requeue_after "creating floating IP" e

  unfoldable pub create_floating_ip : FloatingIpSpec → Reconcile W CtrlResult
  unfolding attempt_target floating_ip_create_request floating_ip_created ◌>>=◌
  create_floating_ip fip_spec = do
    target ← attempt_target env
    req ← gets (λ s. floating_ip_create_request s fip_spec (target_or_none target))
    answer ← call (create_call (floating_ip_request req)) (env.client.create_floating_ip req)
    floating_ip_created answer

  unfoldable pub assign_or_create :
      FloatingIpSpec → Option FloatingIp × String → Reconcile W CtrlResult
  unfolding ensure_floating_ip_assignment create_floating_ip ◌>>=◌
  assign_or_create fip_spec (found, id) =
      if is_set id
      then (deref found >>= λ fip. ensure_floating_ip_assignment env fip >> pure no_requeue)
      else create_floating_ip fip_spec

  unfoldable pub reconcile_managed_floating_ip : FloatingIpSpec → Reconcile W CtrlResult
  unfolding ensure_resource assign_or_create cluster_ownership_tags ◌>>=◌
  reconcile_managed_floating_ip fip_spec = do
    cluster ← gets (λ s. s.cluster)
    (found, id) ←
        ensure_resource Resource.floating_ip cluster.status.floating_ip "floating IP"
          env.client.floating_ips (λ fip. fip.ip) (cluster_ownership_tags cluster)
    modify (put_floating_ip id)
    assign_or_create fip_spec (found, id)

  unfoldable pub floating_ip_condition : Option Error → Scope W → Scope W
  unfolding set_condition error_text
  floating_ip_condition (some e) =
      set_condition env floating_ip_ready_condition condition_false "FloatingIPError" (error_text e)
  floating_ip_condition none =
      set_condition env floating_ip_ready_condition condition_true "FloatingIPProvisioned" ""

  unfoldable pub reconcile_configured : FloatingIpSpec → Reconcile W CtrlResult
  unfolding reconcile_pre_existing_floating_ip reconcile_managed_floating_ip floating_ip_condition
      ◌>>=◌
  reconcile_configured fip_spec =
      deferred
        (if is_set fip_spec.address
          then (reconcile_pre_existing_floating_ip fip_spec.address >> pure no_requeue)
          else reconcile_managed_floating_ip fip_spec)
        (λ r. floating_ip_condition (error_of r))

  unfoldable pub reconcile_floating_ip_spec : Option FloatingIpSpec → Reconcile W CtrlResult
  unfolding reconcile_configured set_condition ◌>>=◌
  reconcile_floating_ip_spec none = do
    modify (set_condition env floating_ip_ready_condition condition_true "FloatingIPDisabled" "")
    pure no_requeue
  reconcile_floating_ip_spec (some fip_spec) = reconcile_configured fip_spec

  unfoldable pub reconcile_floating_ip : Reconcile W CtrlResult
  unfolding reconcile_floating_ip_spec ◌>>=◌
  reconcile_floating_ip = do
    fip_spec ← gets (λ s. s.cluster.spec.floating_ip)
    reconcile_floating_ip_spec fip_spec
