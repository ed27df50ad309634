-- ===== src/LoadBalancer/Components.antt =====
-- The load balancer itself, its pool, its listener and its health monitor
-- (internal/controller/cloudscalecluster_loadbalancer.go).
use cluster_api_provider_clo.Base.{
  ℕ, String, Option, none, some, ◌==◌, if◌then◌else◌, ◌<>◌, decimal, is_set,
}
use cluster_api_provider_clo.Sdk.{
  LoadBalancer, LoadBalancerPool, LoadBalancerListener, LoadBalancerHealthMonitor,
  LoadBalancerRequest, LoadBalancerPoolRequest, LoadBalancerListenerRequest,
  LoadBalancerHealthMonitorRequest, Answer, reply, failure, Resource, load_balancer_request,
  pool_request, listener_request, health_monitor_request, create_call,
}
use cluster_api_provider_clo.Scope.{
  Scope, Env, CtrlResult, no_requeue, Reconcile, ◌>>=◌, ◌>>◌, pure, raise, gets, call,
  update_status, modify, emit, requeue_or_raise,
}
use cluster_api_provider_clo.Services.{cluster_ownership_tags, ensure_resource}
use cluster_api_provider_clo.LoadBalancer.Subnets.{safe_use_subnet}

abbrev pub some_subnet : Answer String → Answer (Option String)
some_subnet (reply id) = reply (some id)
some_subnet (failure e) = failure e

module _ {W : Type 0} where
  abbrev pub put_load_balancer : String → Scope W → Scope W
  put_load_balancer id = update_status λ st. record st { load_balancer_id = id }

  abbrev pub put_pool : String → Scope W → Scope W
  put_pool id = update_status λ st. record st { load_balancer_pool_id = id }

  abbrev pub put_listener : String → Scope W → Scope W
  put_listener id = update_status λ st. record st { load_balancer_listener_id = id }

  abbrev pub put_health_monitor : String → Scope W → Scope W
  put_health_monitor id = update_status λ st. record st { load_balancer_health_monitor_id = id }

  -- The subnet of the VIP, where the load balancer is private.
  unfoldable pub vip_subnet : Scope W → Answer (Option String)
  unfolding safe_use_subnet
  vip_subnet s =
      let network_name = s.cluster.spec.control_plane_load_balancer.network in
      if network_name == ""
      then reply none
      else some_subnet (safe_use_subnet s.cluster.status.networks network_name)

  -- A value, or the error as it is.
  abbrev pub or_return : {A : Type 0} → Answer A → Reconcile W A
  or_return (reply a) = pure a
  or_return (failure e) = raise e

  abbrev pub lb_request : Scope W → Option String → LoadBalancerRequest
  lb_request s subnet = record {
    name = s.cluster.name <> "-cp-lb";
    flavor = s.cluster.spec.control_plane_load_balancer.flavor;
    zone = s.cluster.spec.zone;
    vip_subnet = subnet;
    tags = cluster_ownership_tags s.cluster;
  }

  abbrev pub pool_request_of : Scope W → LoadBalancerPoolRequest
  pool_request_of s = record {
    name = s.cluster.name <> "-cp-pool";
    load_balancer = s.cluster.status.load_balancer_id;
    algorithm = s.cluster.spec.control_plane_load_balancer.algorithm;
    protocol = "tcp";
    tags = cluster_ownership_tags s.cluster;
  }

  abbrev pub listener_request_of : Scope W → LoadBalancerListenerRequest
  listener_request_of s = record {
    name = s.cluster.name <> "-cp-listener";
    pool = s.cluster.status.load_balancer_pool_id;
    protocol = "tcp";
    protocol_port = s.cluster.spec.control_plane_load_balancer.api_server_port;
    tags = cluster_ownership_tags s.cluster;
  }

  abbrev pub health_monitor_request_of : Scope W → LoadBalancerHealthMonitorRequest
  health_monitor_request_of s =
      let spec = s.cluster.spec.control_plane_load_balancer.health_monitor in
      record {
        pool = s.cluster.status.load_balancer_pool_id;
        type = "tcp";
        delay_s = spec.delay_s;
        timeout_s = spec.timeout_s;
        up_threshold = spec.up_threshold;
        down_threshold = spec.down_threshold;
        tags = cluster_ownership_tags s.cluster;
      }

module _ {W : Type 0} (env : Env W) where
  unfoldable pub lb_created : Answer LoadBalancer → Reconcile W CtrlResult
  unfolding requeue_or_raise ◌>>=◌
  lb_created (reply lb) = do
    modify (put_load_balancer lb.uuid)
    modify λ s.
        emit "LoadBalancerCreated"
          ("Created load balancer " <> lb.uuid <> " in zone " <> s.cluster.spec.zone) s
    pure no_requeue
  lb_created (failure e) = requeue_or_raise 5 "creating load balancer" e

  unfoldable pub create_lb : Reconcile W CtrlResult
  unfolding vip_subnet lb_created ◌>>=◌
  create_lb = do
    vip ← gets vip_subnet
    subnet ← or_return vip
    req ← gets (λ s. lb_request s subnet)
    answer ← call (create_call (load_balancer_request req)) (env.client.create_load_balancer req)
    lb_created answer

  unfoldable pub reconcile_lb : Reconcile W CtrlResult
  unfolding ensure_resource create_lb ◌>>=◌
  reconcile_lb = do
    cluster ← gets (λ s. s.cluster)
    (_, id) ←
        ensure_resource Resource.load_balancer cluster.status.load_balancer_id "load balancer"
          env.client.load_balancers (λ lb. lb.uuid) (cluster_ownership_tags cluster)
    modify (put_load_balancer id)
    if is_set id then pure no_requeue else create_lb

  unfoldable pub pool_created : Answer LoadBalancerPool → Reconcile W CtrlResult
  unfolding requeue_or_raise ◌>>=◌
  pool_created (reply pool) = do
    modify (put_pool pool.uuid)
    modify (emit "PoolCreated" ("Created load balancer pool " <> pool.uuid))
    pure no_requeue
  pool_created (failure e) = requeue_or_raise 5 "creating load balancer pool" e

  unfoldable pub reconcile_lb_pool : Reconcile W CtrlResult
  unfolding ensure_resource pool_created ◌>>=◌
  reconcile_lb_pool = do
    cluster ← gets (λ s. s.cluster)
    (_, id) ←
        ensure_resource Resource.pool cluster.status.load_balancer_pool_id "load balancer pool"
          env.client.load_balancer_pools (λ pool. pool.uuid) (cluster_ownership_tags cluster)
    modify (put_pool id)
    if is_set id then pure no_requeue else do
      req ← gets pool_request_of
      answer ← call (create_call (pool_request req)) (env.client.create_pool req)
      pool_created answer

  unfoldable pub listener_created : ℕ → Answer LoadBalancerListener → Reconcile W CtrlResult
  unfolding requeue_or_raise ◌>>=◌
  listener_created port (reply listener) = do
    modify (put_listener listener.uuid)
    modify (
        emit "ListenerCreated"
          ("Created load balancer listener " <> listener.uuid <> " on port " <> decimal port))
    pure no_requeue
  listener_created port (failure e) = requeue_or_raise 5 "creating load balancer listener" e

  unfoldable pub reconcile_lb_listener : Reconcile W CtrlResult
  unfolding ensure_resource listener_created ◌>>=◌
  reconcile_lb_listener = do
    cluster ← gets (λ s. s.cluster)
    (_, id) ←
        ensure_resource Resource.listener cluster.status.load_balancer_listener_id
          "load balancer listener" env.client.load_balancer_listeners (λ listener. listener.uuid)
          (cluster_ownership_tags cluster)
    modify (put_listener id)
    if is_set id then pure no_requeue else do
      req ← gets listener_request_of
      answer ← call (create_call (listener_request req)) (env.client.create_listener req)
      listener_created req.protocol_port answer

  unfoldable pub health_monitor_created : Answer LoadBalancerHealthMonitor → Reconcile W CtrlResult
  unfolding requeue_or_raise ◌>>=◌
  health_monitor_created (reply monitor) = do
    modify (put_health_monitor monitor.uuid)
    modify (emit "HealthMonitorCreated" ("Created load balancer health monitor " <> monitor.uuid))
    pure no_requeue
  health_monitor_created (failure e) = requeue_or_raise 5 "creating load balancer health monitor" e

  unfoldable pub reconcile_lb_health_monitor : Reconcile W CtrlResult
  unfolding ensure_resource health_monitor_created ◌>>=◌
  reconcile_lb_health_monitor = do
    cluster ← gets (λ s. s.cluster)
    (_, id) ←
        ensure_resource Resource.health_monitor cluster.status.load_balancer_health_monitor_id
          "load balancer health monitor" env.client.load_balancer_health_monitors
          (λ monitor. monitor.uuid) (cluster_ownership_tags cluster)
    modify (put_health_monitor id)
    if is_set id then pure no_requeue else do
      req ← gets health_monitor_request_of
      answer ←
          call (create_call (health_monitor_request req)) (env.client.create_health_monitor req)
      health_monitor_created answer
