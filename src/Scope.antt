-- ===== src/Scope.antt =====
-- The state that a reconcile of a CloudscaleCluster works on (internal/scope/cluster.go), and Go's
-- control flow over it: a function returns a value, an error or panics, and what was written before
-- stays written.
use cluster_api_provider_clo.Base.{String, Option, List, [], ◌∷◌, ◌++◌, Bool}
use cluster_api_provider_clo.Api.Conditions.{ConditionStatus, ConditionsPackage}
use cluster_api_provider_clo.Api.Cluster.{CloudscaleCluster, CloudscaleClusterStatus}
use cluster_api_provider_clo.Sdk.{Client, Call, Answer}
use cluster_api_provider_clo.Go.{Go}
pub use cluster_api_provider_clo.Go.{
  Outcome, ok, err, panic, CtrlResult, Flow, return_early, proceed,
}
unfoldable pub use cluster_api_provider_clo.Go.{
  error_of, wrap_outcome, no_requeue, requeue, is_zero, continue, ◌>>=◌, ◌>>◌, pure, raise, gets,
  deferred, deref, or_wrap, annotate, modify, unit_of, unit_answer, then_with, requeue_on_timeout,
  requeue_or_raise,
}

-- clusterv1.Cluster, the owner: its names, and status.initialization.controlPlaneInitialized.
pub record OwnerCluster : Type 0 where
  pub name : String
  pub namespace : String
  pub control_plane_initialized : Option Bool

-- An event of the recorder: its reason and its text.
pub record Event : Type 0 where
  pub reason : String
  pub note : String

-- `calls` lists the API calls made so far, oldest first, and `events` the events recorded.
pub record Scope (W : Type 0) : Type 0 where
  pub owner : OwnerCluster
  pub cluster : CloudscaleCluster
  pub world : W
  pub calls : List Call
  pub events : List Event

-- The packages that the controllers call.
pub record Env (W : Type 0) : Type 0 where
  pub client : Client W
  pub conditions : ConditionsPackage
  -- cloudscalesdk.RouterActive
  pub router_active : String
  -- net.ParseCIDR: its error, or whether a text is an address (net.ParseIP) that the CIDR contains.
  pub parse_cidr : String → Answer (String → Bool)
  -- controllerutil.ContainsFinalizer, AddFinalizer and RemoveFinalizer
  pub contains_finalizer : List String → String → Bool
  pub add_finalizer : List String → String → List String
  pub remove_finalizer : List String → String → List String

abbrev pub Reconcile : Type 0 → Type 0 → Type 0
Reconcile W A = Go (Scope W) A

module _ {W A : Type 0} where
  -- A call of a service: the world moves on, and the call is recorded.
  abbrev pub call : Call → (W → A × W) → Reconcile W A
  call c f s = let (a, w) = f s.world in (ok a, record s { world = w; calls = s.calls ++ c ∷ [] })

module _ {W : Type 0} where
  abbrev pub update_cluster : (CloudscaleCluster → CloudscaleCluster) → Scope W → Scope W
  update_cluster f s = record s { cluster = f s.cluster }

  abbrev pub update_status : (CloudscaleClusterStatus → CloudscaleClusterStatus) → Scope W → Scope W
  update_status f s = record s { cluster = record s.cluster { status = f s.cluster.status } }

  abbrev pub emit : String → String → Scope W → Scope W
  emit reason note s = record s {
    events = s.events ++ record { reason = reason; note = note } ∷ [];
  }

  -- setCondition of internal/controller/cloudscalecluster_controller.go
  unfoldable pub set_condition :
      Env W → String → ConditionStatus → String → String → Scope W → Scope W
  set_condition env type status reason message = update_status λ st. record st {
    conditions =
        env.conditions.set
          (record { type = type; status = status; reason = reason; message = message })
          st.conditions;
  }
