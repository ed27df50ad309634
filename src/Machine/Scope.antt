-- ===== src/Machine/Scope.antt =====
-- The state that a reconcile of a CloudscaleMachine works on (internal/scope/machine.go), and
-- setCondition of internal/controller/cloudscalemachine_controller.go.
use cluster_api_provider_clo.Base.{String, Option, none, some, List, [], ◌∷◌, ◌++◌, ◌<>◌}
use cluster_api_provider_clo.Errors.{plain}
use cluster_api_provider_clo.Api.Conditions.{ConditionStatus}
use cluster_api_provider_clo.Api.Cluster.{CloudscaleCluster}
use cluster_api_provider_clo.Api.Machine.{CloudscaleMachineStatus, CloudscaleMachine}
use cluster_api_provider_clo.Sdk.{Call, Resource, get_call}
use cluster_api_provider_clo.Go.{Go, ok, ◌>>=◌, pure, raise, gets, or_wrap}
use cluster_api_provider_clo.Scope.{OwnerCluster, Event, Env}

-- clusterv1.Machine, the owner: its names, and spec.bootstrap.dataSecretName.
pub record Machine : Type 0 where
  pub name : String
  pub namespace : String
  pub data_secret_name : Option String

-- `calls` lists the calls made so far, oldest first, and `events` the events recorded.
pub record MachineScope (W : Type 0) : Type 0 where
  pub cluster : OwnerCluster
  pub machine : Machine
  pub cloudscale_cluster : CloudscaleCluster
  pub cloudscale_machine : CloudscaleMachine
  pub world : W
  pub calls : List Call
  pub events : List Event

abbrev pub MachineReconcile : Type 0 → Type 0 → Type 0
MachineReconcile W A = Go (MachineScope W) A

module _ {W A : Type 0} where
  -- A call of a service: the world moves on, and the call is recorded.
  abbrev pub machine_call : Call → (W → A × W) → MachineReconcile W A
  machine_call c f s =
      let (a, w) = f s.world in (ok a, record s { world = w; calls = s.calls ++ c ∷ [] })

module _ {W : Type 0} where
  abbrev pub update_machine :
      (CloudscaleMachine → CloudscaleMachine) → MachineScope W → MachineScope W
  update_machine f s = record s { cloudscale_machine = f s.cloudscale_machine }

  abbrev pub update_machine_status :
      (CloudscaleMachineStatus → CloudscaleMachineStatus) → MachineScope W → MachineScope W
  update_machine_status f = update_machine λ m. record m { status = f m.status }

  abbrev pub emit_machine : String → String → MachineScope W → MachineScope W
  emit_machine reason note s = record s {
    events = s.events ++ record { reason = reason; note = note } ∷ [];
  }

  unfoldable pub set_machine_condition :
      Env W → String → ConditionStatus → String → String → MachineScope W → MachineScope W
  set_machine_condition env type status reason message = update_machine_status λ st. record st {
    conditions =
        env.conditions.set
          (record { type = type; status = status; reason = reason; message = message })
          st.conditions;
  }

  -- SetProviderID
  unfoldable pub set_provider_id : String → MachineScope W → MachineScope W
  set_provider_id server_id =
      update_machine
        λ m. record m { spec = record m.spec { provider_id = some ("cloudscale://" <> server_id) } }

module _ {W : Type 0} (env : Env W) where
  -- The value in the secret.
  unfoldable pub secret_value : Option String → MachineReconcile W String
  secret_value none = raise (plain "bootstrap data secret missing 'value' key")
  secret_value (some value) = pure value

  unfoldable pub read_secret : String → Option String → MachineReconcile W String
  unfolding secret_value ◌>>=◌
  read_secret namespace none = raise (plain "bootstrap data secret name is nil")
  read_secret namespace (some name) = do
    answer ← machine_call (get_call Resource.secret name) (env.client.get_secret namespace name)
    value ← or_wrap "getting bootstrap data secret" answer
    secret_value value

  -- GetBootstrapData
  unfoldable pub get_bootstrap_data : MachineReconcile W String
  unfolding read_secret ◌>>=◌
  get_bootstrap_data = do
    machine ← gets (λ s. s.machine)
    read_secret machine.namespace machine.data_secret_name
