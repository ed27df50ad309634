-- ===== src/Examples/Machines.antt =====
-- The theorems on machines, at concrete inputs.
use cluster_api_provider_clo.Base.{
  ◌≡◌, refl, ◌⊎◌, ◌↔◌, true, false, none, some, items, List, [], ◌∷◌, ◌==◌, if◌then◌else◌, ◌<>◌,
}
use cluster_api_provider_clo.Api.Conditions.{is_true, ready_condition, server_ready_condition}
use cluster_api_provider_clo.Api.Machine.{ServerGroupSpec, CloudscaleMachine}
use cluster_api_provider_clo.Sdk.{ServerInterfaceRequest, reply, Resource, list_call}
use cluster_api_provider_clo.Examples.World.{
  conditions_package, package_laws, node, env, provisioned,
}
use cluster_api_provider_clo.Machine.Scope.{MachineScope}
use cluster_api_provider_clo.Machine.Conditions.{
  set_server_status_condition-running, reconcile_machine_normal-Ready,
}
use cluster_api_provider_clo.Machine.Created.{NoneFound, reconcile_server-creates}
use cluster_api_provider_clo.Machine.Deletion.{machine_finalizer, reconcile_machine_delete}
use cluster_api_provider_clo.Go.{ok, no_requeue}
use cluster_api_provider_clo.Services.{cluster_ownership_tags}
use cluster_api_provider_clo.Machine.Group.{reconcile_server_group}
use cluster_api_provider_clo.Machine.Grouped.{Chosen, wanted_group, reconcile_server_group-Chosen}
use cluster_api_provider_clo.Machine.Interfaces.{build_interface_requests}
use cluster_api_provider_clo.Machine.Latch.{reconcile_machine_normal-latch}
use cluster_api_provider_clo.Machine.Normal.{reconcile_machine_normal}
use cluster_api_provider_clo.Machine.Orders.{machine_calls, CreatesFor, origin}
use cluster_api_provider_clo.Machine.Recorded.{reconcile_machine_normal-server_id}
use cluster_api_provider_clo.Machine.Released.{MachineReleased, reconcile_machine_delete-Released}
use cluster_api_provider_clo.Machine.Requests.{Requested, build_interface_requests-Requested}
use cluster_api_provider_clo.Machine.Server.{reconcile_server}
use cluster_api_provider_clo.Machine.Update.{
  is_already_provisioned, server_status_running, set_server_status_condition,
}
use cluster_api_provider_clo.Services.Calls.{is_read, Makes}
use cluster_api_provider_clo.Machine.Interfaces.{machine_tag_key, machine_create_tags}
use cluster_api_provider_clo.Webhook.Machines.{
  FlavorInfo, validate_machine_create, validate_machine_update,
}
use cluster_api_provider_clo.Webhook.MachineUpdates.{
  OnceSet, Unreserved, validate_machine_update-Admits,
}
use cluster_api_provider_clo.Webhook.Tags.{find_tag, machine_create_tags-owned}

abbrev worker : CloudscaleMachine
worker = record {
  name = "worker-1";
  namespace = "default";
  finalizers = machine_finalizer ∷ [];
  deleted = false;
  spec = record {
    provider_id = none;
    flavor = "flex-8-4";
    image = "debian-13";
    root_volume_size = 50;
    tags = [];
    server_group = some (record { name = "workers" });
    interfaces = some (
        record { type = "public"; network = ""; ip_family = some "DualStack" }
        ∷ record { type = ""; network = "lan"; ip_family = none }
        ∷ []);
  };
  status = record {
    initialization = none;
    server_id = "";
    addresses = [];
    server_group_id = "";
    conditions = [];
  };
}

abbrev new_machine : MachineScope (Unit {0})
new_machine = record {
  cluster = provisioned.owner;
  machine = record { name = "worker-1"; namespace = "default"; data_secret_name = some "boot" };
  cloudscale_cluster = provisioned.cluster;
  cloudscale_machine = worker;
  world = tt;
  calls = [];
  events = [];
}

abbrev running_machine : MachineScope (Unit {0})
running_machine = record new_machine {
  cloudscale_machine = record worker {
    status = record worker.status {
      initialization = some (record { provisioned = some true });
      server_id = "srv-1";
    };
  };
}

set_server_status_condition-running_example :
    is_true conditions_package
      (set_server_status_condition env node new_machine).cloudscale_machine.status.conditions
      server_ready_condition
    ≡ (if server_ready_condition == server_ready_condition
        then node.status == server_status_running
        else is_true conditions_package [] server_ready_condition)
set_server_status_condition-running_example =
    set_server_status_condition-running env package_laws node new_machine server_ready_condition

reconcile_machine_normal-Ready_example :
    is_true conditions_package
      (reconcile_machine_normal env new_machine).1.cloudscale_machine.status.conditions
      ready_condition
    ≡ is_true conditions_package
        (reconcile_machine_normal env new_machine).1.cloudscale_machine.status.conditions
        server_ready_condition
reconcile_machine_normal-Ready_example = reconcile_machine_normal-Ready env package_laws new_machine

reconcile_machine_normal-latch_example :
    (is_already_provisioned running_machine ≡ true
      → is_already_provisioned (reconcile_machine_normal env running_machine).1 ≡ true)
    × (is_already_provisioned (reconcile_machine_normal env running_machine).1 ≡ true
        → (is_already_provisioned running_machine ≡ true)
          ⊎ (is_true conditions_package
                (reconcile_machine_normal env
                  running_machine).1.cloudscale_machine.status.conditions
                server_ready_condition
              ≡ true))
reconcile_machine_normal-latch_example =
    reconcile_machine_normal-latch env package_laws running_machine

reconcile_machine_normal-server_id_example :
    (reconcile_machine_normal env running_machine).1.cloudscale_machine.status.server_id ≡ "srv-1"
reconcile_machine_normal-server_id_example =
    reconcile_machine_normal-server_id env running_machine refl

reconcile_server-creates_example :
    Makes
      (λ c. (is_read c ≡ true) ⊎ (NoneFound env new_machine × CreatesFor (origin new_machine) c))
      new_machine
      (reconcile_server env new_machine).1
reconcile_server-creates_example = reconcile_server-creates env new_machine

reconcile_machine_delete-Released_example :
    ((reconcile_machine_delete env running_machine).1.cloudscale_machine.finalizers
      ≡ machine_finalizer ∷ [])
    ⊎ MachineReleased env running_machine
        (reconcile_machine_delete env running_machine).0
        (reconcile_machine_delete env running_machine).1.cloudscale_machine
reconcile_machine_delete-Released_example = reconcile_machine_delete-Released env running_machine

abbrev two_requests : List ServerInterfaceRequest
two_requests = record { network = "public" } ∷ record { network = "n-1" } ∷ []

build_interface_requests-Requested_example :
    (build_interface_requests new_machine ≡ reply (two_requests, some "DualStack"))
    ↔ Requested provisioned.cluster.status.networks
        (items worker.spec.interfaces)
        two_requests
        (some "DualStack")
build_interface_requests-Requested_example =
    build_interface_requests-Requested new_machine two_requests (some "DualStack")

-- A new machine gets its server group and its server in one reconcile.
reconcile_machine_normal_test :
    (reconcile_machine_normal env new_machine).1.cloudscale_machine.status.server_id ≡ "srv-1"
unfolding reconcile_machine_normal
reconcile_machine_normal_test = refl

abbrev flavors : FlavorInfo
flavors = record { slug = "flex-8-4"; vcpu_count = 4; memory_gb = 8; gpu = none } ∷ []

abbrev tagged_machine : MachineScope (Unit {0})
tagged_machine = record new_machine {
  cloudscale_machine = record worker {
    spec = record worker.spec { tags = ("team", "storage") ∷ [] };
  };
}

tagged_machine-admitted :
    validate_machine_create (some flavors) tagged_machine.cloudscale_machine ≡ []
unfolding validate_machine_create
tagged_machine-admitted = refl

machine_create_tags-owned_example :
    find_tag (machine_tag_key tagged_machine.cluster.name) (machine_create_tags tagged_machine)
    ≡ some (
        tagged_machine.cluster.namespace <> "/" <> tagged_machine.cluster.name <> "/"
        <> tagged_machine.cloudscale_machine.name)
machine_create_tags-owned_example =
    machine_create_tags-owned (some flavors) tagged_machine tagged_machine-admitted

abbrev resized : CloudscaleMachine
resized = record worker { spec = record worker.spec { flavor = "flex-16-4" } }

validate_machine_update-Admits_example : (validate_machine_update worker resized ≡ []) ↔ (
    (resized.spec.image ≡ worker.spec.image)
    × (resized.spec.flavor ≡ worker.spec.flavor)
    × (resized.spec.root_volume_size ≡ worker.spec.root_volume_size)
    × OnceSet resized.spec.provider_id worker.spec.provider_id
    × (resized.spec.interfaces ≡ worker.spec.interfaces)
    × (resized.spec.server_group ≡ worker.spec.server_group)
    × Unreserved resized.spec.tags)
validate_machine_update-Admits_example = validate_machine_update-Admits worker resized

abbrev workers : ServerGroupSpec
workers = record { name = "workers" }

new_machine-grouped : (reconcile_server_group env new_machine).0 ≡ ok no_requeue
unfolding reconcile_server_group
new_machine-grouped = refl

reconcile_server_group-Chosen_example :
    Chosen
      (wanted_group env new_machine workers)
      (env.client.server_groups.list (cluster_ownership_tags provisioned.cluster) tt).0
      (env.client.create_server_group (wanted_group env new_machine workers) tt).0
      (list_call Resource.server_group ∷ [])
      (reconcile_server_group env new_machine).1.cloudscale_machine.status.server_group_id
      (reconcile_server_group env new_machine).1.calls
reconcile_server_group-Chosen_example =
    reconcile_server_group-Chosen env new_machine workers refl refl new_machine-grouped
