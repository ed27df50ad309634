-- ===== src/Examples/Removing.antt =====
-- The theorems on what a deletion removes, at concrete inputs.
use cluster_api_provider_clo.Base.{String, ◌≡◌, refl, ◌⊎◌, false, List, [], ◌∷◌, All}
use cluster_api_provider_clo.Api.Conditions.{is_true, network_ready_condition}
use cluster_api_provider_clo.Api.Cluster.{cluster_finalizer}
use cluster_api_provider_clo.Sdk.{reply, ServerGroup, LoadBalancerPoolMember}
use cluster_api_provider_clo.Cluster.Deletion.{reconcile_delete}
use cluster_api_provider_clo.Cluster.Released.{Released, reconcile_delete-Released}
use cluster_api_provider_clo.Examples.World.{
  conditions_package, package_laws, client, env, provisioned,
}
use cluster_api_provider_clo.FloatingIp.Cleared.{delete_floating_ip-cleared}
use cluster_api_provider_clo.FloatingIp.Removal.{delete_floating_ip}
use cluster_api_provider_clo.LoadBalancer.Cleared.{lb_parts, no_parts, delete_load_balancer-cleared}
use cluster_api_provider_clo.LoadBalancer.Members.{reconcile_lb_members}
use cluster_api_provider_clo.LoadBalancer.Removal.{delete_load_balancer}
use cluster_api_provider_clo.LoadBalancer.Removing.{KeepsOrRemoves, reconcile_lb_members-Removes}
use cluster_api_provider_clo.Network.Condition.{delete_network-condition}
use cluster_api_provider_clo.Network.Deleted.{
  delete_network-unmanaged, delete_network-RemovesManaged,
}
use cluster_api_provider_clo.Network.Removal.{delete_network}
use cluster_api_provider_clo.Network.Removed.{RemovesManaged, unmanaged}
use cluster_api_provider_clo.Network.Status.{networks_of}
use cluster_api_provider_clo.Router.Deleted.{IsForeign, delete_routers-IsForeign}
use cluster_api_provider_clo.Router.Removal.{delete_routers}
use cluster_api_provider_clo.Router.Requests.{Allowed, delete_routers-Allowed}
use cluster_api_provider_clo.Router.Status.{routers_of}
use cluster_api_provider_clo.ServerGroup.{delete_group_list, delete_server_groups}
use cluster_api_provider_clo.ServerGroup.Released.{
  GroupsReleased, delete_server_groups-GroupsReleased,
}
use cluster_api_provider_clo.Scope.{Env}
use cluster_api_provider_clo.ServerGroup.Laws.{EmptiesOne, delete_group_list-EmptiesOne}
use cluster_api_provider_clo.Services.Calls.{scope_calls, Makes}
use cluster_api_provider_clo.Services.Conditions.{conditions_of}
use cluster_api_provider_clo.Go.Frame.{Within}

reconcile_delete-Released_example :
    ((reconcile_delete env provisioned).1.cluster.finalizers ≡ cluster_finalizer ∷ [])
    ⊎ Released env provisioned.cluster
        (reconcile_delete env provisioned).0
        (reconcile_delete env provisioned).1.cluster
reconcile_delete-Released_example = reconcile_delete-Released env provisioned

delete_network-unmanaged_example :
    networks_of (delete_network env provisioned).1 ≡ unmanaged (networks_of provisioned)
unfolding delete_network
delete_network-unmanaged_example = delete_network-unmanaged env provisioned tt refl

delete_network-RemovesManaged_example :
    Makes (RemovesManaged (networks_of provisioned)) provisioned (delete_network env provisioned).1
delete_network-RemovesManaged_example = delete_network-RemovesManaged env provisioned

delete_network-condition_example :
    is_true conditions_package
      (conditions_of env package_laws (delete_network env provisioned).1)
      network_ready_condition
    ≡ false
delete_network-condition_example = delete_network-condition env package_laws provisioned

delete_routers-IsForeign_example : All IsForeign (routers_of (delete_routers env provisioned).1)
unfolding delete_routers
delete_routers-IsForeign_example = delete_routers-IsForeign env provisioned tt refl

delete_routers-Allowed_example :
    Makes
      (Allowed env (networks_of provisioned) (routers_of provisioned))
      provisioned
      (delete_routers env provisioned).1
delete_routers-Allowed_example = delete_routers-Allowed env provisioned

delete_floating_ip-cleared_example :
    (delete_floating_ip env provisioned).1.cluster.status.floating_ip ≡ ""
unfolding delete_floating_ip
delete_floating_ip-cleared_example = delete_floating_ip-cleared env provisioned tt refl refl

delete_load_balancer-cleared_example :
    lb_parts (delete_load_balancer env provisioned).1.cluster.status ≡ no_parts
unfolding delete_load_balancer
delete_load_balancer-cleared_example = delete_load_balancer-cleared env provisioned tt refl refl

abbrev group : List String → ServerGroup
group servers = record { uuid = "g-1"; name = "workers"; zone = "rma1"; servers = servers }

delete_group_list-EmptiesOne_example :
    Within
      (Makes (EmptiesOne (group [] ∷ group ("srv-9" ∷ []) ∷ [])))
      (delete_group_list env ("srv-1" ∷ []) (group [] ∷ group ("srv-9" ∷ []) ∷ []))
delete_group_list-EmptiesOne_example =
    delete_group_list-EmptiesOne env ("srv-1" ∷ []) (group [] ∷ group ("srv-9" ∷ []) ∷ [])

delete_server_groups-GroupsReleased_example : GroupsReleased env provisioned
unfolding delete_server_groups
delete_server_groups-GroupsReleased_example =
    delete_server_groups-GroupsReleased env provisioned tt refl

abbrev member : String → LoadBalancerPoolMember
member name = record {
  uuid = "m-1";
  name = name;
  address = "10.0.0.7";
  protocol_port = 6443;
  monitor_status = "up";
}

-- The pool has a member that no machine stands for.
abbrev pool_env : Env (Unit {0})
pool_env = record env {
  client = record client { list_pool_members = λ id w. (reply (member "cp-9" ∷ []), w) };
}

reconcile_lb_members-Removes_example :
    Makes
      (KeepsOrRemoves pool_env provisioned)
      provisioned
      (reconcile_lb_members pool_env provisioned).1
reconcile_lb_members-Removes_example = reconcile_lb_members-Removes pool_env provisioned
