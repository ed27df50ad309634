-- ===== src/ServerGroup.antt =====
-- deleteServerGroups and getOwnedServerIDs (internal/controller/cloudscalecluster_servergroup.go).
pub mod Laws
pub mod Released
use cluster_api_provider_clo.Base.{
  String, Bool, true, false, Option, none, some, List, [], ◌∷◌, ◌==◌, if◌then◌else◌, ◌<>◌, is_set,
}
use cluster_api_provider_clo.Errors.{Error, wrap, server_group_not_empty, error_is_not_found}
use cluster_api_provider_clo.Api.Machine.{CloudscaleMachine}
use cluster_api_provider_clo.Sdk.{ServerGroup, Resource, list_call, delete_call}
use cluster_api_provider_clo.Scope.{
  Env, Reconcile, ◌>>=◌, ◌>>◌, pure, raise, gets, call, or_wrap, annotate,
}
use cluster_api_provider_clo.Services.{cluster_ownership_tags}

-- The server IDs of the machines, without the empty ones; a set, of which only membership is asked.
unfoldable pub server_ids : List CloudscaleMachine → List String
server_ids [] = []
server_ids (m ∷ rest) =
    if is_set m.status.server_id then m.status.server_id ∷ server_ids rest else server_ids rest

unfoldable pub contains_id : List String → String → Bool
contains_id [] id = false
contains_id (x ∷ rest) id = if x == id then true else contains_id rest id

-- The two flags of the loop over a group's servers.
unfoldable pub has_owned_servers : List String → List String → Bool
unfolding contains_id
has_owned_servers owned [] = false
has_owned_servers owned (s ∷ rest) =
    if contains_id owned s then true else has_owned_servers owned rest

unfoldable pub has_foreign_servers : List String → List String → Bool
unfolding contains_id
has_foreign_servers owned [] = false
has_foreign_servers owned (s ∷ rest) =
    if contains_id owned s then has_foreign_servers owned rest else true

module _ {W : Type 0} (env : Env W) where
  unfoldable pub get_owned_server_ids : Reconcile W (List String)
  unfolding server_ids ◌>>=◌
  get_owned_server_ids = do
    scope ← gets (λ s. s)
    answer ←
        call (list_call Resource.machine)
          (env.client.list_machines scope.cluster.namespace scope.owner.name false)
    machines ← or_wrap "listing CloudscaleMachines" answer
    pure (server_ids machines)

  unfoldable pub after_group_delete : ServerGroup → Option Error → Reconcile W (Unit {0})
  unfolding error_is_not_found
  after_group_delete g none = pure tt
  after_group_delete g (some e) =
      if error_is_not_found e then pure tt else raise (wrap ("deleting server group " <> g.uuid) e)

  unfoldable pub delete_group : ServerGroup → Reconcile W (Unit {0})
  unfolding after_group_delete ◌>>=◌
  delete_group g = do
    error ← call (delete_call Resource.server_group g.uuid) (env.client.delete_server_group g.uuid)
    after_group_delete g error

  unfoldable pub delete_group_list : List String → List ServerGroup → Reconcile W (Unit {0})
  unfolding delete_group has_owned_servers has_foreign_servers ◌>>=◌
  delete_group_list owned [] = pure tt
  delete_group_list owned (g ∷ rest) =
      if has_owned_servers owned g.servers
      then raise server_group_not_empty
      else ((if has_foreign_servers owned g.servers then pure tt else delete_group g)
          >> delete_group_list owned rest)

  unfoldable pub delete_server_groups : Reconcile W (Unit {0})
  unfolding get_owned_server_ids delete_group_list annotate cluster_ownership_tags ◌>>=◌
  delete_server_groups = do
    owned ← annotate "listing owned servers" get_owned_server_ids
    cluster ← gets (λ s. s.cluster)
    answer ←
        call (list_call Resource.server_group)
          (env.client.server_groups.list (cluster_ownership_tags cluster))
    groups ← or_wrap "listing server groups" answer
    delete_group_list owned groups
