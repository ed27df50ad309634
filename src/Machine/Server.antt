-- ===== src/Machine/Server.antt =====
-- reconcileServer and deleteServer (internal/controller/cloudscalemachine_server.go).
use cluster_api_provider_clo.Base.{
  ℕ, String, Option, none, some, List, [], ◌∷◌, ◌==◌, length, ltb, decimal, if◌then◌else◌, ◌<>◌,
  is_set,
}
use cluster_api_provider_clo.Errors.{
  Error, plain, error_text, wrap, error_is_not_found, is_timeout_error,
}
use cluster_api_provider_clo.Api.Conditions.{condition_false, server_ready_condition}
use cluster_api_provider_clo.Sdk.{
  ServerInterfaceRequest, Server, ServerRequest, Answer, reply, failure, Resource, server_request,
  get_call, list_call, create_call, delete_call,
}
use cluster_api_provider_clo.Go.{
  Outcome, ok, err, panic, CtrlResult, no_requeue, requeue, ◌>>=◌, ◌>>◌, pure, raise, gets,
  deferred, or_wrap, annotate, modify,
}
use cluster_api_provider_clo.Scope.{Env}
use cluster_api_provider_clo.Machine.Scope.{
  MachineScope, MachineReconcile, machine_call, update_machine_status, emit_machine,
  set_machine_condition, get_bootstrap_data,
}
use cluster_api_provider_clo.Machine.Interfaces.{
  build_interface_requests, ip_family_to_use_ipv6, machine_lookup_tag, machine_create_tags,
}
use cluster_api_provider_clo.Machine.Update.{
  server_status_changing, set_server_status_condition, update_machine_from_server,
}

-- ServerStatusPollInterval, in seconds
abbrev pub server_status_poll_interval : ℕ
server_status_poll_interval = 5

abbrev pub poll_result : Server → CtrlResult
poll_result server =
    if server.status == server_status_changing
    then requeue server_status_poll_interval
    else no_requeue

module _ {W : Type 0} where
  abbrev pub put_server_id : String → MachineScope W → MachineScope W
  put_server_id id = update_machine_status λ st. record st { server_id = id }

  -- What every branch that has a server ends with.
  unfoldable pub use_server : Server → MachineReconcile W (CtrlResult × Option Server)
  unfolding update_machine_from_server ◌>>=◌
  use_server server = do
    modify (update_machine_from_server server)
    pure (poll_result server, some server)

  -- The request of the server.
  unfoldable pub server_request_of :
      MachineScope W → String → List ServerInterfaceRequest → Option String → ServerRequest
  unfolding machine_create_tags ip_family_to_use_ipv6
  server_request_of s bootstrap_data interfaces ip_family =
      let spec = s.cloudscale_machine.spec in
      let group = s.cloudscale_machine.status.server_group_id in
      record {
        name = s.cloudscale_machine.name;
        flavor = spec.flavor;
        image = spec.image;
        zone = s.cloudscale_cluster.spec.zone;
        tags = machine_create_tags s;
        user_data = bootstrap_data;
        interfaces = interfaces;
        use_ipv6 = ip_family_to_use_ipv6 ip_family;
        ssh_keys = [];
        volume_size_gb = if ltb 0 spec.root_volume_size then spec.root_volume_size else 0;
        server_groups = if is_set group then group ∷ [] else [];
      }

module _ {W : Type 0} (env : Env W) where
  unfoldable pub after_server_create :
      Answer Server → MachineReconcile W (CtrlResult × Option Server)
  unfolding use_server is_timeout_error ◌>>=◌
  after_server_create (failure e) =
      if is_timeout_error e then pure (requeue 30, none) else raise (wrap "creating server" e)
  after_server_create (reply server) = do
    modify (put_server_id server.uuid)
    zone ← gets (λ s. s.cloudscale_cluster.spec.zone)
    modify (emit_machine "ServerCreated" ("Created server " <> server.uuid <> " in zone " <> zone))
    use_server server

  unfoldable pub send_server_request :
      ServerRequest → MachineReconcile W (CtrlResult × Option Server)
  unfolding after_server_create ◌>>=◌
  send_server_request req = do
    answer ← machine_call (create_call (server_request req)) (env.client.create_server req)
    after_server_create answer

  unfoldable pub create_server : MachineReconcile W (CtrlResult × Option Server)
  unfolding get_bootstrap_data build_interface_requests server_request_of send_server_request
      annotate ◌>>=◌
  create_server = do
    bootstrap_data ← annotate "getting bootstrap data" (get_bootstrap_data env)
    built ← gets build_interface_requests
    (interfaces, ip_family) ← or_wrap "building interface requests" built
    req ← gets (λ s. server_request_of s bootstrap_data interfaces ip_family)
    send_server_request req

  unfoldable pub adopt_server : List Server → MachineReconcile W (CtrlResult × Option Server)
  unfolding create_server use_server ◌>>=◌
  adopt_server [] = create_server
  adopt_server (server ∷ []) = do modify (put_server_id server.uuid); use_server server
  adopt_server (a ∷ b ∷ rest) = raise (
      plain (
        "found "
        <> decimal (length (a ∷ b ∷ rest))
        <> " servers matching tag filter, expected at most 1"))

  unfoldable pub find_or_create_server : MachineReconcile W (CtrlResult × Option Server)
  unfolding machine_lookup_tag adopt_server ◌>>=◌
  find_or_create_server = do
    tags ← gets machine_lookup_tag
    answer ← machine_call (list_call Resource.server) (env.client.servers.list tags)
    servers ← or_wrap "listing servers" answer
    adopt_server servers

  unfoldable pub after_server_get :
      String → Answer Server → MachineReconcile W (CtrlResult × Option Server)
  unfolding use_server error_is_not_found set_machine_condition ◌>>=◌
  after_server_get id (reply server) = use_server server
  after_server_get id (failure e) =
      if error_is_not_found e
      then (modify (
            set_machine_condition env server_ready_condition condition_false
              "ServerDeletedExternally" ("Server " <> id <> " was deleted outside of CAPI"))
          >> pure (no_requeue, none))
      else raise (wrap "getting server" e)

  -- The branch of a server whose ID is in the status.
  unfoldable pub server_known : String → MachineReconcile W (CtrlResult × Option Server)
  unfolding after_server_get ◌>>=◌
  server_known id = do
    answer ← machine_call (get_call Resource.server id) (env.client.servers.get id)
    after_server_get id answer

  -- The function without what it defers: its result, and the server that it has found or created.
  unfoldable pub reconcile_server_body : MachineReconcile W (CtrlResult × Option Server)
  unfolding server_known find_or_create_server ◌>>=◌
  reconcile_server_body = do
    id ← gets (λ s. s.cloudscale_machine.status.server_id)
    if id == "" then find_or_create_server else server_known id

  -- The deferred function of reconcileServer.
  unfoldable pub server_condition :
      Outcome (CtrlResult × Option Server) → MachineScope W → MachineScope W
  unfolding set_machine_condition set_server_status_condition error_text
  server_condition (err e) s =
      set_machine_condition env server_ready_condition condition_false "ServerError" (error_text e)
        s
  server_condition (ok (result, some server)) s = set_server_status_condition env server s
  server_condition (ok (result, none)) s = s
  server_condition panic s = s

  unfoldable pub reconcile_server : MachineReconcile W CtrlResult
  unfolding reconcile_server_body server_condition ◌>>=◌
  reconcile_server = do
    (result, server) ← deferred reconcile_server_body server_condition
    pure result

  -- The deferred function of deleteServer.
  unfoldable pub delete_server_condition : Outcome (Unit {0}) → MachineScope W → MachineScope W
  unfolding set_machine_condition error_text
  delete_server_condition (err e) s =
      set_machine_condition env server_ready_condition condition_false "ServerError" (error_text e)
        s
  delete_server_condition r s =
      set_machine_condition env server_ready_condition condition_false "ServerDeleting"
        "Server has been deleted" s

  unfoldable pub server_deleted : String → MachineReconcile W (Unit {0})
  unfolding ◌>>=◌
  server_deleted id = do
    modify (emit_machine "ServerDeleted" ("Deleted server " <> id))
    modify (put_server_id "")

  unfoldable pub after_server_delete : String → Option Error → MachineReconcile W (Unit {0})
  unfolding server_deleted error_is_not_found
  after_server_delete id none = server_deleted id
  after_server_delete id (some e) =
      if error_is_not_found e then server_deleted id else raise (wrap "deleting server" e)

  unfoldable pub delete_server_body : MachineReconcile W (Unit {0})
  unfolding after_server_delete ◌>>=◌
  delete_server_body = do
    id ← gets (λ s. s.cloudscale_machine.status.server_id)
    if id == "" then pure tt else do
      error ← machine_call (delete_call Resource.server id) (env.client.delete_server id)
      after_server_delete id error

  unfoldable pub delete_server : MachineReconcile W (Unit {0})
  unfolding delete_server_body delete_server_condition
  delete_server = deferred delete_server_body delete_server_condition
