-- ===== src/Machine/Update.antt =====
-- setServerStatusCondition and updateMachineFromServer
-- (internal/controller/cloudscalemachine_server.go).
use cluster_api_provider_clo.Base.{
  String, Bool, true, false, ◌||◌, Option, none, some, List, [], ◌∷◌, ◌++◌, ◌==◌, map,
  if◌then◌else◌, ◌<>◌, deref_or,
}
use cluster_api_provider_clo.Api.Conditions.{
  condition_true, condition_false, server_ready_condition,
}
use cluster_api_provider_clo.Api.Machine.{
  AddressType, machine_internal_ip, machine_external_ip, MachineAddress,
  MachineInitializationStatus,
}
use cluster_api_provider_clo.Sdk.{ServerInterface, Server}
use cluster_api_provider_clo.Scope.{Env}
use cluster_api_provider_clo.Machine.Scope.{
  MachineScope, update_machine_status, set_machine_condition, set_provider_id,
}
use cluster_api_provider_clo.Machine.Interfaces.{interface_type_public}

abbrev pub server_status_changing : String
server_status_changing = "changing"

abbrev pub server_status_running : String
server_status_running = "running"

abbrev pub server_status_stopped : String
server_status_stopped = "stopped"

abbrev pub server_status_paused : String
server_status_paused = "paused"

abbrev pub server_status_rescue_running : String
server_status_rescue_running = "rescue_running"

abbrev pub server_status_rescue_stopped : String
server_status_rescue_stopped = "rescue_stopped"

abbrev pub server_status_error : String
server_status_error = "error"

abbrev pub server_status_unknown : String
server_status_unknown = "unknown"

-- status.initialization.provisioned, false where either pointer is nil.
abbrev pub provisioned_flag : Option MachineInitializationStatus → Bool
provisioned_flag none = false
provisioned_flag (some init) = deref_or init.provisioned false

abbrev pub address_type : ServerInterface → AddressType
address_type iface =
    if iface.type == interface_type_public then machine_external_ip else machine_internal_ip

-- The loops over the interfaces and their addresses.
unfoldable pub server_addresses : List ServerInterface → List MachineAddress
server_addresses [] = []
server_addresses (iface ∷ rest) =
    map (λ a. record { type = address_type iface; address = a }) iface.addresses
    ++ server_addresses rest

module _ {W : Type 0} where
  abbrev pub is_already_provisioned : MachineScope W → Bool
  is_already_provisioned s = provisioned_flag s.cloudscale_machine.status.initialization

  unfoldable pub set_changing : Env W → Bool → MachineScope W → MachineScope W
  unfolding set_machine_condition
  set_changing env true =
      set_machine_condition env server_ready_condition condition_false "ServerChanging"
        "Server is transitioning"
  set_changing env false =
      set_machine_condition env server_ready_condition condition_false "ServerStarting"
        "Server is being created"

  -- The cases of a server that does not run.
  unfoldable pub other_status : Env W → Server → MachineScope W → MachineScope W
  unfolding set_changing set_machine_condition
  other_status env server s =
      if server.status == server_status_changing
      then set_changing env (is_already_provisioned s) s
      else if server.status == server_status_stopped
      then set_machine_condition env server_ready_condition condition_false "ServerStopped"
          "Server is stopped" s
      else if (server.status == server_status_rescue_running)
          || (server.status == server_status_rescue_stopped)
      then set_machine_condition env server_ready_condition condition_false "ServerInRescueMode"
          ("Server is in rescue mode (status: " <> server.status <> ")") s
      else if (server.status == server_status_paused)
          || (server.status == server_status_error)
          || (server.status == server_status_unknown)
      then set_machine_condition env server_ready_condition condition_false "ServerInternalError"
          ("Server has internal issue (status: " <> server.status
            <> "), contact cloudscale.ch support")
          s
      else set_machine_condition env server_ready_condition condition_false "ServerError"
          ("Unknown server status: " <> server.status) s

  unfoldable pub set_server_status_condition : Env W → Server → MachineScope W → MachineScope W
  unfolding other_status set_machine_condition
  set_server_status_condition env server s =
      if server.status == server_status_running
      then set_machine_condition env server_ready_condition condition_true "ServerRunning" "" s
      else other_status env server s

  unfoldable pub update_machine_from_server : Server → MachineScope W → MachineScope W
  unfolding set_provider_id server_addresses
  update_machine_from_server server s =
      update_machine_status (λ st. record st { addresses = server_addresses server.interfaces })
        (set_provider_id server.uuid s)
