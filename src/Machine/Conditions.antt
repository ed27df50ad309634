-- ===== src/Machine/Conditions.antt =====
-- The conditions of a machine: what a server's status makes of ServerReady, and what reconcileNormal
-- makes of Ready.
use cluster_api_provider_clo.Base.{
  String, ◌≡◌, sym, ◌∙◌, Bool, true, false, Option, none, some, arith, ◌==◌, if◌then◌else◌,
  Bool-cases, inl, inr,
}
use cluster_api_provider_clo.Api.Conditions.{
  ConditionStatus, condition_true, condition_false, Condition, ConditionsLaws, status_is_true,
  is_true, ready_condition, server_ready_condition,
}
use cluster_api_provider_clo.Scope.{Env}
use cluster_api_provider_clo.Sdk.{Server}
use cluster_api_provider_clo.Machine.Scope.{MachineScope, set_machine_condition}
use cluster_api_provider_clo.Machine.Update.{
  server_status_running, set_changing, other_status, set_server_status_condition,
}
use cluster_api_provider_clo.Machine.Normal.{
  machine_not_ready, machine_ready_from, set_machine_ready_condition, reconcile_machine_normal,
}

module _ {W : Type 0} (env : Env W) (laws : ConditionsLaws env.conditions) where
  -- Whether the machine has the condition with status True.
  abbrev pub machine_is_true : MachineScope W → String → Bool
  machine_is_true s t = is_true env.conditions s.cloudscale_machine.status.conditions t

  pub is_true-set_machine_condition :
      (type : String) (status : ConditionStatus) (reason message : String) (s : MachineScope W)
      (t : String)
      → machine_is_true (set_machine_condition env type status reason message s) t
        ≡ (if type == t then status_is_true status else machine_is_true s t)
  unfolding set_machine_condition
  is_true-set_machine_condition type status reason message s t = ground (
    arith,
    laws.get-set (record { type = type; status = status; reason = reason; message = message })
        s.cloudscale_machine.status.conditions t,
  )

  -- A state in which ServerReady is `b`, and the other conditions are those of `s`.
  record SetsReady (s : MachineScope W) (t : String) (b : Bool) (u : MachineScope W) : Type 0 where
    at : machine_is_true u t ≡ (if server_ready_condition == t then b else machine_is_true s t)

  SetsReady-false :
      (reason message : String) (s : MachineScope W) (t : String)
      → SetsReady s t false
          (set_machine_condition env server_ready_condition condition_false reason message s)
  SetsReady-false reason message s t = record {
    at = is_true-set_machine_condition server_ready_condition condition_false reason message s t;
  }

  SetsReady-changing :
      (b : Bool) (s : MachineScope W) (t : String) → SetsReady s t false (set_changing env b s)
  unfolding set_changing
  SetsReady-changing true s t = SetsReady-false _ _ s t
  SetsReady-changing false s t = SetsReady-false _ _ s t

  SetsReady-if :
      (s : MachineScope W) (t : String) (b c : Bool) (u v : MachineScope W)
      → SetsReady s t b u
      → SetsReady s t b v
      → SetsReady s t b (if c then u else v)
  SetsReady-if s t b true u v h k = h
  SetsReady-if s t b false u v h k = k

  SetsReady-other :
      (server : Server) (s : MachineScope W) (t : String)
      → SetsReady s t false (other_status env server s)
  unfolding other_status
  SetsReady-other server s t = search (SetsReady-if, SetsReady-false, SetsReady-changing)

  -- Whatever status the server has, also one that the program does not know, ServerReady becomes true
  -- exactly where the status is "running", and no other condition changes.
  pub set_server_status_condition-running :
      (server : Server) (s : MachineScope W) (t : String)
      → is_true env.conditions
          (set_server_status_condition env server s).cloudscale_machine.status.conditions
          t
        ≡ (if server_ready_condition == t
            then server.status == server_status_running
            else is_true env.conditions s.cloudscale_machine.status.conditions t)
  unfolding set_server_status_condition
  set_server_status_condition-running server s t =
      elim (Bool-cases (server.status == server_status_running)) [
        | inl e ↦ ground (
          arith,
          is_true-set_machine_condition server_ready_condition condition_true "ServerRunning" "" s
              t,
        )
        | inr e ↦ rw e (SetsReady-other server s t).at
      ]

  machine_not_ready-is_true :
      (type : String) (c : Option Condition) (s : MachineScope W) (t : String)
      → machine_is_true (machine_not_ready env type c s) t
        ≡ (if ready_condition == t then false else machine_is_true s t)
  unfolding machine_not_ready
  machine_not_ready-is_true type none s t =
      is_true-set_machine_condition ready_condition condition_false "NotReady" _ s t
  machine_not_ready-is_true type (some c) s t =
      is_true-set_machine_condition ready_condition condition_false c.reason c.message s t

  -- setReadyCondition makes Ready what ServerReady is, and leaves the other conditions.
  pub set_machine_ready_condition-is_true :
      (s : MachineScope W) (t : String)
      → machine_is_true (set_machine_ready_condition env s) t ≡ (
          if ready_condition == t
          then machine_is_true s server_ready_condition
          else machine_is_true s t)
  unfolding set_machine_ready_condition machine_ready_from
  set_machine_ready_condition-is_true s t = ground (
    arith,
    is_true-set_machine_condition ready_condition condition_true "Ready" "" s t,
    machine_not_ready-is_true server_ready_condition
        (env.conditions.get s.cloudscale_machine.status.conditions server_ready_condition) s t,
  )

  -- However reconcileNormal ends, with an error, early or at its end, the Ready condition that it
  -- leaves is true exactly where the ServerReady condition that it leaves is.
  pub reconcile_machine_normal-Ready :
      (s : MachineScope W)
      → is_true env.conditions
          (reconcile_machine_normal env s).1.cloudscale_machine.status.conditions
          ready_condition
        ≡ is_true env.conditions
            (reconcile_machine_normal env s).1.cloudscale_machine.status.conditions
            server_ready_condition
  unfolding reconcile_machine_normal
  reconcile_machine_normal-Ready s =
      set_machine_ready_condition-is_true _ ready_condition
      ∙ sym (set_machine_ready_condition-is_true _ server_ready_condition)
