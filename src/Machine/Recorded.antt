-- ===== src/Machine/Recorded.antt =====
-- The ID of a machine's server, once it is on record.
use cluster_api_provider_clo.Base.{
  String, ◌≡◌, refl, ap, ◌∙◌, inl, inr, Bool-cases, false, Option, none, some, arith, ◌==◌,
  if◌then◌else◌,
}
use cluster_api_provider_clo.Api.Conditions.{Condition, server_ready_condition}
use cluster_api_provider_clo.Api.Machine.{ServerGroupSpec}
use cluster_api_provider_clo.Go.{
  Outcome, ok, err, panic, CtrlResult, is_zero, continue, ◌>>=◌, annotate, modify, pure,
  wrap_outcome,
}
use cluster_api_provider_clo.Scope.{Env}
use cluster_api_provider_clo.Machine.Scope.{MachineScope, set_machine_condition}
use cluster_api_provider_clo.Machine.Server.{reconcile_server}
use cluster_api_provider_clo.Machine.Group.{reconcile_server_group}
use cluster_api_provider_clo.Machine.Normal.{
  mark_machine_provisioned, server_step, group_step, after_bootstrap, machine_not_ready,
  machine_ready_from, set_machine_ready_condition, reconcile_machine_normal,
}
use cluster_api_provider_clo.Machine.Kept.{reconcile_server-Stays, Within-reconcile_server_group}

module _ {W : Type 0} (env : Env W) where
  abbrev server_id_of : MachineScope W → String
  server_id_of s = s.cloudscale_machine.status.server_id

  after_server-id :
      (r : Outcome CtrlResult) (t : MachineScope W)
      → server_id_of
          (continue r (λ result. modify (mark_machine_provisioned env) >>= λ _. pure result) t).1
        ≡ server_id_of t
  unfolding mark_machine_provisioned ◌>>=◌
  after_server-id (ok result) t = ground arith
  after_server-id (err e) t = refl
  after_server-id panic t = refl

  server_step-id :
      (s : MachineScope W)
      → (server_id_of s == "") ≡ false
      → server_id_of (server_step env s).1 ≡ server_id_of s
  unfolding server_step annotate ◌>>=◌
  server_step-id s h =
      after_server-id (wrap_outcome "reconciling server" (reconcile_server env s).0)
        (reconcile_server env s).1
      ∙ (reconcile_server-Stays env (λ m. m.status.server_id) (λ m p a cs. refl) s h).at

  after_group-id :
      (r : Outcome CtrlResult) (t : MachineScope W)
      → (server_id_of t == "") ≡ false
      → server_id_of
          (continue r (λ result. if is_zero result then server_step env else pure result) t).1
        ≡ server_id_of t
  after_group-id (ok result) t h = elim (Bool-cases (is_zero result)) [
    | inl z ↦ rw z (server_step-id t h)
    | inr z ↦ rw z refl
  ]
  after_group-id (err e) t h = refl
  after_group-id panic t h = refl

  group_step-id :
      (spec : Option ServerGroupSpec) (s : MachineScope W)
      → (server_id_of s == "") ≡ false
      → server_id_of (group_step env spec s).1 ≡ server_id_of s
  unfolding group_step ◌>>=◌
  group_step-id none s h = server_step-id s h
  group_step-id (some spec) s h =
      let run = reconcile_server_group env s in
      let same =
        ((Within-reconcile_server_group env (λ m. m.status.server_id) (λ m p a cs. refl)
            (λ m id. refl)).at
          s).at in
      after_group-id run.0 run.1 (ap (λ id. id == "") same ∙ h) ∙ same

  after_bootstrap-id :
      (name : Option String) (s : MachineScope W)
      → (server_id_of s == "") ≡ false
      → server_id_of (after_bootstrap env name s).1 ≡ server_id_of s
  unfolding after_bootstrap set_machine_condition ◌>>=◌
  after_bootstrap-id none s h = refl
  after_bootstrap-id (some name) s h = group_step-id s.cloudscale_machine.spec.server_group s h

  server_id-not_ready :
      (type : String) (c : Option Condition) (s : MachineScope W)
      → server_id_of (machine_not_ready env type c s) ≡ server_id_of s
  unfolding machine_not_ready set_machine_condition
  server_id-not_ready type none s = refl
  server_id-not_ready type (some c) s = refl

  server_id-set_ready :
      (s : MachineScope W) → server_id_of (set_machine_ready_condition env s) ≡ server_id_of s
  unfolding set_machine_ready_condition machine_ready_from set_machine_condition
  server_id-set_ready s = ground (
    arith,
    server_id-not_ready server_ready_condition
        (env.conditions.get s.cloudscale_machine.status.conditions server_ready_condition) s,
  )

  -- Where the status names a server, reconcileNormal leaves its ID as it is, whatever the calls
  -- answer and however it ends.
  pub reconcile_machine_normal-server_id :
      (s : MachineScope W)
      → (s.cloudscale_machine.status.server_id == "") ≡ false
      → (reconcile_machine_normal env s).1.cloudscale_machine.status.server_id
        ≡ s.cloudscale_machine.status.server_id
  unfolding reconcile_machine_normal ◌>>=◌
  reconcile_machine_normal-server_id s h =
      server_id-set_ready (after_bootstrap env s.machine.data_secret_name s).1
      ∙ after_bootstrap-id s.machine.data_secret_name s h
