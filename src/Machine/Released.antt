-- ===== src/Machine/Released.antt =====
-- When the reconcileDelete of a machine gives up the finalizer.
use cluster_api_provider_clo.Base.{
  String, ◌≡◌, ◌≢◌, refl, ap, ◌∙◌, ◌⊎◌, inl, inr, Bool, true, Bool-cases, Option, none, some, arith,
  ◌==◌, eq_iff, if◌then◌else◌,
}
use cluster_api_provider_clo.Errors.{Error, error_is_not_found}
use cluster_api_provider_clo.Api.Conditions.{
  condition_true, condition_false, ready_condition, deleting_condition,
}
use cluster_api_provider_clo.Api.Machine.{CloudscaleMachine, ServerGroupSpec}
use cluster_api_provider_clo.Go.{
  Outcome, ok, err, panic, CtrlResult, no_requeue, continue, ◌>>=◌, ◌>>◌, annotate, modify, pure,
  wrap_outcome,
}
use cluster_api_provider_clo.Scope.{Env}
use cluster_api_provider_clo.Sdk.{Resource, delete_call}
use cluster_api_provider_clo.Machine.Scope.{
  MachineScope, MachineReconcile, machine_call, set_machine_condition,
}
use cluster_api_provider_clo.Machine.Server.{
  delete_server_condition, server_deleted, after_server_delete, delete_server_body, delete_server,
}
use cluster_api_provider_clo.Machine.Group.{clear_group, delete_server_group}
use cluster_api_provider_clo.Machine.Deletion.{
  machine_finalizer, drop_machine_finalizer, reconcile_machine_delete,
}

-- Whether the answer to a delete call tells that the server is gone.
abbrev pub confirms : Option Error → Bool
confirms none = true
confirms (some e) = error_is_not_found e

-- Whether the status names no server, or the call that deletes the one it names is answered so.
abbrev no_server : {W : Type 0} → Env W → MachineScope W → Bool
no_server env s =
    let id = s.cloudscale_machine.status.server_id in
    if id == "" then true else confirms (env.client.delete_server id s.world).0

-- What the reconcileDelete of a machine has cleaned up, from the state that it started with.
pub record MachineReleased {W : Type 0} (env : Env W) (s : MachineScope W) (r : Outcome CtrlResult)
    (after : CloudscaleMachine) : Type 0 where
  pub ended : r ≡ ok no_requeue
  pub finalizers :
      after.finalizers ≡ env.remove_finalizer s.cloudscale_machine.finalizers machine_finalizer
  pub server_id : after.status.server_id ≡ ""
  pub confirmed :
      s.cloudscale_machine.status.server_id ≢ ""
      → confirms (env.client.delete_server s.cloudscale_machine.status.server_id s.world).0 ≡ true

module _ {W : Type 0} (env : Env W) where
  -- How deleteServer ends: the finalizers are the same, and success means that the server is gone.
  record Ends (s : MachineScope W) (r : Outcome (Unit {0})) (t : MachineScope W) : Type 0 where
    finalizers : t.cloudscale_machine.finalizers ≡ s.cloudscale_machine.finalizers
    gone :
        (a : Unit {0})
        → r ≡ ok a
        → (t.cloudscale_machine.status.server_id ≡ "") × (no_server env s ≡ true)

  Ends-condition :
      (s t : MachineScope W) (r : Outcome (Unit {0}))
      → Ends s r t
      → Ends s r (delete_server_condition env r t)
  unfolding delete_server_condition set_machine_condition
  Ends-condition s t (ok a) k = record { finalizers = k.finalizers; gone = k.gone }
  Ends-condition s t (err e) k = record { finalizers = k.finalizers; gone = k.gone }
  Ends-condition s t panic k = record { finalizers = k.finalizers; gone = k.gone }

  after_delete-Ends :
      (id : String) (o : Option Error) (s t : MachineScope W)
      → t.cloudscale_machine.finalizers ≡ s.cloudscale_machine.finalizers
      → (confirms o ≡ true → no_server env s ≡ true)
      → Ends s (after_server_delete env id o t).0 (after_server_delete env id o t).1
  unfolding after_server_delete server_deleted ◌>>=◌
  after_delete-Ends id none s t f k = record { finalizers = f; gone = λ a h. (refl, k refl) }
  after_delete-Ends id (some e) s t f k = record {
    finalizers = ground arith;
    gone = λ a h. ground (arith, k);
  }

  body-Ends :
      (s : MachineScope W) → Ends s (delete_server_body env s).0 (delete_server_body env s).1
  unfolding delete_server_body ◌>>=◌
  body-Ends s =
      let id = s.cloudscale_machine.status.server_id in
      let answered =
        machine_call (delete_call Resource.server id) (env.client.delete_server id) s in
      elim (Bool-cases (id == "")) [
        | inl e ↦ rw e (record { finalizers = refl; gone = λ a h. ((eq_iff id "").0 e, rw e refl) })
        | inr e ↦ rw e (
            after_delete-Ends id (env.client.delete_server id s.world).0 s answered.1 refl
              (λ h. rw e h))
      ]

  delete_server-Ends : (s : MachineScope W) → Ends s (delete_server env s).0 (delete_server env s).1
  unfolding delete_server
  delete_server-Ends s =
      Ends-condition s (delete_server_body env s).1 (delete_server_body env s).0 (body-Ends s)

  -- What follows deleteServer.
  abbrev rest : Unit {0} → MachineReconcile W CtrlResult
  rest _ =
      modify delete_server_group
      >> modify (
          set_machine_condition env ready_condition condition_false "Deleting"
            "Machine infrastructure has been deleted")
      >> modify (drop_machine_finalizer env)
      >> pure no_requeue

  cleared_keeps :
      (spec : Option ServerGroupSpec) (t : MachineScope W)
      → ((clear_group spec t).cloudscale_machine.finalizers ≡ t.cloudscale_machine.finalizers)
        × ((clear_group spec t).cloudscale_machine.status.server_id
            ≡ t.cloudscale_machine.status.server_id)
  cleared_keeps none t = (refl, refl)
  cleared_keeps (some spec) t = (refl, refl)

  answered_for :
      (s : MachineScope W)
      → no_server env s ≡ true
      → s.cloudscale_machine.status.server_id ≢ ""
      → confirms (env.client.delete_server s.cloudscale_machine.status.server_id s.world).0 ≡ true
  answered_for s h n = ground (arith, eq_iff s.cloudscale_machine.status.server_id "")

  rest-released :
      (s t : MachineScope W) (a : Unit {0})
      → Ends s (ok a) t
      → MachineReleased env s (rest a t).0 (rest a t).1.cloudscale_machine
  unfolding delete_server_group set_machine_condition ◌>>=◌
  rest-released s t a k =
      let kept = cleared_keeps t.cloudscale_machine.spec.server_group t in
      record {
        ended = refl;
        finalizers = ap (λ fs. env.remove_finalizer fs machine_finalizer) (kept.0 ∙ k.finalizers);
        server_id = kept.1 ∙ (k.gone a refl).0;
        confirmed = answered_for s (k.gone a refl).1;
      }

  finish :
      (s t : MachineScope W) (r : Outcome (Unit {0}))
      → Ends s r t
      → let u = continue (wrap_outcome "deleting server" r) rest t in
        (u.1.cloudscale_machine.finalizers ≡ s.cloudscale_machine.finalizers)
        ⊎ MachineReleased env s u.0 u.1.cloudscale_machine
  finish s t (ok a) k = inr (rest-released s t a k)
  finish s t (err e) k = inl k.finalizers
  finish s t panic k = inl k.finalizers

  -- The reconcileDelete of a machine leaves the finalizers as they are, or it returns without a
  -- requeue, has removed the machine's finalizer, the status names no server any more, and where it
  -- named one at the start, the call that deletes it was answered without an error or with the error
  -- that the server is not found.
  pub reconcile_machine_delete-Released :
      (s : MachineScope W)
      → ((reconcile_machine_delete env s).1.cloudscale_machine.finalizers
          ≡ s.cloudscale_machine.finalizers)
        ⊎ MachineReleased env s
            (reconcile_machine_delete env s).0
            (reconcile_machine_delete env s).1.cloudscale_machine
  unfolding reconcile_machine_delete set_machine_condition annotate ◌>>=◌
  reconcile_machine_delete-Released s =
      let t =
        set_machine_condition env deleting_condition condition_true "Deleting" "Deleting server"
          s in
      let run = delete_server env t in
      let k = delete_server-Ends t in
      finish s run.1 run.0 (record { finalizers = k.finalizers; gone = k.gone })
