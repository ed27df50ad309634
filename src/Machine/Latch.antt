-- ===== src/Machine/Latch.antt =====
-- What a reconcile of a machine never takes back: that it is provisioned, and the ID of its server.
use cluster_api_provider_clo.Base.{
  String, ◌≡◌, refl, sym, ◌∙◌, ◌⊎◌, inl, inr, Bool, Bool-cases, true, Option, none, some, arith,
  if◌then◌else◌,
}
use cluster_api_provider_clo.Api.Conditions.{
  Condition, ConditionsLaws, is_true, server_ready_condition,
}
use cluster_api_provider_clo.Api.Machine.{ServerGroupSpec}
use cluster_api_provider_clo.Go.{
  Outcome, ok, err, panic, CtrlResult, is_zero, continue, ◌>>=◌, annotate, modify, pure,
}
use cluster_api_provider_clo.Scope.{Env}
use cluster_api_provider_clo.Machine.Scope.{MachineScope, set_machine_condition}
use cluster_api_provider_clo.Machine.Update.{is_already_provisioned}
use cluster_api_provider_clo.Machine.Server.{reconcile_server}
use cluster_api_provider_clo.Machine.Group.{reconcile_server_group}
use cluster_api_provider_clo.Machine.Normal.{
  mark_machine_provisioned, server_step, group_step, after_bootstrap, machine_not_ready,
  machine_ready_from, set_machine_ready_condition, reconcile_machine_normal,
}
use cluster_api_provider_clo.Machine.Kept.{Within-reconcile_server, Within-reconcile_server_group}
use cluster_api_provider_clo.Machine.Conditions.{set_machine_ready_condition-is_true}

module _ {W : Type 0} (env : Env W) where
  abbrev ready : MachineScope W → Bool
  ready s = is_true env.conditions s.cloudscale_machine.status.conditions server_ready_condition

  -- From `s` to `t`, provisioned stays set, and becomes set only if the server is ready then.
  record Latched (s t : MachineScope W) : Type 0 where
    keeps : is_already_provisioned s ≡ true → is_already_provisioned t ≡ true
    only : is_already_provisioned t ≡ true → (is_already_provisioned s ≡ true) ⊎ (ready t ≡ true)

  Latched-same :
      (s t : MachineScope W)
      → t.cloudscale_machine.status.initialization ≡ s.cloudscale_machine.status.initialization
      → Latched s t
  Latched-same s t e = record { keeps = λ h. rw e h; only = λ h. inl (rw (sym e) h) }

  mark-Latched :
      (s t : MachineScope W)
      → t.cloudscale_machine.status.initialization ≡ s.cloudscale_machine.status.initialization
      → Latched s (mark_machine_provisioned env t)
  unfolding mark_machine_provisioned
  mark-Latched s t e = record { keeps = λ h. ground (arith, e); only = λ h. ground (arith, e) }

  Latched-from :
      (s t u : MachineScope W)
      → t.cloudscale_machine.status.initialization ≡ s.cloudscale_machine.status.initialization
      → Latched t u
      → Latched s u
  Latched-from s t u e k = record {
    keeps = λ h. k.keeps (rw e h);
    only = λ h. elim (k.only h) [ inl before ↦ inl (rw (sym e) before) | inr now ↦ inr now ];
  }

  after_server-Latched :
      (r : Outcome CtrlResult) (s t : MachineScope W)
      → t.cloudscale_machine.status.initialization ≡ s.cloudscale_machine.status.initialization
      → Latched s
          (continue r (λ result. modify (mark_machine_provisioned env) >>= λ _. pure result) t).1
  unfolding ◌>>=◌
  after_server-Latched (ok result) s t e = mark-Latched s t e
  after_server-Latched (err error) s t e = Latched-same s t e
  after_server-Latched panic s t e = Latched-same s t e

  server_step-Latched : (s : MachineScope W) → Latched s (server_step env s).1
  unfolding server_step annotate ◌>>=◌
  server_step-Latched s =
      after_server-Latched _ s (reconcile_server env s).1
        ((Within-reconcile_server env (λ m. m.status.initialization) (λ m p a cs. refl)
            (λ m id. refl)).at
          s).at

  after_group_result :
      (result : CtrlResult) (s t : MachineScope W)
      → t.cloudscale_machine.status.initialization ≡ s.cloudscale_machine.status.initialization
      → Latched s ((if is_zero result then server_step env else pure result) t).1
  after_group_result result s t e = elim (Bool-cases (is_zero result)) [
    | inl z ↦ rw z (Latched-from s t _ e (server_step-Latched t))
    | inr z ↦ rw z (Latched-same s t e)
  ]

  after_group-Latched :
      (r : Outcome CtrlResult) (s t : MachineScope W)
      → t.cloudscale_machine.status.initialization ≡ s.cloudscale_machine.status.initialization
      → Latched s
          (continue r (λ result. if is_zero result then server_step env else pure result) t).1
  after_group-Latched (ok result) s t e = after_group_result result s t e
  after_group-Latched (err error) s t e = Latched-same s t e
  after_group-Latched panic s t e = Latched-same s t e

  group_step-Latched :
      (spec : Option ServerGroupSpec) (s : MachineScope W) → Latched s (group_step env spec s).1
  unfolding group_step ◌>>=◌
  group_step-Latched none s = server_step-Latched s
  group_step-Latched (some spec) s =
      after_group-Latched (reconcile_server_group env s).0 s (reconcile_server_group env s).1
        ((Within-reconcile_server_group env (λ m. m.status.initialization) (λ m p a cs. refl)
            (λ m id. refl)).at
          s).at

  after_bootstrap-Latched :
      (name : Option String) (s : MachineScope W) → Latched s (after_bootstrap env name s).1
  unfolding after_bootstrap set_machine_condition ◌>>=◌
  after_bootstrap-Latched none s = Latched-same s _ refl
  after_bootstrap-Latched (some name) s =
      group_step-Latched s.cloudscale_machine.spec.server_group s

  initialization-not_ready :
      (type : String) (c : Option Condition) (s : MachineScope W)
      → (machine_not_ready env type c s).cloudscale_machine.status.initialization
        ≡ s.cloudscale_machine.status.initialization
  unfolding machine_not_ready set_machine_condition
  initialization-not_ready type none s = refl
  initialization-not_ready type (some c) s = refl

  initialization-set_ready :
      (s : MachineScope W)
      → (set_machine_ready_condition env s).cloudscale_machine.status.initialization
        ≡ s.cloudscale_machine.status.initialization
  unfolding set_machine_ready_condition machine_ready_from set_machine_condition
  initialization-set_ready s = ground (
    arith,
    initialization-not_ready server_ready_condition
        (env.conditions.get s.cloudscale_machine.status.conditions server_ready_condition) s,
  )

  Latched-set_ready :
      (laws : ConditionsLaws env.conditions) (s t : MachineScope W)
      → Latched s t
      → Latched s (set_machine_ready_condition env t)
  Latched-set_ready laws s t k =
      let same = initialization-set_ready t in
      record {
        keeps = λ h. rw same (k.keeps h);
        only = λ h. elim (k.only (rw (sym same) h)) [
          | inl before ↦ inl before
          | inr now ↦
              inr (set_machine_ready_condition-is_true env laws t server_ready_condition ∙ now)
        ];
      }

  -- However reconcileNormal ends, a machine that was provisioned stays provisioned, and one that is
  -- provisioned afterwards was so before or has the ServerReady condition true.
  pub reconcile_machine_normal-latch :
      (laws : ConditionsLaws env.conditions) (s : MachineScope W)
      → (is_already_provisioned s ≡ true
          → is_already_provisioned (reconcile_machine_normal env s).1 ≡ true)
        × (is_already_provisioned (reconcile_machine_normal env s).1 ≡ true
            → (is_already_provisioned s ≡ true)
              ⊎ (is_true env.conditions
                    (reconcile_machine_normal env s).1.cloudscale_machine.status.conditions
                    server_ready_condition
                  ≡ true))
  unfolding reconcile_machine_normal ◌>>=◌
  reconcile_machine_normal-latch laws s =
      let k = Latched-set_ready laws s _ (after_bootstrap-Latched s.machine.data_secret_name s) in
      (k.keeps, k.only)
