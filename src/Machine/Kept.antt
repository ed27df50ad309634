-- ===== src/Machine/Kept.antt =====
-- What reconcileServer and reconcileServerGroup leave as it is in the machine.
use cluster_api_provider_clo.Base.{
  String, Bool, true, false, if◌then◌else◌, ◌==◌, ◌≡◌, refl, ap, ◌∙◌, Option, none, some, List, [],
  ◌∷◌,
}
use cluster_api_provider_clo.Api.Conditions.{ConditionStatus, Condition}
use cluster_api_provider_clo.Api.Machine.{MachineAddress, CloudscaleMachine, ServerGroupSpec}
use cluster_api_provider_clo.Sdk.{
  Call, Server, ServerRequest, ServerGroup, ServerGroupRequest, Answer, reply, failure,
}
use cluster_api_provider_clo.Go.{
  Outcome, ok, err, panic, CtrlResult, continue, ◌>>=◌, gets, modify, pure, requeue_or_raise,
}
use cluster_api_provider_clo.Go.Frame.{IsFrame, Within, Within-deferred, frame_rules}
use cluster_api_provider_clo.Scope.{Env}
use cluster_api_provider_clo.Machine.Scope.{
  MachineScope, MachineReconcile, machine_call, set_machine_condition, set_provider_id,
  secret_value, read_secret, get_bootstrap_data, emit_machine,
}
use cluster_api_provider_clo.Machine.Update.{
  set_changing, other_status, set_server_status_condition, update_machine_from_server,
}
use cluster_api_provider_clo.Machine.Server.{
  put_server_id, use_server, after_server_create, send_server_request, create_server, adopt_server,
  find_or_create_server, after_server_get, server_known, reconcile_server_body, server_condition,
  reconcile_server,
}
use cluster_api_provider_clo.Machine.Group.{
  put_group_id, after_group_create, use_group, find_or_create_group, after_group_get,
  reconcile_group_spec, server_group_condition, reconcile_server_group,
}

-- The last line of reconcileServer changes no state.
pub result-state :
    {W : Type 0} (r : Outcome (CtrlResult × Option Server)) (t : MachineScope W)
    → (continue r (λ p. pure p.0) t).1 ≡ t
result-state (ok p) t = refl
result-state (err e) t = refl
result-state panic t = refl

module _ {W X : Type 0} (env : Env W) (g : CloudscaleMachine → X)
    (stable : (m : CloudscaleMachine) (p : Option String) (a : List MachineAddress)
        (cs : List Condition)
      → g (record m {
        spec = record m.spec { provider_id = p };
        status = record m.status { addresses = a; conditions = cs };
      })
        ≡ g m) where
  -- The part that `g` reads is the same before and after.
  pub record Stays (s t : MachineScope W) : Type 0 where
    pub at : g t.cloudscale_machine ≡ g s.cloudscale_machine

  frame : IsFrame Stays
  frame = record {
    same = λ s. record { at = refl };
    after = λ s t u p q. record { at = q.at ∙ p.at };
  }

  Stays-condition :
      (type : String) (status : ConditionStatus) (reason message : String) (s : MachineScope W)
      → Stays s (set_machine_condition env type status reason message s)
  unfolding set_machine_condition
  Stays-condition type status reason message s = record {
    at =
        stable s.cloudscale_machine s.cloudscale_machine.spec.provider_id
          s.cloudscale_machine.status.addresses _;
  }

  Stays-changing : (b : Bool) (s : MachineScope W) → Stays s (set_changing env b s)
  unfolding set_changing
  Stays-changing true s = Stays-condition _ _ _ _ s
  Stays-changing false s = Stays-condition _ _ _ _ s

  Stays-if :
      (s : MachineScope W) (b : Bool) (t u : MachineScope W)
      → Stays s t
      → Stays s u
      → Stays s (if b then t else u)
  Stays-if s true t u h k = h
  Stays-if s false t u h k = k

  Stays-status :
      (server : Server) (s : MachineScope W) → Stays s (set_server_status_condition env server s)
  unfolding set_server_status_condition other_status
  Stays-status server s = search (Stays-if, Stays-condition, Stays-changing) depth 8

  Within-call : {A : Type 0} (c : Call) (f : W → A × W) → Within Stays (machine_call c f)
  Within-call c f = record { at = λ s. record { at = refl } }

  Within-gets : {A : Type 0} (f : MachineScope W → A) → Within Stays (gets f)
  Within-gets f = record { at = λ s. record { at = refl } }

  Within-emit : (reason note : String) → Within Stays (modify (emit_machine reason note))
  Within-emit reason note = record { at = λ s. record { at = refl } }

  Within-use : (server : Server) → Within Stays (use_server server)
  unfolding use_server update_machine_from_server set_provider_id ◌>>=◌
  Within-use server = record { at = λ s. record { at = stable s.cloudscale_machine _ _ _ } }

  Within-after_get :
      (id : String) (answer : Answer Server) → Within Stays (after_server_get env id answer)
  unfolding after_server_get
  Within-after_get id (reply server) = Within-use server
  Within-after_get id (failure e) = search (frame_rules, frame, Stays-condition)

  Within-secret_value : (o : Option String) → Within Stays (secret_value env o)
  unfolding secret_value
  Within-secret_value none = search (frame_rules, frame)
  Within-secret_value (some value) = search (frame_rules, frame)

  Within-read_secret :
      (namespace : String) (name : Option String) → Within Stays (read_secret env namespace name)
  unfolding read_secret
  Within-read_secret namespace none = search (frame_rules, frame)
  Within-read_secret namespace (some name) =
      search (frame_rules, frame, Within-call, Within-secret_value)

  pub Within-get_bootstrap_data : Within Stays (get_bootstrap_data env)
  unfolding get_bootstrap_data
  Within-get_bootstrap_data = search (frame_rules, frame, Within-gets, Within-read_secret)

  Stays-server_condition :
      (r : Outcome (CtrlResult × Option Server)) (s : MachineScope W)
      → Stays s (server_condition env r s)
  unfolding server_condition
  Stays-server_condition (err e) s = Stays-condition _ _ _ _ s
  Stays-server_condition (ok (result, some server)) s = Stays-status server s
  Stays-server_condition (ok (result, none)) s = record { at = refl }
  Stays-server_condition panic s = record { at = refl }

  Stays-server_group_condition :
      (r : Outcome CtrlResult) (s : MachineScope W) → Stays s (server_group_condition env r s)
  unfolding server_group_condition
  Stays-server_group_condition (err e) s = Stays-condition _ _ _ _ s
  Stays-server_group_condition (ok result) s = Stays-condition _ _ _ _ s
  Stays-server_group_condition panic s = Stays-condition _ _ _ _ s

  Within-got : (id : String) → Within Stays (server_known env id)
  unfolding server_known
  Within-got id = search (frame_rules, frame, Within-call, Within-after_get)

  body-branch :
      (b : Bool) (m n : MachineReconcile W (CtrlResult × Option Server)) (s : MachineScope W)
      → b ≡ false
      → Within Stays n
      → Stays s ((if b then m else n) s).1
  body-branch true m n s h k = cc
  body-branch false m n s h k = k.at s

  -- Where the status has a server ID, reconcileServer writes no more than the provider ID, the
  -- addresses and the conditions.
  pub reconcile_server-Stays :
      (s : MachineScope W)
      → (s.cloudscale_machine.status.server_id == "") ≡ false
      → Stays s (reconcile_server env s).1
  unfolding reconcile_server reconcile_server_body ◌>>=◌
  reconcile_server-Stays s h =
      let id = s.cloudscale_machine.status.server_id in
      let run = reconcile_server_body env s in
      frame.after s _ _
        (frame.after s run.1 _
          (body-branch (id == "") (find_or_create_server env) (server_known env id) s h
            (Within-got id))
          (Stays-server_condition run.0 run.1))
        (record { at = ap (λ (t : MachineScope W). g t.cloudscale_machine) (result-state run.0 _) })

  module _
      (id_stable : (m : CloudscaleMachine) (id : String)
        → g (record m { status = record m.status { server_id = id } }) ≡ g m) where
    Within-put_id : (id : String) → Within Stays (modify (put_server_id id))
    Within-put_id id = record { at = λ s. record { at = id_stable s.cloudscale_machine id } }

    Within-after_create : (answer : Answer Server) → Within Stays (after_server_create env answer)
    unfolding after_server_create
    Within-after_create (failure e) = search (frame_rules, frame)
    Within-after_create (reply server) =
        search (frame_rules, frame, Within-put_id, Within-gets, Within-emit, Within-use)

    Within-send : (req : ServerRequest) → Within Stays (send_server_request env req)
    unfolding send_server_request
    Within-send req = search (frame_rules, frame, Within-call, Within-after_create)

    Within-create : Within Stays (create_server env)
    unfolding create_server
    Within-create = search (frame_rules, frame, Within-gets, Within-get_bootstrap_data, Within-send)

    Within-adopt : (servers : List Server) → Within Stays (adopt_server env servers)
    unfolding adopt_server
    Within-adopt [] = Within-create
    Within-adopt (server ∷ []) = search (frame_rules, frame, Within-put_id, Within-use)
    Within-adopt (a ∷ b ∷ rest) = search (frame_rules, frame)

    Within-find : Within Stays (find_or_create_server env)
    unfolding find_or_create_server
    Within-find = search (frame_rules, frame, Within-gets, Within-call, Within-adopt)

    Within-body : Within Stays (reconcile_server_body env)
    unfolding reconcile_server_body
    Within-body =
        search (frame_rules, frame, Within-gets, Within-call, Within-find, Within-after_get)

    pub Within-reconcile_server : Within Stays (reconcile_server env)
    unfolding reconcile_server
    Within-reconcile_server =
        search (frame_rules, frame, Within-deferred, Within-body, Stays-server_condition)

  module _
      (group_stable : (m : CloudscaleMachine) (id : String)
        → g (record m { status = record m.status { server_group_id = id } }) ≡ g m) where
    Within-put_group : (id : String) → Within Stays (modify (put_group_id id))
    Within-put_group id = record { at = λ s. record { at = group_stable s.cloudscale_machine id } }

    Within-after_group_create :
        (answer : Answer ServerGroup) → Within Stays (after_group_create env answer)
    unfolding after_group_create requeue_or_raise
    Within-after_group_create (reply group) = search (frame_rules, frame, Within-put_group)
    Within-after_group_create (failure e) = search (frame_rules, frame)

    Within-use_group :
        (req : ServerGroupRequest) (o : Option ServerGroup) → Within Stays (use_group env req o)
    unfolding use_group
    Within-use_group req (some group) = search (frame_rules, frame, Within-put_group)
    Within-use_group req none = search (frame_rules, frame, Within-call, Within-after_group_create)

    Within-find_group : (name : String) → Within Stays (find_or_create_group env name)
    unfolding find_or_create_group
    Within-find_group name = search (frame_rules, frame, Within-gets, Within-call, Within-use_group)

    Within-after_group_get :
        (name : String) (answer : Answer ServerGroup)
        → Within Stays (after_group_get env name answer)
    unfolding after_group_get
    Within-after_group_get name (reply group) = search (frame_rules, frame)
    Within-after_group_get name (failure e) =
        search (frame_rules, frame, Within-put_group, Within-find_group)

    Within-group_spec :
        (spec : Option ServerGroupSpec) → Within Stays (reconcile_group_spec env spec)
    unfolding reconcile_group_spec
    Within-group_spec none = search (frame_rules, frame)
    Within-group_spec (some spec) =
        search
          (frame_rules, frame, Within-gets, Within-call, Within-find_group, Within-after_group_get)

    pub Within-reconcile_server_group : Within Stays (reconcile_server_group env)
    unfolding reconcile_server_group
    Within-reconcile_server_group = search (
      frame_rules, frame, Within-deferred, Within-gets, Within-group_spec,
      Stays-server_group_condition,
    )
