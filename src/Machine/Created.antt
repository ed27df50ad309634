-- ===== src/Machine/Created.antt =====
-- When reconcileServer creates a server, and which one.
use cluster_api_provider_clo.Base.{
  ◌≡◌, refl, sym, subst, ◌⊎◌, inl, inr, Bool, true, false, Bool-cases, Option, none, some, [], ◌==◌,
  eq_iff, if◌then◌else◌,
}
use cluster_api_provider_clo.Sdk.{Server, reply, Resource, list_call}
use cluster_api_provider_clo.Go.{Outcome, CtrlResult, ok, err, panic, ◌>>=◌}
use cluster_api_provider_clo.Scope.{Env}
use cluster_api_provider_clo.Services.Calls.{is_read, Makes}
use cluster_api_provider_clo.Machine.Scope.{MachineScope, machine_call}
use cluster_api_provider_clo.Machine.Interfaces.{machine_lookup_tag}
use cluster_api_provider_clo.Machine.Kept.{result-state}
use cluster_api_provider_clo.Machine.Orders.{
  machine_calls, Origin, origin, CreatesFor, Orders, frame, Orders-condition, Within-read,
  Within-listed, Within-known,
}
use cluster_api_provider_clo.Machine.Update.{
  set_changing, other_status, set_server_status_condition,
}
use cluster_api_provider_clo.Machine.Server.{
  find_or_create_server, reconcile_server_body, server_condition, reconcile_server,
}

-- The status names no server, and the listing by the machine's tag finds none.
abbrev pub NoneFound : {W : Type 0} → Env W → MachineScope W → Type 0
NoneFound env s =
    (s.cloudscale_machine.status.server_id ≡ "")
    × ((env.client.servers.list (machine_lookup_tag s) s.world).0 ≡ reply [])

module _ {W : Type 0} (env : Env W) (Q : Type 0) (o : Origin) where
  Orders-changing : (b : Bool) (s : MachineScope W) → Orders env Q o s (set_changing env b s)
  unfolding set_changing
  Orders-changing true s = Orders-condition env Q o _ _ _ _ s
  Orders-changing false s = Orders-condition env Q o _ _ _ _ s

  Orders-if :
      (s : MachineScope W) (b : Bool) (t u : MachineScope W)
      → Orders env Q o s t
      → Orders env Q o s u
      → Orders env Q o s (if b then t else u)
  Orders-if s true t u h k = h
  Orders-if s false t u h k = k

  Orders-status :
      (server : Server) (s : MachineScope W)
      → Orders env Q o s (set_server_status_condition env server s)
  unfolding set_server_status_condition other_status
  Orders-status server s = search (Orders-if, Orders-condition, Orders-changing) depth 8

  Orders-server_condition :
      (r : Outcome (CtrlResult × Option Server)) (s : MachineScope W)
      → Orders env Q o s (server_condition env r s)
  unfolding server_condition
  Orders-server_condition (err e) s = Orders-condition env Q o _ _ _ _ s
  Orders-server_condition (ok (result, some server)) s = Orders-status server s
  Orders-server_condition (ok (result, none)) s = (frame env Q o).same s
  Orders-server_condition panic s = (frame env Q o).same s

module _ {W : Type 0} (env : Env W) (s : MachineScope W) where
  -- The calls from the state `s` on.
  abbrev Ordered : MachineScope W → MachineScope W → Type 0
  Ordered = Orders env (NoneFound env s) (origin s)

  find-Ordered :
      s.cloudscale_machine.status.server_id ≡ "" → Ordered s (find_or_create_server env s).1
  unfolding find_or_create_server ◌>>=◌
  find-Ordered e =
      let tags = machine_lookup_tag s in
      let listed = machine_call (list_call Resource.server) (env.client.servers.list tags) in
      (frame env (NoneFound env s) (origin s)).after s (listed s).1 _
        ((Within-read env (NoneFound env s) (origin s) (list_call Resource.server)
            (env.client.servers.list tags) refl).at
          s)
        ((Within-listed env (NoneFound env s) (origin s) (env.client.servers.list tags s.world).0
            (λ h. (e, h))).at
          (listed s).1)

  body-Ordered : Ordered s (reconcile_server_body env s).1
  unfolding reconcile_server_body ◌>>=◌
  body-Ordered =
      let id = s.cloudscale_machine.status.server_id in
      elim (Bool-cases (id == "")) [
        | inl e ↦ rw e (find-Ordered ((eq_iff id "").0 e))
        | inr e ↦ rw e ((Within-known env (NoneFound env s) (origin s) id).at s)
      ]

  -- The calls of reconcileServer only read, but for calls that create a server with the machine's
  -- name, in the cluster's zone and in the machine's server group, if it has one. Such a call is made
  -- only where the status names no server and the listing by the machine's tag finds none.
  pub reconcile_server-creates :
      Makes
        (λ c. (is_read c ≡ true) ⊎ (NoneFound env s × CreatesFor (origin s) c))
        s
        (reconcile_server env s).1
  unfolding reconcile_server ◌>>=◌
  reconcile_server-creates =
      let run = reconcile_server_body env s in
      let all =
        (frame env (NoneFound env s) (origin s)).after s run.1 _ body-Ordered
          (Orders-server_condition env (NoneFound env s) (origin s) run.0 run.1) in
      subst (Makes (λ c. (is_read c ≡ true) ⊎ (NoneFound env s × CreatesFor (origin s) c)) s)
        (sym (result-state run.0 _)) (all.at refl).1
