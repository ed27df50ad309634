-- ===== src/Network/Condition.antt =====
-- The NetworkReady condition that reconcileNetwork and deleteNetwork leave.
use cluster_api_provider_clo.Base.{
  ◌≡◌, ap, ◌∙◌, Bool, true, false, All, not, Option, none, some, ◌<>◌, is_some,
}
use cluster_api_provider_clo.Errors.{Error, error_text}
use cluster_api_provider_clo.Api.Conditions.{
  condition_true, condition_false, ConditionsLaws, is_true, network_ready_condition,
}
use cluster_api_provider_clo.Scope.{Scope, Env, ok, err, CtrlResult, is_zero, error_of, ◌>>=◌}
use cluster_api_provider_clo.Api.Cluster.{NetworkSpec}
use cluster_api_provider_clo.Network.Entries.{IsProvisioned}
use cluster_api_provider_clo.Network.Ready.{reconcile_network-IsProvisioned}
use cluster_api_provider_clo.Network.Status.{networks_of}
use cluster_api_provider_clo.Network.Written.{ReturnsIds}
use cluster_api_provider_clo.Network.Provision.{
  reconcile_defined_networks, network_condition, reconcile_network,
}
use cluster_api_provider_clo.Network.Removal.{delete_network_condition, delete_network}
use cluster_api_provider_clo.Services.Conditions.{conditions_of, is_true-set_condition}

abbrev pub is_none {ℓ} : {A : Type ℓ} → Option A → Bool
is_none o = not (is_some o)

module _ {W : Type 0} (env : Env W) (laws : ConditionsLaws env.conditions) where
  abbrev network_ready : Scope W → Bool
  network_ready s = is_true env.conditions (conditions_of env laws s) network_ready_condition

  is_true-network_condition :
      (e : Option Error) (s : Scope W) → network_ready (network_condition env e s) ≡ is_none e
  unfolding network_condition
  is_true-network_condition none s =
      is_true-set_condition env laws network_ready_condition condition_true "NetworkProvisioned" ""
        s network_ready_condition
  is_true-network_condition (some e) s =
      is_true-set_condition env laws network_ready_condition condition_false "NetworkError"
        (error_text e) s network_ready_condition

  -- It is true exactly where there is no error: also where the function asks to be called again.
  network_ready-is_none :
      (s : Scope W)
      → is_true env.conditions
          (conditions_of env laws (reconcile_network env s).1)
          network_ready_condition
        ≡ is_none (error_of (reconcile_network env s).0)
  unfolding reconcile_network ◌>>=◌
  network_ready-is_none s =
      let run = reconcile_defined_networks env s.cluster.spec.networks s in
      is_true-network_condition (error_of run.0) run.1

  -- Where reconcileNetwork returns an error, it leaves NetworkReady false. Where it returns no error
  -- and asks for no requeue, it leaves NetworkReady true, and each network of the spec has an entry in
  -- the status with a network ID and a subnet ID, if the services return no empty ID.
  pub reconcile_network-condition :
      ReturnsIds env.client
      → (s : Scope W)
      → ((e : Error)
          → (reconcile_network env s).0 ≡ err e
          → is_true env.conditions
              (conditions_of env laws (reconcile_network env s).1)
              network_ready_condition
            ≡ false)
        × ((r : CtrlResult)
            → (reconcile_network env s).0 ≡ ok r
            → is_zero r ≡ true
            → (is_true env.conditions
                  (conditions_of env laws (reconcile_network env s).1)
                  network_ready_condition
                ≡ true)
              × All
                  (λ (n : NetworkSpec).
                    IsProvisioned n.name (networks_of (reconcile_network env s).1))
                  s.cluster.spec.networks)
  reconcile_network-condition ids s = (
    λ e h. network_ready-is_none s ∙ ap (λ r. is_none (error_of r)) h,
    λ r h z. (
      network_ready-is_none s ∙ ap (λ r'. is_none (error_of r')) h,
      reconcile_network-IsProvisioned env ids s r h z,
    ),
  )

  is_true-delete_network_condition :
      (e : Option Error) (s : Scope W) → network_ready (delete_network_condition env e s) ≡ false
  unfolding delete_network_condition
  is_true-delete_network_condition none s =
      is_true-set_condition env laws network_ready_condition condition_false "NetworkDeleting"
        "Networks have been deleted" s network_ready_condition
  is_true-delete_network_condition (some e) s =
      is_true-set_condition env laws network_ready_condition condition_false "NetworkError"
        ("Failed to delete network: " <> error_text e) s network_ready_condition

  -- deleteNetwork never leaves the NetworkReady condition true.
  pub delete_network-condition :
      (s : Scope W)
      → is_true env.conditions
          (conditions_of env laws (delete_network env s).1)
          network_ready_condition
        ≡ false
  unfolding delete_network
  delete_network-condition s = is_true-delete_network_condition _ _
