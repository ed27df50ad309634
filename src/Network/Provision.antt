-- ===== src/Network/Provision.antt =====
-- reconcileNetwork (internal/controller/cloudscalecluster_network.go).
use cluster_api_provider_clo.Base.{Option, none, some, List, [], ◌∷◌, if◌then◌else◌, ◌<>◌, is_set}
use cluster_api_provider_clo.Errors.{Error, plain, error_text, quote}
use cluster_api_provider_clo.Api.Conditions.{
  condition_true, condition_false, network_ready_condition,
}
use cluster_api_provider_clo.Api.Cluster.{NetworkSpec}
use cluster_api_provider_clo.Scope.{
  Scope, Env, error_of, CtrlResult, no_requeue, is_zero, Reconcile, ◌>>=◌, ◌>>◌, pure, raise, gets,
  deferred, annotate, set_condition,
}
use cluster_api_provider_clo.Network.Adopted.{reconcile_pre_existing_network}
use cluster_api_provider_clo.Network.Managed.{reconcile_managed_network}

module _ {W : Type 0} (env : Env W) where
  unfoldable pub reconcile_one_network : NetworkSpec → Reconcile W CtrlResult
  unfolding reconcile_pre_existing_network reconcile_managed_network annotate ◌>>=◌
  reconcile_one_network net_spec =
      if is_set net_spec.uuid
      then annotate ("reconciling pre-existing network " <> quote net_spec.name)
          (reconcile_pre_existing_network env net_spec)
        >> pure no_requeue
      else annotate ("reconciling managed network " <> quote net_spec.name)
          (reconcile_managed_network env net_spec)

  -- The loop over spec.networks, which ends at the first result that asks for a requeue.
  unfoldable pub reconcile_networks : List NetworkSpec → Reconcile W CtrlResult
  unfolding reconcile_one_network ◌>>=◌
  reconcile_networks [] = pure no_requeue
  reconcile_networks (net_spec ∷ rest) = do
    result ← reconcile_one_network net_spec
    if is_zero result then reconcile_networks rest else pure result

  unfoldable pub reconcile_defined_networks : List NetworkSpec → Reconcile W CtrlResult
  unfolding reconcile_networks
  reconcile_defined_networks [] = raise (plain "no networks defined in spec")
  reconcile_defined_networks (n ∷ ns) = reconcile_networks (n ∷ ns)

  -- The deferred function of reconcileNetwork.
  unfoldable pub network_condition : Option Error → Scope W → Scope W
  unfolding set_condition error_text
  network_condition (some e) =
      set_condition env network_ready_condition condition_false "NetworkError" (error_text e)
  network_condition none =
      set_condition env network_ready_condition condition_true "NetworkProvisioned" ""

  unfoldable pub reconcile_network : Reconcile W CtrlResult
  unfolding reconcile_defined_networks network_condition ◌>>=◌
  reconcile_network =
      deferred
        (do networks ← gets (λ s. s.cluster.spec.networks); reconcile_defined_networks networks)
        (λ r. network_condition (error_of r))
