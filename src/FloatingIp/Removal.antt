-- ===== src/FloatingIp/Removal.antt =====
-- deleteFloatingIP (internal/controller/cloudscalecluster_floatingip.go).
use cluster_api_provider_clo.Base.{String, Option, none, some, ◌==◌, if◌then◌else◌, ◌<>◌, is_set}
use cluster_api_provider_clo.Errors.{Error, wrap, error_text, error_is_not_found}
use cluster_api_provider_clo.Api.Conditions.{condition_false, floating_ip_ready_condition}
use cluster_api_provider_clo.Api.Cluster.{FloatingIpSpec}
use cluster_api_provider_clo.Sdk.{Resource, delete_call}
use cluster_api_provider_clo.Scope.{
  Scope, Env, error_of, Reconcile, ◌>>=◌, ◌>>◌, pure, raise, gets, deferred, call, modify, emit,
  set_condition,
}
use cluster_api_provider_clo.FloatingIp.Provision.{put_floating_ip}

module _ {W : Type 0} (env : Env W) where
  unfoldable pub floating_ip_gone : String → Reconcile W (Unit {0})
  unfolding ◌>>=◌
  floating_ip_gone floating_ip = do
    modify (emit "FloatingIPDeleted" ("Deleted floating IP " <> floating_ip))
    modify (put_floating_ip "")

  unfoldable pub after_floating_ip_delete : String → Option Error → Reconcile W (Unit {0})
  unfolding floating_ip_gone error_is_not_found
  after_floating_ip_delete floating_ip none = floating_ip_gone floating_ip
  after_floating_ip_delete floating_ip (some e) =
      if error_is_not_found e
      then floating_ip_gone floating_ip
      else raise (wrap "deleting floating IP" e)

  unfoldable pub delete_recorded : String → Reconcile W (Unit {0})
  unfolding after_floating_ip_delete ◌>>=◌
  delete_recorded floating_ip = if floating_ip == "" then pure tt else do
    error ←
        call (delete_call Resource.floating_ip floating_ip)
          (env.client.delete_floating_ip floating_ip)
    after_floating_ip_delete floating_ip error

  unfoldable pub delete_floating_ip_condition : Option Error → Scope W → Scope W
  unfolding set_condition error_text
  delete_floating_ip_condition (some e) =
      set_condition env floating_ip_ready_condition condition_false "FloatingIPError"
        ("Failed to delete floating IP: " <> error_text e)
  delete_floating_ip_condition none =
      set_condition env floating_ip_ready_condition condition_false "FloatingIPDeleting"
        "Floating IP has been deleted"

  unfoldable pub delete_managed_floating_ip : Reconcile W (Unit {0})
  unfolding delete_recorded delete_floating_ip_condition ◌>>=◌
  delete_managed_floating_ip =
      deferred
        (do floating_ip ← gets (λ s. s.cluster.status.floating_ip); delete_recorded floating_ip)
        (λ r. delete_floating_ip_condition (error_of r))

  unfoldable pub delete_floating_ip_spec : Option FloatingIpSpec → Reconcile W (Unit {0})
  unfolding delete_managed_floating_ip
  delete_floating_ip_spec none = pure tt
  delete_floating_ip_spec (some fip_spec) =
      if is_set fip_spec.address then pure tt else delete_managed_floating_ip

  unfoldable pub delete_floating_ip : Reconcile W (Unit {0})
  unfolding delete_floating_ip_spec ◌>>=◌
  delete_floating_ip = do
    fip_spec ← gets (λ s. s.cluster.spec.floating_ip)
    delete_floating_ip_spec fip_spec
