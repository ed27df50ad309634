-- ===== src/Cluster/Released.antt =====
-- When reconcileDelete gives up the finalizer.
use cluster_api_provider_clo.Base.{
  String, ◌≡◌, refl, sym, ap, ◌∙◌, subst, ◌⊎◌, inl, inr, Bool, true, false, List, arith, All,
}
use cluster_api_provider_clo.Errors.{Error, is_network_not_ready, is_server_group_not_empty}
use cluster_api_provider_clo.Api.Cluster.{
  cluster_finalizer, CloudscaleClusterSpec, NetworkStatus, CloudscaleCluster,
}
use cluster_api_provider_clo.Scope.{
  Scope, Env, Outcome, ok, err, panic, CtrlResult, no_requeue, Reconcile, ◌>>=◌, set_condition,
}
use cluster_api_provider_clo.Cluster.Deletion.{
  after_part, delete_part, finish_delete, delete_parts, reconcile_delete,
}
use cluster_api_provider_clo.FloatingIp.Cleared.{
  owns_floating_ip, delete_floating_ip-cleared, delete_floating_ip-Keeps,
}
use cluster_api_provider_clo.FloatingIp.Removal.{delete_floating_ip}
use cluster_api_provider_clo.FloatingIp.Target.{lb_enabled}
use cluster_api_provider_clo.LoadBalancer.Cleared.{
  lb_parts, no_parts, delete_load_balancer-cleared, delete_load_balancer-Keeps,
}
use cluster_api_provider_clo.LoadBalancer.Removal.{delete_load_balancer}
use cluster_api_provider_clo.Network.Deleted.{delete_network-unmanaged, delete_network-Keeps}
use cluster_api_provider_clo.Network.Removal.{delete_network}
use cluster_api_provider_clo.Network.Removed.{unmanaged}
use cluster_api_provider_clo.Network.Status.{networks_of}
use cluster_api_provider_clo.Router.Deleted.{
  IsForeign, delete_routers-IsForeign, delete_routers-Keeps,
}
use cluster_api_provider_clo.Router.Removal.{delete_routers}
use cluster_api_provider_clo.Router.Status.{routers_of}
use cluster_api_provider_clo.ServerGroup.{delete_server_groups}
use cluster_api_provider_clo.ServerGroup.Laws.{delete_server_groups-Keeps}

-- What reconcileDelete has cleaned up, from the object that it started with, once it ends.
pub record Released {W : Type 0} (env : Env W) (before : CloudscaleCluster) (r : Outcome CtrlResult)
    (after : CloudscaleCluster) : Type 0 where
  pub ended : r ≡ ok no_requeue
  pub finalizers : after.finalizers ≡ env.remove_finalizer before.finalizers cluster_finalizer
  pub floating_ip : owns_floating_ip before.spec.floating_ip ≡ true → after.status.floating_ip ≡ ""
  pub load_balancer : lb_enabled before.spec ≡ true → lb_parts after.status ≡ no_parts
  pub routers : All IsForeign after.status.routers
  pub networks : after.status.networks ≡ unmanaged before.status.networks

module _ {W : Type 0} (env : Env W) (before : CloudscaleCluster) where
  -- Nothing has been given up yet.
  abbrev Core : Type 0
  Core = CloudscaleClusterSpec × List String × List NetworkStatus

  abbrev core : CloudscaleCluster → Core
  core c = (c.spec, c.finalizers, c.status.networks)

  abbrev Same : Scope W → Type 0
  Same s = core s.cluster ≡ core before

  abbrev FipGone : Scope W → Type 0
  FipGone s = owns_floating_ip before.spec.floating_ip ≡ true → s.cluster.status.floating_ip ≡ ""

  abbrev LbGone : Scope W → Type 0
  LbGone s = lb_enabled before.spec ≡ true → lb_parts s.cluster.status ≡ no_parts

  abbrev Ends : Outcome CtrlResult × Scope W → Type 0
  Ends (r, t) = (t.cluster.finalizers ≡ before.finalizers) ⊎ Released env before r t.cluster

  abbrev finalizers_of : Core → List String
  finalizers_of c = c.1

  after_part-Ends :
      (context : String) (waits : Error → Bool) (r : Outcome (Unit {0}))
      (rest : Reconcile W CtrlResult) (s : Scope W)
      → s.cluster.finalizers ≡ before.finalizers
      → ((a : Unit {0}) → r ≡ ok a → Ends (rest s))
      → Ends (after_part env context waits r rest s)
  unfolding after_part
  after_part-Ends context waits (ok a) rest s f k = k a refl
  after_part-Ends context waits (err e) rest s f k = inl (ground arith)
  after_part-Ends context waits panic rest s f k = inl f

  delete_part-Ends :
      (context : String) (waits : Error → Bool) (part : Reconcile W (Unit {0}))
      (rest : Reconcile W CtrlResult) (s : Scope W)
      → (part s).1.cluster.finalizers ≡ before.finalizers
      → ((a : Unit {0}) → (part s).0 ≡ ok a → Ends (rest (part s).1))
      → Ends (delete_part env context waits part rest s)
  unfolding delete_part
  delete_part-Ends context waits part rest s f k =
      after_part-Ends context waits (part s).0 rest (part s).1 f k

  finish-Ends :
      (s : Scope W)
      → s.cluster.finalizers ≡ before.finalizers
      → FipGone s
      → LbGone s
      → All IsForeign (routers_of s)
      → networks_of s ≡ unmanaged before.status.networks
      → Ends (finish_delete env s)
  unfolding finish_delete set_condition ◌>>=◌
  finish-Ends s f fip lb rs ns = inr (record {
    ended = refl;
    finalizers = ap (λ fs. env.remove_finalizer fs cluster_finalizer) f;
    floating_ip = fip;
    load_balancer = lb;
    routers = rs;
    networks = ns;
  })

  -- The last part, and what follows it.
  abbrev network_part : Reconcile W CtrlResult
  network_part =
      delete_part env "deleting network" is_network_not_ready (delete_network env)
        (finish_delete env)

  network_part-Ends :
      (s : Scope W)
      → Same s
      → FipGone s
      → LbGone s
      → All IsForeign (routers_of s)
      → Ends (network_part s)
  network_part-Ends s p fip lb rs =
      let kept =
        delete_network-Keeps env (λ c. c.finalizers) (λ c N cs. refl) s ∙ ap finalizers_of p in
      delete_part-Ends _ _ (delete_network env) (finish_delete env) s kept (λ a h.
        finish-Ends (delete_network env s).1 kept
          (λ o. delete_network-Keeps env (λ c. c.status.floating_ip) (λ c N cs. refl) s ∙ fip o)
          (λ o. delete_network-Keeps env (λ c. lb_parts c.status) (λ c N cs. refl) s ∙ lb o)
          (subst (All IsForeign)
            (sym (delete_network-Keeps env (λ c. c.status.routers) (λ c N cs. refl) s)) rs)
          (delete_network-unmanaged env s a h ∙ ap unmanaged (ap (λ (c : Core). c.2) p)))

  abbrev routers_part : Reconcile W CtrlResult
  routers_part = delete_part env "deleting routers" (λ _. false) (delete_routers env) network_part

  routers_part-Ends : (s : Scope W) → Same s → FipGone s → LbGone s → Ends (routers_part s)
  routers_part-Ends s p fip lb =
      let kept = delete_routers-Keeps env core (λ c rs cs. refl) s ∙ p in
      delete_part-Ends _ _ (delete_routers env) network_part s (ap finalizers_of kept) (λ a h.
        network_part-Ends (delete_routers env s).1 kept
          (λ o. delete_routers-Keeps env (λ c. c.status.floating_ip) (λ c rs cs. refl) s ∙ fip o)
          (λ o. delete_routers-Keeps env (λ c. lb_parts c.status) (λ c rs cs. refl) s ∙ lb o)
          (delete_routers-IsForeign env s a h))

  abbrev groups_part : Reconcile W CtrlResult
  groups_part =
      delete_part env "deleting server groups" is_server_group_not_empty (delete_server_groups env)
        routers_part

  groups_part-Ends : (s : Scope W) → Same s → FipGone s → LbGone s → Ends (groups_part s)
  groups_part-Ends s p fip lb =
      let same = delete_server_groups-Keeps env s in
      delete_part-Ends _ _ (delete_server_groups env) routers_part s
        (ap finalizers_of (ap core same ∙ p))
        (λ a h.
          routers_part-Ends (delete_server_groups env s).1 (ap core same ∙ p)
            (λ o. ap (λ (c : CloudscaleCluster). c.status.floating_ip) same ∙ fip o)
            (λ o. ap (λ (c : CloudscaleCluster). lb_parts c.status) same ∙ lb o))

  abbrev lb_part : Reconcile W CtrlResult
  lb_part =
      delete_part env "deleting load balancer" (λ _. false) (delete_load_balancer env) groups_part

  lb_part-Ends : (s : Scope W) → Same s → FipGone s → Ends (lb_part s)
  lb_part-Ends s p fip =
      let kept = delete_load_balancer-Keeps env core (λ c a b d e ms cs. refl) s ∙ p in
      delete_part-Ends _ _ (delete_load_balancer env) groups_part s (ap finalizers_of kept) (λ a h.
        groups_part-Ends (delete_load_balancer env s).1 kept
          (λ o.
            delete_load_balancer-Keeps env (λ c. c.status.floating_ip) (λ c a b d e ms cs. refl) s
            ∙ fip o)
          (λ o. delete_load_balancer-cleared env s a (ap (λ (c : Core). lb_enabled c.0) p ∙ o) h))

  delete_parts-Ends : (s : Scope W) → Same s → Ends (delete_parts env s)
  unfolding delete_parts
  delete_parts-Ends s p =
      let kept = delete_floating_ip-Keeps env core (λ c ip cs. refl) s ∙ p in
      delete_part-Ends "deleting floating IP" (λ _. false) (delete_floating_ip env) lb_part s
        (ap finalizers_of kept)
        (λ a h. lb_part-Ends (delete_floating_ip env s).1 kept (λ o.
          delete_floating_ip-cleared env s a
            (ap (λ (c : Core). owns_floating_ip c.0.floating_ip) p ∙ o) h))

module _ {W : Type 0} (env : Env W) where
  -- reconcileDelete leaves the finalizers as they are, or it returns without a requeue, has removed
  -- the cluster's finalizer, and the status names nothing any more that the controller made: no
  -- floating IP of its own, no load balancer, no managed router or interface, and of the networks
  -- only the unmanaged ones.
  pub reconcile_delete-Released :
      (s : Scope W)
      → ((reconcile_delete env s).1.cluster.finalizers ≡ s.cluster.finalizers)
        ⊎ Released env s.cluster (reconcile_delete env s).0 (reconcile_delete env s).1.cluster
  unfolding reconcile_delete set_condition ◌>>=◌
  reconcile_delete-Released s = delete_parts-Ends env s.cluster _ refl
