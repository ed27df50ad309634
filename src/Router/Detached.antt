-- ===== src/Router/Detached.antt =====
-- The loops of deleteRouters leave the object as it is.
use cluster_api_provider_clo.Base.{◌≡◌, refl, not, List, [], ◌∷◌, arith, ◌==◌}
use cluster_api_provider_clo.Errors.{Error}
use cluster_api_provider_clo.Api.Cluster.{RouterInterfaceStatus, RouterStatus}
use cluster_api_provider_clo.Sdk.{Router, Answer, reply, failure, Resource, get_call}
use cluster_api_provider_clo.Scope.{Scope, Env, call}
use cluster_api_provider_clo.Router.Removal.{
  detach_interface, detach_interfaces, detach_from, delete_router_interfaces, delete_detached,
  delete_one_router, delete_router_list,
}
use cluster_api_provider_clo.Router.Status.{has_managed_interface}
use cluster_api_provider_clo.Go.Frame.{
  Within, Keeps, Keeps-IsFrame, Within-pure, Within-if, Within-bind,
}

module _ {W : Type 0} (env : Env W) where
  keeps-detach_interface :
      (rs : RouterStatus) (router : Router) (i : RouterInterfaceStatus) (s : Scope W)
      → (detach_interface env rs router i s).1.cluster ≡ s.cluster
  unfolding detach_interface
  keeps-detach_interface rs router i s = ground arith

  Keeps-detach_interfaces :
      (rs : RouterStatus) (router : Router) (is : List RouterInterfaceStatus)
      → Within (Keeps λ s. s.cluster) (detach_interfaces env rs router is)
  unfolding detach_interfaces
  Keeps-detach_interfaces rs router [] = Within-pure (Keeps-IsFrame λ s. s.cluster) _
  Keeps-detach_interfaces rs router (i ∷ is) =
      Within-bind (Keeps-IsFrame λ s. s.cluster) (detach_interface env rs router i) _
        (record { at = keeps-detach_interface rs router i })
        (λ one.
          Within-bind (Keeps-IsFrame λ s. s.cluster) (detach_interfaces env rs router is) _
            (Keeps-detach_interfaces rs router is)
            (λ later. Within-pure (Keeps-IsFrame λ s. s.cluster) _))

  Keeps-detach_from :
      (rs : RouterStatus) (a : Answer Router) → Within (Keeps λ s. s.cluster) (detach_from env rs a)
  unfolding detach_from
  Keeps-detach_from rs (reply router) = Keeps-detach_interfaces rs router rs.interfaces
  Keeps-detach_from rs (failure e) = record { at = λ s. ground arith }

  Keeps-delete_interfaces :
      (rs : RouterStatus) → Within (Keeps λ s. s.cluster) (delete_router_interfaces env rs)
  unfolding delete_router_interfaces
  Keeps-delete_interfaces rs =
      Within-if (Keeps-IsFrame λ s. s.cluster) (not (has_managed_interface rs.interfaces)) _ _
        (λ _. Within-pure (Keeps-IsFrame λ s. s.cluster) _)
        (λ _.
          Within-bind (Keeps-IsFrame λ s. s.cluster)
            (call (get_call Resource.router rs.router_id) (env.client.routers.get rs.router_id))
            (detach_from env rs) (record { at = λ s. refl }) (Keeps-detach_from rs))

  keeps-detached :
      (rs : RouterStatus) (es : List Error) (s : Scope W)
      → (delete_detached env rs es s).1.cluster ≡ s.cluster
  unfolding delete_detached
  keeps-detached rs [] s = ground arith
  keeps-detached rs (e ∷ es) s = refl

  Keeps-one : (rs : RouterStatus) → Within (Keeps λ s. s.cluster) (delete_one_router env rs)
  unfolding delete_one_router
  Keeps-one rs =
      Within-if (Keeps-IsFrame λ s. s.cluster) (rs.router_id == "") _ _
        (λ _. Within-pure (Keeps-IsFrame λ s. s.cluster) _)
        (λ _.
          Within-bind (Keeps-IsFrame λ s. s.cluster) (delete_router_interfaces env rs)
            (λ r. delete_detached env (record rs { interfaces = r.0 }) r.1)
            (Keeps-delete_interfaces rs)
            (λ r. record { at = keeps-detached (record rs { interfaces = r.0 }) r.1 }))

  -- The loop leaves the object as it is.
  pub Keeps-delete_routers :
      (rs : List RouterStatus) → Within (Keeps λ s. s.cluster) (delete_router_list env rs)
  unfolding delete_router_list
  Keeps-delete_routers [] = Within-pure (Keeps-IsFrame λ s. s.cluster) _
  Keeps-delete_routers (r ∷ rs) =
      Within-bind (Keeps-IsFrame λ s. s.cluster) (delete_one_router env r) _ (Keeps-one r) (λ one.
        Within-bind (Keeps-IsFrame λ s. s.cluster) (delete_router_list env rs) _
          (Keeps-delete_routers rs) (λ later. Within-pure (Keeps-IsFrame λ s. s.cluster) _))
