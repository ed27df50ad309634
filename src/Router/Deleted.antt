-- ===== src/Router/Deleted.antt =====
-- What deleteRouters leaves in the status.
use cluster_api_provider_clo.Base.{
  ◌≡◌, refl, ap, ◌∙◌, subst, false, not, Option, none, some, List, [], ◌∷◌, ◌++◌, arith, ◌==◌, All,
  All-map, All-append, append-empty,
}
use cluster_api_provider_clo.Errors.{Error, join_errors}
use cluster_api_provider_clo.Api.Conditions.{Condition}
use cluster_api_provider_clo.Api.Cluster.{RouterInterfaceStatus, RouterStatus, CloudscaleCluster}
use cluster_api_provider_clo.Sdk.{Router, Answer, reply, failure, Resource, get_call}
use cluster_api_provider_clo.Scope.{
  Scope, Env, ok, error_of, Reconcile, ◌>>=◌, pure, call, modify, set_condition, unit_of,
}
use cluster_api_provider_clo.Router.Detached.{Keeps-delete_routers}
use cluster_api_provider_clo.Router.Removal.{
  detach_interface, detach_interfaces, detach_from, delete_router_interfaces, delete_detached,
  delete_one_router, delete_router_list, delete_routers_condition, delete_routers,
}
use cluster_api_provider_clo.Router.Status.{has_managed_interface, routers_of, put_routers}
use cluster_api_provider_clo.Go.Frame.{Within, Keeps, Keeps-IsFrame, Within-bind}
use cluster_api_provider_clo.Services.Joined.{unit_of-join_errors}
use cluster_api_provider_clo.Go.Post.{Gives, ok-injective, Gives-bind, Gives-if, Gives-after}

-- What is left of a router: an unmanaged one, whose interfaces are unmanaged too.
abbrev pub IsForeign : RouterStatus → Type 0
IsForeign r =
    (r.managed ≡ false) × All (λ (i : RouterInterfaceStatus). i.managed ≡ false) r.interfaces

-- The same by the code's own test.
abbrev Leftover : RouterStatus → Type 0
Leftover r = (r.managed ≡ false) × (has_managed_interface r.interfaces ≡ false)

none_managed :
    (is : List RouterInterfaceStatus)
    → has_managed_interface is ≡ false
    → All (λ (i : RouterInterfaceStatus). i.managed ≡ false) is
unfolding has_managed_interface
none_managed [] h = tt
none_managed (i ∷ is) h = (ground arith, none_managed is (ground arith))

has_managed-append :
    (xs ys : List RouterInterfaceStatus)
    → has_managed_interface xs ≡ false
    → has_managed_interface ys ≡ false
    → has_managed_interface (xs ++ ys) ≡ false
unfolding has_managed_interface
has_managed-append [] ys hx hy = hy
has_managed-append (x ∷ xs) ys hx hy = ground (arith, has_managed-append xs ys)

module _ {W : Type 0} (env : Env W) where
  abbrev Done : {A : Type 0} → (List A → Type 0) → List A × List Error → Type 0
  Done P r = r.1 ≡ [] → P r.0

  abbrev Bare : List RouterInterfaceStatus → Type 0
  Bare is = has_managed_interface is ≡ false

  detach_interface-Bare :
      (rs : RouterStatus) (router : Router) (i : RouterInterfaceStatus) (s : Scope W)
      (r : List RouterInterfaceStatus × List Error)
      → (detach_interface env rs router i s).0 ≡ ok r
      → Done Bare r
  unfolding detach_interface has_managed_interface
  detach_interface-Bare rs router i s (kept, errs) h e = ground arith

  both-Bare :
      (one later : List RouterInterfaceStatus × List Error)
      → Done Bare one
      → Done Bare later
      → Done Bare (one.0 ++ later.0, one.1 ++ later.1)
  both-Bare one later h k e =
      let empty = append-empty one.1 later.1 e in
      has_managed-append one.0 later.0 (h empty.0) (k empty.1)

  -- The two halves of a loop's round.
  round :
      {A : Type 0} (P : List A → Type 0) {m n : Reconcile W (List A × List Error)}
      → ((one later : List A × List Error)
          → Done P one
          → Done P later
          → Done P (one.0 ++ later.0, one.1 ++ later.1))
      → Gives (λ _. Unit {0}) m (λ r _. Done P r)
      → Gives (λ _. Unit {0}) n (λ r _. Done P r)
      → Gives
          (λ _. Unit {0})
          (m >>= λ one. n >>= λ later. pure (one.0 ++ later.0, one.1 ++ later.1))
          (λ r _. Done P r)
  round P {m} {n} both gm gn =
      Gives-bind {m = m} (λ one _. Done P one) gm
        (λ one.
          Gives-bind {m = n} (λ later _. Done P one × Done P later)
            (record { at = λ s r p h. (p, gn.at s r tt h) })
            (λ later. record {
              at = λ s r p h. subst (Done P) (ok-injective _ _ h) (both one later p.0 p.1);
            }))

  detach_interfaces-Bare :
      (rs : RouterStatus) (router : Router) (is : List RouterInterfaceStatus)
      → Gives (λ _. Unit {0}) (detach_interfaces env rs router is) (λ r _. Done Bare r)
  unfolding detach_interfaces has_managed_interface
  detach_interfaces-Bare rs router [] = record {
    at = λ s r p h e.
        subst (λ (x : List RouterInterfaceStatus × List Error). Bare x.0) (ok-injective _ _ h) refl;
  }
  detach_interfaces-Bare rs router (i ∷ is) =
      round Bare both-Bare (record { at = λ s r p h. detach_interface-Bare rs router i s r h })
        (detach_interfaces-Bare rs router is)

  detach_from-Bare :
      (rs : RouterStatus) (a : Answer Router)
      → Gives (λ _. Unit {0}) (detach_from env rs a) (λ r _. Done Bare r)
  unfolding detach_from has_managed_interface
  detach_from-Bare rs (reply router) = detach_interfaces-Bare rs router rs.interfaces
  detach_from-Bare rs (failure e) = record { at = λ s r p h f. failed s r h f }
    where
      failed :
          (s : Scope W) (r : List RouterInterfaceStatus × List Error)
          → (detach_from env rs (failure e) s).0 ≡ ok r
          → r.1 ≡ []
          → Bare r.0
      failed s (kept, errs) h f = ground arith

  delete_interfaces-Bare :
      (rs : RouterStatus)
      → Gives (λ _. Unit {0}) (delete_router_interfaces env rs) (λ r _. Done Bare r)
  unfolding delete_router_interfaces
  delete_interfaces-Bare rs =
      Gives-if (not (has_managed_interface rs.interfaces))
        (λ bare. record {
          at = λ s r p h e.
              subst (λ (x : List RouterInterfaceStatus × List Error). Bare x.0) (ok-injective _ _ h)
                (ground arith);
        })
        (λ _.
          Gives-after
            (call (get_call Resource.router rs.router_id) (env.client.routers.get rs.router_id))
            (detach_from-Bare rs))

  detached-Foreign :
      (rs : RouterStatus) (s : Scope W) (kept : List RouterStatus)
      → Bare rs.interfaces
      → (delete_detached env rs [] s).0 ≡ ok (kept, [])
      → All Leftover kept
  unfolding delete_detached
  detached-Foreign rs s [] b h = tt
  detached-Foreign rs s (k ∷ []) b h = ground arith
  detached-Foreign rs s (k ∷ l ∷ kept) b h = ground arith

  delete_detached-Foreign :
      (rs : RouterStatus) (errs : List Error)
      → Gives
          (λ _. errs ≡ [] → Bare rs.interfaces)
          (delete_detached env rs errs)
          (λ r _. Done (All Leftover) r)
  unfolding delete_detached
  delete_detached-Foreign rs [] = record {
    at = λ s r p h e. detached-Foreign rs s r.0 (p refl) (h ∙ ap (λ es. ok (r.0, es)) e);
  }
  delete_detached-Foreign rs (e ∷ errs) = record { at = λ s r p h f. cc }

  delete_one-Leftover :
      (rs : RouterStatus)
      → Gives (λ _. Unit {0}) (delete_one_router env rs) (λ r _. Done (All Leftover) r)
  unfolding delete_one_router
  delete_one-Leftover rs =
      Gives-if (rs.router_id == "")
        (λ _. record {
          at = λ s r p h e.
              subst (λ (x : List RouterStatus × List Error). All Leftover x.0) (ok-injective _ _ h)
                tt;
        })
        (λ _.
          Gives-bind {m = delete_router_interfaces env rs} (λ r _. Done Bare r)
            (delete_interfaces-Bare rs)
            (λ r. delete_detached-Foreign (record rs { interfaces = r.0 }) r.1))

  both-Leftover :
      (one later : List RouterStatus × List Error)
      → Done (All Leftover) one
      → Done (All Leftover) later
      → Done (All Leftover) (one.0 ++ later.0, one.1 ++ later.1)
  both-Leftover one later h k e =
      let empty = append-empty one.1 later.1 e in
      All-append Leftover one.0 later.0 (h empty.0) (k empty.1)

  routers-Leftover :
      (rs : List RouterStatus)
      → Gives (λ _. Unit {0}) (delete_router_list env rs) (λ r _. Done (All Leftover) r)
  unfolding delete_router_list
  routers-Leftover [] = record {
    at = λ s r p h e.
        subst (λ (x : List RouterStatus × List Error). All Leftover x.0) (ok-injective _ _ h) tt;
  }
  routers-Leftover (r ∷ rs) =
      round (All Leftover) both-Leftover (delete_one-Leftover r) (routers-Leftover rs)

  abbrev settle : List RouterStatus × List Error → Reconcile W (Unit {0})
  settle r = modify (put_routers r.0) >>= λ _. (λ s. (unit_of (join_errors r.1), s))

  abbrev body : List RouterStatus → Reconcile W (Unit {0})
  body rs = delete_router_list env rs >>= settle

  settled :
      (r : List RouterStatus × List Error)
      → Gives (λ _. Done (All Leftover) r) (settle r) (λ _ s. All Leftover (routers_of s))
  unfolding ◌>>=◌
  settled r = record { at = λ s a p h. p (unit_of-join_errors r.1 a h) }

  body-Leftover :
      (rs : List RouterStatus)
      → Gives (λ _. Unit {0}) (body rs) (λ _ s. All Leftover (routers_of s))
  body-Leftover rs = Gives-bind (λ r _. Done (All Leftover) r) (routers-Leftover rs) settled

  routers-condition :
      (e : Option Error) (s : Scope W)
      → routers_of (delete_routers_condition env e s) ≡ routers_of s
  unfolding delete_routers_condition set_condition
  routers-condition none s = refl
  routers-condition (some e) s = refl

  -- Where deleteRouters returns no error, the status lists no router and no interface any more that
  -- the controller manages.
  pub delete_routers-IsForeign :
      (s : Scope W) (a : Unit {0})
      → (delete_routers env s).0 ≡ ok a
      → All IsForeign (routers_of (delete_routers env s).1)
  unfolding delete_routers ◌>>=◌
  delete_routers-IsForeign s a h =
      let run = body (routers_of s) s in
      rw (routers-condition (error_of run.0) run.1) (
        All-map Leftover IsForeign (λ r k. (k.0, none_managed r.interfaces k.1)) (routers_of run.1)
          ((body-Leftover (routers_of s)).at s a tt h))

  module _ {X : Type 0} (g : CloudscaleCluster → X)
      (stable : (c : CloudscaleCluster) (rs : List RouterStatus) (cs : List Condition)
        → g (record c { status = record c.status { routers = rs; conditions = cs } }) ≡ g c) where
    stable-condition :
        (e : Option Error) (s : Scope W)
        → g (delete_routers_condition env e s).cluster ≡ g s.cluster
    unfolding delete_routers_condition set_condition
    stable-condition none s = stable s.cluster s.cluster.status.routers _
    stable-condition (some e) s = stable s.cluster s.cluster.status.routers _

    stable-body : (rs : List RouterStatus) → Within (Keeps λ s. g s.cluster) (body rs)
    unfolding ◌>>=◌
    stable-body rs =
        Within-bind (Keeps-IsFrame (λ (s : Scope W). g s.cluster)) (delete_router_list env rs)
          settle (record { at = λ s. ap g ((Keeps-delete_routers env rs).at s) })
          (λ r. record { at = λ s. stable s.cluster r.0 s.cluster.status.conditions })

    -- deleteRouters changes nothing but the routers and the conditions of the status.
    pub delete_routers-Keeps : (s : Scope W) → g (delete_routers env s).1.cluster ≡ g s.cluster
    unfolding delete_routers ◌>>=◌
    delete_routers-Keeps s =
        let run = body (routers_of s) s in
        stable-condition (error_of run.0) run.1 ∙ (stable-body (routers_of s)).at s
