-- ===== src/Router/Requests.antt =====
-- What deleteRouters requests.
use cluster_api_provider_clo.Base.{
  ap, ◌∙◌, inl, inr, IsIn, String, ◌≡◌, refl, Bool, true, false, not, Option, none, some, List, [],
  ◌∷◌, arith, ◌==◌, if◌then◌else◌,
}
use cluster_api_provider_clo.Errors.{Error, error_is_not_found, join_errors}
use cluster_api_provider_clo.Api.Cluster.{
  NetworkStatus, RouterInterfaceStatus, RouterStatus, get_network_status,
}
use cluster_api_provider_clo.Network.Status.{networks_of}
use cluster_api_provider_clo.Sdk.{
  Router, Answer, reply, failure, Resource, Call, get_call, delete_call, delete_interface_call,
}
use cluster_api_provider_clo.Scope.{
  Scope, Env, error_of, Reconcile, ◌>>=◌, call, modify, set_condition, unit_of,
}
use cluster_api_provider_clo.Router.Removal.{
  is_live, attached_on, interface_deleted, detach, detach_interface, detach_interfaces, detach_from,
  delete_router_interfaces, after_router_delete, delete_detached, delete_one_router,
  delete_router_list, delete_routers_condition, delete_routers,
}
use cluster_api_provider_clo.Router.Status.{has_managed_interface, routers_of, put_routers}
use cluster_api_provider_clo.Services.Calls.{
  scope_calls, is_read, Makes, Makes-same, Makes-one, Makes-after, Makes-none,
}
use cluster_api_provider_clo.Go.Frame.{IsFrame, Within, Within-pure, Within-if, Within-bind}

-- The ID under which an interface is detached: the one on record, or without one the ID of the
-- interface that the router has on the network.
abbrev pub id_to_detach : List NetworkStatus → RouterInterfaceStatus → Router → String
id_to_detach networks i router =
    if i.interface_id == ""
    then attached_on (get_network_status networks i.network) router
    else i.interface_id

-- The ID is that of an interface that may be detached from the router: the router's entry has a
-- managed interface that is detached under this ID, and the router, as a get answers it, has it.
pub record Detaches {W : Type 0} (env : Env W) (networks : List NetworkStatus)
    (routers : List RouterStatus) (router_id id : String) : Type 0 where
  pub entry : RouterStatus
  pub recorded : IsIn entry routers
  pub of_router : router_id ≡ entry.router_id
  pub iface : RouterInterfaceStatus
  pub listed : IsIn iface entry.interfaces
  pub managed : iface.managed ≡ true
  pub world : W
  pub router : Router
  pub answered : (env.client.routers.get router_id world).0 ≡ reply router
  pub named : id ≡ id_to_detach networks iface router
  pub live : is_live id router.interfaces ≡ true

-- The entry is that of a managed router, which has the ID.
pub record DeletesRouter (routers : List RouterStatus) (id : String) : Type 0 where
  pub entry : RouterStatus
  pub recorded : IsIn entry routers
  pub managed : entry.managed ≡ true
  pub same : id ≡ entry.router_id

-- What deleteRouters may send: reads; the deletion of a managed router; the deletion of a managed
-- interface.
abbrev pub Allowed : {W : Type 0} → Env W → List NetworkStatus → List RouterStatus → Call → Type 0
Allowed env networks routers (delete_call Resource.router id) = DeletesRouter routers id
Allowed env networks routers (delete_interface_call router_id id) =
    Detaches env networks routers router_id id
Allowed env networks routers c = is_read c ≡ true

not-false : (b : Bool) → not b ≡ false → b ≡ true
not-false true h = refl
not-false false h = cc

module _ {W : Type 0} (env : Env W) (P : Call → Type 0) (networks : List NetworkStatus) where
  -- From a state with these networks on, the networks stay, and each call has the property.
  abbrev Steps : Scope W → Scope W → Type 0
  Steps s t = networks_of s ≡ networks → (networks_of t ≡ networks) × Makes P s t

  frame : IsFrame Steps
  frame = record {
    same = λ s e. (e, Makes-same P s);
    after = λ s t u h k e.
        let first = h e in
        let second = k first.0 in (second.0, Makes-after P s t u first.1 second.1);
  }

  call-Steps : {A : Type 0} (c : Call) (f : W → A × W) → P c → Within Steps (call c f)
  call-Steps c f h = record { at = λ s e. (e, Makes-one P s _ c refl h) }

  quiet-Steps :
      {A : Type 0} (m : Reconcile W A)
      → ((s : Scope W) → networks_of (m s).1 ≡ networks_of s)
      → ((s : Scope W) → (m s).1.calls ≡ s.calls)
      → Within Steps m
  quiet-Steps m n c = record { at = λ s e. (n s ∙ e, Makes-none P s _ (c s)) }

  state-interface_deleted :
      (rs : RouterStatus) (i : RouterInterfaceStatus) (id : String) (e : Option Error) (s : Scope W)
      → (interface_deleted env rs i id e s).1 ≡ s
  unfolding interface_deleted
  state-interface_deleted rs i id none s = refl
  state-interface_deleted rs i id (some e) s = ground arith

  detach-Steps :
      (rs : RouterStatus) (router : Router) (i : RouterInterfaceStatus) (id : String)
      → (is_live id router.interfaces ≡ true → P (delete_interface_call rs.router_id id))
      → Within Steps (detach env rs router i id)
  unfolding detach
  detach-Steps rs router i id h =
      Within-if frame (not (is_live id router.interfaces)) _ _ (λ _. Within-pure frame _)
        (λ live.
          Within-bind frame
            (call (delete_interface_call rs.router_id id)
              (env.client.delete_interface rs.router_id id))
            (interface_deleted env rs i id) (call-Steps _ _ (h (not-false _ live)))
            (λ e.
              quiet-Steps (interface_deleted env rs i id e)
                (λ s. ap networks_of (state-interface_deleted rs i id e s))
                (λ s. ap (λ (t : Scope W). t.calls) (state-interface_deleted rs i id e s))))

  -- The managed interfaces of the list may be deleted, as far as the router has them.
  abbrev May : RouterStatus → Router → List RouterInterfaceStatus → Type 0
  May rs router is =
      (i : RouterInterfaceStatus) (id : String)
      → IsIn i is
      → i.managed ≡ true
      → id ≡ id_to_detach networks i router
      → is_live id router.interfaces ≡ true
      → P (delete_interface_call rs.router_id id)

  detach_interface-Steps :
      (rs : RouterStatus) (router : Router) (i : RouterInterfaceStatus)
      → May rs router (i ∷ [])
      → Within Steps (detach_interface env rs router i)
  unfolding detach_interface ◌>>=◌
  detach_interface-Steps rs router i h =
      Within-if frame (not i.managed) _ _ (λ _. Within-pure frame _)
        (λ managed. record {
          at = λ s e.
              (detach-Steps rs router i (id_to_detach (networks_of s) i router) (
                  h i _ (inl refl) (not-false _ managed)
                    (ap (λ ns. id_to_detach ns i router) e))).at
                s e;
        })

  detach_interfaces-Steps :
      (rs : RouterStatus) (router : Router) (is : List RouterInterfaceStatus)
      → May rs router is
      → Within Steps (detach_interfaces env rs router is)
  unfolding detach_interfaces
  detach_interfaces-Steps rs router [] h = Within-pure frame _
  detach_interfaces-Steps rs router (i ∷ is) h =
      Within-bind frame (detach_interface env rs router i) _
        (detach_interface-Steps rs router i
          (λ j id k. h j id (elim k [ inl e ↦ inl e | inr n ↦ absurd n ])))
        (λ one.
          Within-bind frame (detach_interfaces env rs router is) _
            (detach_interfaces-Steps rs router is (λ j id k. h j id (inr k)))
            (λ later. Within-pure frame _))

  detach_from-Steps :
      (rs : RouterStatus) (a : Answer Router)
      → ((router : Router) → a ≡ reply router → May rs router rs.interfaces)
      → Within Steps (detach_from env rs a)
  unfolding detach_from
  detach_from-Steps rs (reply router) h =
      detach_interfaces-Steps rs router rs.interfaces (h router refl)
  detach_from-Steps rs (failure e) h =
      Within-if frame (error_is_not_found e) _ _ (λ _. Within-pure frame _)
        (λ _. Within-pure frame _)

  -- What the entry allows, with whatever router a get of its ID answers.
  abbrev MayOn : RouterStatus → Type 0
  MayOn rs =
      (w : W) (router : Router)
      → (env.client.routers.get rs.router_id w).0 ≡ reply router
      → May rs router rs.interfaces

  got-Steps :
      (rs : RouterStatus)
      → P (get_call Resource.router rs.router_id)
      → MayOn rs
      → Within Steps (
          call (get_call Resource.router rs.router_id) (env.client.routers.get rs.router_id)
          >>= detach_from env rs)
  unfolding ◌>>=◌
  got-Steps rs reads h = record {
    at = λ s.
        let got =
          call (get_call Resource.router rs.router_id) (env.client.routers.get rs.router_id) s in
        frame.after s got.1 _
          ((call-Steps (get_call Resource.router rs.router_id) (env.client.routers.get rs.router_id)
              reads).at
            s)
          ((detach_from-Steps rs (env.client.routers.get rs.router_id s.world).0 (h s.world)).at
            got.1);
  }

  delete_interfaces-Steps :
      (rs : RouterStatus)
      → P (get_call Resource.router rs.router_id)
      → MayOn rs
      → Within Steps (delete_router_interfaces env rs)
  unfolding delete_router_interfaces
  delete_interfaces-Steps rs reads h =
      Within-if frame (not (has_managed_interface rs.interfaces)) _ _ (λ _. Within-pure frame _)
        (λ _. got-Steps rs reads h)

  quiet-after_router :
      (rs : RouterStatus) (e : Option Error) (s : Scope W)
      → (networks_of (after_router_delete env rs e s).1 ≡ networks_of s)
        × ((after_router_delete env rs e s).1.calls ≡ s.calls)
  unfolding after_router_delete ◌>>=◌
  quiet-after_router rs none s = (refl, refl)
  quiet-after_router rs (some e) s = ground arith

  delete_detached-Steps :
      (rs : RouterStatus) (errs : List Error)
      → (rs.managed ≡ true → P (delete_call Resource.router rs.router_id))
      → Within Steps (delete_detached env rs errs)
  unfolding delete_detached
  delete_detached-Steps rs (e ∷ errs) h = Within-pure frame _
  delete_detached-Steps rs [] h =
      Within-if frame (not rs.managed) _ _ (λ _. Within-pure frame _)
        (λ managed.
          Within-bind frame
            (call (delete_call Resource.router rs.router_id)
              (env.client.delete_router rs.router_id))
            (after_router_delete env rs) (call-Steps _ _ (h (not-false _ managed)))
            (λ e.
              quiet-Steps (after_router_delete env rs e) (λ s. (quiet-after_router rs e s).0)
                (λ s. (quiet-after_router rs e s).1)))

  delete_one-Steps :
      (rs : RouterStatus)
      → P (get_call Resource.router rs.router_id)
      → MayOn rs
      → (rs.managed ≡ true → P (delete_call Resource.router rs.router_id))
      → Within Steps (delete_one_router env rs)
  unfolding delete_one_router
  delete_one-Steps rs reads hi hr =
      Within-if frame (rs.router_id == "") _ _ (λ _. Within-pure frame _)
        (λ _.
          Within-bind frame (delete_router_interfaces env rs)
            (λ r. delete_detached env (record rs { interfaces = r.0 }) r.1)
            (delete_interfaces-Steps rs reads hi)
            (λ r. delete_detached-Steps (record rs { interfaces = r.0 }) r.1 hr))

module _ {W : Type 0} (env : Env W) (networks : List NetworkStatus) (all : List RouterStatus) where
  abbrev P : Call → Type 0
  P = Allowed env networks all

  list-Steps :
      (rs : List RouterStatus)
      → ((r : RouterStatus) → IsIn r rs → IsIn r all)
      → Within (Steps env P networks) (delete_router_list env rs)
  unfolding delete_router_list
  list-Steps [] within = Within-pure (frame env P networks) _
  list-Steps (r ∷ rs) within =
      Within-bind (frame env P networks) (delete_one_router env r) _
        (delete_one-Steps env P networks r refl
          (λ w router answered i id listed managed named live. record {
            entry = r;
            recorded = within r (inl refl);
            of_router = refl;
            iface = i;
            listed = listed;
            managed = managed;
            world = w;
            router = router;
            answered = answered;
            named = named;
            live = live;
          })
          (λ managed. record {
            entry = r;
            recorded = within r (inl refl);
            managed = managed;
            same = refl;
          }))
        (λ one.
          Within-bind (frame env P networks) (delete_router_list env rs) _
            (list-Steps rs (λ q k. within q (inr k)))
            (λ later. Within-pure (frame env P networks) _))

module _ {W : Type 0} (env : Env W) where
  calls-condition :
      (e : Option Error) (s : Scope W) → (delete_routers_condition env e s).calls ≡ s.calls
  unfolding delete_routers_condition set_condition
  calls-condition none s = refl
  calls-condition (some e) s = refl

  abbrev settle : List RouterStatus × List Error → Reconcile W (Unit {0})
  settle r = modify (put_routers r.0) >>= λ _. (λ s. (unit_of (join_errors r.1), s))

  body-Makes :
      (s : Scope W)
      → Makes
          (Allowed env (networks_of s) (routers_of s))
          s
          ((delete_router_list env (routers_of s) >>= settle) s).1
  unfolding ◌>>=◌
  body-Makes s =
      let Q = Allowed env (networks_of s) (routers_of s) in
      let steps =
        Within-bind (frame env Q (networks_of s)) (delete_router_list env (routers_of s)) settle
          (list-Steps env (networks_of s) (routers_of s) (routers_of s) (λ r k. k))
          (λ r. quiet-Steps env Q (networks_of s) (settle r) (λ t. refl) (λ t. refl)) in
      (steps.at s refl).1

  -- deleteRouters reads; it deletes routers that the status has as managed, by their IDs; and it
  -- deletes an interface of a router only where the router's entry in the status has a managed
  -- interface and the call names, with the router's ID, the ID on record of this interface, or without
  -- one the ID of the interface that the router has on its network; and only where the router, as a get
  -- answers it, has an interface of this ID.
  pub delete_routers-Allowed :
      (s : Scope W) → Makes (Allowed env (networks_of s) (routers_of s)) s (delete_routers env s).1
  unfolding delete_routers ◌>>=◌
  delete_routers-Allowed s =
      let Q = Allowed env (networks_of s) (routers_of s) in
      let run = (delete_router_list env (routers_of s) >>= settle) s in
      Makes-after Q s run.1 _ (body-Makes s)
        (Makes-none Q run.1 _ (calls-condition (error_of run.0) run.1))
