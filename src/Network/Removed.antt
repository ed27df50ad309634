-- ===== src/Network/Removed.antt =====
-- What deleteNetwork requests, and what it leaves in the status.
use cluster_api_provider_clo.Base.{
  ◌≡◌, sym, ap, subst, Bool, true, false, not, ◌&&◌, Option, none, some, List, [], ◌∷◌, ◌++◌, arith,
  ◌==◌, eq_refl, is_set, any, select, append-empty, select-append,
}
use cluster_api_provider_clo.Errors.{Error}
use cluster_api_provider_clo.Api.Cluster.{NetworkStatus}
use cluster_api_provider_clo.Sdk.{Resource, Call, delete_call}
use cluster_api_provider_clo.Scope.{Scope, Env, ok, ◌>>=◌, call}
use cluster_api_provider_clo.Network.Removal.{after_delete, delete_one_network, delete_networks}
use cluster_api_provider_clo.Services.Calls.{
  scope_calls, Makes, Makes-IsFrame, Within-call, Within-quiet, Within-weaken,
}
use cluster_api_provider_clo.Go.Frame.{
  Within, Keeps, Keeps-IsFrame, Within-pure, Within-if, Within-bind,
}
use cluster_api_provider_clo.Go.Post.{Gives, ok-injective, Gives-bind}

-- The entry that a delete call is about: managed, with an ID, which is the call's.
abbrev pub removes : Call → NetworkStatus → Bool
removes (delete_call Resource.network id) ns =
    ns.managed && is_set ns.network_id && (id == ns.network_id)
removes _ ns = false

-- The call deletes a managed network of the list.
abbrev pub RemovesManaged : List NetworkStatus → Call → Type 0
RemovesManaged networks c = any (removes c) networks ≡ true

-- The networks that a full deletion leaves.
abbrev pub unmanaged : List NetworkStatus → List NetworkStatus
unmanaged networks = select (λ ns. not ns.managed) networks

module _ {W : Type 0} (env : Env W) where
  calls-after_delete :
      (ns : NetworkStatus) (e : Option Error) (s : Scope W)
      → (after_delete env ns e s).1.calls ≡ s.calls
  unfolding after_delete ◌>>=◌
  calls-after_delete ns none s = ground arith
  calls-after_delete ns (some e) s = ground arith

  removes_self :
      (ns : NetworkStatus) (N : List NetworkStatus)
      → not ns.managed ≡ false
      → (ns.network_id == "") ≡ false
      → RemovesManaged (ns ∷ N) (delete_call Resource.network ns.network_id)
  removes_self ns N m i = ground (arith, eq_refl ns.network_id)

  Within-delete_one :
      (ns : NetworkStatus) (N : List NetworkStatus)
      → Within (Makes (RemovesManaged (ns ∷ N))) (delete_one_network env ns)
  unfolding delete_one_network
  Within-delete_one ns N =
      let frame = Makes-IsFrame (RemovesManaged (ns ∷ N)) in
      Within-if frame (not ns.managed) _ _ (λ _. Within-pure frame _)
        (λ managed.
          Within-if frame (ns.network_id == "") _ _ (λ _. Within-pure frame _)
            (λ known.
              Within-bind frame
                (call (delete_call Resource.network ns.network_id)
                  (env.client.delete_network ns.network_id))
                (after_delete env ns)
                (Within-call (RemovesManaged (ns ∷ N)) _ _ (removes_self ns N managed known))
                (λ e. Within-quiet _ (after_delete env ns e) (calls-after_delete ns e))))

  removes-later :
      (ns : NetworkStatus) (N : List NetworkStatus) (c : Call)
      → RemovesManaged N c
      → RemovesManaged (ns ∷ N) c
  removes-later ns N c h = ground arith

  pub Within-delete_networks :
      (N : List NetworkStatus) → Within (Makes (RemovesManaged N)) (delete_networks env N)
  unfolding delete_networks
  Within-delete_networks [] = Within-pure (Makes-IsFrame (RemovesManaged [])) _
  Within-delete_networks (ns ∷ N) =
      let frame = Makes-IsFrame (RemovesManaged (ns ∷ N)) in
      Within-bind frame _ _ (Within-delete_one ns N) (λ one.
        Within-bind frame _ _
          (Within-weaken (RemovesManaged N) (RemovesManaged (ns ∷ N)) (delete_networks env N)
            (removes-later ns N) (Within-delete_networks N))
          (λ later. Within-pure frame _))

  cluster-after_delete :
      (ns : NetworkStatus) (e : Option Error) (s : Scope W)
      → (after_delete env ns e s).1.cluster ≡ s.cluster
  unfolding after_delete ◌>>=◌
  cluster-after_delete ns none s = ground arith
  cluster-after_delete ns (some e) s = ground arith

  cluster-delete_one :
      (ns : NetworkStatus) (s : Scope W) → (delete_one_network env ns s).1.cluster ≡ s.cluster
  unfolding delete_one_network
  cluster-delete_one ns s = grind (arith, cluster-after_delete)

  -- The loop leaves the object as it is.
  pub Keeps-delete_networks :
      (N : List NetworkStatus) → Within (Keeps λ s. s.cluster) (delete_networks env N)
  unfolding delete_networks
  Keeps-delete_networks [] = Within-pure (Keeps-IsFrame _) _
  Keeps-delete_networks (ns ∷ N) =
      Within-bind (Keeps-IsFrame _) _ _ (record { at = cluster-delete_one ns })
        (λ one.
          Within-bind (Keeps-IsFrame _) _ _ (Keeps-delete_networks N)
            (λ later. Within-pure (Keeps-IsFrame _) _))

  -- Without an error, the networks that stay are the unmanaged ones.
  abbrev pub Keeping : List NetworkStatus → List NetworkStatus × List Error → Type 0
  Keeping N r = r.1 ≡ [] → r.0 ≡ unmanaged N

  delete_one-Keeping :
      (ns : NetworkStatus) (s : Scope W) (r : List NetworkStatus × List Error)
      → (delete_one_network env ns s).0 ≡ ok r
      → Keeping (ns ∷ []) r
  unfolding delete_one_network
  delete_one-Keeping ns s (kept, errs) h e = ground arith

  both-Keeping :
      (ns : NetworkStatus) (N : List NetworkStatus) (one later : List NetworkStatus × List Error)
      → Keeping (ns ∷ []) one
      → Keeping N later
      → Keeping (ns ∷ N) (one.0 ++ later.0, one.1 ++ later.1)
  both-Keeping ns N one later h k e =
      let empty = append-empty one.1 later.1 e in
      rw (h empty.0, k empty.1) (select-append (λ (n : NetworkStatus). not n.managed) ns N)

  pub delete_networks-Keeping :
      (N : List NetworkStatus) → Gives (λ _. Unit {0}) (delete_networks env N) (λ r _. Keeping N r)
  unfolding delete_networks
  delete_networks-Keeping [] = record {
    at = λ s r p h e. ap (λ (x : List NetworkStatus × List Error). x.0) (sym (ok-injective _ _ h));
  }
  delete_networks-Keeping (ns ∷ N) =
      Gives-bind (λ one _. Keeping (ns ∷ []) one)
        (record { at = λ s r p h. delete_one-Keeping ns s r h })
        (λ one.
          Gives-bind (λ later _. Keeping (ns ∷ []) one × Keeping N later)
            (record { at = λ s r p h. (p, (delete_networks-Keeping N).at s r tt h) })
            (λ later. record {
              at = λ s r p h.
                  subst (Keeping (ns ∷ N)) (ok-injective _ _ h)
                    (both-Keeping ns N one later p.0 p.1);
            }))
