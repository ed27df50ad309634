-- ===== src/Network/Deleted.antt =====
-- deleteNetwork as a whole.
use cluster_api_provider_clo.Base.{◌≡◌, refl, ap, ◌∙◌, Option, none, some, List}
use cluster_api_provider_clo.Errors.{Error, join_errors}
use cluster_api_provider_clo.Api.Conditions.{Condition}
use cluster_api_provider_clo.Api.Cluster.{NetworkStatus, CloudscaleCluster}
use cluster_api_provider_clo.Sdk.{Call}
use cluster_api_provider_clo.Scope.{
  Scope, Env, ok, error_of, Reconcile, ◌>>=◌, modify, set_condition, unit_of,
}
use cluster_api_provider_clo.Network.Removal.{
  delete_networks, delete_network_condition, delete_network,
}
use cluster_api_provider_clo.Network.Removed.{
  RemovesManaged, unmanaged, Within-delete_networks, Keeps-delete_networks, Keeping,
  delete_networks-Keeping,
}
use cluster_api_provider_clo.Network.Status.{networks_of, put_networks}
use cluster_api_provider_clo.Services.Calls.{
  scope_calls, Makes, Makes-after, Makes-IsFrame, Makes-none,
}
use cluster_api_provider_clo.Go.Frame.{Within, Keeps, Keeps-IsFrame, Within-bind}
use cluster_api_provider_clo.Services.Joined.{unit_of-join_errors}
use cluster_api_provider_clo.Go.Post.{Gives, Gives-bind}

module _ {W : Type 0} (env : Env W) where
  networks-delete_network_condition :
      (e : Option Error) (s : Scope W)
      → networks_of (delete_network_condition env e s) ≡ networks_of s
  unfolding delete_network_condition set_condition
  networks-delete_network_condition none s = refl
  networks-delete_network_condition (some e) s = refl

  calls-delete_network_condition :
      (e : Option Error) (s : Scope W) → (delete_network_condition env e s).calls ≡ s.calls
  unfolding delete_network_condition set_condition
  calls-delete_network_condition none s = refl
  calls-delete_network_condition (some e) s = refl

  -- The end of the function, once the loop has run.
  abbrev settle : List NetworkStatus × List Error → Reconcile W (Unit {0})
  settle r = modify (put_networks r.0) >>= λ _. (λ s. (unit_of (join_errors r.1), s))

  settled :
      (N : List NetworkStatus) (r : List NetworkStatus × List Error)
      → Gives (λ _. Keeping env N r) (settle r) (λ _ s. networks_of s ≡ unmanaged N)
  unfolding ◌>>=◌
  settled N r = record { at = λ s a p h. p (unit_of-join_errors r.1 a h) }

  -- The body of the function, below its deferred function.
  abbrev body : List NetworkStatus → Reconcile W (Unit {0})
  body N = delete_networks env N >>= settle

  loop-unmanaged :
      (N : List NetworkStatus) → Gives (λ _. Unit {0}) (body N) (λ _ s. networks_of s ≡ unmanaged N)
  loop-unmanaged N = Gives-bind (λ r _. Keeping env N r) (delete_networks-Keeping env N) (settled N)

  -- Where deleteNetwork returns no error, the status lists no managed network any more, and the
  -- unmanaged ones as before.
  pub delete_network-unmanaged :
      (s : Scope W) (a : Unit {0})
      → (delete_network env s).0 ≡ ok a
      → networks_of (delete_network env s).1 ≡ unmanaged (networks_of s)
  unfolding delete_network ◌>>=◌
  delete_network-unmanaged s a h =
      let run = body (networks_of s) s in
      networks-delete_network_condition (error_of run.0) run.1
      ∙ (loop-unmanaged (networks_of s)).at s a tt h

  settle-Makes :
      (P : Call → Type 0) (r : List NetworkStatus × List Error) → Within (Makes P) (settle r)
  unfolding ◌>>=◌
  settle-Makes P r = record { at = λ s. Makes-none P s _ refl }

  body-Removes : (N : List NetworkStatus) → Within (Makes (RemovesManaged N)) (body N)
  body-Removes N =
      Within-bind (Makes-IsFrame (RemovesManaged N)) (delete_networks env N) settle
        (Within-delete_networks env N) (settle-Makes (RemovesManaged N))

  -- Each call that deleteNetwork makes deletes a network that the status has as managed, by its ID.
  pub delete_network-RemovesManaged :
      (s : Scope W) → Makes (RemovesManaged (networks_of s)) s (delete_network env s).1
  unfolding delete_network ◌>>=◌
  delete_network-RemovesManaged s =
      let run = body (networks_of s) s in
      Makes-after (RemovesManaged (networks_of s)) s run.1 _ ((body-Removes (networks_of s)).at s)
        (Makes-none _ run.1 _ (calls-delete_network_condition (error_of run.0) run.1))

  module _ {X : Type 0} (g : CloudscaleCluster → X)
      (stable : (c : CloudscaleCluster) (N : List NetworkStatus) (cs : List Condition)
        → g (record c { status = record c.status { networks = N; conditions = cs } }) ≡ g c) where
    stable-condition :
        (e : Option Error) (s : Scope W)
        → g (delete_network_condition env e s).cluster ≡ g s.cluster
    unfolding delete_network_condition set_condition
    stable-condition none s = stable s.cluster s.cluster.status.networks _
    stable-condition (some e) s = stable s.cluster s.cluster.status.networks _

    stable-body : (N : List NetworkStatus) → Within (Keeps λ s. g s.cluster) (body N)
    unfolding ◌>>=◌
    stable-body N =
        Within-bind (Keeps-IsFrame (λ (s : Scope W). g s.cluster)) (delete_networks env N) settle
          (record { at = λ s. ap g ((Keeps-delete_networks env N).at s) })
          (λ r. record { at = λ s. stable s.cluster r.0 s.cluster.status.conditions })

    -- deleteNetwork changes nothing but the networks and the conditions of the status.
    pub delete_network-Keeps : (s : Scope W) → g (delete_network env s).1.cluster ≡ g s.cluster
    unfolding delete_network ◌>>=◌
    delete_network-Keeps s =
        let run = body (networks_of s) s in
        stable-condition (error_of run.0) run.1 ∙ (stable-body (networks_of s)).at s
