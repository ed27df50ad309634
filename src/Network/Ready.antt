-- ===== src/Network/Ready.antt =====
-- After a reconcile that asks for nothing more, every network of the spec is in the status.
use cluster_api_provider_clo.Base.{
  String, ◌≡◌, refl, true, Option, none, some, List, [], ◌∷◌, if◌then◌else◌, is_set, All,
}
use cluster_api_provider_clo.Errors.{Error}
use cluster_api_provider_clo.Api.Cluster.{NetworkSpec, NetworkStatus}
use cluster_api_provider_clo.Scope.{
  Scope, Env, ok, error_of, CtrlResult, is_zero, ◌>>=◌, pure, set_condition,
}
use cluster_api_provider_clo.Network.Discovered.{reconcile_pre_existing_network-Advances}
use cluster_api_provider_clo.Network.Entries.{IsProvisioned}
use cluster_api_provider_clo.Network.Provision.{
  reconcile_one_network, reconcile_networks, reconcile_defined_networks, network_condition,
  reconcile_network,
}
use cluster_api_provider_clo.Network.Status.{networks_of}
use cluster_api_provider_clo.Network.Written.{
  ReturnsIds, Advances, IsWritten-Advances, reconcile_managed_network-Ends,
}
use cluster_api_provider_clo.Go.Post.{Gives, Gives-bind, Gives-if, Gives-annotate}

module _ {W : Type 0} (env : Env W) (ids : ReturnsIds env.client) where
  abbrev From : List NetworkStatus → Scope W → Type 0
  From N s = networks_of s ≡ N

  reconcile_one_network-Advances :
      (net_spec : NetworkSpec) (N : List NetworkStatus)
      → Gives
          (From N)
          (reconcile_one_network env net_spec)
          (λ r s. is_zero r ≡ true → Advances net_spec.name N (networks_of s))
  unfolding reconcile_one_network
  reconcile_one_network-Advances net_spec N =
      Gives-if (is_set net_spec.uuid)
        (λ _.
          Gives-bind (λ _ s. Advances net_spec.name N (networks_of s))
            (Gives-annotate _ (reconcile_pre_existing_network-Advances env ids N net_spec))
            (λ _. record { at = λ s r p h z. p }))
        (λ _. Gives-annotate _ (record {
          at = λ s r p h z.
              IsWritten-Advances net_spec.name N _
                ((reconcile_managed_network-Ends env ids N net_spec).at s r p h z);
        }))

  -- Those that are provisioned at the start stay so, and those of the list become so.
  abbrev Reaches : List NetworkSpec → List NetworkStatus → Scope W → Type 0
  Reaches specs N s =
      All (λ (n : NetworkSpec). IsProvisioned n.name (networks_of s)) specs
      × ((j : String) → IsProvisioned j N → IsProvisioned j (networks_of s))

  after_one-Reaches :
      (net_spec : NetworkSpec) (rest : List NetworkSpec) (N : List NetworkStatus)
      (result : CtrlResult)
      → ((M : List NetworkStatus)
          → Gives
              (From M)
              (reconcile_networks env rest)
              (λ r s. is_zero r ≡ true → Reaches rest M s))
      → Gives
          (λ s. is_zero result ≡ true → Advances net_spec.name N (networks_of s))
          (if is_zero result then reconcile_networks env rest else pure result)
          (λ r s. is_zero r ≡ true → Reaches (net_spec ∷ rest) N s)
  after_one-Reaches net_spec rest N result ih =
      Gives-if (is_zero result)
        (λ zero. record {
          at = λ s r p h z.
              let later = (ih (networks_of s)).at s r refl h z in
              let one = p zero in
              (
                (later.1 net_spec.name one.provisioned, later.0),
                λ j before. later.1 j (one.keeps j before),
              );
        })
        (λ nonzero. record { at = λ s r p h z. cc })

  pub reconcile_networks-Reaches :
      (specs : List NetworkSpec) (N : List NetworkStatus)
      → Gives (From N) (reconcile_networks env specs) (λ r s. is_zero r ≡ true → Reaches specs N s)
  unfolding reconcile_networks
  reconcile_networks-Reaches [] N = record { at = λ s r p h z. (tt, λ j b. rw p b) }
  reconcile_networks-Reaches (net_spec ∷ rest) N =
      Gives-bind (λ result s. is_zero result ≡ true → Advances net_spec.name N (networks_of s))
        (reconcile_one_network-Advances net_spec N)
        (λ result. after_one-Reaches net_spec rest N result (reconcile_networks-Reaches rest))

  reconcile_defined_networks-Reaches :
      (specs : List NetworkSpec) (N : List NetworkStatus)
      → Gives
          (From N)
          (reconcile_defined_networks env specs)
          (λ r s. is_zero r ≡ true → Reaches specs N s)
  unfolding reconcile_defined_networks
  reconcile_defined_networks-Reaches [] N = record { at = λ s r p h z. cc }
  reconcile_defined_networks-Reaches (n ∷ ns) N = reconcile_networks-Reaches (n ∷ ns) N

  networks-network_condition :
      (e : Option Error) (s : Scope W) → networks_of (network_condition env e s) ≡ networks_of s
  unfolding network_condition set_condition
  networks-network_condition none s = refl
  networks-network_condition (some e) s = refl

  -- Where reconcileNetwork returns no error and asks for no requeue, each network of the spec has an
  -- entry in the status with a network ID and a subnet ID, if the services return no empty ID.
  pub reconcile_network-IsProvisioned :
      (s : Scope W) (r : CtrlResult)
      → (reconcile_network env s).0 ≡ ok r
      → is_zero r ≡ true
      → All
          (λ (n : NetworkSpec). IsProvisioned n.name (networks_of (reconcile_network env s).1))
          s.cluster.spec.networks
  unfolding reconcile_network ◌>>=◌
  reconcile_network-IsProvisioned s r h z =
      let run = reconcile_defined_networks env s.cluster.spec.networks s in
      rw (networks-network_condition (error_of run.0) run.1)
        ((reconcile_defined_networks-Reaches s.cluster.spec.networks (networks_of s)).at s r refl h
          z).0
