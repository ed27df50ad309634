-- ===== src/FloatingIp/Cleared.antt =====
-- What deleteFloatingIP does to the scope.
use cluster_api_provider_clo.Base.{
  String, ◌≡◌, refl, Bool, true, false, Option, none, some, List, arith, ◌==◌, eq_iff,
}
use cluster_api_provider_clo.Errors.{Error}
use cluster_api_provider_clo.Api.Conditions.{Condition}
use cluster_api_provider_clo.Api.Cluster.{FloatingIpSpec, CloudscaleCluster}
use cluster_api_provider_clo.Scope.{Scope, Env, ok, error_of, ◌>>=◌, set_condition}
use cluster_api_provider_clo.FloatingIp.Removal.{
  after_floating_ip_delete, delete_recorded, delete_floating_ip_condition,
  delete_managed_floating_ip, delete_floating_ip_spec, delete_floating_ip,
}

-- Whether the controller made the floating IP: the spec has one, and not by its address.
abbrev pub owns_floating_ip : Option FloatingIpSpec → Bool
owns_floating_ip none = false
owns_floating_ip (some fip_spec) = fip_spec.address == ""

module _ {W : Type 0} (env : Env W) where
  floating_ip-condition :
      (e : Option Error) (s : Scope W)
      → (delete_floating_ip_condition env e s).cluster.status.floating_ip
        ≡ s.cluster.status.floating_ip
  unfolding delete_floating_ip_condition set_condition
  floating_ip-condition none s = refl
  floating_ip-condition (some e) s = refl

  delete_recorded-cleared :
      (ip : String) (s : Scope W) (a : Unit {0})
      → s.cluster.status.floating_ip ≡ ip
      → (delete_recorded env ip s).0 ≡ ok a
      → (delete_recorded env ip s).1.cluster.status.floating_ip ≡ ""
  unfolding delete_recorded
  delete_recorded-cleared ip s a p h = ground (arith, eq_iff ip "")

  spec-cleared :
      (spec : Option FloatingIpSpec) (s : Scope W) (a : Unit {0})
      → owns_floating_ip spec ≡ true
      → (delete_floating_ip_spec env spec s).0 ≡ ok a
      → (delete_floating_ip_spec env spec s).1.cluster.status.floating_ip ≡ ""
  unfolding delete_floating_ip_spec delete_managed_floating_ip ◌>>=◌
  spec-cleared none s a o h = cc
  spec-cleared (some f) s a o h =
      let run = delete_recorded env s.cluster.status.floating_ip s in
      ground (
        arith,
        floating_ip-condition (error_of run.0) run.1,
        delete_recorded-cleared s.cluster.status.floating_ip s a refl,
      )

  -- Where deleteFloatingIP returns no error and the floating IP is the controller's own, the status
  -- names no floating IP any more.
  pub delete_floating_ip-cleared :
      (s : Scope W) (a : Unit {0})
      → owns_floating_ip s.cluster.spec.floating_ip ≡ true
      → (delete_floating_ip env s).0 ≡ ok a
      → (delete_floating_ip env s).1.cluster.status.floating_ip ≡ ""
  unfolding delete_floating_ip
  delete_floating_ip-cleared s a o h = spec-cleared s.cluster.spec.floating_ip s a o h

  spec-foreign :
      (spec : Option FloatingIpSpec) (s : Scope W)
      → owns_floating_ip spec ≡ false
      → delete_floating_ip_spec env spec s ≡ (ok tt, s)
  unfolding delete_floating_ip_spec
  spec-foreign none s o = refl
  spec-foreign (some f) s o = ground arith

  -- Where the spec has no floating IP, or a pre-existing one, deleteFloatingIP makes no call and
  -- leaves everything as it is.
  delete_floating_ip-foreign :
      (s : Scope W)
      → owns_floating_ip s.cluster.spec.floating_ip ≡ false
      → delete_floating_ip env s ≡ (ok tt, s)
  unfolding delete_floating_ip ◌>>=◌
  delete_floating_ip-foreign s o = spec-foreign s.cluster.spec.floating_ip s o

  module _ {X : Type 0} (g : CloudscaleCluster → X)
      (stable : (c : CloudscaleCluster) (ip : String) (cs : List Condition)
        → g (record c { status = record c.status { floating_ip = ip; conditions = cs } })
          ≡ g c) where
    stable-condition :
        (e : Option Error) (s : Scope W)
        → g (delete_floating_ip_condition env e s).cluster ≡ g s.cluster
    unfolding delete_floating_ip_condition set_condition
    stable-condition none s = stable s.cluster s.cluster.status.floating_ip _
    stable-condition (some e) s = stable s.cluster s.cluster.status.floating_ip _

    stable-after :
        (ip : String) (e : Option Error) (s : Scope W)
        → g (after_floating_ip_delete env ip e s).1.cluster ≡ g s.cluster
    unfolding after_floating_ip_delete ◌>>=◌
    stable-after ip none s = stable s.cluster "" s.cluster.status.conditions
    stable-after ip (some e) s = ground (arith, stable s.cluster "" s.cluster.status.conditions)

    stable-recorded :
        (ip : String) (s : Scope W) → g (delete_recorded env ip s).1.cluster ≡ g s.cluster
    unfolding delete_recorded
    stable-recorded ip s = grind (arith, stable-after)

    stable-spec :
        (spec : Option FloatingIpSpec) (s : Scope W)
        → g (delete_floating_ip_spec env spec s).1.cluster ≡ g s.cluster
    unfolding delete_floating_ip_spec delete_managed_floating_ip ◌>>=◌
    stable-spec none s = refl
    stable-spec (some f) s =
        let run = delete_recorded env s.cluster.status.floating_ip s in
        ground (
          arith,
          stable-condition (error_of run.0) run.1,
          stable-recorded s.cluster.status.floating_ip s,
        )

    -- deleteFloatingIP changes nothing but the floating IP and the conditions of the status.
    pub delete_floating_ip-Keeps :
        (s : Scope W) → g (delete_floating_ip env s).1.cluster ≡ g s.cluster
    unfolding delete_floating_ip ◌>>=◌
    delete_floating_ip-Keeps s = stable-spec s.cluster.spec.floating_ip s
