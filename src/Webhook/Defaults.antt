-- ===== src/Webhook/Defaults.antt =====
-- What defaulting sets.
use cluster_api_provider_clo.Base.{
  ℕ, String, ◌≡◌, ◌≢◌, ◌⊎◌, inl, inr, sym, ap, ◌∙◌, eq_iff, refl, Bool, true, Option, none, some,
  List, [], ◌∷◌, arith,
}
use cluster_api_provider_clo.Api.Cluster.{
  NetworkSpec, LoadBalancerSpec, FloatingIpSpec, CloudscaleCluster,
}
use cluster_api_provider_clo.Webhook.Regions.{RegionInfo, get_default_zone_for_region}
use cluster_api_provider_clo.Webhook.Clusters.{
  or_text, or_number, or_true, lb_default, family_default, floating_ip_default,
  cluster_spec_default, networks_default, default_cluster,
}

or_text-twice : (s d : String) → or_text (or_text s d) d ≡ or_text s d
or_text-twice s d = ground arith

or_number-twice : (n d : ℕ) → or_number (or_number n d) d ≡ or_number n d
or_number-twice n d = ground arith

or_true-twice : (o : Option Bool) → or_true (or_true o) ≡ or_true o
or_true-twice none = refl
or_true-twice (some b) = refl

family-twice :
    (o : Option String) (a : String) → family_default (family_default o a) a ≡ family_default o a
family-twice none a = ground arith
family-twice (some f) a = refl

lb-twice : (lb : LoadBalancerSpec) → lb_default (lb_default lb) ≡ lb_default lb
unfolding lb_default
lb-twice lb =
    rw
      (
        or_true-twice lb.enabled,
        or_text-twice lb.algorithm "round_robin",
        or_text-twice lb.flavor "lb-standard",
        or_number-twice lb.api_server_port 6443,
        or_number-twice lb.health_monitor.delay_s 5,
        or_number-twice lb.health_monitor.timeout_s 3,
        or_number-twice lb.health_monitor.up_threshold 2,
        or_number-twice lb.health_monitor.down_threshold 3,
      )
      refl

floating_ip-twice :
    (o : Option FloatingIpSpec)
    → floating_ip_default (floating_ip_default o) ≡ floating_ip_default o
unfolding floating_ip_default
floating_ip-twice none = refl
floating_ip-twice (some fip) = rw (family-twice fip.ip_family fip.address) refl

networks-twice :
    (name : String) (ns : List NetworkSpec)
    → networks_default name (networks_default name ns) ≡ networks_default name ns
unfolding networks_default
networks-twice name [] = refl
networks-twice name (n ∷ ns) = refl

-- A field keeps the value that is set, and takes the default where none is.
abbrev pub TextFilled : String → String → String → Type 0
TextFilled old default new = (old ≡ "" → new ≡ default) × (old ≢ "" → new ≡ old)

abbrev pub NumberFilled : ℕ → ℕ → ℕ → Type 0
NumberFilled old default new = (old ≡ 0 → new ≡ default) × (old ≢ 0 → new ≡ old)

or_text-TextFilled : (s d : String) → TextFilled s d (or_text s d)
or_text-TextFilled s d = (λ h. ground (arith, eq_iff s ""), λ h. ground (arith, eq_iff s ""))

or_number-NumberFilled : (n d : ℕ) → NumberFilled n d (or_number n d)
or_number-NumberFilled n d = (λ h. ground arith, λ h. ground arith)

-- The load balancer's fields.
pub record LbDefaulted (old new : LoadBalancerSpec) : Type 0 where
  pub enabled :
      (old.enabled ≡ none → new.enabled ≡ some true)
      × (old.enabled ≢ none → new.enabled ≡ old.enabled)
  pub algorithm : TextFilled old.algorithm "round_robin" new.algorithm
  pub flavor : TextFilled old.flavor "lb-standard" new.flavor
  pub api_server_port : NumberFilled old.api_server_port 6443 new.api_server_port
  pub delay_s : NumberFilled old.health_monitor.delay_s 5 new.health_monitor.delay_s
  pub timeout_s : NumberFilled old.health_monitor.timeout_s 3 new.health_monitor.timeout_s
  pub up_threshold : NumberFilled old.health_monitor.up_threshold 2 new.health_monitor.up_threshold
  pub down_threshold :
      NumberFilled old.health_monitor.down_threshold 3 new.health_monitor.down_threshold
  pub network : new.network ≡ old.network
  pub pool_member_network : new.pool_member_network ≡ old.pool_member_network

-- A floating IP without a family and without an address becomes one of IPv4; another one stays.
abbrev pub FipDefaulted : Option FloatingIpSpec → Option FloatingIpSpec → Type 0
FipDefaulted none new = new ≡ none
FipDefaulted (some fip) new =
    (fip.ip_family ≡ none
      → fip.address ≡ ""
      → new ≡ some (record { ip_family = some "IPv4"; address = "" }))
    × ((fip.ip_family ≢ none) ⊎ (fip.address ≢ "") → new ≡ some fip)

-- A cluster before and after defaulting.
pub record Defaulted (info : RegionInfo) (old new : CloudscaleCluster) : Type 0 where
  pub zone :
      TextFilled old.spec.zone (get_default_zone_for_region info old.spec.region) new.spec.zone
  pub no_networks :
      old.spec.networks ≡ []
      → new.spec.networks
        ≡ record {
          name = old.name;
          uuid = "";
          cidr = "172.18.0.0/24";
          mtu = 0;
          gateway_address = "";
        }
          ∷ []
  pub networks : old.spec.networks ≢ [] → new.spec.networks ≡ old.spec.networks
  pub lb : LbDefaulted old.spec.control_plane_load_balancer new.spec.control_plane_load_balancer
  pub floating_ip : FipDefaulted old.spec.floating_ip new.spec.floating_ip
  pub rest :
      record new {
        spec = record new.spec {
          zone = old.spec.zone;
          networks = old.spec.networks;
          control_plane_load_balancer = old.spec.control_plane_load_balancer;
          floating_ip = old.spec.floating_ip;
        };
      }
      ≡ old

or_true-filled : (o : Option Bool) → (o ≡ none → or_true o ≡ some true) × (o ≢ none → or_true o ≡ o)
or_true-filled none = (λ h. refl, λ h. absurd (h refl))
or_true-filled (some b) = (λ h. cc, λ h. refl)

lb_default-LbDefaulted : (lb : LoadBalancerSpec) → LbDefaulted lb (lb_default lb)
unfolding lb_default
lb_default-LbDefaulted lb = record {
  enabled = or_true-filled lb.enabled;
  algorithm = or_text-TextFilled _ _;
  flavor = or_text-TextFilled _ _;
  api_server_port = or_number-NumberFilled _ _;
  delay_s = or_number-NumberFilled _ _;
  timeout_s = or_number-NumberFilled _ _;
  up_threshold = or_number-NumberFilled _ _;
  down_threshold = or_number-NumberFilled _ _;
  network = refl;
  pool_member_network = refl;
}

no_family : (address : String) → address ≢ "" → family_default none address ≡ none
no_family address n = ground (arith, eq_iff address "")

with_family :
    (fip : FloatingIpSpec) (o : Option String)
    → fip.ip_family ≡ o
    → FipDefaulted
        (some fip)
        (some (record { ip_family = family_default o fip.address; address = fip.address }))
with_family fip none e = (
  λ h a. rw a refl,
  λ k. elim k [
    | inl n ↦ absurd (n e)
    | inr n ↦ ap (λ o. some (record fip { ip_family = o })) (no_family fip.address n ∙ sym e)
  ],
)
with_family fip (some f) e = (λ h a. cc, λ k. ap (λ o. some (record fip { ip_family = o })) (sym e))

floating_ip_default-FipDefaulted :
    (o : Option FloatingIpSpec) → FipDefaulted o (floating_ip_default o)
unfolding floating_ip_default
floating_ip_default-FipDefaulted none = refl
floating_ip_default-FipDefaulted (some fip) = with_family fip fip.ip_family refl

networks_default-filled :
    (name : String) (ns : List NetworkSpec)
    → (ns ≡ []
        → networks_default name ns
          ≡ record { name = name; uuid = ""; cidr = "172.18.0.0/24"; mtu = 0; gateway_address = "" }
            ∷ [])
      × (ns ≢ [] → networks_default name ns ≡ ns)
unfolding networks_default
networks_default-filled name [] = (λ h. refl, λ h. absurd (h refl))
networks_default-filled name (n ∷ ns) = (λ h. cc, λ h. refl)

-- Default fills in exactly what is not set: the zone by the region's first one, a network of the
-- cluster's name where there is none, the load balancer's fields, and the family of a floating IP that
-- has neither family nor address; what is set stays, and so does the rest of the object. Defaulting
-- again changes nothing.
pub default_cluster-Defaulted :
    (info : RegionInfo) (c : CloudscaleCluster)
    → Defaulted info c (default_cluster info c)
      × (default_cluster info (default_cluster info c) ≡ default_cluster info c)
unfolding default_cluster cluster_spec_default
default_cluster-Defaulted info c = (
  record {
    zone = or_text-TextFilled _ _;
    no_networks = (networks_default-filled c.name c.spec.networks).0;
    networks = (networks_default-filled c.name c.spec.networks).1;
    lb = lb_default-LbDefaulted c.spec.control_plane_load_balancer;
    floating_ip = floating_ip_default-FipDefaulted c.spec.floating_ip;
    rest = refl;
  },
  rw
      (
        lb-twice c.spec.control_plane_load_balancer,
        floating_ip-twice c.spec.floating_ip,
        networks-twice c.name c.spec.networks,
        or_text-twice c.spec.zone (get_default_zone_for_region info c.spec.region),
      )
      refl,
)
