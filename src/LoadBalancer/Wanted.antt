-- ===== src/LoadBalancer/Wanted.antt =====
-- Which members of the pool the machines of the control plane ask for.
use cluster_api_provider_clo.Base.{
  String, ℕ, ◌≡◌, refl, sym, Bool, true, false, Option, none, some, List, [], ◌∷◌, ◌++◌, arith,
  eq_iff, ◌<>◌, subst, All,
}
use cluster_api_provider_clo.Errors.{quote}
use cluster_api_provider_clo.Services.{cluster_ownership_tags}
use cluster_api_provider_clo.Api.Machine.{CloudscaleMachine}
use cluster_api_provider_clo.Sdk.{
  TagMap, LoadBalancerPoolMemberRequest, Answer, reply, failure, Resource, list_call,
}
use cluster_api_provider_clo.Scope.{Scope, Env, Reconcile, ok, ◌>>=◌, pure, gets, call, or_wrap}
use cluster_api_provider_clo.Go.Post.{ok-injective, or_wrap-ok}
use cluster_api_provider_clo.LoadBalancer.Components.{or_return}
use cluster_api_provider_clo.LoadBalancer.Subnets.{
  get_pool_member_subnet_id, get_member_subnet_cidr, member_address, desired_member,
  desired_members,
}
use cluster_api_provider_clo.LoadBalancer.Members.{is_wanted, get_desired_load_balancer_members}
use cluster_api_provider_clo.Services.Calls.{scope_calls}

-- No machine of the name has an internal address in the subnet.
abbrev pub Unwanted : (String → Bool) → List CloudscaleMachine → String → Type 0
Unwanted contains machines name =
    All
      (λ (m : CloudscaleMachine). m.name ≡ name → member_address contains m.status.addresses ≡ none)
      machines

module _ (contains : String → Bool) (subnet_id : String) (port : ℕ) (tags : TagMap) where
  unwanted-first :
      (o : Option String) (machine name : String) (later : List LoadBalancerPoolMemberRequest)
      → is_wanted (desired_member subnet_id port tags machine o ++ later) name ≡ false
      → (machine ≡ name → o ≡ none) × (is_wanted later name ≡ false)
  unfolding desired_member is_wanted
  unwanted-first none machine name later h = (λ e. refl, h)
  unwanted-first (some a) machine name later h =
      (λ e. ground (arith, eq_iff machine name), ground (arith, eq_iff machine name))

  desired_members-Unwanted :
      (machines : List CloudscaleMachine) (name : String)
      → is_wanted (desired_members contains subnet_id port tags machines) name ≡ false
      → Unwanted contains machines name
  unfolding desired_members
  desired_members-Unwanted [] name h = tt
  desired_members-Unwanted (m ∷ rest) name h =
      let k = unwanted-first (member_address contains m.status.addresses) m.name name _ h in
      (k.0, desired_members-Unwanted rest name k.1)

module _ {W : Type 0} (env : Env W) where
  -- What the listing of the control plane machines answers in a state.
  abbrev pub machines_answer : Scope W → Answer (List CloudscaleMachine) × W
  machines_answer s = env.client.list_machines s.cluster.namespace s.owner.name true s.world

  -- The listed machines of the control plane, and the CIDR of the members' subnet as a test of
  -- addresses.
  pub record Wanted (s : Scope W) (machines : List CloudscaleMachine) (contains : String → Bool)
      : Type 0 where
    pub subnet_id : String
    pub cidr : String
    pub listed : (machines_answer s).0 ≡ reply machines
    pub subnet :
        get_pool_member_subnet_id s.cluster.spec.control_plane_load_balancer
          s.cluster.status.networks
        ≡ reply subnet_id
    pub has_cidr : get_member_subnet_cidr s.cluster.status.networks subnet_id ≡ reply cidr
    pub parsed : env.parse_cidr cidr ≡ reply contains

  abbrev after_machines : Scope W → Scope W
  after_machines s =
      (call (list_call Resource.machine)
        (env.client.list_machines s.cluster.namespace s.owner.name true) s).1

  or_return-ok :
      {A B : Type 0} (answer : Answer A) (f : A → Reconcile W B) (s : Scope W) (b : B)
      → ((or_return answer >>= f) s).0 ≡ ok b
      → (a : A) × (answer ≡ reply a) × ((f a s).0 ≡ ok b)
  unfolding ◌>>=◌
  or_return-ok (reply a) f s b h = (a, refl, h)
  or_return-ok (failure e) f s b h = cc

  -- The parts of getDesiredLoadBalancerMembers after the listing, in the state `t`.
  abbrev from_contains :
      Scope W
      → List CloudscaleMachine
      → String
      → (String → Bool)
      → Reconcile W (List LoadBalancerPoolMemberRequest)
  from_contains t machines subnet_id contains = pure (
      desired_members contains subnet_id t.cluster.spec.control_plane_load_balancer.api_server_port
        (cluster_ownership_tags t.cluster) machines)

  abbrev from_cidr :
      Scope W
      → List CloudscaleMachine
      → String
      → String
      → Reconcile W (List LoadBalancerPoolMemberRequest)
  from_cidr t machines subnet_id cidr =
      or_wrap ("parsing pool member subnet CIDR " <> quote cidr) (env.parse_cidr cidr)
      >>= from_contains t machines subnet_id

  abbrev from_subnet :
      Scope W → List CloudscaleMachine → String → Reconcile W (List LoadBalancerPoolMemberRequest)
  from_subnet t machines subnet_id =
      or_wrap "resolving pool member subnet CIDR"
        (get_member_subnet_cidr t.cluster.status.networks subnet_id)
      >>= from_cidr t machines subnet_id

  abbrev from_machines : List CloudscaleMachine → Reconcile W (List LoadBalancerPoolMemberRequest)
  from_machines machines = gets (λ s. s) >>= λ t.
      or_return (
        get_pool_member_subnet_id t.cluster.spec.control_plane_load_balancer
          t.cluster.status.networks)
      >>= from_subnet t machines

  pub get_desired-Unwanted :
      (s : Scope W) (desired : List LoadBalancerPoolMemberRequest) (name : String)
      → (get_desired_load_balancer_members env s).0 ≡ ok desired
      → is_wanted desired name ≡ false
      → (machines : List CloudscaleMachine) × (contains : String → Bool) × Wanted s machines
          contains
        × Unwanted contains machines name
  unfolding get_desired_load_balancer_members ◌>>=◌
  get_desired-Unwanted s desired name h n =
      let t = after_machines s in
      let listed =
        or_wrap-ok "listing CloudscaleMachines" (machines_answer s).0 from_machines t desired h in
      let subnet =
        or_return-ok
          (get_pool_member_subnet_id s.cluster.spec.control_plane_load_balancer
            s.cluster.status.networks)
          (from_subnet t listed.0) t desired listed.2 in
      let cidr =
        or_wrap-ok "resolving pool member subnet CIDR"
          (get_member_subnet_cidr s.cluster.status.networks subnet.0)
          (from_cidr t listed.0 subnet.0) t desired subnet.2 in
      let parsed =
        or_wrap-ok ("parsing pool member subnet CIDR " <> quote cidr.0) (env.parse_cidr cidr.0)
          (from_contains t listed.0 subnet.0) t desired cidr.2 in
      let same = ok-injective _ desired parsed.2 in
      (
        listed.0,
        parsed.0,
        record {
          subnet_id = subnet.0;
          cidr = cidr.0;
          listed = listed.1;
          subnet = subnet.1;
          has_cidr = cidr.1;
          parsed = parsed.1;
        },
        desired_members-Unwanted parsed.0 subnet.0 _ _ listed.0 name
            (subst (λ ds. is_wanted ds name ≡ false) (sym same) n),
      )
