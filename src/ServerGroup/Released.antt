-- ===== src/ServerGroup/Released.antt =====
-- What the success of deleteServerGroups means.
use cluster_api_provider_clo.Base.{
  String, ◌≡◌, ◌≢◌, refl, sym, subst, inl, inr, Bool-cases, false, List, [], ◌∷◌, arith, eq_iff,
  is_set, unset-empty, All, All-map,
}
use cluster_api_provider_clo.Api.Machine.{CloudscaleMachine}
use cluster_api_provider_clo.Sdk.{ServerGroup, Answer, reply, failure, Resource, list_call}
use cluster_api_provider_clo.Go.Post.{ok-injective, bind-ok, or_wrap-ok, wrap_outcome-ok}
use cluster_api_provider_clo.Scope.{Scope, Env, ok, ◌>>=◌, pure, or_wrap, call, annotate}
use cluster_api_provider_clo.Services.{cluster_ownership_tags}
use cluster_api_provider_clo.ServerGroup.{
  server_ids, contains_id, has_owned_servers, get_owned_server_ids, delete_group_list,
  delete_server_groups,
}
use cluster_api_provider_clo.ServerGroup.Laws.{delete_group_list-released}

-- No group has the server of a machine.
abbrev pub HeldByNone : List CloudscaleMachine → List ServerGroup → Type 0
HeldByNone machines groups =
    All
      (λ (g : ServerGroup).
        All
          (λ server.
            All (λ (m : CloudscaleMachine). m.status.server_id ≢ "" → m.status.server_id ≢ server)
              machines)
          g.servers)
      groups

foreign-machines :
    (machines : List CloudscaleMachine) (server : String)
    → contains_id (server_ids machines) server ≡ false
    → All
        (λ (m : CloudscaleMachine). m.status.server_id ≢ "" → m.status.server_id ≢ server)
        machines
unfolding contains_id server_ids
foreign-machines [] server h = tt
foreign-machines (m ∷ rest) server h = elim (Bool-cases (is_set m.status.server_id)) [
  | inl e ↦ (
    λ n same. ground (arith, eq_iff m.status.server_id server),
    foreign-machines rest server (ground (arith, eq_iff m.status.server_id server)),
  )
  | inr e ↦ (
    λ n. absurd (n (unset-empty m.status.server_id e)),
    foreign-machines rest server (ground arith),
  )
]

groups_held :
    (machines : List CloudscaleMachine) (servers : List String)
    → has_owned_servers (server_ids machines) servers ≡ false
    → All
        (λ server.
          All
            (λ (m : CloudscaleMachine). m.status.server_id ≢ "" → m.status.server_id ≢ server)
            machines)
        servers
unfolding has_owned_servers
groups_held machines [] h = tt
groups_held machines (server ∷ rest) h =
    (foreign-machines machines server (ground arith), groups_held machines rest (ground arith))

module _ {W : Type 0} (env : Env W) where
  -- What the two listings answered, where no group has the server of a machine.
  pub record GroupsReleased (s : Scope W) : Type 0 where
    pub machines : List CloudscaleMachine
    pub groups : List ServerGroup
    pub listed_machines :
        (env.client.list_machines s.cluster.namespace s.owner.name false s.world).0 ≡ reply machines
    pub listed_groups :
        (env.client.server_groups.list
          (cluster_ownership_tags s.cluster)
          (env.client.list_machines s.cluster.namespace s.owner.name false s.world).1).0
        ≡ reply groups
    pub held_by_none : HeldByNone machines groups

  -- The state after the listing of the machines.
  abbrev after_machines : Scope W → Scope W
  after_machines s =
      (call (list_call Resource.machine)
        (env.client.list_machines s.cluster.namespace s.owner.name false) s).1

  abbrev groups_answer : Scope W → Answer (List ServerGroup) × W
  groups_answer s = env.client.server_groups.list (cluster_ownership_tags s.cluster) s.world

  abbrev after_groups : Scope W → Scope W
  after_groups s =
      (call (list_call Resource.server_group)
        (env.client.server_groups.list (cluster_ownership_tags s.cluster)) s).1

  record Owned (a : Answer (List CloudscaleMachine)) (owned : List String) (s t : Scope W)
      : Type 0 where
    machines : List CloudscaleMachine
    answered : a ≡ reply machines
    ids : owned ≡ server_ids machines
    state : t ≡ s

  listing-Owned :
      (a : Answer (List CloudscaleMachine)) (owned : List String) (s : Scope W)
      → ((or_wrap "listing CloudscaleMachines" a >>= λ machines. pure (server_ids machines)) s).0
        ≡ ok owned
      → Owned a owned s
          ((or_wrap "listing CloudscaleMachines" a >>= λ machines. pure (server_ids machines)) s).1
  unfolding ◌>>=◌
  listing-Owned (reply machines) owned s h = record {
    machines = machines;
    answered = refl;
    ids = sym (ok-injective (server_ids machines) owned h);
    state = refl;
  }
  listing-Owned (failure e) owned s h = cc

  -- Where deleteServerGroups returns no error, the listings of the cluster's machines and of its
  -- server groups were answered, and no server of any of these groups is the server of any of these
  -- machines.
  pub delete_server_groups-GroupsReleased :
      (s : Scope W) (u : Unit {0}) → (delete_server_groups env s).0 ≡ ok u → GroupsReleased s
  unfolding delete_server_groups get_owned_server_ids annotate ◌>>=◌
  delete_server_groups-GroupsReleased s u h =
      let first = bind-ok (annotate "listing owned servers" (get_owned_server_ids env)) _ s u h in
      let owned = first.0 in
      let k =
        listing-Owned (env.client.list_machines s.cluster.namespace s.owner.name false s.world).0
          owned (after_machines s)
          (wrap_outcome-ok "listing owned servers" (get_owned_server_ids env s).0 owned first.1) in
      let listed =
        or_wrap-ok "listing server groups" (groups_answer (after_machines s)).0
          (delete_group_list env owned) (after_groups (after_machines s)) u
          (subst
            (λ t.
              ((or_wrap "listing server groups" (groups_answer t).0 >>= delete_group_list env owned)
                (after_groups t)).0
              ≡ ok u)
            k.state first.2) in
      let none_owned =
        (delete_group_list-released env owned listed.0).at (after_groups (after_machines s)) u tt
          listed.2 in
      record {
        machines = k.machines;
        groups = listed.0;
        listed_machines = k.answered;
        listed_groups = listed.1;
        held_by_none =
            All-map (λ (g : ServerGroup). has_owned_servers owned g.servers ≡ false) _
              (λ g f.
                groups_held k.machines g.servers
                  (subst (λ ids. has_owned_servers ids g.servers ≡ false) k.ids f))
              listed.0 none_owned;
      }
