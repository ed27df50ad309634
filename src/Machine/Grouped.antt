-- ===== src/Machine/Grouped.antt =====
-- Which server group reconcileServerGroup records.
use cluster_api_provider_clo.Base.{
  and-both, false-true, ℕ, String, ◌≡◌, ◌≢◌, refl, sym, ap, ◌∙◌, subst, Bool, true, false,
  Bool-cases, inl, inr, ◌&&◌, Option, none, some, List, [], ◌∷◌, ◌++◌, ◌==◌, eq_iff, if◌then◌else◌,
  arith, All,
}
use cluster_api_provider_clo.Errors.{Error, wrap, is_timeout_error}
use cluster_api_provider_clo.Api.Machine.{ServerGroupSpec}
use cluster_api_provider_clo.Sdk.{
  ServerGroup, ServerGroupRequest, Answer, reply, failure, Call, Resource, server_group_request,
  list_call, create_call,
}
use cluster_api_provider_clo.Go.{
  Outcome, ok, err, panic, CtrlResult, no_requeue, requeue, ◌>>=◌, pure, raise, or_wrap,
  requeue_or_raise,
}
use cluster_api_provider_clo.Scope.{Env}
use cluster_api_provider_clo.Services.{cluster_ownership_tags}
use cluster_api_provider_clo.Machine.Scope.{MachineScope, set_machine_condition}
use cluster_api_provider_clo.Machine.Group.{
  find_group, after_group_create, use_group, find_or_create_group, reconcile_group_spec,
  server_group_condition, reconcile_server_group,
}

-- The group has not both the name and the zone that are asked for.
abbrev pub Other : ServerGroupRequest → ServerGroup → Type 0
Other req g = g.name ≡ req.name → g.zone ≢ req.zone

-- The ID of the group that is used, and the calls after those in `before`: it is the first listed
-- group of the name and the zone, or there is none and it is the one that was created.
pub data Chosen (req : ServerGroupRequest) (listed : Answer (List ServerGroup))
    (created : Answer ServerGroup) (before : List Call) (id : String) (calls : List Call)
    : Type 0 where
  shares :
      (earlier later : List ServerGroup) (g : ServerGroup)
      → listed ≡ reply (earlier ++ g ∷ later)
      → All (Other req) earlier
      → g.name ≡ req.name
      → g.zone ≡ req.zone
      → id ≡ g.uuid
      → calls ≡ before
      → Chosen req listed created before id calls
  makes :
      (groups : List ServerGroup) (g : ServerGroup)
      → listed ≡ reply groups
      → All (Other req) groups
      → created ≡ reply g
      → id ≡ g.uuid
      → calls ≡ before ++ create_call (server_group_request req) ∷ []
      → Chosen req listed created before id calls

-- What find_group answers on a list.
data Found (req : ServerGroupRequest) (groups : List ServerGroup) (o : Option ServerGroup)
    : Type 0 where
  found :
      (earlier later : List ServerGroup) (g : ServerGroup)
      → groups ≡ earlier ++ g ∷ later
      → All (Other req) earlier
      → g.name ≡ req.name
      → g.zone ≡ req.zone
      → o ≡ some g
      → Found req groups o
  absent : All (Other req) groups → o ≡ none → Found req groups o

find_group-later :
    (req : ServerGroupRequest) (g : ServerGroup) (rest : List ServerGroup) (o : Option ServerGroup)
    → Other req g
    → Found req rest o
    → Found req (g ∷ rest) o
find_group-later req g rest o n (found earlier later h e others name zone is) =
    found (g ∷ earlier) later h (ap (λ xs. g ∷ xs) e) (n, others) name zone is
find_group-later req g rest o n (absent others is) = absent (n, others) is

find_group-Found :
    (req : ServerGroupRequest) (groups : List ServerGroup)
    → Found req groups (find_group req.name req.zone groups)
unfolding find_group
find_group-Found req [] = absent tt refl
find_group-Found req (g ∷ rest) = elim (Bool-cases ((g.name == req.name) && (g.zone == req.zone))) [
  | inl e ↦
      let both = (and-both _ _).0 e in
      rw e (
        found [] rest g refl tt ((eq_iff g.name req.name).0 both.0)
          ((eq_iff g.zone req.zone).0 both.1) refl)
  | inr e ↦ rw e (
      find_group-later req g rest _
        (λ p q.
          false-true
            (sym e ∙ (and-both _ _).1 ((eq_iff g.name req.name).1 p, (eq_iff g.zone req.zone).1 q)))
        (find_group-Found req rest))
]

module _ {W : Type 0} (env : Env W) where
  abbrev group_id : MachineScope W → String
  group_id s = s.cloudscale_machine.status.server_group_id

  abbrev delay : Outcome CtrlResult → ℕ
  delay (ok r) = r.requeue_after
  delay _ = 1

  five-zero : ◌≡◌ {A = ℕ} 5 0 → ⊥
  five-zero h = omega arith

  again_or_error :
      (b : Bool) (e : Error) (t : MachineScope W)
      → ((if b then pure (requeue 5) else raise e) t).0 ≡ ok no_requeue
      → ⊥
  again_or_error true e t h = five-zero (ap delay h)
  again_or_error false e t h = cc

  after-Chosen :
      (req : ServerGroupRequest) (groups : List ServerGroup) (answer : Answer ServerGroup)
      (before : List Call) (t : MachineScope W)
      → All (Other req) groups
      → t.calls ≡ before ++ create_call (server_group_request req) ∷ []
      → (after_group_create env answer t).0 ≡ ok no_requeue
      → Chosen req
          (reply groups)
          answer
          before
          (group_id (after_group_create env answer t).1)
          (after_group_create env answer t).1.calls
  unfolding after_group_create requeue_or_raise ◌>>=◌
  after-Chosen req groups (reply g) before t others e h = makes groups g refl others refl refl e
  after-Chosen req groups (failure e') before t others e h =
      absurd (again_or_error (is_timeout_error e') (wrap "creating server group" e') t h)

  -- What follows the listing, in a state `t` that recorded it.
  abbrev Chooses :
      ServerGroupRequest
      → Answer (List ServerGroup)
      → MachineScope W
      → Outcome CtrlResult × MachineScope W
      → Type 0
  Chooses req listed t r =
      r.0 ≡ ok no_requeue
      → Chosen req listed (env.client.create_server_group req t.world).0 t.calls (group_id r.1)
          r.1.calls

  use-Chooses :
      (req : ServerGroupRequest) (groups : List ServerGroup) (o : Option ServerGroup)
      (t : MachineScope W)
      → Found req groups o
      → Chooses req (reply groups) t (use_group env req o t)
  unfolding use_group ◌>>=◌
  use-Chooses req groups o t (found earlier later g e others name zone is) =
      subst (λ o'. Chooses req (reply groups) t (use_group env req o' t)) (sym is)
        (λ h. shares earlier later g (ap reply e) others name zone refl refl)
  use-Chooses req groups o t (absent others is) =
      subst (λ o'. Chooses req (reply groups) t (use_group env req o' t)) (sym is)
        (λ h. after-Chosen req groups _ t.calls _ others refl h)

  listed-Chooses :
      (req : ServerGroupRequest) (answer : Answer (List ServerGroup)) (t : MachineScope W)
      → Chooses req answer t (
          (or_wrap "listing server groups" answer >>= λ groups.
          use_group env req (find_group req.name req.zone groups))
            t)
  unfolding ◌>>=◌
  listed-Chooses req (reply groups) t =
      use-Chooses req groups (find_group req.name req.zone groups) t (find_group-Found req groups)
  listed-Chooses req (failure e) t = λ h. cc

  -- The group that the machine asks for.
  abbrev pub wanted_group : MachineScope W → ServerGroupSpec → ServerGroupRequest
  wanted_group s spec = record {
    name = spec.name;
    type = "anti-affinity";
    zone = s.cloudscale_cluster.spec.zone;
    tags = cluster_ownership_tags s.cloudscale_cluster;
  }

  abbrev listed_groups : MachineScope W → Answer (List ServerGroup) × W
  listed_groups s =
      env.client.server_groups.list (cluster_ownership_tags s.cloudscale_cluster) s.world

  abbrev after_listing : MachineScope W → MachineScope W
  after_listing s = record s {
    world = (listed_groups s).1;
    calls = s.calls ++ list_call Resource.server_group ∷ [];
  }

  abbrev ChoosesFor :
      MachineScope W → ServerGroupSpec → Outcome CtrlResult × MachineScope W → Type 0
  ChoosesFor s spec = Chooses (wanted_group s spec) (listed_groups s).0 (after_listing s)

  find-Chooses :
      (s : MachineScope W) (spec : ServerGroupSpec)
      → ChoosesFor s spec (find_or_create_group env spec.name s)
  unfolding find_or_create_group ◌>>=◌
  find-Chooses s spec = listed-Chooses (wanted_group s spec) (listed_groups s).0 (after_listing s)

  spec-Chooses :
      (s : MachineScope W) (spec : ServerGroupSpec)
      → s.cloudscale_machine.status.server_group_id == "" ≡ true
      → ChoosesFor s spec (reconcile_group_spec env (some spec) s)
  unfolding reconcile_group_spec ◌>>=◌
  spec-Chooses s spec e = rw e (find-Chooses s spec)

  condition-Chooses :
      (s : MachineScope W) (spec : ServerGroupSpec) (r : Outcome CtrlResult) (t : MachineScope W)
      → ChoosesFor s spec (r, t)
      → ChoosesFor s spec (r, server_group_condition env r t)
  unfolding server_group_condition set_machine_condition
  condition-Chooses s spec (ok r) t h = h
  condition-Chooses s spec (err e) t h = λ k. cc
  condition-Chooses s spec panic t h = λ k. cc

  -- Where the spec names a server group, none is recorded, and reconcileServerGroup returns no error
  -- and asks for no requeue, it records the first group of the cluster's groups that has the name and
  -- is in the cluster's zone, and only lists; or no listed group has both, and it records the group
  -- that its one further call created.
  pub reconcile_server_group-Chosen :
      (s : MachineScope W) (spec : ServerGroupSpec)
      → s.cloudscale_machine.spec.server_group ≡ some spec
      → s.cloudscale_machine.status.server_group_id ≡ ""
      → (reconcile_server_group env s).0 ≡ ok no_requeue
      → let listed =
          env.client.server_groups.list (cluster_ownership_tags s.cloudscale_cluster) s.world in
        let req = wanted_group s spec in
        Chosen req listed.0
          (env.client.create_server_group req listed.1).0
          (s.calls ++ list_call Resource.server_group ∷ [])
          (reconcile_server_group env s).1.cloudscale_machine.status.server_group_id
          (reconcile_server_group env s).1.calls
  unfolding reconcile_server_group ◌>>=◌
  reconcile_server_group-Chosen s spec e none_recorded h =
      let run = reconcile_group_spec env s.cloudscale_machine.spec.server_group s in
      condition-Chooses s spec run.0 run.1
        (subst (λ o. ChoosesFor s spec (reconcile_group_spec env o s)) (sym e)
          (spec-Chooses s spec ((eq_iff _ "").1 none_recorded)))
        h
