-- ===== src/LoadBalancer/Removing.antt =====
-- Which members of the pool are deleted.
use cluster_api_provider_clo.Base.{
  String, ◌≡◌, refl, ◌⊎◌, inl, inr, Bool, true, false, Option, none, some, List, [], ◌∷◌, arith,
  ◌==◌, if◌then◌else◌, IsIn,
}
use cluster_api_provider_clo.Errors.{Error}
use cluster_api_provider_clo.Api.Machine.{CloudscaleMachine}
use cluster_api_provider_clo.Sdk.{
  LoadBalancerPoolMember, LoadBalancerPoolMemberRequest, Answer, reply, failure, Resource, Call,
  list_call, delete_call, create_call, update_call, pool_member_request,
}
use cluster_api_provider_clo.Scope.{
  Scope, Env, CtrlResult, Reconcile, Outcome, ok, err, panic, continue, wrap_outcome, is_zero,
  ◌>>=◌, pure, gets, call, or_wrap, annotate, requeue_or_raise, unit_answer,
}
use cluster_api_provider_clo.Go.Post.{wrap_outcome-ok}
use cluster_api_provider_clo.FloatingIp.Target.{list_control_plane_machines}
use cluster_api_provider_clo.LoadBalancer.Components.{or_return}
use cluster_api_provider_clo.LoadBalancer.Members.{
  is_wanted, get_desired_load_balancer_members, member_created, create_load_balancer_member,
  update_load_balancer_member, add_or_update, add_members, member_deleted,
  delete_load_balancer_member, remove_members, reconcile_lb_members,
}
use cluster_api_provider_clo.Services.Calls.{
  scope_calls, Makes, Makes-IsFrame, Makes-one, Within-call, Within-quiet,
}
use cluster_api_provider_clo.Go.Frame.{
  IsFrame, Within, Within-pure, Within-if, Within-annotate, Within-bind, Within-or_wrap,
  Within-raise, frame_rules,
}
use cluster_api_provider_clo.LoadBalancer.Wanted.{Unwanted, Wanted, get_desired-Unwanted}

module _ {W : Type 0} (env : Env W) where
  -- A call that deletes no member of a pool.
  abbrev pub keeps_members : Call → Bool
  keeps_members (delete_call Resource.pool_member id) = false
  keeps_members _ = true

  abbrev pub members_answer : Scope W → Answer (List LoadBalancerPoolMember) × W
  members_answer s = env.client.list_pool_members s.cluster.status.load_balancer_pool_id s.world

  -- The state after the listing of the pool.
  abbrev pub members_listed : Scope W → Scope W
  members_listed s =
      (call (list_call Resource.pool_member)
        (env.client.list_pool_members s.cluster.status.load_balancer_pool_id) s).1

  -- The call deletes a member that the listing of the pool answered, and the name of which no machine
  -- of the control plane with an internal address in the members' subnet has.
  pub record Removes (s : Scope W) (c : Call) : Type 0 where
    pub current : List LoadBalancerPoolMember
    pub member : LoadBalancerPoolMember
    pub machines : List CloudscaleMachine
    pub contains : String → Bool
    pub listed : (members_answer s).0 ≡ reply current
    pub in_pool : IsIn member current
    pub deletes : c ≡ delete_call Resource.pool_member member.uuid
    pub wanted : Wanted env (members_listed s) machines contains
    pub unwanted : Unwanted contains machines member.name

  removes :
      (s : Scope W) (current : List LoadBalancerPoolMember) (m : LoadBalancerPoolMember)
      (desired : List LoadBalancerPoolMemberRequest)
      → (members_answer s).0 ≡ reply current
      → IsIn m current
      → (get_desired_load_balancer_members env (members_listed s)).0 ≡ ok desired
      → is_wanted desired m.name ≡ false
      → Removes s (delete_call Resource.pool_member m.uuid)
  removes s current m desired listed within e n =
      let k = get_desired-Unwanted env (members_listed s) desired m.name e n in
      record {
        current = current;
        member = m;
        machines = k.0;
        contains = k.1;
        listed = listed;
        in_pool = within;
        deletes = refl;
        wanted = k.2;
        unwanted = k.3;
      }

  abbrev pub KeepsOrRemoves : Scope W → Call → Type 0
  KeepsOrRemoves s c = (keeps_members c ≡ true) ⊎ Removes s c

  calls-member_deleted :
      (id : String) (e : Option Error) (s : Scope W) → (member_deleted env id e s).1.calls ≡ s.calls
  unfolding member_deleted
  calls-member_deleted id none s = refl
  calls-member_deleted id (some e) s = refl

  calls-member_created :
      (a : Answer LoadBalancerPoolMember) (s : Scope W) → (member_created env a s).1.calls ≡ s.calls
  unfolding member_created requeue_or_raise ◌>>=◌
  calls-member_created (reply m) s = refl
  calls-member_created (failure e) s = ground arith

  module _ (P : Call → Type 0) where
    frame : IsFrame (Makes {S = Scope W} P)
    frame = Makes-IsFrame P

    member-Makes :
        (m : LoadBalancerPoolMember)
        → P (delete_call Resource.pool_member m.uuid)
        → Within (Makes P) (delete_load_balancer_member env m)
    unfolding delete_load_balancer_member ◌>>=◌
    member-Makes m h = record {
      at = λ s.
          Makes-one P s _ (delete_call Resource.pool_member m.uuid)
            (calls-member_deleted m.uuid _ _) h;
    }

    members-Makes :
        (desired : List LoadBalancerPoolMemberRequest) (current : List LoadBalancerPoolMember)
        → ((m : LoadBalancerPoolMember)
            → IsIn m current
            → is_wanted desired m.name ≡ false
            → P (delete_call Resource.pool_member m.uuid))
        → Within (Makes P) (remove_members env desired current)
    unfolding remove_members
    members-Makes desired [] h = Within-pure frame _
    members-Makes desired (m ∷ rest) h =
        Within-bind frame
          (if is_wanted desired m.name
            then pure tt
            else annotate "failed to delete load balancer member"
                (delete_load_balancer_member env m))
          (λ _. remove_members env desired rest)
          (Within-if frame (is_wanted desired m.name) _ _ (λ _. Within-pure frame _)
            (λ unwanted. Within-annotate frame _ _ (member-Makes m (h m (inl refl) unwanted))))
          (λ _. members-Makes desired rest (λ q k. h q (inr k)))

    module _ (keeps : (c : Call) → keeps_members c ≡ true → P c) where
      gets-Makes : {A : Type 0} (f : Scope W → A) → Within (Makes P) (gets f)
      gets-Makes f = record { at = frame.same }

      create-Makes :
          (d : LoadBalancerPoolMemberRequest) → Within (Makes P) (create_load_balancer_member env d)
      unfolding create_load_balancer_member
      create-Makes d =
          Within-bind frame (gets (λ s. s.cluster.status.load_balancer_pool_id)) _ (gets-Makes _)
            (λ pool_id.
              Within-bind frame
                (call (create_call (pool_member_request pool_id d))
                  (env.client.create_pool_member pool_id d))
                (member_created env) (Within-call P _ _ (keeps _ refl))
                (λ a. Within-quiet P (member_created env a) (calls-member_created a)))

      update-Makes :
          (id address : String) → Within (Makes P) (update_load_balancer_member env id address)
      unfolding update_load_balancer_member
      update-Makes id address =
          Within-bind frame (gets (λ s. s.cluster.status.load_balancer_pool_id)) _ (gets-Makes _)
            (λ pool_id.
              Within-bind frame
                (call (update_call Resource.pool_member id)
                  (env.client.update_pool_member pool_id id address))
                _ (Within-call P _ _ (keeps _ refl))
                (λ e. Within-or_wrap frame "updating load balancer member" (unit_answer e)))

      add_or_update-Makes :
          (d : LoadBalancerPoolMemberRequest) (o : Option LoadBalancerPoolMember)
          → Within (Makes P) (add_or_update env d o)
      unfolding add_or_update
      add_or_update-Makes d none = Within-annotate frame _ _ (create-Makes d)
      add_or_update-Makes d (some current) =
          Within-if frame (current.address == d.address) _ _ (λ _. Within-pure frame _)
            (λ _.
              Within-bind frame _ _
                (Within-annotate frame _ _ (update-Makes current.uuid d.address))
                (λ _. Within-pure frame _))

      add_members-Makes :
          (current : List LoadBalancerPoolMember) (desired : List LoadBalancerPoolMemberRequest)
          → Within (Makes P) (add_members env current desired)
      unfolding add_members
      add_members-Makes current [] = Within-pure frame _
      add_members-Makes current (d ∷ rest) =
          Within-bind frame (add_or_update env d _) _ (add_or_update-Makes d _) (λ result.
            Within-if frame (is_zero result) _ _ (λ _. add_members-Makes current rest)
              (λ _. Within-pure frame _))

      machines-Makes : Within (Makes P) (list_control_plane_machines env)
      machines-Makes = record {
        at = λ s. Makes-one P s _ (list_call Resource.machine) refl (keeps _ refl);
      }

      or_return-Makes : {A : Type 0} (a : Answer A) → Within (Makes P) (or_return {W = W} a)
      or_return-Makes (reply a) = Within-pure frame a
      or_return-Makes (failure e) = Within-raise frame e

      desired-Makes : Within (Makes P) (get_desired_load_balancer_members env)
      unfolding get_desired_load_balancer_members
      desired-Makes =
          search (frame_rules, frame, gets-Makes, machines-Makes, or_return-Makes) depth 16

    -- What follows an answer, and what follows an action.
    after_answer :
        {A B : Type 0} (context : String) (a : Answer A) (f : A → Reconcile W B) (s t : Scope W)
        → Makes P s t
        → ((x : A) → a ≡ reply x → Makes P t (f x t).1)
        → Makes P s ((or_wrap context a >>= f) t).1
    unfolding ◌>>=◌
    after_answer context (reply x) f s t h k = frame.after s t _ h (k x refl)
    after_answer context (failure e) f s t h k = h

    after_outcome :
        {A B : Type 0} (r : Outcome A) (f : A → Reconcile W B) (s t : Scope W)
        → Makes P s t
        → ((x : A) → r ≡ ok x → Makes P t (f x t).1)
        → Makes P s (continue r f t).1
    after_outcome (ok x) f s t h k = frame.after s t _ h (k x refl)
    after_outcome (err e) f s t h k = h
    after_outcome panic f s t h k = h

  -- What reconcileLBMembers does with the members wanted.
  abbrev follow :
      List LoadBalancerPoolMember → List LoadBalancerPoolMemberRequest → Reconcile W CtrlResult
  follow current desired = add_members env current desired >>= λ result.
      if is_zero result then remove_members env desired current else pure result

  follow-Makes :
      (s : Scope W) (current : List LoadBalancerPoolMember)
      (desired : List LoadBalancerPoolMemberRequest)
      → (members_answer s).0 ≡ reply current
      → (get_desired_load_balancer_members env (members_listed s)).0 ≡ ok desired
      → Within (Makes (KeepsOrRemoves s)) (follow current desired)
  follow-Makes s current desired listed e =
      Within-bind (Makes-IsFrame (KeepsOrRemoves s)) (add_members env current desired)
        (λ result. if is_zero result then remove_members env desired current else pure result)
        (add_members-Makes (KeepsOrRemoves s) (λ c h. inl h) current desired)
        (λ result.
          Within-if (Makes-IsFrame (KeepsOrRemoves s)) (is_zero result)
            (remove_members env desired current) (pure result)
            (λ _.
              members-Makes (KeepsOrRemoves s) desired current
                (λ m within n. inr (removes s current m desired listed within e n)))
            (λ _. Within-pure (Makes-IsFrame (KeepsOrRemoves s)) result))

  abbrev wanting : String
  wanting = "failed to get desired load balancer members"

  -- reconcileLBMembers deletes a member of the pool only where it is in the pool's listing, and no
  -- listed machine of the control plane that has its name has an internal address in the CIDR of the
  -- members' subnet.
  pub reconcile_lb_members-Removes :
      (s : Scope W) → Makes (KeepsOrRemoves s) s (reconcile_lb_members env s).1
  unfolding reconcile_lb_members annotate ◌>>=◌
  reconcile_lb_members-Removes s =
      let t = members_listed s in
      let got = get_desired_load_balancer_members env t in
      after_answer (KeepsOrRemoves s) "failed to get current load balancer members"
        (members_answer s).0
        (λ current. annotate wanting (get_desired_load_balancer_members env) >>= follow current) s t
        (Makes-one (KeepsOrRemoves s) s t (list_call Resource.pool_member) refl (inl refl))
        (λ current listed.
          after_outcome (KeepsOrRemoves s) (wrap_outcome wanting got.0) (follow current) t got.1
            ((desired-Makes (KeepsOrRemoves s) (λ c h. inl h)).at t)
            (λ desired e.
              (follow-Makes s current desired listed (wrap_outcome-ok wanting got.0 desired e)).at
                got.1))
