-- ===== src/ServerGroup/Laws.antt =====
-- What deleteServerGroups deletes, and what its success means.
use cluster_api_provider_clo.Base.{
  String, ◌≡◌, refl, ap, ◌∙◌, Bool, true, false, ◌&&◌, Option, none, some, List, [], ◌∷◌, arith,
  ◌==◌, eq_refl, if◌then◌else◌, any, All,
}
use cluster_api_provider_clo.Errors.{Error}
use cluster_api_provider_clo.Sdk.{
  ServerGroup, Answer, reply, failure, Resource, Call, list_call, delete_call,
}
use cluster_api_provider_clo.Scope.{
  Scope, Env, Outcome, ok, err, panic, wrap_outcome, continue, ◌>>=◌, pure, gets, call, or_wrap,
  annotate,
}
use cluster_api_provider_clo.Services.{cluster_ownership_tags}
use cluster_api_provider_clo.Cluster.Readiness.{is_empty_list}
use cluster_api_provider_clo.ServerGroup.{
  has_owned_servers, has_foreign_servers, get_owned_server_ids, after_group_delete, delete_group,
  delete_group_list, delete_server_groups,
}
use cluster_api_provider_clo.Services.Calls.{
  scope_calls, Makes, Makes-IsFrame, Within-call, Within-quiet,
}
use cluster_api_provider_clo.Go.Frame.{
  IsFrame, Within, Keeps, Keeps-IsFrame, Within-pure, Within-raise, Within-if, Within-bind,
}
use cluster_api_provider_clo.Go.Post.{Gives, Gives-bind, Gives-if}

-- The call deletes the group, which has no servers.
abbrev pub empties : Call → ServerGroup → Bool
empties (delete_call Resource.server_group id) g = (id == g.uuid) && is_empty_list g.servers
empties _ g = false

abbrev pub EmptiesOne : List ServerGroup → Call → Type 0
EmptiesOne groups c = any (empties c) groups ≡ true

-- A group that has neither kind of server has none.
owned-or-foreign :
    (owned servers : List String)
    → has_owned_servers owned servers ≡ false
    → has_foreign_servers owned servers ≡ false
    → is_empty_list servers ≡ true
unfolding has_owned_servers has_foreign_servers is_empty_list
owned-or-foreign owned [] h f = refl
owned-or-foreign owned (s ∷ rest) h f = ground arith

module _ {W : Type 0} (env : Env W) where
  calls-after_group :
      (g : ServerGroup) (e : Option Error) (s : Scope W) → (after_group_delete env g e s).1 ≡ s
  unfolding after_group_delete
  calls-after_group g none s = refl
  calls-after_group g (some e) s = ground arith

  empties_self :
      (g : ServerGroup) (groups : List ServerGroup)
      → is_empty_list g.servers ≡ true
      → EmptiesOne (g ∷ groups) (delete_call Resource.server_group g.uuid)
  empties_self g groups h = ground (arith, eq_refl g.uuid)

  empties_later :
      (g : ServerGroup) (groups : List ServerGroup) (c : Call)
      → EmptiesOne groups c
      → EmptiesOne (g ∷ groups) c
  empties_later g groups c h = ground arith

  Within-delete_group :
      (P : Call → Type 0) (g : ServerGroup)
      → P (delete_call Resource.server_group g.uuid)
      → Within (Makes P) (delete_group env g)
  unfolding delete_group
  Within-delete_group P g h =
      Within-bind (Makes-IsFrame P)
        (call (delete_call Resource.server_group g.uuid) (env.client.delete_server_group g.uuid))
        (after_group_delete env g) (Within-call P _ _ h)
        (λ e.
          Within-quiet P (after_group_delete env g e)
            (λ s. ap (λ (t : Scope W). t.calls) (calls-after_group g e s)))

  -- A relation that deleting any group without servers respects is respected by the loop.
  group_list-Within :
      {R : Scope W → Scope W → Type 0}
      → IsFrame R
      → (owned : List String) (groups : List ServerGroup)
      → All
          (λ (g : ServerGroup). is_empty_list g.servers ≡ true → Within R (delete_group env g))
          groups
      → Within R (delete_group_list env owned groups)
  unfolding delete_group_list
  group_list-Within frame owned [] each = Within-pure frame _
  group_list-Within frame owned (g ∷ rest) each =
      Within-if frame (has_owned_servers owned g.servers) _ _ (λ _. Within-raise frame _)
        (λ not_owned.
          Within-bind frame
            (if has_foreign_servers owned g.servers then pure tt else delete_group env g)
            (λ _. delete_group_list env owned rest)
            (Within-if frame (has_foreign_servers owned g.servers) _ _ (λ _. Within-pure frame _)
              (λ not_foreign. each.0 (owned-or-foreign owned g.servers not_owned not_foreign)))
            (λ _. group_list-Within frame owned rest each.1))

  empties-each :
      (P : Call → Type 0) (groups : List ServerGroup)
      → ((c : Call) → EmptiesOne groups c → P c)
      → All
          (λ (g : ServerGroup).
            is_empty_list g.servers ≡ true → Within (Makes P) (delete_group env g))
          groups
  empties-each P [] f = tt
  empties-each P (g ∷ rest) f = (
    λ h. Within-delete_group P g (f _ (empties_self g rest h)),
    empties-each P rest (λ c h. f c (empties_later g rest c h)),
  )

  -- Each call of the loop deletes a group of the list, one without any server.
  pub delete_group_list-EmptiesOne :
      (owned : List String) (groups : List ServerGroup)
      → Within (Makes (EmptiesOne groups)) (delete_group_list env owned groups)
  delete_group_list-EmptiesOne owned groups =
      group_list-Within (Makes-IsFrame (EmptiesOne groups)) owned groups
        (empties-each (EmptiesOne groups) groups (λ c h. h))

  pub delete_group_list-released :
      (owned : List String) (groups : List ServerGroup)
      → Gives
          (λ _. Unit {0})
          (delete_group_list env owned groups)
          (λ _ _. All (λ (g : ServerGroup). has_owned_servers owned g.servers ≡ false) groups)
  unfolding delete_group_list
  delete_group_list-released owned [] = record { at = λ s a p h. tt }
  delete_group_list-released owned (g ∷ rest) =
      Gives-if (has_owned_servers owned g.servers) (λ _. record { at = λ s a p h. cc })
        (λ not_owned.
          Gives-bind (λ _ _. Unit {0}) (record { at = λ s a p h. tt })
            (λ _. record {
              at = λ s a p h. (not_owned, (delete_group_list-released owned rest).at s a tt h);
            }))

  Keeps-delete_group : (g : ServerGroup) → Within (Keeps λ s. s.cluster) (delete_group env g)
  unfolding delete_group ◌>>=◌
  Keeps-delete_group g = record {
    at = λ s.
        ap (λ (t : Scope W). t.cluster)
          (calls-after_group g (env.client.delete_server_group g.uuid s.world).0 _);
  }

  Keeps-each :
      (groups : List ServerGroup)
      → All
          (λ (g : ServerGroup).
            is_empty_list g.servers ≡ true → Within (Keeps λ s. s.cluster) (delete_group env g))
          groups
  Keeps-each [] = tt
  Keeps-each (g ∷ rest) = (λ _. Keeps-delete_group g, Keeps-each rest)

  Keeps-list :
      (owned : List String) (answer : Answer (List ServerGroup)) (s : Scope W)
      → ((or_wrap "listing server groups" answer >>= delete_group_list env owned) s).1.cluster
        ≡ s.cluster
  unfolding ◌>>=◌
  Keeps-list owned (reply groups) s =
      (group_list-Within (Keeps-IsFrame λ s. s.cluster) owned groups (Keeps-each groups)).at s
  Keeps-list owned (failure e) s = refl

  Keeps-owned : (s : Scope W) → (get_owned_server_ids env s).1.cluster ≡ s.cluster
  unfolding get_owned_server_ids ◌>>=◌
  Keeps-owned s = ground arith

  -- What follows the listing of the machines.
  Keeps-rest :
      (r : Outcome (List String)) (s : Scope W)
      → (continue r
          (λ owned. gets (λ s. s.cluster) >>= λ cluster.
            call
              (list_call Resource.server_group)
              (env.client.server_groups.list (cluster_ownership_tags cluster))
            >>= λ answer. or_wrap "listing server groups" answer >>= delete_group_list env owned)
          s).1.cluster
        ≡ s.cluster
  unfolding ◌>>=◌
  Keeps-rest (ok owned) s =
      Keeps-list owned (env.client.server_groups.list (cluster_ownership_tags s.cluster) s.world).0
        _
  Keeps-rest (err e) s = refl
  Keeps-rest panic s = refl

  -- deleteServerGroups leaves the object as it is.
  pub delete_server_groups-Keeps :
      (s : Scope W) → (delete_server_groups env s).1.cluster ≡ s.cluster
  unfolding delete_server_groups annotate ◌>>=◌
  delete_server_groups-Keeps s =
      let listed = get_owned_server_ids env s in
      Keeps-rest (wrap_outcome "listing owned servers" listed.0) listed.1 ∙ Keeps-owned s
