-- ===== src/Services/Ensure.antt =====
-- What ensureResource promises.
use cluster_api_provider_clo.Base.{
  String, ◌≡◌, ◌≢◌, ◌↔◌, ◌⊎◌, refl, sym, ap, ◌∙◌, ◌<>◌, false-true, inl, inr, true, Option, none,
  some, List, [], ◌∷◌, arith, ◌==◌, eq_iff, Bool-cases,
}
use cluster_api_provider_clo.Sdk.{
  TagMap, Answer, reply, failure, GetListService, Resource, get_call,
}
use cluster_api_provider_clo.Scope.{Scope, Outcome, ok, panic, call, ◌>>=◌, or_wrap}
use cluster_api_provider_clo.Go.Post.{ok-injective}
use cluster_api_provider_clo.Errors.{error_is_not_found}
use cluster_api_provider_clo.Services.{adopt, find_by_tags, after_get, ensure_resource}
use cluster_api_provider_clo.Services.Calls.{scope_calls}

module _ {W T : Type 0} (svc : GetListService W T) (extract_uuid : T → String) (tags : TagMap) where
  -- What a listing by the tags stands for: nothing under the empty ID, or its only resource.
  abbrev pub FoundIn : Answer (List T) → Option T → String → Type 0
  FoundIn (reply []) found id = (found ≡ none) × (id ≡ "")
  FoundIn (reply (r ∷ [])) found id = (found ≡ some r) × (id ≡ extract_uuid r)
  FoundIn _ found id = ⊥

  -- What the answer to a get stands for; where nothing is there, the listing decides.
  abbrev pub FoundBy : String → Answer T → W → Option T → String → Type 0
  FoundBy current (reply r) w found id = (found ≡ some r) × (id ≡ current)
  FoundBy current (failure e) w found id =
      (error_is_not_found e ≡ true) × FoundIn (svc.list tags w).0 found id

  -- The resource and the ID that a look-up in a world finds.
  abbrev pub Ensured : String → W → Option T → String → Type 0
  Ensured current w found id =
      ((current ≡ "") × FoundIn (svc.list tags w).0 found id)
      ⊎ ((current ≢ "") × FoundBy current (svc.get current w).0 (svc.get current w).1 found id)

module _ {W T : Type 0} (kind : Resource) (resource_name : String) (svc : GetListService W T)
    (extract_uuid : T → String) (tags : TagMap) where
  pub cluster-find_by_tags :
      (s : Scope W)
      → (find_by_tags kind resource_name svc extract_uuid tags s).1.cluster ≡ s.cluster
  unfolding find_by_tags
  cluster-find_by_tags s = ground arith

  pub cluster-ensure_resource :
      (id : String) (s : Scope W)
      → (ensure_resource kind id resource_name svc extract_uuid tags s).1.cluster ≡ s.cluster
  unfolding ensure_resource
  cluster-ensure_resource id s = ground arith

  pub ensure_resource-ne-panic :
      (id : String) (s : Scope W)
      → (ensure_resource kind id resource_name svc extract_uuid tags s).0 ≢ panic
  unfolding ensure_resource
  ensure_resource-ne-panic id s = ground arith

  returned :
      (f found : Option T) (i id : String)
      → ◌≡◌ {A = Outcome (Option T × String)} (ok (f, i)) (ok (found, id))
        ↔ ((found ≡ f) × (id ≡ i))
  returned f found i id = (
    λ h.
        let e = ok-injective (f, i) (found, id) h in
        (sym (ap (λ (p : Option T × String). p.0) e), sym (ap (λ (p : Option T × String). p.1) e)),
    λ h. rw (h.0, h.1) refl,
  )

  adopt-FoundIn :
      (answer : Answer (List T)) (s : Scope W) (found : Option T) (id : String)
      → ((or_wrap ("listing " <> resource_name <> "s") answer >>= adopt extract_uuid resource_name)
            s).0
          ≡ ok (found, id)
        ↔ FoundIn svc extract_uuid tags answer found id
  unfolding adopt ◌>>=◌
  adopt-FoundIn (reply []) s found id = returned none found "" id
  adopt-FoundIn (reply (r ∷ [])) s found id = returned (some r) found (extract_uuid r) id
  adopt-FoundIn (reply (r ∷ q ∷ rest)) s found id = (λ h. cc, λ h. absurd h)
  adopt-FoundIn (failure e) s found id = (λ h. cc, λ h. absurd h)

  find_by_tags-FoundIn :
      (s : Scope W) (found : Option T) (id : String)
      → (find_by_tags kind resource_name svc extract_uuid tags s).0 ≡ ok (found, id)
        ↔ FoundIn svc extract_uuid tags (svc.list tags s.world).0 found id
  unfolding find_by_tags ◌>>=◌
  find_by_tags-FoundIn s found id = adopt-FoundIn (svc.list tags s.world).0 _ found id

  after_get-FoundBy :
      (current : String) (answer : Answer T) (s : Scope W) (found : Option T) (id : String)
      → (after_get answer current kind resource_name svc extract_uuid tags s).0 ≡ ok (found, id)
        ↔ FoundBy svc extract_uuid tags current answer s.world found id
  unfolding after_get
  after_get-FoundBy current (reply r) s found id = returned (some r) found current id
  after_get-FoundBy current (failure e) s found id =
      let listed = find_by_tags-FoundIn s found id in
      elim (Bool-cases (error_is_not_found e)) [
        | inl n ↦ rw n (λ h. (refl, listed.0 h), λ h. listed.1 h.1)
        | inr n ↦ rw n (λ h. cc, λ h. absurd (false-true h.0))
      ]

  -- ensureResource returns a resource and an ID exactly where they are what the cloud has: under an ID
  -- that is not empty, the resource that a get by this ID answers; under the empty ID, or where the get
  -- answers that nothing is there, the only resource of the listing by the tags, under its own ID, or
  -- nothing, where that listing is empty.
  pub ensure_resource-Ensured :
      (current : String) (s : Scope W) (found : Option T) (id : String)
      → (ensure_resource kind current resource_name svc extract_uuid tags s).0 ≡ ok (found, id)
        ↔ Ensured svc extract_uuid tags current s.world found id
  unfolding ensure_resource ◌>>=◌
  ensure_resource-Ensured current s found id =
      let listed = find_by_tags-FoundIn s found id in
      let got = svc.get current s.world in
      let by_id =
        after_get-FoundBy current got.0 (call (get_call kind current) (svc.get current) s).1 found
          id in
      elim (Bool-cases (current == "")) [
        | inl e ↦ rw e (
          λ h. inl ((eq_iff current "").0 e, listed.0 h),
          λ k. elim k [ inl a ↦ listed.1 a.1 | inr b ↦ absurd (b.0 ((eq_iff current "").0 e)) ],
        )
        | inr e ↦ rw e (
          λ h. inr (λ p. false-true (sym e ∙ (eq_iff current "").1 p), by_id.0 h),
          λ k. elim k [
            | inl a ↦ absurd (false-true (sym e ∙ (eq_iff current "").1 a.0))
            | inr b ↦ by_id.1 b.1
          ],
        )
      ]
