-- ===== src/Services.antt =====
-- ensureResource (internal/controller/cloudscale_services.go) and the ownership tags
-- (internal/controller/cloudscale_tags.go).
pub mod Calls
pub mod Ensure
pub mod Conditions
pub mod Joined
use cluster_api_provider_clo.Base.{
  String, Bool, Option, none, some, List, [], ◌∷◌, ◌==◌, length, decimal, if◌then◌else◌, ◌<>◌,
}
use cluster_api_provider_clo.Errors.{Error, plain, wrap, error_is_not_found}
use cluster_api_provider_clo.Api.Cluster.{CloudscaleCluster, cluster_tag_key}
use cluster_api_provider_clo.Sdk.{
  TagMap, Answer, reply, failure, GetListService, Resource, get_call, list_call,
}
use cluster_api_provider_clo.Scope.{Reconcile, ◌>>=◌, pure, raise, call, or_wrap}

unfoldable pub cluster_ownership_tags : CloudscaleCluster → TagMap
unfolding cluster_tag_key
cluster_ownership_tags c = (cluster_tag_key c, "owned") ∷ []

module _ {W T : Type 0} where
  -- What the list call found: nothing, the resource to adopt, or too many.
  unfoldable pub adopt : (T → String) → String → List T → Reconcile W (Option T × String)
  adopt extract_uuid resource_name [] = pure (none, "")
  adopt extract_uuid resource_name (item ∷ []) = pure (some item, extract_uuid item)
  adopt extract_uuid resource_name (i ∷ j ∷ items) = raise (
      plain (
        "found "
        <> decimal (length (i ∷ j ∷ items))
        <> " "
        <> resource_name
        <> "s matching tag filter, expected at most 1"))

  unfoldable pub find_by_tags :
      Resource
      → String
      → GetListService W T
      → (T → String)
      → TagMap
      → Reconcile W (Option T × String)
  unfolding adopt ◌>>=◌
  find_by_tags resource resource_name svc extract_uuid tags = do
    answer ← call (list_call resource) (svc.list tags)
    items ← or_wrap ("listing " <> resource_name <> "s") answer
    adopt extract_uuid resource_name items

  unfoldable pub after_get :
      Answer T
      → String
      → Resource
      → String
      → GetListService W T
      → (T → String)
      → TagMap
      → Reconcile W (Option T × String)
  unfolding find_by_tags
  after_get (reply resource) current_id kind resource_name svc extract_uuid tags =
      pure (some resource, current_id)
  after_get (failure e) current_id kind resource_name svc extract_uuid tags =
      if error_is_not_found e
      then find_by_tags kind resource_name svc extract_uuid tags
      else raise (wrap ("getting " <> resource_name) e)

  unfoldable pub ensure_resource :
      Resource
      → String
      → String
      → GetListService W T
      → (T → String)
      → TagMap
      → Reconcile W (Option T × String)
  unfolding after_get find_by_tags ◌>>=◌
  ensure_resource kind current_id resource_name svc extract_uuid tags =
      if current_id == "" then find_by_tags kind resource_name svc extract_uuid tags else do
        answer ← call (get_call kind current_id) (svc.get current_id)
        after_get answer current_id kind resource_name svc extract_uuid tags
