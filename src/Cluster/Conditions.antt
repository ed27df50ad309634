-- ===== src/Cluster/Conditions.antt =====
-- The Ready condition that reconcileNormal leaves.
use cluster_api_provider_clo.Base.{String, Bool}
use cluster_api_provider_clo.Api.Conditions.{ConditionsLaws, is_true}
use cluster_api_provider_clo.Scope.{Scope, Env}
use cluster_api_provider_clo.Services.Conditions.{conditions_of}

module _ {W : Type 0} (env : Env W) (laws : ConditionsLaws env.conditions) where
  abbrev cond : Scope W → String → Bool
  cond s t = is_true env.conditions (conditions_of env laws s) t
