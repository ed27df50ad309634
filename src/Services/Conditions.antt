-- ===== src/Services/Conditions.antt =====
-- What a condition that was set reads as.
use cluster_api_provider_clo.Base.{String, ◌≡◌, List, arith, ◌==◌, if◌then◌else◌}
use cluster_api_provider_clo.Api.Conditions.{
  ConditionStatus, Condition, ConditionsLaws, status_is_true, is_true,
}
use cluster_api_provider_clo.Scope.{Scope, Env, set_condition}

module _ {W : Type 0} (env : Env W) (laws : ConditionsLaws env.conditions) where
  abbrev pub conditions_of : Scope W → List Condition
  conditions_of s = s.cluster.status.conditions

  pub is_true-set_condition :
      (type : String) (status : ConditionStatus) (reason message : String) (s : Scope W)
      (t : String)
      → is_true env.conditions (conditions_of (set_condition env type status reason message s)) t
        ≡ (if type == t then status_is_true status else is_true env.conditions (conditions_of s) t)
  unfolding set_condition
  is_true-set_condition type status reason message s t = ground (
    arith,
    laws.get-set (record { type = type; status = status; reason = reason; message = message })
        (conditions_of s) t,
  )
