-- ===== src/Api/Conditions.antt =====
-- Conditions (metav1.Condition), their types and reasons (api/v1beta2/condition_types.go), and the
-- conditions package of Cluster API, which the controllers only call.
use cluster_api_provider_clo.Base.{
  String, ◌≡◌, Bool, true, false, Option, none, some, List, ◌==◌, if◌then◌else◌,
}

pub data ConditionStatus : Type 0 where
  condition_true condition_false condition_unknown : ConditionStatus

-- The fields that the controllers write; the package sets the transition time.
pub record Condition : Type 0 where
  pub type : String
  pub status : ConditionStatus
  pub reason : String
  pub message : String

-- conditions.Set, conditions.Get and conditions.Delete.
pub record ConditionsPackage : Type 0 where
  pub set : Condition → List Condition → List Condition
  pub get : List Condition → String → Option Condition
  pub delete : List Condition → String → List Condition

-- What the package documents: a set condition is read back, and the others stay.
pub record ConditionsLaws (p : ConditionsPackage) : Type 0 where
  pub get-set :
      (c : Condition) (cs : List Condition) (t : String)
      → p.get (p.set c cs) t ≡ (if c.type == t then some c else p.get cs t)
  pub get-delete :
      (cs : List Condition) (d t : String)
      → p.get (p.delete cs d) t ≡ (if d == t then none else p.get cs t)

abbrev pub status_is_true : ConditionStatus → Bool
status_is_true condition_true = true
status_is_true _ = false

abbrev pub found_true : Option Condition → Bool
found_true none = false
found_true (some c) = status_is_true c.status

-- conditions.IsTrue: the condition is there, with status True.
abbrev pub is_true : ConditionsPackage → List Condition → String → Bool
is_true p cs t = found_true (p.get cs t)

abbrev pub ready_condition : String
ready_condition = "Ready"

abbrev pub network_ready_condition : String
network_ready_condition = "NetworkReady"

abbrev pub load_balancer_ready_condition : String
load_balancer_ready_condition = "LoadBalancerReady"

abbrev pub server_group_ready_condition : String
server_group_ready_condition = "ServerGroupReady"

abbrev pub server_ready_condition : String
server_ready_condition = "ServerReady"

abbrev pub paused_condition : String
paused_condition = "Paused"

abbrev pub router_ready_condition : String
router_ready_condition = "RouterReady"

abbrev pub floating_ip_ready_condition : String
floating_ip_ready_condition = "FloatingIPReady"

abbrev pub deleting_condition : String
deleting_condition = "Deleting"
