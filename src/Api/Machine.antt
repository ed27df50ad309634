-- ===== src/Api/Machine.antt =====
-- CloudscaleMachine (api/v1beta2/cloudscalemachine_types.go).
use cluster_api_provider_clo.Base.{ℕ, String, Bool, Option, List, Slice}
use cluster_api_provider_clo.Api.Conditions.{Condition}

-- clusterv1.MachineAddress, and the two types of address that the controllers use.
pub data AddressType : Type 0 where
  machine_internal_ip machine_external_ip machine_other : AddressType

pub record MachineAddress : Type 0 where
  pub type : AddressType
  pub address : String

pub record InterfaceSpec : Type 0 where
  pub type : String
  pub network : String
  pub ip_family : Option String

pub record ServerGroupSpec : Type 0 where
  pub name : String

pub record CloudscaleMachineSpec : Type 0 where
  pub provider_id : Option String
  pub flavor : String
  pub image : String
  pub root_volume_size : ℕ
  pub tags : List (String × String)
  pub server_group : Option ServerGroupSpec
  pub interfaces : Slice InterfaceSpec

pub record MachineInitializationStatus : Type 0 where
  pub provisioned : Option Bool

pub record CloudscaleMachineStatus : Type 0 where
  pub initialization : Option MachineInitializationStatus
  pub server_id : String
  pub addresses : List MachineAddress
  pub server_group_id : String
  pub conditions : List Condition

pub record CloudscaleMachine : Type 0 where
  pub name : String
  pub namespace : String
  pub finalizers : List String
  pub deleted : Bool
  pub spec : CloudscaleMachineSpec
  pub status : CloudscaleMachineStatus
