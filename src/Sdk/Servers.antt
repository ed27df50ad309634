-- ===== src/Sdk/Servers.antt =====
-- The servers and the server groups of the cloudscale.ch SDK, with the fields that the controllers
-- read, and the requests that create them.
use cluster_api_provider_clo.Base.{ℕ, String, Bool, Option, List}

-- cloudscalesdk.TagMap
abbrev pub TagMap : Type 0
TagMap = List (String × String)

-- An interface of a server: `addresses` are the Address fields of Addresses.
pub record ServerInterface : Type 0 where
  pub type : String
  pub addresses : List String

pub record Server : Type 0 where
  pub uuid : String
  pub status : String
  pub interfaces : List ServerInterface

-- `servers` are the UUIDs of the servers in the group, and `zone` is Zone.Slug.
pub record ServerGroup : Type 0 where
  pub uuid : String
  pub name : String
  pub zone : String
  pub servers : List String

pub record ServerInterfaceRequest : Type 0 where
  pub network : String

-- A size of 0 and an empty list of groups are fields that the request leaves out.
pub record ServerRequest : Type 0 where
  pub name : String
  pub flavor : String
  pub image : String
  pub zone : String
  pub tags : TagMap
  pub user_data : String
  pub interfaces : List ServerInterfaceRequest
  pub use_ipv6 : Option Bool
  pub ssh_keys : List String
  pub volume_size_gb : ℕ
  pub server_groups : List String

pub record ServerGroupRequest : Type 0 where
  pub name : String
  pub type : String
  pub zone : String
  pub tags : TagMap
