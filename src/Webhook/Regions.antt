-- ===== src/Webhook/Regions.antt =====
-- RegionInfo (internal/cloudscale/regions.go): the zones of the regions, as the SDK lists them.
use cluster_api_provider_clo.Base.{
  String, Bool, false, Option, none, some, List, [], ◌∷◌, ◌++◌, ◌==◌, if◌then◌else◌,
}
use cluster_api_provider_clo.Errors.{or_else}

-- cloudscalesdk.Region: its slug, and the slugs of its zones.
pub record Region : Type 0 where
  pub slug : String
  pub zones : List String

-- The map from a zone to its region, as association lists in the order of writing.
unfoldable pub zone_pairs : String → List String → List (String × String)
zone_pairs region [] = []
zone_pairs region (z ∷ zs) = (z, region) ∷ zone_pairs region zs

pub record RegionInfo : Type 0 where
  pub regions : List (String × List String)
  pub zones : List (String × String)

-- A lookup in a map, as the list of the writes to it: the last write counts.
unfoldable pub lookup_last {ℓ} : {A : Type ℓ} → String → List (String × A) → Option A
lookup_last key [] = none
lookup_last key ((k, v) ∷ rest) = or_else (lookup_last key rest) (if k == key then some v else none)

unfoldable pub new_region_info : List Region → RegionInfo
unfolding zone_pairs
new_region_info [] = record { regions = []; zones = [] }
new_region_info (r ∷ rest) =
    let later = new_region_info rest in
    record {
      regions = (r.slug, r.zones) ∷ later.regions;
      zones = zone_pairs r.slug r.zones ++ later.zones;
    }

abbrev pub same_region : String → Option String → Bool
same_region region none = false
same_region region (some zone_region) = zone_region == region

unfoldable pub zone_belongs_to_region : RegionInfo → String → String → Bool
unfolding lookup_last
zone_belongs_to_region info zone region = same_region region (lookup_last zone info.zones)

abbrev pub first_zone : Option (List String) → String
first_zone none = ""
first_zone (some []) = ""
first_zone (some (z ∷ zs)) = z

unfoldable pub get_default_zone_for_region : RegionInfo → String → String
unfolding lookup_last
get_default_zone_for_region info region = first_zone (lookup_last region info.regions)
