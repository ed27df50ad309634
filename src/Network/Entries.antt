-- ===== src/Network/Entries.antt =====
-- What setNetworkStatus does to the entries.
use cluster_api_provider_clo.Base.{
  ℕ, String, ◌≡◌, ◌≢◌, Bool, true, Option, none, some, List, [], ◌∷◌, arith, eq_iff, eq_refl,
  is_set,
}
use cluster_api_provider_clo.Api.Cluster.{NetworkStatus, get_network_status}
use cluster_api_provider_clo.Network.Status.{set_network_status}

-- An entry with both of its IDs.
abbrev pub HasIds : Option NetworkStatus → Type 0
HasIds none = ⊥
HasIds (some ns) = (is_set ns.network_id ≡ true) × (is_set ns.subnet_id ≡ true)

-- The network of a name has an entry with both of its IDs.
abbrev pub IsProvisioned : String → List NetworkStatus → Type 0
IsProvisioned name networks = HasIds (get_network_status networks name)

module _ (name id subnet_id cidr : String) (managed : Bool) (mtu : ℕ) where
  -- The entry that is read back under the name: the values written, and the gateway address of the
  -- entry that was there.
  pub get_network_status-set_network_status :
      (ns : List NetworkStatus) (j : String)
      → name ≢ j
      → get_network_status (set_network_status name id subnet_id cidr managed mtu ns) j
        ≡ get_network_status ns j
  unfolding get_network_status set_network_status
  get_network_status-set_network_status [] j h = ground (arith, eq_iff name j)
  get_network_status-set_network_status (n ∷ ns) j h = ground (
    arith,
    eq_iff name j,
    eq_iff n.name name,
    eq_iff n.name j,
    get_network_status-set_network_status ns j h,
  )

  pub set_network_status-IsProvisioned :
      (ns : List NetworkStatus)
      → is_set id ≡ true
      → is_set subnet_id ≡ true
      → IsProvisioned name (set_network_status name id subnet_id cidr managed mtu ns)
  unfolding get_network_status set_network_status
  set_network_status-IsProvisioned [] hi hs = ground (arith, eq_refl name)
  set_network_status-IsProvisioned (n ∷ ns) hi hs =
      ground (arith, set_network_status-IsProvisioned ns hi hs)

  pub set_network_status_keeps :
      (ns : List NetworkStatus) (j : String)
      → is_set id ≡ true
      → is_set subnet_id ≡ true
      → IsProvisioned j ns
      → IsProvisioned j (set_network_status name id subnet_id cidr managed mtu ns)
  unfolding get_network_status set_network_status
  set_network_status_keeps [] j hi hs h = absurd h
  set_network_status_keeps (n ∷ ns) j hi hs h = ground (arith, set_network_status_keeps ns j hi hs)
