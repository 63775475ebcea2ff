-- ===== src/Arpsync/Known.antt =====
-- The containers that a pass knows, and the changes that it may ask for.
use network_plugin_manager.Prelude.{
  ◌≡◌, ◌≢◌, refl, inl, inr, ◌⊎◌, String, Bool, true, false, List, [], ◌∷◌, ◌==◌, ◌&&◌, All, Any,
  arith, eq_iff, Bool-cases,
}
use network_plugin_manager.Go.Map.{Map, Distinct}
use network_plugin_manager.Go.Map.{put}
use network_plugin_manager.Go.Map.Values.{put-Distinct, put-All}
use network_plugin_manager.Metadata.{Container, Network, Host}
use network_plugin_manager.Arpsync.{
  Entry, Change, delete, fix, add, seen, is_network_driver_context, is_addressed,
  build_containers_map,
}

-- A container of this host is reached at its own hardware address, and any other through the network's driver, which
-- itself takes no such entry.
abbrev pub IsRoute : String → Host → Bool → Container → String → Type 0
IsRoute driver_mac host driver_context c mac =
    ((c.host_uuid ≡ host.uuid) × (mac ≡ c.primary_mac_address))
    ⊎ (((c.host_uuid == host.uuid) ≡ false) × ((driver_context ≡ false) × (mac ≡ driver_mac)))

-- A container of the metadata on this network, with an address
pub record IsOn (network : Network) (cs : List Container) (ip : String) (c : Container)
    : Type 0 where
  pub listed : Any (λ k. k ≡ c) cs
  pub on_network : c.network_uuid ≡ network.uuid
  pub at_ip : c.primary_ip ≡ ip
  pub has_ip : ip ≢ ""
  pub has_mac : c.primary_mac_address ≢ ""

-- The address belongs to a container of the network, which is reached at this hardware address.
pub record IsKnown (network : Network) (cs : List Container) (driver_mac : String) (host : Host)
    (driver_context : Bool) (ip mac : String) : Type 0 where
  pub container : Container
  pub on : IsOn network cs ip container
  pub route : IsRoute driver_mac host driver_context container mac

-- The context is that of a container of the network with the driver's hardware address.
pub record IsDriver (network : Network) (cs : List Container) (context driver_mac : String)
    : Type 0 where
  pub container : Container
  pub ip : String
  pub on : IsOn network cs ip container
  pub id : container.external_id ≡ context
  pub mac : container.primary_mac_address ≡ driver_mac

-- What a change may be: of listed entries, and of entries that are missing, for the network's containers; and of
-- an entry that points at the driver itself, where the driver is
abbrev pub IsRight :
    Network → List Container → String → String → Host → Bool → List Entry → Change → Type 0
IsRight network cs context driver_mac host driver_context entries (fix ip mac) =
    IsKnown network cs driver_mac host driver_context ip mac × (seen entries ip ≡ true)
IsRight network cs context driver_mac host driver_context entries (add ip mac) =
    IsKnown network cs driver_mac host driver_context ip mac × (seen entries ip ≡ false)
IsRight network cs context driver_mac host driver_context entries (delete e) =
    (e.mac ≡ driver_mac) × IsDriver network cs context driver_mac

abbrev pub AreOn : Network → List Container → Map Container → Type 0
AreOn network cs = All λ e. IsOn network cs e.0 e.1

pub containers-AreOn :
    (network : Network) (cs every : List Container) (m : Map Container)
    → ((c : Container) → Any (λ k. k ≡ c) cs → Any (λ k. k ≡ c) every)
    → AreOn network every m
    → AreOn network every (build_containers_map network cs m)
unfolding build_containers_map
containers-AreOn network [] every m f a = a
containers-AreOn network (c ∷ cs) every m f a = elim (Bool-cases (is_addressed network c)) [
  | inr q ↦ rw (q) (containers-AreOn network cs every m (λ k l. f k (inr l)) a)
  | inl q ↦
      let on : IsOn network every c.primary_ip c = record {
        listed = f c (inl refl);
        on_network = ground (arith, q, eq_iff c.network_uuid network.uuid);
        at_ip = refl;
        has_ip = λ e. ground (arith, q, e, eq_iff c.primary_ip "");
        has_mac = λ e. ground (arith, q, e, eq_iff c.primary_mac_address "");
      } in
      rw (q) (
        containers-AreOn network cs every (put c.primary_ip c m) (λ k l. f k (inr l))
          (put-All (λ e. IsOn network every e.0 e.1) c.primary_ip c m on a))
]

pub context-IsDriver :
    (network : Network) (cs : List Container) (context driver_mac : String) (m : Map Container)
    → AreOn network cs m
    → is_network_driver_context context driver_mac m ≡ true
    → IsDriver network cs context driver_mac
unfolding is_network_driver_context
context-IsDriver network cs context driver_mac [] a h = absurd (ground (arith, h))
context-IsDriver network cs context driver_mac ((ip, c) ∷ m) a h =
    elim (Bool-cases (c.external_id == context && c.primary_mac_address == driver_mac)) [
      | inl q ↦ record {
        container = c;
        ip = ip;
        on = a.0;
        id = ground (arith, q, eq_iff c.external_id context);
        mac = ground (arith, q, eq_iff c.primary_mac_address driver_mac);
      }
      | inr q ↦ context-IsDriver network cs context driver_mac m a.1 (ground (arith, h, q))
    ]

pub containers-Distinct :
    (network : Network) (cs : List Container) (m : Map Container)
    → Distinct m
    → Distinct (build_containers_map network cs m)
unfolding build_containers_map
containers-Distinct network [] m d = d
containers-Distinct network (c ∷ cs) m d = elim (Bool-cases (is_addressed network c)) [
  | inl q ↦
      rw (q)
        (containers-Distinct network cs (put c.primary_ip c m) (put-Distinct c.primary_ip c m d))
  | inr q ↦ rw (q) (containers-Distinct network cs m d)
]
