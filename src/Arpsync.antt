-- ===== src/Arpsync.antt =====
-- arpsync/watcher.go: which entries of a neighbour table a pass changes. What netlink lists is taken as read, and
-- the hardware addresses as the texts that they print as.
pub mod Known
pub mod Sound
use network_plugin_manager.Prelude.{
  String, Bool, false, not, ◌&&◌, ◌||◌, Option, none, some, List, [], ◌∷◌, ◌++◌, ◌==◌,
  if◌then◌else◌,
}
use network_plugin_manager.Go.Map.{Map, lookup, member, put}
use network_plugin_manager.Metadata.{Container, Network, Host}

-- An entry without an address is listed as well.
pub record Entry : Type 0 where
  pub ip : Option String
  pub mac : String

-- What a pass asks of the kernel: to delete an entry, to give one another hardware address, or to add one
pub data Change : Type 0 where
  delete : Entry → Change
  fix add : String → String → Change

abbrev pub is_addressed : Network → Container → Bool
is_addressed network c =
    not (c.primary_ip == "") && not (c.primary_mac_address == "") && c.network_uuid == network.uuid

unfoldable pub build_containers_map : Network → List Container → Map Container → Map Container
unfolding put
build_containers_map network [] m = m
build_containers_map network (c ∷ cs) m =
    build_containers_map network cs (if is_addressed network c then put c.primary_ip c m else m)

unfoldable pub is_network_driver_context : String → String → Map Container → Bool
is_network_driver_context context driver_mac [] = false
is_network_driver_context context driver_mac ((ip, c) ∷ m) =
    (c.external_id == context && c.primary_mac_address == driver_mac)
    || is_network_driver_context context driver_mac m

-- `none` where the entry is not managed
unfoldable pub expected_arp_entry : String → Container → Host → Bool → Option String
expected_arp_entry driver_mac c host driver_context =
    if c.host_uuid == host.uuid
    then some c.primary_mac_address
    else if driver_context
    then none
    else some driver_mac

abbrev pub sync_known : String → Entry → String → Option String → List Change
sync_known driver_mac e ip none = if e.mac == driver_mac then delete e ∷ [] else []
sync_known driver_mac e ip (some expected) = if e.mac == expected then [] else fix ip expected ∷ []

abbrev pub sync_found : String → Host → Bool → Entry → String → Option Container → List Change
sync_found driver_mac host driver_context e ip none = []
sync_found driver_mac host driver_context e ip (some c) =
    sync_known driver_mac e ip (expected_arp_entry driver_mac c host driver_context)

abbrev pub sync_entry : String → Host → Bool → Map Container → Entry → Option String → List Change
sync_entry driver_mac host driver_context m e none = []
sync_entry driver_mac host driver_context m e (some ip) =
    sync_found driver_mac host driver_context e ip (lookup ip m)

unfoldable pub sync_entries : String → Host → Bool → Map Container → List Entry → List Change
unfolding lookup expected_arp_entry
sync_entries driver_mac host driver_context m [] = []
sync_entries driver_mac host driver_context m (e ∷ es) =
    sync_entry driver_mac host driver_context m e e.ip
    ++ sync_entries driver_mac host driver_context m es

abbrev pub add_managed : String → Option String → List Change
add_managed ip none = []
add_managed ip (some expected) = add ip expected ∷ []

unfoldable pub add_missing : String → Host → Bool → (String → Bool) → Map Container → List Change
unfolding expected_arp_entry
add_missing driver_mac host driver_context skipped [] = []
add_missing driver_mac host driver_context skipped ((ip, c) ∷ m) =
    let rest = add_missing driver_mac host driver_context skipped m in
    if skipped ip
    then rest
    else add_managed ip (expected_arp_entry driver_mac c host driver_context) ++ rest

abbrev pub has_ip : String → Option String → Bool
has_ip ip none = false
has_ip ip (some found) = found == ip

unfoldable pub seen : List Entry → String → Bool
seen [] ip = false
seen (e ∷ es) ip = has_ip ip e.ip || seen es ip

-- The entries are those that the kernel lists; the local addresses are those of the host's own links.
unfoldable pub sync_arp_table :
    String → String → Map Container → Host → List Entry → List String → List Change
unfolding sync_entries add_missing seen is_network_driver_context member
sync_arp_table context driver_mac m host entries local_ips =
    let driver_context = is_network_driver_context context driver_mac m in
    sync_entries driver_mac host driver_context m entries
    ++ add_missing driver_mac host driver_context (λ ip. seen entries ip || member ip local_ips) m
