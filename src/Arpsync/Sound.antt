-- ===== src/Arpsync/Sound.antt =====
-- What a pass may change in a neighbour table.
use network_plugin_manager.Prelude.{
  ◌≡◌, refl, inl, inr, String, Bool, true, false, ◌||◌, Option, none, some, List, [], ◌∷◌, ◌==◌,
  All, arith, eq_iff, Bool-cases,
}
use network_plugin_manager.Go.Map.{Map, lookup, member, Distinct}
use network_plugin_manager.Go.Map.Values.{lookup-All}
use network_plugin_manager.Go.Text.Lines.{append-All}
use network_plugin_manager.Metadata.{Container, Network, Host}
use network_plugin_manager.Arpsync.{
  Entry, Change, expected_arp_entry, sync_known, sync_found, sync_entry, sync_entries, add_managed,
  add_missing, seen, is_network_driver_context, build_containers_map, sync_arp_table,
}
use network_plugin_manager.Arpsync.Known.{
  IsRoute, IsOn, IsRight, AreOn, containers-AreOn, context-IsDriver, containers-Distinct,
}

module _ (network : Network) (cs : List Container) (context driver_mac : String) (host : Host)
    (m : Map Container) (on_network : AreOn network cs m) (entries : List Entry) where
  abbrev driver_context : Bool
  driver_context = is_network_driver_context context driver_mac m

  abbrev IsFine : Change → Type 0
  IsFine = IsRight network cs context driver_mac host driver_context entries

  lookup-IsOn : (ip : String) (c : Container) → lookup ip m ≡ some c → IsOn network cs ip c
  lookup-IsOn ip c k = lookup-All (λ e. IsOn network cs e.0 e.1) m ip on_network k

  expected-IsRoute :
      (c : Container) (mac : String)
      → expected_arp_entry driver_mac c host driver_context ≡ some mac
      → IsRoute driver_mac host driver_context c mac
  unfolding expected_arp_entry
  expected-IsRoute c mac h = elim (Bool-cases (c.host_uuid == host.uuid)) [
    | inl q ↦ inl ((eq_iff c.host_uuid host.uuid).0 q, ground (arith, q, h))
    | inr q ↦ inr (q, (ground (arith, q, h), ground (arith, q, h)))
  ]

  unmanaged :
      (c : Container)
      → expected_arp_entry driver_mac c host driver_context ≡ none
      → driver_context ≡ true
  unfolding expected_arp_entry
  unmanaged c h = ground (arith, h)

  known-IsRight :
      (e : Entry) (ip : String) (c : Container) (o : Option String)
      → seen entries ip ≡ true
      → lookup ip m ≡ some c
      → expected_arp_entry driver_mac c host driver_context ≡ o
      → All IsFine (sync_known driver_mac e ip o)
  known-IsRight e ip c none s k h = elim (Bool-cases (e.mac == driver_mac)) [
    | inl q ↦ rw (q) (
      (
        (eq_iff e.mac driver_mac).0 q,
        context-IsDriver network cs context driver_mac m on_network (unmanaged c h),
      ),
      tt,
    )
    | inr q ↦ rw (q) tt
  ]
  known-IsRight e ip c (some mac) s k h = elim (Bool-cases (e.mac == mac)) [
    | inl q ↦ rw (q) tt
    | inr q ↦ rw (q) (
      (record { container = c; on = lookup-IsOn ip c k; route = expected-IsRoute c mac h }, s),
      tt,
    )
  ]

  entry-IsRight :
      (e : Entry) (o : Option String)
      → ((ip : String) → o ≡ some ip → seen entries ip ≡ true)
      → All IsFine (sync_entry driver_mac host driver_context m e o)
  entry-IsRight e none s = tt
  entry-IsRight e (some ip) s = found (lookup ip m) refl
    where
      found :
          (o : Option Container)
          → lookup ip m ≡ o
          → All IsFine (sync_found driver_mac host driver_context e ip o)
      found none k = tt
      found (some c) k =
          known-IsRight e ip c (expected_arp_entry driver_mac c host driver_context) (s ip refl) k
            refl

  entries-AreRight :
      (es : List Entry)
      → ((ip : String) → seen es ip ≡ true → seen entries ip ≡ true)
      → All IsFine (sync_entries driver_mac host driver_context m es)
  unfolding sync_entries seen
  entries-AreRight [] s = tt
  entries-AreRight (e ∷ es) s =
      append-All IsFine (sync_entry driver_mac host driver_context m e e.ip) _
        (entry-IsRight e e.ip (λ ip h. s ip (ground (arith, h, eq_iff ip ip))))
        (entries-AreRight es (λ ip h. s ip (ground (arith, h))))

  added-IsRight :
      (ip : String) (c : Container) (o : Option String)
      → seen entries ip ≡ false
      → lookup ip m ≡ some c
      → expected_arp_entry driver_mac c host driver_context ≡ o
      → All IsFine (add_managed ip o)
  added-IsRight ip c none s k h = tt
  added-IsRight ip c (some mac) s k h =
      ((record { container = c; on = lookup-IsOn ip c k; route = expected-IsRoute c mac h }, s), tt)

  missing-AreRight :
      (skipped : String → Bool)
      → ((ip : String) → skipped ip ≡ false → seen entries ip ≡ false)
      → (n : Map Container) → Distinct n
      → ((ip : String) (c : Container) → lookup ip n ≡ some c → lookup ip m ≡ some c)
      → All IsFine (add_missing driver_mac host driver_context skipped n)
  unfolding add_missing lookup
  missing-AreRight skipped s [] d k = tt
  missing-AreRight skipped s ((ip, c) ∷ n) d k =
      let rest : All IsFine (add_missing driver_mac host driver_context skipped n) =
        missing-AreRight skipped s n d.1 (λ j b h. k j b (ground (arith, h, d.0, eq_iff ip j))) in
      elim (Bool-cases (skipped ip)) [
        | inl q ↦ rw (q) rest
        | inr q ↦ rw (q) (
            append-All IsFine (add_managed ip (expected_arp_entry driver_mac c host driver_context))
              _
              (added-IsRight ip c (expected_arp_entry driver_mac c host driver_context) (s ip q)
                (k ip c (ground (arith, eq_iff ip ip))) refl)
              rest)
      ]

-- Whatever the kernel lists and the metadata holds, a pass over a network's containers changes or adds an entry
-- only for the address of a container that the metadata has on this network, to its own hardware address where it
-- is on this host, and otherwise, where the pass is not taken for one in the network driver, to the driver's; it
-- changes listed addresses, and adds only those that are not listed. It deletes an entry only in a container of
-- the network that has the driver's hardware address, and where the entry points at that.
pub sync_arp_table-AreRight :
    (context driver_mac : String) (network : Network) (cs : List Container) (host : Host)
    (entries : List Entry) (local_ips : List String)
    → All
        (IsRight network cs context driver_mac host
          (is_network_driver_context context driver_mac (build_containers_map network cs []))
          entries)
        (sync_arp_table context driver_mac
          (build_containers_map network cs [])
          host
          entries
          local_ips)
unfolding sync_arp_table
sync_arp_table-AreRight context driver_mac network cs host entries local_ips =
    let m = build_containers_map network cs [] in
    let on = containers-AreOn network cs cs [] (λ c l. l) tt in
    let driver_context = is_network_driver_context context driver_mac m in
    append-All (IsRight network cs context driver_mac host driver_context entries)
      (sync_entries driver_mac host driver_context m entries) _
      (entries-AreRight network cs context driver_mac host m on entries entries (λ ip h. h))
      (missing-AreRight network cs context driver_mac host m on entries
        (λ ip. seen entries ip || member ip local_ips) (λ ip h. ground (arith, h)) m
        (containers-Distinct network cs [] tt) (λ ip c h. h))
