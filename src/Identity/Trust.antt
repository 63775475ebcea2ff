-- ===== src/Identity/Trust.antt =====
-- Which answers decide on which host the manager believes itself to run.
use network_plugin_manager.Prelude.{
  ◌≡◌, ◌≢◌, refl, inl, inr, String, Option, some, List, [], ◌∷◌, ok, >>=-eq-ok, arith, eq_iff,
  Option-cases,
}
use network_plugin_manager.Metadata.{Host, Client}
use network_plugin_manager.Identity.{
  Docker, host_of_own, local_host_uuid_from_docker_labels, local_host_uuid, find_host, self_host_if,
  local_host,
}

find_host-uuid :
    (uuid : String) (hs : List Host) (h : Host) → find_host uuid hs ≡ some h → h.uuid ≡ uuid
unfolding find_host
find_host-uuid uuid [] h e = cc
find_host-uuid uuid (k ∷ ks) h e = ground (arith, eq_iff k.uuid uuid, find_host-uuid uuid ks h)

self_host_if-uuid :
    (c : Client) (uuid : String) (h : Host) → self_host_if c uuid ≡ ok h → h.uuid ≡ uuid
unfolding self_host_if
self_host_if-uuid c uuid h e = elim (Option-cases (c.self_host)) [
  | inl z ↦ ground (arith, z)
  | inr (k, z) ↦ ground (arith, z, eq_iff k.uuid uuid)
]

-- The host that `LocalHost` returns is the one whose identifier `LocalHostUUID` finds.
pub local_host-uuid :
    (c : Client) (d : Docker) (h : Host) → local_host c d ≡ ok h → local_host_uuid c d ≡ ok h.uuid
unfolding local_host
local_host-uuid c d h e =
    let (uuid, u, r) = >>=-eq-ok (local_host_uuid c d) _ e in
    let same : h.uuid ≡ uuid = elim (Option-cases (c.hosts)) [
      | inl z ↦ ground (arith, z)
      | inr (hosts, z) ↦ elim (Option-cases (find_host uuid hosts)) [
        | inl y ↦ self_host_if-uuid c uuid h (ground (arith, z, y))
        | inr (k, y) ↦ find_host-uuid uuid hosts h (ground (arith, z, y))
      ]
    ] in
    ground (arith, u, same)

labels-same :
    (c : Client) (d : Docker) (other : Option Host)
    → local_host_uuid_from_docker_labels (record c { self_host = other }) d
      ≡ local_host_uuid_from_docker_labels c d
unfolding local_host_uuid_from_docker_labels host_of_own
labels-same c d other = refl

-- Where the manager's own container is found through Docker in the services, and its host among the
-- hosts, the answer of the metadata's self host, which can be another host's, has no influence.
pub local_host-ignores_self :
    (c : Client) (d : Docker) (other : Option Host) (uuid : String) (hosts : List Host) (h : Host)
    → local_host_uuid_from_docker_labels c d ≡ ok uuid
    → uuid ≢ ""
    → c.hosts ≡ some hosts
    → find_host uuid hosts ≡ some h
    → (local_host c d ≡ ok h) × (local_host (record c { self_host = other }) d ≡ ok h)
unfolding local_host local_host_uuid
local_host-ignores_self c d other uuid hosts h l n z f =
    (ground (arith, eq_iff uuid ""), ground (arith, eq_iff uuid "", labels-same c d other))
