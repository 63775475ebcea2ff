-- ===== src/Identity.antt =====
-- identity/identity.go: on which host does the manager run?
pub mod Trust
use network_plugin_manager.Prelude.{
  String, Bool, true, false, not, ◌&&◌, ◌||◌, Option, none, some, List, [], ◌∷◌, ◌++◌, ◌==◌, Result,
  ok, err, ◌>>=◌, ◌>>◌, if◌then◌else◌,
}
use network_plugin_manager.Go.Text.{split, contains, after, cut}
use network_plugin_manager.Go.Map.{Map, lookup_or}
use network_plugin_manager.Metadata.{Host, Container, Service, Client}

-- What Docker says of a container: its labels, where it has a configuration, and its identifier.
pub record Inspection : Type 0 where
  pub labels : Option (Map String)
  pub id : String

-- The manager's own mount table, and Docker's answers; `none` is an error.
pub record Docker : Type 0 where
  pub mountinfo : Option String
  pub inspect : String → Option Inspection

pub data Error : Type 0 where
  mountinfo_unreadable id_not_found inspect_failed no_config no_identity : Error
  services_failed container_not_found : Error
  self_host_failed empty_self_host hosts_failed host_not_found : Error

abbrev pub is_container_mount : String → Bool
is_container_mount line =
    contains line "/etc/hosts" || contains line "/etc/hostname" || contains line "/etc/resolv.conf"

-- The identifier in one line of the mount table
unfoldable pub id_of_line : String → Option String
unfolding contains after cut
id_of_line line =
    if is_container_mount line
    then elim (after "/var/lib/docker/containers/" line) [
      | none ↦ none
      | some rest ↦ elim (cut b'/' rest) [
        | none ↦ none
        | some r ↦ if r.0 == "" then none else some r.0
      ]
    ]
    else none

unfoldable pub first_id : List String → Option String
unfolding id_of_line
first_id [] = none
first_id (line ∷ lines) =
    let rest = first_id lines in elim (id_of_line line) [ some id ↦ some id | none ↦ rest ]

unfoldable pub current_container_id : Docker → Result Error String
unfolding first_id split
current_container_id d = elim (d.mountinfo) [
  | none ↦ err mountinfo_unreadable
  | some content ↦ elim (first_id (split b'\n' content)) [
    | none ↦ err id_not_found
    | some id ↦ ok id
  ]
]

-- By what a container of the metadata is taken for the manager's own
pub record Own : Type 0 where
  pub uuid : String
  pub name : String
  pub external_id : String

abbrev pub is_own : Own → Container → Bool
is_own own c =
    (not (own.uuid == "") && c.uuid == own.uuid)
    || (not (own.external_id == "") && c.external_id == own.external_id)
    || (not (own.name == "") && c.name == own.name)

unfoldable pub find_own : Own → List Container → Option Container
find_own own [] = none
find_own own (c ∷ cs) = let rest = find_own own cs in if is_own own c then some c else rest

unfoldable pub find_in_services : Own → List Service → Option Container
unfolding find_own
find_in_services own [] = none
find_in_services own (s ∷ ss) =
    let rest = find_in_services own ss in
    elim (find_own own s.containers) [ some c ↦ some c | none ↦ rest ]

abbrev pub own_of : Inspection → Map String → Own
own_of i labels = record {
  uuid = lookup_or "" "io.rancher.container.uuid" labels;
  name = lookup_or "" "io.rancher.container.name" labels;
  external_id = i.id;
}

unfoldable pub host_of_own : Client → Own → Result Error String
unfolding find_in_services
host_of_own c own =
    if own.uuid == "" && own.name == "" && own.external_id == ""
    then err no_identity
    else elim (c.services) [
      | none ↦ err services_failed
      | some services ↦ elim (find_in_services own services) [
        | none ↦ err container_not_found
        | some container ↦ ok container.host_uuid
      ]
    ]

unfoldable pub local_host_uuid_from_docker_labels : Client → Docker → Result Error String
unfolding current_container_id host_of_own lookup_or
local_host_uuid_from_docker_labels c d = current_container_id d >>= λ id. elim (d.inspect id) [
  | none ↦ err inspect_failed
  | some i ↦ elim (i.labels) [
    | none ↦ err no_config
    | some labels ↦ host_of_own c (own_of i labels)
  ]
]

unfoldable pub self_host_uuid : Client → Result Error String
self_host_uuid c = elim (c.self_host) [
  | none ↦ err self_host_failed
  | some host ↦ if host.uuid == "" then err empty_self_host else ok host.uuid
]

unfoldable pub local_host_uuid : Client → Docker → Result Error String
unfolding local_host_uuid_from_docker_labels self_host_uuid
local_host_uuid c d = elim (local_host_uuid_from_docker_labels c d) [
  | ok uuid ↦ if uuid == "" then self_host_uuid c else ok uuid
  | err e ↦ self_host_uuid c
]

unfoldable pub find_host : String → List Host → Option Host
find_host uuid [] = none
find_host uuid (h ∷ hs) = let rest = find_host uuid hs in if h.uuid == uuid then some h else rest

unfoldable pub self_host_if : Client → String → Result Error Host
self_host_if c uuid = elim (c.self_host) [
  | none ↦ err self_host_failed
  | some host ↦ if host.uuid == uuid then ok host else err host_not_found
]

unfoldable pub local_host : Client → Docker → Result Error Host
unfolding local_host_uuid find_host self_host_if
local_host c d = local_host_uuid c d >>= λ uuid. elim (c.hosts) [
  | none ↦ err hosts_failed
  | some hosts ↦ elim (find_host uuid hosts) [ some host ↦ ok host | none ↦ self_host_if c uuid ]
]
