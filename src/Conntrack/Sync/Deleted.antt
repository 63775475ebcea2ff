-- ===== src/Conntrack/Sync/Deleted.antt =====
-- Which entries a sync deletes: those of a port that a container of this host publishes, where the
-- connection leads to another address than the container's.
use network_plugin_manager.Prelude.{
  ◌≡◌, ◌≢◌, refl, subst, inl, inr, ◌⊎◌, String, Bool, true, Option, none, some, List, [], ◌∷◌, ◌++◌,
  ◌==◌, keep, ok, All, Any, arith, eq_iff, Bool-cases, Option-cases,
}
use network_plugin_manager.Go.Text.{split}
use network_plugin_manager.Go.Map.{Map, lookup, put}
use network_plugin_manager.Go.Text.Lines.{append-All}
use network_plugin_manager.Go.Map.Values.{put-All, lookup-All}
use network_plugin_manager.Metadata.{Host, Container, Client}
use network_plugin_manager.Identity.{Docker, local_host}
use network_plugin_manager.Conntrack.{CtEntry}
use network_plugin_manager.Conntrack.Sync.{
  port_key, key_of_parts, add_ports, add_containers, build_containers_maps, container_at,
  is_elsewhere, is_stale_dnat, is_stale_snat, do_sync,
}

-- One of these port definitions is of this key.
abbrev pub Defines : List String → String → Type 0
Defines ps key = Any (λ p. key_of_parts (split b':' p) ≡ some key) ps

abbrev pub Listed : List Container → Container → Type 0
Listed cs c = Any (λ k. k ≡ c) cs

-- An entry of the map of published ports: a container of the metadata, on this host, with such a port
record IsPublished (host : Host) (all_containers : List Container) (z : String × Container)
    : Type 0 where
  listed : Listed all_containers z.1
  here : z.1.host_uuid ≡ host.uuid
  port : Defines z.1.ports z.0

add_ports-IsPublished :
    (host : Host) (cs : List Container) (c : Container) (ps : List String) (m : Map Container)
    → Listed cs c
    → c.host_uuid ≡ host.uuid
    → ((key : String) → Defines ps key → Defines c.ports key)
    → All (IsPublished host cs) m
    → All (IsPublished host cs) (add_ports c ps m)
unfolding add_ports
add_ports-IsPublished host cs c [] m l h f a = a
add_ports-IsPublished host cs c (p ∷ ps) m l h f a =
    elim (Option-cases (key_of_parts (split b':' p))) [
      | inl e ↦ rw (e) (add_ports-IsPublished host cs c ps m l h (λ k d. f k (inr d)) a)
      | inr (key, e) ↦
          let entry : IsPublished host cs (key, c) = record {
            listed = l;
            here = h;
            port = f key (inl e);
          } in
          rw (e) (
            add_ports-IsPublished host cs c ps (put key c m) l h (λ k d. f k (inr d))
              (put-All (IsPublished host cs) key c m entry a))
    ]

add_containers-IsPublished :
    (host : Host) (all_containers cs : List Container) (m : Map Container)
    → ((c : Container) → Listed cs c → Listed all_containers c)
    → All (IsPublished host all_containers) m
    → All (IsPublished host all_containers) (add_containers host cs m)
unfolding add_containers
add_containers-IsPublished host every [] m f a = a
add_containers-IsPublished host every (c ∷ cs) m f a =
    elim (Bool-cases (c.host_uuid == host.uuid)) [
      | inr e ↦ rw (e) (add_containers-IsPublished host every cs m (λ k l. f k (inr l)) a)
      | inl e ↦ rw (e) (
          add_containers-IsPublished host every cs (add_ports c c.ports m) (λ k l. f k (inr l))
            (add_ports-IsPublished host every c c.ports m (f c (inl refl))
              (ground (arith, eq_iff c.host_uuid host.uuid)) (λ k d. d) a))
    ]

-- A container of this host publishes the port, at the address or at all of the host's, has an address,
-- and the connection leads to another one.
pub record IsMoved (host : Host) (cs : List Container) (ip port protocol target : String)
    : Type 0 where
  pub container : Container
  pub listed : Listed cs container
  pub here : container.host_uuid ≡ host.uuid
  pub publishes :
      Defines container.ports (port_key ip port protocol)
      ⊎ Defines container.ports (port_key "0.0.0.0" port protocol)
  pub has_address : container.primary_ip ≢ ""
  pub moved : target ≢ container.primary_ip

elsewhere-IsMoved :
    (host : Host) (cs : List Container) (c : Container) (key ip port protocol target : String)
    → IsPublished host cs (key, c)
    → ((key ≡ port_key ip port protocol) ⊎ (key ≡ port_key "0.0.0.0" port protocol))
    → is_elsewhere (some c) target ≡ true
    → IsMoved host cs ip port protocol target
elsewhere-IsMoved host cs c key ip port protocol target p which e = record {
  container = c;
  listed = p.listed;
  here = p.here;
  publishes = elim which [
    | inl q ↦ inl (subst (Defines c.ports) q p.port)
    | inr q ↦ inr (subst (Defines c.ports) q p.port)
  ];
  has_address = λ q. ground (arith, eq_iff c.primary_ip "");
  moved = λ q. ground (arith, eq_iff target c.primary_ip);
}

container_at-IsMoved :
    (host : Host) (cs : List Container) (m : Map Container) (ip port protocol target : String)
    → All (IsPublished host cs) m
    → is_elsewhere (container_at m ip port protocol) target ≡ true
    → IsMoved host cs ip port protocol target
unfolding container_at
container_at-IsMoved host cs m ip port protocol target a h =
    elim (Option-cases (lookup (port_key ip port protocol) m)) [
      | inr (c, e) ↦
          elsewhere-IsMoved host cs c (port_key ip port protocol) ip port protocol target
            (lookup-All (IsPublished host cs) m (port_key ip port protocol) a e) (inl refl)
            (ground (arith, e))
      | inl e ↦ elim (Option-cases (lookup (port_key "0.0.0.0" port protocol) m)) [
        | inr (c, z) ↦
            elsewhere-IsMoved host cs c (port_key "0.0.0.0" port protocol) ip port protocol target
              (lookup-All (IsPublished host cs) m (port_key "0.0.0.0" port protocol) a z) (inr refl)
              (ground (arith, e, z))
        | inl z ↦ absurd (ground (arith, e, z))
      ]
    ]

-- Why an entry is deleted: what was sent to it comes back from another address than the container's,
-- or what the container's port sent out came from another one.
pub data IsJustified (host : Host) (cs : List Container) (e : CtEntry) : Type 0 where
  dnat :
      IsMoved host cs e.original_destination_ip e.original_destination_port e.protocol
        e.reply_source_ip
      → IsJustified host cs e
  snat :
      IsMoved host cs e.reply_destination_ip e.reply_destination_port e.protocol
        e.original_source_ip
      → IsJustified host cs e

keep-All :
    {A : Type 0} (P : A → Type 0) (test : A → Bool) (xs : List A)
    → ((x : A) → test x ≡ true → P x)
    → All P (keep test xs)
keep-All P test [] f = tt
keep-All P test (x ∷ xs) f = elim (Bool-cases (test x)) [
  | inl t ↦ rw (t) (f x t, keep-All P test xs f)
  | inr t ↦ rw (t) (keep-All P test xs f)
]

-- The listings may fail on the way.
deleted-IsJustified :
    (host : Host) (cs : List Container) (m : Map Container) (xs ys : List CtEntry)
    → All (IsPublished host cs) m
    → All (IsJustified host cs) (keep (is_stale_dnat m) xs)
      × All (IsJustified host cs) (keep (is_stale_snat m) ys)
unfolding is_stale_dnat is_stale_snat
deleted-IsJustified host cs m xs ys a = (
  keep-All (IsJustified host cs) (is_stale_dnat m) xs λ e t. dnat (
      container_at-IsMoved host cs m e.original_destination_ip e.original_destination_port
        e.protocol e.reply_source_ip a t),
  keep-All (IsJustified host cs) (is_stale_snat m) ys λ e t. snat (
      container_at-IsMoved host cs m e.reply_destination_ip e.reply_destination_port e.protocol
        e.original_source_ip a t),
)

map_known :
    (c : Client) (d : Docker) (host : Host) (cs : List Container)
    → local_host c d ≡ ok host
    → c.containers ≡ some cs
    → build_containers_maps c d ≡ ok (add_containers host cs [])
unfolding build_containers_maps
map_known c d host cs h k = ground (arith, h, k)

-- What is deleted from a known map
deleted_from : Map Container → Option (List CtEntry) → Option (List CtEntry) → List CtEntry
deleted_from m none ss = []
deleted_from m (some ds) none = keep (is_stale_dnat m) ds
deleted_from m (some ds) (some ss) = keep (is_stale_dnat m) ds ++ keep (is_stale_snat m) ss

do_sync_deletes :
    (c : Client) (d : Docker) (ds ss : Option (List CtEntry)) (m : Map Container)
    → build_containers_maps c d ≡ ok m
    → deleted_from m ds ss ≡ (do_sync c d ds ss).0
unfolding do_sync deleted_from
do_sync_deletes c d none ss m h = ground (arith, h)
do_sync_deletes c d (some ds) none m h = ground (arith, h)
do_sync_deletes c d (some ds) (some ss) m h = ground (arith, h)

deleted_from-IsJustified :
    (host : Host) (cs : List Container) (m : Map Container) (ds ss : Option (List CtEntry))
    → All (IsPublished host cs) m
    → All (IsJustified host cs) (deleted_from m ds ss)
unfolding deleted_from
deleted_from-IsJustified host cs m none ss a = tt
deleted_from-IsJustified host cs m (some ds) none a = (deleted-IsJustified host cs m ds [] a).0
deleted_from-IsJustified host cs m (some ds) (some ss) a =
    let both = deleted-IsJustified host cs m ds ss a in
    append-All (IsJustified host cs) _ _ both.0 both.1

-- Where the local host and the containers are known, each entry that a sync deletes, also one that
-- fails half-way, is of a port that a container of this host publishes, and leads to or comes from
-- another address than that container's, which is not empty.
pub do_sync-IsJustified :
    (c : Client) (d : Docker) (ds ss : Option (List CtEntry)) (host : Host) (cs : List Container)
    → local_host c d ≡ ok host
    → c.containers ≡ some cs
    → All (IsJustified host cs) (do_sync c d ds ss).0
do_sync-IsJustified c d ds ss host cs h k =
    let m = add_containers host cs [] in
    subst (All (IsJustified host cs)) (do_sync_deletes c d ds ss m (map_known c d host cs h k)) (
      deleted_from-IsJustified host cs m ds ss
        (add_containers-IsPublished host cs cs [] (λ z l. l) tt))
