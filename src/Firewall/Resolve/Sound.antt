-- ===== src/Firewall/Resolve/Sound.antt =====
-- What a resolved backend guarantees.
use network_plugin_manager.Prelude.{
  ◌≡◌, ◌⊎◌, inl, inr, ap, subst, sym, String, true, some, ok, arith, Option-cases, Result-cases,
  >>=-eq-ok, eq_iff,
}
use network_plugin_manager.Go.Text.{contains}
use network_plugin_manager.Firewall.{Mode, nftables, Backend, Probes}
use network_plugin_manager.Firewall.Frontend.{
  is_found, detect_docker_xt_frontend, select_docker_xt_mode,
}
use network_plugin_manager.Firewall.Resolve.{
  docker_firewall_driver, check_docker_bridge_mark, check_native_migration, Frontend, frontend_of,
  or_generic, check_binary, xt_backend, resolve_xt, resolve_native, resolve, DockerInfo, xt_mode,
  check_native, detect,
}

-- A binary that is there and whose version names the frontend.
pub record Serves (p : Probes) (marker binary : String) : Type 0 where
  pub there : is_found (p.lookup binary) ≡ true
  pub output : String
  pub printed_version : p.version binary ≡ some output
  pub marked : contains output marker ≡ true

check_binary-Serves :
    (p : Probes) (marker binary : String)
    → check_binary p marker binary ≡ ok tt
    → Serves p marker binary
unfolding check_binary
check_binary-Serves p marker binary h = elim (Option-cases (p.version binary)) [
  | inl gone ↦ absurd (ground arith)
  | inr (out, v) ↦ record {
    there = ground arith;
    output = out;
    printed_version = v;
    marked = ground arith;
  }
]

-- The backend of an iptables driver: of the mode asked for, with a command and a restore command of
-- that mode's frontend and of no other.
pub record IsXtBackend (p : Probes) (requested : Mode) (b : Backend) : Type 0 where
  pub frontend : Frontend
  pub known : frontend_of requested ≡ some frontend
  pub mode : b.mode ≡ requested
  pub command_serves : Serves p frontend.marker b.command
  pub restore_serves : Serves p frontend.marker b.restore

xt_backend-IsXtBackend :
    (p : Probes) (requested : Mode) (f : Frontend) (b : Backend)
    → frontend_of requested ≡ some f
    → xt_backend p requested f ≡ ok b
    → IsXtBackend p requested b
unfolding xt_backend
xt_backend-IsXtBackend p requested f b known h =
    let (u, c, h₁) = >>=-eq-ok (check_binary p f.marker (or_generic p f.command "iptables")) _ h in
    let (w, r, h₂) =
      >>=-eq-ok (check_binary p f.marker (or_generic p f.restore "iptables-restore")) _ h₁ in
    record {
      frontend = f;
      known = known;
      mode = ground arith;
      command_serves =
          subst (Serves p f.marker) (ground arith) (check_binary-Serves p f.marker _ c);
      restore_serves =
          subst (Serves p f.marker) (ground arith) (check_binary-Serves p f.marker _ r);
    }

resolve_xt-IsXtBackend :
    (p : Probes) (requested : Mode) (b : Backend)
    → resolve_xt p requested ≡ ok b
    → IsXtBackend p requested b
unfolding resolve_xt
resolve_xt-IsXtBackend p requested b h = elim (Option-cases (frontend_of requested)) [
  | inl unknown ↦ absurd (ground arith)
  | inr (f, known) ↦ xt_backend-IsXtBackend p requested f b known (ground arith)
]

-- A native backend uses nft alone, and only with Docker's nftables driver.
pub record IsNativeBackend (p : Probes) (driver : String) (b : Backend) : Type 0 where
  pub native_driver : driver ≡ "nftables"
  pub native : b ≡ record { mode = nftables; command = "nft"; restore = "" }
  pub nft_there : is_found (p.lookup "nft") ≡ true

resolve_native-IsNativeBackend :
    (p : Probes) (driver : String) (b : Backend)
    → resolve_native p driver ≡ ok b
    → IsNativeBackend p driver b
unfolding resolve_native
resolve_native-IsNativeBackend p driver b h = record {
  native_driver = (eq_iff driver "nftables").0 (ground arith);
  native = ground arith;
  nft_there = ground arith;
}

resolve_cases :
    (p : Probes) (requested : Mode) (driver : String) (b : Backend)
    → resolve p requested driver ≡ ok b
    → (resolve_native p driver ≡ ok b) ⊎ ((driver ≡ "iptables") × (resolve_xt p requested ≡ ok b))
unfolding resolve
resolve_cases p requested driver b h = ground (arith, eq_iff driver "iptables")

-- `Resolve` never downgrades: Docker's nftables driver gets nft itself, Docker's iptables driver the
-- requested xtables frontend with binaries that are checked to be that frontend, and no other
-- driver gets a backend.
pub resolve_sound :
    (p : Probes) (requested : Mode) (driver : String) (b : Backend)
    → resolve p requested driver ≡ ok b
    → IsNativeBackend p driver b ⊎ ((driver ≡ "iptables") × IsXtBackend p requested b)
resolve_sound p requested driver b h = elim (resolve_cases p requested driver b h) [
  | inl n ↦ inl (resolve_native-IsNativeBackend p driver b n)
  | inr (d, x) ↦ inr (d, resolve_xt-IsXtBackend p requested b x)
]

-- What `Detect` promises of a native backend: nothing of the earlier xtables rules is left, and Docker
-- accepts the platform's mark.
pub record NativeReady (p : Probes) (b : Backend) : Type 0 where
  pub native : b ≡ record { mode = nftables; command = "nft"; restore = "" }
  pub migrated : check_native_migration p ≡ ok tt
  pub mark : check_docker_bridge_mark p ≡ ok tt

-- And of an xtables backend: its frontend is the one in which Docker's NAT chain is live.
pub record XtReady (p : Probes) (b : Backend) : Type 0 where
  pub live : detect_docker_xt_frontend p ≡ ok b.mode
  pub backend : IsXtBackend p b.mode b

xt_mode-active :
    (p : Probes) (requested mode : Mode)
    → xt_mode p requested "iptables" ≡ ok mode
    → detect_docker_xt_frontend p ≡ ok mode
unfolding xt_mode select_docker_xt_mode
xt_mode-active p requested mode h = elim (Result-cases (detect_docker_xt_frontend p)) [
  | inl (active, d) ↦ ground (arith, d, eq_iff requested active)
  | inr (e, d) ↦ absurd (ground arith)
]

check_native-ready :
    (p : Probes) (b : Backend)
    → b.mode ≡ nftables
    → check_native p b ≡ ok tt
    → (check_native_migration p ≡ ok tt) × (check_docker_bridge_mark p ≡ ok tt)
unfolding check_native
check_native-ready p b m h = ground (arith, eq_iff b.mode nftables)

-- Whatever backend `Detect` returns, the host is ready for it: nft with its earlier xtables rules gone
-- and Docker's bridge rules accepting the platform's mark, or the one xtables frontend that Docker's
-- live NAT chain is in, with binaries checked to be of that frontend.
pub detect_ready :
    (p : Probes) (info : DockerInfo) (requested : Mode) (b : Backend)
    → detect p (some info) requested ≡ ok b
    → NativeReady p b ⊎ XtReady p b
unfolding detect
detect_ready p info requested b h =
    let (driver, d, h₁) = >>=-eq-ok (docker_firewall_driver info.driver info.server_version) _ h in
    let (mode, m, h₂) = >>=-eq-ok (xt_mode p requested driver) _ h₁ in
    let (backend, r, h₃) = >>=-eq-ok (resolve p mode driver) _ h₂ in
    let (u, c, h₄) = >>=-eq-ok (check_native p backend) _ h₃ in
    let same : backend ≡ b = ground arith in
    elim (resolve_sound p mode driver b (ground arith)) [
      | inl n ↦
          let ready = check_native-ready p b (ap Backend.mode n.native) (ground arith) in
          inl (record { native = n.native; migrated = ready.0; mark = ready.1 })
      | inr (i, x) ↦ inr (record {
        live =
            subst (λ k. detect_docker_xt_frontend p ≡ ok k) (sym x.mode)
              (xt_mode-active p requested mode (rw (← i) m));
        backend = subst (λ k. IsXtBackend p k b) (sym x.mode) x;
      })
    ]
