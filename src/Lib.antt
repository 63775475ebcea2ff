-- ===== src/Lib.antt =====
-- The network plugin manager runs on each host of a cluster and keeps the host's side of the
-- containers' networks: it picks the firewall backend, publishes host ports, translates addresses,
-- and repairs what drifts. A watcher per concern reads the metadata service and rewrites its part of
-- the host's state.
--
-- Files and the code they are about:
--   Firewall          internal/firewall/backend.go. Firewall.antt has the types and the four probes of
--                     the host that the source's functions take (lookup, version, inspect, readFile);
--                     Rules the tests on listings (hasDockerNATChain, hasForwardDropPolicy, hasTable,
--                     nftBackendUnavailable); Hooks the search of platformHook; Frontend
--                     DetectDockerXTFrontend, SelectDockerXTMode and the two functions that find a
--                     command to inspect with; Resolve Detect, Resolve, CheckNativeMigration and
--                     CheckDockerBridgeMark.
--   HostLabel         internal/hostlabel/resolve.go: IsReference, Resolve, PeerSubnets.
--   Metadata          internal/metadata/types.go, the fields that the modelled code reads, and JSON.
--   HostPorts         hostports/watcher.go. Parse has parsePortRule and the validation of a rule; Bridge
--                     bridgeConfigForNetwork; Rules validateRuleSet and the sorted lists of networks
--                     and peers; Nft the batch of hostports/nft.go and its check of the kernel's
--                     table; Build the rules that onChangeLocked makes of the metadata; Address
--                     selectContainerIPv4; Restore the text for iptables-restore; Localnet
--                     hostports/route_localnet.go, with the settings and the file that it changes; Apply
--                     apply, applyNFT and insertBaseRules; Watch onChangeLocked, repairOnce and Watch,
--                     with sequences of them in Watch/History.
--   Binexec           binexec/watcher.go: preferProvider with the versions' comparison, validBinaryName and
--                     shellQuote; Quoting has a reader of POSIX shell words to hold it against.
--   HostNat           hostnat/watcher.go. Build has the rules that onChange makes from the metadata, Validate
--                     validateNATRules, Script the texts for nft and iptables-restore, Check checkNativeState,
--                     Apply the apply* functions and reconcileNativeState, Stale the sweep of IKE connections,
--                     Change the rest of onChange and its retries; History sequences of events.
--   Identity          identity/identity.go: LocalHost, LocalHostUUID and what they call.
--   Conntrack         conntracksync: Parse has the reader of the listings of conntrack/conntrack.go, Sync the
--                     choice of watcher.go which connections to delete.
--   Effects           the form of operations that run commands: a state, and the record of what was run.
--                     Guard is about the check of a script before its load, Quiet which operations load none,
--                     Triple what holds before an operation, behind it and where it fails. The record of a run has the
--                     outcome of each command.
--   Keylock           internal/keylock/keylock.go, and workers that take its locks in any order of steps:
--                     Counts, Sections and Runs are about the counts of an entry's users, Exclusion
--                     about what the workers have of the locks.
--   Arpsync           arpsync/watcher.go: the changes that a pass of syncArpTable asks for; Sound what it may
--                     ask for.
--   Readiness         internal/readiness/readiness.go: Readiness.antt has New and Report, on a disk of the
--                     marker and its temporary file; History sequences of reports; Marker the laws.
--   Go                the parts of Go's standard library that this code calls: strings, strconv.Atoi,
--                     net and net/netip for IPv4, maps as association lists, sort.Strings.
--   Prelude           names of the libraries passed on, Boolean tests, lists, results.
--   Tests             witnesses and runs at concrete inputs.
--
-- How they interact: Detect calls dockerFirewallDriver, then for an iptables driver
-- DetectDockerXTFrontend and SelectDockerXTMode, then Resolve, then for native nftables
-- CheckNativeMigration and CheckDockerBridgeMark. CheckNativeMigration and DetectDockerXTFrontend
-- call platformHook on listings. PeerSubnets calls Resolve of the same file on each active peer.
-- bridgeConfigForNetwork calls IsReference. onChange of hostnat calls Resolve and PeerSubnets on the host
-- that LocalHost returns, and conntracksync asks LocalHost whose ports count. Rounds of hostports hold one
-- lock, so a history is a sequence of whole rounds; a repair checks or inserts, reports, and applies the
-- rules again if that failed. What a host's firewall does is kept as the bridges that the guard in force
-- protects and those that the raw chain of iptables names.
--
-- Conventions. A function that fails in Go returns a result here, and each place that returns an error
-- has a name in place of its message. Go's maps are association lists in the order in which Go yields
-- them, which a theorem may permute. Whether a command succeeds is said by an oracle that sees all the
-- commands before, so a theorem over oracles is about any outcome of each command. Each attempt reads the
-- time once, and the answers of the metadata service and of Docker are the same during one. A probe
-- answers alike each time that one run asks it the same.
--
-- Fuel. The loop over the queue of platformHook takes one unit for each round; six more than there are
-- jumps is given, since each jump is queued at most once besides the five built-in chains.
--
-- Not modelled: starting processes and netlink; the texts of errors and logs; the metadata client, the
-- CNI glue and the main program, which are I/O; of hostports the reading of a container's network
-- namespace, and a process that is killed in the middle of a round; of arpsync the walk over networks and
-- namespaces; of binexec the watcher, which builds wrappers from metadata; and the other packages (reaper,
-- routesync, macsync, cniconf, network, events, trylock, logsafe). Of texts Go's byte strings and these
-- code points differ only outside ASCII, where the modelled tests refuse or ignore such a text alike.
pub mod Prelude
pub mod Go
pub mod Effects
pub mod Firewall
pub mod Metadata
pub mod HostLabel
pub mod HostPorts
pub mod Conntrack
pub mod Identity
pub mod Keylock
pub mod Arpsync
pub mod HostNat
pub mod Readiness
pub mod Binexec
mod Tests
