-- ===== src/Tests.antt =====
-- Runs of the modelled code on small inputs, and the theorems at inputs that meet their hypotheses.
mod Firewall
mod HostLabel
mod HostPorts
mod Readiness
mod Rules
mod Watch
mod Keylock
mod Arpsync
mod Nft
mod HostRules
mod Binexec
mod HostNat
