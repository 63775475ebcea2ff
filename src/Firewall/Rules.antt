-- ===== src/Firewall/Rules.antt =====
-- The tests on listings of internal/firewall/backend.go.
use network_plugin_manager.Prelude.{
  String, Bool, false, ◌&&◌, ◌||◌, List, [], ◌∷◌, ◌==◌, leb, any, length,
}
use network_plugin_manager.Go.Text.{split, fields, trim_space, contains, to_lower}

abbrev lines : String → List String
lines = split b'\n'

jumps_to_docker : List String → Bool
jumps_to_docker (f ∷ (t ∷ rest)) = (f == "-j" && t == "DOCKER") || jumps_to_docker (t ∷ rest)
jumps_to_docker _ = false

declares_docker : List String → Bool
declares_docker (verb ∷ (chain ∷ [])) = verb == "-N" && chain == "DOCKER"
declares_docker _ = false

hooks_docker : List String → Bool
unfolding jumps_to_docker
hooks_docker (verb ∷ (chain ∷ rest)) =
    leb 2 (length rest)
    && verb == "-A"
    && (chain == "PREROUTING" || chain == "OUTPUT")
    && jumps_to_docker rest
hooks_docker _ = false

unfoldable pub has_docker_nat_chain : String → Bool
unfolding declares_docker hooks_docker split fields
has_docker_nat_chain rules =
    any (λ line. declares_docker (fields line)) (lines rules)
    && any (λ line. hooks_docker (fields line)) (lines rules)

drops_forward : List String → Bool
drops_forward (a ∷ (b ∷ (c ∷ []))) = a == "-P" && b == "FORWARD" && c == "DROP"
drops_forward _ = false

unfoldable pub has_forward_drop_policy : String → Bool
unfolding drops_forward split fields
has_forward_drop_policy rules = any (λ line. drops_forward (fields line)) (lines rules)

unfoldable pub has_table : String → String → Bool
unfolding split trim_space
has_table tables name = any (λ line. trim_space line == name) (lines tables)

unfoldable pub nft_backend_unavailable : String → Bool
unfolding contains to_lower
nft_backend_unavailable output =
    contains (to_lower output) "protocol not supported"
    || contains (to_lower output) "operation not supported"
    || contains (to_lower output) "address family not supported"
    || contains (to_lower output) "could not fetch rule set generation id: invalid argument"
