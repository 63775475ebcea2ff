-- ===== src/Tests/Binexec.antt =====
-- binexec/watcher.go on two providers and on a name with a quotation mark.
use network_plugin_manager.Prelude.{
  ◌≡◌, ◌≢◌, refl, String, Bool, true, false, not, some, arith, eq_iff,
}
use network_plugin_manager.Go.Text.{split, trim_prefix, trim_space, strip_prefix}
use network_plugin_manager.Go.Number.{atoi, digits}
use network_plugin_manager.Binexec.{prefer_provider, shell_quote, numeric_version_parts}
use network_plugin_manager.Binexec.Preference.{prefer_provider-one}
use network_plugin_manager.Binexec.Quoting.{bare, read_word, read_word-shell_quote}

run_prefer : String → String → String → String → Bool
unfolding prefer_provider numeric_version_parts split trim_prefix trim_space strip_prefix atoi
    digits
run_prefer a v b w = prefer_provider a v b w

-- Numbers are compared, not texts, and a numeric version beats one that is none.
ten_over_nine : prefer_provider "old" "v1.9" "new" "v1.10.0" ≡ true
unfolding run_prefer
ten_over_nine = refl

numeric_over_dev : prefer_provider "old" "v1.9" "new" "dev" ≡ false
unfolding run_prefer
numeric_over_dev = refl

old_differs : ◌≢◌ {A = String} "old" "new"
old_differs = ground (arith, eq_iff "old" "new")

prefer_provider-one_example :
    prefer_provider "old" "v1.9" "new" "dev" ≡ not (prefer_provider "new" "dev" "old" "v1.9")
prefer_provider-one_example = prefer_provider-one "old" "v1.9" "new" "dev" old_differs

read_word-shell_quote_example : read_word bare (shell_quote "it's") ≡ some "it's"
read_word-shell_quote_example = read_word-shell_quote "it's"
