-- ===== src/HostNat/Script/Lines.antt =====
-- The scripts of validated rules have the lines that were written, and as many rules as are looked for.
use mathlib.Core.List.{Permᴰ}
use network_plugin_manager.Prelude.{
  ◌+◌, ◌*◌, ◌≡◌, refl, String, List, [], ◌∷◌, ◌++◌, map, ◌==◌, ok, >>=-eq-ok, inl, inr, Bool-cases,
  All, length, length-append, arith,
}
use network_plugin_manager.Go.Text.{any_char, split}
use network_plugin_manager.Go.Text.Lines.{
  concat_map, IsClean, IsPlain, glue-IsClean, append-All, concat_map-All, map-All,
  length-concat_map, length-map, symm-perm,
}
use network_plugin_manager.Go.Text.Laws.{split-unlines}
use network_plugin_manager.Go.Map.{Distinct}
use network_plugin_manager.Go.Map.Values.{
  values, total, total-perm, All-perm, sorted_values-perm, length-values,
}
use network_plugin_manager.HostNat.{MasqRule, IkePortSnatRule, RuleSet, no_masq, no_ike}
use network_plugin_manager.HostNat.Validate.{each, validate_masq, validate_ike, validate_nat_rules}
use network_plugin_manager.HostNat.Check.{want_rules}
use network_plugin_manager.HostNat.Script.{
  concat_map, ike_rules, masq_rules, nft_nat_table, nft_header, add_rule, nft_ike, nft_masq,
  nft_peer, nft_peer_words, nft_leaving_words, nft_local_words, nft_ike_words, nft_exception,
  nft_rule_lines, nft_nat_script_for_table, nft_nat_script,
}
use network_plugin_manager.HostNat.Script.Clean.{
  IsMasqMade, IsIkeMade, IsMasqClean, IsIkeClean, masq_clean, ike_clean, validate_masq-IsMasqMade,
  validate_ike-IsIkeMade, each-All,
}

-- Every map of a rule set has each key once, as Go's maps do.
pub record IsGoMaps (rules : RuleSet) : Type 0 where
  pub masq : Distinct rules.masq
  pub ike : Distinct rules.ike

-- All texts of the rules that are written are such texts.
pub record AreMade (Q : String → Type 0) (rules : RuleSet) : Type 0 where
  pub masq : All (IsMasqMade Q) (masq_rules rules)
  pub ike : All (IsIkeMade Q) (ike_rules rules)

abbrev pub AreClean : RuleSet → Type 0
AreClean = AreMade IsClean

masq_rules-perm : (rules : RuleSet) → IsGoMaps rules → Permᴰ (masq_rules rules) (values rules.masq)
unfolding masq_rules
masq_rules-perm rules g = sorted_values-perm no_masq rules.masq g.masq

ike_rules-perm : (rules : RuleSet) → IsGoMaps rules → Permᴰ (ike_rules rules) (values rules.ike)
unfolding ike_rules
ike_rules-perm rules g = sorted_values-perm no_ike rules.ike g.ike

pub validate-ArePlain :
    (rules : RuleSet) → IsGoMaps rules → validate_nat_rules rules ≡ ok tt → AreMade IsPlain rules
unfolding validate_nat_rules
validate-ArePlain rules g h =
    let (u, m, i) = >>=-eq-ok (each validate_masq rules.masq) _ h in
    record {
      masq = All-perm (IsMasqMade IsPlain) (symm-perm (masq_rules-perm rules g)) (
          map-All (λ e. validate_masq e ≡ ok tt) (IsMasqMade IsPlain) (λ e. e.1) rules.masq
            validate_masq-IsMasqMade (each-All validate_masq rules.masq m));
      ike = All-perm (IsIkeMade IsPlain) (symm-perm (ike_rules-perm rules g)) (
          map-All (λ e. validate_ike e ≡ ok tt) (IsIkeMade IsPlain) (λ e. e.1) rules.ike
            validate_ike-IsIkeMade (each-All validate_ike rules.ike i));
    }

pub validate-AreClean :
    (rules : RuleSet) → IsGoMaps rules → validate_nat_rules rules ≡ ok tt → AreClean rules
validate-AreClean rules g h =
    let p = validate-ArePlain rules g h in
    record { masq = all_masq (masq_rules rules) p.masq; ike = all_ike (ike_rules rules) p.ike }
  where
    all_masq : (rs : List MasqRule) → All (IsMasqMade IsPlain) rs → All IsMasqClean rs
    all_masq [] a = tt
    all_masq (r ∷ rs) a = (masq_clean r a.0, all_masq rs a.1)

    all_ike : (rs : List IkePortSnatRule) → All (IsIkeMade IsPlain) rs → All IsIkeClean rs
    all_ike [] a = tt
    all_ike (r ∷ rs) a = (ike_clean r a.0, all_ike rs a.1)

add_rule-IsClean : (ws : List String) → All IsClean ws → IsClean (add_rule nft_nat_table ws)
unfolding any_char
add_rule-IsClean ws a =
    glue-IsClean ("add rule ip " ∷ nft_nat_table ∷ " postrouting " ∷ ws) (refl, (refl, (refl, a)))

leaving-IsClean :
    (r : MasqRule) (rest : String)
    → IsMasqClean r
    → IsClean rest
    → IsClean (add_rule nft_nat_table (nft_leaving_words r rest))
unfolding any_char
leaving-IsClean r rest c k =
    add_rule-IsClean (nft_leaving_words r rest)
      (refl, (c.subnet, (refl, (c.subnet, (refl, (c.bridge, (refl, (k, tt))))))))

peer-IsClean :
    (r : MasqRule) → IsMasqClean r → (p : String) → IsClean p → IsClean (nft_peer nft_nat_table r p)
unfolding any_char
peer-IsClean r c p k =
    add_rule-IsClean (nft_peer_words r p) (refl, (c.subnet, (refl, (k, (refl, tt)))))

nft_masq-IsClean : (r : MasqRule) → IsMasqClean r → All IsClean (nft_masq nft_nat_table r)
unfolding nft_masq any_char
nft_masq-IsClean r c =
    append-All IsClean (map (nft_peer nft_nat_table r) r.peers) _
      (map-All IsClean IsClean (nft_peer nft_nat_table r) r.peers (peer-IsClean r c) c.peers)
      (
        leaving-IsClean r " meta l4proto tcp masquerade to :1024-65535" c refl,
        (
          leaving-IsClean r " meta l4proto udp masquerade to :1024-65535" c refl,
          (
            leaving-IsClean r " masquerade" c refl,
            (add_rule-IsClean (nft_local_words r) (refl, (c.bridge, (refl, tt))), tt),
          ),
        ),
      )

exception-IsClean : (bridge : String) → IsClean bridge → IsClean (nft_exception bridge)
unfolding any_char
exception-IsClean bridge c = elim (Bool-cases (bridge == "")) [
  | inl e ↦ rw (e) refl
  | inr f ↦ rw (f) (glue-IsClean (" oifname != \"" ∷ bridge ∷ "\"" ∷ []) (refl, (c, (refl, tt))))
]

nft_ike-IsClean : (r : IkePortSnatRule) → IsIkeClean r → All IsClean (nft_ike nft_nat_table r)
unfolding nft_ike any_char
nft_ike-IsClean r c = (
  add_rule-IsClean (nft_ike_words r) (
    refl,
    (
      c.source,
      (
        refl,
        (c.port, (exception-IsClean r.bridge c.bridge, (refl, (c.host, (refl, (c.port, tt)))))),
      ),
    ),
  ),
  tt,
)

nft_rule_lines-IsClean :
    (rules : RuleSet) → AreClean rules → All IsClean (nft_rule_lines rules nft_nat_table)
unfolding nft_rule_lines
nft_rule_lines-IsClean rules c =
    append-All IsClean (concat_map (nft_ike nft_nat_table) (ike_rules rules)) _
      (concat_map-All IsIkeClean (nft_ike nft_nat_table) (ike_rules rules) nft_ike-IsClean c.ike)
      (concat_map-All IsMasqClean (nft_masq nft_nat_table) (masq_rules rules) nft_masq-IsClean
        c.masq)

nft_header-IsClean : All IsClean (nft_header nft_nat_table)
unfolding any_char
nft_header-IsClean = (refl, (refl, (refl, tt)))

length-nft_masq : (t : String) (r : MasqRule) → length (nft_masq t r) ≡ length r.peers + 4
unfolding nft_masq
length-nft_masq t r =
    omega (arith, length-append (map (nft_peer t r) r.peers) _, length-map (nft_peer t r) r.peers)

total-masq :
    (t : String) (rs : List MasqRule)
    → total (λ r. length (nft_masq t r)) rs ≡ 4 * length rs + total (λ r. length r.peers) rs
total-masq t [] = refl
total-masq t (r ∷ rs) = omega (arith, length-nft_masq t r, total-masq t rs)

total-ike :
    (t : String) (rs : List IkePortSnatRule) → total (λ r. length (nft_ike t r)) rs ≡ length rs
unfolding nft_ike
total-ike t [] = refl
total-ike t (r ∷ rs) = omega (arith, total-ike t rs)

pub nft_rule_lines-count :
    (rules : RuleSet)
    → IsGoMaps rules
    → length (nft_rule_lines rules nft_nat_table) ≡ want_rules rules
unfolding nft_rule_lines want_rules
nft_rule_lines-count rules g = omega (
  arith,
  length-append (concat_map (nft_ike nft_nat_table) (ike_rules rules))
      (concat_map (nft_masq nft_nat_table) (masq_rules rules)),
  length-concat_map (nft_ike nft_nat_table) (ike_rules rules),
  length-concat_map (nft_masq nft_nat_table) (masq_rules rules),
  total-perm (λ r. length (nft_ike nft_nat_table r)) (ike_rules-perm rules g),
  total-perm (λ r. length (nft_masq nft_nat_table r)) (masq_rules-perm rules g),
  total-ike nft_nat_table (values rules.ike),
  total-masq nft_nat_table (values rules.masq),
  length-values rules.ike,
  length-values rules.masq,
)

-- The script of validated rules has exactly the lines that were written, whatever texts the metadata
-- holds, and a rule among them for each that `checkNativeState` looks for afterwards; and every text that is put
-- into a line is made of letters, digits and the signs . _ - : / + alone, so it ends no quoted text and no
-- statement.
pub nft_nat_script-lines :
    (rules : RuleSet)
    → IsGoMaps rules
    → validate_nat_rules rules ≡ ok tt
    → (split b'\n' (nft_nat_script rules)
        ≡ (nft_header nft_nat_table ++ nft_rule_lines rules nft_nat_table) ++ "" ∷ [])
      × ((length (nft_rule_lines rules nft_nat_table) ≡ want_rules rules) × AreMade IsPlain rules)
unfolding nft_nat_script nft_nat_script_for_table
nft_nat_script-lines rules g h = (
  split-unlines (nft_header nft_nat_table ++ nft_rule_lines rules nft_nat_table) (
      append-All IsClean (nft_header nft_nat_table) (nft_rule_lines rules nft_nat_table)
        nft_header-IsClean (nft_rule_lines-IsClean rules (validate-AreClean rules g h))),
  (nft_rule_lines-count rules g, validate-ArePlain rules g h),
)
