-- ===== src/Binexec/Preference.antt =====
-- Of two providers of one binary, the same is chosen whichever of them is met first.
use network_plugin_manager.Prelude.{
  ℕ, ◌≡◌, ◌≢◌, refl, inl, inr, String, not, List, [], ◌∷◌, arith, Option-cases,
}
use network_plugin_manager.Go.Sort.{str_leb_total, str_leb_antisymm}
use network_plugin_manager.Binexec.{
  numeric_version_parts, Comparison, less, same, greater, compare_number, or_else, compare_parts,
  compare_numeric_versions, prefer_undecided, prefer_provider,
}

abbrev opposite : Comparison → Comparison
opposite less = greater
opposite same = same
opposite greater = less

compare_number-opposite : (l r : ℕ) → compare_number l r ≡ opposite (compare_number r l)
unfolding compare_number
compare_number-opposite l r = ground arith

or_else-opposite : (a b : Comparison) → or_else (opposite a) (opposite b) ≡ opposite (or_else a b)
or_else-opposite less b = refl
or_else-opposite same b = refl
or_else-opposite greater b = refl

compare_parts-opposite : (ls rs : List ℕ) → compare_parts ls rs ≡ opposite (compare_parts rs ls)
unfolding compare_parts
compare_parts-opposite [] [] = refl
compare_parts-opposite (l ∷ ls) [] =
    rw (compare_number-opposite l 0, compare_parts-opposite ls [])
      (or_else-opposite (compare_number 0 l) (compare_parts [] ls))
compare_parts-opposite [] (r ∷ rs) =
    rw (compare_number-opposite 0 r, compare_parts-opposite [] rs)
      (or_else-opposite (compare_number r 0) (compare_parts rs []))
compare_parts-opposite (l ∷ ls) (r ∷ rs) =
    rw (compare_number-opposite l r, compare_parts-opposite ls rs)
      (or_else-opposite (compare_number r l) (compare_parts rs ls))

prefer_undecided-one :
    (a v b w : String) → a ≢ b → prefer_undecided a v b w ≡ not (prefer_undecided b w a v)
unfolding prefer_undecided
prefer_undecided-one a v b w n =
    ground (arith, str_leb_total a b, str_leb_total b a, str_leb_antisymm a b)

-- Of two providers of different names, exactly one is preferred to the other, whatever their versions:
-- the choice between them does not depend on which one is met first.
pub prefer_provider-one :
    (a v b w : String) → a ≢ b → prefer_provider a v b w ≡ not (prefer_provider b w a v)
unfolding prefer_provider compare_numeric_versions
prefer_provider-one a v b w n = elim (Option-cases (numeric_version_parts v)) [
  | inl e ↦ ground (arith, e, prefer_undecided-one a v b w n)
  | inr (ls, e) ↦ elim (Option-cases (numeric_version_parts w)) [
    | inl f ↦ ground (arith, e, f, prefer_undecided-one a v b w n)
    | inr (rs, f) ↦
        ground (arith, e, f, compare_parts-opposite ls rs, prefer_undecided-one a v b w n)
  ]
]
