-- ===== src/Effects/Quiet.antt =====
-- Operations that run commands and leave the state as it is, and rules for operations in a row.
use network_plugin_manager.Prelude.{
  ◌≡◌, refl, sym, subst, ◌∙◌, inl, inr, String, Bool, true, false, List, Result, ok, err,
  Result-cases, if◌then◌else◌,
}
use network_plugin_manager.Effects.{
  run, report, Oracle, World, Io, resume, ◌>>=◌, pure, fail, lift, perform, attempt, ignore,
}
use network_plugin_manager.Effects.Guard.{OnlyRuns, nothing, ran, reported, OnlyRuns-trans}

module _ {S E : Type 0} where
  -- What holds behind two operations in a row: that of the second one, or of a failing first one.
  pub bind_elim :
      {A B : Type 0} (P : World S → Result E B → Type 0) (first : Io S E A) (next : A → Io S E B)
      (w : World S)
      → ((a : A) → (first w).1 ≡ ok a → P (next a (first w).0).0 (next a (first w).0).1)
      → ((e : E) → (first w).1 ≡ err e → P (first w).0 (err e))
      → P ((first >>= next) w).0 ((first >>= next) w).1
  bind_elim P first next w good bad = elim (Result-cases (first w).1) [
    | inl (a, h) ↦
        subst (λ r. P (resume next (first w).0 r).0 (resume next (first w).0 r).1) (sym h)
          (good a h)
    | inr (e, h) ↦
        subst (λ r. P (resume next (first w).0 r).0 (resume next (first w).0 r).1) (sym h) (bad e h)
  ]

  pub record IsQuiet {A : Type 0} (step : Io S E A) : Type 0 where
    pub same : (w : World S) → (step w).0.state ≡ w.state
    pub runs : (w : World S) → OnlyRuns w.trace (step w).0.trace

  pub pure-IsQuiet : {A : Type 0} (a : A) → IsQuiet (pure a)
  pure-IsQuiet a = record { same = λ w. refl; runs = λ w. nothing }

  pub fail-IsQuiet : {A : Type 0} (e : E) → IsQuiet (let f : Io S E A = fail e in f)
  fail-IsQuiet e = record { same = λ w. refl; runs = λ w. nothing }

  pub lift-IsQuiet : {A : Type 0} (r : Result E A) → IsQuiet (lift r)
  lift-IsQuiet r = record { same = λ w. refl; runs = λ w. nothing }

  pub run-IsQuiet :
      (oracle : Oracle) (e : E) (args : List String) → IsQuiet (perform oracle e (run args))
  run-IsQuiet oracle e args = record {
    same = λ w. refl;
    runs = λ w. ran args (oracle w.trace (run args)) nothing;
  }

  pub report-IsQuiet :
      (oracle : Oracle) (e : E) (well : Bool) → IsQuiet (perform oracle e (report well))
  report-IsQuiet oracle e well = record {
    same = λ w. refl;
    runs = λ w. reported well (oracle w.trace (report well)) nothing;
  }

  pub ignore-IsQuiet : (step : Io S E (Unit {0})) → IsQuiet step → IsQuiet (ignore step)
  ignore-IsQuiet step q = record { same = q.same; runs = q.runs }

  pub attempt-IsQuiet : (step : Io S E (Unit {0})) → IsQuiet step → IsQuiet (attempt step)
  attempt-IsQuiet step q = record { same = q.same; runs = q.runs }

  pub bind-IsQuiet :
      {A B : Type 0} (first : Io S E A) (next : A → Io S E B)
      → IsQuiet first
      → ((a : A) → IsQuiet (next a))
      → IsQuiet (first >>= next)
  bind-IsQuiet first next q r = record {
    same = λ w.
        bind_elim (λ v b. v.state ≡ w.state) first next w (λ a h. (r a).same (first w).0 ∙ q.same w)
          (λ e h. q.same w);
    runs = λ w.
        bind_elim (λ v b. OnlyRuns w.trace v.trace) first next w
          (λ a h. OnlyRuns-trans (q.runs w) ((r a).runs (first w).0)) (λ e h. q.runs w);
  }

  pub if-IsQuiet :
      {A : Type 0} (b : Bool) (s t : Io S E A)
      → IsQuiet s
      → IsQuiet t
      → IsQuiet (if b then s else t)
  if-IsQuiet true s t p q = p
  if-IsQuiet false s t p q = q
