-- ===== src/Effects/Triple.antt =====
-- Operations with what holds before them, behind them, and where they fail.
use network_plugin_manager.Prelude.{◌≡◌, refl, Bool, true, false, Result, ok, err, if◌then◌else◌}
use network_plugin_manager.Effects.{
  Action, Oracle, World, Io, resume, ◌>>=◌, pure, fail, lift, get, modify, perform, attempt, ignore,
  deferred,
}

module _ {S E : Type 0} where
  abbrev pub Ends : {A : Type 0} → (A → S → Type 0) → (S → Type 0) → S → Result E A → Type 0
  Ends good bad s (ok a) = good a s
  Ends good bad s (err e) = bad s

  -- From a state where `before` holds, the operation ends in one where `good` holds of its result, or
  -- fails in one where `bad` does.
  pub record Triple {A : Type 0} (before : S → Type 0) (step : Io S E A) (good : A → S → Type 0)
      (bad : S → Type 0) : Type 0 where
    pub ends : (w : World S) → before w.state → Ends good bad (step w).0.state (step w).1

  resumed :
      {A B : Type 0} (mid : A → S → Type 0) (good : B → S → Type 0) (bad : S → Type 0)
      (next : A → Io S E B)
      → ((a : A) → Triple (mid a) (next a) good bad)
      → (w : World S) (r : Result E A) → Ends mid bad w.state r
      → Ends good bad (resume next w r).0.state (resume next w r).1
  resumed mid good bad next n w (ok a) h = (n a).ends w h
  resumed mid good bad next n w (err e) h = h

  pub bind-Triple :
      {A B : Type 0} {before : S → Type 0} (mid : A → S → Type 0) {good : B → S → Type 0}
      {bad : S → Type 0} (first : Io S E A) (next : A → Io S E B)
      → Triple before first mid bad
      → ((a : A) → Triple (mid a) (next a) good bad)
      → Triple before (first >>= next) good bad
  bind-Triple mid {good} {bad} first next f n = record {
    ends = λ w h. resumed mid good bad next n (first w).0 (first w).1 (f.ends w h);
  }

  -- A command leaves the state as it is.
  pub perform-Triple :
      {before : S → Type 0} {bad : S → Type 0} (oracle : Oracle) (e : E) (a : Action)
      → ((s : S) → before s → bad s)
      → Triple before (perform oracle e a) (λ _. before) bad
  perform-Triple {before} {bad} oracle e a f = record {
    ends = λ w h. tested (oracle w.trace a) w.state h;
  }
    where
      tested :
          (b : Bool) (s : S)
          → before s
          → Ends (λ (_ : Unit {0}). before) bad s (if b then ok tt else err e)
      tested true s h = h
      tested false s h = f s h

  pub attempt-Triple :
      {before : S → Type 0} {bad : S → Type 0} (oracle : Oracle) (e : E) (a : Action)
      → Triple before (attempt (perform oracle e a)) (λ _. before) bad
  attempt-Triple oracle e a = record { ends = λ w h. h }

  pub ignore-Triple :
      {before : S → Type 0} {bad : S → Type 0} (oracle : Oracle) (e : E) (a : Action)
      → Triple before (ignore (perform oracle e a)) (λ _. before) bad
  ignore-Triple oracle e a = record { ends = λ w h. h }

  pub deferred-Triple :
      {before : S → Type 0} {good : Unit {0} → S → Type 0} {bad : S → Type 0}
      (step : Io S E (Unit {0})) (oracle : Oracle) (e : E) (a : Action)
      → Triple before step good bad
      → Triple before (deferred step (perform oracle e a)) good bad
  deferred-Triple step oracle e a t = record { ends = λ w h. t.ends w h }

  pub modify-Triple :
      {before : S → Type 0} {good : S → Type 0} {bad : S → Type 0} (change : S → S)
      → ((s : S) → before s → good (change s))
      → Triple before (modify change) (λ _. good) bad
  modify-Triple change h = record { ends = λ w b. h w.state b }

  pub pure-Triple :
      {A : Type 0} {before : S → Type 0} {good : A → S → Type 0} {bad : S → Type 0} (a : A)
      → ((s : S) → before s → good a s)
      → Triple before (pure a) good bad
  pure-Triple a h = record { ends = λ w b. h w.state b }

  pub fail-Triple :
      {A : Type 0} {before : S → Type 0} {good : A → S → Type 0} {bad : S → Type 0} (e : E)
      → ((s : S) → before s → bad s)
      → Triple before (fail e) good bad
  fail-Triple e h = record { ends = λ w b. h w.state b }

  pub get-Triple :
      {before : S → Type 0} {bad : S → Type 0}
      → Triple before (let g : Io S E S = get in g) (λ s t. (s ≡ t) × before t) bad
  get-Triple = record { ends = λ w b. (refl, b) }

  pub if-Triple :
      {A : Type 0} {before : S → Type 0} {good : A → S → Type 0} {bad : S → Type 0} (b : Bool)
      (s t : Io S E A)
      → (b ≡ true → Triple before s good bad)
      → (b ≡ false → Triple before t good bad)
      → Triple before (if b then s else t) good bad
  if-Triple true s t p q = p refl
  if-Triple false s t p q = q refl

  pub lift-Triple :
      {A : Type 0} {before : S → Type 0} {bad : S → Type 0} (r : Result E A)
      → ((s : S) → before s → bad s)
      → Triple before (lift r) (λ a s. (r ≡ ok a) × before s) bad
  lift-Triple (ok a) h = record { ends = λ w b. (refl, b) }
  lift-Triple (err e) h = record { ends = λ w b. h w.state b }

  -- What is weaker before and stronger behind
  pub weaken-Triple :
      {A : Type 0} {before before' : S → Type 0} {good good' : A → S → Type 0}
      {bad bad' : S → Type 0} {step : Io S E A}
      → ((s : S) → before' s → before s)
      → ((a : A) (s : S) → good a s → good' a s)
      → ((s : S) → bad s → bad' s)
      → Triple before step good bad
      → Triple before' step good' bad'
  weaken-Triple {A = A} {good = good} {good' = good'} {bad = bad} {bad' = bad'} {step = step} p q r
        t =
      record { ends = λ w b. weaker (step w).0.state (step w).1 (t.ends w (p w.state b)) }
    where
      weaker : (s : S) (v : Result E A) → Ends good bad s v → Ends good' bad' s v
      weaker s (ok a) h = q a s h
      weaker s (err e) h = r s h

  -- A fact about the values at hand may be used for the whole operation.
  pub fact-Triple :
      {A : Type 0} {X : Type 0} {before : S → Type 0} {good : A → S → Type 0} {bad : S → Type 0}
      {step : Io S E A}
      → (X → Triple before step good bad)
      → Triple (λ s. before s × X) step good bad
  fact-Triple t = record { ends = λ w h. (t h.1).ends w h.0 }
