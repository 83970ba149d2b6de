-- ===== src/Messaging/Reconciler/Cycle.antt =====
-- internal/messaging/reconciler.go: `NewReconciler`, `runOnce` and the loop of `Start`.
use central_config_stream.Prelude.{
  ℕ, zero, suc, ◌-◌, ◌*◌, ◌%◌, Bool, true, false, ◌&&◌, ◌||◌, Option, none, some, List, [], ◌∷◌,
  ◌==◌, if◌then◌else◌,
}
use central_config_stream.Prelude.Int.{ℤ, pos, is_positive}
use central_config_stream.Text.{Text}
use central_config_stream.Messaging.Publish.{PublishError}
use central_config_stream.Messaging.ConfigPublisher.{ConfigPublisher}
use central_config_stream.Messaging.Reconciler.{
  Float, Runtime, Source, cycle, full_sweep_every, reconcile_overlap, is_full, sweep_source,
  prune_max_fraction_from_env,
}

module _ (P : ConfigPublisher) (rt : Runtime P) (fl : Float) where
  -- `last_run` is `none` for the zero time, before the first clean cycle
  pub record Reconciler : Type 0 where
    pub interval : ℤ
    pub sources : List (Source P)
    pub fraction : fl.F
    pub runs : ℕ
    pub last_run : Option ℕ

-- five minutes in nanoseconds
abbrev pub default_interval : ℤ
default_interval = pos (5 * 60 * 1000000000)

module _ (P : ConfigPublisher) (rt : Runtime P) (fl : Float) where
  -- `env` is the value of RECONCILE_PRUNE_MAX_FRACTION
  unfoldable pub new_reconciler : ℤ → Option Text → List (Source P) → Reconciler P rt fl
  new_reconciler interval env sources = record {
    interval = if is_positive interval then interval else default_interval;
    sources = sources;
    fraction = prune_max_fraction_from_env fl env;
    runs = 0;
    last_run = none;
  }

  -- the start of the incremental window, or `none` for a full sweep
  abbrev pub window : ℕ → Option ℕ → Option ℕ
  window runs none = none
  window runs (some t) = if runs % full_sweep_every == 0 then none else some (t - reconcile_overlap)

  unfoldable pub sweep_since : Reconciler P rt fl → Option ℕ
  sweep_since r = window r.runs r.last_run

  -- the loop over the sources; `none` when the context was cancelled on the way
  unfoldable pub sweep_sources :
      fl.F → Option ℕ → List (Source P) → Bool → P.State → Option Bool × P.State
  sweep_sources fraction since [] failed w = (some failed, w)
  sweep_sources fraction since (s ∷ ss) failed w =
      let (outcome, w') = sweep_source P rt fl fraction s since w in
      let rest = λ (b : Bool). sweep_sources fraction since ss b w' in
      elim outcome [ none ↦ (none, w') | some f ↦ rest (failed || f) ]

  -- `started` is the time at which the cycle began
  abbrev pub finish :
      Reconciler P rt fl → ℕ → Bool → Option Bool × P.State → Reconciler P rt fl × P.State
  finish r started full (none, w) = (r, w)
  finish r started full (some failed, w) = (
    record r { runs = suc r.runs; last_run = if failed then r.last_run else some started },
    rt.emit (cycle full failed) w,
  )

  abbrev pub is_error : Option PublishError → Bool
  is_error none = false
  is_error (some e) = true

  unfoldable pub run_once : Reconciler P rt fl → P.State → Reconciler P rt fl × P.State
  unfolding sweep_since
  run_once r w =
      let started = rt.now w in
      let since = sweep_since r in
      let (e, w1) = P.ensure_buckets w in
      let swept =
        finish r started (is_full since) (sweep_sources r.fraction since r.sources false w1) in
      if is_error e && rt.cancelled w1 then (r, w1) else swept

  -- the startup sweep and the sweeps of the first ticks, `n` in all
  unfoldable pub run_cycles : ℕ → Reconciler P rt fl → P.State → Reconciler P rt fl × P.State
  unfolding run_once
  run_cycles zero r w = (r, w)
  run_cycles (suc n) r w = let (r', w') = run_once r w in run_cycles n r' (rt.wait w')
