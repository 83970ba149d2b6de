-- ===== src/Messaging/Reconciler/Window.antt =====
-- The incremental window of the reconciler and the period of its full sweeps.
use central_config_stream.Prelude.{
  ℕ, zero, suc, ◌+◌, ◌-◌, ◌%◌, ◌<◌, ◌≡◌, refl, Bool, true, false, ◌&&◌, ◌||◌, Option, none, some,
  List, [], ◌∷◌, if◌then◌else◌, arith, ◌∙◌,
}
use central_config_stream.Prelude.Int.{ℤ}
use central_config_stream.Text.{Text}
use central_config_stream.Messaging.ConfigPublisher.{ConfigPublisher}
use central_config_stream.Messaging.Reconciler.{
  Float, Runtime, Source, full_sweep_every, reconcile_overlap, is_full, sweep_source,
}
use central_config_stream.Messaging.Reconciler.Cycle.{
  Reconciler, new_reconciler, window, sweep_since, sweep_sources, finish, is_error, run_once,
  run_cycles,
}

module _ (P : ConfigPublisher) (rt : Runtime P) (fl : Float) where
  -- Every source was read and published all of its rows, and the context was not cancelled.
  abbrev pub AllClean : fl.F → Option ℕ → List (Source P) → P.State → Type 0
  AllClean fraction since [] w = Unit
  AllClean fraction since (s ∷ ss) w =
      ((sweep_source P rt fl fraction s since w).0 ≡ some false)
      × AllClean fraction since ss (sweep_source P rt fl fraction s since w).1

  sweep_sources-AllClean :
      (fraction : fl.F) (since : Option ℕ) (ss : List (Source P)) (failed : Bool) (w : P.State)
      → (sweep_sources P rt fl fraction since ss failed w).0 ≡ some false
      → (failed ≡ false) × AllClean fraction since ss w
  unfolding sweep_sources
  sweep_sources-AllClean fraction since [] failed w h = (ground arith, tt)
  sweep_sources-AllClean fraction since (s ∷ ss) failed w h =
      go (sweep_source P rt fl fraction s since w) refl h
        (λ b x. sweep_sources-AllClean fraction since ss b x)
    where
      go :
          (r : Option Bool × P.State)
          → sweep_source P rt fl fraction s since w ≡ r
          → (elim r.0 as (λ _. Option Bool × P.State) [
            | none ↦ (none, r.1)
            | some f ↦ sweep_sources P rt fl fraction since ss (failed || f) r.1
          ]).0
            ≡ some false
          → ((b : Bool) (x : P.State)
              → (sweep_sources P rt fl fraction since ss b x).0 ≡ some false
              → (b ≡ false) × AllClean fraction since ss x)
          → (failed ≡ false) × AllClean fraction since (s ∷ ss) w
      go (none, w') e h rest = cc
      go (some f, w') e h rest =
          let later = rest (failed || f) w' h in rw e (ground arith, (ground arith, later.1))

  -- The last run of a reconciler after a cycle is what it was, or the start of the cycle if the cycle was clean.
  run_once-last_run :
      (r : Reconciler P rt fl) (w : P.State) (Q : Option ℕ → Type 0)
      → Q r.last_run
      → (AllClean r.fraction (sweep_since P rt fl r) r.sources (P.ensure_buckets w).1
          → Q (some (rt.now w)))
      → Q (run_once P rt fl r w).0.last_run
  unfolding run_once
  run_once-last_run r w Q h start =
      go (is_error P rt fl (P.ensure_buckets w).0 && rt.cancelled (P.ensure_buckets w).1)
        (sweep_sources P rt fl r.fraction (sweep_since P rt fl r) r.sources false
          (P.ensure_buckets w).1)
        (λ e.
          (sweep_sources-AllClean r.fraction (sweep_since P rt fl r) r.sources false
            (P.ensure_buckets w).1 e).1)
    where
      go :
          (b : Bool) (x : Option Bool × P.State)
          → (x.0 ≡ some false
              → AllClean r.fraction (sweep_since P rt fl r) r.sources (P.ensure_buckets w).1)
          → Q
              (if◌then◌else◌ {A = Reconciler P rt fl × P.State} b
                (r, (P.ensure_buckets w).1)
                (finish P rt fl r (rt.now w) (is_full (sweep_since P rt fl r)) x)).0.last_run
      go true x clean = h
      go false (none, w') clean = h
      go false (some true, w') clean = h
      go false (some false, w') clean = start (clean refl)

  run_once-sources :
      (r : Reconciler P rt fl) (w : P.State) → (run_once P rt fl r w).0.sources ≡ r.sources
  unfolding run_once
  run_once-sources r w =
      go (is_error P rt fl (P.ensure_buckets w).0 && rt.cancelled (P.ensure_buckets w).1) (
        sweep_sources P rt fl r.fraction (sweep_since P rt fl r) r.sources false
          (P.ensure_buckets w).1)
    where
      go :
          (b : Bool) (x : Option Bool × P.State)
          → (if◌then◌else◌ {A = Reconciler P rt fl × P.State} b
              (r, (P.ensure_buckets w).1)
              (finish P rt fl r (rt.now w) (is_full (sweep_since P rt fl r)) x)).0.sources
            ≡ r.sources
      go true x = refl
      go false (none, w') = refl
      go false (some f, w') = refl

  run_cycles-sources :
      (n : ℕ) (r : Reconciler P rt fl) (w : P.State)
      → (run_cycles P rt fl n r w).0.sources ≡ r.sources
  unfolding run_cycles
  run_cycles-sources zero r w = refl
  run_cycles-sources (suc n) r w =
      let next = run_once P rt fl r w in
      run_cycles-sources n next.0 (rt.wait next.1) ∙ run_once-sources r w

  -- the last of the cycles, which recursion takes from the front
  run_cycles-last :
      (n : ℕ) (r : Reconciler P rt fl) (w : P.State)
      → (run_cycles P rt fl (suc n) r w).0
        ≡ (run_once P rt fl (run_cycles P rt fl n r w).0 (run_cycles P rt fl n r w).1).0
  unfolding run_cycles
  run_cycles-last zero r w = refl
  run_cycles-last (suc n) r w =
      let next = run_once P rt fl r w in run_cycles-last n next.0 (rt.wait next.1)

  module _ (r : Reconciler P rt fl) (w : P.State) where
    -- `t` is the start of one of the first `n` cycles of `r`, in which every source of `r` was clean.
    pub record CleanStart (n t : ℕ) : Type 0 where
      pub before : ℕ
      pub in_run : before < n
      pub started : rt.now (run_cycles P rt fl before r w).1 ≡ t
      pub clean :
          AllClean
            (run_cycles P rt fl before r w).0.fraction
            (sweep_since P rt fl (run_cycles P rt fl before r w).0)
            r.sources
            (P.ensure_buckets (run_cycles P rt fl before r w).1).1

    abbrev pub StartsClean : ℕ → Option ℕ → Type 0
    StartsClean n none = Unit
    StartsClean n (some t) = CleanStart n t

    StartsClean-later : (n : ℕ) (o : Option ℕ) → StartsClean n o → StartsClean (suc n) o
    StartsClean-later n none h = tt
    StartsClean-later n (some t) h = record {
      before = h.before;
      in_run = omega (arith, h.in_run);
      started = h.started;
      clean = h.clean;
    }

    run_cycles-StartsClean :
        (n : ℕ) → StartsClean 0 r.last_run → StartsClean n (run_cycles P rt fl n r w).0.last_run
    unfolding run_cycles
    run_cycles-StartsClean zero h = h
    run_cycles-StartsClean (suc n) h =
        let done = run_cycles P rt fl n r w in
        rw (run_cycles-last n r w) (
          run_once-last_run done.0 done.1 (StartsClean (suc n))
            (StartsClean-later n done.0.last_run (run_cycles-StartsClean n h))
            (λ clean. record {
              before = n;
              in_run = omega arith;
              started = refl;
              clean = rw (run_cycles-sources n r w) at clean;
            }))

    window-start :
        (n runs : ℕ) (last : Option ℕ) (t : ℕ)
        → window P rt fl runs last ≡ some t
        → StartsClean n last
        → (start : ℕ) × CleanStart n start × (t ≡ start - reconcile_overlap)
    window-start n runs none t e h = cc
    window-start n runs (some start) t e h = (start, h, ground arith)

  -- After any number of cycles of a new reconciler, an incremental sweep reads from one minute before
  -- the start of one of these cycles, in which every source of the reconciler published all of its rows.
  pub incremental-CleanStart :
      (interval : ℤ) (env : Option Text) (sources : List (Source P)) (n : ℕ) (w : P.State) (t : ℕ)
      → sweep_since P rt fl (run_cycles P rt fl n (new_reconciler P rt fl interval env sources) w).0
        ≡ some t
      → (start : ℕ) × CleanStart (new_reconciler P rt fl interval env sources) w n start
        × (t ≡ start - reconcile_overlap)
  unfolding sweep_since new_reconciler
  incremental-CleanStart interval env sources n w t e =
      let first = new_reconciler P rt fl interval env sources in
      let r = (run_cycles P rt fl n first w).0 in
      window-start first w n r.runs r.last_run t e (run_cycles-StartsClean first w n tt)

  rounds_left : (m : ℕ) → (i : ℕ) × (i < 12) × ((m + i) % 12 ≡ 0)
  rounds_left m = ((12 - m % 12) % 12, omega arith, omega arith)

  -- Of any twelve consecutive values of a reconciler's count of completed cycles, one makes the next
  -- sweep full, whatever the last clean cycle was.
  pub full_sweep_due :
      (r : Reconciler P rt fl)
      → (i : ℕ) × (i < full_sweep_every)
        × ((last : Option ℕ)
            → sweep_since P rt fl (record r { runs = r.runs + i; last_run = last }) ≡ none)
  unfolding sweep_since
  full_sweep_due r =
      let (i, below, turn) = rounds_left r.runs in (i, below, λ last. full last (r.runs + i) turn)
    where
      full : (last : Option ℕ) (runs : ℕ) → runs % 12 ≡ 0 → window P rt fl runs last ≡ none
      full none runs h = refl
      full (some t) runs h = ground arith
