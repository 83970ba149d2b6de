-- ===== src/Messaging/Reconciler.antt =====
-- internal/messaging/reconciler.go: the periodic resync of every source and the pruning of keys that
-- no row backs. The publisher is the interface `ConfigPublisher`; the wall clock, the cancellation of
-- the context and the metrics are `Runtime`, and the floating-point fraction is `Float`.
mod Tests
pub mod Prune
pub mod Sweep
pub mod Removal
pub mod Cycle
pub mod Window
use central_config_stream.Prelude.{
  ℕ, suc, ◌+◌, ◌-◌, ◌*◌, ◌%◌, max, Bool, true, false, not, ◌&&◌, ◌||◌, Option, none, some, List, [],
  ◌∷◌, ◌++◌, ltb, ◌==◌, if◌then◌else◌, length,
}
use central_config_stream.Prelude.Map.{Map, lookup, insert}
use central_config_stream.Text.{Text, text_beq, text_eq, is_empty}
use central_config_stream.Messaging.Kv.{KeyRevision}
use central_config_stream.Messaging.Publish.{PublishError}
use central_config_stream.Messaging.Publisher.{Listed, keys, not_listed}
use central_config_stream.Messaging.ConfigPublisher.{ConfigPublisher}

-- the float64 operations of the program
pub record Float : Type 1 where
  pub F : Type 0
  pub of_int : ℕ → F
  pub times : F → F → F
  pub truncate : F → ℕ
  pub parse_float : Text → Option F
  pub is_fraction : F → Bool  -- 0 < f and f <= 1
  pub default_fraction : F  -- 0.2

-- what the reconciler counts in internal/obs
pub data Event : Type 0 where
  source_failed : Text → Event
  republished : Text → ℕ → Event
  prune_refused : Text → Event
  keys_pruned : Text → ℕ → Event
  cycle : Bool → Bool → Event  -- full sweep, failed

pub record Runtime (publisher : ConfigPublisher) : Type 0 where
  pub now : publisher.State → ℕ  -- nanoseconds
  pub cancelled : publisher.State → Bool  -- ctx.Err() != nil
  pub emit : Event → publisher.State → publisher.State
  pub wait : publisher.State → publisher.State  -- until the next tick

pub record ResyncResult : Type 0 where
  pub keys : List Text
  pub partial : Bool

-- the method Publish: what publishing one row adds to the result
unfoldable pub record_row : ResyncResult → Text → Option PublishError → ResyncResult
record_row r key none = record r { keys = r.keys ++ key ∷ [] }
record_row r key (some e) = record r { partial = true }

abbrev pub full_sweep_every : ℕ
full_sweep_every = 12

-- one minute in nanoseconds
abbrev pub reconcile_overlap : ℕ
reconcile_overlap = 60 * 1000000000

abbrev pub min_prune_keys : ℕ
min_prune_keys = 5

-- `since` is `none` for a full sweep; `none` as a result is an error
pub record Source (publisher : ConfigPublisher) : Type 0 where
  pub name : Text
  pub bucket : Text
  pub resync : publisher.State → Option ℕ → Option ResyncResult × publisher.State

abbrev in_range : (fl : Float) → Option fl.F → fl.F
in_range fl none = fl.default_fraction
in_range fl (some f) = if fl.is_fraction f then f else fl.default_fraction

unfoldable pub prune_max_fraction_from_env : (fl : Float) → Option Text → fl.F
prune_max_fraction_from_env fl none = fl.default_fraction
prune_max_fraction_from_env fl (some v) = in_range fl (fl.parse_float v)

-- the key set of the published keys
unfoldable pub contains : List Text → Text → Bool
contains [] k = false
contains (j ∷ ks) k = text_beq j k || contains ks k

unfoldable pub revisions_of : List KeyRevision → Map Text ℕ → Map Text ℕ
revisions_of [] m = m
revisions_of (e ∷ es) m = revisions_of es (insert e.key e.revision m)

abbrev same_revision : Option ℕ → ℕ → Bool
same_revision none revision = false
same_revision (some r) revision = r == revision

-- the keys that the loop over `actual` collects
unfoldable pub stale_keys : List Text → Map Text ℕ → List KeyRevision → List Text
stale_keys published unchanged [] = []
stale_keys published unchanged (e ∷ es) =
    let rest = stale_keys published unchanged es in
    if contains published e.key
    then rest
    else if same_revision (lookup e.key unchanged) e.revision
    then e.key ∷ rest
    else rest

unfoldable pub prune_limit : (fl : Float) → fl.F → ℕ → ℕ
prune_limit fl fraction n = max min_prune_keys (fl.truncate (fl.times (fl.of_int n) fraction))

abbrev no_keys : List Text → Bool
no_keys [] = true
no_keys (k ∷ ks) = false

abbrev pub count_pruned : Option PublishError → ℕ → ℕ
count_pruned none n = suc n
count_pruned (some e) n = n

abbrev pub list_nothing : Listed KeyRevision → Option (List KeyRevision)
list_nothing (keys es) = some es
list_nothing (not_listed e) = none

-- since.IsZero()
abbrev pub is_full : Option ℕ → Bool
is_full none = true
is_full (some t) = false

module _ (P : ConfigPublisher) (rt : Runtime P) where
  -- deletes the stale keys and counts them; a failure is skipped
  unfoldable pub delete_all : Text → List Text → ℕ → P.State → ℕ × P.State
  delete_all bucket [] pruned w = (pruned, w)
  delete_all bucket (k ∷ ks) pruned w =
      let (failed, w') = P.delete_key w bucket k in
      delete_all bucket ks (count_pruned failed pruned) w'

  -- the metric of a prune that deleted something
  abbrev report_pruned : Text → ℕ × P.State → P.State
  report_pruned bucket (pruned, w) =
      if ltb 0 pruned then rt.emit (keys_pruned bucket pruned) w else w

  -- what `prune` does once it has collected the stale keys
  unfoldable pub prune_stale : Text → List Text → ℕ → List Text → P.State → P.State
  unfolding delete_all
  prune_stale bucket published limit stale w =
      if no_keys stale
      then w
      else if no_keys published || ltb limit (length stale)
      then rt.emit (prune_refused bucket) w
      else report_pruned bucket (delete_all bucket stale 0 w)

  module _ (fl : Float) (fraction : fl.F) where
    abbrev prune_listed :
        Text → List Text → List KeyRevision → Option (List KeyRevision) → P.State → P.State
    prune_listed bucket published at_start none w = w
    prune_listed bucket published at_start (some actual) w =
        prune_stale bucket published (prune_limit fl fraction (length actual))
          (stale_keys published (revisions_of at_start []) actual) w

    unfoldable pub prune : Text → List Text → List KeyRevision → P.State → P.State
    prune bucket published at_start w =
        if is_empty bucket
        then w
        else prune_listed bucket published at_start (list_nothing (P.list_revisions w bucket)) w

    -- `none` is a bucket that could not be read, with which no prune is run
    unfoldable pub snapshot : Text → P.State → Option (List KeyRevision)
    snapshot bucket w =
        if is_empty bucket then some [] else list_nothing (P.list_revisions w bucket)

    -- a row that was not published makes the source count as failed
    abbrev report_resync : Text → ResyncResult → P.State → P.State
    report_resync name r w =
        let w' =
          if ltb 0 (length r.keys) then rt.emit (republished name (length r.keys)) w else w in
        if r.partial then rt.emit (source_failed name) w' else w'

    -- the snapshot is `none` too on an incremental sweep, which takes none
    abbrev prune_if : Bool → Text → ResyncResult → Option (List KeyRevision) → P.State → P.State
    prune_if full bucket r none w = w
    prune_if full bucket r (some at_start) w =
        if full && not r.partial then prune bucket r.keys at_start w else w

    -- `some failed`, or `none` when the context was cancelled and the cycle ends
    abbrev after_resync :
        Bool
        → Source P
        → Option (List KeyRevision)
        → Option ResyncResult × P.State
        → Option Bool × P.State
    after_resync full s at_start (none, w) =
        if rt.cancelled w then (none, w) else (some true, rt.emit (source_failed s.name) w)
    after_resync full s at_start (some r, w) =
        if rt.cancelled w
        then (none, w)
        else (some r.partial, prune_if full s.bucket r at_start (report_resync s.name r w))

    unfoldable pub sweep_source : Source P → Option ℕ → P.State → Option Bool × P.State
    unfolding prune snapshot
    sweep_source s since w =
        let full = is_full since in
        after_resync full s (if full then snapshot s.bucket w else none) (s.resync w since)
