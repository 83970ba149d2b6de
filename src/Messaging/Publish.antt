-- ===== src/Messaging/Publish.antt =====
-- internal/messaging/publisher.go: the revision-checked write loop, `current`, `publish` and `raw`.
pub mod Safety
pub mod Progress
use central_config_stream.Prelude.{
  ℕ, zero, suc, Bool, true, false, Option, none, some, ◌==◌, if◌then◌else◌,
}
use central_config_stream.Text.{Text, text_beq}
use central_config_stream.Messaging.Kv.{
  GetResult, entry, missing, get_error, PutResult, put_done, key_exists, put_error, Kv,
}

-- The errors of the package; the texts that wrap them are not modelled.
pub data PublishError : Type 0 where
  not_provisioned : Text → PublishError
  unknown_bucket : Text → PublishError
  get_failed put_failed conflict list_failed purge_failed ensure_failed : PublishError
  marshal_failed empty_settings empty_locale empty_bundle : PublishError

-- A zero revision means that the key is absent.
pub record Stored : Type 0 where
  pub value : Option Text
  pub revision : ℕ

-- what `build` returns: the bytes to write and those to compare with, or an error
pub data Built : Type 0 where
  built : Text → Text → Built
  build_failed : Built

abbrev pub BuildValue : Type 0
BuildValue = Option Text → Built

pub data Publication : Type 0 where
  skipped : Publication
  written : Publication
  failed : PublishError → Publication

abbrev pub publish_attempts : ℕ
publish_attempts = 3

-- `none` stands for the error of the read
unfoldable pub current : GetResult → Option Stored
current (entry v r) = some (record { value = v; revision = r })
current missing = some (record { value = none; revision = 0 })
current get_error = none

abbrev pub same_bytes : Option Text → Text → Bool
same_bytes none compare = false
same_bytes (some v) compare = text_beq v compare

-- the value is stored exactly as given
unfoldable pub raw : Text → BuildValue
raw value _ = built value value

module _ (kv : Kv) (bucket key : Text) (build : BuildValue) where
  -- kv.Create or kv.Update, by the revision that was read
  unfoldable pub write_at : kv.World → ℕ → Text → PutResult × kv.World
  write_at w revision write =
      if revision == 0 then kv.create w bucket key write else kv.update w bucket key write revision

  -- `none` in the first part asks for another round
  abbrev after_put : PutResult × kv.World → Option Publication × kv.World
  after_put (put_done, w) = (some written, w)
  after_put (key_exists, w) = (none, w)
  after_put (put_error, w) = (some (failed put_failed), w)

  abbrev put_built : kv.World → Stored → Built → Option Publication × kv.World
  put_built w cur build_failed = (some (failed marshal_failed), w)
  put_built w cur (built write compare) =
      if same_bytes cur.value compare
      then (some skipped, w)
      else after_put (write_at (kv.others w) cur.revision write)

  abbrev attempt_at : kv.World → Option Stored → Option Publication × kv.World
  attempt_at w none = (some (failed get_failed), w)
  attempt_at w (some cur) = put_built w cur (build cur.value)

  -- the body of the loop
  unfoldable pub attempt : kv.World → Option Publication × kv.World
  unfolding current
  attempt w = let w' = kv.others w in attempt_at w' (current (kv.get w' bucket key))

abbrev conclude {ℓ} : {W : Type ℓ} → Option Publication → W → Publication × W → Publication × W
conclude (some p) w rest = (p, w)
conclude none w rest = rest

-- `build` reads the clock for a flag, so each round of the loop has a `build` of its own; the rounds
-- are numbered by how many are left.
module _ (kv : Kv) (bucket key : Text) (build : ℕ → BuildValue) where
  unfoldable pub publish_loop : ℕ → kv.World → Publication × kv.World
  unfolding attempt
  publish_loop zero w = (failed conflict, w)
  publish_loop (suc n) w =
      let (p, w') = attempt kv bucket key (build n) w in
      let rest = publish_loop n w' in conclude p w' rest

  unfoldable pub publish : kv.World → Publication × kv.World
  unfolding publish_loop
  publish w = publish_loop publish_attempts w
