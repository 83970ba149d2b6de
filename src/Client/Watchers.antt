-- ===== src/Client/Watchers.antt =====
-- pkg/configclient/configclient.go: connectAndWatch, startWatch and closeConn. NATS is a parameter; a
-- watcher answers with the updates that it delivers until the caller's context is done. What it delivers
-- after the marker is applied by later calls of `apply_flag` and its like. The observer and the times of
-- updates are not modelled.
pub mod Histories
pub mod Delivered
use central_config_stream.Prelude.{
  ℕ, Bool, true, false, not, Option, none, some, List, [], ◌∷◌, if◌then◌else◌, length,
}
use central_config_stream.Prelude.Int.{ℤ, pos, negsuc, int_beq, is_positive}
use central_config_stream.Prelude.Result.{Result, ok, err}
use central_config_stream.Text.{Text, is_empty}
use central_config_stream.Keys.{bucket_flags, bucket_service_settings, bucket_localization}
use central_config_stream.Client.{
  ClientCodec, Client, new_client, env_pattern, micro_pattern, loc_pattern, apply_flag,
  apply_service_settings, apply_loc,
}
use central_config_stream.Client.Endpoints.{
  HttpFallback, InvalidFallback, Http, FetchError, validate,
}
use central_config_stream.Client.Fallback.{HydrateError, hydrate, hydrate_all, missing_own_keys}

pub record Options : Type 0 where
  pub nats_url : Text
  pub nats_creds : Text
  pub environment_id : ℤ
  pub microservice_id : ℤ
  pub http_fallback : Option HttpFallback

pub data WatchError : Type 0 where
  connect_failed init_failed : WatchError
  open_failed : Text → WatchError
  watch_failed : Text → WatchError
  cancelled : WatchError

-- an entry of a bucket, with `none` for a delete or a purge
pub record Update : Type 0 where
  pub key : Text
  pub value : Option Text

-- Nats.go: connections, handles of buckets by name, and watchers by pattern. A watcher delivers updates
-- with one marker, `none`, behind those of the current values; the list ends when the context is done.
pub record Nats : Type 1 where
  pub World : Type 0
  pub connect : World → Text → Text → Bool × World
  pub init : World → Bool × World
  pub key_value : World → Text → Bool × World
  pub watch : World → Text → Text → Option (List (Option Update)) × World
  pub close : World → World
  pub drain : World → World

abbrev pub Apply : Type 0
Apply = Client → Text → Option Text → Client

-- the loop over the initial updates, up to the marker
unfoldable pub drain_initial : Apply → List (Option Update) → Client → Option WatchError × Client
drain_initial apply [] c = (some cancelled, c)
drain_initial apply (none ∷ us) c = (none, c)
drain_initial apply (some u ∷ us) c = drain_initial apply us (apply c u.key u.value)

abbrev pub mark_watching :
    {W : Type 0} → Option WatchError × Client × W → Option WatchError × Client × W
mark_watching (some e, c, w) = (some e, c, w)
mark_watching (none, c, w) = (none, record c { watch = true }, w)

-- `if err := ...; err != nil { return err }`
abbrev pub and_then :
    {W : Type 0}
    → Option WatchError × Client × W
    → (Client → W → Option WatchError × Client × W)
    → Option WatchError × Client × W
and_then (some e, c, w) next = (some e, c, w)
and_then (none, c, w) next = next c w

module _ (nats : Nats) where
  abbrev pub on_updates :
      Apply
      → Text
      → Client
      → Option (List (Option Update)) × nats.World
      → Option WatchError × Client × nats.World
  on_updates apply bucket c (none, w) = (some (watch_failed bucket), c, w)
  on_updates apply bucket c (some us, w) = let (e, c') = drain_initial apply us c in (e, c', w)

  unfoldable pub start_watch :
      Apply → Text → Text → Client → nats.World → Option WatchError × Client × nats.World
  unfolding drain_initial
  start_watch apply bucket pattern c w =
      let (opened, w1) = nats.key_value w bucket in
      if opened
      then on_updates apply bucket c (nats.watch w1 bucket pattern)
      else (some (open_failed bucket), c, w1)

  unfoldable pub connect_and_watch :
      ClientCodec → Options → Client → nats.World → Option WatchError × Client × nats.World
  unfolding start_watch env_pattern micro_pattern loc_pattern apply_flag apply_service_settings
      apply_loc
  connect_and_watch json o c w =
      let (up, w1) = nats.connect w o.nats_url o.nats_creds in
      let (ready, w2) = nats.init w1 in
      if not up
      then (some connect_failed, c, w1)
      else if not ready
      then (some init_failed, c, nats.close w2)
      else mark_watching (
          and_then
            (and_then (start_watch (apply_flag json) bucket_flags (env_pattern c) c w2)
              (start_watch apply_service_settings bucket_service_settings (micro_pattern c)))
            (start_watch apply_loc bucket_localization (loc_pattern c)))

  -- closeConn, which has a connection to drain unless there never was one
  abbrev pub close_conn : WatchError → nats.World → nats.World
  close_conn connect_failed w = w
  close_conn init_failed w = w
  close_conn (open_failed bucket) w = nats.drain w
  close_conn (watch_failed bucket) w = nats.drain w
  close_conn cancelled w = nats.drain w
