-- ===== src/Client/Start.antt =====
-- pkg/configclient/configclient.go: `New` over the watchers and the HTTP fallback, and `Status`. The
-- messages of errors and the logger are not modelled.
pub mod Outcome
mod Tests
use central_config_stream.Prelude.{
  ℕ, Bool, true, false, not, Option, none, some, List, [], ◌∷◌, if◌then◌else◌, length,
}
use central_config_stream.Prelude.Int.{ℤ, pos, negsuc, int_beq, is_positive}
use central_config_stream.Prelude.Result.{Result, ok, err}
use central_config_stream.Text.{Text, is_empty}
use central_config_stream.Keys.{bucket_flags, bucket_service_settings, bucket_localization}
use central_config_stream.Client.{
  ClientCodec, Client, new_client, env_pattern, micro_pattern, loc_pattern, apply_flag,
  apply_service_settings, apply_loc,
}
use central_config_stream.Client.Endpoints.{
  HttpFallback, InvalidFallback, Http, FetchError, validate,
}
use central_config_stream.Client.Fallback.{HydrateError, hydrate, hydrate_all, missing_own_keys}
use central_config_stream.Client.Watchers.{Options, WatchError, Nats, connect_and_watch, close_conn}

pub data StartError : Type 0 where
  url_required environment_required negative_microservice : StartError
  bad_fallback : InvalidFallback → StartError
  not_watched : WatchError → StartError
  both_failed : WatchError → HydrateError → StartError

-- the error that the client keeps for its status
pub data LastError : Type 0 where
  of_watch : WatchError → LastError
  of_fallback : HydrateError → LastError
  hydrated_partially : List FetchError → LastError

abbrev is_negative : ℤ → Bool
is_negative (pos n) = false
is_negative (negsuc n) = true

abbrev check_fallback : Option HttpFallback → Option StartError
check_fallback none = none
check_fallback (some f) = elim (validate f) [ none ↦ none | some e ↦ some (bad_fallback e) ]

unfoldable pub check_options : Options → Option StartError
check_options o =
    if is_empty o.nats_url
    then some url_required
    else if not (is_positive o.environment_id)
    then some environment_required
    else if is_negative o.microservice_id
    then some negative_microservice
    else check_fallback o.http_fallback

-- a client that New has returned: its caches, whether it holds a connection, and its last error
pub record Started : Type 0 where
  pub client : Client
  pub connected : Bool
  pub last_error : Option LastError

-- the error that `hydrate` itself leaves when it succeeds in part
abbrev pub partial_error : List FetchError → Option LastError → Option LastError
partial_error [] last = last
partial_error (e ∷ es) last = some (hydrated_partially (e ∷ es))

module _ (nats : Nats) (json : ClientCodec) (http : Http) where
  abbrev pub World : Type 0
  World = nats.World × http.World

  abbrev on_hydrated :
      WatchError
      → List FetchError
      → nats.World
      → Option HydrateError × Client × http.World
      → Result StartError Started × World
  on_hydrated e es nw (some he, c, hw) = (err (both_failed e he), (nw, hw))
  on_hydrated e es nw (none, c, hw) = (
    ok (record {
      client = c;
      connected = false;
      last_error = partial_error es (some (of_watch e));
    }),
    (nw, hw),
  )

  abbrev fall_back :
      Option HttpFallback → WatchError → Client → World → Result StartError Started × World
  fall_back none e c (nw, hw) = (err (not_watched e), (close_conn nats e nw, hw))
  fall_back (some f) e c (nw, hw) =
      on_hydrated e (hydrate_all http f (record c { watch = false }) hw).errs (close_conn nats e nw)
        (hydrate http f (record c { watch = false }) hw)

  abbrev on_topped_up :
      List FetchError
      → nats.World
      → Option HydrateError × Client × http.World
      → Result StartError Started × World
  on_topped_up es nw (e, c, hw) = (
    ok (record {
      client = c;
      connected = true;
      last_error = elim e [ none ↦ partial_error es none | some he ↦ some (of_fallback he) ];
    }),
    (nw, hw),
  )

  abbrev top_up : Option HttpFallback → Client → World → Result StartError Started × World
  top_up none c ws = (ok (record { client = c; connected = true; last_error = none }), ws)
  top_up (some f) c (nw, hw) =
      if missing_own_keys f c
      then on_topped_up (hydrate_all http f c hw).errs nw (hydrate http f c hw)
      else (ok (record { client = c; connected = true; last_error = none }), (nw, hw))

  abbrev on_watched :
      Options
      → http.World
      → Option WatchError × Client × nats.World
      → Result StartError Started × World
  on_watched o hw (some e, c, nw) = fall_back o.http_fallback e c (nw, hw)
  on_watched o hw (none, c, nw) = top_up o.http_fallback c (nw, hw)

  abbrev on_checked : Options → World → Option StartError → Result StartError Started × World
  on_checked o ws (some e) = (err e, ws)
  on_checked o (nw, hw) none =
      on_watched o hw
        (connect_and_watch nats json o (new_client o.environment_id o.microservice_id) nw)

  -- New
  unfoldable pub start : Options → World → Result StartError Started × World
  unfolding check_options connect_and_watch hydrate hydrate_all missing_own_keys new_client
  start o ws = on_checked o ws (check_options o)

pub record Status : Type 0 where
  pub environment_id : ℤ
  pub microservice_id : ℤ
  pub fleet_wide : Bool
  pub connected : Bool
  pub watching : Bool
  pub used_http_fallback : Bool
  pub last_error : Option LastError
  pub out_of_scope_reads : ℕ
  pub flags : ℕ
  pub service_settings : ℕ
  pub localization : ℕ

-- Status, while the connection that the client holds is up
unfoldable pub status : Started → Status
status s = record {
  environment_id = s.client.env;
  microservice_id = s.client.ms_id;
  fleet_wide = int_beq s.client.ms_id (pos 0);
  connected = s.connected;
  watching = s.client.watch;
  used_http_fallback = s.client.http_used;
  last_error = s.last_error;
  out_of_scope_reads = s.client.out_of_scope;
  flags = length s.client.flags;
  service_settings = length s.client.micro;
  localization = length s.client.loc;
}
