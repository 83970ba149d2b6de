-- ===== src/EndToEnd.antt =====
-- From a write of the admin API (internal/flagsconfig/handler.go, internal/localization/handler.go) to
-- what a consumer (pkg/configclient) reads once the key has been delivered to it.
mod Tests
use central_config_stream.Prelude.{ℕ, ◌≡◌, refl, Option, none, some, not, arith, ap, ◌∙◌}
use central_config_stream.Prelude.Int.{ℤ, pos, int_beq}
use central_config_stream.Prelude.Result.{Result, ok, err}
use central_config_stream.Text.{Text}
use central_config_stream.Keys.{flag_key, bucket_flags}
use central_config_stream.Messaging.Kv.{Kv, JetStream, Quiet}
use central_config_stream.Messaging.Buckets.{resolved, by_name}
use central_config_stream.Messaging.Publisher.{FlagCodec, FlagPayload, Publisher, build_flag}
use central_config_stream.Messaging.Publish.{built}
use central_config_stream.Messaging.Publisher.Serves.{IsLawful, Decodes, Serves}
use central_config_stream.Messaging.ConfigPublisher.{ConfigPublisher, live_publisher}
use central_config_stream.Web.{ApiRequest, Reply, sent, Decoder, decode_json, on_body, replied}
use central_config_stream.Client.{ClientCodec, Client, apply_flag, flag_enabled, flag_value}
use central_config_stream.Delivery.{flag_read}
use central_config_stream.Domain.Flags as FlagsService
use central_config_stream.Domain.Flags.{FlagError, FlagValue, Repository, payload_of}
use central_config_stream.Domain.Flags.Effect.{update_flag_value-Serves}
use central_config_stream.Domain.Flags.Handler.{write_err, update_flag_value}

module _ (P : ConfigPublisher) (repo : Repository) (body : Decoder FlagValue) (r : ApiRequest)
    (w : FlagsService.World P repo) where
  -- A PUT that is answered with 200 decoded its body and was carried out by the service.
  record Updated (row : FlagValue) : Type 0 where
    req : FlagValue
    decoded : decode_json body r ≡ some req
    carried_out : (FlagsService.update_flag_value P repo req w).0 ≡ ok row
    state : (update_flag_value P repo body r w).1 ≡ (FlagsService.update_flag_value P repo req w).1

  replied_ok :
      (out : Result FlagError FlagValue × FlagsService.World P repo) (row : FlagValue)
      → (replied write_err 200 out).0 ≡ sent 200 row
      → (out.0 ≡ ok row) × ((replied write_err 200 out).1 ≡ out.1)
  unfolding write_err
  replied_ok (ok v, w') row h = (ground arith, refl)
  replied_ok (err e, w') row h = ground arith

  put-Updated :
      (row : FlagValue) → (update_flag_value P repo body r w).0 ≡ sent 200 row → Updated row
  unfolding update_flag_value
  put-Updated row h = go (decode_json body r) refl h
    where
      go :
          (o : Option FlagValue)
          → decode_json body r ≡ o
          → (on_body o w
              (λ req. replied write_err 200 (FlagsService.update_flag_value P repo req w))).0
            ≡ sent 200 row
          → Updated row
      go none e k = cc
      go (some req) e k =
          let (done, same) = replied_ok (FlagsService.update_flag_value P repo req w) row k in
          record {
            req = req;
            decoded = e;
            carried_out = done;
            state =
                ap
                  (λ (o : Option FlagValue).
                    (on_body o w (λ req.
                      replied write_err 200 (FlagsService.update_flag_value P repo req w))).1)
                  e
                ∙ same;
          }

module _ (kv : Kv) (js : JetStream kv) (q : Quiet kv js) (json : FlagCodec)
    (clock : Publisher kv → ℕ → Text) (repo : Repository) where
  -- On a server that answers and that no other client writes to, with a codec that prints every payload and
  -- reads what it prints, if the server takes what is built of the row: after a PUT of a flag's value that was answered with 200 and a row, the bucket
  -- holds under the key of the row's environment and its flag a text that makes a client of that environment
  -- which decodes as the publisher does read the state and the value of the row, once it is delivered. The
  -- row and the key of the flag are those that the repository answers to the update that the body decodes to.
  pub put_flag_value-Reads :
      (body : Decoder FlagValue) (r : ApiRequest) (w : repo.Db × Publisher kv) (b : Text)
      (row : FlagValue) (decoder : ClientCodec) (c : Client)
      → IsLawful json
      → ((v : FlagPayload) → ¬ (json.marshal v ≡ none))
      → ((v : Text) → decoder.flag_payload v ≡ json.unmarshal (some v))
      → ((req : FlagValue) (flag text compare : Text) (n : ℕ) (cur : Option Text)
          → decode_json body r ≡ some req
          → (repo.update_flag_value w.0 req).0 ≡ ok (row, flag)
          → build_flag json (clock w.1 n) (payload_of row) cur ≡ built text compare
          → q.Takes (flag_key row.environment_id flag) text)
      → by_name w.1.buckets bucket_flags ≡ resolved b
      → c.env ≡ row.environment_id
      → (update_flag_value (live_publisher kv json clock) repo body r w).0 ≡ sent 200 row
      → (req : FlagValue) × (flag : Text) × (decode_json body r ≡ some req)
        × ((repo.update_flag_value w.0 req).0 ≡ ok (row, flag))
        × Serves kv js w.1
            (update_flag_value (live_publisher kv json clock) repo body r w).1.1
            bucket_flags
            (flag_key row.environment_id flag)
            (λ t.
              let c' = apply_flag decoder c (flag_key row.environment_id flag) (some t) in
              (flag_enabled c' flag ≡ not (int_beq row.enabled (pos 0)))
              × (flag_value c' flag ≡ some row.value))
  unfolding payload_of
  put_flag_value-Reads body r w b row decoder c lawful prints same taken found at h =
      let P = live_publisher kv json clock in
      let u = put-Updated P repo body r w row h in
      let (flag, stored, s) =
        update_flag_value-Serves kv js q json clock repo b u.req row w lawful prints
          (λ flag text compare n cur e. taken u.req flag text compare n cur u.decoded e) found
          u.carried_out in
      (
        u.req,
        flag,
        u.decoded,
        stored,
        record {
          bucket = s.bucket;
          found = s.found;
          text = s.text;
          held = rw u.state s.held;
          good =
              rw (← at)
                (flag_read kv js w.1 json decoder same c flag s.text (payload_of row) s.good);
        },
      )
