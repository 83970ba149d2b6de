-- ===== src/App/Observe.antt =====
-- internal/app/observe.go: the request id, the labels that a request is counted under and the level of its
-- access line. crypto/rand and the clock are parameters; the log itself and the recovery from panics are
-- not modelled.
pub mod Bounded
mod Tests
use central_config_stream.Prelude.{
  ℕ, Bool, true, false, not, ◌==◌, ◌&&◌, ◌||◌, Option, none, some, List, [], ◌∷◌, leb,
  if◌then◌else◌, all,
}
use central_config_stream.Prelude.Int.{pos}
use central_config_stream.Text.{Text, codes, is_empty, byte_length, is_label_char, text_beq}
use central_config_stream.Text.Decimal.{format_int}
use central_config_stream.Obs.{Floats, Histogram, observe, label_key}

abbrev pub max_request_id : ℕ
max_request_id = 64

abbrev pub is_id_rune : ℕ → Bool
is_id_rune c =
    leb b'a' c && leb c b'z'
    || leb b'A' c && leb c b'Z'
    || leb b'0' c && leb c b'9'
    || c == b'-'
    || c == b'_'
    || c == b'.'

unfoldable pub valid_request_id : Text → Bool
valid_request_id id =
    if is_empty id || not (leb (byte_length id) max_request_id) then false else all is_id_rune id

-- `random` is hex.EncodeToString of 16 bytes of crypto/rand, or fails; `clock` is the time in base 16
unfoldable pub request_id : Option Text → Text → Text → Text
unfolding valid_request_id
request_id (some random) clock header = if valid_request_id header then header else random
request_id none clock header = if valid_request_id header then header else clock

abbrev pub methods : List Text
methods =
    codes "GET"
    ∷ codes "HEAD"
    ∷ codes "POST"
    ∷ codes "PUT"
    ∷ codes "PATCH"
    ∷ codes "DELETE"
    ∷ codes "OPTIONS"
    ∷ codes "CONNECT"
    ∷ codes "TRACE"
    ∷ []

abbrev pub is_one_of : Text → List Text → Bool
is_one_of t [] = false
is_one_of t (s ∷ ss) = text_beq t s || is_one_of t ss

unfoldable pub method_label : Text → Text
method_label method = if is_one_of method methods then method else codes "other"

-- the labels of the counter of requests, and those of the histogram of their durations
unfoldable pub request_labels : Text → Text → ℕ → List Text
unfolding method_label
request_labels method route status =
    codes "method"
    ∷ method_label method
    ∷ codes "route"
    ∷ route
    ∷ codes "status"
    ∷ format_int (pos status)
    ∷ []

unfoldable pub duration_labels : Text → Text → List Text
unfolding method_label
duration_labels method route = codes "method" ∷ method_label method ∷ codes "route" ∷ route ∷ []

pub data Level : Type 0 where
  debug info warn error : Level

unfoldable pub level_of : Text → ℕ → Level
level_of route status =
    if text_beq route (codes "GET /health")
      || text_beq route (codes "GET /livez")
      || text_beq route (codes "GET /metrics")
    then debug
    else if leb 500 status
    then error
    else if leb 400 status
    then warn
    else info

-- `record`: the series of the counter of requests that is incremented, and the histogram of durations
unfoldable pub record_request :
    (float : Floats) → Text → Text → ℕ → float.F → Histogram float.F → Text × Histogram float.F
unfolding observe request_labels duration_labels label_key
record_request float method route status seconds h = (
  label_key (request_labels method route status),
  observe float h seconds (duration_labels method route),
)
