-- ===== src/Client/Endpoints.antt =====
-- pkg/configclient/httpfallback.go: the configuration of the HTTP fallback, and its three fetches. The
-- transport is a parameter; it answers in a state of its own, so that it may answer the same path in
-- different ways. The messages of errors are not modelled.
use central_config_stream.Prelude.{
  ℕ, Bool, false, not, ◌&&◌, ◌||◌, Option, none, some, List, [], ◌∷◌, ◌++◌, leb, ◌==◌,
  if◌then◌else◌, all,
}
use central_config_stream.Prelude.Int.{ℤ, pos, int_beq, int_eq}
use central_config_stream.Prelude.Map.{Map, lookup, insert}
use central_config_stream.Text.{Text, codes, text_eq, is_empty, trim_space, trim_right}
use central_config_stream.Text.Decimal.{format_int}
use central_config_stream.Text.Utf8.{path_escape}
use central_config_stream.Client.{Client, in_scope, bundles_or_empty}

pub record HttpFallback : Type 0 where
  pub base_url : Text
  pub token : Text
  pub allow_unauthenticated : Bool
  pub config_value_id : ℤ
  pub flag_value_ids : Map Text ℤ
  pub locales : List Text

pub data InvalidFallback : Type 0 where
  base_url_required token_required token_unusable : InvalidFallback

unfoldable pub bearer : HttpFallback → Text
bearer f = trim_space f.token

unfoldable pub usable_header_value : Text → Bool
usable_header_value token = all (λ r. leb b'!' r && leb r b'~') token

unfoldable pub validate : HttpFallback → Option InvalidFallback
unfolding bearer usable_header_value
validate f =
    if is_empty (trim_space f.base_url)
    then some base_url_required
    else if is_empty (bearer f)
    then (if f.allow_unauthenticated then none else some token_required)
    else if not (usable_header_value (bearer f))
    then some token_unusable
    else none

-- the answers of the three endpoints
pub record FlagValueResponse : Type 0 where
  pub environment_id : ℤ
  pub value : Text
  pub enabled : ℤ
  pub updated_at : Text

pub record ConfigValueResponse : Type 0 where
  pub microservice_id : ℤ
  pub environment_id : ℤ
  pub settings_json : Text

pub record LocalizationResponse : Type 0 where
  pub microservice_id : ℤ
  pub environment_id : ℤ
  pub locale : Text
  pub bundle_json : Text

-- What came back for a GET: no answer, or a status and a body.
pub data Answer : Type 0 where
  no_answer : Answer
  answer : ℕ → Text → Answer

-- net/http, by the URL and the Authorization header ("" for none), and encoding/json at the answers
pub record Http : Type 1 where
  pub World : Type 0
  pub fetch : World → Text → Text → Answer × World
  pub flag_value : Text → Option FlagValueResponse
  pub config_value : Text → Option ConfigValueResponse
  pub localization : Text → Option LocalizationResponse

pub data FetchError : Type 0 where
  transport undecodable wrong_environment out_of_scope : FetchError
  status_error : ℕ → FetchError

-- an answer that turns the credential away
abbrev pub is_refused : FetchError → Bool
is_refused (status_error status) = status == 401 || status == 403
is_refused _ = false

pub data Got (R : Type 0) : Type 0 where
  got : R → Got R
  missed : FetchError → Got R

abbrev pub decoded : {R : Type 0} → Option R → (R → Got R) → Got R
decoded none f = missed undecodable
decoded (some r) f = f r

abbrev pub read_answer : {R : Type 0} → (Text → Option R) → Answer → Got R
read_answer json no_answer = missed transport
read_answer json (answer status body) =
    if status == 200 then decoded (json body) got else missed (status_error status)

abbrev pub authorization_of : Text → Text
authorization_of token = if is_empty token then [] else codes "Bearer " ++ token

unfoldable pub url_of : HttpFallback → Text → Text
url_of f path = trim_right (λ c. c == b'/') f.base_url ++ path

abbrev pub store_flag : Client → Text → Got FlagValueResponse → Option FetchError × Client
store_flag c flag (missed e) = (some e, c)
store_flag c flag (got r) =
    if not (int_beq r.environment_id c.env) then (some wrong_environment, c) else (
      none,
      record c {
        flags =
            insert flag
              (record {
                enabled = not (int_beq r.enabled (pos 0));
                value = r.value;
                updated_at = r.updated_at;
              })
              c.flags;
      },
    )

abbrev pub store_config : Client → Got ConfigValueResponse → Option FetchError × Client
store_config c (missed e) = (some e, c)
store_config c (got r) =
    if not (int_beq r.environment_id c.env)
    then (some wrong_environment, c)
    else if not (in_scope c r.microservice_id)
    then (some out_of_scope, c)
    else (none, record c { micro = insert r.microservice_id r.settings_json c.micro })

abbrev pub store_localization :
    Client → Text → Got LocalizationResponse → Option FetchError × Client
store_localization c locale (missed e) = (some e, c)
store_localization c locale (got r) = (
  none,
  record c {
    loc =
        insert c.ms_id (insert locale r.bundle_json (bundles_or_empty (lookup c.ms_id c.loc)))
          c.loc;
  },
)

abbrev pub localization_path : Client → Text → Text
localization_path c locale =
    codes "/localization/lookup/"
    ++ (format_int c.ms_id ++ b'/' ∷ (format_int c.env ++ b'/' ∷ path_escape locale))

module _ (http : Http) (f : HttpFallback) where
  unfoldable pub get : {R : Type 0} → (Text → Option R) → Text → http.World → Got R × http.World
  unfolding url_of bearer
  get json path w =
      let (a, w') = http.fetch w (url_of f path) (authorization_of (bearer f)) in
      (read_answer json a, w')

  unfoldable pub fetch_flag :
      Client → Text → ℤ → http.World → Option FetchError × Client × http.World
  unfolding get
  fetch_flag c flag id w =
      let (a, w') = get http.flag_value (codes "/flags/values/" ++ format_int id) w in
      let (e, c') = store_flag c flag a in (e, c', w')

  unfoldable pub fetch_config : Client → http.World → Option FetchError × Client × http.World
  unfolding get in_scope
  fetch_config c w =
      let (a, w') =
        get http.config_value (codes "/configs/values/" ++ format_int f.config_value_id) w in
      let (e, c') = store_config c a in (e, c', w')

  unfoldable pub fetch_localization :
      Client → Text → http.World → Option FetchError × Client × http.World
  unfolding get
  fetch_localization c locale w =
      let (a, w') = get http.localization (localization_path c locale) w in
      let (e, c') = store_localization c locale a in (e, c', w')
