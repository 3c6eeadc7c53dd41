-- ===== src/Http.antt =====
-- The endpoints of server/src/controller and the interceptor of server/src/AppComponent.hpp.
pub mod Pages
pub mod Download
pub mod Safe
use conspire.Prelude.{
  ℕ, ◌≡◌, Bool, true, false, not, ◌&&◌, ◌||◌, List, [], ◌∷◌, ◌++◌, Option, none, some,
  if◌then◌else◌,
}
use conspire.Prelude.Bytes.{Bytes, codes}
use conspire.Prelude.Result.{Result, ok, err, ◌>>=◌, ◌>>◌, require}
use conspire.Boundaries.Text.{is_empty, valid_room_id, valid_host, valid_request_path}
use conspire.Config.Dto.{
  ConfigDto, get_canonical_base_url, is_allowed_request_host, is_allowed_origin,
}

abbrev pub Headers : Type 0
Headers = List (Bytes × Bytes)

-- `none` is a response with no body.
pub record Response : Type 0 where
  pub status : ℕ
  pub headers : Headers
  pub body : Option Bytes

-- What OATPP_ASSERT_HTTP throws.
pub record HttpError : Type 0 where
  pub status : ℕ
  pub message : Bytes

abbrev pub Answer : Type 0
Answer = Result HttpError Response

abbrev pub error : ℕ → Bytes → HttpError
error status message = record { status = status; message = message }

abbrev pub content_type : Bytes → Bytes × Bytes
content_type value = (codes "Content-Type", value)

abbrev pub nosniff : Bytes × Bytes
nosniff = (codes "X-Content-Type-Options", codes "nosniff")

abbrev pub cache_control : Bytes → Bytes × Bytes
cache_control value = (codes "Cache-Control", value)

abbrev pub no_store : Bytes × Bytes
no_store = cache_control (codes "no-store")

abbrev pub invalid_room : HttpError
invalid_room = error 400 (codes "Invalid room id")

abbrev pub is_room : Option Bytes → Bool
is_room none = false
is_room (some room_id) = valid_room_id room_id

-- The room of a path that has one: `roomId && validRoomId(*roomId)`, or the error.
abbrev pub room_of : Option Bytes → Result HttpError Bytes
room_of none = err invalid_room
room_of (some room_id) = if valid_room_id room_id then ok room_id else err invalid_room

-- What the interceptor returns; `none` hands the request on.
abbrev pub Intercepted : Type 0
Intercepted = Option Response

-- What the framework's stream writes for a null text and a null number.
module _ (null_text null_number : Bytes) where
  unfoldable pub intercept_host : ConfigDto → Bytes → Bytes → Intercepted
  intercept_host config host path =
      if not (valid_host host) || not (valid_request_path path)
      then some (record { status = 400; headers = []; body = none })
      else if not (is_allowed_request_host null_text null_number config host)
      then some (record {
        status = 301;
        headers = (codes "Location", get_canonical_base_url config ++ path) ∷ no_store ∷ [];
        body = none;
      })
      else none

  unfoldable pub intercept : ConfigDto → Option Bytes → Bytes → Intercepted
  unfolding intercept_host
  intercept config none path = some (record { status = 400; headers = []; body = none })
  intercept config (some host) path = intercept_host config host path

-- The parameters of an upgraded connection.
pub record Upgrade : Type 0 where
  pub room_name : Bytes
  pub nickname : Bytes

abbrev pub is_origin : ConfigDto → Bool → Option Bytes → Bool
is_origin config development_override none = false
is_origin config development_override (some origin) =
    is_allowed_origin config origin development_override

-- RoomsController: the upgrade that the handshake is asked for. A drawn nickname is never null.
unfoldable pub upgrade_to_websocket :
    ConfigDto → Bool → Option Bytes → Option Bytes → Bytes → Result HttpError Upgrade
upgrade_to_websocket config development_override room_id origin nickname = do
  room_name ← room_of room_id
  require (is_origin config development_override origin) (error 403 (codes "Invalid origin"))
  ok (record { room_name = room_name; nickname = nickname })

-- StatisticsController: the points as text.
unfoldable pub stats : Bytes → Answer
stats json = ok (record {
  status = 200;
  headers = content_type (codes "application/json") ∷ nosniff ∷ no_store ∷ [];
  body = some json;
})
