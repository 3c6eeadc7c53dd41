-- ===== src/Config/Dto.antt =====
-- `ConfigDto` (server/src/dto/Config.hpp): the hosts and origins that requests may name.
pub mod Origins
use conspire.Prelude.{
  ℕ, ◌*◌, ◌≡◌, Bool, true, false, not, ◌||◌, List, [], ◌∷◌, ◌++◌, Option, none, some, ◌==◌, get_or,
  if◌then◌else◌,
}
use conspire.Prelude.Bytes.{Bytes, codes, same}
use conspire.Prelude.Decimal.{port_text}
use conspire.Boundaries.Text.{allowed_origin}
use conspire.Config.{canonical_base_url, websocket_base_url}

-- `none` is a null field. The three fields with a value of their own are never null.
pub record ConfigDto : Type 0 where
  pub statistics_url : Option Bytes
  pub statistics_state_path : Option Bytes
  pub host : Option Bytes
  pub port : Option ℕ  -- UInt16
  pub use_tls : Bool
  pub tor_enabled : Bool
  pub tor_control_socket : Option Bytes
  pub tor_control_host : Option Bytes
  pub tor_control_port : Option ℕ  -- UInt16
  pub tor_key_path : Option Bytes
  pub tor_backend_port : Option ℕ  -- UInt16
  pub tor_virtual_port : Option ℕ  -- UInt16
  pub onion_host : Option Bytes
  pub tls_private_key_path : Option Bytes
  pub tls_certificate_chain_path : Option Bytes
  pub pid_file_path : Option Bytes
  pub version : Option Bytes
  pub max_message_size_bytes : ℕ  -- UInt64
  pub max_room_history_messages : ℕ  -- UInt32

-- ConfigDto::createShared()
abbrev pub unset : ConfigDto
unset = record {
  statistics_url = none;
  statistics_state_path = none;
  host = none;
  port = none;
  use_tls = false;
  tor_enabled = true;
  tor_control_socket = none;
  tor_control_host = none;
  tor_control_port = none;
  tor_key_path = none;
  tor_backend_port = none;
  tor_virtual_port = none;
  onion_host = none;
  tls_private_key_path = none;
  tls_certificate_chain_path = none;
  pid_file_path = none;
  version = none;
  max_message_size_bytes = 8 * 1024;
  max_room_history_messages = 100;
}

-- `value ? *value : otherwise`
abbrev pub value_or {ℓ} : {A : Type ℓ} → Option A → A → A
value_or none otherwise = otherwise
value_or (some a) otherwise = a

-- `text && other == *text`
abbrev pub is_text : Option Bytes → Bytes → Bool
is_text none other = false
is_text (some text) other = same other text

abbrev pub default_port : Bool → ℕ
default_port true = 443
default_port false = 80

-- stream << ":" << port, unless it is the scheme's default
abbrev pub port_suffix : Option ℕ → ℕ → Bytes → Bytes
port_suffix none default null_number = b':' ∷ null_number
port_suffix (some port) default null_number = if default == port then [] else b':' ∷ port_text port

unfoldable pub get_canonical_base_url : ConfigDto → Bytes
get_canonical_base_url c = canonical_base_url (value_or c.host []) (value_or c.port 0) c.use_tls

unfoldable pub get_websocket_base_url : ConfigDto → Bytes
get_websocket_base_url c = websocket_base_url (value_or c.host []) (value_or c.port 0) c.use_tls

unfoldable pub get_onion_host_string : ConfigDto → Option Bytes
get_onion_host_string c = elim c.onion_host [
  | none ↦ none
  | some value ↦ elim c.tor_virtual_port [
    | none ↦ some value
    | some port ↦ some (if port == 80 then value else value ++ (b':' ∷ port_text port))
  ]
]

unfoldable pub get_onion_base_url : ConfigDto → Option Bytes
get_onion_base_url c = elim c.onion_host [
  | none ↦ none
  | some value ↦ some (canonical_base_url value (value_or c.tor_virtual_port 80) false)
]

unfoldable pub is_onion_request_host : ConfigDto → Bytes → Bool
is_onion_request_host c request_host = is_text (get_onion_host_string c) request_host

unfoldable pub get_websocket_base_url_for_host : ConfigDto → Bytes → Bytes
get_websocket_base_url_for_host c request_host =
    if is_onion_request_host c request_host
    then websocket_base_url (value_or c.onion_host []) (value_or c.tor_virtual_port 80) false
    else get_websocket_base_url c

unfoldable pub is_allowed_origin : ConfigDto → Bytes → Bool → Bool
is_allowed_origin c origin development_override =
    if allowed_origin origin (get_canonical_base_url c) development_override
    then true
    else is_text (get_onion_base_url c) origin

-- What the framework's stream writes for a null text and for a null number.
module _ (null_text null_number : Bytes) where
  unfoldable pub get_host_string : ConfigDto → Bytes
  get_host_string c =
      value_or c.host null_text ++ port_suffix c.port (default_port c.use_tls) null_number

  -- The sum of a text and a null text is the framework's too.
  unfoldable pub get_stats_url : ConfigDto → Bytes
  get_stats_url c = get_canonical_base_url c ++ (codes "/" ++ value_or c.statistics_url null_text)

  unfoldable pub is_allowed_request_host : ConfigDto → Bytes → Bool
  unfolding get_host_string
  is_allowed_request_host c request_host =
      if same request_host (get_host_string c)
      then true
      else is_text (get_onion_host_string c) request_host
