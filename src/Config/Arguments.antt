-- ===== src/Config/Arguments.antt =====
-- `fromCommandLine` (server/src/utils/AppConfig.hpp).
pub mod Accepted
use conspire.Prelude.{
  ℕ, ◌≡◌, Bool, true, false, not, ◌&&◌, ◌||◌, List, [], ◌∷◌, ◌++◌, Option, none, some, ◌==◌,
  if◌then◌else◌,
}
use conspire.Prelude.Bytes.{Bytes, codes}
use conspire.Prelude.Result.{Result, ok, err, ◌>>=◌, ◌>>◌, require, present}
use conspire.Boundaries.Text.{valid_host}
use conspire.Config.{parse_port, valid_stats_path, valid_state_file_path, valid_loopback_host}
use conspire.Config.Dto.{ConfigDto, unset, value_or}

-- The messages of the `std::runtime_error`s.
pub data ConfigError : Type 0 where
  invalid_host invalid_port invalid_statistics_path : ConfigError
  missing_statistics_state_path invalid_statistics_state_path : ConfigError
  missing_tor_control_socket invalid_tor_control_socket : ConfigError
  tor_control_host_not_loopback invalid_tor_control_port : ConfigError
  invalid_tor_backend_port invalid_tor_virtual_port : ConfigError
  missing_tor_key_path invalid_tor_key_path : ConfigError

-- What the framework and the environment answer: `hasArgument`, `getNamedArgumentValue` with its
-- default, `std::getenv`.
pub record Environment : Type 0 where
  pub has_argument : Bytes → Bool
  pub get_named_argument_value : Bytes → Option Bytes → Option Bytes
  pub getenv : Bytes → Option Bytes

-- CERT_PEM_PATH, CERT_CRT_PATH and CONSPIRE_VERSION.
pub record Build : Type 0 where
  pub cert_pem_path : Bytes
  pub cert_crt_path : Bytes
  pub version : Bytes

-- The variable, or else the argument.
unfoldable pub from_environment : Environment → Bytes → Bytes → Option Bytes → Option Bytes
from_environment e variable name default = elim (e.getenv variable) [
  | none ↦ e.get_named_argument_value name default
  | some value ↦ some value
]

-- parsePort(text ? text : "")
abbrev pub parsed : Option Bytes → Option ℕ
parsed text = parse_port (value_or text [])

-- `!path || valid(*path)`
abbrev pub valid_if_set : Option Bytes → Bool
valid_if_set none = true
valid_if_set (some path) = valid_state_file_path path

-- What follows the last `/`, left out, from the end of the text.
unfoldable pub drop_filename : Bytes → Bytes
drop_filename [] = []
drop_filename (c ∷ cs) = let rest = drop_filename cs in if c == b'/' then c ∷ cs else rest

unfoldable pub drop_separators : Bytes → Bytes
drop_separators [] = []
drop_separators (c ∷ cs) = let rest = drop_separators cs in if c == b'/' then rest else c ∷ cs

unfoldable pub reverse_onto : Bytes → Bytes → Bytes
reverse_onto [] text = text
reverse_onto (c ∷ cs) text = reverse_onto cs (c ∷ text)

-- `directory / name` for what is left of the reversed path when its last name is gone.
unfoldable pub join_parent : Bytes → Bytes → Bytes
join_parent [] name = name
join_parent (slash ∷ cs) name = reverse_onto (drop_separators cs) (b'/' ∷ name)

-- (std::filesystem::path(path).parent_path() / name).string()
unfoldable pub beside : Bytes → Bytes → Bytes
beside path name = join_parent (drop_filename (reverse_onto path [])) name

unfoldable pub default_key_path : Option Bytes → Bytes
default_key_path none = codes "conspire-onion.key"
default_key_path (some state_path) = beside state_path (codes "onion.key")

module _ (e : Environment) where
  unfoldable pub configured_host : Result ConfigError Bytes
  configured_host = do
    host ←
        present
          (from_environment e (codes "EXTERNAL_ADDRESS") (codes "--host")
            (some (codes "localhost")))
          invalid_host
    require (valid_host host) invalid_host
    ok host

  unfoldable pub port_argument : Bool → Option Bytes
  port_argument use_tls =
      from_environment e (codes "EXTERNAL_PORT") (codes "--port")
        (some (if use_tls then codes "8443" else codes "8080"))

  unfoldable pub configured_port : Bool → Result ConfigError ℕ
  configured_port use_tls = present (parsed (port_argument use_tls)) invalid_port

  unfoldable pub configured_statistics_url : Result ConfigError Bytes
  configured_statistics_url = do
    path ←
        present
          (from_environment e (codes "URL_STATS_PATH") (codes "--url-stats")
            (some (codes "admin/stats.json")))
          invalid_statistics_path
    require (valid_stats_path path) invalid_statistics_path
    ok path

  -- A path that may be absent, but not when its argument is named.
  unfoldable pub optional_path :
      Bytes → Option Bytes → ConfigError → ConfigError → Result ConfigError (Option Bytes)
  optional_path name path missing invalid = do
    require (not (e.has_argument name && elim path [ none ↦ true | some p ↦ false ])) missing
    require (valid_if_set path) invalid
    ok path

  unfoldable pub configured_state_path : Result ConfigError (Option Bytes)
  configured_state_path =
      optional_path (codes "--stats-state")
        (from_environment e (codes "STATS_STATE_PATH") (codes "--stats-state") none)
        missing_statistics_state_path invalid_statistics_state_path

  unfoldable pub configured_control_socket : Result ConfigError (Option Bytes)
  configured_control_socket =
      optional_path (codes "--tor-control-socket")
        (from_environment e (codes "TOR_CONTROL_SOCKET") (codes "--tor-control-socket")
          (some (codes "/run/tor/control")))
        missing_tor_control_socket invalid_tor_control_socket

  unfoldable pub configured_control_host : Result ConfigError Bytes
  configured_control_host = do
    host ←
        present
          (from_environment e (codes "TOR_CONTROL_HOST") (codes "--tor-control-host")
            (some (codes "127.0.0.1")))
          tor_control_host_not_loopback
    require (valid_loopback_host host) tor_control_host_not_loopback
    ok host

  -- A port that is not 0.
  unfoldable pub nonzero_port : Option Bytes → ConfigError → Result ConfigError ℕ
  nonzero_port text invalid = do
    port ← present (parsed text) invalid
    require (not (port == 0)) invalid
    ok port

  unfoldable pub configured_control_port : Result ConfigError ℕ
  configured_control_port =
      nonzero_port
        (from_environment e (codes "TOR_CONTROL_PORT") (codes "--tor-control-port")
          (some (codes "9051")))
        invalid_tor_control_port

  unfoldable pub default_backend_port : Bool → ℕ → Bytes
  default_backend_port use_tls port =
      if use_tls
      then if port == 8080 then codes "8081" else codes "8080"
      else value_or (port_argument use_tls) []

  unfoldable pub backend_argument : Bool → ℕ → Option Bytes
  backend_argument use_tls port =
      from_environment e (codes "TOR_BACKEND_PORT") (codes "--tor-backend-port")
        (some (default_backend_port use_tls port))

  unfoldable pub configured_backend_port : Bool → Bool → ℕ → Result ConfigError ℕ
  configured_backend_port use_tls tor_enabled port = do
    backend ← present (parsed (backend_argument use_tls port)) invalid_tor_backend_port
    require (not (tor_enabled && (backend == 0 || use_tls && backend == port)))
        invalid_tor_backend_port
    ok backend

  unfoldable pub configured_virtual_port : Result ConfigError ℕ
  configured_virtual_port =
      nonzero_port
        (from_environment e (codes "TOR_VIRTUAL_PORT") (codes "--tor-virtual-port")
          (some (codes "80")))
        invalid_tor_virtual_port

  unfoldable pub configured_key_path : Option Bytes → Result ConfigError Bytes
  configured_key_path state_path =
      let given = from_environment e (codes "TOR_KEY_PATH") (codes "--tor-key") none in
      let path = value_or given (default_key_path state_path) in
      do
        require
            (not
              (e.has_argument (codes "--tor-key") && elim given [ none ↦ true | some p ↦ false ]))
            missing_tor_key_path
        require (valid_state_file_path path) invalid_tor_key_path
        ok path

  -- The paths of the certificate, read only where TLS is on.
  unfoldable pub tls_path : Bool → Bytes → Bytes → Bytes → Option Bytes
  tls_path use_tls variable name default =
      if use_tls then from_environment e variable name (some default) else none

  unfoldable pub from_command_line : Build → Result ConfigError ConfigDto
  from_command_line build =
      let use_tls = e.has_argument (codes "--tls") in
      let tor_enabled = not (e.has_argument (codes "--no-tor")) in
      do
        host ← configured_host
        port ← configured_port use_tls
        statistics_url ← configured_statistics_url
        state_path ← configured_state_path
        control_socket ← configured_control_socket
        control_host ← configured_control_host
        control_port ← configured_control_port
        backend_port ← configured_backend_port use_tls tor_enabled port
        virtual_port ← configured_virtual_port
        key_path ← configured_key_path state_path
        ok (record unset {
          use_tls = use_tls;
          host = some host;
          port = some port;
          tls_private_key_path =
              tls_path use_tls (codes "TLS_FILE_PRIVATE_KEY") (codes "--tls-key")
                build.cert_pem_path;
          tls_certificate_chain_path =
              tls_path use_tls (codes "TLS_FILE_CERT_CHAIN") (codes "--tls-chain")
                build.cert_crt_path;
          statistics_url = some statistics_url;
          statistics_state_path = state_path;
          tor_enabled = tor_enabled;
          tor_control_socket = control_socket;
          tor_control_host = some control_host;
          tor_control_port = some control_port;
          tor_backend_port = some backend_port;
          tor_virtual_port = some virtual_port;
          tor_key_path = some key_path;
          pid_file_path = e.get_named_argument_value (codes "--pid") none;
          version = some build.version;
        })
