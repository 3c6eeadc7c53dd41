-- ===== src/Tests/Configs.antt =====
-- The configuration at concrete inputs.
use conspire.Prelude.{◌≤◌, ◌≡◌, ◌↔◌, ◌⊎◌, refl, true, false, [], ◌++◌, none, some, if◌then◌else◌}
use conspire.Prelude.Bytes.{Bytes, codes, same, All, find, is_prefix}
use conspire.Prelude.Result.{Result, ok, err}
use conspire.Boundaries.Text.{
  is_empty, valid_host, contains_control, is_host_byte, valid_relative_path, begins_with, is_none,
  is_alphanumeric,
}
use conspire.Config.{
  parse_port, parse_digits, valid_stats_path, valid_loopback_host, valid_state_file_path,
}
use conspire.Config.Port.{IsDigit, value_after, parse_port_iff}
use conspire.Config.Dto.{
  ConfigDto, unset, is_allowed_origin, is_onion_request_host, get_host_string,
}
use conspire.Config.Dto.Origins.{page_scheme, is_allowed_origin_iff}
use conspire.Config.Arguments.{
  Environment, Build, ConfigError, from_command_line, configured_host, from_environment,
  configured_port, port_argument, configured_statistics_url, backend_argument, beside,
  configured_backend_port, configured_control_host, configured_control_port,
  configured_control_socket, configured_key_path, configured_state_path, configured_virtual_port,
  default_backend_port, default_key_path, nonzero_port, optional_path, tls_path, drop_filename,
  drop_separators, reverse_onto, join_parent,
}
use conspire.Config.Arguments.Accepted.{IsAccepted, from_command_line-IsAccepted}

parse_port_iff_example : (parse_port (codes "08080") ≡ some 8080) ↔ (
    (is_empty (codes "08080") ≡ false)
    × All IsDigit (codes "08080")
    × (value_after 0 (codes "08080") ≡ 8080)
    × (8080 ≤ 65535))
parse_port_iff_example = parse_port_iff (codes "08080") 8080

abbrev site : ConfigDto
site = record unset {
  host = some (codes "chat.example");
  port = some 8443;
  use_tls = true;
  onion_host = some (codes "abc.onion");
  tor_virtual_port = some 80;
}

is_allowed_origin_iff_example : (is_allowed_origin site (codes "http://abc.onion") false ≡ true) ↔ (
    (codes "http://abc.onion" ≡ page_scheme true ++ get_host_string [] [] site)
    ⊎ ((onion : Bytes) × (is_onion_request_host site onion ≡ true)
        × (codes "http://abc.onion" ≡ page_scheme false ++ onion)))
is_allowed_origin_iff_example =
    is_allowed_origin_iff [] [] site (codes "chat.example") 8443 (codes "http://abc.onion") refl
      refl

-- A server with TLS on another port than the default, named on the command line.
abbrev environment : Environment
environment = record {
  has_argument = λ name. same name (codes "--tls");
  get_named_argument_value =
      λ name default. if same name (codes "--port") then some (codes "443") else default;
  getenv = λ name. none;
}

abbrev build : Build
build = record {
  cert_pem_path = codes "key.pem";
  cert_crt_path = codes "cert.crt";
  version = codes "1";
}

unfoldable config_of : Result ConfigError ConfigDto → ConfigDto
config_of (ok c) = c
config_of (err e) = unset

starts : from_command_line environment build ≡ ok (config_of (from_command_line environment build))
unfolding config_of from_command_line parse_port same is_empty find is_prefix configured_host
    from_environment configured_port port_argument configured_statistics_url backend_argument beside
    configured_backend_port configured_control_host configured_control_port
    configured_control_socket configured_key_path configured_state_path configured_virtual_port
    default_backend_port default_key_path nonzero_port optional_path tls_path drop_filename
    drop_separators reverse_onto join_parent parse_digits valid_stats_path valid_loopback_host
    valid_state_file_path valid_host contains_control is_host_byte valid_relative_path begins_with
    is_none is_alphanumeric
starts = refl

from_command_line-IsAccepted_example : IsAccepted (config_of (from_command_line environment build))
from_command_line-IsAccepted_example =
    from_command_line-IsAccepted environment build (config_of (from_command_line environment build))
      starts
