-- ===== src/Config/Arguments/Accepted.antt =====
-- What holds of every configuration that `fromCommandLine` returns.

use conspire.Prelude.{
  ℕ, ◌≤◌, ◌<◌, ◌≡◌, ◌≢◌, refl, Bool, true, false, not, [], Option, some, arith, ◌⊎◌,
}
use conspire.Prelude.Bytes.{Bytes, codes}
use conspire.Prelude.Result.{ok, present-eq-ok, >>=-Ensures, ok-Ensures}
use conspire.Boundaries.Text.{valid_host}
use conspire.Config.{valid_stats_path, valid_state_file_path, valid_loopback_host}
use conspire.Config.Port.{parse_port_iff}
use conspire.Config.Dto.{ConfigDto, value_or}
use conspire.Config.Arguments.{
  Environment, ConfigError, invalid_port, backend_argument, parsed, valid_if_set, configured_host,
  configured_port, configured_statistics_url, optional_path, configured_state_path,
  configured_control_socket, configured_control_host, nonzero_port, configured_control_port,
  configured_backend_port, configured_virtual_port, configured_key_path, from_command_line,
  port_argument, Build,
}

parsed_bound : (text : Option Bytes) (port : ℕ) → parsed text ≡ some port → port ≤ 65535
parsed_bound text port h = ((parse_port_iff (value_or text []) port).0 h).3

module _ (e : Environment) where
  configured_host_sound : (host : Bytes) → configured_host e ≡ ok host → valid_host host ≡ true
  unfolding configured_host
  configured_host_sound host h = ground arith

  configured_port_sound :
      (use_tls : Bool) (port : ℕ) → configured_port e use_tls ≡ ok port → port ≤ 65535
  unfolding configured_port
  configured_port_sound use_tls port h =
      parsed_bound (port_argument e use_tls) port
        (present-eq-ok (parsed (port_argument e use_tls)) invalid_port h)

  optional_path_sound :
      (name : Bytes) (path path' : Option Bytes) (missing invalid : ConfigError)
      → optional_path e name path missing invalid ≡ ok path'
      → valid_if_set path' ≡ true
  unfolding optional_path
  optional_path_sound name path path' missing invalid h = ground arith

  nonzero_port_sound :
      (text : Option Bytes) (invalid : ConfigError) (port : ℕ)
      → nonzero_port e text invalid ≡ ok port
      → (0 < port) × (port ≤ 65535)
  unfolding nonzero_port
  nonzero_port_sound text invalid port h = ground (arith, parsed_bound text port)

  configured_backend_port_sound :
      (use_tls tor_enabled : Bool) (port backend : ℕ)
      → configured_backend_port e use_tls tor_enabled port ≡ ok backend
      → (backend ≤ 65535)
        × ((tor_enabled ≡ false) ⊎ (0 < backend) × ((use_tls ≡ false) ⊎ (some port ≢ some backend)))
  unfolding configured_backend_port
  configured_backend_port_sound use_tls tor_enabled port backend h =
      ground (arith, parsed_bound (backend_argument e use_tls port) backend)

  state_path_sound :
      (path : Option Bytes) → configured_state_path e ≡ ok path → valid_if_set path ≡ true
  unfolding configured_state_path
  state_path_sound path h = optional_path_sound _ _ path _ _ h

  control_socket_sound :
      (path : Option Bytes) → configured_control_socket e ≡ ok path → valid_if_set path ≡ true
  unfolding configured_control_socket
  control_socket_sound path h = optional_path_sound _ _ path _ _ h

  control_port_sound :
      (port : ℕ) → configured_control_port e ≡ ok port → (0 < port) × (port ≤ 65535)
  unfolding configured_control_port
  control_port_sound port h = nonzero_port_sound _ _ port h

  virtual_port_sound :
      (port : ℕ) → configured_virtual_port e ≡ ok port → (0 < port) × (port ≤ 65535)
  unfolding configured_virtual_port
  virtual_port_sound port h = nonzero_port_sound _ _ port h

  control_host_sound :
      (host : Bytes) → configured_control_host e ≡ ok host → valid_loopback_host host ≡ true
  unfolding configured_control_host
  control_host_sound host h = ground arith

  statistics_url_sound :
      (path : Bytes) → configured_statistics_url e ≡ ok path → valid_stats_path path ≡ true
  unfolding configured_statistics_url
  statistics_url_sound path h = ground arith

  key_path_sound :
      (state_path : Option Bytes) (path : Bytes)
      → configured_key_path e state_path ≡ ok path
      → valid_state_file_path path ≡ true
  unfolding configured_key_path
  key_path_sound state_path path h = ground arith

some_injective {ℓ} : {A : Type ℓ} {a b : A} → some a ≡ some b → a ≡ b
some_injective p = cc p

-- A value that is set and satisfies `P`.
abbrev pub IsSetWith {ℓ} : {A : Type ℓ} → (A → Type ℓ) → Option A → Type ℓ
IsSetWith {A = A} P value = (a : A) × (value ≡ some a) × P a

-- A configuration that the server may start with.
pub record IsAccepted (c : ConfigDto) : Type 0 where
  pub host : IsSetWith (λ h. valid_host h ≡ true) c.host
  pub port : IsSetWith (λ p. p ≤ 65535) c.port
  pub statistics_url : IsSetWith (λ path. valid_stats_path path ≡ true) c.statistics_url
  pub state_path : valid_if_set c.statistics_state_path ≡ true
  pub control_socket : valid_if_set c.tor_control_socket ≡ true
  pub control_host : IsSetWith (λ h. valid_loopback_host h ≡ true) c.tor_control_host
  pub control_port : IsSetWith (λ p. (0 < p) × (p ≤ 65535)) c.tor_control_port
  pub backend_port :
      IsSetWith
        (λ p.
          (p ≤ 65535)
          × ((c.tor_enabled ≡ false) ⊎ (0 < p) × ((c.use_tls ≡ false) ⊎ (c.port ≢ some p))))
        c.tor_backend_port
  pub virtual_port : IsSetWith (λ p. (0 < p) × (p ≤ 65535)) c.tor_virtual_port
  pub key_path : IsSetWith (λ path. valid_state_file_path path ≡ true) c.tor_key_path

-- A configuration that the command line and the environment produce has a valid host, ports below
-- 65536, valid paths, a loopback host and a port for the Tor control connection, a virtual port
-- that is not 0, and where Tor is on a backend port that is not 0 and with TLS not the port of
-- the server.
pub from_command_line-IsAccepted :
    (e : Environment) (build : Build) (c : ConfigDto)
    → from_command_line e build ≡ ok c
    → IsAccepted c
unfolding from_command_line
from_command_line-IsAccepted e build = >>=-Ensures IsAccepted (configured_host e) _ λ host host_ok.
    >>=-Ensures IsAccepted (configured_port e (e.has_argument (codes "--tls"))) _ λ port port_ok.
      >>=-Ensures IsAccepted (configured_statistics_url e) _ λ url url_ok.
        >>=-Ensures IsAccepted (configured_state_path e) _ λ state state_ok.
          >>=-Ensures IsAccepted (configured_control_socket e) _ λ socket socket_ok.
            >>=-Ensures IsAccepted (configured_control_host e) _ λ control control_ok.
              >>=-Ensures IsAccepted (configured_control_port e) _ λ cport cport_ok.
                >>=-Ensures IsAccepted
                  (configured_backend_port e (e.has_argument (codes "--tls"))
                    (not (e.has_argument (codes "--no-tor"))) port)
                  _
                  λ backend backend_ok.
                    >>=-Ensures IsAccepted (configured_virtual_port e) _ λ virtual virtual_ok.
                      >>=-Ensures IsAccepted (configured_key_path e state) _ λ key key_ok.
                        let backend_sound =
                          configured_backend_port_sound e (e.has_argument (codes "--tls"))
                            (not (e.has_argument (codes "--no-tor"))) port backend backend_ok in
                        ok-Ensures IsAccepted _ record {
                          host = (host, refl, configured_host_sound e host host_ok);
                          port = (
                            port,
                            refl,
                            configured_port_sound e (e.has_argument (codes "--tls")) port port_ok,
                          );
                          statistics_url = (url, refl, statistics_url_sound e url url_ok);
                          state_path = state_path_sound e state state_ok;
                          control_socket = control_socket_sound e socket socket_ok;
                          control_host = (control, refl, control_host_sound e control control_ok);
                          control_port = (cport, refl, control_port_sound e cport cport_ok);
                          backend_port = (backend, refl, (backend_sound.0, backend_sound.1));
                          virtual_port = (virtual, refl, virtual_port_sound e virtual virtual_ok);
                          key_path = (key, refl, key_path_sound e state key key_ok);
                        }
