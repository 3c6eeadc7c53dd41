-- ===== src/Config.antt =====
-- server/src/utils/ConfigValidation.hpp: ports, hosts, paths and the URLs built of them.
pub mod Port
pub mod Dto
pub mod Arguments
use conspire.Prelude.{
  ℕ, ◌+◌, ◌-◌, ◌*◌, ◌≤◌, ◌≡◌, Bool, true, false, not, ◌&&◌, ◌||◌, List, [], ◌∷◌, ◌++◌, Option, none,
  some, arith, ltb, leb, ◌==◌, length, if◌then◌else◌,
}
use conspire.Prelude.Bytes.{Bytes, codes, within, same}
use conspire.Prelude.Decimal.{port_text}
use conspire.Boundaries.Text.{is_empty, contains_control, valid_relative_path}

-- The loop; `port` is at most 65535 at its head, so that the 32 bits suffice.
unfoldable pub parse_digits : ℕ → Bytes → Option ℕ
parse_digits port [] = some port
parse_digits port (c ∷ cs) =
    let next = port * 10 + (c - b'0') in
    elim (within b'0' b'9' c) [
      | false ↦ none
      | true ↦ elim (ltb 65535 next) [ true ↦ none | false ↦ parse_digits next cs ]
    ]

unfoldable pub parse_port : Bytes → Option ℕ
unfolding parse_digits
parse_port value = if is_empty value then none else parse_digits 0 value

unfoldable pub valid_stats_path : Bytes → Bool
valid_stats_path path = valid_relative_path path && leb (length path) 128

unfoldable pub valid_state_file_path : Bytes → Bool
valid_state_file_path path =
    not (is_empty path) && leb (length path) 4096 && not (contains_control path)

unfoldable pub valid_loopback_host : Bytes → Bool
valid_loopback_host host =
    same host (codes "127.0.0.1") || same host (codes "::1") || same host (codes "localhost")

unfoldable pub canonical_base_url : Bytes → ℕ → Bool → Bytes
canonical_base_url host port use_tls =
    let default_port = if use_tls then 443 else 80 in
    let url = (if use_tls then codes "https://" else codes "http://") ++ host in
    if port == default_port then url else url ++ (b':' ∷ port_text port)

unfoldable pub websocket_base_url : Bytes → ℕ → Bool → Bytes
websocket_base_url host port use_tls =
    (if use_tls then codes "wss://" else codes "ws://") ++ (host ++ (b':' ∷ port_text port))
