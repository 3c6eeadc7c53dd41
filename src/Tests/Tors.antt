-- ===== src/Tests/Tors.antt =====
-- The Tor control connection at concrete inputs.
use conspire.Prelude.{
  ◌≡◌, ◌≢◌, ◌⊎◌, refl, true, false, [], ◌∷◌, ◌++◌, List, none, some, arith, replicate,
}
use conspire.Prelude.Bytes.{Bytes, codes, All, find, is_prefix, same}
use conspire.Prelude.Result.{ok, err}
use conspire.Boundaries.Text.{is_empty}
use conspire.Tor.Text.{
  quoted_value, hex_encode, hex_letter, hex_decode, decode_pairs, decoded_byte, nibble, read_quoted,
  is_octal, escaped_byte, opened, prepend, until, field_text, field_value, onto_first, split_commas,
  is_token, contains_method,
}
use conspire.Tor.Text.Quoted.{quote, quote_body, quote_byte, quoted_value-quote}
use conspire.Tor.Wire.{
  OnionService, Received, read_interrupted, received, wrote, TorError, invalid_command, read_reply,
  write_command, send_command, send_all, is_command, contains_byte, split_line, at_head, read_from,
  read_line, reply_line, is_digit, judge_parts, judge, reply_loop,
}
use conspire.Tor.Wire.Replies.{Leaves, print_reply, numbered, reply_size, read_reply-print_reply}
use conspire.Tor.Wire.Commands.{is_unbounded, read_reply_total, Writes, write_command_lem}
use conspire.Tor.Service.{
  System, Options, absent, authenticate, first_with, sized_32, both, challenge_values, read_cookie,
  safe_cookie, unauthenticated, connect_control, stop, start,
}
use conspire.Tor.Service.Authentic.{IsTrusted, authenticate-IsTrusted}
use conspire.Tor.Service.Outcome.{IsInactive, IsPublished, start_outcome}

abbrev line_end : Bytes
line_end = 13 ∷ 10 ∷ []

quoted_value-quote_example :
    quoted_value
      (codes "AUTH COOKIEFILE=" ++ (quote (codes "/a\"b") ++ codes " X=1"))
      (codes "COOKIEFILE=")
    ≡ some (codes "/a\"b")
quoted_value-quote_example =
    quoted_value-quote (codes "AUTH ") (codes "COOKIEFILE=") (codes "/a\"b") (codes " X=1")
      (unfold find is_prefix quote quote_body quote_byte in refl) (omega arith)

-- A service on a connection that delivers its answers in pieces.
abbrev service : List Received → OnionService
service answers = record {
  descriptor = some 3;
  service_id = [];
  hostname = [];
  control_endpoint = codes "tcp:127.0.0.1:9051";
  read_buffer = [];
  incoming = answers;
  outgoing = wrote 3 ∷ wrote 4000 ∷ wrote 4000 ∷ wrote 4000 ∷ [];
  sent = [];
}

abbrev pieces : List Received
pieces = received (codes "250 O") ∷ read_interrupted ∷ received (codes "K" ++ line_end) ∷ []

read_reply-print_reply_example :
    Leaves (record { status = 250; lines = codes "OK" ∷ [] }) [] (read_reply (service pieces))
read_reply-print_reply_example =
    read_reply-print_reply 250 (codes "OK") [] [] (service pieces) (omega arith)
      (unfold reply_size in omega arith) (omega arith) (λ e. cc e, (λ e. cc e, tt))
      (unfold print_reply numbered in refl)

read_reply_total_example : is_unbounded (read_reply (service pieces)).0 ≡ false
read_reply_total_example = read_reply_total (service pieces)

write_command_lem_example :
    ((write_command (codes "QUIT") (service [])).0 ≡ err invalid_command)
      × ((write_command (codes "QUIT") (service [])).1.sent ≡ [])
    ⊎ All (λ c. (c ≢ 13) × (c ≢ 10)) (codes "QUIT")
      × Writes (codes "QUIT" ++ line_end) [] (
        (write_command (codes "QUIT") (service [])).0,
        (write_command (codes "QUIT") (service [])).1.outgoing,
        (write_command (codes "QUIT") (service [])).1.sent,
      )
write_command_lem_example = write_command_lem (codes "QUIT") (service [])

-- A server that knows the cookie; the keyed hash is a constant here.
abbrev ones : Bytes
ones = replicate 32 1

abbrev zeroes : Bytes
zeroes = replicate 32 0

abbrev dialogue : List Received
dialogue =
    received (
      codes "250-AUTH METHODS=COOKIE,SAFECOOKIE COOKIEFILE=\"/c\""
      ++ (line_end ++ (codes "250 OK" ++ line_end)))
    ∷ received (
        codes "250 AUTHCHALLENGE SERVERHASH="
        ++ (hex_encode ones ++ (codes " SERVERNONCE=" ++ (hex_encode zeroes ++ line_end))))
    ∷ received (codes "250 OK" ++ line_end)
    ∷ []

abbrev system : System
system = record {
  connect_unix = λ path. none;
  resolve = λ host port. some (
      none
      ∷ some (record {
        descriptor = 3;
        incoming = dialogue;
        outgoing = wrote 4000 ∷ wrote 4000 ∷ wrote 4000 ∷ wrote 4000 ∷ [];
      })
      ∷ []);
  read_file = λ path. some zeroes;
  key_file = λ path. absent;
  key_disk = record {
    create_directories = true;
    mkstemp = true;
    fchmod = true;
    writes = [];
    fsync = true;
    close = true;
    rename = true;
  };
  random_nonce = some zeroes;
  hmac_sha256 = λ key message. ones;
}

authenticated :
    (authenticate system (service dialogue)).0
    ≡ ok (record { status = 250; lines = codes "OK" ∷ [] })
unfolding authenticate safe_cookie unauthenticated first_with sized_32 both challenge_values
    read_cookie send_command write_command send_all is_command contains_byte split_line at_head
    read_from read_line reply_line is_digit judge_parts judge reply_loop read_reply find is_prefix
    same is_empty hex_encode hex_letter hex_decode decode_pairs decoded_byte nibble read_quoted
    is_octal escaped_byte opened prepend until field_text field_value onto_first split_commas
    is_token contains_method quoted_value
authenticated = refl

authenticate-IsTrusted_example : IsTrusted system (service dialogue)
authenticate-IsTrusted_example =
    authenticate-IsTrusted system (service dialogue)
      (record { status = 250; lines = codes "OK" ∷ [] }) authenticated

abbrev options : Options
options = record {
  control_socket = codes "/run/tor/control";
  control_host = codes "127.0.0.1";
  control_port = 9051;
  key_path = codes "onion.key";
  target_host = codes "127.0.0.1";
  target_port = 8080;
  virtual_port = 80;
}

start_outcome_example :
    ((e : TorError) × ((start system options (service [])).0 ≡ err e)
      × IsInactive (start system options (service [])).1)
    ⊎ ((start system options (service [])).0 ≡ ok tt)
      × IsPublished system
          (connect_control system options (stop (service []))).1
          (start system options (service [])).1
start_outcome_example = start_outcome system options (service [])
