-- ===== src/Tor/Service.antt =====
-- Authentication, publication and withdrawal of the onion service (server/src/utils/TorControl.cpp).
pub mod Frame
pub mod Authentic
pub mod Outcome
use conspire.Prelude.{
  ℕ, zero, suc, ◌+◌, ◌-◌, ◌≡◌, Bool, true, false, not, ◌&&◌, ◌||◌, List, [], ◌∷◌, ◌++◌, Option,
  none, some, ltb, leb, ◌==◌, length, drop, if◌then◌else◌,
}
use conspire.Prelude.Bytes.{Bytes, codes, same, is_prefix}
use conspire.Prelude.Result.{Result, ok, err}
use conspire.Prelude.Decimal.{port_text}
use conspire.Boundaries.Text.{is_empty}
use conspire.Statistics.State as Disk
use conspire.Tor.Text.{
  hex_encode, hex_decode, quoted_value, field_text, field_value, contains_method, valid_service_id,
  valid_private_key,
}
use conspire.Tor.Wire.{
  OnionService, Received, Written, TorError, Action, next, ◌>>=◌, ◌>>◌, return, fail, ensure,
  present, Reply, send_command, write_command, methods_omitted, invalid_cookie_path,
  unreadable_cookie, nonce_failed, empty_challenge, malformed_challenge,
  server_authentication_failed, no_method, invalid_key, invalid_service_id, invalid_returned_key,
  key_not_saved, control_unavailable,
}

pub record Options : Type 0 where
  pub control_socket : Bytes
  pub control_host : Bytes
  pub control_port : ℕ
  pub key_path : Bytes
  pub target_host : Bytes
  pub target_port : ℕ
  pub virtual_port : ℕ

-- An open connection: its descriptor, and how the system will answer on it.
pub record Link : Type 0 where
  pub descriptor : ℕ
  pub incoming : List Received
  pub outgoing : List Written

-- The key file as `open`, `fstat` and `read` show it. `content` is `none` where reading fails or
-- stops short of the size.
pub record KeyStat : Type 0 where
  pub is_regular : Bool
  pub is_private : Bool
  pub size : ℕ
  pub content : Option Bytes

pub data KeyFile : Type 0 where
  absent unopened : KeyFile
  opened : KeyStat → KeyFile

-- Whether each system call of `savePrivateKey` succeeds. The directory is made only where the path
-- has one.
pub record KeyDisk : Type 0 where
  pub create_directories : Bool
  pub mkstemp : Bool
  pub fchmod : Bool
  pub writes : List Disk.Written
  pub fsync : Bool
  pub close : Bool
  pub rename : Bool

-- The system and OpenSSL: connecting, files, random bytes and the keyed hash.
pub record System : Type 0 where
  pub connect_unix : Bytes → Option Link
  pub resolve : Bytes → ℕ → Option (List (Option Link))
  pub read_file : Bytes → Option Bytes
  pub key_file : Bytes → KeyFile
  pub key_disk : KeyDisk
  pub random_nonce : Option Bytes
  pub hmac_sha256 : Bytes → Bytes → Bytes

abbrev pub server_hash_key : Bytes
server_hash_key = codes "Tor safe cookie authentication server-to-controller hash"

abbrev pub client_hash_key : Bytes
client_hash_key = codes "Tor safe cookie authentication controller-to-server hash"

-- The first line that begins with the prefix, and none is the empty text.
unfoldable pub first_with : Bytes → List Bytes → Bytes
first_with prefix [] = []
first_with prefix (line ∷ lines) =
    let rest = first_with prefix lines in if is_prefix prefix line then line else rest

unfoldable pub reply_value : Reply → Bytes → Bytes
unfolding first_with
reply_value reply prefix = drop (length prefix) (first_with prefix reply.lines)

abbrev pub front : List Bytes → Option Bytes
front [] = none
front (line ∷ lines) = some line

-- `!value || value->size() != 32`
unfoldable pub sized_32 : Option Bytes → Option Bytes
sized_32 none = none
sized_32 (some value) = if length value == 32 then some value else none

unfoldable pub both {ℓ} : {A : Type ℓ} → Option A → Option A → Option (A × A)
both (some a) (some b) = some (a, b)
both a b = none

-- The server's hash and nonce of a challenge.
unfoldable pub challenge_values : Bytes → Option (Bytes × Bytes)
unfolding sized_32 both
challenge_values line =
    both (sized_32 (hex_decode (field_value line (codes "SERVERHASH="))))
      (sized_32 (hex_decode (field_value line (codes "SERVERNONCE="))))

pub data KeyLoadResult : Type 0 where
  missing_key bad_key : KeyLoadResult
  valid_key : Bytes → KeyLoadResult

-- Line ends at the end of the text are dropped.
unfoldable pub trim_line_ends : Bytes → Bytes
trim_line_ends [] = []
trim_line_ends (c ∷ cs) =
    let rest = trim_line_ends cs in if is_empty rest && (c == 10 || c == 13) then [] else c ∷ rest

unfoldable pub load_content : Option Bytes → KeyLoadResult
unfolding trim_line_ends
load_content none = bad_key
load_content (some content) =
    let key = trim_line_ends content in if valid_private_key key then valid_key key else bad_key

unfoldable pub load_private_key : KeyFile → KeyLoadResult
unfolding load_content
load_private_key absent = missing_key
load_private_key unopened = bad_key
load_private_key (opened stat) =
    if not stat.is_regular || not stat.is_private || stat.size == 0 || ltb 1024 stat.size
    then bad_key
    else load_content stat.content

-- close; the answers go with the descriptor
unfoldable pub close_connection : OnionService → OnionService
close_connection s = record s {
  descriptor = none;
  incoming = [];
  outgoing = [];
  read_buffer = [];
  control_endpoint = [];
}

unfoldable pub has_descriptor : OnionService → Bool
has_descriptor s = elim s.descriptor [ none ↦ false | some d ↦ true ]

unfoldable pub withdraw : OnionService → OnionService
withdraw s =
    let deleted = (send_command (codes "DEL_ONION " ++ s.service_id) s).1 in
    (write_command (codes "QUIT") deleted).1

unfoldable pub stop : OnionService → OnionService
unfolding withdraw close_connection has_descriptor
stop s =
    let s' = if has_descriptor s && not (is_empty s.service_id) then withdraw s else s in
    record (close_connection s') { service_id = []; hostname = [] }

abbrev pub attach : Link → Bytes → OnionService → OnionService
attach link endpoint s = record s {
  descriptor = some link.descriptor;
  incoming = link.incoming;
  outgoing = link.outgoing;
  control_endpoint = endpoint;
}

-- The loop of `connectTcp` over the addresses: the first that can be connected to.
unfoldable pub first_link : List (Option Link) → Option Link
first_link [] = none
first_link (some link ∷ links) = some link
first_link (none ∷ links) = first_link links

-- `none` is a host that does not resolve.
unfoldable pub connect_tcp : Option (List (Option Link)) → Option Link
unfolding first_link
connect_tcp none = none
connect_tcp (some links) = first_link links

-- The calls on the temporary file, in their order. `writeAll` is word for word that of
-- Statistics.cpp.
unfoldable pub replace_key : KeyDisk → Bytes → Bool
replace_key disk content =
    disk.create_directories
    && disk.mkstemp
    && disk.fchmod
    && (Disk.write_all content disk.writes []).0
    && disk.fsync
    && disk.close
    && disk.rename

module _ (system : System) where
  unfoldable pub read_cookie : Bytes → Option Bytes
  read_cookie path = sized_32 (system.read_file path)

  unfoldable pub save_private_key : Bytes → Bytes → Bool
  save_private_key path key =
      if is_empty path || not (valid_private_key key)
      then false
      else replace_key system.key_disk (key ++ 10 ∷ [])

  -- The path of a Unix socket has room for 107 bytes and its end.
  unfoldable pub open_unix : Bytes → Option Link
  open_unix path = if is_empty path || leb 108 (length path) then none else system.connect_unix path

  -- The outcomes of the two ways; the second is tried where the first has none.
  unfoldable pub connect_either : Options → Option Link → Option Link → Action (Unit {0})
  connect_either options (some link) tcp s =
      (ok tt, attach link (codes "unix:" ++ options.control_socket) s)
  connect_either options none (some link) s = (
    ok tt,
    attach link (codes "tcp:" ++ (options.control_host ++ (b':' ∷ port_text options.control_port)))
        s,
  )
  connect_either options none none s = (err control_unavailable, s)

  unfoldable pub connect_control : Options → Action (Unit {0})
  unfolding open_unix connect_either
  connect_control options =
      connect_either options (open_unix options.control_socket)
        (connect_tcp (system.resolve options.control_host options.control_port))

  unfoldable pub safe_cookie : Bytes → Action Reply
  unfolding read_cookie
  safe_cookie auth_line = do
    path ← present (quoted_value auth_line (codes "COOKIEFILE=")) invalid_cookie_path
    cookie ← present (read_cookie path) unreadable_cookie
    nonce ← present system.random_nonce nonce_failed
    challenge ← send_command (codes "AUTHCHALLENGE SAFECOOKIE " ++ hex_encode nonce)
    line ← present (front challenge.lines) empty_challenge
    values ← present (challenge_values line) malformed_challenge
    let message = cookie ++ (nonce ++ values.1)
    ensure (same (system.hmac_sha256 server_hash_key message) values.0) server_authentication_failed
    send_command (codes "AUTHENTICATE " ++ hex_encode (system.hmac_sha256 client_hash_key message))

  -- NULL, on a Unix socket only
  unfoldable pub unauthenticated : Bytes → Action Reply
  unauthenticated methods s =
      if contains_method methods (codes "NULL") && is_prefix (codes "unix:") s.control_endpoint
      then send_command (codes "AUTHENTICATE") s
      else (err no_method, s)

  unfoldable pub authenticate : Action Reply
  unfolding safe_cookie unauthenticated
  authenticate = do
    info ← send_command (codes "PROTOCOLINFO 1")
    let auth_line = first_with (codes "AUTH ") info.lines
    methods ← present (field_text auth_line (codes "METHODS=")) methods_omitted
    if contains_method methods (codes "SAFECOOKIE")
        then safe_cookie auth_line
        else unauthenticated methods

  abbrev pub add_command : Options → Bytes → Bytes
  add_command options key =
      codes "ADD_ONION "
      ++ (key
          ++ (codes " Port="
              ++ (port_text options.virtual_port
                  ++ (b',' ∷ (options.target_host ++ (b':' ∷ port_text options.target_port))))))

  -- A key that the source could not save withdraws the service again.
  unfoldable pub store_key : Options → Bytes → Bytes → Action (Unit {0})
  unfolding save_private_key
  store_key options service_id key s =
      if save_private_key options.key_path key
      then (ok tt, s)
      else (err key_not_saved, (send_command (codes "DEL_ONION " ++ service_id) s).1)

  unfoldable pub keep_key : Options → Bytes → Reply → Bool → Action (Unit {0})
  unfolding store_key
  keep_key options service_id added false = return tt
  keep_key options service_id added true = do
    ensure (valid_private_key (reply_value added (codes "PrivateKey="))) invalid_returned_key
    store_key options service_id (reply_value added (codes "PrivateKey="))

  unfoldable pub publish : Bytes → Action (Unit {0})
  publish service_id s =
      (ok tt, record s { service_id = service_id; hostname = service_id ++ codes ".onion" })

  unfoldable pub add_key : Options → Bytes → Bool → Action (Unit {0})
  unfolding keep_key publish
  add_key options key generating = do
    added ← send_command (add_command options key)
    let service_id = reply_value added (codes "ServiceID=")
    ensure (valid_service_id service_id) invalid_service_id
    keep_key options service_id added generating
    publish service_id

  unfoldable pub add_loaded : Options → KeyLoadResult → Action (Unit {0})
  unfolding add_key
  add_loaded options bad_key = fail invalid_key
  add_loaded options missing_key = add_key options (codes "NEW:ED25519-V3") true
  add_loaded options (valid_key key) = add_key options key false

  unfoldable pub add : Options → Action (Unit {0})
  unfolding add_loaded
  add options = add_loaded options (load_private_key (system.key_file options.key_path))

  abbrev pub unless_failed :
      Result TorError (Unit {0}) × OnionService → Result TorError (Unit {0}) × OnionService
  unless_failed (ok u, s) = (ok u, s)
  unless_failed (err e, s) = (err e, close_connection s)

  unfoldable pub bring_up : Options → Action (Unit {0})
  unfolding connect_control authenticate add
  bring_up options = do connect_control options; authenticated ← authenticate; add options

  unfoldable pub start : Options → Action (Unit {0})
  unfolding bring_up
  start options s = unless_failed (bring_up options (stop s))
