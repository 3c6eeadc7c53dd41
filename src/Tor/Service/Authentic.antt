-- ===== src/Tor/Service/Authentic.antt =====
-- A successful authentication has verified the server, or is on a Unix socket.
use conspire.Prelude.{
  ◌≡◌, refl, sym, ap, ◌∙◌, Bool, true, false, ◌&&◌, ◌++◌, Option, none, some, arith, Bool-cases,
  inl, inr,
}
use conspire.Prelude.Bytes.{Bytes, codes, same, same_iff, is_prefix}
use conspire.Prelude.Result.{Result, ok, err}
use conspire.Tor.Text.{hex_encode, quoted_value, field_text, contains_method}
use conspire.Tor.Wire.{
  OnionService, TorError, Action, next, ◌>>=◌, ensure, present, Reply, send_command,
  invalid_cookie_path, unreadable_cookie, nonce_failed, empty_challenge, malformed_challenge,
  server_authentication_failed, methods_omitted,
}
use conspire.Tor.Service.{
  System, server_hash_key, client_hash_key, front, challenge_values, read_cookie, safe_cookie,
  unauthenticated, authenticate, first_with,
}
use conspire.Tor.Service.Frame.{
  Keeps, >>=-Keeps, ensure-Keeps, present-Keeps, send_command-Keeps, same_refl,
}

next_elim {ℓ κ} :
    {A : Type ℓ} {B : Type κ} {P : Type 0} (outcome : Result TorError A × OnionService)
    (f : A → Action B) {b : B}
    → (next f outcome).0 ≡ ok b
    → ((a : A) → outcome.0 ≡ ok a → (f a outcome.1).0 ≡ ok b → P)
    → P
next_elim (ok a, s') f h k = k a refl h
next_elim (err e, s') f h k = absurd (cc h)

-- A link that asks for a value: it was there, and the rest succeeded in the same state.
present_elim {ℓ κ} :
    {A : Type ℓ} {B : Type κ} {P : Type 0} (value : Option A) (e : TorError) (f : A → Action B)
    {b : B} (s : OnionService)
    → ((present value e >>= f) s).0 ≡ ok b
    → ((a : A) → value ≡ some a → (f a s).0 ≡ ok b → P)
    → P
present_elim none e f s h k = absurd (cc h)
present_elim (some a) e f s h k = k a refl h

pub ensure-eq-ok :
    (test : Bool) (e : TorError) (s : OnionService) {u : Unit {0}}
    → (ensure test e s).0 ≡ ok u
    → test ≡ true
ensure-eq-ok true e s h = refl
ensure-eq-ok false e s h = absurd (cc h)

-- A link that sends a command: it got a reply, and the rest succeeded in the state after it.
sent_elim {ℓ κ} :
    {A : Type ℓ} {B : Type κ} {P : Type 0} (m : Action A) (f : A → Action B) {b : B}
    (s : OnionService)
    → ((m >>= f) s).0 ≡ ok b
    → ((a : A) → (m s).0 ≡ ok a → (f a (m s).1).0 ≡ ok b → P)
    → P
sent_elim m f s h k = next_elim (m s) f h k

module _ (system : System) where
  -- What the server answered to the challenge on this connection: the hash in the first line of its
  -- reply is the keyed hash of the cookie, of the nonce that was sent and of the nonce in that line.
  pub record HasProved (cookie nonce : Bytes) (challenge : Reply) : Type 0 where
    pub line : Bytes
    pub server_hash : Bytes
    pub server_nonce : Bytes
    pub first_line : front challenge.lines ≡ some line
    pub values : challenge_values line ≡ some (server_hash, server_nonce)
    pub verified :
        system.hmac_sha256 server_hash_key (cookie ++ (nonce ++ server_nonce)) ≡ server_hash

  -- The server's proof on a service after the server's AUTH line: it knows the cookie in the file
  -- that the line names, by its reply to the challenge with a nonce drawn here.
  pub record IsProved (auth_line : Bytes) (s : OnionService) : Type 0 where
    pub path : Bytes
    pub cookie : Bytes
    pub nonce : Bytes
    pub challenge : Reply
    pub named : quoted_value auth_line (codes "COOKIEFILE=") ≡ some path
    pub contents : read_cookie system path ≡ some cookie
    pub drawn : system.random_nonce ≡ some nonce
    pub answered :
        (send_command (codes "AUTHCHALLENGE SAFECOOKIE " ++ hex_encode nonce) s).0 ≡ ok challenge
    pub proved : HasProved cookie nonce challenge

  -- Why the other end of a connection may be trusted, by the replies that the server gives on it:
  -- it offers safe cookies and knows the cookie, or it offers no authentication on a Unix socket.
  pub data IsTrusted (s : OnionService) : Type 0 where
    by_cookie :
        (info : Reply) (methods : Bytes)
        → (send_command (codes "PROTOCOLINFO 1") s).0 ≡ ok info
        → field_text (first_with (codes "AUTH ") info.lines) (codes "METHODS=") ≡ some methods
        → contains_method methods (codes "SAFECOOKIE") ≡ true
        → IsProved
            (first_with (codes "AUTH ") info.lines)
            (send_command (codes "PROTOCOLINFO 1") s).1
        → IsTrusted s
    by_socket :
        (info : Reply) (methods : Bytes)
        → (send_command (codes "PROTOCOLINFO 1") s).0 ≡ ok info
        → field_text (first_with (codes "AUTH ") info.lines) (codes "METHODS=") ≡ some methods
        → contains_method methods (codes "SAFECOOKIE") ≡ false
        → contains_method methods (codes "NULL") ≡ true
        → is_prefix (codes "unix:") s.control_endpoint ≡ true
        → IsTrusted s

  safe_cookie-IsProved :
      (auth_line : Bytes) (s : OnionService) (r : Reply)
      → (safe_cookie system auth_line s).0 ≡ ok r
      → IsProved auth_line s
  unfolding safe_cookie
  safe_cookie-IsProved auth_line s r h =
      present_elim (quoted_value auth_line (codes "COOKIEFILE=")) invalid_cookie_path _ s h
        λ path p1 h1.
          present_elim (read_cookie system path) unreadable_cookie _ s h1 λ cookie p2 h2.
            present_elim system.random_nonce nonce_failed _ s h2 λ nonce p3 h3.
              let command = codes "AUTHCHALLENGE SAFECOOKIE " ++ hex_encode nonce in
              let after = (send_command command s).1 in
              sent_elim (send_command command) _ s h3 λ challenge p4 h4.
                present_elim (front challenge.lines) empty_challenge _ after h4 λ line p5 h5.
                  present_elim (challenge_values line) malformed_challenge _ after h5
                    λ (server_hash, server_nonce) p6 h6.
                      let hash =
                        system.hmac_sha256 server_hash_key (cookie ++ (nonce ++ server_nonce)) in
                      sent_elim (ensure (same hash server_hash) server_authentication_failed) _
                        after h6
                        λ u p7 h7. record {
                          path = path;
                          cookie = cookie;
                          nonce = nonce;
                          challenge = challenge;
                          named = p1;
                          contents = p2;
                          drawn = p3;
                          answered = p4;
                          proved = record {
                            line = line;
                            server_hash = server_hash;
                            server_nonce = server_nonce;
                            first_line = p5;
                            values = p6;
                            verified = (same_iff hash server_hash).0 (
                                ensure-eq-ok (same hash server_hash) server_authentication_failed
                                  after p7);
                          };
                        }

  unauthenticated-eq-ok :
      (methods : Bytes) (s : OnionService) (r : Reply)
      → (unauthenticated system methods s).0 ≡ ok r
      → (contains_method methods (codes "NULL") ≡ true)
        × (is_prefix (codes "unix:") s.control_endpoint ≡ true)
  unfolding unauthenticated
  unauthenticated-eq-ok methods s r h = (ground arith, ground arith)

  -- Authentication that succeeds rests on the server's own replies on this connection. Either the
  -- server offered safe cookies, and it answered the nonce drawn here with the keyed hash of the
  -- cookie in the file that it named, of that nonce and of its own nonce. Or it offered to go
  -- without, and the connection is on a Unix socket.
  pub authenticate-IsTrusted :
      (s : OnionService) (r : Reply) → (authenticate system s).0 ≡ ok r → IsTrusted s
  unfolding authenticate
  authenticate-IsTrusted s r h =
      sent_elim (send_command (codes "PROTOCOLINFO 1")) _ s h λ info p1 h1.
        let auth_line = first_with (codes "AUTH ") info.lines in
        let after = (send_command (codes "PROTOCOLINFO 1") s).1 in
        present_elim (field_text auth_line (codes "METHODS=")) methods_omitted _ after h1
          λ methods p2 h2. elim (Bool-cases (contains_method methods (codes "SAFECOOKIE"))) [
            | inl cookie ↦
                by_cookie info methods p1 p2 cookie
                  (safe_cookie-IsProved auth_line after r (rw (cookie) at h2))
            | inr other ↦
                let (null, on_socket) = unauthenticated-eq-ok methods after r (rw (other) at h2) in
                by_socket info methods p1 p2 other null (
                  ap (is_prefix (codes "unix:"))
                    (sym ((send_command-Keeps (codes "PROTOCOLINFO 1")).same s).control_endpoint)
                  ∙ on_socket)
          ]

  safe_cookie-Keeps : (auth_line : Bytes) → Keeps (safe_cookie system auth_line)
  unfolding safe_cookie
  safe_cookie-Keeps auth_line =
      >>=-Keeps (present-Keeps (quoted_value auth_line (codes "COOKIEFILE=")) invalid_cookie_path)
        λ path. >>=-Keeps (present-Keeps (read_cookie system path) unreadable_cookie) λ cookie.
          >>=-Keeps (present-Keeps system.random_nonce nonce_failed) λ nonce.
            >>=-Keeps (send_command-Keeps (codes "AUTHCHALLENGE SAFECOOKIE " ++ hex_encode nonce))
              λ challenge. >>=-Keeps (present-Keeps (front challenge.lines) empty_challenge) λ line.
                >>=-Keeps (present-Keeps (challenge_values line) malformed_challenge) λ values.
                  >>=-Keeps
                    (ensure-Keeps
                      (same (system.hmac_sha256 server_hash_key (cookie ++ (nonce ++ values.1)))
                        values.0)
                      server_authentication_failed)
                    λ u. send_command-Keeps (
                      codes "AUTHENTICATE "
                      ++ hex_encode
                          (system.hmac_sha256 client_hash_key (cookie ++ (nonce ++ values.1))))

  unauthenticated-Keeps : (methods : Bytes) → Keeps (unauthenticated system methods)
  unfolding unauthenticated
  unauthenticated-Keeps methods = record {
    same = λ s.
        elim (Bool-cases (
          contains_method methods (codes "NULL") && is_prefix (codes "unix:") s.control_endpoint)) [
            | inl allowed ↦ rw (allowed) ((send_command-Keeps (codes "AUTHENTICATE")).same s)
            | inr denied ↦ rw (denied) (same_refl s)
          ];
  }

  pub authenticate-Keeps : Keeps (authenticate system)
  unfolding authenticate
  authenticate-Keeps = >>=-Keeps (send_command-Keeps (codes "PROTOCOLINFO 1")) λ info.
      >>=-Keeps
        (present-Keeps (field_text (first_with (codes "AUTH ") info.lines) (codes "METHODS="))
          methods_omitted)
        λ methods. elim (Bool-cases (contains_method methods (codes "SAFECOOKIE"))) [
          | inl cookie ↦ rw (cookie) (safe_cookie-Keeps (first_with (codes "AUTH ") info.lines))
          | inr other ↦ rw (other) (unauthenticated-Keeps methods)
        ]
