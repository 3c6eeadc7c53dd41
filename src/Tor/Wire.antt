-- ===== src/Tor/Wire.antt =====
-- The control connection: commands out, lines and replies in.
pub mod Lines
pub mod Replies
pub mod Commands
use conspire.Prelude.{
  ℕ, zero, suc, ◌+◌, ◌-◌, ◌*◌, ◌/◌, ◌≡◌, Bool, true, false, not, ◌&&◌, ◌||◌, List, [], ◌∷◌, ◌++◌,
  Option, none, some, ltb, leb, ◌==◌, length, take, drop, if◌then◌else◌,
}
use conspire.Prelude.Bytes.{Bytes, codes, within}
use conspire.Prelude.Result.{Result, ok, err}
use conspire.Boundaries.Text.{is_empty}

-- The messages of the source, less the system's own words.
pub data TorError : Type 0 where
  invalid_command write_failed write_closed : TorError
  line_too_long read_failed read_closed malformed_reply unsupported_framing reply_unbounded :
      TorError
  rejected : ℕ → TorError
  methods_omitted invalid_cookie_path unreadable_cookie nonce_failed : TorError
  empty_challenge malformed_challenge server_authentication_failed no_method : TorError
  invalid_key invalid_service_id invalid_returned_key key_not_saved : TorError
  control_unavailable : TorError

-- What the system answers to `::send` and `::recv`: an interruption (EINTR), another error, or a
-- count or bytes, where none mean that the connection is closed.
pub data Written : Type 0 where
  write_interrupted write_error : Written
  wrote : ℕ → Written

pub data Received : Type 0 where
  read_interrupted read_error : Received
  received : Bytes → Received

-- `none` is the descriptor -1. The answers to come belong to the open descriptor, and after the
-- last of them every call fails. `sent` is everything that was ever written.
pub record OnionService : Type 0 where
  pub descriptor : Option ℕ
  pub service_id : Bytes
  pub hostname : Bytes
  pub control_endpoint : Bytes
  pub read_buffer : Bytes
  pub incoming : List Received
  pub outgoing : List Written
  pub sent : Bytes

-- A method with an error text: `false` is `err`, and the state changes on both ways.
abbrev pub Action {ℓ} : Type ℓ → Type ℓ
Action A = OnionService → Result TorError A × OnionService

abbrev pub next {ℓ κ} :
    {A : Type ℓ} {B : Type κ}
    → (A → Action B)
    → Result TorError A × OnionService
    → Result TorError B × OnionService
next f (ok a, s) = f a s
next f (err e, s) = (err e, s)

infixl 5 ◌>>=◌ ◌>>◌
abbrev pub ◌>>=◌ {ℓ κ} : {A : Type ℓ} {B : Type κ} → Action A → (A → Action B) → Action B
m >>= f = λ s. next f (m s)

abbrev pub ◌>>◌ {ℓ κ} : {A : Type ℓ} {B : Type κ} → Action A → Action B → Action B
m >> k = m >>= λ _. k

abbrev pub return {ℓ} : {A : Type ℓ} → A → Action A
return a = λ s. (ok a, s)

abbrev pub fail {ℓ} : {A : Type ℓ} → TorError → Action A
fail e = λ s. (err e, s)

abbrev pub ensure : Bool → TorError → Action (Unit {0})
ensure true e = return tt
ensure false e = fail e

abbrev pub present {ℓ} : {A : Type ℓ} → Option A → TorError → Action A
present none e = fail e
present (some a) e = return a

abbrev pub max_line_bytes : ℕ
max_line_bytes = 8192

abbrev pub max_reply_bytes : ℕ
max_reply_bytes = 64 * 1024

unfoldable pub contains_byte : ℕ → Bytes → Bool
contains_byte b [] = false
contains_byte b (c ∷ cs) = c == b || contains_byte b cs

-- The loop of `writeCommand`, over what is left to write, the answers and what was sent before.
unfoldable pub send_all :
    Bytes → List Written → Bytes → Result TorError (Unit {0}) × List Written × Bytes
send_all [] script sent = (ok tt, script, sent)
send_all (c ∷ cs) [] sent = (err write_failed, [], sent)
send_all (c ∷ cs) (write_interrupted ∷ script) sent = send_all (c ∷ cs) script sent
send_all (c ∷ cs) (write_error ∷ script) sent = (err write_failed, script, sent)
send_all (c ∷ cs) (wrote zero ∷ script) sent = (err write_closed, script, sent)
send_all (c ∷ cs) (wrote (suc n) ∷ script) sent =
    send_all (drop n cs) script (sent ++ (c ∷ take n cs))

unfoldable pub is_command : Bytes → Bool
unfolding contains_byte
is_command command = not (
    is_empty command
    || ltb max_line_bytes (length command)
    || contains_byte 13 command
    || contains_byte 10 command)

-- The state after the loop.
abbrev pub after_sending :
    OnionService
    → Result TorError (Unit {0}) × List Written × Bytes
    → Result TorError (Unit {0}) × OnionService
after_sending s (r, outgoing, sent) = (r, record s { outgoing = outgoing; sent = sent })

unfoldable pub write_command : Bytes → Action (Unit {0})
unfolding send_all
write_command command s =
    if is_command command
    then after_sending s (send_all (command ++ (13 ∷ 10 ∷ [])) s.outgoing s.sent)
    else (err invalid_command, s)

abbrev pub onto_line : ℕ → Option (Bytes × Bytes) → Option (Bytes × Bytes)
onto_line c none = none
onto_line c (some (line, rest)) = some (c ∷ line, rest)

-- The text before the first CR LF, and the text after it.
unfoldable pub split_line : Bytes → Option (Bytes × Bytes)
split_line [] = none
split_line (c ∷ []) = none
split_line (c ∷ d ∷ cs) =
    let rest = onto_line c (split_line (d ∷ cs)) in
    if c == 13 && d == 10 then some ([], cs) else rest

-- How a pass of the loop ends before it asks for more, if it does: with a line, or at the limit.
unfoldable pub at_head : Bytes → Option (Result TorError Bytes × Bytes)
unfolding split_line
at_head buffer = elim (split_line buffer) [
  | some found ↦ some (ok found.0, found.1)
  | none ↦ if leb max_line_bytes (length buffer) then some (err line_too_long, buffer) else none
]

abbrev pub Reading : Type 0
Reading = Result TorError Bytes × Bytes × List Received

-- The result of a pass that did not end at its head is `rest`.
abbrev pub unless_ended : List Received → Option (Result TorError Bytes × Bytes) → Reading → Reading
unless_ended script none rest = rest
unless_ended script (some (r, buffer)) rest = (r, buffer, script)

-- The loop of `readLine`, over the buffer and the answers.
unfoldable pub read_from : Bytes → List Received → Reading
unfolding at_head
read_from buffer [] = unless_ended [] (at_head buffer) (err read_failed, buffer, [])
read_from buffer (read_interrupted ∷ script) =
    unless_ended (read_interrupted ∷ script) (at_head buffer) (read_from buffer script)
read_from buffer (read_error ∷ script) =
    unless_ended (read_error ∷ script) (at_head buffer) (err read_failed, buffer, script)
read_from buffer (received [] ∷ script) =
    unless_ended (received [] ∷ script) (at_head buffer) (err read_closed, buffer, script)
read_from buffer (received (c ∷ cs) ∷ script) =
    unless_ended (received (c ∷ cs) ∷ script) (at_head buffer)
      (read_from (buffer ++ (c ∷ cs)) script)

abbrev pub after_reading : OnionService → Reading → Result TorError Bytes × OnionService
after_reading s (r, buffer, script) = (r, record s { read_buffer = buffer; incoming = script })

unfoldable pub read_line : Action Bytes
unfolding read_from
read_line s = after_reading s (read_from s.read_buffer s.incoming)

pub record Reply : Type 0 where
  pub status : ℕ
  pub lines : List Bytes

unfoldable pub is_digit : ℕ → Bool
is_digit = within b'0' b'9'

-- The status, the mark after it and the text, of a line that has at least four characters and
-- begins with three digits.
unfoldable pub reply_line : Bytes → Option (ℕ × ℕ × Bytes)
unfolding is_digit
reply_line (a ∷ b ∷ c ∷ mark ∷ text) =
    if is_digit a && is_digit b && is_digit c
    then some ((a - b'0') * 100 + (b - b'0') * 10 + (c - b'0'), mark, text)
    else none
reply_line line = none

abbrev pub no_reply : Reply
no_reply = record { status = 0; lines = [] }

-- if (reply.status == 0) reply.status = status
abbrev pub expected_status : Reply → ℕ → ℕ
expected_status reply status = if reply.status == 0 then status else reply.status

abbrev pub with_line : Reply → ℕ → Bytes → Reply
with_line reply status text = record {
  status = expected_status reply status;
  lines = reply.lines ++ (text ∷ []);
}

-- A line of the reply, against those before it: an error, the reply it ends, or the reply to go on
-- with.
pub data Verdict : Type 0 where
  refused : TorError → Verdict
  ended unended : Reply → Verdict

unfoldable pub judge_parts : Reply → Option (ℕ × ℕ × Bytes) → Verdict
judge_parts reply none = refused malformed_reply
judge_parts reply (some (status, mark, text)) =
    if not (status == expected_status reply status) || not (mark == b'-' || mark == b' ')
    then refused unsupported_framing
    else if mark == b' '
    then ended (with_line reply status text)
    else unended (with_line reply status text)

unfoldable pub judge : Reply → ℕ → Bytes → Verdict
unfolding reply_line judge_parts
judge reply total line =
    if ltb max_reply_bytes total
    then refused malformed_reply
    else judge_parts reply (reply_line line)

abbrev pub go_on : Verdict → (Reply → Action Reply) → Action Reply
go_on (refused e) k = fail e
go_on (ended reply) k = return reply
go_on (unended reply) k = k reply

-- The loop of `readReply`, on fuel.
unfoldable pub reply_loop : ℕ → Reply → ℕ → Action Reply
unfolding read_line judge
reply_loop zero reply total = fail reply_unbounded
reply_loop (suc fuel) reply total = do
  line ← read_line
  go_on (judge reply (total + length line) line)
      (λ reply'. reply_loop fuel reply' (total + length line))

-- Every line but the last has four bytes at least.
abbrev pub reply_fuel : ℕ
reply_fuel = 16385

unfoldable pub read_reply : Action Reply
unfolding reply_loop
read_reply = reply_loop reply_fuel no_reply 0

unfoldable pub send_command : Bytes → Action Reply
unfolding write_command read_reply
send_command command = do
  write_command command
  reply ← read_reply
  ensure (reply.status == 250) (rejected reply.status)
  return reply
