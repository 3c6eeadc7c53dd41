-- ===== src/Tor/Wire/Commands.antt =====
-- What is written for a command, and that the answer to one always ends.
use mathlib.Core.Path.{subst}
use conspire.Prelude.{
  ℕ, zero, suc, ◌+◌, ◌*◌, ◌≤◌, ◌<◌, ◌≡◌, ◌≢◌, refl, sym, ap, ◌∙◌, Bool, true, false, List, [], ◌∷◌,
  ◌++◌, some, arith, length, take, drop, take-append-drop, Bool-cases, Option-cases, inl, inr, ◌⊎◌,
}
use mathlib.Core.List.{append_assoc, append-nil}
use conspire.Prelude.Bytes.{Bytes, All}
use conspire.Prelude.Result.{Result, ok, err}
use conspire.Tor.Wire.{
  OnionService, next, Received, read_interrupted, read_error, received, Written, wrote,
  write_interrupted, write_error, Reading, at_head, read_from, read_line, unless_ended,
  max_reply_bytes, TorError, reply_unbounded, invalid_command, write_failed, write_closed, Reply,
  reply_line, judge, judge_parts, Verdict, refused, ended, unended, reply_loop, reply_fuel,
  read_reply, no_reply, go_on, send_all, write_command, is_command, contains_byte,
}

-- The loop ran out of fuel.
unfoldable pub is_fuel : TorError → Bool
is_fuel reply_unbounded = true
is_fuel e = false

unfoldable pub is_unbounded {ℓ} : {A : Type ℓ} → Result TorError A → Bool
unfolding is_fuel
is_unbounded (err e) = is_fuel e
is_unbounded (ok a) = false

head_bounded :
    (buffer : Bytes) (r : Result TorError Bytes) (rest : Bytes)
    → at_head buffer ≡ some (r, rest)
    → is_unbounded r ≡ false
unfolding at_head is_unbounded
head_bounded buffer r rest h = ground arith

unless_ended_bounded :
    (buffer : Bytes) (script : List Received) (tail : Reading)
    → is_unbounded tail.0 ≡ false
    → is_unbounded (unless_ended script (at_head buffer) tail).0 ≡ false
unless_ended_bounded buffer script tail h = elim (Option-cases (at_head buffer)) [
  | inl absent ↦ rw (absent, unless_ended) h
  | inr ((r, rest), found) ↦ rw (found, unless_ended) (head_bounded buffer r rest found)
]

read_from_bounded :
    (buffer : Bytes) (script : List Received) → is_unbounded (read_from buffer script).0 ≡ false
unfolding read_from is_unbounded
read_from_bounded buffer [] = unless_ended_bounded buffer [] _ refl
read_from_bounded buffer (read_interrupted ∷ script) =
    unless_ended_bounded buffer (read_interrupted ∷ script) _ (read_from_bounded buffer script)
read_from_bounded buffer (read_error ∷ script) =
    unless_ended_bounded buffer (read_error ∷ script) _ refl
read_from_bounded buffer (received [] ∷ script) =
    unless_ended_bounded buffer (received [] ∷ script) _ refl
read_from_bounded buffer (received (c ∷ cs) ∷ script) =
    unless_ended_bounded buffer (received (c ∷ cs) ∷ script) _
      (read_from_bounded (buffer ++ (c ∷ cs)) script)

judge_goes_on :
    (reply reply' : Reply) (total : ℕ) (line : Bytes)
    → judge reply total line ≡ unended reply'
    → (total ≤ max_reply_bytes) × (4 ≤ length line)
unfolding judge judge_parts reply_line
judge_goes_on reply reply' total (a ∷ b ∷ c ∷ d ∷ text) h = ground arith
judge_goes_on reply reply' total line h = ground arith

judge_bounded :
    (reply : Reply) (total : ℕ) (line : Bytes) (e : TorError)
    → judge reply total line ≡ refused e
    → is_fuel e ≡ false
unfolding judge judge_parts is_fuel
judge_bounded reply total line e h = ground arith

-- The loop goes on with a line of at least four bytes, or ends.
go_on_bounded :
    (fuel total : ℕ) (line : Bytes) (v : Verdict) (s : OnionService)
    → ((reply : Reply)
        → v ≡ unended reply
        → (total + length line ≤ max_reply_bytes) × (4 ≤ length line))
    → ((e : TorError) → v ≡ refused e → is_fuel e ≡ false)
    → ((reply : Reply)
        → total + length line ≤ max_reply_bytes
        → 4 ≤ length line
        → is_unbounded (reply_loop fuel reply (total + length line) s).0 ≡ false)
    → is_unbounded (go_on v (λ reply. reply_loop fuel reply (total + length line)) s).0 ≡ false
unfolding is_unbounded
go_on_bounded fuel total line (refused e) s goes bounded later = bounded e refl
go_on_bounded fuel total line (ended reply) s goes bounded later = refl
go_on_bounded fuel total line (unended reply) s goes bounded later =
    later reply (goes reply refl).0 (goes reply refl).1

next_bounded :
    (outcome : Result TorError Bytes × OnionService)
    (f : Bytes → OnionService → Result TorError Reply × OnionService)
    → is_unbounded outcome.0 ≡ false
    → ((line : Bytes) (s : OnionService) → is_unbounded (f line s).0 ≡ false)
    → is_unbounded (next f outcome).0 ≡ false
unfolding is_unbounded
next_bounded (ok line, s) f h later = later line s
next_bounded (err e, s) f h later = h

reply_loop_bounded :
    (fuel total : ℕ) (reply : Reply) (s : OnionService)
    → total ≤ max_reply_bytes
    → max_reply_bytes < total + 4 * fuel
    → is_unbounded (reply_loop fuel reply total s).0 ≡ false
unfolding reply_loop read_line
reply_loop_bounded zero total reply s small enough = absurd (omega arith)
reply_loop_bounded (suc fuel) total reply s small enough =
    next_bounded (read_line s) _ (read_from_bounded s.read_buffer s.incoming) λ line s'.
      go_on_bounded fuel total line (judge reply (total + length line) line) s'
        (λ reply' e. judge_goes_on reply reply' (total + length line) line e)
        (judge_bounded reply (total + length line) line)
        (λ reply' fits long.
          reply_loop_bounded fuel (total + length line) reply' s' fits
            (omega (arith, enough, long)))

-- Reading a reply ends: the fuel is enough for any service and whatever arrives, since every line
-- but the last has four bytes and together they have 65536 at most.
pub read_reply_total : (s : OnionService) → is_unbounded (read_reply s).0 ≡ false
unfolding read_reply
read_reply_total s = reply_loop_bounded reply_fuel 0 no_reply s (omega arith) (omega arith)

-- What was written of a text: a prefix, and all of it or there is an error.
pub record Writes (text sent : Bytes) (outcome : Result TorError (Unit {0}) × List Written × Bytes)
    : Type 0 where
  pub written : Bytes
  pub unwritten : Bytes
  pub split : text ≡ written ++ unwritten
  pub added : outcome.2 ≡ sent ++ written
  pub reported : (unwritten ≡ []) ⊎ ((e : TorError) × (outcome.0 ≡ err e))

unwritten-Writes :
    (text sent : Bytes) (script : List Written) (e : TorError)
    → Writes text sent (err e, script, sent)
unwritten-Writes text sent script e = record {
  written = [];
  unwritten = text;
  split = refl;
  added = sym (append-nil sent);
  reported = inr (e, refl);
}

-- A part is written before the rest.
part-Writes :
    (part text sent : Bytes) (outcome : Result TorError (Unit {0}) × List Written × Bytes)
    → Writes text (sent ++ part) outcome
    → Writes (part ++ text) sent outcome
part-Writes part text sent outcome h = record {
  written = part ++ h.written;
  unwritten = h.unwritten;
  split = ap (λ t. part ++ t) h.split ∙ sym (append_assoc part h.written h.unwritten);
  added = h.added ∙ append_assoc sent part h.written;
  reported = h.reported;
}

send_all-Writes :
    (text : Bytes) (script : List Written) (sent : Bytes)
    → Writes text sent (send_all text script sent)
unfolding send_all
send_all-Writes [] script sent = record {
  written = [];
  unwritten = [];
  split = refl;
  added = sym (append-nil sent);
  reported = inl refl;
}
send_all-Writes (c ∷ cs) [] sent = unwritten-Writes (c ∷ cs) sent [] write_failed
send_all-Writes (c ∷ cs) (write_interrupted ∷ script) sent = send_all-Writes (c ∷ cs) script sent
send_all-Writes (c ∷ cs) (write_error ∷ script) sent =
    unwritten-Writes (c ∷ cs) sent script write_failed
send_all-Writes (c ∷ cs) (wrote zero ∷ script) sent =
    unwritten-Writes (c ∷ cs) sent script write_closed
send_all-Writes (c ∷ cs) (wrote (suc n) ∷ script) sent =
    subst (λ text. Writes text sent (send_all (drop n cs) script (sent ++ (c ∷ take n cs))))
      (ap (λ t. c ∷ t) (take-append-drop n cs))
      (part-Writes (c ∷ take n cs) (drop n cs) sent _
        (send_all-Writes (drop n cs) script (sent ++ (c ∷ take n cs))))

contains_byte-eq-false :
    (b : ℕ) (text : Bytes) → contains_byte b text ≡ false → All (λ c. c ≢ b) text
unfolding contains_byte
contains_byte-eq-false b [] h = tt
contains_byte-eq-false b (c ∷ cs) h = ground (arith, contains_byte-eq-false b cs)

single_line :
    (text : Bytes)
    → contains_byte 13 text ≡ false
    → contains_byte 10 text ≡ false
    → All (λ c. (c ≢ 13) × (c ≢ 10)) text
unfolding contains_byte
single_line [] h h' = tt
single_line (c ∷ cs) h h' = ground (arith, single_line cs)

is_command_sound :
    (command : Bytes) → is_command command ≡ true → All (λ c. (c ≢ 13) × (c ≢ 10)) command
unfolding is_command
is_command_sound command h = single_line command (ground arith) (ground arith)

-- Whatever the caller passes, a command is refused and writes nothing, or has no CR or LF inside
-- and a prefix of its one line is written; that is the whole line or an error is reported.
pub write_command_lem :
    (command : Bytes) (s : OnionService)
    → ((write_command command s).0 ≡ err invalid_command)
        × ((write_command command s).1.sent ≡ s.sent)
      ⊎ All (λ c. (c ≢ 13) × (c ≢ 10)) command
        × Writes (command ++ (13 ∷ 10 ∷ [])) s.sent (
          (write_command command s).0,
          (write_command command s).1.outgoing,
          (write_command command s).1.sent,
        )
unfolding write_command
write_command_lem command s = elim (Bool-cases (is_command command)) [
  | inl valid ↦ rw (valid) (
      inr (
        is_command_sound command valid,
        send_all-Writes (command ++ (13 ∷ 10 ∷ [])) s.outgoing s.sent,
      ))
  | inr invalid ↦ rw (invalid) (inl (refl, refl))
]
