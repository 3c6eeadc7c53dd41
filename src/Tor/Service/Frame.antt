-- ===== src/Tor/Service/Frame.antt =====
-- What the commands leave alone: the identity of the service and its connection.
use conspire.Prelude.{
  ℕ, zero, suc, ◌≡◌, refl, ◌∙◌, Bool, true, false, Option, none, some, Bool-cases, inl, inr, ◌==◌,
}
use conspire.Prelude.Bytes.{Bytes}
use conspire.Prelude.Result.{Result, ok, err}
use conspire.Tor.Wire.{
  OnionService, TorError, Action, next, ◌>>=◌, return, fail, ensure, present, Reply, Verdict,
  refused, ended, unended, write_command, is_command, read_line, reply_loop, read_reply, go_on,
  send_command, reply_fuel, no_reply, rejected,
}

-- The same service on the same connection.
pub record Same (s s' : OnionService) : Type 0 where
  pub descriptor : s'.descriptor ≡ s.descriptor
  pub service_id : s'.service_id ≡ s.service_id
  pub hostname : s'.hostname ≡ s.hostname
  pub control_endpoint : s'.control_endpoint ≡ s.control_endpoint

pub same_refl : (s : OnionService) → Same s s
same_refl s = record {
  descriptor = refl;
  service_id = refl;
  hostname = refl;
  control_endpoint = refl;
}

pub same_trans : {s s' s'' : OnionService} → Same s s' → Same s' s'' → Same s s''
same_trans h h' = record {
  descriptor = h'.descriptor ∙ h.descriptor;
  service_id = h'.service_id ∙ h.service_id;
  hostname = h'.hostname ∙ h.hostname;
  control_endpoint = h'.control_endpoint ∙ h.control_endpoint;
}

-- An action that never changes the service.
pub record Keeps {ℓ} {A : Type ℓ} (m : Action A) : Type 0 where
  pub same : (s : OnionService) → Same s (m s).1

pub next-Same {ℓ κ} :
    {A : Type ℓ} {B : Type κ} (s : OnionService) (outcome : Result TorError A × OnionService)
    (f : A → Action B)
    → Same s outcome.1
    → ((a : A) → Keeps (f a))
    → Same s (next f outcome).1
next-Same s (ok a, s') f h later = same_trans h ((later a).same s')
next-Same s (err e, s') f h later = h

pub >>=-Keeps {ℓ κ} :
    {A : Type ℓ} {B : Type κ} {m : Action A} {f : A → Action B}
    → Keeps m
    → ((a : A) → Keeps (f a))
    → Keeps (m >>= f)
>>=-Keeps {m = m} {f = f} h later = record { same = λ s. next-Same s (m s) f (h.same s) later }

pub return-Keeps {ℓ} : {A : Type ℓ} (a : A) → Keeps (return a)
return-Keeps a = record { same = same_refl }

pub fail-Keeps {ℓ} : {A : Type ℓ} (e : TorError) → Keeps (fail {A = A} e)
fail-Keeps e = record { same = same_refl }

pub ensure-Keeps : (test : Bool) (e : TorError) → Keeps (ensure test e)
ensure-Keeps true e = return-Keeps tt
ensure-Keeps false e = fail-Keeps e

pub present-Keeps {ℓ} : {A : Type ℓ} (value : Option A) (e : TorError) → Keeps (present value e)
present-Keeps none e = fail-Keeps e
present-Keeps (some a) e = return-Keeps a

pub write_command-Keeps : (command : Bytes) → Keeps (write_command command)
unfolding write_command
write_command-Keeps command = record {
  same = λ s. elim (Bool-cases (is_command command)) [
    | inl valid ↦
        rw (valid)
          record { descriptor = refl; service_id = refl; hostname = refl; control_endpoint = refl }
    | inr invalid ↦ rw (invalid) (same_refl s)
  ];
}

read_line-Keeps : Keeps read_line
unfolding read_line
read_line-Keeps = record {
  same = λ s. record {
    descriptor = refl;
    service_id = refl;
    hostname = refl;
    control_endpoint = refl;
  };
}

go_on-Keeps :
    (v : Verdict) (k : Reply → Action Reply)
    → ((reply : Reply) → Keeps (k reply))
    → Keeps (go_on v k)
go_on-Keeps (refused e) k h = fail-Keeps e
go_on-Keeps (ended reply) k h = return-Keeps reply
go_on-Keeps (unended reply) k h = h reply

reply_loop-Keeps : (fuel : ℕ) (reply : Reply) (total : ℕ) → Keeps (reply_loop fuel reply total)
unfolding reply_loop
reply_loop-Keeps zero reply total = fail-Keeps _
reply_loop-Keeps (suc fuel) reply total =
    >>=-Keeps read_line-Keeps λ line. go_on-Keeps _ _ λ reply'. reply_loop-Keeps fuel reply' _

read_reply-Keeps : Keeps read_reply
unfolding read_reply
read_reply-Keeps = reply_loop-Keeps reply_fuel no_reply 0

pub send_command-Keeps : (command : Bytes) → Keeps (send_command command)
unfolding send_command
send_command-Keeps command = >>=-Keeps (write_command-Keeps command) λ u.
    >>=-Keeps read_reply-Keeps λ reply.
      >>=-Keeps (ensure-Keeps (reply.status == 250) (rejected reply.status)) λ u. return-Keeps reply
