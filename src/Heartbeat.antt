-- ===== src/Heartbeat.antt =====
-- server/src/rooms/Heartbeat.hpp: the liveness of a transport by a caller's monotonic clock, and
-- the account of its one terminal close. `a - b` of two time points is signed in the source; where
-- it would be negative it is below every positive bound, as the difference 0 of the model is.
use conspire.Prelude.{
  ℕ, ◌+◌, ◌-◌, ◌/◌, ◌≤◌, ◌<◌, ◌≡◌, refl, ◌↔◌, ◌⊎◌, ◌≢◌, inl, Bool, true, false, not, ◌||◌, List, [],
  ◌∷◌, arith, ltb, leb, ◌==◌, if◌then◌else◌, seconds,
}

-- `Heartbeat::Tick`
pub data Tick : Type 0 where
  idle queue_ping expired : Tick

abbrev pub probe_interval : ℕ
probe_interval = seconds 30

abbrev pub deadline : ℕ
deadline = seconds 120

pub record Heartbeat : Type 0 where
  pub last_inbound : ℕ
  pub last_probe : ℕ
  pub generation : ℕ
  pub ping_queued : Bool
  pub ping_outstanding : Bool

unfoldable pub start : ℕ → ℕ → Heartbeat
start now generation = record {
  last_inbound = now;
  last_probe = now;
  generation = generation;
  ping_queued = false;
  ping_outstanding = false;
}

unfoldable pub activate : Heartbeat → ℕ → ℕ → Heartbeat
activate h now generation = record {
  last_inbound = now;
  last_probe = now;
  generation = generation;
  ping_queued = false;
  ping_outstanding = false;
}

unfoldable pub tick : Heartbeat → ℕ → Heartbeat × Tick
tick h now =
    if leb deadline (now - h.last_inbound)
    then (h, expired)
    else if h.ping_queued || h.ping_outstanding || ltb (now - h.last_probe) probe_interval
    then (h, idle)
    else (record h { ping_queued = true; last_probe = now }, queue_ping)

unfoldable pub write_completed : Heartbeat → ℕ → Bool → Heartbeat × Bool
write_completed h generation success =
    if not (generation == h.generation) || not h.ping_queued
    then (h, false)
    else (record h { ping_queued = false; ping_outstanding = success }, true)

unfoldable pub inbound : Heartbeat → ℕ → ℕ → Heartbeat × Bool
inbound h now generation =
    if not (generation == h.generation)
    then (h, false)
    else (record h { last_inbound = now; ping_queued = false; ping_outstanding = false }, true)

unfoldable pub idle_milliseconds : Heartbeat → ℕ → ℕ
idle_milliseconds h now = (now - h.last_inbound) / 1_000_000

-- What happens to a transport, in the order in which the peer's state lock admits it.
pub data Event : Type 0 where
  ticks : ℕ → Event
  writes : ℕ → Bool → Event
  receives : ℕ → ℕ → Event

abbrev pub step : Heartbeat → Event → Heartbeat
step h (ticks now) = (tick h now).0
step h (writes generation success) = (write_completed h generation success).0
step h (receives now generation) = (inbound h now generation).0

abbrev pub run : Heartbeat → List Event → Heartbeat
run h [] = h
run h (e ∷ es) = run (step h e) es

-- Never more than one ping is on its way.
abbrev pub IsSingle : Heartbeat → Type 0
IsSingle h = (h.ping_queued ≡ false) ⊎ (h.ping_outstanding ≡ false)

step-IsSingle : (h : Heartbeat) (e : Event) → IsSingle h → IsSingle (step h e)
unfolding tick write_completed inbound
step-IsSingle h (ticks now) s = ground arith
step-IsSingle h (writes generation success) s = ground arith
step-IsSingle h (receives now generation) s = ground arith

run_keeps : (h : Heartbeat) (es : List Event) → IsSingle h → IsSingle (run h es)
run_keeps h [] s = s
run_keeps h (e ∷ es) s = run_keeps (step h e) es (step-IsSingle h e s)

-- From a transport that was just activated, no ticks, completed writes and received frames lead to
-- a state in which a ping is queued while another one awaits its answer.
pub run-IsSingle :
    (h : Heartbeat) (now generation : ℕ) (es : List Event)
    → IsSingle (run (activate h now generation) es)
unfolding activate
run-IsSingle h now generation es = run_keeps _ es (inl refl)

-- A transport expires exactly if nothing has come in for the deadline, whatever pings were sent;
-- a ping is queued exactly if it is alive, none is under way and the last is an interval ago.
pub tick_lem :
    (h : Heartbeat) (now : ℕ)
    → (((tick h now).1 ≡ expired) ↔ (h.last_inbound + deadline ≤ now))
      × (((tick h now).1 ≡ queue_ping) ↔ (
          (now < h.last_inbound + deadline)
          × (h.ping_queued ≡ false)
          × (h.ping_outstanding ≡ false)
          × (h.last_probe + probe_interval ≤ now)))
unfolding tick
tick_lem h now = (ground arith, ground arith)

-- A write or a frame of another generation changes nothing.
pub stale_ignored :
    (h : Heartbeat) (generation now : ℕ) (success : Bool)
    → generation ≢ h.generation
    → (write_completed h generation success ≡ (h, false)) × (inbound h now generation ≡ (h, false))
unfolding write_completed inbound
stale_ignored h generation now success other = (ground arith, ground arith)

-- `TerminalCloseAccounting`
pub record TerminalCloseAccounting : Type 0 where
  pub accounted : Bool

unfoldable pub account_once : TerminalCloseAccounting → TerminalCloseAccounting × Bool
account_once a = if a.accounted then (a, false) else (record { accounted = true }, true)
