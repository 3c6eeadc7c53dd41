-- ===== src/Session/Generation.antt =====
-- `TransportGeneration` of server/src/utils/SessionReliability.hpp: the fence against callbacks of
-- a replaced transport. A transport is the address of its socket.
use conspire.Prelude.{
  ℕ, ◌<◌, ◌≡◌, ◌↔◌, Bool, true, false, not, ◌&&◌, Option, none, some, arith, ◌==◌, ==_iff,
  if◌then◌else◌, increment, u64_mod,
}

pub record TransportGeneration : Type 0 where
  -- `none` is the null pointer
  pub current : Option ℕ
  pub generation : ℕ

abbrev pub detached : TransportGeneration
detached = record { current = none; generation = 0 }

unfoldable pub same_transport : Option ℕ → Option ℕ → Bool
same_transport none none = true
same_transport none (some b) = false
same_transport (some a) none = false
same_transport (some a) (some b) = a == b

pub same_transport_iff : (a b : Option ℕ) → (same_transport a b ≡ true) ↔ (a ≡ b)
unfolding same_transport
same_transport_iff none none = ground arith
same_transport_iff none (some b) = ground arith
same_transport_iff (some a) none = ground arith
same_transport_iff (some a) (some b) = ground (arith, ==_iff a b)

unfoldable pub replace : TransportGeneration → Option ℕ → TransportGeneration × ℕ
replace t transport =
    let generation = increment t.generation in
    (record { current = transport; generation = generation }, generation)

unfoldable pub is_current : TransportGeneration → Option ℕ → ℕ → Bool
is_current t transport generation =
    same_transport transport t.current && (generation == t.generation)

unfoldable pub detach_if_current : TransportGeneration → Option ℕ → ℕ → TransportGeneration × Bool
detach_if_current t transport generation =
    if not (is_current t transport generation)
    then (t, false)
    else (record t { current = none }, true)

-- After a replacement exactly the new transport with the new generation is current. The old
-- generation is not, with any transport (also the same socket again), and a detachment that names
-- it changes nothing.
pub replace_fences :
    (t : TransportGeneration) (old fresh : Option ℕ)
    → t.generation < u64_mod
    → let (next, generation) = replace t fresh in
      (is_current next fresh generation ≡ true)
      × (is_current next old t.generation ≡ false)
      × (detach_if_current next old t.generation ≡ (next, false))
unfolding replace is_current detach_if_current
replace_fences t old fresh range = ground (arith, same_transport_iff fresh fresh)

-- Of two detachments of one binding the first alone takes effect.
pub detach_once :
    (t : TransportGeneration) (transport : ℕ) (generation : ℕ)
    → let once = (detach_if_current t (some transport) generation).0 in
      detach_if_current once (some transport) generation ≡ (once, false)
unfolding detach_if_current is_current same_transport
detach_once t transport generation = ground arith
