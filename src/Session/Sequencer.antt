-- ===== src/Session/Sequencer.antt =====
-- `RoomSequencer` and `requiresReplayResync` of server/src/utils/SessionReliability.hpp.
use conspire.Prelude.{
  ℕ, ◌+◌, ◌-◌, ◌≤◌, ◌<◌, ◌≡◌, ◌↔◌, Bool, true, false, ◌&&◌, Option, none, some, arith, ltb, ◌==◌,
  if◌then◌else◌, increment, u64_max,
}

pub record RoomSequencer : Type 0 where
  pub latest : ℕ

abbrev pub fresh : RoomSequencer
fresh = record { latest = 0 }

-- `none` is the exhausted sequence.
unfoldable pub next : RoomSequencer → RoomSequencer × Option ℕ
next s =
    if s.latest == u64_max
    then (s, none)
    else (record { latest = increment s.latest }, some (increment s.latest))

unfoldable pub advance_to : RoomSequencer → ℕ → RoomSequencer × Bool
advance_to s value = if ltb value s.latest then (s, false) else (record { latest = value }, true)

-- Until the words run out, the next number is one more than the latest, and becomes the latest.
pub next_lem :
    (s : RoomSequencer)
    → s.latest < u64_max
    → next s ≡ (record { latest = s.latest + 1 }, some (s.latest + 1))
unfolding next
next_lem s h = ground arith

-- A sequencer never goes back, whatever value it is asked to advance to.
pub advance_to_lem :
    (s : RoomSequencer) (value : ℕ)
    → (s.latest ≤ (advance_to s value).0.latest)
      × (((advance_to s value).1 ≡ true) ↔ (s.latest ≤ value))
      × ((advance_to s value).1 ≡ true → (advance_to s value).0.latest ≡ value)
unfolding advance_to
advance_to_lem s value = ground arith

unfoldable pub requires_replay_resync : ℕ → ℕ → Option ℕ → Bool
requires_replay_resync cursor latest earliest = if ltb latest cursor then true else elim earliest [
  | none ↦ ltb cursor latest
  | some first ↦ ltb 0 first && ltb cursor (first - 1)
]
