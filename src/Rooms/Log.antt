-- ===== src/Rooms/Log.antt =====
-- What `m_historyLock` protects in server/src/rooms/Room.cpp: the retained messages and the
-- sequencer, with `addHistoryMessage`, `latestServerSeq`, `getHistory` and `getHistoryAfter`.
pub mod Replay
pub mod Select
use conspire.Prelude.{
  ℕ, ◌+◌, ◌≡◌, Bool, true, false, ◌||◌, List, [], ◌∷◌, ◌++◌, Option, none, some, ltb, ◌==◌,
  if◌then◌else◌,
}
use conspire.Boundaries.Limits.{retain_last}
use conspire.Session.Sequencer.{RoomSequencer, fresh, next, requires_replay_resync}
use conspire.Rooms.Dto.{MessageDto}

pub record Log : Type 0 where
  -- oldest first
  pub history : List MessageDto
  pub sequencer : RoomSequencer

abbrev pub empty : Log
empty = record { history = []; sequencer = fresh }

-- `!maxRoomHistoryMessages || *maxRoomHistoryMessages == 0`
unfoldable pub keeps_none : Option ℕ → Bool
keeps_none none = true
keeps_none (some maximum) = maximum == 0

abbrev pub value_or_zero : Option ℕ → ℕ
value_or_zero none = 0
value_or_zero (some n) = n

unfoldable pub retain : Option ℕ → Log → RoomSequencer → MessageDto → Log
retain maximum l advanced stamped =
    if keeps_none maximum then record l { sequencer = advanced } else record {
      history = retain_last (value_or_zero maximum) (l.history ++ stamped ∷ []);
      sequencer = advanced;
    }

-- `none` is the exception "room server sequence exhausted". The message comes back with its
-- sequence number, also where no history is kept.
unfoldable pub add_history_message : Option ℕ → Log → MessageDto → Option (Log × MessageDto)
add_history_message maximum l m =
    let (advanced, drawn) = next l.sequencer in
    elim drawn [
      | none ↦ none
      | some sequence ↦
          let stamped = record m { server_seq = some sequence } in
          some (retain maximum l advanced stamped, stamped)
    ]

unfoldable pub latest_server_seq : Log → ℕ
latest_server_seq l = l.sequencer.latest

unfoldable pub get_history : Option ℕ → Log → Option (List MessageDto)
get_history maximum l = if keeps_none maximum then none else some l.history

-- !m_history.empty() && m_history.front()->serverSeq
unfoldable pub earliest : List MessageDto → Option ℕ
earliest [] = none
earliest (m ∷ ms) = m.server_seq

unfoldable pub is_after : ℕ → Option ℕ → Bool
is_after cursor none = false
is_after cursor (some sequence) = ltb cursor sequence

unfoldable pub select_after : Bool → ℕ → List MessageDto → List MessageDto
select_after resync cursor [] = []
select_after resync cursor (m ∷ ms) =
    let rest = select_after resync cursor ms in
    if resync || is_after cursor m.server_seq then m ∷ rest else rest

unfoldable pub get_history_after : ℕ → Log → List MessageDto × Bool
get_history_after cursor l =
    let resync = requires_replay_resync cursor l.sequencer.latest (earliest l.history) in
    (select_after resync cursor l.history, resync)
