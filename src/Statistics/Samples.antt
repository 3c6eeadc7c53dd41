-- ===== src/Statistics/Samples.antt =====
-- The samples of server/src/utils/Statistics.cpp, with the points of server/src/dto/DTOs.hpp.
pub mod Series
use conspire.Prelude.{
  ℕ, ◌≡◌, Bool, true, false, List, [], ◌∷◌, ◌++◌, Option, none, some, if◌then◌else◌,
}
use conspire.Prelude.Int.{ℤ, pos, ltbℤ, ◌-ℤ◌}
use conspire.Statistics.{Statistics}

-- `none` is a null field.
pub record StatPointDto : Type 0 where
  pub timestamp : Option ℤ
  pub ev_frontpage_loaded : Option ℕ
  pub ev_peer_connected : Option ℕ
  pub ev_peer_disconnected : Option ℕ
  pub ev_peer_zombie_dropped : Option ℕ
  pub ev_peer_transport_closed : Option ℕ
  pub ev_peer_resumed : Option ℕ
  pub ev_session_expired : Option ℕ
  pub ev_peer_send_message : Option ℕ
  pub ev_peer_share_file : Option ℕ
  pub ev_room_created : Option ℕ
  pub ev_room_deleted : Option ℕ
  pub file_served_bytes : Option ℕ

-- A point with a time only.
abbrev pub point_at : ℤ → StatPointDto
point_at now = record {
  timestamp = some now;
  ev_frontpage_loaded = none;
  ev_peer_connected = none;
  ev_peer_disconnected = none;
  ev_peer_zombie_dropped = none;
  ev_peer_transport_closed = none;
  ev_peer_resumed = none;
  ev_session_expired = none;
  ev_peer_send_message = none;
  ev_peer_share_file = none;
  ev_room_created = none;
  ev_room_deleted = none;
  file_served_bytes = none;
}

-- *point->timestamp; the points that the server keeps have one.
unfoldable pub time_of : StatPointDto → ℤ
time_of p = elim p.timestamp [ none ↦ pos 0 | some t ↦ t ]

-- The counters as they are now.
abbrev pub with_counters : Statistics → StatPointDto → StatPointDto
with_counters c p = record {
  timestamp = p.timestamp;
  ev_frontpage_loaded = some c.front_page_loaded;
  ev_peer_connected = some c.peer_connected;
  ev_peer_disconnected = some c.peer_disconnected;
  ev_peer_zombie_dropped = some c.peer_zombie_dropped;
  ev_peer_transport_closed = some c.peer_transport_closed;
  ev_peer_resumed = some c.peer_resumed;
  ev_session_expired = some c.session_expired;
  ev_peer_send_message = some c.peer_send_message;
  ev_peer_share_file = some c.peer_share_file;
  ev_room_created = some c.room_created;
  ev_room_deleted = some c.room_deleted;
  file_served_bytes = some c.file_served_bytes;
}

abbrev pub back : List StatPointDto → Option StatPointDto
back [] = none
back (p ∷ []) = some p
back (p ∷ q ∷ ps) = back (q ∷ ps)

-- The point that `point` refers to is the last of the list.
unfoldable pub update_back : Statistics → List StatPointDto → List StatPointDto
update_back c [] = []
update_back c (p ∷ []) = with_counters c p ∷ []
update_back c (p ∷ q ∷ ps) = p ∷ update_back c (q ∷ ps)

-- The `while` loop: points go from the front until the first is recent enough. The point just
-- pushed has the age 0, so that the list does not run empty for a period that is not negative.
unfoldable pub pop_old : ℤ → ℤ → List StatPointDto → List StatPointDto
unfolding time_of
pop_old now max_period [] = []
pop_old now max_period (p ∷ ps) =
    let rest = pop_old now max_period ps in
    if ltbℤ max_period (now -ℤ time_of p) then rest else p ∷ ps

-- The last point is younger than the push interval.
unfoldable pub is_current : ℤ → ℤ → Option StatPointDto → Bool
unfolding time_of
is_current now push_interval none = false
is_current now push_interval (some p) = ltbℤ (now -ℤ time_of p) push_interval

-- The periods of the constructor.
pub record Periods : Type 0 where
  pub max_period : ℤ
  pub push_interval : ℤ

-- Seven days and an hour, in microseconds.
abbrev pub defaults : Periods
defaults = record { max_period = pos 604_800_000_000; push_interval = pos 3_600_000_000 }

unfoldable pub take_sample : Periods → Statistics → ℤ → List StatPointDto → List StatPointDto
unfolding update_back pop_old is_current
take_sample periods counters now points =
    if is_current now periods.push_interval (back points)
    then update_back counters points
    else update_back counters (pop_old now periods.max_period (points ++ (point_at now ∷ [])))
