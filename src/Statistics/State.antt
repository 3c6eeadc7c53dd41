-- ===== src/Statistics/State.antt =====
-- The state file of server/src/utils/Statistics.cpp: loading, saving, replacing a file at once.
pub mod Kept
pub mod Whole
pub mod RoundTrip
use conspire.Prelude.{
  ℕ, zero, suc, ◌+◌, ◌*◌, ◌≡◌, Bool, true, false, not, ◌&&◌, ◌||◌, List, [], ◌∷◌, ◌++◌, Option,
  none, some, ltb, leb, ◌==◌, length, take, drop, if◌then◌else◌,
}
use conspire.Prelude.Int.{ℤ, pos, ltbℤ, ◌-ℤ◌}
use conspire.Prelude.Bytes.{Bytes}
use conspire.Boundaries.Text.{is_empty}
use conspire.Statistics.{Statistics}
use conspire.Statistics.Samples.{StatPointDto, Periods, time_of}

abbrev pub max_state_bytes : ℕ
max_state_bytes = 1024 * 1024

abbrev pub max_state_points : ℕ
max_state_points = 1000

pub data StateLoadResult : Type 0 where
  loaded missing invalid : StateLoadResult

-- The counters and the points of the object, with its periods.
pub record Store : Type 0 where
  pub counters : Statistics
  pub points : List StatPointDto
  pub periods : Periods

abbrev is_set {ℓ} : {A : Type ℓ} → Option A → Bool
is_set none = false
is_set (some a) = true

abbrev is_positive : Option ℤ → Bool
is_positive none = false
is_positive (some t) = ltbℤ (pos 0) t

-- `none` is a null object. Three fields are younger than the format and may be null.
unfoldable pub valid_point : Option StatPointDto → Bool
valid_point none = false
valid_point (some p) =
    is_set p.timestamp
    && is_set p.ev_frontpage_loaded
    && is_set p.ev_peer_connected
    && is_set p.ev_peer_disconnected
    && is_set p.ev_peer_zombie_dropped
    && is_set p.ev_peer_send_message
    && is_set p.ev_peer_share_file
    && is_set p.ev_room_created
    && is_set p.ev_room_deleted
    && is_set p.file_served_bytes
    && is_positive p.timestamp

-- The loop over the points, from the time of the one before; their list, if all pass.
unfoldable pub valid_points : ℤ → List (Option StatPointDto) → Option (List StatPointDto)
unfolding valid_point time_of
valid_points previous [] = some []
valid_points previous (none ∷ ps) = none
valid_points previous (some p ∷ ps) =
    if not (valid_point (some p)) || ltbℤ (time_of p) previous
    then none
    else elim (valid_points (time_of p) ps) [ none ↦ none | some qs ↦ some (p ∷ qs) ]

-- `field ? *field : 0`
abbrev pub or_zero : Option ℕ → ℕ
or_zero none = 0
or_zero (some n) = n

abbrev pub counters_of : StatPointDto → Statistics
counters_of p = record {
  front_page_loaded = or_zero p.ev_frontpage_loaded;
  peer_connected = or_zero p.ev_peer_connected;
  peer_disconnected = or_zero p.ev_peer_disconnected;
  peer_zombie_dropped = or_zero p.ev_peer_zombie_dropped;
  peer_transport_closed = or_zero p.ev_peer_transport_closed;
  peer_resumed = or_zero p.ev_peer_resumed;
  session_expired = or_zero p.ev_session_expired;
  peer_send_message = or_zero p.ev_peer_send_message;
  peer_share_file = or_zero p.ev_peer_share_file;
  room_created = or_zero p.ev_room_created;
  room_deleted = or_zero p.ev_room_deleted;
  file_served_bytes = or_zero p.file_served_bytes;
}

-- The points from `oldest` to `now`.
unfoldable pub retain_window : ℤ → ℤ → List StatPointDto → List StatPointDto
retain_window oldest now [] = []
retain_window oldest now (p ∷ ps) =
    let rest = retain_window oldest now ps in
    if not (ltbℤ (time_of p) oldest) && not (ltbℤ now (time_of p)) then p ∷ rest else rest

abbrev pub last_of : StatPointDto → List StatPointDto → StatPointDto
last_of p [] = p
last_of p (q ∷ qs) = last_of q qs

-- The file as the stream and the file system show it: not opened, with whether it exists where
-- that is known, or its size and what reading that many bytes gives.
pub data StateFile : Type 0 where
  unopened : Option Bool → StateFile
  opened : ℤ → Option Bytes → StateFile

-- The text up to its first zero byte (`c_str`).
unfoldable pub c_text : Bytes → Bytes
c_text [] = []
c_text (c ∷ cs) = let rest = c_text cs in if c == 0 then [] else c ∷ rest

unfoldable pub file_content : StateFile → Option Bytes
file_content (unopened exists) = none
file_content (opened size content) =
    if not (ltbℤ (pos 0) size) || ltbℤ (pos max_state_bytes) size then none else content

unfoldable pub failure_of : StateFile → StateLoadResult
failure_of (unopened (some false)) = missing
failure_of file = invalid

-- What is accepted of a parsed list; a null list is `none`.
unfoldable pub accepted_points : Option (List (Option StatPointDto)) → Option (List StatPointDto)
unfolding valid_points
accepted_points none = none
accepted_points (some points) =
    if ltb max_state_points (length points) then none else valid_points (pos 0) points

-- The stores after the checks. An empty list was refused with the others.
unfoldable pub restore : ℤ → Store → Option (List StatPointDto) → Option Store
unfolding retain_window
restore now s none = none
restore now s (some []) = none
restore now s (some (p ∷ ps)) = some (record s {
  counters = counters_of (last_of p ps);
  points = retain_window (now -ℤ s.periods.max_period) now (p ∷ ps);
})

abbrev pub finished : StateFile → Store → Option Store → StateLoadResult × Store
finished file s none = (failure_of file, s)
finished file s (some s') = (loaded, s')

abbrev pub read_points :
    (Bytes → Option (List (Option StatPointDto)))
    → Option Bytes
    → Option (List (Option StatPointDto))
read_points parse none = none
read_points parse (some content) = parse (c_text content)

-- `parse` is the framework's object mapper; `none` is an exception or null.
unfoldable pub load_state :
    (Bytes → Option (List (Option StatPointDto))) → ℤ → StateFile → Store → StateLoadResult × Store
unfolding restore accepted_points file_content c_text failure_of
load_state parse now file s =
    finished file s (restore now s (accepted_points (read_points parse (file_content file))))

-- What the system answers to `::write`; a count of 0 ends the loop too.
pub data Written : Type 0 where
  interrupted failed : Written
  wrote : ℕ → Written

unfoldable pub write_all : Bytes → List Written → Bytes → Bool × Bytes
write_all [] script content = (true, content)
write_all (c ∷ cs) [] content = (false, content)
write_all (c ∷ cs) (interrupted ∷ script) content = write_all (c ∷ cs) script content
write_all (c ∷ cs) (failed ∷ script) content = (false, content)
write_all (c ∷ cs) (wrote zero ∷ script) content = (false, content)
write_all (c ∷ cs) (wrote (suc n) ∷ script) content =
    write_all (drop n cs) script (content ++ (c ∷ take n cs))

-- Whether each system call of `writeAtomically` succeeds.
pub record Disk : Type 0 where
  pub mkstemp : Bool
  pub writes : List Written
  pub fsync : Bool
  pub close : Bool
  pub rename : Bool
  pub open_directory : Bool
  pub fsync_directory : Bool
  pub close_directory : Bool

-- The file under the path before and after, and the result. The temporary file is the system's.
unfoldable pub write_atomically : Disk → Bytes → Option Bytes → Bool × Option Bytes
unfolding write_all
write_atomically disk data_bytes before =
    if not disk.mkstemp
    then (false, before)
    else let written = write_all data_bytes disk.writes [] in
      if written.0 && disk.fsync && disk.close && disk.rename
      then (disk.open_directory && disk.fsync_directory && disk.close_directory, some written.1)
      else (false, before)

-- The path's and the text's checks; `none` is a null text.
unfoldable pub save_text : Disk → Bytes → Option Bytes → Option Bytes → Bool × Option Bytes
unfolding write_atomically
save_text disk path before none = (false, before)
save_text disk path before (some json) =
    if is_empty path || is_empty json || ltb max_state_bytes (length json)
    then (false, before)
    else write_atomically disk json before

-- `encode` is the object mapper's.
unfoldable pub save_state :
    (List StatPointDto → Option Bytes) → Disk → Bytes → Store → Option Bytes → Bool × Option Bytes
unfolding save_text
save_state encode disk path s before = save_text disk path before (encode s.points)
