-- ===== src/Rooms/Room/Files.antt =====
-- The files of a room: `shareFiles`, `getFileById`, `withdrawPeerFiles` and `removePeerById`
-- (server/src/rooms/Room.cpp).
use conspire.Prelude.{
  ℕ, Bool, true, false, not, List, [], ◌∷◌, Option, none, some, map, length, if◌then◌else◌,
  increment,
}
use conspire.Prelude.Int.{ℤ, pos, int_eq, next_i64}
use conspire.Prelude.Maps.{Map, lookup, insert}
use conspire.Prelude.Bytes.{Bytes}
use conspire.Boundaries.Limits.{limits, has_capacity_for}
use conspire.Rooms.Dto.{Code, MessageDto, FileDto, Envelope, blank, blank_file}
use conspire.Rooms.Host.{Host}
use conspire.Rooms.Peer.{Peer, add_files, take_files_snapshot}
use conspire.Rooms.File.{File, make_file, clear_subscribers}
use conspire.Rooms.Room.{
  Room, Outcome, returns, throws, duplicate_file_id, has_id, remove_id, get_peer_by_id, update_peer,
  publish_durable, no_callback,
}

-- What a descriptor holds once the handler has accepted it.
pub record Descriptor : Type 0 where
  pub client_file_id : ℤ
  pub name : Bytes
  pub size : ℕ
  pub media_type : Option Bytes

-- The counter goes up by one for each file.
unfoldable pub make_files : ℤ → ℤ → List Descriptor → List File × ℤ
make_files host counter [] = ([], counter)
make_files host counter (d ∷ ds) =
    let (files, last) = make_files host (next_i64 counter) ds in
    (make_file host d.client_file_id counter d.name d.size d.media_type ∷ files, last)

abbrev pub server_file_id : File → ℤ
server_file_id f = f.info.server_file_id

-- m_fileById.merge(prepared), and whether a file stayed behind since its number is taken.
unfoldable pub merge : List File → Room → Room × Bool
merge [] r = (r, false)
merge (f ∷ fs) r =
    if has_id (server_file_id f) r.file_by_id
    then ((merge fs r).0, true)
    else merge fs (record r {
      files = insert (server_file_id f) f r.files;
      file_by_id = server_file_id f ∷ r.file_by_id;
    })

abbrev pub count_shares : List File → Host → Host
count_shares [] h = h
count_shares (f ∷ fs) h = count_shares fs (record h {
  statistics = record h.statistics { peer_share_file = increment h.statistics.peer_share_file };
})

-- The part after the checks.
unfoldable pub share_with : Room → Peer → ℤ → List Descriptor → Outcome (Room × List File)
share_with r p host_peer_id descriptors =
    let (files, counter) = make_files host_peer_id r.file_id_counter descriptors in
    let (merged, left) = merge files (
      update_peer host_peer_id (add_files p (map server_file_id files), r.host)
        (record r { file_id_counter = counter })) in
    if left
    then throws duplicate_file_id merged
    else returns (record merged { host = count_shares files merged.host }, files)

unfoldable pub share_files : Room → ℤ → List Descriptor → Outcome (Room × List File)
share_files r host_peer_id descriptors = elim (get_peer_by_id r host_peer_id) [
  | none ↦ returns (r, [])
  | some p ↦
      if not (has_capacity_for (length p.files) (length descriptors) limits.files_per_peer)
      then returns (r, [])
      else share_with r p host_peer_id descriptors
]

unfoldable pub get_file_by_id : Room → ℤ → Option File
get_file_by_id r id = if has_id id r.file_by_id then lookup id r.files else none

-- m_fileById.erase for each of the files
unfoldable pub remove_ids : List ℤ → List ℤ → List ℤ
remove_ids [] ids = ids
remove_ids (j ∷ js) ids = remove_ids js (remove_id j ids)

-- file->clearSubscribers()
unfoldable pub clear_found : ℤ → Option File → Map ℤ File → Map ℤ File
clear_found id none files = files
clear_found id (some f) files = insert id (clear_subscribers f) files

unfoldable pub clear_each : List ℤ → Map ℤ File → Map ℤ File
clear_each [] files = files
clear_each (id ∷ ids) files = clear_each ids (clear_found id (lookup id files) files)

-- The peer gives up its files, which leave the room and end their downloads.
unfoldable pub drop_files : Room → ℤ → Peer → Room
drop_files r id p =
    let (p', files) = take_files_snapshot p in
    record (update_peer id (p', r.host) r) {
      file_by_id = remove_ids files r.file_by_id;
      files = clear_each files r.files;
    }

unfoldable pub remove_peer_by_id : Room → ℤ → Room
remove_peer_by_id r id = elim (get_peer_by_id r id) [
  | none ↦ r
  | some p ↦ drop_files (record r { peer_by_id = remove_id id r.peer_by_id }) id p
]

-- The descriptor of a file that is gone.
unfoldable pub unavailable_file : Map ℤ File → ℤ → Option FileDto
unavailable_file files id = elim (lookup id files) [
  | none ↦ none
  | some f ↦ some (record blank_file {
    server_file_id = some f.info.server_file_id;
    name = some f.info.name;
    size = some (pos f.info.size);
    available = some false;
  })
]

module _ (encode : Envelope → Bytes) (maximum : Option ℕ) where
  unfoldable pub withdraw_peer_files : Room → Peer → Outcome (Room × Option MessageDto)
  withdraw_peer_files r p = elim p.files [
    | [] ↦ returns (r, none)
    | id ∷ ids ↦
        elim (publish_durable encode maximum (drop_files r p.peer_id p)
          (record blank {
            code = some Code.peer_message_file;
            peer_id = some p.peer_id;
            peer_name = some p.nickname;
            files = some (map (unavailable_file r.files) (id ∷ ids));
          })
          none no_callback) [
            | returns done ↦ let (r', stamped) = done in returns (r', some stamped)
            | throws thrown r' ↦ throws thrown r'
          ]
  ]
