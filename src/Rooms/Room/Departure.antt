-- ===== src/Rooms/Room/Departure.antt =====
-- What a peer's departure leaves of its files (`Room::removePeerById`,
-- server/src/rooms/Room.cpp).
use conspire.Prelude.{
  ◌≡◌, refl, ap, ◌∙◌, false, not, ◌&&◌, List, [], ◌∷◌, Option, none, some, inl, inr, Bool-cases,
  arith, if◌then◌else◌,
}
use conspire.Prelude.Int.{ℤ, int_eq, ◌==ℤ◌, ==ℤ_iff}
use conspire.Prelude.Maps.{Map, lookup, lookup-insert}
use conspire.Rooms.Peer.{Peer, take_files_snapshot}
use conspire.Rooms.File.{File}
use conspire.Rooms.Room.{Room, has_id, remove_id, get_peer_by_id, update_peer}
use conspire.Rooms.Room.Files.{
  remove_ids, clear_each, clear_found, drop_files, get_file_by_id, remove_peer_by_id,
}

pub has_id-remove_id :
    (id j : ℤ) (ids : List ℤ) → has_id j (remove_id id ids) ≡ (not (id ==ℤ j) && has_id j ids)
has_id-remove_id id j [] = ground arith
has_id-remove_id id j (i ∷ ids) =
    ground (arith, ==ℤ_iff id j, ==ℤ_iff i j, ==ℤ_iff i id, has_id-remove_id id j ids)

has_id-remove_ids :
    (js : List ℤ) (j : ℤ) (ids : List ℤ)
    → has_id j (remove_ids js ids) ≡ (not (has_id j js) && has_id j ids)
unfolding remove_ids
has_id-remove_ids [] j ids = refl
has_id-remove_ids (i ∷ js) j ids =
    ground (arith, has_id-remove_id i j ids, has_id-remove_ids js j (remove_id i ids))

lookup-clear_found :
    (i j : ℤ) (o : Option File) (files : Map ℤ File)
    → (i ==ℤ j) ≡ false
    → lookup j (clear_found i o files) ≡ lookup j files
unfolding clear_found
lookup-clear_found i j none files other = refl
lookup-clear_found i j (some f) files other = lookup-insert i j _ files ∙ rw other

lookup-clear_each :
    (js : List ℤ) (j : ℤ) (files : Map ℤ File)
    → has_id j js ≡ false
    → lookup j (clear_each js files) ≡ lookup j files
unfolding clear_each
lookup-clear_each [] j files h = refl
lookup-clear_each (i ∷ js) j files h =
    let other : (i ==ℤ j) ≡ false = ground arith in
    let rest : has_id j js ≡ false = ground arith in
    lookup-clear_each js j (clear_found i (lookup i files) files) rest
    ∙ lookup-clear_found i j (lookup i files) files other

get_file_by_id-drop_files :
    (r : Room) (id : ℤ) (p : Peer) (file : ℤ)
    → get_file_by_id (drop_files r id p) file
      ≡ (if has_id file p.files then none else get_file_by_id r file)
unfolding get_file_by_id drop_files take_files_snapshot update_peer
get_file_by_id-drop_files r id p file = elim (Bool-cases (has_id file p.files)) [
  | inl own ↦ rw (has_id-remove_ids p.files file r.file_by_id, own)
  | inr other ↦ rw (
    has_id-remove_ids p.files file r.file_by_id,
    other,
    lookup-clear_each p.files file r.files other,
  )
]

pub remove_peer_by_id-eq :
    (r : Room) (id : ℤ) (p : Peer)
    → get_peer_by_id r id ≡ some p
    → remove_peer_by_id r id ≡ drop_files (record r { peer_by_id = remove_id id r.peer_by_id }) id p
unfolding remove_peer_by_id
remove_peer_by_id-eq r id p e = rw (e, remove_peer_by_id)

has_id_self : (id : ℤ) (ids : List ℤ) → has_id id (remove_id id ids) ≡ false
has_id_self id ids = has_id-remove_id id id ids ∙ rw ((==ℤ_iff id id).1 refl)

get_peer_by_id-drop_files :
    (r : Room) (id : ℤ) (p : Peer)
    → get_peer_by_id (drop_files (record r { peer_by_id = remove_id id r.peer_by_id }) id p) id
      ≡ none
unfolding get_peer_by_id drop_files take_files_snapshot update_peer
get_peer_by_id-drop_files r id p = rw (has_id_self id r.peer_by_id)

-- A peer that is removed from the room is not found there any more, nor is any file of its; every
-- other file is found as before.
pub remove_peer_by_id_lem :
    (r : Room) (id : ℤ) (p : Peer) (file : ℤ)
    → get_peer_by_id r id ≡ some p
    → (get_peer_by_id (remove_peer_by_id r id) id ≡ none)
      × (get_file_by_id (remove_peer_by_id r id) file
          ≡ (if has_id file p.files then none else get_file_by_id r file))
      × ((remove_peer_by_id r id).log ≡ r.log)
unfolding get_file_by_id drop_files take_files_snapshot update_peer
remove_peer_by_id_lem r id p file e =
    let left : Room = record r { peer_by_id = remove_id id r.peer_by_id } in
    let opened = remove_peer_by_id-eq r id p e in
    (
      ap (λ s. get_peer_by_id s id) opened ∙ get_peer_by_id-drop_files r id p,
      ap (λ s. get_file_by_id s file) opened ∙ get_file_by_id-drop_files left id p file,
      ap Room.log opened,
    )
