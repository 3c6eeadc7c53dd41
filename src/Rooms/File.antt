-- ===== src/Rooms/File.antt =====
-- `File` (server/src/rooms/File.hpp and server/src/rooms/File.cpp): a shared file and its
-- downloads. The map holds weak pointers: `alive` says whether the download is still there. A
-- subscriber that leaves the map when the file is withdrawn lives on with its download.
pub mod Withdrawal
use conspire.Prelude.{
  ℕ, ◌+◌, ◌≤◌, ◌≡◌, Bool, true, false, not, List, [], ◌∷◌, ◌++◌, Option, none, some, length,
  if◌then◌else◌,
}
use conspire.Prelude.Int.{ℤ, pos, next_i64, int_eq}
use conspire.Prelude.Maps.{Map, lookup, insert, erase}
use conspire.Prelude.Bytes.{Bytes}
use conspire.Boundaries.Limits.{limits, has_capacity}
use conspire.Boundaries.Text.{valid_image_media_type}
use conspire.Boundaries.Chunk.{Result, invalid}
use conspire.Rooms.Dto.{MessageDto}
use conspire.Rooms.Subscriber.{FileInfo, Subscriber, subscriber}
use conspire.Rooms.Subscriber

-- `std::weak_ptr<Subscriber>` with what it points to.
pub record Weak : Type 0 where
  pub alive : Bool
  pub target : Subscriber

pub record File : Type 0 where
  pub info : FileInfo
  pub subscriber_id_counter : ℤ
  pub available : Bool
  pub subscribers : Map ℤ Weak
  -- invalidated by `clear_subscribers`
  pub released : List Subscriber

-- mediaType && validImageMediaType(*mediaType) ? mediaType : nullptr
unfoldable pub shown_media_type : Option Bytes → Option Bytes
shown_media_type none = none
shown_media_type (some value) = if valid_image_media_type value then some value else none

unfoldable pub make_file : ℤ → ℤ → ℤ → Bytes → ℕ → Option Bytes → File
make_file host client_file_id server_file_id name size media_type = record {
  info = record {
    host = host;
    client_file_id = client_file_id;
    server_file_id = server_file_id;
    name = name;
    size = size;
    media_type = shown_media_type media_type;
  };
  subscriber_id_counter = pos 1;
  available = true;
  subscribers = [];
  released = [];
}

unfoldable pub unsubscribe : File → ℤ → File
unsubscribe f id = record f { subscribers = erase id f.subscribers }

unfoldable pub subscribe : File → File × Option ℤ
subscribe f =
    if not f.available
    then (f, none)
    else if not (has_capacity (length f.subscribers) limits.subscribers_per_file)
    then (f, none)
    else (
      record f {
        subscriber_id_counter = next_i64 f.subscriber_id_counter;
        subscribers =
            insert f.subscriber_id_counter
              (record { alive = true; target = subscriber f.subscriber_id_counter }) f.subscribers;
      },
      some f.subscriber_id_counter,
    )

-- The response reaches the subscriber if its download is still there.
unfoldable pub provide_to : File → ℤ → Option Weak → ℕ → ℤ → ℤ → Option Bytes → File × Result
provide_to f subscriber_id none request_id position size content = (f, invalid)
provide_to f subscriber_id (some w) request_id position size content =
    let (s, result) = Subscriber.provide_file_chunk w.target request_id position size content in
    if not w.alive
    then (record f { subscribers = erase subscriber_id f.subscribers }, invalid)
    else (
      record f { subscribers = insert subscriber_id (record w { target = s }) f.subscribers },
      result,
    )

unfoldable pub provide_file_chunk : File → ℤ → ℕ → ℤ → ℤ → Option Bytes → File × Result
provide_file_chunk f subscriber_id request_id position size content =
    provide_to f subscriber_id (lookup subscriber_id f.subscribers) request_id position size content

-- The subscribers that are still there, invalidated.
unfoldable pub invalidate_all : Map ℤ Weak → List Subscriber
invalidate_all [] = []
invalidate_all ((id, w) ∷ ws) =
    let rest = invalidate_all ws in if w.alive then Subscriber.invalidate w.target ∷ rest else rest

unfoldable pub clear_subscribers : File → File
clear_subscribers f = record f {
  available = false;
  subscribers = [];
  released = invalidate_all f.subscribers ++ f.released;
}

abbrev pub cons_some {ℓ} : {A : Type ℓ} → Option A → List A → List A
cons_some none xs = xs
cons_some (some x) xs = x ∷ xs

-- Dead entries go; the others ask again. The messages are for the host.
unfoldable pub reissue_all : FileInfo → Bool → Map ℤ Weak → Map ℤ Weak × List MessageDto
reissue_all f present [] = ([], [])
reissue_all f present ((id, w) ∷ ws) =
    let (rest, messages) = reissue_all f present ws in
    let (s, message) = Subscriber.reissue_outstanding_request f present w.target in
    if w.alive
    then ((id, record w { target = s }) ∷ rest, cons_some message messages)
    else (rest, messages)

unfoldable pub reissue_outstanding_requests : File → Bool → File × List MessageDto
reissue_outstanding_requests f present =
    let (subscribers, messages) = reissue_all f.info present f.subscribers in
    (record f { subscribers = subscribers }, messages)
