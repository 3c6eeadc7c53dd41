-- ===== src/Http/Download.antt =====
-- Downloads of shared files (server/src/controller/FileController.hpp).
use conspire.Prelude.{
  ℕ, ◌+◌, ◌%◌, ◌≡◌, refl, Bool, true, [], ◌∷◌, ◌++◌, Option, none, some, length, u64_mod,
  if◌then◌else◌, Bool-cases, Option-cases, inl, inr, ◌⊎◌,
}
use conspire.Prelude.Int.{ℤ, int_eq}
use conspire.Prelude.Maps.{lookup, insert, nat_eq}
use conspire.Prelude.Bytes.{Bytes, codes, bytes_eq, All}
use conspire.Prelude.Result.{Result, ok, err}
use conspire.Boundaries.Text.{valid_room_id}
use conspire.Boundaries.Escape.{attachment_filename}
use conspire.Boundaries.Escape.Markup.{IsQuotable, attachment_filename-IsQuotable}
use conspire.Statistics.{Statistics}
use conspire.Rooms.Subscriber.{FileInfo, Subscriber, Read, bytes, read_chunk}
use conspire.Rooms.File.{File, subscribe}
use conspire.Rooms.Room.{Room}
use conspire.Rooms.Room.Files.{get_file_by_id}
use conspire.Lobby.{Lobby, in_room, get_room}
use conspire.Http.{Headers, HttpError, error, content_type, nosniff, invalid_room}

-- A response whose body is the download with this number of this file.
pub record Download : Type 0 where
  pub headers : Headers
  pub file_id : ℤ
  pub subscriber : ℤ

abbrev pub download_headers : Bytes → Headers
download_headers filename =
    (
      codes "content-disposition",
      codes "attachment; filename=\"" ++ (attachment_filename filename ++ codes "\""),
    )
    ∷ content_type (codes "application/octet-stream")
    ∷ nosniff
    ∷ []

abbrev pub put_file : ℤ → File → Room → Room
put_file file_id f r = record r { files = insert file_id f r.files }

-- The file with its new subscriber, or the limit is reached.
unfoldable pub answer_subscription :
    ℕ → ℤ → File × Option ℤ → Lobby → Lobby × Result HttpError Download
answer_subscription key file_id (f, none) l =
    (l, err (error 429 (codes "Too many file subscribers")))
answer_subscription key file_id (f, some subscriber) l = (
  in_room key (put_file file_id f) l,
  ok (record {
    headers = download_headers f.info.name;
    file_id = file_id;
    subscriber = subscriber;
  }),
)

unfoldable pub answer_file : ℕ → ℤ → Option File → Lobby → Lobby × Result HttpError Download
unfolding answer_subscription
answer_file key file_id none l = (l, err (error 404 (codes "File not found")))
answer_file key file_id (some f) l = answer_subscription key file_id (subscribe f) l

abbrev pub file_of : Option Room → ℤ → Option File
file_of none file_id = none
file_of (some r) file_id = get_file_by_id r file_id

unfoldable pub answer_room : ℤ → Option ℕ → Lobby → Lobby × Result HttpError Download
unfolding answer_file
answer_room file_id none l = (l, err (error 404 (codes "Room not found")))
answer_room file_id (some key) l = answer_file key file_id (file_of (lookup key l.stores) file_id) l

unfoldable pub answer_id : Bytes → Option ℤ → Lobby → Lobby × Result HttpError Download
unfolding answer_room
answer_id room_id none l = (l, err (error 400 (codes "Invalid fileId")))
answer_id room_id (some file_id) l = answer_room file_id (get_room room_id l) l

-- GetFile. The second argument is what the framework made of the number in the path, `none` for no
-- success.
unfoldable pub get_file : Option Bytes → Option ℤ → Lobby → Lobby × Result HttpError Download
unfolding answer_id
get_file none file_id l = (l, err invalid_room)
get_file (some room_id) file_id l =
    if valid_room_id room_id then answer_id room_id file_id l else (l, err invalid_room)

-- `if (res > 0) FILE_SERVED_BYTES += res`
unfoldable pub serve_bytes : Read → Statistics → Statistics
serve_bytes (bytes chunk) s = record s {
  file_served_bytes = (s.file_served_bytes + length chunk) % u64_mod;
}
serve_bytes r s = s

-- ReadCallback::read
unfoldable pub read_callback :
    FileInfo → Bool → Subscriber → ℕ → Statistics → Subscriber × Read × Statistics
unfolding serve_bytes
read_callback info present subscriber count statistics =
    let (after, result) = read_chunk info present subscriber count in
    (after, result, serve_bytes result statistics)

-- A refusal, with the lobby as it was.
pub record IsRefusal (l : Lobby) (outcome : Lobby × Result HttpError Download) : Type 0 where
  pub refusal : HttpError
  pub result : outcome.1 ≡ err refusal
  pub status : (refusal.status ≡ 400) ⊎ ((refusal.status ≡ 404) ⊎ (refusal.status ≡ 429))
  pub unchanged : outcome.0 ≡ l

-- A download of a file that the room of the path shares, and its name in the header is quoted
-- safely.
pub record IsDownload (room_id : Option Bytes) (file_id : Option ℤ) (l : Lobby)
    (outcome : Lobby × Result HttpError Download) : Type 0 where
  pub name : Bytes
  pub id : ℤ
  pub key : ℕ
  pub file : File
  pub subscriber : ℤ
  pub valid : valid_room_id name ≡ true
  pub room : (room_id ≡ some name) × (get_room name l ≡ some key)
  pub shared : (file_id ≡ some id) × (file_of (lookup key l.stores) id ≡ some file)
  pub subscribed : (subscribe file).1 ≡ some subscriber
  pub result :
      outcome.1
      ≡ ok (record {
        headers = download_headers (subscribe file).0.info.name;
        file_id = id;
        subscriber = subscriber;
      })
  pub quotable : All IsQuotable (attachment_filename (subscribe file).0.info.name)

module _ (l : Lobby) (name : Bytes) (valid : valid_room_id name ≡ true) (id : ℤ) where
  answer_file_lem :
      (key : ℕ) (f : Option File)
      → get_room name l ≡ some key
      → file_of (lookup key l.stores) id ≡ f
      → IsRefusal l (answer_file key id f l)
        ⊎ IsDownload (some name) (some id) l (answer_file key id f l)
  unfolding answer_file answer_subscription
  answer_file_lem key none found shared =
      inl record { refusal = _; result = refl; status = inr (inl refl); unchanged = refl }
  answer_file_lem key (some f) found shared = elim (Option-cases (subscribe f).1) [
    | inl full ↦
        rw (full)
          (inl record { refusal = _; result = refl; status = inr (inr refl); unchanged = refl })
    | inr (subscriber, given) ↦ rw (given) (
        inr record {
          name = name;
          id = id;
          key = key;
          file = f;
          subscriber = subscriber;
          valid = valid;
          room = (refl, found);
          shared = (refl, shared);
          subscribed = given;
          result = refl;
          quotable = (attachment_filename-IsQuotable (subscribe f).0.info.name).0;
        })
  ]

  answer_room_lem :
      (key : Option ℕ)
      → get_room name l ≡ key
      → IsRefusal l (answer_room id key l)
        ⊎ IsDownload (some name) (some id) l (answer_room id key l)
  unfolding answer_room
  answer_room_lem none found =
      inl record { refusal = _; result = refl; status = inr (inl refl); unchanged = refl }
  answer_room_lem (some key) found =
      answer_file_lem key (file_of (lookup key l.stores) id) found refl

-- A request for a file is refused with 400, 404 or 429 and the lobby stays as it was, or it is a
-- download of a file that the named room shares, for a subscriber that the file has accepted.
pub get_file_lem :
    (room_id : Option Bytes) (file_id : Option ℤ) (l : Lobby)
    → IsRefusal l (get_file room_id file_id l)
      ⊎ IsDownload room_id file_id l (get_file room_id file_id l)
unfolding get_file answer_id
get_file_lem none file_id l =
    inl record { refusal = _; result = refl; status = inl refl; unchanged = refl }
get_file_lem (some name) file_id l = elim (Bool-cases (valid_room_id name)) [
  | inr invalid ↦
      rw (invalid) (inl record { refusal = _; result = refl; status = inl refl; unchanged = refl })
  | inl valid ↦ rw (valid) (for_id valid file_id)
]
  where
    for_id :
        valid_room_id name ≡ true
        → (id : Option ℤ)
        → IsRefusal l (answer_id name id l) ⊎ IsDownload (some name) id l (answer_id name id l)
    for_id valid none =
        inl record { refusal = _; result = refl; status = inl refl; unchanged = refl }
    for_id valid (some id) = answer_room_lem l name valid id (get_room name l) refl
