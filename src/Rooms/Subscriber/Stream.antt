-- ===== src/Rooms/Subscriber/Stream.antt =====
-- What a download delivers (`File::Subscriber` of server/src/rooms/File.cpp).
use conspire.Prelude.{
  ℕ, ◌+◌, ◌≤◌, ◌≡◌, refl, Bool, true, List, [], ◌∷◌, ◌++◌, Option, none, some, arith, length,
  length-append,
}
use mathlib.Core.Bool.{false≢true}
use mathlib.Core.List.{append-nil}
use conspire.Prelude.Int.{ℤ, pos, to_u64}
use conspire.Prelude.Bytes.{Bytes}
use conspire.Boundaries.Chunk.{Result, accepted, ChunkRequest, begin, cancel}
use conspire.Boundaries.Chunk.Once.{Received, ends, repeated, refused, accept-Received}
use conspire.Rooms.Subscriber.{
  FileInfo, Subscriber, Read, bytes, subscriber, provide_file_chunk, request_chunk,
  reissue_outstanding_request, read_chunk, invalidate, received,
}

abbrev pub buffered : Option Bytes → Bytes
buffered none = []
buffered (some b) = b

-- What the download has delivered and the host has provided, with the subscriber.
pub record Transfer : Type 0 where
  pub subscriber : Subscriber
  pub delivered : Bytes
  pub provided : Bytes

-- The bytes that were provided are those that were delivered and those that wait. What was
-- delivered is the progress. What waits or is asked for fits into the file.
pub record IsStream (f : FileInfo) (t : Transfer) : Type 0 where
  pub ordered : t.provided ≡ t.delivered ++ buffered t.subscriber.chunk
  pub progressed : t.subscriber.progress ≡ length t.delivered
  pub within : length t.provided ≤ f.size
  pub asked :
      t.subscriber.request.outstanding ≡ true
      → (t.subscriber.request.position ≡ pos t.subscriber.progress)
        × (to_u64 t.subscriber.request.size + t.subscriber.progress ≤ f.size)
        × (t.subscriber.chunk ≡ none)

pub data Event : Type 0 where
  reads : ℕ → Bool → Event
  provides : ℕ → ℤ → ℤ → Bytes → Event
  reissues : Bool → Event
  invalidates : Event

abbrev pub delivered_by : Read → Bytes
delivered_by (bytes b) = b
delivered_by _ = []

abbrev pub provided_by : Result → Bytes → Bytes
provided_by accepted b = b
provided_by _ b = []

unfoldable pub step : FileInfo → Transfer → Event → Transfer
step f t (reads count present) =
    let (s, r) = read_chunk f present t.subscriber count in
    record t { subscriber = s; delivered = t.delivered ++ delivered_by r }
step f t (provides id position size content) =
    let (s, r) = provide_file_chunk t.subscriber id position size (some content) in
    record t { subscriber = s; provided = t.provided ++ provided_by r content }
step f t (reissues present) = record t {
  subscriber = (reissue_outstanding_request f present t.subscriber).0;
}
step f t invalidates = record t { subscriber = invalidate t.subscriber }

read-IsStream :
    (f : FileInfo) (t : Transfer) (count : ℕ) (present : Bool) (chunk : Option Bytes)
    → t.subscriber.chunk ≡ chunk
    → IsStream f t
    → IsStream f (step f t (reads count present))
unfolding step read_chunk request_chunk begin cancel
read-IsStream f t count present none e i =
    ground (arith, append-nil t.delivered, length-append t.delivered [])
read-IsStream f t count present (some c) e i =
    ground
      (arith, append-nil t.delivered, append-nil (t.delivered ++ c), length-append t.delivered c)

provided-IsStream :
    (f : FileInfo) (t : Transfer) (position size : ℤ) (content : Bytes) (r : ChunkRequest × Result)
    → Received t.subscriber.request position size (length content) r
    → IsStream f t
    → let s = received t.subscriber (some content) r in
      IsStream f (record t { subscriber = s.0; provided = t.provided ++ provided_by s.1 content })
unfolding received
provided-IsStream f t position size content r (ends hit done sized open_ here_ much) i =
    ground (arith, append-nil t.delivered, length-append t.provided content)
provided-IsStream f t position size content r (repeated e) i =
    rw e (ground (arith, append-nil t.provided))
provided-IsStream f t position size content r (refused e) i =
    rw e (ground (arith, append-nil t.provided))

provide-IsStream :
    (f : FileInfo) (t : Transfer) (id : ℕ) (position size : ℤ) (content : Bytes)
    → IsStream f t
    → IsStream f (step f t (provides id position size content))
unfolding step provide_file_chunk
provide-IsStream f t id position size content i =
    provided-IsStream f t position size content _
      (accept-Received t.subscriber.request id position size (length content)) i

reissue-IsStream :
    (f : FileInfo) (t : Transfer) (present : Bool)
    → IsStream f t
    → IsStream f (step f t (reissues present))
unfolding step reissue_outstanding_request request_chunk begin cancel
reissue-IsStream f t present i = ground arith

invalidate-IsStream :
    (f : FileInfo) (t : Transfer) → IsStream f t → IsStream f (step f t invalidates)
unfolding step invalidate cancel
invalidate-IsStream f t i = ground arith

step-IsStream : (f : FileInfo) (t : Transfer) (e : Event) → IsStream f t → IsStream f (step f t e)
step-IsStream f t (reads count present) i =
    read-IsStream f t count present t.subscriber.chunk refl i
step-IsStream f t (provides id position size content) i =
    provide-IsStream f t id position size content i
step-IsStream f t (reissues present) i = reissue-IsStream f t present i
step-IsStream f t invalidates i = invalidate-IsStream f t i

abbrev pub run : FileInfo → Transfer → List Event → Transfer
run f t [] = t
run f t (e ∷ es) = run f (step f t e) es

abbrev pub start : ℤ → Transfer
start id = record { subscriber = subscriber id; delivered = []; provided = [] }

run-IsStream :
    (f : FileInfo) (t : Transfer) (es : List Event) → IsStream f t → IsStream f (run f t es)
run-IsStream f t [] i = i
run-IsStream f t (e ∷ es) i = run-IsStream f (step f t e) es (step-IsStream f t e i)

-- Whatever the downloader reads and the host or anyone else answers, in whatever order: the bytes
-- that were delivered, followed by the chunk that waits to be read, are the accepted chunks in
-- their order, each once; as many were delivered as the progress says, never more than the size
-- that the file was shared with; and an outstanding request asks for what comes next and fits.
pub download-IsStream : (f : FileInfo) (id : ℤ) (es : List Event) → IsStream f (run f (start id) es)
download-IsStream f id es = run-IsStream f (start id) es (record {
  ordered = refl;
  progressed = refl;
  within = omega arith;
  asked = λ h. absurd (false≢true h);
})
