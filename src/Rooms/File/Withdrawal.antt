-- ===== src/Rooms/File/Withdrawal.antt =====
-- The end of a shared file's downloads (server/src/rooms/File.cpp).
use mathlib.Core.List.Memᴰ
use mathlib.Core.List.{Memᴰ}
use conspire.Prelude.{
  ℕ, ◌≤◌, ◌≡◌, refl, sym, ap, ◌∙◌, Bool-cases, inl, inr, Bool, true, [], ◌∷◌, Option, none, some,
  arith, length,
}
use conspire.Prelude.Int.{ℤ, int_eq, ◌==ℤ◌}
use conspire.Prelude.Maps.{Map, lookup, length-insert}
use conspire.Prelude.Bytes.{Bytes}
use conspire.Boundaries.Limits.{limits, has_capacity}
use conspire.Boundaries.Chunk.{invalid}
use conspire.Rooms.Subscriber.{Subscriber, FileInfo}
use conspire.Rooms.Subscriber
use conspire.Rooms.File.{
  File, Weak, subscribe, provide_to, provide_file_chunk, invalidate_all, clear_subscribers,
}

-- No read of the subscriber delivers anything, and nothing is asked for.
pub record IsOver (s : Subscriber) : Type 0 where
  pub fails :
      (f : FileInfo) (present : Bool) (count : ℕ)
      → Subscriber.read_chunk f present s count ≡ (s, Subscriber.Read.fails)
  pub silent :
      (f : FileInfo) (present : Bool)
      → Subscriber.reissue_outstanding_request f present s ≡ (s, none)

invalidate-IsOver : (s : Subscriber) → IsOver (Subscriber.invalidate s)
unfolding Subscriber.invalidate Subscriber.read_chunk Subscriber.reissue_outstanding_request
invalidate-IsOver s = record { fails = λ f present count. refl; silent = λ f present. refl }

-- A download that is still there is among those that are invalidated.
invalidate_all-lookup :
    (id : ℤ) (w : Weak) (ws : Map ℤ Weak)
    → lookup id ws ≡ some w
    → w.alive ≡ true
    → Memᴰ (Subscriber.invalidate w.target) (invalidate_all ws)
unfolding invalidate_all lookup
invalidate_all-lookup id w [] found alive = absurd (cc found)
invalidate_all-lookup id w ((j, v) ∷ ws) found alive = elim (Bool-cases (j ==ℤ id)) [
  | inl hit ↦
      let equal : v ≡ w = ground (arith, found, hit) in
      rw (ap (λ (u : Weak). u.alive) equal ∙ alive)
        (Memᴰ.head (ap (λ (u : Weak). Subscriber.invalidate u.target) (sym equal)))
  | inr miss ↦
      let later = invalidate_all-lookup id w ws (ground (arith, found, miss)) alive in
      elim (Bool-cases v.alive) [
        | inl present ↦ rw present (Memᴰ.tail later)
        | inr gone ↦ rw gone later
      ]
]

-- Once a file with a download under way is withdrawn, no download can begin and no chunk is taken
-- for any subscriber. The download, whichever of the file's it is, has been released and has ended:
-- the same subscriber, as far as it had come, whose reads fail and which sends no request.
pub clear_subscribers_ends :
    (f : File) (subscriber_id id : ℤ) (w : Weak) (request_id : ℕ) (position size : ℤ)
    (content : Option Bytes)
    → lookup id f.subscribers ≡ some w
    → w.alive ≡ true
    → let over = clear_subscribers f in
      (subscribe over ≡ (over, none))
      × (provide_file_chunk over subscriber_id request_id position size content ≡ (over, invalid))
      × ((s : Subscriber) × Memᴰ s over.released
          × (s.id ≡ w.target.id)
          × (s.progress ≡ w.target.progress)
          × IsOver s)
unfolding clear_subscribers subscribe provide_file_chunk provide_to lookup
clear_subscribers_ends f subscriber_id id w request_id position size content found alive = (
  refl,
  refl,
  (
    Subscriber.invalidate w.target,
    Memᴰ.append_left f.released (invalidate_all-lookup id w f.subscribers found alive),
    unfold Subscriber.invalidate in refl,
    unfold Subscriber.invalidate in refl,
    invalidate-IsOver w.target,
  ),
)

-- A file has at most 32 downloads.
pub subscribe_limit :
    (f : File)
    → length f.subscribers ≤ limits.subscribers_per_file
    → length (subscribe f).0.subscribers ≤ limits.subscribers_per_file
unfolding subscribe has_capacity
subscribe_limit f h = ground (
  arith,
  length-insert f.subscriber_id_counter
      (record { alive = true; target = Subscriber.subscriber f.subscriber_id_counter })
      f.subscribers,
)
