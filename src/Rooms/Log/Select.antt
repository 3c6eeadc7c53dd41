-- ===== src/Rooms/Log/Select.antt =====
-- Which messages `getHistoryAfter` of server/src/rooms/Room.cpp selects, and that a client which is
-- not told to resynchronise misses nothing.
use conspire.Prelude.{
  ℕ, zero, suc, ◌+◌, ◌-◌, ◌≤◌, ◌<◌, ◌≡◌, leb, refl, sym, ap, ◌∙◌, Bool, true, false, not, ◌&&◌,
  List, [], ◌∷◌, none, some, arith, ltb, ◌==◌, length, drop, length-drop, u64_max, Bool-cases, inl,
  inr, if◌then◌else◌,
}
use conspire.Session.Sequencer.{requires_replay_resync}
use conspire.Rooms.Dto.{MessageDto}
use conspire.Rooms.Log.Replay.{
  stamp_from, add_all, Holds, drop-nil, drop-drop, add_all-Holds, empty-Holds,
}
use conspire.Rooms.Log.{Log, empty, earliest, is_after, select_after, get_history_after}

drop-stamp_from :
    (a k : ℕ) (xs : List MessageDto) → drop a (stamp_from k xs) ≡ stamp_from (k + a) (drop a xs)
drop-stamp_from zero k xs = ap (λ j. stamp_from j xs) (omega arith)
drop-stamp_from (suc a) k [] = refl
drop-stamp_from (suc a) k (x ∷ xs) =
    drop-stamp_from a (suc k) xs ∙ ap (λ j. stamp_from j (drop a xs)) (omega arith)

-- A cursor before every number selects everything.
select_all :
    (cursor k : ℕ) (xs : List MessageDto)
    → cursor < k
    → select_after false cursor (stamp_from k xs) ≡ stamp_from k xs
unfolding select_after is_after
select_all cursor k [] h = refl
select_all cursor k (x ∷ xs) h =
    let e : ltb cursor k ≡ true = ground arith in
    rw e (ap (◌∷◌ (record x { server_seq = some k })) (select_all cursor (suc k) xs (omega arith)))

select_resync : (cursor : ℕ) (xs : List MessageDto) → select_after true cursor xs ≡ xs
unfolding select_after
select_resync cursor [] = refl
select_resync cursor (x ∷ xs) = ap (◌∷◌ x) (select_resync cursor xs)

select_none :
    (cursor k : ℕ) (xs : List MessageDto)
    → select_after false cursor (stamp_from k xs) ≡ drop (suc cursor - k) (stamp_from k xs)
unfolding select_after is_after
select_none cursor k [] = sym (drop-nil (suc cursor - k))
select_none cursor k (x ∷ xs) = elim (Bool-cases (ltb cursor k)) [
  | inl new ↦
      let e : suc cursor - k ≡ 0 = ground arith in
      rw (new, e)
        (ap (◌∷◌ (record x { server_seq = some k })) (select_all cursor (suc k) xs (ground arith)))
  | inr old ↦
      let e : suc cursor - k ≡ suc (cursor - k) = ground arith in
      let d : suc cursor - suc k ≡ cursor - k = omega arith in
      rw (old, e) (rw d at (select_none cursor (suc k) xs))
]

earliest-stamp_from :
    (k : ℕ) (xs : List MessageDto)
    → earliest (stamp_from k xs) ≡ (if length xs == 0 then none else some k)
unfolding earliest
earliest-stamp_from k [] = refl
earliest-stamp_from k (x ∷ xs) = ground arith

module _ (maximum cursor : ℕ) (all : List MessageDto) (l : Log) (h : Holds maximum all l) where
  abbrev dropped : ℕ
  dropped = length all - maximum

  history-eq : l.history ≡ stamp_from (1 + dropped) (drop dropped all)
  history-eq = h.kept ∙ drop-stamp_from dropped 1 all

  resync-eq : (get_history_after cursor l).1 ≡ not (leb cursor (length all) && leb dropped cursor)
  unfolding get_history_after requires_replay_resync
  resync-eq = ground (
    arith,
    h.numbered,
    ap earliest history-eq,
    earliest-stamp_from (1 + dropped) (drop dropped all),
    length-drop dropped all,
  )

  selected-eq :
      dropped ≤ cursor → select_after false cursor l.history ≡ drop cursor (stamp_from 1 all)
  selected-eq reached =
      rw
        (
          history-eq,
          select_none cursor (1 + dropped) (drop dropped all),
          ← drop-stamp_from dropped 1 all,
        )
        (drop-drop _ dropped (stamp_from 1 all) ∙ ap (λ k. drop k (stamp_from 1 all)) (omega arith))

  replayed-eq :
      (get_history_after cursor l).1 ≡ false
      → dropped ≤ cursor
      → (get_history_after cursor l).0 ≡ drop cursor (stamp_from 1 all)
  unfolding get_history_after
  replayed-eq quiet reached = rw quiet (selected-eq reached)

  resynced-eq :
      (get_history_after cursor l).1 ≡ true
      → (get_history_after cursor l).0 ≡ drop dropped (stamp_from 1 all)
  unfolding get_history_after
  resynced-eq loud = rw loud (select_resync cursor l.history ∙ h.kept)

-- The stretch of cursors from which a client can go on.
abbrev pub can_continue : ℕ → ℕ → List MessageDto → Bool
can_continue maximum cursor all = leb cursor (length all) && leb (length all) (cursor + maximum)

history_after-eq :
    (maximum cursor : ℕ) (all : List MessageDto) (l : Log)
    → Holds maximum all l
    → get_history_after cursor l ≡ (
        if can_continue maximum cursor all
        then (drop cursor (stamp_from 1 all), false)
        else (drop (length all - maximum) (stamp_from 1 all), true))
history_after-eq maximum cursor all l h =
    let resync = resync-eq maximum cursor all l h in
    elim (Bool-cases (can_continue maximum cursor all)) [
      | inl goes_on ↦
          let quiet : (get_history_after cursor l).1 ≡ false = ground (arith, resync) in
          rw goes_on
            (cc (replayed-eq maximum cursor all l h quiet (ground (arith, goes_on)), quiet))
      | inr starts_over ↦
          let loud : (get_history_after cursor l).1 ≡ true = ground (arith, resync) in
          rw starts_over (cc (resynced-eq maximum cursor all l h loud, loud))
    ]

-- Whatever was published in a room that keeps the last `maximum` messages, each message drew the
-- next number, and a client that has seen the first `cursor` of them gets exactly the rest, in
-- order and without a gap, unless it is told to resynchronise. It is told so exactly if its cursor
-- lies beyond the last message or a message that it misses is no longer kept; then it gets all that
-- is kept, the last `maximum` messages. The sequence numbers must last.
pub replay_exact :
    (maximum cursor : ℕ) (all : List MessageDto)
    → 0 < maximum
    → length all ≤ u64_max
    → (l : Log) × (add_all (some maximum) empty all ≡ some l)
      × (get_history_after cursor l ≡ (
          if can_continue maximum cursor all
          then (drop cursor (stamp_from 1 all), false)
          else (drop (length all - maximum) (stamp_from 1 all), true)))
replay_exact maximum cursor all positive room =
    let (l, e, h) =
      add_all-Holds maximum [] empty all positive (omega arith) (empty-Holds maximum) in
    (l, e, history_after-eq maximum cursor all l h)
