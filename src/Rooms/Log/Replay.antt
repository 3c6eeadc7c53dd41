-- ===== src/Rooms/Log/Replay.antt =====
-- What a returning client gets (server/src/rooms/Room.cpp, `getHistoryAfter`) against the list of
-- everything that was published in the room.
use conspire.Prelude.{
  ℕ, zero, suc, ◌+◌, ◌-◌, ◌≤◌, ◌<◌, ◌≡◌, refl, sym, ap, ◌∙◌, false, List, [], ◌∷◌, ◌++◌, Option,
  none, some, arith, ◌==◌, length, length-append, drop, length-drop, u64_max,
}
use mathlib.Core.List.{append_assoc, append-nil}
use conspire.Boundaries.Limits.{retain_last, retain_last-eq-drop}
use conspire.Session.Sequencer.{RoomSequencer, next_lem}
use conspire.Rooms.Dto.{MessageDto}
use conspire.Rooms.Log.{Log, empty, keeps_none, retain, add_history_message}

-- The specification keeps everything: the messages numbered from `k` on.
abbrev pub stamp_from : ℕ → List MessageDto → List MessageDto
stamp_from k [] = []
stamp_from k (m ∷ ms) = record m { server_seq = some k } ∷ stamp_from (suc k) ms

-- The room's log after the messages, one after another.
abbrev pub add_all : Option ℕ → Log → List MessageDto → Option Log
add_all maximum l [] = some l
add_all maximum l (m ∷ ms) = elim (add_history_message maximum l m) [
  | none ↦ none
  | some (l', m') ↦ add_all maximum l' ms
]

-- The log holds the last messages of the numbered list `all`, as many as the room keeps.
pub record Holds (maximum : ℕ) (all : List MessageDto) (l : Log) : Type 0 where
  pub kept : l.history ≡ drop (length all - maximum) (stamp_from 1 all)
  pub numbered : l.sequencer.latest ≡ length all

stamp_from-append :
    (k : ℕ) (xs ys : List MessageDto)
    → stamp_from k (xs ++ ys) ≡ stamp_from k xs ++ stamp_from (k + length xs) ys
stamp_from-append k [] ys = ap (λ j. stamp_from j ys) (omega arith)
stamp_from-append k (x ∷ xs) ys = ap (◌∷◌ (record x { server_seq = some k })) (
    stamp_from-append (suc k) xs ys
    ∙ ap (λ j. stamp_from (suc k) xs ++ stamp_from j ys) (omega arith))

pub length-stamp_from : (k : ℕ) (xs : List MessageDto) → length (stamp_from k xs) ≡ length xs
length-stamp_from k [] = refl
length-stamp_from k (x ∷ xs) = ap suc (length-stamp_from (suc k) xs)

drop-append {ℓ} :
    {A : Type ℓ} (n : ℕ) (xs ys : List A) → n ≤ length xs → drop n (xs ++ ys) ≡ drop n xs ++ ys
drop-append zero xs ys h = refl
drop-append (suc n) [] ys h = absurd (omega arith)
drop-append (suc n) (x ∷ xs) ys h = drop-append n xs ys (omega arith)

pub drop-nil {ℓ} : {A : Type ℓ} (n : ℕ) → drop {A = A} n [] ≡ []
drop-nil zero = refl
drop-nil (suc n) = refl

pub drop-drop {ℓ} : {A : Type ℓ} (m n : ℕ) (xs : List A) → drop m (drop n xs) ≡ drop (n + m) xs
drop-drop m zero xs = ap (λ k. drop k xs) (omega arith)
drop-drop m (suc n) [] = drop-nil m ∙ sym (drop-nil (suc n + m))
drop-drop m (suc n) (x ∷ xs) =
    let e : suc n + m ≡ suc (n + m) = omega arith in rw e (drop-drop m n xs)

retain_positive :
    (maximum : ℕ) (l : Log) (s : RoomSequencer) (m : MessageDto)
    → 0 < maximum
    → retain (some maximum) l s m
      ≡ record { history = retain_last maximum (l.history ++ m ∷ []); sequencer = s }
unfolding retain keeps_none
retain_positive maximum l s m positive = let e : (maximum == 0) ≡ false = ground arith in rw e

module _ (maximum : ℕ) (all : List MessageDto) (l : Log) (h : Holds maximum all l) where
  -- What is kept stays the end of what was published, also when the oldest message goes.
  retained :
      (m : MessageDto)
      → retain_last maximum (l.history ++ m ∷ [])
        ≡ drop (length all + 1 - maximum) (stamp_from 1 all ++ m ∷ [])
  retained m =
      let a : ℕ = length all - maximum in
      let size = length-stamp_from 1 all in
      retain_last-eq-drop maximum (l.history ++ m ∷ [])
      ∙ rw (h.kept, ← drop-append a (stamp_from 1 all) (m ∷ []) (omega (arith, size)))
          (drop-drop _ a (stamp_from 1 all ++ m ∷ [])
            ∙ ap (λ k. drop k (stamp_from 1 all ++ m ∷ []))
                (omega (
                  arith,
                  size,
                  length-drop a (stamp_from 1 all ++ m ∷ []),
                  length-append (stamp_from 1 all) (m ∷ []),
                )))

  abbrev numbered_next : MessageDto → MessageDto
  numbered_next m = record m { server_seq = some (l.sequencer.latest + 1) }

  -- Below the last number the message is accepted under the next one.
  add-eq-some :
      (m : MessageDto)
      → length all < u64_max
      → add_history_message (some maximum) l m
        ≡ some (
            (
              retain
                  (some maximum)
                  l
                  (record { latest = l.sequencer.latest + 1 })
                  (numbered_next m),
              numbered_next m,
            ))
  unfolding add_history_message
  add-eq-some m room =
      let drawn = next_lem l.sequencer (omega (arith, h.numbered)) in
      rw (drawn, add_history_message) (cc drawn)

  stamped-append :
      (m : MessageDto) → stamp_from 1 (all ++ m ∷ []) ≡ stamp_from 1 all ++ numbered_next m ∷ []
  stamped-append m =
      stamp_from-append 1 all (m ∷ [])
      ∙ ap (λ j. stamp_from 1 all ++ record m { server_seq = some j } ∷ [])
          (omega (arith, h.numbered))

  retain-Holds :
      (m : MessageDto)
      → 0 < maximum
      → Holds maximum
          (all ++ m ∷ [])
          (retain (some maximum) l (record { latest = l.sequencer.latest + 1 }) (numbered_next m))
  retain-Holds m positive = rw (retain_positive maximum l _ (numbered_next m) positive) (record {
    kept =
        retained (numbered_next m)
        ∙ ap (λ k. drop (k - maximum) (stamp_from 1 all ++ numbered_next m ∷ []))
            (omega (arith, length-append all (m ∷ [])))
        ∙ ap (drop (length (all ++ m ∷ []) - maximum)) (sym (stamped-append m));
    numbered = omega (arith, h.numbered, length-append all (m ∷ []));
  })

pub empty-Holds : (maximum : ℕ) → Holds maximum [] empty
empty-Holds maximum = record { kept = sym (drop-nil (0 - maximum)); numbered = refl }

pub add_all-Holds :
    (maximum : ℕ) (all : List MessageDto) (l : Log) (ms : List MessageDto)
    → 0 < maximum
    → length all + length ms ≤ u64_max
    → Holds maximum all l
    → (l' : Log) × (add_all (some maximum) l ms ≡ some l') × Holds maximum (all ++ ms) l'
add_all-Holds maximum all l [] positive room h = (l, refl, rw (append-nil all) h)
add_all-Holds maximum all l (m ∷ ms) positive room h =
    rw (add-eq-some maximum all l h m (omega arith), add_all, ← append_assoc all (m ∷ []) ms)
      (add_all-Holds maximum (all ++ m ∷ []) _ ms positive
        (omega (arith, length-append all (m ∷ []))) (retain-Holds maximum all l h m positive))
