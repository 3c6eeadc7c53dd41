-- ===== src/Boundaries/Limits.antt =====
-- `Limits`, the capacity tests and `retainLast` of server/src/utils/ServerBoundaries.hpp.
use conspire.Prelude.{
  ℕ, suc, ◌+◌, ◌-◌, ◌*◌, ◌≤◌, ◌<◌, ◌≡◌, ◌↔◌, Bool, true, not, ◌&&◌, List, [], ◌∷◌, inl, inr,
  Bool-cases, arith, ltb, leb, ◌==◌, length, drop, min, if◌then◌else◌,
}

-- A record of constants, as the source groups them.
pub record LimitTable : Type 0 where
  pub room_id : ℕ
  pub message : ℕ
  pub filename : ℕ
  pub files_per_message : ℕ
  pub file_bytes : ℕ
  pub media_type : ℕ
  pub chunk_bytes : ℕ
  pub rooms : ℕ
  pub peers_per_room : ℕ
  pub files_per_peer : ℕ
  pub subscribers_per_file : ℕ

abbrev pub limits : LimitTable
limits = record {
  room_id = 64;
  message = 8 * 1024;
  filename = 255;
  files_per_message = 16;
  file_bytes = 100 * 1024 * 1024;
  media_type = 32;
  chunk_bytes = 64 * 1024;
  rooms = 256;
  peers_per_room = 64;
  files_per_peer = 32;
  subscribers_per_file = 32;
}

unfoldable pub has_capacity : ℕ → ℕ → Bool
has_capacity current maximum = not (maximum == 0) && ltb current maximum

unfoldable pub has_capacity_for : ℕ → ℕ → ℕ → Bool
has_capacity_for current additional maximum =
    not (maximum == 0) && leb current maximum && leb additional (maximum - current)

-- The batch test accepts exactly the batches that fit, and a batch of one is the single test.
-- The limit zero admits nothing, not even the empty batch.
pub has_capacity_for_lem :
    (current additional maximum : ℕ)
    → ((has_capacity_for current additional maximum ≡ true)
        ↔ ((0 < maximum) × (current + additional ≤ maximum)))
      × (has_capacity_for current 1 maximum ≡ has_capacity current maximum)
unfolding has_capacity has_capacity_for
has_capacity_for_lem current additional maximum = (ground arith, ground arith)

module _ {ℓ} {A : Type ℓ} where
  -- while (values.size() > maximum) values.pop_front();
  -- The collection shrinks in each round, so the recursion is on it.
  unfoldable pub retain_last : ℕ → List A → List A
  retain_last maximum [] = []
  retain_last maximum (x ∷ xs) =
      let rest = retain_last maximum xs in if ltb maximum (length (x ∷ xs)) then rest else x ∷ xs

  -- What the loop leaves are the last `maximum` entries, in their order.
  pub retain_last-eq-drop :
      (maximum : ℕ) (xs : List A) → retain_last maximum xs ≡ drop (length xs - maximum) xs
  unfolding retain_last
  retain_last-eq-drop maximum [] = ground arith
  retain_last-eq-drop maximum (x ∷ xs) = elim (Bool-cases (ltb maximum (length (x ∷ xs)))) [
    | inl more ↦
        let e : suc (length xs) - maximum ≡ suc (length xs - maximum) = ground arith in
        rw (more, e) (retain_last-eq-drop maximum xs)
    | inr fits ↦ let e : suc (length xs) - maximum ≡ 0 = ground arith in rw (fits, e)
  ]

  pub length-retain_last :
      (maximum : ℕ) (xs : List A) → length (retain_last maximum xs) ≡ min maximum (length xs)
  unfolding retain_last
  length-retain_last maximum [] = omega arith
  length-retain_last maximum (x ∷ xs) = ground (arith, length-retain_last maximum xs)
