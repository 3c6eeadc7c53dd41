-- ===== src/Rooms/Peer/CloseDetail.antt =====
-- `boundedCloseDetail` of server/src/rooms/Peer.cpp: at most 120 bytes of the peer's close reason,
-- with `?` for what is no UTF-8 sequence or does not fit.
use conspire.Prelude.{
  ℕ, zero, suc, ◌+◌, ◌-◌, ◌≤◌, ◌<◌, ◌≡◌, refl, sym, ◌∙◌, Bool, true, false, not, ◌&&◌, ◌||◌, [],
  ◌∷◌, ◌++◌, Option, none, some, arith, ltb, leb, ◌==◌, length, length-append, take, drop,
  length-take, length-drop, if◌then◌else◌,
}
use mathlib.Core.Bool.{false≢true}
use mathlib.Core.List.{append-nil, append_assoc}
use conspire.Prelude.Bytes.{Bytes, All, within, all_of}

abbrev pub max_bytes : ℕ
max_bytes = 120

unfoldable pub sequence_length : ℕ → ℕ
sequence_length lead =
    if ltb lead 0x80
    then 1
    else if within 0xc2 0xdf lead
    then 2
    else if within 0xe0 0xef lead
    then 3
    else if within 0xf0 0xf4 lead
    then 4
    else 0

-- (character & 0xc0) == 0x80
unfoldable pub is_continuation : ℕ → Bool
is_continuation c = within 0x80 0xbf c

-- The bytes from the index on, of which `lead` is the first, hold the whole sequence.
unfoldable pub is_sequence : ℕ → Bytes → Bool
is_sequence count [] = false
is_sequence count (lead ∷ rest) =
    not (count == 0)
    && leb count (length (lead ∷ rest))
    && all_of is_continuation (take (count - 1) rest)

-- The loop over the rest of the value, with the safe text so far. Each round takes a byte or more,
-- so the number of bytes is fuel enough.
unfoldable pub bound_loop : ℕ → Bytes → Bytes → Bytes
bound_loop fuel safe [] = safe
bound_loop zero safe (c ∷ cs) = safe
bound_loop (suc fuel) safe (c ∷ cs) =
    let count = sequence_length c in
    let keep = bound_loop fuel (safe ++ take count (c ∷ cs)) (drop count (c ∷ cs)) in
    let skip = bound_loop fuel (safe ++ b'?' ∷ []) cs in
    if not (ltb (length safe) max_bytes)
    then safe
    else if not (is_sequence count (c ∷ cs)) || ltb max_bytes (length safe + count)
    then skip
    else keep

unfoldable pub bounded_close_detail : Option Bytes → Bytes
bounded_close_detail none = []
bounded_close_detail (some value) = bound_loop (length value) [] value

length-take-le : (n : ℕ) (xs : Bytes) → length (take n xs) ≤ n
length-take-le n xs = omega (arith, length-take n xs)

length-bound_loop :
    (fuel : ℕ) (safe value : Bytes)
    → length safe ≤ max_bytes
    → length (bound_loop fuel safe value) ≤ max_bytes
unfolding bound_loop
length-bound_loop fuel safe [] h = h
length-bound_loop zero safe (c ∷ cs) h = h
length-bound_loop (suc fuel) safe (c ∷ cs) h = ground (
  arith,
  length-append safe (b'?' ∷ []),
  length-append safe (take (sequence_length c) (c ∷ cs)),
  length-take-le (sequence_length c) (c ∷ cs),
  length-bound_loop fuel (safe ++ b'?' ∷ []) cs,
  length-bound_loop fuel (safe ++ take (sequence_length c) (c ∷ cs))
      (drop (sequence_length c) (c ∷ cs)),
)

is_sequence-pos : (count : ℕ) (value : Bytes) → is_sequence count value ≡ true → 0 < count
unfolding is_sequence
is_sequence-pos count [] h = absurd (false≢true h)
is_sequence-pos count (c ∷ cs) h = ground arith

bound_loop_fuel :
    (f g : ℕ) (safe value : Bytes)
    → length value ≤ f
    → length value ≤ g
    → bound_loop f safe value ≡ bound_loop g safe value
unfolding bound_loop
bound_loop_fuel zero zero safe value hf hg = refl
bound_loop_fuel zero (suc g) safe [] hf hg = refl
bound_loop_fuel zero (suc g) safe (c ∷ cs) hf hg = absurd (omega arith)
bound_loop_fuel (suc f) zero safe [] hf hg = refl
bound_loop_fuel (suc f) zero safe (c ∷ cs) hf hg = absurd (omega arith)
bound_loop_fuel (suc f) (suc g) safe [] hf hg = refl
bound_loop_fuel (suc f) (suc g) safe (c ∷ cs) hf hg = ground (
  arith,
  is_sequence-pos (sequence_length c) (c ∷ cs),
  length-drop (sequence_length c) (c ∷ cs),
  bound_loop_fuel f g (safe ++ b'?' ∷ []) cs,
  bound_loop_fuel f g (safe ++ take (sequence_length c) (c ∷ cs))
      (drop (sequence_length c) (c ∷ cs)),
)

sequence_length-ascii : (c : ℕ) → c < 0x80 → sequence_length c ≡ 1
unfolding sequence_length
sequence_length-ascii c h = ground arith

is_sequence-one : (c : ℕ) (cs : Bytes) → is_sequence 1 (c ∷ cs) ≡ true
unfolding is_sequence
is_sequence-one c cs = ground arith

bound_loop_ascii :
    (fuel : ℕ) (safe value : Bytes)
    → length value ≤ fuel
    → length safe + length value ≤ max_bytes
    → All (λ c. c < 0x80) value
    → bound_loop fuel safe value ≡ safe ++ value
unfolding bound_loop
bound_loop_ascii zero safe [] hf hs a = sym (append-nil safe)
bound_loop_ascii zero safe (c ∷ cs) hf hs a = absurd (omega arith)
bound_loop_ascii (suc fuel) safe [] hf hs a = sym (append-nil safe)
bound_loop_ascii (suc fuel) safe (c ∷ cs) hf hs a =
    let room : ltb (length safe) max_bytes ≡ true = ground arith in
    let fits : ltb max_bytes (length safe + 1) ≡ false = ground arith in
    rw (sequence_length-ascii c a.0, is_sequence-one c cs, room, fits)
      (bound_loop_ascii fuel (safe ++ c ∷ []) cs (omega arith)
          (omega (arith, length-append safe (c ∷ []))) a.1
        ∙ append_assoc safe (c ∷ []) cs)

-- The stored reason has at most 120 bytes, whatever the client sent. The loop is done when it
-- returns: with more rounds than the value has bytes it gives the same text.
pub bounded_close_detail_lem :
    (value : Bytes) (more : ℕ)
    → (length (bounded_close_detail (some value)) ≤ max_bytes)
      × (bound_loop (length value + more) [] value ≡ bounded_close_detail (some value))
unfolding bounded_close_detail
bounded_close_detail_lem value more = (
  length-bound_loop (length value) [] value (omega arith),
  bound_loop_fuel (length value + more) (length value) [] value (omega arith) (omega arith),
)

-- A reason of at most 120 ASCII bytes is stored as it came.
pub bounded_close_detail-ascii :
    (value : Bytes)
    → length value ≤ max_bytes
    → All (λ c. c < 0x80) value
    → bounded_close_detail (some value) ≡ value
unfolding bounded_close_detail
bounded_close_detail-ascii value short ascii =
    bound_loop_ascii (length value) [] value (omega arith) (omega arith) ascii
