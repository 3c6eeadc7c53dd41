-- ===== src/Boundaries/Replace/Pieces.antt =====
-- What `replaceLiteral` of server/src/utils/ServerBoundaries.hpp makes of the pieces between the
-- markers.
use conspire.Prelude.{
  ℕ, zero, suc, sym, ◌+◌, ◌≤◌, ◌<◌, ◌≡◌, ◌↔◌, refl, ap, ◌∙◌, Bool, true, false, List, [], ◌∷◌, ◌++◌,
  none, some, inl, inr, Option-cases, Bool-cases, arith, length, take, drop, length-drop,
}
use mathlib.Core.List.{append_assoc}
use conspire.Prelude.Bytes.{Bytes, find, is_prefix}
use conspire.Boundaries.Replace.{
  replace_literal, replace_literal_lem, replace_loop, replace_loop-none, replace_loop-some,
  replace_loop-nil, find-nil,
}

-- The pieces with the separator between them.
abbrev pub join : Bytes → Bytes → List Bytes → Bytes
join separator first [] = first
join separator first (piece ∷ pieces) = first ++ (separator ++ join separator piece pieces)

-- The pieces of a text that is searched from the left: each but the last ends where the marker
-- first occurs, and the last has none.
abbrev pub IsSplit : Bytes → Bytes → List Bytes → Type 0
IsSplit marker last [] = find marker last ≡ none
IsSplit marker piece (next ∷ pieces) =
    (find marker (piece ++ marker) ≡ some (length piece)) × IsSplit marker next pieces

is_prefix_self : (text : Bytes) → is_prefix text text ≡ true
unfolding is_prefix
is_prefix_self [] = refl
is_prefix_self (c ∷ cs) = ground (arith, is_prefix_self cs)

is_prefix_extend :
    (needle text more : Bytes)
    → is_prefix needle text ≡ true
    → is_prefix needle (text ++ more) ≡ true
unfolding is_prefix
is_prefix_extend [] text more h = refl
is_prefix_extend (n ∷ ns) [] more h = absurd (cc h)
is_prefix_extend (n ∷ ns) (c ∷ cs) more h = ground (arith, is_prefix_extend ns cs more)

is_prefix_split :
    (needle text : Bytes)
    → is_prefix needle text ≡ true
    → text ≡ needle ++ drop (length needle) text
unfolding is_prefix
is_prefix_split [] text h = refl
is_prefix_split (n ∷ ns) [] h = absurd (cc h)
is_prefix_split (n ∷ ns) (c ∷ cs) h =
    let later = is_prefix_split ns cs (ground (arith, h)) in
    let equal : n ≡ c = ground (arith, h) in cc (later, equal)

-- What `find` says of a text that begins with another byte.
find_later :
    (needle : Bytes) (c : ℕ) (cs : Bytes) (k : ℕ)
    → is_prefix needle (c ∷ cs) ≡ false
    → find needle (c ∷ cs) ≡ some k
    → (j : ℕ) × (k ≡ suc j) × (find needle cs ≡ some j)
unfolding find
find_later needle c cs k miss h = elim (Option-cases (find needle cs)) [
  | inl e ↦ absurd (ground (arith, e, miss, h))
  | inr found ↦ let (j, e) = found in (j, ground (arith, e, miss, h), e)
]

find_here :
    (needle : Bytes) (c : ℕ) (cs : Bytes) (k : ℕ)
    → is_prefix needle (c ∷ cs) ≡ true
    → find needle (c ∷ cs) ≡ some k
    → k ≡ 0
unfolding find
find_here needle c cs k hit h = ground arith

find_skip :
    (needle : Bytes) (c : ℕ) (cs : Bytes) (j : ℕ)
    → is_prefix needle (c ∷ cs) ≡ false
    → find needle cs ≡ some j
    → find needle (c ∷ cs) ≡ some (suc j)
unfolding find
find_skip needle c cs j miss e = rw (miss, e) refl

-- A text is what stands before the first occurrence, the needle, and the rest.
find_split :
    (needle text : Bytes) (k : ℕ)
    → 0 < length needle
    → find needle text ≡ some k
    → text ≡ take k text ++ (needle ++ drop (k + length needle) text)
find_split needle [] k long h = absurd (cc (h, find-nil needle long))
find_split needle (c ∷ cs) k long h = elim (Bool-cases (is_prefix needle (c ∷ cs))) [
  | inl hit ↦
      let first = find_here needle c cs k hit h in
      let here : 0 + length needle ≡ length needle = omega arith in
      rw (first, here) (is_prefix_split needle (c ∷ cs) hit)
  | inr miss ↦
      let (j, later, e) = find_later needle c cs k miss h in
      let one : suc j + length needle ≡ suc (j + length needle) = omega arith in
      rw (later, one) (ap (λ l. c ∷ l) (find_split needle cs j long e))
]

-- With nothing behind it the first occurrence is still the first, at the end of what is before.
find_piece :
    (needle text : Bytes) (k : ℕ)
    → 0 < length needle
    → find needle text ≡ some k
    → find needle (take k text ++ needle) ≡ some (length (take k text))
find_piece needle [] k long h = absurd (cc (h, find-nil needle long))
find_piece [] (c ∷ cs) k long h = absurd (omega arith)
find_piece (n ∷ ns) (c ∷ cs) k long h = elim (Bool-cases (is_prefix (n ∷ ns) (c ∷ cs))) [
  | inl hit ↦
      rw (find_here (n ∷ ns) c cs k hit h) (unfold find in rw (is_prefix_self (n ∷ ns)) refl)
  | inr miss ↦
      let (j, later, e) = find_later (n ∷ ns) c cs k miss h in
      let before = take j cs in
      let after = drop (j + length (n ∷ ns)) cs in
      let whole : (c ∷ (before ++ (n ∷ ns))) ++ after ≡ c ∷ cs =
        ap (λ l. c ∷ l)
          (append_assoc before (n ∷ ns) after ∙ sym (find_split (n ∷ ns) cs j long e)) in
      let absent : is_prefix (n ∷ ns) (c ∷ (before ++ (n ∷ ns))) ≡ false =
        elim (Bool-cases (is_prefix (n ∷ ns) (c ∷ (before ++ (n ∷ ns))))) [
          | inl hit ↦ absurd (
              cc (
                is_prefix_extend (n ∷ ns) (c ∷ (before ++ (n ∷ ns))) after hit,
                ap (is_prefix (n ∷ ns)) whole,
                miss,
              ))
          | inr other ↦ other
        ] in
      rw (later) (
        find_skip (n ∷ ns) c (before ++ (n ∷ ns)) (length before) absent
          (find_piece (n ∷ ns) cs j long e))
]

-- What the loop makes of the text that is left: its pieces, with the replacement between them.
abbrev Rejoins : Bytes → Bytes → Bytes → Bytes → Bytes → Type 0
Rejoins marker replacement done rest result =
    (first : Bytes) × (pieces : List Bytes) × (join marker first pieces ≡ rest)
    × IsSplit marker first pieces
    × (result ≡ done ++ join replacement first pieces)

Rejoins-none :
    (marker replacement done rest : Bytes)
    → find marker rest ≡ none
    → Rejoins marker replacement done rest (done ++ rest)
Rejoins-none marker replacement done rest e = (rest, [], refl, e, refl)

Rejoins-some :
    (marker replacement done rest result : Bytes) (k : ℕ)
    → 0 < length marker
    → find marker rest ≡ some k
    → Rejoins marker replacement
        (done ++ (take k rest ++ replacement))
        (drop (k + length marker) rest)
        result
    → Rejoins marker replacement done rest result
Rejoins-some marker replacement done rest result k long e (first, pieces, joined, split, same) = (
  take k rest,
  first ∷ pieces,
  ap (λ l. take k rest ++ (marker ++ l)) joined ∙ sym (find_split marker rest k long e),
  (find_piece marker rest k long e, split),
  same
      ∙ append_assoc done (take k rest ++ replacement) (join replacement first pieces)
      ∙ ap (λ l. done ++ l)
          (append_assoc (take k rest) replacement (join replacement first pieces)),
)

replace_loop-Rejoins :
    (fuel : ℕ) (marker replacement done rest : Bytes) (replaced : Bool)
    → 0 < length marker
    → length rest ≤ fuel
    → Rejoins marker replacement done rest
        (replace_loop fuel marker replacement done rest replaced).0
replace_loop-Rejoins fuel marker replacement done [] replaced long le =
    rw (replace_loop-nil fuel marker replacement done replaced long)
      (Rejoins-none marker replacement done [] (find-nil marker long))
replace_loop-Rejoins zero marker replacement done (c ∷ cs) replaced long le = absurd (omega arith)
replace_loop-Rejoins (suc fuel) marker replacement done (c ∷ cs) replaced long le =
    elim (Option-cases (find marker (c ∷ cs))) [
      | inl e ↦
          rw (replace_loop-none (suc fuel) marker replacement done (c ∷ cs) replaced e)
            (Rejoins-none marker replacement done (c ∷ cs) e)
      | inr found ↦
          let (k, e) = found in
          let left = drop (k + length marker) (c ∷ cs) in
          let shorter : length left ≤ fuel =
            omega (arith, length-drop (k + length marker) (c ∷ cs)) in
          rw (replace_loop-some fuel k marker replacement done (c ∷ cs) replaced e) (
            Rejoins-some marker replacement done (c ∷ cs) _ k long e (
              replace_loop-Rejoins fuel marker replacement
                (done ++ (take k (c ∷ cs) ++ replacement)) left true long shorter))
    ]

-- With a marker that is not empty the text comes apart at the occurrences of the marker, searched
-- from the left, and the result is the same pieces with the replacement between them. A text
-- without the marker comes back as it was. The replacement is reported exactly if there was a
-- marker, and the empty marker replaces nothing. The loop's fuel is enough: more gives the same.
pub replace_literal_pieces :
    (text marker replacement : Bytes) (more : ℕ)
    → 0 < length marker
    → ((first : Bytes) × (pieces : List Bytes) × (join marker first pieces ≡ text)
        × IsSplit marker first pieces
        × ((replace_literal text marker replacement).0 ≡ join replacement first pieces))
      × (((replace_literal text marker replacement).1 ≡ false) ↔ (find marker text ≡ none))
      × (((replace_literal text marker replacement) ≡ (text, false)) ↔ (find marker text ≡ none))
      × (replace_literal text [] replacement ≡ (text, false))
      × (replace_literal text marker replacement
          ≡ replace_loop (length text + more) marker replacement [] text false)
replace_literal_pieces text marker replacement more long =
    let (fueled, reported, unmarked) = replace_literal_lem text marker replacement more long in
    let (first, pieces, joined, split, same) =
      replace_loop-Rejoins (length text + more) marker replacement [] text false long
        (omega arith) in
    (
      (first, pieces, joined, split, ap (λ r. r.0) fueled ∙ same),
      reported,
      (
        λ e. reported.0 (ap (λ r. r.1) e),
        λ e. fueled ∙ replace_loop-none (length text + more) marker replacement [] text false e,
      ),
      unmarked,
      fueled,
    )
