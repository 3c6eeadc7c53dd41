-- ===== src/Boundaries/Replace.antt =====
-- `replaceLiteral` of server/src/utils/ServerBoundaries.hpp.
pub mod Pieces
use conspire.Prelude.{
  ℕ, zero, suc, sym, ◌+◌, ◌≤◌, ◌<◌, ◌≡◌, ◌↔◌, refl, ap, ◌∙◌, Bool, true, false, [], ◌∷◌, ◌++◌, none,
  some, inl, inr, Option-cases, arith, length, take, drop, length-drop, if◌then◌else◌,
}
use conspire.Prelude.Bytes.{Bytes, find, is_prefix}
use conspire.Boundaries.Text.{is_empty}

-- The text is `done ++ rest`, and the search goes on in `rest`: `searchFrom` is the length of
-- `done`. Each round takes the marker off `rest`, so its length is fuel enough.
unfoldable pub replace_loop : ℕ → Bytes → Bytes → Bytes → Bytes → Bool → Bytes × Bool
replace_loop zero marker replacement done rest replaced = (done ++ rest, replaced)
replace_loop (suc fuel) marker replacement done rest replaced = elim (find marker rest) [
  | none ↦ (done ++ rest, replaced)
  | some position ↦
      replace_loop fuel marker replacement (done ++ (take position rest ++ replacement))
        (drop (position + length marker) rest) true
]

unfoldable pub replace_literal : Bytes → Bytes → Bytes → Bytes × Bool
replace_literal text marker replacement =
    if is_empty marker
    then (text, false)
    else replace_loop (length text) marker replacement [] text false

pub find-nil : (marker : Bytes) → 0 < length marker → find marker [] ≡ none
unfolding find is_prefix
find-nil [] h = absurd (omega arith)
find-nil (m ∷ ms) h = refl

pub replace_loop-none :
    (fuel : ℕ) (marker replacement done rest : Bytes) (replaced : Bool)
    → find marker rest ≡ none
    → replace_loop fuel marker replacement done rest replaced ≡ (done ++ rest, replaced)
unfolding replace_loop
replace_loop-none zero marker replacement done rest replaced e = refl
replace_loop-none (suc fuel) marker replacement done rest replaced e = rw (e, replace_loop)

zero-round :
    (marker replacement done rest : Bytes) (replaced : Bool)
    → replace_loop zero marker replacement done rest replaced ≡ (done ++ rest, replaced)
unfolding replace_loop
zero-round marker replacement done rest replaced = refl

pub replace_loop-some :
    (fuel position : ℕ) (marker replacement done rest : Bytes) (replaced : Bool)
    → find marker rest ≡ some position
    → replace_loop (suc fuel) marker replacement done rest replaced
      ≡ replace_loop fuel marker replacement
          (done ++ (take position rest ++ replacement))
          (drop (position + length marker) rest)
          true
unfolding replace_loop
replace_loop-some fuel position marker replacement done rest replaced e = rw (e, replace_loop)

pub replace_loop-nil :
    (fuel : ℕ) (marker replacement done : Bytes) (replaced : Bool)
    → 0 < length marker
    → replace_loop fuel marker replacement done [] replaced ≡ (done ++ [], replaced)
replace_loop-nil fuel marker replacement done replaced h =
    replace_loop-none fuel marker replacement done [] replaced (find-nil marker h)

replace_loop_fuel :
    (fuel more : ℕ) (marker replacement done rest : Bytes) (replaced : Bool)
    → 0 < length marker
    → length rest ≤ fuel
    → replace_loop (fuel + more) marker replacement done rest replaced
      ≡ replace_loop fuel marker replacement done rest replaced
replace_loop_fuel fuel more marker replacement done [] replaced h le =
    replace_loop-nil (fuel + more) marker replacement done replaced h
    ∙ sym (replace_loop-nil fuel marker replacement done replaced h)
replace_loop_fuel zero more marker replacement done (c ∷ cs) replaced h le = absurd (omega arith)
replace_loop_fuel (suc fuel) more marker replacement done (c ∷ cs) replaced h le =
    elim (Option-cases (find marker (c ∷ cs))) [
      | inl e ↦
          replace_loop-none (suc fuel + more) marker replacement done (c ∷ cs) replaced e
          ∙ sym (replace_loop-none (suc fuel) marker replacement done (c ∷ cs) replaced e)
      | inr found ↦
          let (position, e) = found in
          let left = drop (position + length marker) (c ∷ cs) in
          let shorter : length left ≤ fuel =
            omega (arith, length-drop (position + length marker) (c ∷ cs)) in
          let step : suc fuel + more ≡ suc (fuel + more) = omega arith in
          ap (λ n. replace_loop n marker replacement done (c ∷ cs) replaced) step
          ∙ replace_loop-some (fuel + more) position marker replacement done (c ∷ cs) replaced e
          ∙ replace_loop_fuel fuel more marker replacement
              (done ++ (take position (c ∷ cs) ++ replacement)) left true h shorter
          ∙ sym (replace_loop-some fuel position marker replacement done (c ∷ cs) replaced e)
    ]

-- Once something is replaced it stays reported.
replaced_stays :
    (fuel : ℕ) (marker replacement done rest : Bytes)
    → (replace_loop fuel marker replacement done rest true).1 ≡ true
replaced_stays zero marker replacement done rest =
    ap (λ r. r.1) (zero-round marker replacement done rest true)
replaced_stays (suc fuel) marker replacement done rest = elim (Option-cases (find marker rest)) [
  | inl e ↦ ap (λ r. r.1) (replace_loop-none (suc fuel) marker replacement done rest true e)
  | inr found ↦
      let (position, e) = found in
      ap (λ r. r.1) (replace_loop-some fuel position marker replacement done rest true e)
      ∙ replaced_stays fuel marker replacement _ _
]

replaced_iff :
    (fuel : ℕ) (marker replacement done rest : Bytes)
    → 0 < length marker
    → length rest ≤ fuel
    → ((replace_loop fuel marker replacement done rest false).1 ≡ false) ↔ (find marker rest ≡ none)
replaced_iff fuel marker replacement done [] h le = (
  λ e. find-nil marker h,
  λ e. ap (λ r. r.1) (replace_loop-nil fuel marker replacement done false h),
)
replaced_iff zero marker replacement done (c ∷ cs) h le = absurd (omega arith)
replaced_iff (suc fuel) marker replacement done (c ∷ cs) h le =
    elim (Option-cases (find marker (c ∷ cs))) [
      | inl e ↦ (
        λ r. e,
        λ r. ap (λ s. s.1) (replace_loop-none (suc fuel) marker replacement done (c ∷ cs) false e),
      )
      | inr found ↦
          let (position, e) = found in
          let done_ : (replace_loop (suc fuel) marker replacement done (c ∷ cs) false).1 ≡ true =
            ap (λ s. s.1) (replace_loop-some fuel position marker replacement done (c ∷ cs) false e)
            ∙ replaced_stays fuel marker replacement _ _ in
          (λ r. absurd (ground (arith, done_)), λ r. absurd (ground (arith, e)))
    ]

-- With any marker that is not empty the loop is done when it returns: more rounds than the text has
-- bytes give the same. Nothing is reported as replaced exactly if the text is without the marker.
-- The empty marker replaces nothing.
pub replace_literal_lem :
    (text marker replacement : Bytes) (more : ℕ)
    → 0 < length marker
    → (replace_literal text marker replacement
        ≡ replace_loop (length text + more) marker replacement [] text false)
      × (((replace_literal text marker replacement).1 ≡ false) ↔ (find marker text ≡ none))
      × (replace_literal text [] replacement ≡ (text, false))
unfolding replace_literal is_empty
replace_literal_lem text [] replacement more h = absurd (omega arith)
replace_literal_lem text (m ∷ ms) replacement more h = (
  sym (replace_loop_fuel (length text) more (m ∷ ms) replacement [] text false h (omega arith)),
  replaced_iff (length text) (m ∷ ms) replacement [] text h (omega arith),
  refl,
)
