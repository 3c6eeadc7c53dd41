-- ===== src/Statistics/State/Kept.antt =====
-- Loading changes nothing unless it succeeds, and brings back the counters that were saved.
use mathlib.Core.Path.{subst}
use conspire.Prelude.{
  ◌≡◌, ◌≢◌, refl, sym, ap, ◌∙◌, ◌++◌, map, true, false, not, ◌&&◌, List, [], ◌∷◌, Option, none,
  some, arith, Bool-cases, inl, inr, ◌⊎◌,
}
use conspire.Prelude.Int.{ℤ, pos, ltbℤ, ◌-ℤ◌}
use conspire.Prelude.Bytes.{Bytes, All}
use conspire.Statistics.Samples.{StatPointDto, time_of}
use conspire.Statistics.State.{
  Store, StateFile, opened, unopened, StateLoadResult, loaded, counters_of, last_of, retain_window,
  accepted_points, valid_point, valid_points, c_text, restore, file_content, failure_of, finished,
  read_points, load_state,
}

-- From `oldest` to `now`.
abbrev pub IsWithin : ℤ → ℤ → StatPointDto → Type 0
IsWithin oldest now p = (ltbℤ (time_of p) oldest ≡ false) × (ltbℤ now (time_of p) ≡ false)

retain_window-IsWithin :
    (oldest now : ℤ) (ps : List StatPointDto)
    → All (IsWithin oldest now) (retain_window oldest now ps)
unfolding retain_window
retain_window-IsWithin oldest now [] = tt
retain_window-IsWithin oldest now (p ∷ ps) =
    elim (Bool-cases (not (ltbℤ (time_of p) oldest) && not (ltbℤ now (time_of p)))) [
      | inl kept ↦ rw (kept) ((ground arith, ground arith), retain_window-IsWithin oldest now ps)
      | inr dropped ↦ rw (dropped) (retain_window-IsWithin oldest now ps)
    ]

-- The points that pass the checks are those of the list, in their order, and each is valid.
valid_points-eq-some :
    (previous : ℤ) (ps : List (Option StatPointDto)) (qs : List StatPointDto)
    → valid_points previous ps ≡ some qs
    → (ps ≡ map some qs) × All (λ q. valid_point (some q) ≡ true) qs
unfolding valid_points
valid_points-eq-some previous [] [] h = (refl, tt)
valid_points-eq-some previous [] (q ∷ qs) h = absurd (cc h)
valid_points-eq-some previous (none ∷ ps) qs h = absurd (cc h)
valid_points-eq-some previous (some p ∷ ps) [] h = absurd (ground (arith, h))
valid_points-eq-some previous (some p ∷ ps) (q ∷ qs) h =
    let same_point : p ≡ q = ground (arith, h) in
    let later : valid_points (time_of p) ps ≡ some qs = ground (arith, h) in
    let valid : valid_point (some p) ≡ true = ground (arith, h) in
    let (same_points, all_valid) = valid_points-eq-some (time_of p) ps qs later in
    (
      cc (same_point, same_points),
      (ap (λ (r : StatPointDto). valid_point (some r)) (sym same_point) ∙ valid, all_valid),
    )

accepted_points-eq-some :
    (parsed : Option (List (Option StatPointDto))) (qs : List StatPointDto)
    → accepted_points parsed ≡ some qs
    → (parsed ≡ some (map some qs)) × All (λ q. valid_point (some q) ≡ true) qs
unfolding accepted_points
accepted_points-eq-some none qs h = absurd (cc h)
accepted_points-eq-some (some points) qs h =
    let (same, all_valid) = valid_points-eq-some (pos 0) points qs (ground (arith, h)) in
    (ap some same, all_valid)

read_points-eq-some :
    (parse : Bytes → Option (List (Option StatPointDto))) (content : Option Bytes)
    (points : List (Option StatPointDto))
    → read_points parse content ≡ some points
    → (text : Bytes) × (content ≡ some text) × (parse (c_text text) ≡ some points)
read_points-eq-some parse none points h = absurd (cc h)
read_points-eq-some parse (some text) points h = (text, refl, h)

last_of_split :
    (p : StatPointDto) (ps : List StatPointDto)
    → (before : List StatPointDto) × (p ∷ ps ≡ before ++ (last_of p ps ∷ []))
last_of_split p [] = ([], refl)
last_of_split p (q ∷ qs) =
    let (before, same) = last_of_split q qs in (p ∷ before, ap (λ l. p ∷ l) same)

module _ (parse : Bytes → Option (List (Option StatPointDto))) (now : ℤ) where
  -- The store after a load that succeeded: the text of the file is a list of valid points, none of
  -- them null, the counters are those of the last, and the points kept are within the window.
  abbrev pub IsRestored : StateFile → Store → Store → Type 0
  IsRestored file s s' =
      (text : Bytes) × (before : List StatPointDto) × (last : StatPointDto) × (file_content file
        ≡ some text)
      × (parse (c_text text) ≡ some (map some (before ++ (last ∷ []))))
      × All (λ q. valid_point (some q) ≡ true) (before ++ (last ∷ []))
      × (s'.counters ≡ counters_of last)
      × All (IsWithin (now -ℤ s.periods.max_period) now) s'.points

  -- What holds after a load.
  abbrev pub IsLoad : StateFile → Store → StateLoadResult × Store → Type 0
  IsLoad file s outcome =
      (outcome.0 ≢ loaded) × (outcome.1 ≡ s) ⊎ (outcome.0 ≡ loaded) × IsRestored file s outcome.1

  failure_of_lem : (file : StateFile) → failure_of file ≢ loaded
  unfolding failure_of
  failure_of_lem (unopened none) h = absurd (cc h)
  failure_of_lem (unopened (some true)) h = absurd (cc h)
  failure_of_lem (unopened (some false)) h = absurd (cc h)
  failure_of_lem (opened size content) h = absurd (cc h)

  finished_lem :
      (file : StateFile) (s : Store) (points : Option (List StatPointDto))
      → accepted_points (read_points parse (file_content file)) ≡ points
      → IsLoad file s (finished file s (restore now s points))
  unfolding restore
  finished_lem file s none read = inl (failure_of_lem file, refl)
  finished_lem file s (some []) read = inl (failure_of_lem file, refl)
  finished_lem file s (some (p ∷ ps)) read =
      let (parsed, all_valid) = accepted_points-eq-some _ (p ∷ ps) read in
      let (text, opens, parses) = read_points-eq-some parse (file_content file) _ parsed in
      let (before, split) = last_of_split p ps in
      inr (
        refl,
        (
          text,
          before,
          last_of p ps,
          opens,
          parses ∙ ap (λ l. some (map some l)) split,
          subst (All (λ q. valid_point (some q) ≡ true)) split all_valid,
          refl,
          retain_window-IsWithin (now -ℤ s.periods.max_period) now (p ∷ ps),
        ),
      )

  -- A load that does not report success leaves the counters and the points as they were. One that
  -- does has read a text that parses to valid points, at least one and none of them null. The
  -- counters are then those of the last point, and no point is kept that is older than the period
  -- or in the future.
  pub load_state_lem : (file : StateFile) (s : Store) → IsLoad file s (load_state parse now file s)
  unfolding load_state
  load_state_lem file s = finished_lem file s _ refl
