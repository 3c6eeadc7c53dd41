-- ===== src/Statistics/State/RoundTrip.antt =====
-- The counters that are sampled and saved are the counters that are loaded.
use mathlib.Core.Path.{subst}
use conspire.Prelude.{
  ℕ, ◌-◌, ◌≤◌, ◌≡◌, refl, sym, ap, ◌∙◌, true, false, ◌||◌, List, [], ◌∷◌, ◌++◌, map, Option, none,
  some, arith, ltb, length, length-map, Bool-cases, inl, inr,
}
use conspire.Prelude.Int.{ℤ, pos, ltbℤ, ◌-ℤ◌}
use conspire.Prelude.Bytes.{Bytes, All}
use conspire.Boundaries.Text.{is_empty}
use conspire.Statistics.{Statistics}
use conspire.Statistics.Samples.{
  StatPointDto, defaults, point_at, time_of, update_back, pop_old, is_current, take_sample,
}
use conspire.Statistics.Samples.Series.{
  IsSpaced, IsSeries, take_sample-IsSeries, series_bound, time_of-stamp, too_old_lem,
  append-IsSpaced, recent_lem, back_lem,
}
use conspire.Statistics.State.{
  Store, StateFile, opened, loaded, valid_point, valid_points, counters_of, last_of,
  accepted_points, restore, file_content, finished, c_text, load_state, save_state, save_text, Disk,
  max_state_bytes, max_state_points,
}
use conspire.Statistics.State.Whole.{write_atomically-eq-true}

-- A list that has a last point with these counters.
abbrev pub Records : Statistics → List StatPointDto → Type 0
Records counters points =
    (p : StatPointDto) × (ps : List StatPointDto) × (points ≡ p ∷ ps)
    × (counters_of (last_of p ps) ≡ counters)

update_back-Records :
    (counters : Statistics) (p : StatPointDto) (ps : List StatPointDto)
    → Records counters (update_back counters (p ∷ ps))
unfolding update_back
update_back-Records counters p [] = (_, [], refl, refl)
update_back-Records counters p (q ∷ qs) =
    let (r, rs, same, last) = update_back-Records counters q qs in
    (p, r ∷ rs, ap (λ l. p ∷ l) same, last)

-- The loop does not empty a list whose last point is as old as the clock.
pop_old_nonempty :
    (period gap now time : ℕ) (p : StatPointDto) (ps : List StatPointDto)
    → p.timestamp ≡ some (pos time)
    → IsSpaced gap now time ps
    → (q : StatPointDto) × (qs : List StatPointDto) × (pop_old (pos now) (pos period) (p ∷ ps)
        ≡ q ∷ qs)
unfolding pop_old IsSpaced
pop_old_nonempty period gap now time p [] stamp same =
    let young : ltb period (now - time) ≡ false = ground arith in
    (
      p,
      [],
      rw (
        time_of-stamp p (pos time) stamp,
        too_old_lem period now time (omega (arith, same)),
        young,
      ),
    )
pop_old_nonempty period gap now time p (q ∷ qs) stamp spaced =
    let (t, stamp', apart, rest) = spaced in
    elim (Bool-cases (ltbℤ (pos period) (pos now -ℤ time_of p))) [
      | inl old ↦ rw (old) (pop_old_nonempty period gap now t q qs stamp' rest)
      | inr young ↦ rw (young) (p, _, refl)
    ]

update_old-Records :
    (counters : Statistics) (period gap now time : ℕ) (p : StatPointDto) (ps : List StatPointDto)
    → p.timestamp ≡ some (pos time)
    → IsSpaced gap now time ps
    → Records counters (update_back counters (pop_old (pos now) (pos period) (p ∷ ps)))
update_old-Records counters period gap now time p ps stamp spaced =
    let (q, qs, same) = pop_old_nonempty period gap now time p ps stamp spaced in
    rw (same) (update_back-Records counters q qs)

take_sample-Records :
    (period gap now : ℕ) (counters : Statistics) (points : List StatPointDto)
    → IsSeries period gap points
    → Records counters (
        take_sample
          (record { max_period = pos period; push_interval = pos gap })
          counters
          (pos now)
          points)
unfolding take_sample is_current
take_sample-Records period gap now counters [] h =
    update_old-Records counters period gap now now (point_at (pos now)) [] refl
      (unfold IsSpaced in refl)
take_sample-Records period gap now counters (p ∷ ps) (first, last, stamp, spaced, span) =
    let (q, at_back, stamp') = back_lem gap last first p ps stamp spaced in
    elim (Bool-cases (ltbℤ (pos now -ℤ pos last) (pos gap))) [
      | inl current ↦
          rw (at_back, time_of-stamp q (pos last) stamp', current)
            (update_back-Records counters p ps)
      | inr due ↦
          rw (at_back, time_of-stamp q (pos last) stamp', due)
            (update_old-Records counters period gap now first p (ps ++ (point_at (pos now) ∷ []))
              stamp (append-IsSpaced gap last first now ps spaced (recent_lem now last gap due)))
    ]

-- A point with all that the state file must have.
abbrev pub IsValid : StatPointDto → Type 0
IsValid p = valid_point (some p) ≡ true

valid_points_cons :
    (previous time : ℕ) (p : StatPointDto) (ps : List StatPointDto)
    → IsValid p
    → p.timestamp ≡ some (pos time)
    → previous ≤ time
    → valid_points (pos time) (map some ps) ≡ some ps
    → valid_points (pos previous) (map some (p ∷ ps)) ≡ some (p ∷ ps)
unfolding valid_points
valid_points_cons previous time p ps valid stamp later rest =
    let ordered : ltb time previous ≡ false = ground arith in
    rw (valid, time_of-stamp p (pos time) stamp, ordered, rest)

valid_points-map :
    (gap last time : ℕ) (ps : List StatPointDto)
    → IsSpaced gap last time ps
    → All IsValid ps
    → valid_points (pos time) (map some ps) ≡ some ps
unfolding IsSpaced
valid_points-map gap last time [] h valid = unfold valid_points in refl
valid_points-map gap last time (p ∷ ps) (t, stamp, apart, rest) valid =
    valid_points_cons time t p ps valid.0 stamp (omega (arith, apart))
      (valid_points-map gap last t ps rest valid.1)

valid_series :
    (period gap : ℕ) (ps : List StatPointDto)
    → IsSeries period gap ps
    → All IsValid ps
    → valid_points (pos 0) (map some ps) ≡ some ps
valid_series period gap [] h valid = unfold valid_points in refl
valid_series period gap (p ∷ ps) (first, last, stamp, spaced, span) valid =
    valid_points_cons 0 first p ps valid.0 stamp (omega arith)
      (valid_points-map gap last first ps spaced valid.1)

-- The default periods keep less points than the state file may have.
few_points :
    (ps : List StatPointDto)
    → IsSeries 604_800_000_000 3_600_000_000 ps
    → ltb max_state_points (length (map some ps)) ≡ false
few_points ps h =
    rw (length-map ps (λ p. some p))
      (ground (arith, series_bound 604_800_000_000 3_600_000_000 ps h))

nonempty_length : (text : Bytes) → is_empty text ≡ false → ltb 0 (length text) ≡ true
unfolding is_empty
nonempty_length [] h = absurd (cc h)
nonempty_length (c ∷ cs) h = ground arith

-- What a save that reports success has written.
save_text_lem :
    (disk : Disk) (path : Bytes) (text before : Option Bytes) (saved : Bytes)
    → save_text disk path before text ≡ (true, some saved)
    → (text ≡ some saved) × (is_empty saved ≡ false) × (length saved ≤ max_state_bytes)
unfolding save_text
save_text_lem disk path none before saved h = absurd (cc (ap (λ r. r.0) h))
save_text_lem disk path (some json) before saved h =
    elim (Bool-cases (is_empty path || is_empty json || ltb max_state_bytes (length json))) [
      | inl bad ↦ absurd (cc (ap (λ r. r.0) (rw (bad) at h)))
      | inr good ↦
          let replaced = rw (good) at h in
          let same : json ≡ saved = cc (
            write_atomically-eq-true disk json before (ap (λ r. r.0) replaced),
            ap (λ r. r.1) replaced,
          ) in
          (
            ap some same,
            ap is_empty (sym same) ∙ (ground arith),
            subst (λ t. length t ≤ max_state_bytes) same (ground arith),
          )
    ]

-- A list with a last point, once it is accepted, is restored with the counters of that point.
restore_lem :
    (counters : Statistics) (later : ℤ) (file : StateFile) (fresh : Store)
    (points : List StatPointDto)
    → Records counters points
    → ((finished file fresh (restore later fresh (some points))).0 ≡ loaded)
      × ((finished file fresh (restore later fresh (some points))).1.counters ≡ counters)
unfolding restore
restore_lem counters later file fresh points (p, ps, same, last) = rw (same) (refl, last)

-- Where the object mapper reads back what it wrote, the counters that are sampled and saved, with
-- the default periods and points that are a series with all fields set, are those that the next
-- process loads, at any time.
pub load_state-save_state :
    (encode : List StatPointDto → Option Bytes)
    (parse : Bytes → Option (List (Option StatPointDto))) (disk : Disk) (path : Bytes)
    (before : Option Bytes) (saved : Bytes) (counters : Statistics) (now later : ℕ)
    (points : List StatPointDto) (fresh : Store)
    → IsSeries 604_800_000_000 3_600_000_000 points
    → All IsValid (take_sample defaults counters (pos now) points)
    → save_state encode disk path
        (record {
          counters = counters;
          points = take_sample defaults counters (pos now) points;
          periods = defaults;
        })
        before
      ≡ (true, some saved)
    → parse (c_text saved)
      ≡ some (map (λ p. some p) (take_sample defaults counters (pos now) points))
    → ((load_state parse (pos later) (opened (pos (length saved)) (some saved)) fresh).0 ≡ loaded)
      × ((load_state parse (pos later) (opened (pos (length saved)) (some saved)) fresh).1.counters
          ≡ counters)
unfolding save_state load_state accepted_points file_content
load_state-save_state encode parse disk path before saved counters now later points fresh series
      valid succeeded reads =
    let sample = take_sample defaults counters (pos now) points in
    let kept = take_sample-IsSeries 604_800_000_000 3_600_000_000 now counters points series in
    let (encoded, nonempty, small) =
      save_text_lem disk path (encode sample) before saved succeeded in
    let some_bytes : ltb 0 (length saved) ≡ true = nonempty_length saved nonempty in
    let fits : ltb max_state_bytes (length saved) ≡ false = ground arith in
    rw
      (
        some_bytes,
        fits,
        reads,
        few_points sample kept,
        valid_series 604_800_000_000 3_600_000_000 sample kept valid,
      )
      (restore_lem counters (pos later) (opened (pos (length saved)) (some saved)) fresh sample
        (take_sample-Records 604_800_000_000 3_600_000_000 now counters points series))
