-- ===== src/Statistics/Samples/Series.antt =====
-- The points that sampling keeps: apart by the push interval, and together within the period.
use conspire.Prelude.{
  ℕ, ◌+◌, ◌-◌, ◌*◌, ◌≤◌, ◌≡◌, refl, ap, ◌∙◌, false, List, [], ◌∷◌, ◌++◌, some, arith, ltb, length,
  Bool-cases, inl, inr,
}
use conspire.Prelude.Int.{ℤ, pos, ltbℤ, ◌-ℤ◌}
use conspire.Statistics.{Statistics}
use conspire.Statistics.Samples.{
  StatPointDto, Periods, point_at, time_of, back, update_back, pop_old, is_current, take_sample,
}

-- From a point on: each of the others is at least `gap` after the one before it, and no later
-- than `last`.
unfoldable pub IsSpaced : ℕ → ℕ → ℕ → List StatPointDto → Type 0
IsSpaced gap last time [] = time ≡ last
IsSpaced gap last time (p ∷ ps) =
    (t : ℕ) × (p.timestamp ≡ some (pos t)) × (time + gap ≤ t) × IsSpaced gap last t ps

-- Points that sampling with these periods may have kept.
abbrev pub IsSeries : ℕ → ℕ → List StatPointDto → Type 0
IsSeries period gap [] = Unit
IsSeries period gap (p ∷ ps) =
    (first : ℕ) × (last : ℕ) × (p.timestamp ≡ some (pos first))
    × IsSpaced gap last first ps
    × (last ≤ first + period)

spaced_bound :
    (gap last time : ℕ) (ps : List StatPointDto)
    → IsSpaced gap last time ps
    → time + length ps * gap ≤ last
unfolding IsSpaced
spaced_bound gap last time [] h = omega (arith, h)
spaced_bound gap last time (p ∷ ps) (t, stamp, far, rest) =
    omega (arith, far, spaced_bound gap last t ps rest)

pub spaced_le :
    (gap last time : ℕ) (ps : List StatPointDto) → IsSpaced gap last time ps → time ≤ last
spaced_le gap last time ps h = omega (arith, spaced_bound gap last time ps h)

pub append-IsSpaced :
    (gap last time now : ℕ) (ps : List StatPointDto)
    → IsSpaced gap last time ps
    → last + gap ≤ now
    → IsSpaced gap now time (ps ++ (point_at (pos now) ∷ []))
unfolding IsSpaced
append-IsSpaced gap last time now [] same far = (now, refl, omega (arith, same), refl)
append-IsSpaced gap last time now (p ∷ ps) (t, stamp, apart, rest) far =
    (t, stamp, apart, append-IsSpaced gap last t now ps rest far)

update_back-IsSpaced :
    (counters : Statistics) (gap last time : ℕ) (ps : List StatPointDto)
    → IsSpaced gap last time ps
    → IsSpaced gap last time (update_back counters ps)
unfolding IsSpaced update_back
update_back-IsSpaced counters gap last time [] h = h
update_back-IsSpaced counters gap last time (p ∷ []) (t, stamp, apart, rest) =
    (t, stamp, apart, rest)
update_back-IsSpaced counters gap last time (p ∷ q ∷ ps) (t, stamp, apart, rest) =
    (t, stamp, apart, update_back-IsSpaced counters gap last t (q ∷ ps) rest)

update_back-IsSeries :
    (counters : Statistics) (period gap : ℕ) (ps : List StatPointDto)
    → IsSeries period gap ps
    → IsSeries period gap (update_back counters ps)
unfolding update_back IsSpaced
update_back-IsSeries counters period gap [] h = tt
update_back-IsSeries counters period gap (p ∷ []) h = h
update_back-IsSeries counters period gap (p ∷ q ∷ ps) (first, last, stamp, spaced, span) =
    (first, last, stamp, update_back-IsSpaced counters gap last first (q ∷ ps) spaced, span)

-- The age of a point that is not in the future.
pub too_old_lem :
    (period now t : ℕ) → t ≤ now → ltbℤ (pos period) (pos now -ℤ pos t) ≡ ltb period (now - t)
too_old_lem period now t h = ground arith

pub recent_lem : (now t gap : ℕ) → ltbℤ (pos now -ℤ pos t) (pos gap) ≡ false → t + gap ≤ now
recent_lem now t gap h = ground arith

pub time_of-stamp : (p : StatPointDto) (t : ℤ) → p.timestamp ≡ some t → time_of p ≡ t
unfolding time_of
time_of-stamp p t h = rw (h)

-- One pass of the loop: the rest is a series, or nothing is dropped.
pop_one-IsSeries :
    (period gap now time : ℕ) (p : StatPointDto) (ps : List StatPointDto)
    → p.timestamp ≡ some (pos time)
    → IsSpaced gap now time ps
    → IsSeries period gap (pop_old (pos now) (pos period) ps)
    → IsSeries period gap (pop_old (pos now) (pos period) (p ∷ ps))
unfolding pop_old
pop_one-IsSeries period gap now time p ps stamp spaced later =
    let recent = spaced_le gap now time ps spaced in
    elim (Bool-cases (ltb period (now - time))) [
      | inl old ↦
          rw (time_of-stamp p (pos time) stamp, too_old_lem period now time recent, old) later
      | inr young ↦
          rw (time_of-stamp p (pos time) stamp, too_old_lem period now time recent, young)
            (time, now, stamp, spaced, ground arith)
    ]

pop_old-IsSeries :
    (period gap now time : ℕ) (p : StatPointDto) (ps : List StatPointDto)
    → p.timestamp ≡ some (pos time)
    → IsSpaced gap now time ps
    → IsSeries period gap (pop_old (pos now) (pos period) (p ∷ ps))
unfolding IsSpaced
pop_old-IsSeries period gap now time p [] stamp spaced =
    pop_one-IsSeries period gap now time p [] stamp spaced (unfold pop_old in tt)
pop_old-IsSeries period gap now time p (q ∷ qs) stamp spaced =
    let (t, stamp', apart, rest) = spaced in
    pop_one-IsSeries period gap now time p (q ∷ qs) stamp spaced
      (pop_old-IsSeries period gap now t q qs stamp' rest)

-- The last point is the one at the last time.
pub back_lem :
    (gap last time : ℕ) (p : StatPointDto) (ps : List StatPointDto)
    → p.timestamp ≡ some (pos time)
    → IsSpaced gap last time ps
    → (q : StatPointDto) × (back (p ∷ ps) ≡ some q) × (q.timestamp ≡ some (pos last))
unfolding IsSpaced
back_lem gap last time p [] stamp same = (p, refl, stamp ∙ ap (λ t. some (pos t)) same)
back_lem gap last time p (q ∷ qs) stamp (t, stamp', apart, rest) =
    back_lem gap last t q qs stamp' rest

abbrev periods_of : ℕ → ℕ → Periods
periods_of period gap = record { max_period = pos period; push_interval = pos gap }

-- Sampling at any time keeps the points a series: each at least the push interval after the one
-- before it, and the last no more than the period after the first.
pub take_sample-IsSeries :
    (period gap now : ℕ) (counters : Statistics) (points : List StatPointDto)
    → IsSeries period gap points
    → IsSeries period gap (take_sample (periods_of period gap) counters (pos now) points)
unfolding take_sample is_current
take_sample-IsSeries period gap now counters [] h =
    update_back-IsSeries counters period gap
      (pop_old (pos now) (pos period) (point_at (pos now) ∷ []))
      (pop_old-IsSeries period gap now now (point_at (pos now)) [] refl (unfold IsSpaced in refl))
take_sample-IsSeries period gap now counters (p ∷ ps) (first, last, stamp, spaced, span) =
    let (q, at_back, stamp') = back_lem gap last first p ps stamp spaced in
    elim (Bool-cases (ltbℤ (pos now -ℤ pos last) (pos gap))) [
      | inl current ↦
          rw (at_back, time_of-stamp q (pos last) stamp', current)
            (update_back-IsSeries counters period gap (p ∷ ps) (first, last, stamp, spaced, span))
      | inr due ↦
          rw (at_back, time_of-stamp q (pos last) stamp', due)
            (update_back-IsSeries counters period gap
              (pop_old (pos now) (pos period) (p ∷ (ps ++ (point_at (pos now) ∷ []))))
              (pop_old-IsSeries period gap now first p (ps ++ (point_at (pos now) ∷ [])) stamp
                (append-IsSpaced gap last first now ps spaced (recent_lem now last gap due))))
    ]

-- A series has at most one point more than push intervals fit the period: with the defaults 169.
pub series_bound :
    (period gap : ℕ) (points : List StatPointDto)
    → IsSeries period gap points
    → length points * gap ≤ period + gap
series_bound period gap [] h = omega arith
series_bound period gap (p ∷ ps) (first, last, stamp, spaced, span) =
    omega (arith, spaced_bound gap last first ps spaced, span)
