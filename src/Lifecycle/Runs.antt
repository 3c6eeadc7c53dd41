-- ===== src/Lifecycle/Runs.antt =====
-- Stopping ends the worker, and what holds of every runner that the operations can reach.
use conspire.Prelude.{
  ℕ, ◌-◌, ◌≤◌, ◌≡◌, refl, sym, ap, ◌∙◌, Bool, true, false, not, ◌||◌, List, [], ◌∷◌, Option, none,
  some, arith, length, Bool-cases, inl, inr, ◌⊎◌,
}
use conspire.Lifecycle.{
  Phase, testing, waiting, working, ended, Runner, idle, is_joinable, start, step_from, step, run,
  request_stop, joined, is_over,
}

-- How many steps a worker that is to stop has left at most.
unfoldable pub steps_left : Option Phase → ℕ
steps_left (some testing) = 1
steps_left (some waiting) = 1
steps_left (some working) = 2
steps_left thread = 0

-- A step of a runner that is stopping: it stays so, is closer to the end, and begins no iteration.
record IsStep (r r' : Runner) (thread : Option Phase) : Type 0 where
  stopping : r'.stopping ≡ true
  closer : steps_left r'.thread ≤ steps_left thread - 1
  none_begun : r'.iterations ≡ r.iterations

step_from-IsStep :
    (thread : Option Phase) (happens : Bool) (r : Runner)
    → r.thread ≡ thread
    → r.stopping ≡ true
    → IsStep r (step_from thread happens r) thread
unfolding step_from steps_left
step_from-IsStep none happens r at h = record {
  stopping = h;
  closer = rw (at) (omega arith);
  none_begun = refl;
}
step_from-IsStep (some ended) happens r at h = record {
  stopping = h;
  closer = rw (at) (omega arith);
  none_begun = refl;
}
step_from-IsStep (some testing) happens r at h =
    rw (h) record { stopping = refl; closer = omega arith; none_begun = refl }
step_from-IsStep (some waiting) happens r at h =
    rw (h) record { stopping = refl; closer = omega arith; none_begun = refl }
step_from-IsStep (some working) true r at h = record {
  stopping = h;
  closer = omega arith;
  none_begun = refl;
}
step_from-IsStep (some working) false r at h = record {
  stopping = refl;
  closer = omega arith;
  none_begun = refl;
}

steps_left-eq-zero : (thread : Option Phase) → steps_left thread ≤ 0 → is_over thread ≡ true
unfolding steps_left
steps_left-eq-zero none h = refl
steps_left-eq-zero (some ended) h = refl
steps_left-eq-zero (some testing) h = absurd (omega (arith, h))
steps_left-eq-zero (some waiting) h = absurd (omega (arith, h))
steps_left-eq-zero (some working) h = absurd (omega (arith, h))

run_over :
    (events : List Bool) (r : Runner)
    → r.stopping ≡ true
    → steps_left r.thread ≤ length events
    → (is_over (run events r).thread ≡ true) × ((run events r).iterations ≡ r.iterations)
unfolding run step
run_over [] r h enough = (steps_left-eq-zero r.thread enough, refl)
run_over (happens ∷ more) r h enough =
    let stepped = step_from-IsStep r.thread happens r refl h in
    let later =
      run_over more (step_from r.thread happens r) stepped.stopping
        (omega (arith, enough, stepped.closer)) in
    (later.0, later.1 ∙ stepped.none_begun)

steps_left_le : (thread : Option Phase) → steps_left thread ≤ 2
unfolding steps_left
steps_left_le none = omega arith
steps_left_le (some ended) = omega arith
steps_left_le (some testing) = omega arith
steps_left_le (some waiting) = omega arith
steps_left_le (some working) = omega arith

-- After a stop is requested, from any state of the runner and whatever happens in the waits and
-- the iteration, two steps bring the worker past its end, so that the join returns; no iteration
-- begins any more.
pub request_stop_ends :
    (events : List Bool) (r : Runner)
    → 2 ≤ length events
    → (is_over (run events (request_stop r)).thread ≡ true)
      × ((run events (request_stop r)).iterations ≡ r.iterations)
unfolding request_stop
request_stop_ends events r enough =
    run_over events (record r { stopping = true }) refl
      (omega (arith, enough, steps_left_le r.thread))

-- The runners that the operations lead to.
pub data Reachable : Runner → Type 0 where
  initial : Reachable idle
  started :
      (has_iteration can_spawn : Bool) {r : Runner}
      → Reachable r
      → Reachable (start has_iteration can_spawn r).1
  stepped : (happens : Bool) {r : Runner} → Reachable r → Reachable (step happens r)
  requested : {r : Runner} → Reachable r → Reachable (request_stop r)
  stopped : {r : Runner} → Reachable r → is_over r.thread ≡ true → Reachable (joined r)

-- The flag for others says whether the worker is in its loop, and a failure stops it.
pub record IsConsistent (r : Runner) : Type 0 where
  pub running : r.running ≡ not (is_over r.thread)
  pub failure : (r.failed ≡ false) ⊎ (r.stopping ≡ true)

step_from-IsConsistent :
    (thread : Option Phase) (happens : Bool) (r : Runner)
    → r.thread ≡ thread
    → IsConsistent r
    → IsConsistent (step_from thread happens r)
unfolding step_from
step_from-IsConsistent none happens r at h = h
step_from-IsConsistent (some ended) happens r at h = h
step_from-IsConsistent (some testing) happens r at h = elim (Bool-cases r.stopping) [
  | inl stop ↦ rw (stop) record { running = refl; failure = inr refl }
  | inr go ↦
      rw (go) record {
        running = h.running ∙ ap (λ t. not (is_over t)) at;
        failure = rw (go) at h.failure;
      }
]
step_from-IsConsistent (some waiting) true r at h = elim (Bool-cases r.stopping) [
  | inl stop ↦ rw (stop) record { running = refl; failure = inr refl }
  | inr go ↦
      rw (go) record {
        running = h.running ∙ ap (λ t. not (is_over t)) at;
        failure = rw (go) at h.failure;
      }
]
step_from-IsConsistent (some waiting) false r at h = elim (Bool-cases r.stopping) [
  | inl stop ↦ rw (stop) record { running = refl; failure = inr refl }
  | inr go ↦ rw (go) record { running = h.running; failure = rw (go) at h.failure }
]
step_from-IsConsistent (some working) true r at h = record {
  running = h.running ∙ ap (λ t. not (is_over t)) at;
  failure = h.failure;
}
step_from-IsConsistent (some working) false r at h = record {
  running = h.running ∙ ap (λ t. not (is_over t)) at;
  failure = inr refl;
}

over_unless_joinable : (thread : Option Phase) → is_joinable thread ≡ false → is_over thread ≡ true
over_unless_joinable none h = refl
over_unless_joinable (some phase) h = absurd (cc h)

start-IsConsistent :
    (has_iteration can_spawn : Bool) (r : Runner)
    → IsConsistent r
    → IsConsistent (start has_iteration can_spawn r).1
unfolding start
start-IsConsistent has_iteration can_spawn r h =
    elim (Bool-cases (is_joinable r.thread || not has_iteration)) [
      | inl refused ↦ rw (refused) h
      | inr accepted ↦ elim (Bool-cases can_spawn) [
        | inl spawned ↦ rw (accepted, spawned) record { running = refl; failure = inl refl }
        | inr failed ↦
            rw (accepted, failed)
              record {
                running = ap not (sym (over_unless_joinable r.thread (ground arith)));
                failure = inl refl;
              }
      ]
    ]

-- In every runner that the operations lead to, `running` holds exactly while the worker is in its
-- loop, and a runner that has failed is stopping.
pub Reachable-IsConsistent : {r : Runner} → Reachable r → IsConsistent r
unfolding step request_stop joined
Reachable-IsConsistent initial = record { running = refl; failure = inl refl }
Reachable-IsConsistent (started has_iteration can_spawn {r = r} before) =
    start-IsConsistent has_iteration can_spawn r (Reachable-IsConsistent before)
Reachable-IsConsistent (stepped happens {r = r} before) =
    step_from-IsConsistent r.thread happens r refl (Reachable-IsConsistent before)
Reachable-IsConsistent (requested before) = record {
  running = (Reachable-IsConsistent before).running;
  failure = inr refl;
}
Reachable-IsConsistent (stopped before over) = record {
  running = refl;
  failure = (Reachable-IsConsistent before).failure;
}
