-- ===== src/Lifecycle.antt =====
-- `PeriodicRunner` of server/src/utils/Lifecycle.hpp: the worker's loop as steps of a machine. Pid
-- has the `PidFile` of the same file.
pub mod Runs
pub mod Pid
use conspire.Prelude.{
  ℕ, suc, ◌≡◌, Bool, true, false, not, ◌&&◌, ◌||◌, List, [], ◌∷◌, Option, none, some, if◌then◌else◌,
}

-- Where the worker stands: at the loop's test, in `wait_for`, in the iteration, or past its end.
pub data Phase : Type 0 where
  testing waiting working ended : Phase

-- `none` is a thread that is not joinable. `iterations` counts the iterations begun.
pub record Runner : Type 0 where
  pub stopping : Bool
  pub running : Bool
  pub failed : Bool
  pub thread : Option Phase
  pub iterations : ℕ

abbrev pub idle : Runner
idle = record { stopping = false; running = false; failed = false; thread = none; iterations = 0 }

abbrev pub is_joinable : Option Phase → Bool
is_joinable none = false
is_joinable (some phase) = true

-- The two flags say whether there is an iteration and whether the thread can be made.
unfoldable pub start : Bool → Bool → Runner → Bool × Runner
start has_iteration can_spawn r =
    if is_joinable r.thread || not has_iteration
    then (false, r)
    else if can_spawn
    then (
      true,
      record r { stopping = false; failed = false; running = true; thread = some testing },
    )
    else (false, record r { stopping = true; failed = false; running = false })

abbrev pub finish : Runner → Runner
finish r = record r { running = false; thread = some ended }

-- One step of the worker. What happens is the argument: in `wait_for` that the interval is over,
-- or only a wake-up; in the iteration that it returns, or that it throws.
unfoldable pub step_from : Option Phase → Bool → Runner → Runner
step_from none happens r = r
step_from (some testing) happens r =
    if r.stopping then finish r else record r { thread = some waiting }
step_from (some waiting) over r =
    if r.stopping
    then finish r
    else if over
    then record r { thread = some working; iterations = suc r.iterations }
    else r
step_from (some working) returns r =
    if returns
    then record r { thread = some testing }
    else record r { failed = true; stopping = true; thread = some testing }
step_from (some ended) happens r = r

unfoldable pub step : Bool → Runner → Runner
unfolding step_from
step happens r = step_from r.thread happens r

unfoldable pub run : List Bool → Runner → Runner
unfolding step
run [] r = r
run (happens ∷ more) r = run more (step happens r)

-- The part of `stop` before it waits for the thread.
unfoldable pub request_stop : Runner → Runner
request_stop r = record r { stopping = true }

-- The part after: the thread has ended and is joined.
unfoldable pub joined : Runner → Runner
joined r = record r { running = false; thread = none }

-- `join` returns once the worker is past its end, or at once if there is none.
abbrev pub is_over : Option Phase → Bool
is_over none = true
is_over (some ended) = true
is_over (some phase) = false
