-- ===== src/App/Preserved.antt =====
-- A state file that could not be read is not overwritten.
use conspire.Prelude.{◌≡◌, refl, ◌∙◌, false, List, [], ◌∷◌, Option, Bool-cases, inl, inr}
use conspire.Prelude.Int.{ℤ}
use conspire.Prelude.Bytes.{Bytes}
use conspire.Boundaries.Text.{is_empty}
use conspire.Statistics.Samples.{StatPointDto}
use conspire.Statistics.State.{Store, StateFile, invalid, Disk, load_state}
use conspire.App.{
  Event, sampled, checkpoint, Serving, open_state, handle, serve, shut_down, run_server,
  run_stat_iteration,
}

module _ (encode : List StatPointDto → Option Bytes) (path : Bytes) where
  -- Without persistence no event touches the file.
  record IsUntouched (v v' : Serving) : Type 0 where
    state_file : v'.state_file ≡ v.state_file
    persistence : v'.persistence ≡ false

  handle-IsUntouched :
      (event : Event) (v : Serving)
      → v.persistence ≡ false
      → IsUntouched v (handle encode path event v)
  unfolding handle
  handle-IsUntouched (sampled now) v h = record { state_file = refl; persistence = h }
  handle-IsUntouched (checkpoint disk) v h = rw (h) record { state_file = refl; persistence = refl }

  serve-IsUntouched :
      (events : List Event) (v : Serving)
      → v.persistence ≡ false
      → IsUntouched v (serve encode path events v)
  unfolding serve
  serve-IsUntouched [] v h = record { state_file = refl; persistence = h }
  serve-IsUntouched (event ∷ events) v h =
      let first = handle-IsUntouched event v h in
      let rest = serve-IsUntouched events (handle encode path event v) first.persistence in
      record { state_file = rest.state_file ∙ first.state_file; persistence = rest.persistence }

  shut_down-eq :
      (now : ℤ) (disk : Disk) (v : Serving)
      → v.persistence ≡ false
      → (shut_down encode path now disk v).state_file ≡ v.state_file
  unfolding shut_down
  shut_down-eq now disk v h = rw (h)

  open_state-eq-false :
      (parse : Bytes → Option (List (Option StatPointDto))) (now : ℤ) (file : StateFile) (s : Store)
      → (load_state parse now file s).0 ≡ invalid
      → (open_state parse now path file s).1 ≡ false
  unfolding open_state
  open_state-eq-false parse now file s h = elim (Bool-cases (is_empty path)) [
    | inl no_path ↦ rw (no_path)
    | inr named ↦ rw (named, h)
  ]

  -- A state file that is invalid or cannot be read is kept: whatever the workers do while the
  -- server runs, and through its end, the text of the file is what it was at the start.
  pub run_server_preserves :
      (parse : Bytes → Option (List (Option StatPointDto))) (now : ℤ) (file : StateFile)
      (before : Option Bytes) (s : Store) (events : List Event) (later : ℤ) (disk : Disk)
      → (load_state parse now file s).0 ≡ invalid
      → (run_server encode path parse now file before s events later disk).state_file ≡ before
  unfolding run_server
  run_server_preserves parse now file before s events later disk h =
      let start : Serving = record {
        store = run_stat_iteration now (open_state parse now path file s).0;
        persistence = (open_state parse now path file s).1;
        state_file = before;
      } in
      let kept = serve-IsUntouched events start (open_state-eq-false parse now file s h) in
      shut_down-eq later disk (serve encode path events start) kept.persistence ∙ kept.state_file
