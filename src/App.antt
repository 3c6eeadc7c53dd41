-- ===== src/App.antt =====
-- What `run` of server/src/App.cpp does with the statistics and the Tor options, from its start to
-- its end. The threads between are the events of a list.
pub mod Preserved
use conspire.Prelude.{
  ℕ, ◌≡◌, Bool, true, false, not, ◌&&◌, List, [], ◌∷◌, Option, none, some, if◌then◌else◌,
}
use conspire.Prelude.Int.{ℤ}
use conspire.Prelude.Bytes.{Bytes, codes}
use conspire.Boundaries.Text.{is_empty}
use conspire.Config.Dto.{ConfigDto, value_or}
use conspire.Tor.Service.{Options}
use conspire.Statistics.Samples.{StatPointDto, take_sample}
use conspire.Statistics.State.{
  Store, StateFile, StateLoadResult, invalid, Disk, load_state, save_state,
}

-- `*appConfig->...`: fromCommandLine has set each of these.
unfoldable pub tor_options : ConfigDto → Options
tor_options config = record {
  control_socket = value_or config.tor_control_socket [];
  control_host = value_or config.tor_control_host [];
  control_port = value_or config.tor_control_port 0;
  key_path = value_or config.tor_key_path [];
  target_host = codes "127.0.0.1";
  target_port = value_or config.tor_backend_port 0;
  virtual_port = value_or config.tor_virtual_port 0;
}

-- statistics->runStatIteration() at a time
unfoldable pub run_stat_iteration : ℤ → Store → Store
run_stat_iteration now s = record s { points = take_sample s.periods s.counters now s.points }

abbrev pub is_invalid : StateLoadResult → Bool
is_invalid invalid = true
is_invalid result = false

-- The object and the flag `statisticsPersistenceEnabled` once the state is loaded.
unfoldable pub open_state :
    (Bytes → Option (List (Option StatPointDto))) → ℤ → Bytes → StateFile → Store → Store × Bool
open_state parse now path file s =
    let (result, s') = load_state parse now file s in
    if is_empty path then (s, false) else (s', not (is_invalid result))

-- What the workers do with the statistics while the server runs: a sample, or a checkpoint with the
-- answers of the disk.
pub data Event : Type 0 where
  sampled : ℤ → Event
  checkpoint : Disk → Event

-- The object, the flag, and the text of the state file where there is one.
pub record Serving : Type 0 where
  pub store : Store
  pub persistence : Bool
  pub state_file : Option Bytes

module _ (encode : List StatPointDto → Option Bytes) (path : Bytes) where
  -- saveState, whose failure is logged only
  unfoldable pub save : Disk → Serving → Serving
  save disk v = record v { state_file = (save_state encode disk path v.store v.state_file).1 }

  -- The checkpoint worker is started only where persistence is enabled.
  unfoldable pub handle : Event → Serving → Serving
  unfolding save run_stat_iteration
  handle (sampled now) v = record v { store = run_stat_iteration now v.store }
  handle (checkpoint disk) v = if v.persistence then save disk v else v

  unfoldable pub serve : List Event → Serving → Serving
  unfolding handle
  serve [] v = v
  serve (event ∷ events) v = serve events (handle event v)

  -- The last sample and the last save, after the workers are joined.
  unfoldable pub shut_down : ℤ → Disk → Serving → Serving
  unfolding save run_stat_iteration
  shut_down now disk v =
      if v.persistence then save disk (record v { store = run_stat_iteration now v.store }) else v

  -- `run`, as the statistics see it. `before` is the text of the file, which the stream shows as
  -- `file`.
  unfoldable pub run_server :
      (Bytes → Option (List (Option StatPointDto)))
      → ℤ
      → StateFile
      → Option Bytes
      → Store
      → List Event
      → ℤ
      → Disk
      → Serving
  unfolding open_state serve shut_down
  run_server parse now file before s events later disk =
      let (s', persistence) = open_state parse now path file s in
      shut_down later disk (
        serve events (record {
          store = run_stat_iteration now s';
          persistence = persistence;
          state_file = before;
        }))
