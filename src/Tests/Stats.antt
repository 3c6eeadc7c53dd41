-- ===== src/Tests/Stats.antt =====
-- The statistics at concrete inputs.
use conspire.Prelude.{ℕ, ◌≡◌, ◌⊎◌, refl, true, false, [], ◌∷◌, List, map, Option, none, some, arith}
use conspire.Prelude.Int.{pos}
use conspire.Prelude.Bytes.{Bytes, codes, All}
use conspire.Boundaries.Text.{is_empty}
use conspire.Statistics.State.{c_text}
use conspire.App.{run_server, sampled, checkpoint}
use conspire.Statistics.State.{
  invalid, file_content, accepted_points, valid_points, restore, failure_of,
}
use conspire.App.Preserved.{run_server_preserves}
use conspire.Statistics as Statistics
use conspire.Statistics.{Statistics}
use conspire.Statistics.Samples.{
  StatPointDto, defaults, point_at, with_counters, take_sample, update_back, pop_old, is_current,
  time_of,
}
use conspire.Statistics.Samples.Series.{IsSeries, IsSpaced, take_sample-IsSeries}
use conspire.Statistics.State.{
  Store, opened, loaded, load_state, valid_point, wrote, Disk, write_all, write_atomically,
  save_text, save_state,
}
use conspire.Statistics.State.Kept.{IsLoad, load_state_lem}
use conspire.Statistics.State.Whole.{write_atomically_lem}
use conspire.Statistics.State.RoundTrip.{load_state-save_state}

abbrev counters : Statistics
counters = record Statistics.zeroes { peer_connected = 7; room_created = 2 }

abbrev at_time : ℕ → StatPointDto
at_time t = with_counters Statistics.zeroes (point_at (pos t))

-- Two points a little more than an hour apart.
abbrev points : List StatPointDto
points = at_time 5_000_000_000 ∷ at_time 9_000_000_000 ∷ []

points-IsSeries : IsSeries 604_800_000_000 3_600_000_000 points
points-IsSeries = (
  5_000_000_000,
  9_000_000_000,
  refl,
  unfold IsSpaced in (9_000_000_000, refl, omega arith, refl),
  omega arith,
)

take_sample-IsSeries_example : IsSeries 604_800_000_000 3_600_000_000 (
    take_sample
      (record { max_period = pos 604_800_000_000; push_interval = pos 3_600_000_000 })
      counters
      (pos 12_700_000_000)
      points)
take_sample-IsSeries_example =
    take_sample-IsSeries 604_800_000_000 3_600_000_000 12_700_000_000 counters points
      points-IsSeries

abbrev fresh : Store
fresh = record { counters = Statistics.zeroes; points = []; periods = defaults }

abbrev text : Bytes
text = codes "[{}]"

-- A point of the file with no counter at all.
abbrev parse_bad : Bytes → Option (List (Option StatPointDto))
parse_bad content = some (some (point_at (pos 1)) ∷ [])

abbrev disk : Disk
disk = record {
  mkstemp = true;
  writes = wrote 3 ∷ wrote 9 ∷ [];
  fsync = true;
  close = true;
  rename = true;
  open_directory = true;
  fsync_directory = true;
  close_directory = true;
}

write_atomically_lem_example :
    ((write_atomically disk text none).1 ≡ some text)
    ⊎ ((write_atomically disk text none).1 ≡ none) × ((write_atomically disk text none).0 ≡ false)
write_atomically_lem_example = write_atomically_lem disk text none

abbrev sample : List StatPointDto
sample = take_sample defaults counters (pos 12_700_000_000) points

abbrev encode : List StatPointDto → Option Bytes
encode ps = some text

abbrev parse : Bytes → Option (List (Option StatPointDto))
parse content = some (map (λ p. some p) sample)

-- A load of the two points, which succeeds.
loads : (load_state parse (pos 13_000_000_000) (opened (pos 4) (some text)) fresh).0 ≡ loaded
unfolding load_state file_content c_text accepted_points valid_points valid_point restore failure_of
    take_sample update_back pop_old is_current time_of
loads = refl

load_state_lem_example :
    IsLoad parse
      (pos 13_000_000_000)
      (opened (pos 4) (some text))
      fresh
      (load_state parse (pos 13_000_000_000) (opened (pos 4) (some text)) fresh)
load_state_lem_example =
    load_state_lem parse (pos 13_000_000_000) (opened (pos 4) (some text)) fresh

sample_valid : All (λ p. valid_point (some p) ≡ true) sample
unfolding take_sample update_back pop_old is_current time_of valid_point
sample_valid = (refl, (refl, (refl, tt)))

saves :
    save_state encode disk
      (codes "stats.json")
      (record { counters = counters; points = sample; periods = defaults })
      none
    ≡ (true, some text)
unfolding save_state save_text write_atomically write_all is_empty
saves = refl

load_state-save_state_example :
    ((load_state parse (pos 13_000_000_000) (opened (pos 4) (some text)) fresh).0 ≡ loaded)
    × ((load_state parse (pos 13_000_000_000) (opened (pos 4) (some text)) fresh).1.counters
        ≡ counters)
load_state-save_state_example =
    load_state-save_state encode parse disk (codes "stats.json") none text counters 12_700_000_000
      13_000_000_000 points fresh points-IsSeries sample_valid saves refl

load_bad : (load_state parse_bad (pos 9) (opened (pos 4) (some text)) fresh).0 ≡ invalid
unfolding load_state file_content c_text accepted_points valid_points valid_point restore failure_of
load_bad = refl

run_server_preserves_example :
    (run_server encode
      (codes "stats.json")
      parse_bad
      (pos 9)
      (opened (pos 4) (some text))
      (some text)
      fresh
      (sampled (pos 10) ∷ checkpoint disk ∷ [])
      (pos 11)
      disk).state_file
    ≡ some text
run_server_preserves_example =
    run_server_preserves encode (codes "stats.json") parse_bad (pos 9) (opened (pos 4) (some text))
      (some text) fresh (sampled (pos 10) ∷ checkpoint disk ∷ []) (pos 11) disk load_bad
