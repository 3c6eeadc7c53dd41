-- ===== src/Tests/Webs.antt =====
-- Requests and the periodic worker at concrete inputs.
use conspire.Prelude.{◌≡◌, ◌⊎◌, true, false, [], ◌∷◌, none, some, arith}
use conspire.Prelude.Int.{pos}
use conspire.Prelude.Bytes.{codes}
use conspire.Config.Dto.{ConfigDto, unset}
use conspire.Http.{intercept}
use conspire.Http.Safe.{IsIntercepted, intercept_lem}
use conspire.Http.Download.{get_file, IsRefusal, IsDownload, get_file_lem}
use conspire.Rooms.Host.{idle}
use conspire.Rooms.File.{make_file}
use conspire.Rooms.Room.{Room, make_room}
use conspire.Lobby.{Lobby, empty}
use conspire.Lifecycle as Lifecycle
use conspire.Lifecycle.{Runner, Phase, working, start, step, run, request_stop, is_over}
use conspire.Lifecycle.Runs.{
  initial, started, stepped, IsConsistent, Reachable-IsConsistent, request_stop_ends,
}

abbrev site : ConfigDto
site = record unset { host = some (codes "chat.example"); port = some 8080 }

intercept_lem_example :
    IsIntercepted [] [] site
      (some (codes "other.example"))
      (codes "/room/a")
      (intercept [] [] site (some (codes "other.example")) (codes "/room/a"))
intercept_lem_example = intercept_lem [] [] site (some (codes "other.example")) (codes "/room/a")

-- A lobby with one room that shares one file.
abbrev room : Room
room = record (make_room (codes "a") idle) {
  files = (pos 1, make_file (pos 1) (pos 1) (pos 1) (codes "plan.txt") 4 none) ∷ [];
  file_by_id = pos 1 ∷ [];
}

abbrev lobby : Lobby
lobby = record empty { rooms = (codes "a", 0) ∷ []; stores = (0, room) ∷ [] }

get_file_lem_example :
    IsRefusal lobby (get_file (some (codes "a")) (some (pos 1)) lobby)
    ⊎ IsDownload
        (some (codes "a"))
        (some (pos 1))
        lobby
        (get_file (some (codes "a")) (some (pos 1)) lobby)
get_file_lem_example = get_file_lem (some (codes "a")) (some (pos 1)) lobby

abbrev busy : Runner
busy = record {
  stopping = false;
  running = true;
  failed = false;
  thread = some working;
  iterations = 3;
}

request_stop_ends_example :
    (is_over (run (true ∷ false ∷ []) (request_stop busy)).thread ≡ true)
    × ((run (true ∷ false ∷ []) (request_stop busy)).iterations ≡ 3)
request_stop_ends_example = request_stop_ends (true ∷ false ∷ []) busy (omega arith)

Reachable-IsConsistent_example : IsConsistent (step true (start true true Lifecycle.idle).1)
Reachable-IsConsistent_example = Reachable-IsConsistent (stepped true (started true true initial))
