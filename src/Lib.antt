-- ===== src/Lib.antt =====
-- The server of Conspire, an anonymous chat with file relay, as a model with its theorems.
--
-- A client opens a web socket for a room and a nickname. The lobby binds the socket to a peer, new
-- or resumed, and from then on the peer reads its commands. A chat message or a list of shared
-- files is published in the peer's room: it draws the room's next sequence number, enters the
-- history and goes to the write queue of each member. A file itself stays with its host; a download
-- asks the host for one chunk after another and hands the chunks on.
--
-- The parts, from the ground up:
--   Boundaries         server/src/utils/ServerBoundaries.hpp: limits, the checks of untrusted values
--                      (Text), their encodings (Escape, Replace) and `ChunkRequest`
--                      (Chunk).
--   Session            server/src/utils/SessionReliability.hpp and SessionCredentials.hpp: sequence
--                      numbers, the record of commands (Dedupe), leases, the generation fence and
--                      resume tokens.
--   Heartbeat          server/src/rooms/Heartbeat.hpp: liveness and the account of a close.
--   Statistics         the counters of server/src/utils/Statistics.hpp; Samples is `takeSample`, State
--                      is `loadState`, `saveState` and `writeAtomically` of Statistics.cpp.
--   Config             server/src/utils/ConfigValidation.hpp; Dto is `ConfigDto` of
--                      server/src/dto/Config.hpp, Arguments `fromCommandLine` of
--                      server/src/utils/AppConfig.hpp.
--   Tor                server/src/utils/TorControl.cpp: Text has hexadecimal numbers, quoted values
--                      and identifiers, Wire the commands, lines and replies, Service
--                      `authenticate`, `add`, `start` and `stop`.
--   Rooms.Dto          server/src/dto/DTOs.hpp: the messages.
--   Rooms.Log          the history of server/src/rooms/Room.cpp: `addHistoryMessage`,
--                      `getHistory`, `getHistoryAfter`.
--   Rooms.Peer         server/src/rooms/Peer.cpp: `replaceSocket`, `detachIfCurrent`,
--                      `invalidateSocket`, pings and closes; the write queue is in Outbound.
--   Rooms.Subscriber   `File::Subscriber` of server/src/rooms/File.cpp, and Rooms.File the `File`.
--   Rooms.Room         server/src/rooms/Room.cpp: members, `publishDurable`, `pingAllPeers`; Files
--                      has `shareFiles`, `withdrawPeerFiles` and `removePeerById`.
--   Rooms.Command      `readMessage`, `handleMessage` and the handlers of server/src/rooms/Peer.cpp.
--   Lobby              server/src/rooms/Lobby.cpp: rooms by name, `acceptSessionHello` (Hello and
--                      Accept), `detachSessionTransport`, `expireSessions` (Expiry).
--   Http               the endpoints of server/src/controller, in Pages those of StaticController.hpp
--                      and in Download `GetFile`, and `RedirectInterceptor` of
--                      server/src/AppComponent.hpp.
--   Lifecycle          `PeriodicRunner` and `PidFile` of server/src/utils/Lifecycle.hpp.
--   App                the statistics and the Tor options in `run` of server/src/App.cpp.
--   Nickname           server/src/utils/Nickname.cpp.
--   Prelude            shared notation, integers, maps and texts; Tests applies the theorems to
--                      concrete inputs.
--
-- How the code is read. An object's state is a record and each operation a function from state to
-- state. What a lock makes atomic is one operation; the orders in which threads may interleave are
-- lists of such steps. Methods that throw give an `Outcome`. Objects that are shared by pointer are
-- entries of a map under their number: the peers of a room and its files. A socket is a number. A
-- weak pointer has a flag `alive`. Texts are lists of bytes. A `std::uint64_t` is a native number
-- whose increment wraps at 2 ^ 64; a signed integer is a ℤ. Time is a count of nanoseconds, and a
-- difference of two times that would be negative is 0, which every test of the source treats alike.
-- A field that a client left out of a message is `none`. The size of a file is a natural number
-- once its descriptor has passed the checks. A write of the framework that fails is a call of
-- `invalidateSocketIfCurrent` beside the drain.
--
-- What the code takes from elsewhere is an argument: the object mapper and the base64 decoder of the
-- web framework, the configured limits, the clock, random bytes and SHA-256, the command line and
-- the environment, files, and for each `write`, `send` and `recv` the list of what the system
-- answers, in which every interruption, error and partial count may stand. The theorems hold for
-- all of them. The one assumption is that the object mapper reads back the samples that it wrote,
-- where their counters come back from the state file.
--
-- Loops are recursion on the list that they walk, or on the list of the system's answers. Five run
-- on fuel: the sanitiser of close reasons and the replacement of a marker, whose fuel is the length
-- of their text, the drain of a write queue, for which one more round than the queue has frames is
-- enough, the numeral of a port, which has five digits, and the lines of a Tor reply. Those have
-- four bytes at least and 65536 together, so 16385 rounds are enough. A theorem says so of each.
--
-- Not modelled: the fields `peers` and `history` that a client might put into a message that is
-- relayed; the coroutines and wait lists of the framework, whose every wake-up is a further call of
-- the operation that waits; the buffering of a first message before it is parsed as a hello, and the
-- destruction of a room with its last pointer; logging; `validateFilesList`, which nothing calls;
-- the calls that open one socket in TorControl.cpp; the framework's router, handshake and
-- streaming; the rest of `run` in App.cpp and the wiring of AppComponent.hpp; and the front end.
pub mod Prelude
pub mod Boundaries
pub mod Session
pub mod Heartbeat
pub mod Statistics
pub mod Config
pub mod Tor
pub mod Rooms
pub mod Lobby
pub mod Http
pub mod Lifecycle
pub mod App
pub mod Nickname
pub mod Tests
