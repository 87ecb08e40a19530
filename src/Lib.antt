-- ===== src/Lib.antt =====
-- Verification of the servers of simple_web_game_server: the header library in
-- include/simple_web_game_server.
--
-- A `base_server` keeps the connections of websocketpp, logs clients in by JSON web tokens, queues
-- actions that worker threads carry out, and remembers the results of sessions that are over. A
-- `game_server` and a `matchmaking_server` each own one: their handlers collect connections and
-- messages, which a loop takes up once per time-step.
--
-- Files and code:
-- - Prelude: shared names, maps as association lists, ordered sets of numbers.
-- - BufferedMap, Locks: `buffered_map` and the archive of completed sessions (`update_session_locks`)
--   of include/simple_web_game_server/base_server.hpp.
-- - Base: the same file's `base_server`. Base/Link has the tables of connections
--   (`setup_connection_id`, `player_disconnect`, `send_message`), Base/Login `open_session`,
--   Base/Sessions `complete_session`, Base/Worker the callbacks of websocketpp and
--   `process_messages`, Base/Lifecycle the setters, `run`, `stop` and `reset`. The other children
--   hold proofs.
-- - Base/Directory: the directory of clients that the tables of connections implement.
-- - Base/Queue, Base/Rounds, Base/Delivery: what rounds of a worker make of the queue.
-- - Game: include/simple_web_game_server/game_server.hpp. Game/Updates has
--   `process_connection_updates`, Game/Loop `process_game_updates` and `update_games`, Game/Lifecycle
--   the constructor, `run`, `stop` and `reset`, and Game/System the whole server with its loop.
-- - Matchmaking: include/simple_web_game_server/matchmaking_server.hpp, in the same parts, with
--   `match_players` in Matchmaking/Loop.
-- - Client: include/simple_web_game_server/client.hpp.
-- - TicTacToe: examples/tic_tac_toe/tic_tac_toe_game.hpp, with the board in TicTacToe/Board, the game in
--   TicTacToe/Game and the matchmaker in TicTacToe/Matchmaker. `dump` and the readers of nlohmann's
--   json are parameters.
-- - TicTacToe/Service: the HTTP service of examples/tic_tac_toe/matchmaking_server/matchmaking_server.cpp.
--   Service/Routes and Service/Submission have the routes of `http_handler`, Service/Handler the dispatch and the files,
--   Service/Startup what `main` there and in examples/tic_tac_toe/game_server/game_server.cpp give
--   their servers. jwt-cpp, JSON, doubles and the file system are the records `Tokens`, `Doubles`
--   and `Files`.
-- - Minimal: examples/minimal_template/minimal_game.hpp. Minimal/Services has what the main functions of
--   the template's servers give them, and how they start them.
-- - Traits: shared/json_traits/nlohmann_traits.hpp.
-- - Matchmaking/Handover, Game/Owner, Game/Farewell, TicTacToe/Service/Handover,
--   TicTacToe/Service/Results, Minimal/Handover: how the servers work together.
-- - Tests: the theorems at concrete inputs.
--
-- How the code is read:
-- - Players, sessions and connection handles are numbers; unordered maps are association lists,
--   and a loop over a map goes through the list in its order.
-- - JSON and decoded tokens are any two types. jwt-cpp, `player_traits`, the result function and
--   the close reasons are the record `Env`; the game and the matchmaker are `GameApi` and `MatchApi`.
-- - Calls of websocketpp::server are recorded in `calls`; exceptions of `send` and `close` are caught
--   and logged by the code, and logging is left out.
-- - Handlers act on the data `H` of the owner of a base server.
-- - A reading of the clock is an input, in nanoseconds; `update_session_locks` reads it twice.
-- - A worker's round and a callback are one step each; histories are sequences of such steps. The
--   end of a connection is also taken in two steps, since the code gives its lock up in between.
-- - A counter of type std::size_t wraps around at 2^64, and the difference of two ratings, an int, at
--   2^32.
-- - In Game and Matchmaking `none` is std::out_of_range or the use of an end iterator. In Base
--   `server_error` is the exception of that name. In TicTacToe/Service `none` is any exception, which
--   the route catches.
-- - Every loop runs over a finite list and is structural recursion; no fuel is used. The endless
--   loops are given by their rounds: `work`, `update_games`, `match_players`.
--
-- Not modelled: the vendored libraries, the TLS and logging configurations with the handler of TLS
-- handshakes, the threads that the example programs start, the test suite, and the TypeScript client.
pub mod Prelude
pub mod BufferedMap
pub mod Locks
pub mod Base
pub mod Game
pub mod Matchmaking
pub mod Client
pub mod Traits
pub mod Minimal
pub mod TicTacToe
pub mod Tests
