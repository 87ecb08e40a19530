-- ===== src/TicTacToe/Game.antt =====
-- `tic_tac_toe_game` of examples/tic_tac_toe/tic_tac_toe_game.hpp.
pub mod Turns
pub mod Clock
use simple_web_game_server.Prelude.{
  ℕ, ◌+◌, ◌-◌, ◌%◌, Bool, true, false, String, Option, none, some, List, [], ◌∷◌, ◌++◌, ◌&&◌, ◌||◌,
  ltb, leb, ◌==◌, not, if◌then◌else◌, get_elem?, length, is_some, ℕ_discrete,
}
use simple_web_game_server.Prelude.Assoc.{Assoc, lookup, update}
use simple_web_game_server.Prelude.Int.{ℤ, pos, ◌+ℤ◌}
use simple_web_game_server.Game.{Message, GameApi}
use simple_web_game_server.TicTacToe.Board
use simple_web_game_server.TicTacToe.Board.{Board, new_board, board_value, add_move}

-- The JSON objects of get_game_state, get_full_state, get_time_state and get_state. `state` is the
-- sum that they hold; the scores in get_state are computed from it.
pub record GameState : Type 0 where
  pub board : List ℤ
  pub times : ℕ × ℕ
  pub turn : ℕ
  pub state : ℤ
  pub done : Bool

pub data Report (J : Type 0) : Type 0 where
  game_state : GameState → Report J
  full_state : GameState → ℕ → Report J
  time_state : ℕ × ℕ → Report J
  final_state : GameState → List J → List ℕ → Report J

-- What the game takes from nlohmann's json: `dump`; the claim "matched", where `none` is an
-- exception; and the move in a message: its two numbers and itself as JSON. `none` is a text that
-- does not parse, or an exception of json. (For an object without "move" the code has undefined
-- behaviour.)
pub record Json (J : Type 0) : Type 0 where
  pub to_json : Report J → J
  pub dump : J → String
  pub matched : J → Option Bool
  pub read_move : String → Option (ℕ × ℕ × J)

-- The members of `tic_tac_toe_game`. A time that falls to 0 or below is set to 0 before anything
-- reads it, so the times are natural numbers. `connected` is m_data_map, whose other field nothing
-- reads.
pub record Game (J : Type 0) : Type 0 where
  pub player_list : List ℕ
  pub connected : Assoc ℕ Bool
  pub valid : Bool
  pub started : Bool
  pub game_over : Bool
  pub turn : ℕ
  pub state : ℤ
  pub times : ℕ × ℕ
  pub elapsed_time : ℕ
  pub move_list : List J
  pub board : Board

abbrev pub is_true : Option Bool → Bool
is_true (some b) = b
is_true none = false

abbrev pub spend : ℕ → ℕ → ℕ × ℕ → ℕ × ℕ
spend turn delta t = if turn == 0 then (t.0 - delta, t.1) else (t.0, t.1 - delta)

abbrev pub is_first : ℕ → List ℕ → Bool
is_first id [] = false
is_first id (p ∷ ps) = id == p

abbrev pub swap_first_two : List ℕ → List ℕ
swap_first_two (p ∷ q ∷ ps) = q ∷ p ∷ ps
swap_first_two ps = ps

module _ {J : Type 0} where
  abbrev pub is_done : Game J → Bool
  is_done g = Board.is_done g.board || g.game_over

  abbrev pub get_game_state : Game J → GameState
  get_game_state g = record {
    board = g.board.cells;
    times = g.times;
    turn = g.turn;
    state = g.board.state +ℤ g.state;
    done = is_done g;
  }

  -- m_player_list.front() and the player's number
  abbrev pub get_full_state : ℕ → Game J → Report J
  get_full_state id g = full_state (get_game_state g) (if is_first id g.player_list then 0 else 1)

  -- The loop of `update` over the two times: a player out of time ends the game.
  unfoldable pub time_out : ℕ → Game J → Game J
  time_out i g =
      if (if i == 0 then g.times.0 else g.times.1) == 0
      then record g { state = board_value i; game_over = true }
      else g

  -- the clock of the player whose turn it is, and both times checked
  unfoldable pub tick : ℕ → Game J → Game J
  unfolding time_out
  tick delta g = time_out 1 (time_out 0 (record g { times = spend g.turn delta g.times }))

module _ {J : Type 0} (json : Json J) where
  open json use {to_json, dump, matched, read_move}

  unfoldable pub make : J → Game J
  make msg = record {
    player_list = [];
    connected = [];
    valid = is_true (matched msg);
    started = false;
    game_over = false;
    turn = 0;
    state = pos 0;
    times = (100000, 100000);
    elapsed_time = 0;
    move_list = [];
    board = new_board;
  }

  abbrev pub get_state : Game J → J
  get_state g = to_json (final_state (get_game_state g) g.move_list g.player_list)

  -- a loop over the players: those that are connected get a message
  unfoldable pub tell : (ℕ → Report J) → Assoc ℕ Bool → List ℕ → List Message
  tell report connected [] = []
  tell report connected (p ∷ ps) =
      let rest = tell report connected ps in
      if is_true (lookup ℕ_discrete p connected)
      then (p, dump (to_json (report p))) ∷ rest
      else rest

  abbrev pub tell_all : (ℕ → Report J) → Game J → List Message → List Message
  tell_all report g out = out ++ tell report g.connected g.player_list

  unfoldable pub connect : List Message → ℕ → Game J → Game J × List Message
  connect out id g =
      let g' : Game J = record g {
        player_list =
            if is_some (lookup ℕ_discrete id g.connected)
            then g.player_list
            else g.player_list ++ id ∷ [];
        connected = update ℕ_discrete id false (λ _. true) g.connected;
      } in
      (g', if g'.started then out ++ (id, dump (to_json (get_full_state id g'))) ∷ [] else out)

  unfoldable pub disconnect : List Message → ℕ → Game J → Game J × List Message
  disconnect out id g =
      (record g { connected = update ℕ_discrete id false (λ _. false) g.connected }, out)

  -- a move that the board has taken
  unfoldable pub take_move : List Message → J → Board → Game J → Game J × List Message
  unfolding tell
  take_move out text board g =
      let g' : Game J = record g {
        board = board;
        turn = (g.turn + 1) % 2;
        move_list = g.move_list ++ text ∷ [];
      } in
      (g', tell_all (λ _. game_state (get_game_state g')) g' out)

  unfoldable pub player_update : List Message → ℕ → ℕ × ℕ × J → Game J → Game J × List Message
  unfolding add_move take_move
  player_update out id m g =
      if g.started && not (is_done g)
      then elim (get_elem? g.player_list g.turn) [
        | none ↦ (g, out)
        | some player ↦
            if id == player
            then (let r = add_move m.0 m.1 (board_value g.turn) g.board in
                if r.1 then take_move out m.2 r.0 g else (g, out))
            else (g, out)
      ]
      else (g, out)

  -- the loop over the messages
  unfoldable pub read_messages : List Message → List Message → Game J → Game J × List Message
  unfolding player_update
  read_messages out [] g = (g, out)
  read_messages out ((id, text) ∷ ms) g = elim (read_move text) [
    | none ↦ read_messages out ms g
    | some m ↦ let r = player_update out id m g in read_messages r.1 ms r.0
  ]

  -- once a second the players get the times
  unfoldable pub tell_times : ℕ → List Message → Game J → Game J × List Message
  unfolding tell
  tell_times delta out g =
      if leb 1000 (g.elapsed_time + delta)
      then (record g { elapsed_time = 0 }, tell_all (λ _. time_state g.times) g out)
      else (record g { elapsed_time = g.elapsed_time + delta }, out)

  -- `update` of a game that runs
  unfoldable pub play : List Message → List Message → ℕ → Game J → Game J × List Message
  unfolding tick tell_times tell read_messages
  play out ins delta g =
      let r = tell_times delta out (tick delta g) in
      let out' =
        if is_done r.0 then tell_all (λ _. game_state (get_game_state r.0)) r.0 r.1 else r.1 in
      read_messages out' ins r.0

  -- `update` of a game that does not run; `ms` is the time since the epoch in milliseconds
  unfoldable pub begin : List Message → ℕ → Game J → Game J × List Message
  unfolding tell
  begin out ms g =
      if g.valid && ltb 1 (length g.player_list)
      then (let g' : Game J = record g {
        started = true;
        player_list = if ms % 2 == 0 then swap_first_two g.player_list else g.player_list;
      } in
          (g', tell_all (λ id. get_full_state id g') g' out))
      else (g, out)

  unfoldable pub advance : ℕ → List Message → List Message → ℕ → Game J → Game J × List Message
  unfolding play begin
  advance ms out ins delta g =
      if g.started && not g.game_over then play out ins delta g else begin out ms g

  -- The game as an instance of the game server's template, while the clock shows `ms`.
  abbrev pub tic_tac_toe : ℕ → GameApi J (Game J)
  tic_tac_toe ms = record {
    make = make;
    is_valid = λ g. g.valid;
    is_done = is_done;
    get_state = get_state;
    connect = connect;
    disconnect = disconnect;
    advance = advance ms;
  }
