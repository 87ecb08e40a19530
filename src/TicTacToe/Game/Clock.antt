-- ===== src/TicTacToe/Game/Clock.antt =====
-- What happens when a player of `tic_tac_toe_game` runs out of time.
use simple_web_game_server.Prelude.{
  ℕ, ◌+◌, ◌≡◌, ◌≤◌, ◌<◌, refl, ◌∙◌, ap, Bool, true, false, not, ◌&&◌, ◌||◌, List, [], ◌∷◌, ◌==◌,
  arith, Option-cases, Bool-cases, leb, if◌then◌else◌, inl, inr,
}
use simple_web_game_server.Prelude.Int.{ℤ}
use simple_web_game_server.Game.{Message}
use simple_web_game_server.TicTacToe.Board
use simple_web_game_server.TicTacToe.Board.{board_value}
use simple_web_game_server.TicTacToe.Game.{
  Game, Json, is_done, time_out, tick, tell_times, player_update, read_messages, begin, play,
  advance,
}

-- the fields that the timeout decides
abbrev LostOnTime : {J : Type 0} → ℤ → Game J → Type 0
LostOnTime v g = (g.game_over ≡ true) × (g.state ≡ v)

module _ {J : Type 0} (json : Json J) where
  player_update-over :
      (out : List Message) (id : ℕ) (m : ℕ × ℕ × J) (g : Game J)
      → g.game_over ≡ true
      → player_update json out id m g ≡ (g, out)
  unfolding player_update
  player_update-over out id m g over = elim (Bool-cases (g.started && not (is_done g))) [
    | inl e ↦ ground arith
    | inr e ↦ rw (e, player_update) refl
  ]

  -- A game that is over reads its messages without effect.
  read_messages-over :
      (out ins : List Message) (g : Game J)
      → g.game_over ≡ true
      → read_messages json out ins g ≡ (g, out)
  unfolding read_messages player_update
  read_messages-over out [] g over = refl
  read_messages-over out ((id, text) ∷ ms) g over = elim (Option-cases (json.read_move text)) [
    | inl e ↦ rw (e, read_messages) (read_messages-over out ms g over)
    | inr (m, e) ↦
        rw (e, read_messages, player_update-over out id m g over) (read_messages-over out ms g over)
  ]

  tell_times-LostOnTime :
      (v : ℤ) (delta : ℕ) (out : List Message) (g : Game J)
      → LostOnTime v g
      → LostOnTime v (tell_times json delta out g).0
  unfolding tell_times
  tell_times-LostOnTime v delta out g h = elim (Bool-cases (leb 1000 (g.elapsed_time + delta))) [
    | inl e ↦ rw e h
    | inr e ↦ rw e h
  ]

  read_messages-LostOnTime :
      (v : ℤ) (out ins : List Message) (g : Game J)
      → LostOnTime v g
      → LostOnTime v (read_messages json out ins g).0
  read_messages-LostOnTime v out ins g h = rw (read_messages-over out ins g h.0) h

module _ {J : Type 0} where
  tick-LostOnTime :
      (delta : ℕ) (g : Game J)
      → g.turn < 2
      → (if g.turn == 0 then g.times.0 else g.times.1) ≤ delta
      → 0 < (if g.turn == 0 then g.times.1 else g.times.0)
      → LostOnTime (board_value g.turn) (tick delta g)
  unfolding tick time_out
  tick-LostOnTime delta g turn late left = (ground arith, ground arith)

or_true : (b : Bool) → (b || true) ≡ true
or_true true = refl
or_true false = refl

is_done-over : {J : Type 0} (g : Game J) → g.game_over ≡ true → is_done g ≡ true
is_done-over g h = ap (λ b. Board.is_done g.board || b) h ∙ or_true (Board.is_done g.board)

module _ {J : Type 0} (json : Json J) where
  play-LostOnTime :
      (v : ℤ) (out ins : List Message) (delta : ℕ) (g : Game J)
      → LostOnTime v (tick delta g)
      → LostOnTime v (play json out ins delta g).0
  unfolding play
  play-LostOnTime v out ins delta g h =
      read_messages-LostOnTime json v _ ins (tell_times json delta out (tick delta g)).0
        (tell_times-LostOnTime json v delta out (tick delta g) h)

  advance-running :
      (ms : ℕ) (out ins : List Message) (delta : ℕ) (g : Game J)
      → (g.started && not g.game_over) ≡ true
      → advance json ms out ins delta g ≡ play json out ins delta g
  unfolding advance
  advance-running ms out ins delta g h =
      ap (λ (b : Bool). if b then play json out ins delta g else begin json out ms g) h

  -- In a game that runs, when the time of the player whose turn it is runs out and the other
  -- player has time left: the game is over, whatever messages come, and the state that is added to
  -- the board's is the value of the player who ran out of time, as if that player had a line.
  pub out_of_time :
      (ms delta : ℕ) (out ins : List Message) (g : Game J)
      → g.started ≡ true
      → g.game_over ≡ false
      → g.turn < 2
      → (if g.turn == 0 then g.times.0 else g.times.1) ≤ delta
      → 0 < (if g.turn == 0 then g.times.1 else g.times.0)
      → let g' = (advance json ms out ins delta g).0 in
        (is_done g' ≡ true) × (g'.game_over ≡ true) × (g'.state ≡ board_value g.turn)
  out_of_time ms delta out ins g on running turn late left =
      let (over, lost) =
        play-LostOnTime (board_value g.turn) out ins delta g
          (tick-LostOnTime delta g turn late left) in
      rw (advance-running ms out ins delta g (ground arith))
        (is_done-over (play json out ins delta g).0 over, over, lost)
