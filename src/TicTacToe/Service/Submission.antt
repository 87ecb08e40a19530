-- ===== src/TicTacToe/Service/Submission.antt =====
-- The route /submit/ of `http_handler` in examples/tic_tac_toe/matchmaking_server/matchmaking_server.cpp:
-- a player reports the result of a game.
use simple_web_game_server.Prelude.Options.{◌>>=◌}
use simple_web_game_server.Prelude.{
  ℕ, true, false, String, Option, none, some, List, get_elem?, modify, if◌then◌else◌,
}
use simple_web_game_server.TicTacToe.Service.{
  PlayerData, Service, game_verifier, Tokens, Doubles, Reply, outcome, json_reply,
}
use simple_web_game_server.TicTacToe.Service.Routes.{refused, with_matchmaking, read_data}

-- the two players of a result, with their entries, and the first one's score
pub record Report (D : Type 0) : Type 0 where
  pub first : ℕ
  pub second : ℕ
  pub p1 : PlayerData
  pub p2 : PlayerData
  pub scores : List D
  pub score : D

module _ {J Jwt D : Type 0} (api : Tokens J Jwt D) where
  -- The reads before the first write.
  unfoldable pub read_report : J → List PlayerData → Option (Report D)
  read_report data_json database = do
    players ← api.players data_json
    scores ← api.scores data_json
    first ← get_elem? players 0
    p1 ← get_elem? database first
    second ← get_elem? players 1
    p2 ← get_elem? database second
    score ← get_elem? scores 0
    some (record {
      first = first;
      second = second;
      p1 = p1;
      p2 = p2;
      scores = scores;
      score = score;
    })

module _ {D : Type 0} (reals : Doubles D) where
  -- elo += 32.0 * (score - expected)
  abbrev pub add_score : D → D → PlayerData → PlayerData
  add_score score expected p = record p { elo = reals.add_to_int p.elo (reals.gain score expected) }

  -- `expected_s1` and `expected_s2`
  abbrev pub expected : PlayerData → PlayerData → D × D
  expected p1 p2 =
      let q1 = reals.strength p1.elo in
      let q2 = reals.strength p2.elo in
      let denom = reals.add q1 q2 in (reals.divide q1 denom, reals.divide q2 denom)

  -- The writes: the first player's rating is there already when the second score is not.
  unfoldable pub rate_players : ℕ → Report D → Service → Service × Reply
  rate_players pid r s =
      let e = expected r.p1 r.p2 in
      let s1 = record s {
        player_database = modify r.first (add_score r.score e.0) s.player_database;
      } in
      elim (get_elem? r.scores 1) [
        | none ↦ (s1, refused)
        | some score2 ↦
            let s2 = record s1 {
              player_database = modify r.second (add_score score2 e.1) s1.player_database;
            } in
            (with_matchmaking pid false s2, json_reply (outcome true))
      ]

module _ {J Jwt D : Type 0} (api : Tokens J Jwt D) (reals : Doubles D) where
  unfoldable pub submit_result : ℕ → J → PlayerData → Service → Service × Reply
  unfolding read_report rate_players
  submit_result pid data_json p s =
      if p.matchmaking
      then elim (read_report api data_json s.player_database) [
        | none ↦ (s, refused)
        | some r ↦ rate_players reals pid r s
      ]
      else (s, json_reply (outcome true))

  unfoldable pub submit : ℕ → String → Service → Service × Reply
  unfolding read_data submit_result
  submit jwt_now token s = elim (read_data api game_verifier jwt_now token s.player_database) [
    | none ↦ (s, refused)
    | some (pid, data_json, p) ↦ submit_result pid data_json p s
  ]
