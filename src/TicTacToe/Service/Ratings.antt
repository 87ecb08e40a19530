-- ===== src/TicTacToe/Service/Ratings.antt =====
-- `/submit/` of examples/tic_tac_toe/matchmaking_server/matchmaking_server.cpp: the ratings of the two
-- players of a game.
use simple_web_game_server.Prelude.{
  ℕ, ◌≡◌, ◌≢◌, refl, sym, ap, ◌∙◌, true, false, String, some, List, [], ◌∷◌, get_elem?, modify,
  get_elem?-modify, get_elem?-modify_other, if-true,
}
use simple_web_game_server.TicTacToe.Service.{
  PlayerData, Service, Tokens, Doubles, Reply, game_verifier, json_reply, outcome,
}
use simple_web_game_server.TicTacToe.Service.Routes.{read_player, read_data, set_matchmaking}
use simple_web_game_server.TicTacToe.Service.Submission.{
  read_report, add_score, expected, rate_players, submit_result, submit,
}

-- Two entries of a database.
abbrev Both : ℕ → ℕ → List PlayerData → PlayerData → PlayerData → Type 0
Both a b database p1 p2 = (get_elem? database a ≡ some p1) × (get_elem? database b ≡ some p2)

module _ (a b : ℕ) (database : List PlayerData) (p1 p2 : PlayerData) where
  Both-modify_first :
      (f : PlayerData → PlayerData)
      → a ≢ b
      → Both a b database p1 p2
      → Both a b (modify a f database) (f p1) p2
  Both-modify_first f n h =
      (get_elem?-modify a f database p1 h.0, get_elem?-modify_other a b f database n ∙ h.1)

  Both-modify_second :
      (f : PlayerData → PlayerData)
      → a ≢ b
      → Both a b database p1 p2
      → Both a b (modify b f database) p1 (f p2)
  Both-modify_second f n h = (
    get_elem?-modify_other b a f database (λ e. n (sym e)) ∙ h.0,
    get_elem?-modify b f database p2 h.1,
  )

-- What `/submit/` makes of the database: the ratings of the two players of a game after their scores, as
-- Elo's formula has it, and the player who submits is not matchmaking any more.
abbrev pub rated :
    {D : Type 0}
    → Doubles D
    → ℕ
    → ℕ
    → D
    → D
    → ℕ
    → PlayerData
    → PlayerData
    → List PlayerData
    → List PlayerData
rated reals a b score1 score2 pid p1 p2 database =
    let e = expected reals p1 p2 in
    modify pid (set_matchmaking false)
      (modify b (add_score reals score2 e.1) (modify a (add_score reals score1 e.0) database))

module _ {J Jwt D : Type 0} (api : Tokens J Jwt D) (reals : Doubles D) where
  -- the two entries after one game, as Elo's formula has it
  abbrev pub rate : D → D → PlayerData × PlayerData → PlayerData × PlayerData
  rate score1 score2 (p1, p2) =
      let e = expected reals p1 p2 in (add_score reals score1 e.0 p1, add_score reals score2 e.1 p2)

  module _ (a b : ℕ) (score1 score2 : D) (data_json : J)
      (listed : api.players data_json ≡ some (a ∷ b ∷ []))
      (scored : api.scores data_json ≡ some (score1 ∷ score2 ∷ [])) where
    pub submit-known :
        (jwt_now : ℕ) (token : String) (s : Service) (jwt : Jwt) (pid : ℕ) (p p1 p2 : PlayerData)
        → read_player api game_verifier jwt_now token ≡ some (jwt, pid)
        → api.payload_claim jwt "data" ≡ some data_json
        → get_elem? s.player_database pid ≡ some p
        → p.matchmaking ≡ true
        → get_elem? s.player_database a ≡ some p1
        → get_elem? s.player_database b ≡ some p2
        → submit api reals jwt_now token s ≡ (
          record s { player_database = rated reals a b score1 score2 pid p1 p2 s.player_database },
          json_reply (outcome true),
        )
    unfolding submit submit_result read_data read_report rate_players
    submit-known jwt_now token s jwt pid p p1 p2 e d there on there1 there2 =
        rw (e, submit, d, there)
          (if-true p.matchmaking _ _ on ∙ rw (listed, scored, there1, there2) refl)

    rated_pair :
        (database : List PlayerData) (p1 p2 : PlayerData)
        → a ≢ b
        → Both a b database p1 p2
        → let r = rate score1 score2 (p1, p2) in
          let e = expected reals p1 p2 in
          Both a b
            (modify b (add_score reals score2 e.1) (modify a (add_score reals score1 e.0) database))
            r.0
            r.1
    rated_pair database p1 p2 n h =
        let e = expected reals p1 p2 in
        Both-modify_second a b _ (add_score reals score1 e.0 p1) p2 (add_score reals score2 e.1) n
          (Both-modify_first a b database p1 p2 (add_score reals score1 e.0) n h)

    -- One result of two different players who are both matchmaking, with a score for each, is
    -- counted twice when each of the two reports it with an accepted token: the ratings after both
    -- reports are those of two games, the second of them with the ratings after the first.
    pub counted_twice :
        (jwt_now jwt_later : ℕ) (token token2 : String) (s : Service) (jwt jwt2 : Jwt)
        (p1 p2 : PlayerData)
        → a ≢ b
        → read_player api game_verifier jwt_now token ≡ some (jwt, a)
        → api.payload_claim jwt "data" ≡ some data_json
        → read_player api game_verifier jwt_later token2 ≡ some (jwt2, b)
        → api.payload_claim jwt2 "data" ≡ some data_json
        → get_elem? s.player_database a ≡ some p1
        → get_elem? s.player_database b ≡ some p2
        → p1.matchmaking ≡ true
        → p2.matchmaking ≡ true
        → let s2 = (submit api reals jwt_later token2 (submit api reals jwt_now token s).0).0 in
          let twice = rate score1 score2 (rate score1 score2 (p1, p2)) in
          (get_elem? s2.player_database a ≡ some (set_matchmaking false twice.0))
          × (get_elem? s2.player_database b ≡ some (set_matchmaking false twice.1))
    counted_twice jwt_now jwt_later token token2 s jwt jwt2 p1 p2 n e d e2 d2 there1 there2 on on2 =
        let once = rate score1 score2 (p1, p2) in
        let q1 = set_matchmaking false once.0 in
        let q2 = once.1 in
        let h =
          Both-modify_first a b _ once.0 q2 (set_matchmaking false) n
            (rated_pair s.player_database p1 p2 n (there1, there2)) in
        let database = rated reals a b score1 score2 a p1 p2 s.player_database in
        let twice = rate score1 score2 (q1, q2) in
        let k =
          Both-modify_second a b _ twice.0 twice.1 (set_matchmaking false) n
            (rated_pair database q1 q2 n h) in
        let done =
          ap (λ (x : Service × Reply). submit api reals jwt_later token2 x.0)
            (submit-known jwt_now token s jwt a p1 p1 p2 e d there1 on there1 there2)
          ∙ submit-known jwt_later token2 (record s { player_database = database }) jwt2 b q2 q1 q2
              e2 d2 h.1 on2 h.0 h.1 in
        (
          ap (λ (x : Service × Reply). get_elem? x.0.player_database a) done ∙ k.0,
          ap (λ (x : Service × Reply). get_elem? x.0.player_database b) done ∙ k.1,
        )
