-- ===== src/TicTacToe/Service/Reads.antt =====
-- What the readers of tokens in examples/tic_tac_toe/matchmaking_server/matchmaking_server.cpp have
-- found, when they have found something.
use mathlib.Core.Option.{some-injective}
use simple_web_game_server.Prelude.Options.{bind-some}
use simple_web_game_server.Prelude.{ℕ, ◌≡◌, sym, ap, ◌∙◌, String, some, List, get_elem?}
use simple_web_game_server.TicTacToe.Service.{PlayerData, Tokens, Verifier, auth_verifier}
use simple_web_game_server.TicTacToe.Service.Routes.{read_player, read_entry, read_data}
use simple_web_game_server.TicTacToe.Service.Submission.{Report, read_report}

module _ {J Jwt D : Type 0} (api : Tokens J Jwt D) where
  pub read_entry_inv :
      (jwt_now : ℕ) (token : String) (database : List PlayerData) (pid : ℕ) (p : PlayerData)
      → read_entry api jwt_now token database ≡ some (pid, p)
      → (jwt : Jwt) × (read_player api auth_verifier jwt_now token ≡ some (jwt, pid))
        × (get_elem? database pid ≡ some p)
  unfolding read_entry
  read_entry_inv jwt_now token database pid p e =
      let (q, e1, f) = bind-some (read_player api auth_verifier jwt_now token) _ e in
      let (p', e2, g) = bind-some (get_elem? database q.1) _ f in
      let same = some-injective (q.1, p') (pid, p) g in
      let id = ap (λ (x : ℕ × PlayerData). x.0) same in
      (
        q.0,
        e1 ∙ ap (λ k. some (q.0, k)) id,
        ap (get_elem? database) (sym id) ∙ e2 ∙ ap (λ (x : ℕ × PlayerData). some x.1) same,
      )

  pub read_data_inv :
      (verifier : Verifier) (jwt_now : ℕ) (token : String) (database : List PlayerData) (pid : ℕ)
      (data_json : J) (p : PlayerData)
      → read_data api verifier jwt_now token database ≡ some (pid, data_json, p)
      → (jwt : Jwt) × (read_player api verifier jwt_now token ≡ some (jwt, pid))
        × (api.payload_claim jwt "data" ≡ some data_json)
        × (get_elem? database pid ≡ some p)
  unfolding read_data
  read_data_inv verifier jwt_now token database pid data_json p e =
      let (q, e1, f) = bind-some (read_player api verifier jwt_now token) _ e in
      let (d, e2, g) = bind-some (api.payload_claim q.0 "data") _ f in
      let (p', e3, h) = bind-some (get_elem? database q.1) _ g in
      let same = some-injective (q.1, d, p') (pid, data_json, p) h in
      let id = ap (λ (x : ℕ × J × PlayerData). x.0) same in
      (
        q.0,
        e1 ∙ ap (λ k. some (q.0, k)) id,
        e2 ∙ ap (λ (x : ℕ × J × PlayerData). some x.1) same,
        ap (get_elem? database) (sym id) ∙ e3 ∙ ap (λ (x : ℕ × J × PlayerData). some x.2) same,
      )

  -- The players of a result are its first two.
  pub read_report_inv :
      (data_json : J) (database : List PlayerData) (r : Report D)
      → read_report api data_json database ≡ some r
      → (players : List ℕ) × (api.players data_json ≡ some players)
        × (get_elem? players 0 ≡ some r.first)
        × (get_elem? players 1 ≡ some r.second)
  unfolding read_report
  read_report_inv data_json database r e =
      let (players, e1, f1) = bind-some (api.players data_json) _ e in
      let (scores, _, f2) = bind-some (api.scores data_json) _ f1 in
      let (first, e3, f3) = bind-some (get_elem? players 0) _ f2 in
      let (p1, _, f4) = bind-some (get_elem? database first) _ f3 in
      let (second, e5, f5) = bind-some (get_elem? players 1) _ f4 in
      let (p2, _, f6) = bind-some (get_elem? database second) _ f5 in
      let (score, _, f7) = bind-some (get_elem? scores 0) _ f6 in
      let same = some-injective _ r f7 in
      (
        players,
        e1,
        e3 ∙ ap (λ (x : Report D). some x.first) same,
        e5 ∙ ap (λ (x : Report D). some x.second) same,
      )
