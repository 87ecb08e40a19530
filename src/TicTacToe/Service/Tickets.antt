-- ===== src/TicTacToe/Service/Tickets.antt =====
-- `/login/` and `/cancel/` of examples/tic_tac_toe/matchmaking_server/matchmaking_server.cpp one after
-- the other.
use simple_web_game_server.Prelude.{
  ℕ, ◌≡◌, refl, sym, ap, subst, ◌∙◌, inl, inr, true, false, String, some, get_elem?, modify,
  get_elem?-modify, Bool-cases, if-true, if-false,
}
use simple_web_game_server.Base.Link.{incr}
use simple_web_game_server.TicTacToe.Service.{
  PlayerData, Service, Tokens, Reply, auth_verifier, mm_verifier, secret, replied, plain,
  json_reply, outcome,
}
use simple_web_game_server.TicTacToe.Service.Routes.{
  read_player, read_entry, read_data, enlisted, start_matchmaking, match_claims, login,
  cancel_player, cancel, with_matchmaking, set_matchmaking,
}

module _ {J Jwt D : Type 0} (api : Tokens J Jwt D) where
  read_entry-known :
      (jwt_now : ℕ) (token : String) (s : Service) (jwt : Jwt) (pid : ℕ) (p : PlayerData)
      → read_player api auth_verifier jwt_now token ≡ some (jwt, pid)
      → get_elem? s.player_database pid ≡ some p
      → read_entry api jwt_now token s.player_database ≡ some (pid, p)
  unfolding read_entry
  read_entry-known jwt_now token s jwt pid p e there = rw (e, there) refl

  -- the answer to a login, with the entry that the player then has
  abbrev pub answered : ℕ → Service × PlayerData → Service × Reply
  answered pid r = (r.0, replied "text/plain" (plain (api.sign secret (match_claims api pid r.1))))

  -- What a login does for a player who is known.
  pub login-known :
      (now jwt_now : ℕ) (token : String) (s : Service) (jwt : Jwt) (pid : ℕ) (p : PlayerData)
      → read_player api auth_verifier jwt_now token ≡ some (jwt, pid)
      → get_elem? s.player_database pid ≡ some p
      → let r = start_matchmaking now pid p s in login api now jwt_now token s ≡ answered pid r
  unfolding login
  login-known now jwt_now token s jwt pid p e there =
      rw (read_entry-known jwt_now token s jwt pid p e there, login) refl

  pub start_on :
      (now pid : ℕ) (p : PlayerData) (s : Service)
      → p.matchmaking ≡ true
      → start_matchmaking now pid p s ≡ (s, p)
  unfolding start_matchmaking
  start_on now pid p s on = if-true p.matchmaking _ _ on

  pub start_off :
      (now pid : ℕ) (p : PlayerData) (s : Service)
      → p.matchmaking ≡ false
      → start_matchmaking now pid p s ≡ (
        record s {
          session_count = incr s.session_count;
          player_database = modify pid (enlisted now s) s.player_database;
        },
        enlisted now s p,
      )
  unfolding start_matchmaking
  start_off now pid p s off = if-false p.matchmaking _ _ off

  -- The entry that a player has after a login.
  pub start_matchmaking-there :
      (now pid : ℕ) (p : PlayerData) (s : Service)
      → get_elem? s.player_database pid ≡ some p
      → let r = start_matchmaking now pid p s in
        (get_elem? r.0.player_database pid ≡ some r.1) × (r.1.matchmaking ≡ true)
  start_matchmaking-there now pid p s there = elim (Bool-cases p.matchmaking) [
    | inl on ↦
        subst
          (λ (r : Service × PlayerData).
            (get_elem? r.0.player_database pid ≡ some r.1) × (r.1.matchmaking ≡ true))
          (sym (start_on now pid p s on)) (there, on)
    | inr off ↦
        subst
          (λ (r : Service × PlayerData).
            (get_elem? r.0.player_database pid ≡ some r.1) × (r.1.matchmaking ≡ true))
          (sym (start_off now pid p s off))
          (get_elem?-modify pid (enlisted now s) s.player_database p there, refl)
  ]

  cancel-known :
      (jwt_now : ℕ) (token : String) (s : Service) (jwt : Jwt) (pid : ℕ) (p : PlayerData)
      (data_json : J)
      → read_player api mm_verifier jwt_now token ≡ some (jwt, pid)
      → api.payload_claim jwt "data" ≡ some data_json
      → api.matched data_json ≡ some false
      → get_elem? s.player_database pid ≡ some p
      → p.matchmaking ≡ true
      → cancel api jwt_now token s ≡ (with_matchmaking pid false s, json_reply (outcome true))
  unfolding cancel cancel_player read_data
  cancel-known jwt_now token s jwt pid p data_json e d m there on =
      rw (e, cancel, d, there) (if-true p.matchmaking _ _ on ∙ rw m refl)

  -- A player who is matchmaking, with an accepted token of the matchmaker which says that no match
  -- was found, becomes free by `/cancel/`, and the next login with a token of the player's gives
  -- the player the next session.
  pub cancel_frees :
      (now jwt_now jwt_later : ℕ) (token token2 : String) (s : Service) (jwt jwt2 : Jwt) (pid : ℕ)
      (p : PlayerData) (data_json : J)
      → read_player api mm_verifier jwt_now token ≡ some (jwt, pid)
      → api.payload_claim jwt "data" ≡ some data_json
      → api.matched data_json ≡ some false
      → get_elem? s.player_database pid ≡ some p
      → p.matchmaking ≡ true
      → read_player api auth_verifier jwt_later token2 ≡ some (jwt2, pid)
      → let c = cancel api jwt_now token s in
        let p2 = enlisted now s p in
        (c.1 ≡ json_reply (outcome true))
        × ((login api now jwt_later token2 c.0).1
            ≡ replied "text/plain" (plain (api.sign secret (match_claims api pid p2))))
        × (get_elem? (login api now jwt_later token2 c.0).0.player_database pid ≡ some p2)
        × ((login api now jwt_later token2 c.0).0.session_count ≡ incr s.session_count)
  cancel_frees now jwt_now jwt_later token token2 s jwt jwt2 pid p data_json e d m there on e2 =
      let free = with_matchmaking pid false s in
      let p1 = set_matchmaking false p in
      let there1 = get_elem?-modify pid (set_matchmaking false) s.player_database p there in
      let freed = cancel-known jwt_now token s jwt pid p data_json e d m there on in
      let full =
        ap (λ (x : Service × Reply). login api now jwt_later token2 x.0) freed
        ∙ login-known now jwt_later token2 free jwt2 pid p1 e2 there1
        ∙ ap (answered pid) (start_off now pid p1 free refl) in
      (
        ap (λ (x : Service × Reply). x.1) freed,
        ap (λ (x : Service × Reply). x.1) full,
        ap (λ (x : Service × Reply). get_elem? x.0.player_database pid) full
            ∙ get_elem?-modify pid (enlisted now free) free.player_database p1 there1,
        ap (λ (x : Service × Reply). x.0.session_count) full,
      )
