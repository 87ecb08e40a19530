-- ===== src/TicTacToe/Service/Authority.antt =====
-- Whose entries a request to examples/tic_tac_toe/matchmaking_server/matchmaking_server.cpp can change.
use simple_web_game_server.Prelude.{
  ℕ, ◌≡◌, ◌⊎◌, refl, ap, ◌∙◌, inl, inr, Bool, true, false, String, some, List, [], ◌∷◌, zero, suc,
  ◌++◌, arith, leb, length, get_elem?, modify, get_elem?-modify_other, Bool-cases, Option-cases,
  if◌then◌else◌, ℕ_discrete,
}
use simple_web_game_server.TicTacToe.Service.{
  max_pids, PlayerData, Service, Tokens, Doubles, Files, Reply, Verifier, auth_verifier,
  mm_verifier, game_verifier,
}
use simple_web_game_server.TicTacToe.Service.Routes.{
  new_player, read_player, read_entry, read_data, signup, info, start_matchmaking, login,
  cancel_player, cancel,
}
use simple_web_game_server.TicTacToe.Service.Submission.{
  Report, read_report, add_score, expected, rate_players, submit_result, submit,
}
use simple_web_game_server.TicTacToe.Service.Handler.{
  Route, signup_route, info_route, login_route, submit_route, cancel_route, file_route, take_route,
}
use simple_web_game_server.TicTacToe.Service.Reads.{read_entry_inv, read_data_inv, read_report_inv}

module _ {J Jwt D : Type 0} (api : Tokens J Jwt D) where
  -- The verifier has accepted the token, and the token is the player's.
  abbrev pub Proves : Verifier → ℕ → String → ℕ → Type 0
  Proves verifier jwt_now token i =
      (jwt : Jwt) × (read_player api verifier jwt_now token ≡ some (jwt, i))

  -- An accepted result token lists the player as its first or its second one.
  abbrev pub Lists : ℕ → String → ℕ → Type 0
  Lists jwt_now token i =
      (jwt : Jwt) × (pid : ℕ) × (data_json : J) × (players : List ℕ) × (read_player api
          game_verifier jwt_now token
        ≡ some (jwt, pid))
      × (api.payload_claim jwt "data" ≡ some data_json)
      × (api.players data_json ≡ some players)
      × ((get_elem? players 0 ≡ some i) ⊎ (get_elem? players 1 ≡ some i))

  -- The route's token is the player's, or a result of the player's.
  abbrev pub Names : ℕ → Route → ℕ → Type 0
  Names jwt_now (login_route token) i = Proves auth_verifier jwt_now token i
  Names jwt_now (cancel_route token) i = Proves mm_verifier jwt_now token i
  Names jwt_now (submit_route token) i =
      Proves game_verifier jwt_now token i ⊎ Lists jwt_now token i
  Names jwt_now _ i = ⊥

-- Where a list is changed elsewhere, the element stays.
kept-modify :
    {P : Type 0} (i j : ℕ) (f : PlayerData → PlayerData) (database : List PlayerData)
    (p : PlayerData)
    → (i ≡ j → P)
    → (get_elem? database j ≡ some p) ⊎ P
    → (get_elem? (modify i f database) j ≡ some p) ⊎ P
kept-modify i j f database p own (inr h) = inr h
kept-modify i j f database p own (inl h) = elim (ℕ_discrete i j) [
  | yes e ↦ inr (own e)
  | no n ↦ inl (get_elem?-modify_other i j f database n ∙ h)
]

kept-snoc :
    (i : ℕ) (database : List PlayerData) (x p : PlayerData)
    → get_elem? database i ≡ some p
    → get_elem? (database ++ x ∷ []) i ≡ some p
kept-snoc i [] x p e = absurd (ground arith)
kept-snoc zero (y ∷ database) x p e = e
kept-snoc (suc i) (y ∷ database) x p e = kept-snoc i database x p e

module _ (s : Service) (i : ℕ) (p : PlayerData) where
  -- the entry of the player is still there, or else `P`
  abbrev Kept : Type 0 → Service → Type 0
  Kept P s' = (get_elem? s'.player_database i ≡ some p) ⊎ P

  Kept-if :
      {P : Type 0} (b : Bool) (x y : Service × Reply)
      → Kept P x.0
      → Kept P y.0
      → Kept P (if b then x else y).0
  Kept-if true x y h k = h
  Kept-if false x y h k = k

module _ {J Jwt D : Type 0} (api : Tokens J Jwt D) (reals : Doubles D) (s : Service) (i : ℕ)
    (p : PlayerData) (there : get_elem? s.player_database i ≡ some p) where
  login-Kept :
      (now jwt_now : ℕ) (token : String)
      → Kept s i p (Proves api auth_verifier jwt_now token i) (login api now jwt_now token s).0
  unfolding login start_matchmaking read_entry
  login-Kept now jwt_now token =
      elim (Option-cases (read_entry api jwt_now token s.player_database)) [
        | inl e ↦ rw (e, login) (inl there)
        | inr ((pid, q), e) ↦
            let (jwt, e1, _) = read_entry_inv api jwt_now token s.player_database pid q e in
            elim (Bool-cases q.matchmaking) [
              | inl on ↦ rw (e, login, on) (inl there)
              | inr off ↦
                  rw (e, login, off)
                    (kept-modify pid i _ s.player_database p
                      (λ same. (jwt, e1 ∙ ap (λ k. some (jwt, k)) same)) (inl there))
            ]
      ]

  cancel-Kept :
      (jwt_now : ℕ) (token : String)
      → Kept s i p (Proves api mm_verifier jwt_now token i) (cancel api jwt_now token s).0
  unfolding cancel cancel_player
  cancel-Kept jwt_now token =
      elim (Option-cases (read_data api mm_verifier jwt_now token s.player_database)) [
        | inl e ↦ rw (e, cancel) (inl there)
        | inr ((pid, d, q), e) ↦
            let (jwt, e1, _, _) =
              read_data_inv api mm_verifier jwt_now token s.player_database pid d q e in
            let own : pid ≡ i → Proves api mm_verifier jwt_now token i =
              λ same. (jwt, e1 ∙ ap (λ k. some (jwt, k)) same) in
            rw (e, cancel)
              (Kept-if s i p q.matchmaking _ _
                (elim (Option-cases (api.matched d)) [
                  | inl h ↦ rw h (inl there)
                  | inr (true, h) ↦ rw h (inl there)
                  | inr (false, h) ↦ rw h (kept-modify pid i _ s.player_database p own (inl there))
                ])
                (inl there))
      ]

  submit-Kept :
      (jwt_now : ℕ) (token : String)
      → Kept s i p (Names api jwt_now (submit_route token) i) (submit api reals jwt_now token s).0
  unfolding submit submit_result rate_players
  submit-Kept jwt_now token =
      elim (Option-cases (read_data api game_verifier jwt_now token s.player_database)) [
        | inl e ↦ rw (e, submit) (inl there)
        | inr ((pid, d, q), e) ↦
            let (jwt, e1, e2, _) =
              read_data_inv api game_verifier jwt_now token s.player_database pid d q e in
            rw (e, submit)
              (Kept-if s i p q.matchmaking _ _
                (elim (Option-cases (read_report api d s.player_database)) [
                  | inl h ↦ rw h (inl there)
                  | inr (r, h) ↦ rw h (rated jwt_now token jwt pid d e1 e2 r h)
                ])
                (inl there))
      ]
    where
      rated :
          (jwt_now : ℕ) (token : String) (jwt : Jwt) (pid : ℕ) (d : J)
          → read_player api game_verifier jwt_now token ≡ some (jwt, pid)
          → api.payload_claim jwt "data" ≡ some d
          → (r : Report D) → read_report api d s.player_database ≡ some r
          → Kept s i p (Names api jwt_now (submit_route token) i) (rate_players reals pid r s).0
      rated jwt_now token jwt pid d e1 e2 r h =
          let (players, e3, e4, e5) = read_report_inv api d s.player_database r h in
          let x = expected reals r.p1 r.p2 in
          let first =
            kept-modify r.first i (add_score reals r.score x.0) s.player_database p
              (λ same. inr (jwt, pid, d, players, e1, e2, e3, inl (e4 ∙ ap some same)))
              (inl there) in
          elim (Option-cases (get_elem? r.scores 1)) [
            | inl n ↦ rw (n, rate_players) first
            | inr (score2, n) ↦
                rw (n, rate_players)
                  (kept-modify pid i _ _ p (λ same. inl (jwt, e1 ∙ ap (λ k. some (jwt, k)) same))
                    (kept-modify r.second i _ _ p
                      (λ same. inr (jwt, pid, d, players, e1, e2, e3, inr (e5 ∙ ap some same)))
                      first))
          ]

module _ {J Jwt D FilePath : Type 0} (api : Tokens J Jwt D) (reals : Doubles D)
    (files : Files FilePath) where
  signup-Kept :
      (s : Service) (i : ℕ) (p : PlayerData)
      → get_elem? s.player_database i ≡ some p
      → get_elem? (signup api s).0.player_database i ≡ some p
  unfolding signup
  signup-Kept s i p there = elim (Bool-cases (leb max_pids (length s.player_database))) [
    | inl full ↦ rw (full, signup) there
    | inr free ↦ rw (free, signup) (kept-snoc i s.player_database new_player p there)
  ]

  info-state : (jwt_now : ℕ) (token : String) (s : Service) → (info api jwt_now token s).0 ≡ s
  unfolding info
  info-state jwt_now token s =
      elim (Option-cases (read_entry api jwt_now token s.player_database)) [
        | inl e ↦ rw (e, info) refl
        | inr (r, e) ↦ rw (e, info) refl
      ]

  -- A request leaves the entry of a player as it is, unless the token in its URI was accepted by the
  -- verifier of its route and is that player's, or is an accepted result that lists that player
  -- first or second.
  pub only_named :
      (now jwt_now : ℕ) (r : Route) (s : Service) (i : ℕ) (p : PlayerData)
      → get_elem? s.player_database i ≡ some p
      → let s' = (take_route api reals files now jwt_now r s).0 in
        (get_elem? s'.player_database i ≡ some p) ⊎ Names api jwt_now r i
  unfolding take_route
  only_named now jwt_now signup_route s i p there = inl (signup-Kept s i p there)
  only_named now jwt_now (info_route token) s i p there =
      inl (rw (info-state jwt_now token s) there)
  only_named now jwt_now (login_route token) s i p there =
      login-Kept api reals s i p there now jwt_now token
  only_named now jwt_now (submit_route token) s i p there =
      submit-Kept api reals s i p there jwt_now token
  only_named now jwt_now (cancel_route token) s i p there =
      cancel-Kept api reals s i p there jwt_now token
  only_named now jwt_now (file_route uri) s i p there = inl there
