-- ===== src/TicTacToe/Service/Changes.antt =====
-- What a request to the service of examples/tic_tac_toe/matchmaking_server/matchmaking_server.cpp can
-- do to the players.
use simple_web_game_server.Prelude.{
  ℕ, ◌<◌, ◌≡◌, refl, ◌∙◌, inl, inr, Bool, true, false, String, some, List, [], ◌∷◌, ◌++◌, arith,
  leb, length, get_elem?, modify, length-modify, get_elem?-modify_inv, Bool-cases, Option-cases,
  if◌then◌else◌,
}
use simple_web_game_server.Base.Link.{incr}
use simple_web_game_server.TicTacToe.Service.{
  max_pids, PlayerData, Service, Tokens, Doubles, Files, Reply, mm_verifier, game_verifier,
  only_status, method_not_allowed,
}
use simple_web_game_server.TicTacToe.Service.Routes.{
  new_player, set_matchmaking, read_entry, read_data, signup, info, enlisted, start_matchmaking,
  login, cancel_player, cancel,
}
use simple_web_game_server.TicTacToe.Service.Submission.{
  Report, read_report, add_score, expected, rate_players, submit_result, submit,
}
use simple_web_game_server.TicTacToe.Service.Reads.{read_entry_inv}
use simple_web_game_server.TicTacToe.Service.Handler.{
  Route, signup_route, info_route, login_route, submit_route, cancel_route, file_route, Request,
  route, take_route, http_handler,
}

-- The same players with the same sessions, where none has started matchmaking.
abbrev pub Relaxed : List PlayerData → List PlayerData → Type 0
Relaxed database database' =
    (length database' ≡ length database)
    × ((i : ℕ) (p' : PlayerData)
        → get_elem? database' i ≡ some p'
        → (p : PlayerData) × (get_elem? database i ≡ some p)
          × (p'.sid ≡ p.sid)
          × (p'.matchmaking ≡ true → p.matchmaking ≡ true))

Relaxed-refl : (database : List PlayerData) → Relaxed database database
Relaxed-refl database = (refl, λ i p e. (p, e, refl, λ h. h))

Relaxed-trans : (a b c : List PlayerData) → Relaxed a b → Relaxed b c → Relaxed a c
Relaxed-trans a b c r s = (
  s.0 ∙ r.0,
  λ i p e.
      let (q, e1, k1, m1) = s.1 i p e in
      let (u, e2, k2, m2) = r.1 i q e1 in (u, e2, k1 ∙ k2, λ h. m2 (m1 h)),
)

Relaxed-modify :
    (i : ℕ) (f : PlayerData → PlayerData) (database : List PlayerData)
    → ((p : PlayerData) → (f p).sid ≡ p.sid)
    → ((p : PlayerData) → (f p).matchmaking ≡ true → p.matchmaking ≡ true)
    → Relaxed database (modify i f database)
Relaxed-modify i f database k m = (
  length-modify i f database,
  λ j p e.
      let (q, e1, cases) = get_elem?-modify_inv i j f database p e in
      (
        q,
        e1,
        elim cases [ inl (_, v) ↦ rw v (k q) | inr (_, v) ↦ rw v refl ],
        elim cases [ inl (_, v) ↦ rw v (m q) | inr (_, v) ↦ rw v (λ h. h) ],
      ),
)

-- The change of the state by a request.
pub data Change (s s' : Service) : Type 0 where
  relaxes :
      s'.session_count ≡ s.session_count
      → Relaxed s.player_database s'.player_database
      → Change s s'
  signs_up :
      length s.player_database < max_pids
      → s' ≡ record s { player_database = s.player_database ++ new_player ∷ [] }
      → Change s s'
  enlists :
      (now pid : ℕ) (p : PlayerData)
      → get_elem? s.player_database pid ≡ some p
      → p.matchmaking ≡ false
      → s' ≡ record s {
        session_count = incr s.session_count;
        player_database = modify pid (enlisted now s) s.player_database;
      }
      → Change s s'

Change-refl : (s : Service) → Change s s
Change-refl s = relaxes refl (Relaxed-refl s.player_database)

Change-if :
    (s : Service) (b : Bool) (x y : Service × Reply)
    → Change s x.0
    → Change s y.0
    → Change s (if b then x else y).0
Change-if s true x y h k = h
Change-if s false x y h k = k

module _ {J Jwt D : Type 0} (api : Tokens J Jwt D) where
  signup-Change : (s : Service) → Change s (signup api s).0
  unfolding signup
  signup-Change s = elim (Bool-cases (leb max_pids (length s.player_database))) [
    | inl full ↦ rw (full, signup) (Change-refl s)
    | inr free ↦ rw (free, signup) (signs_up (ground arith) refl)
  ]

  info-Change : (jwt_now : ℕ) (token : String) (s : Service) → Change s (info api jwt_now token s).0
  unfolding info
  info-Change jwt_now token s =
      elim (Option-cases (read_entry api jwt_now token s.player_database)) [
        | inl e ↦ rw (e, info) (Change-refl s)
        | inr (r, e) ↦ rw (e, info) (Change-refl s)
      ]

  login-Change :
      (now jwt_now : ℕ) (token : String) (s : Service) → Change s (login api now jwt_now token s).0
  unfolding login start_matchmaking
  login-Change now jwt_now token s =
      elim (Option-cases (read_entry api jwt_now token s.player_database)) [
        | inl e ↦ rw (e, login) (Change-refl s)
        | inr ((pid, p), e) ↦ elim (Bool-cases p.matchmaking) [
          | inl on ↦ rw (e, login, on) (Change-refl s)
          | inr off ↦
              rw (e, login, off)
                (let (_, _, there) = read_entry_inv api jwt_now token s.player_database pid p e in
                  enlists now pid p there off refl)
        ]
      ]

  cancel_player-Change :
      (pid : ℕ) (data_json : J) (p : PlayerData) (s : Service)
      → Change s (cancel_player api pid data_json p s).0
  unfolding cancel_player
  cancel_player-Change pid data_json p s =
      Change-if s p.matchmaking _ _
        (elim (Option-cases (api.matched data_json)) [
          | inl e ↦ rw e (Change-refl s)
          | inr (true, e) ↦ rw e (Change-refl s)
          | inr (false, e) ↦ rw e (
              relaxes refl
                (Relaxed-modify pid _ s.player_database (λ q. refl) (λ q h. absurd (ground arith))))
        ])
        (Change-refl s)

  cancel-Change :
      (jwt_now : ℕ) (token : String) (s : Service) → Change s (cancel api jwt_now token s).0
  unfolding cancel
  cancel-Change jwt_now token s =
      elim (Option-cases (read_data api mm_verifier jwt_now token s.player_database)) [
        | inl e ↦ rw (e, cancel) (Change-refl s)
        | inr ((pid, data_json, p), e) ↦ rw (e, cancel) (cancel_player-Change pid data_json p s)
      ]

module _ {J Jwt D : Type 0} (api : Tokens J Jwt D) (reals : Doubles D) where
  rated :
      (i : ℕ) (score expected : D) (database : List PlayerData)
      → Relaxed database (modify i (add_score reals score expected) database)
  rated i score expected database = Relaxed-modify i _ database (λ q. refl) (λ q h. h)

  rate_players-Change :
      (pid : ℕ) (r : Report D) (s : Service) → Change s (rate_players reals pid r s).0
  unfolding rate_players
  rate_players-Change pid r s =
      let e = expected reals r.p1 r.p2 in
      let first = rated r.first r.score e.0 s.player_database in
      elim (Option-cases (get_elem? r.scores 1)) [
        | inl h ↦ rw (h, rate_players) (relaxes refl first)
        | inr (score2, h) ↦
            rw (h, rate_players)
              (relaxes refl (
                Relaxed-trans _ _ _ first (
                  Relaxed-trans _ _ _ (rated r.second score2 e.1 _) (
                    Relaxed-modify pid (set_matchmaking false) _ (λ q. refl)
                      (λ q h. absurd (ground arith))))))
      ]

  submit-Change :
      (jwt_now : ℕ) (token : String) (s : Service) → Change s (submit api reals jwt_now token s).0
  unfolding submit submit_result
  submit-Change jwt_now token s =
      elim (Option-cases (read_data api game_verifier jwt_now token s.player_database)) [
        | inl e ↦ rw (e, submit) (Change-refl s)
        | inr ((pid, data_json, p), e) ↦
            rw (e, submit)
              (Change-if s p.matchmaking _ _
                (elim (Option-cases (read_report api data_json s.player_database)) [
                  | inl h ↦ rw h (Change-refl s)
                  | inr (r, h) ↦ rw h (rate_players-Change pid r s)
                ])
                (Change-refl s))
      ]

module _ {J Jwt D FilePath : Type 0} (api : Tokens J Jwt D) (reals : Doubles D)
    (files : Files FilePath) where
  take_route-Change :
      (now jwt_now : ℕ) (r : Route) (s : Service)
      → Change s (take_route api reals files now jwt_now r s).0
  unfolding take_route
  take_route-Change now jwt_now signup_route s = signup-Change api s
  take_route-Change now jwt_now (info_route token) s = info-Change api jwt_now token s
  take_route-Change now jwt_now (login_route token) s = login-Change api now jwt_now token s
  take_route-Change now jwt_now (submit_route token) s = submit-Change api reals jwt_now token s
  take_route-Change now jwt_now (cancel_route token) s = cancel-Change api jwt_now token s
  take_route-Change now jwt_now (file_route uri) s = Change-refl s

  pub http_handler-Change :
      (req : Request) (s : Service) → Change s (http_handler api reals files req s).0
  unfolding http_handler
  http_handler-Change req s =
      Change-if s _ (s, only_status method_not_allowed) _ (Change-refl s)
        (take_route-Change req.now req.jwt_now (route req.uri) s)
