-- ===== src/TicTacToe/Service/Relogin.antt =====
-- `/login/` of examples/tic_tac_toe/matchmaking_server/matchmaking_server.cpp for a player who has
-- logged in before.
use text.Mathlib.Text.{◌==◌}
use simple_web_game_server.Prelude.{
  ℕ, ◌≡◌, ◌⊎◌, sym, ap, ◌∙◌, List, [], ◌∷◌, All, Bool, not, if◌then◌else◌, inl, inr, true, false,
  String, some, get_elem?,
}
use simple_web_game_server.TicTacToe.Service.{
  method_not_allowed, only_status, PlayerData, Service, Tokens, Doubles, Files, Reply,
  auth_verifier,
}
use simple_web_game_server.TicTacToe.Service.Routes.{read_player, start_matchmaking, login}
use simple_web_game_server.TicTacToe.Service.Handler.{
  Route, Request, signup_route, info_route, login_route, submit_route, cancel_route, file_route,
  route, take_route, http_handler,
}
use simple_web_game_server.TicTacToe.Service.Authority.{Proves, Names, only_named}
use simple_web_game_server.TicTacToe.Service.Sessions.{served}
use simple_web_game_server.TicTacToe.Service.Tickets.{
  answered, login-known, start_on, start_matchmaking-there,
}

spared : {A B : Type 0} → A ⊎ B → (B → ⊥) → A
spared (inl a) f = a
spared (inr b) f = absurd (f b)

there-if :
    (i : ℕ) (p : PlayerData) (b : Bool) (x y : Service × Reply)
    → get_elem? x.0.player_database i ≡ some p
    → get_elem? y.0.player_database i ≡ some p
    → get_elem? (if b then x else y).0.player_database i ≡ some p
there-if i p true x y h k = h
there-if i p false x y h k = k

-- A request that is a login, whoever's it is, or that does not name the player.
abbrev pub Spares : {J Jwt D : Type 0} → Tokens J Jwt D → ℕ → Route → ℕ → Type 0
Spares api jwt_now (login_route token) i = Unit
Spares api jwt_now r i = Names api jwt_now r i → ⊥

module _ {J Jwt D FilePath : Type 0} (api : Tokens J Jwt D) (reals : Doubles D)
    (files : Files FilePath) (i : ℕ) (p : PlayerData) (on : p.matchmaking ≡ true) where
  -- The entry of a player who is matchmaking stays when the player logs in.
  login-on :
      (now jwt_now : ℕ) (token : String) (s : Service)
      → get_elem? s.player_database i ≡ some p
      → Proves api auth_verifier jwt_now token i
      → get_elem? (login api now jwt_now token s).0.player_database i ≡ some p
  login-on now jwt_now token s there (jwt, e) =
      ap (λ (x : Service × Reply). get_elem? x.0.player_database i)
        (login-known api now jwt_now token s jwt i p e there
          ∙ ap (answered api i) (start_on api now i p s on))
      ∙ there

  take_route-Spares :
      (now jwt_now : ℕ) (r : Route) (s : Service)
      → get_elem? s.player_database i ≡ some p
      → Spares api jwt_now r i
      → get_elem? (take_route api reals files now jwt_now r s).0.player_database i ≡ some p
  unfolding take_route
  take_route-Spares now jwt_now (login_route token) s there h =
      elim (only_named api reals files now jwt_now (login_route token) s i p there) [
        | inl kept ↦ kept
        | inr own ↦ login-on now jwt_now token s there own
      ]
  take_route-Spares now jwt_now (submit_route token) s there h =
      spared (only_named api reals files now jwt_now (submit_route token) s i p there) h
  take_route-Spares now jwt_now (cancel_route token) s there h =
      spared (only_named api reals files now jwt_now (cancel_route token) s i p there) h
  take_route-Spares now jwt_now signup_route s there h =
      spared (only_named api reals files now jwt_now signup_route s i p there) h
  take_route-Spares now jwt_now (info_route token) s there h =
      spared (only_named api reals files now jwt_now (info_route token) s i p there) h
  take_route-Spares now jwt_now (file_route uri) s there h =
      spared (only_named api reals files now jwt_now (file_route uri) s i p there) h

  served-Spares :
      (reqs : List Request) (s : Service)
      → get_elem? s.player_database i ≡ some p
      → All (λ req. Spares api req.jwt_now (route req.uri) i) reqs
      → get_elem? (served api reals files reqs s).player_database i ≡ some p
  unfolding http_handler
  served-Spares [] s there h = there
  served-Spares (req ∷ reqs) s there (h, hs) =
      served-Spares reqs (http_handler api reals files req s).0
        (there-if i p (not (req.method == "GET")) (s, only_status method_not_allowed)
          (take_route api reals files req.now req.jwt_now (route req.uri) s) there
          (take_route-Spares req.now req.jwt_now (route req.uri) s there h))
        hs

module _ {J Jwt D FilePath : Type 0} (api : Tokens J Jwt D) (reals : Doubles D)
    (files : Files FilePath) where
  -- Once a player who is known has logged in, and as long as the only requests that come after it are
  -- logins, of whatever player, and requests whose token is not the player's and is no accepted result
  -- that lists the player first or second, a further login of the player, however late and with
  -- whatever accepted token of the player's, changes nothing and is answered with the same token.
  pub login_again :
      (now later jwt_now jwt_later : ℕ) (token token2 : String) (s : Service) (jwt jwt2 : Jwt)
      (pid : ℕ) (p : PlayerData) (reqs : List Request)
      → read_player api auth_verifier jwt_now token ≡ some (jwt, pid)
      → read_player api auth_verifier jwt_later token2 ≡ some (jwt2, pid)
      → get_elem? s.player_database pid ≡ some p
      → All (λ req. Spares api req.jwt_now (route req.uri) pid) reqs
      → let r = login api now jwt_now token s in
        let s2 = served api reals files reqs r.0 in login api later jwt_later token2 s2 ≡ (s2, r.1)
  login_again now later jwt_now jwt_later token token2 s jwt jwt2 pid p reqs e e2 there others =
      let r = start_matchmaking now pid p s in
      let (there2, on) = start_matchmaking-there api now pid p s there in
      let first = login-known api now jwt_now token s jwt pid p e there in
      let s2 = served api reals files reqs (login api now jwt_now token s).0 in
      let there3 =
        served-Spares api reals files pid r.1 on reqs (login api now jwt_now token s).0
          (ap (λ (x : Service × Reply). get_elem? x.0.player_database pid) first ∙ there2) others in
      login-known api later jwt_later token2 s2 jwt2 pid r.1 e2 there3
      ∙ ap (answered api pid) (start_on api later pid r.1 s2 on)
      ∙ ap (λ (x : Service × Reply). (s2, x.1)) (sym first)
