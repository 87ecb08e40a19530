-- ===== src/TicTacToe/Service/Refusal.antt =====
-- What `http_handler` of examples/tic_tac_toe/matchmaking_server/matchmaking_server.cpp refuses, and which
-- files it serves.
use mathlib.Core.Option.{some-injective, none-ne-some}
use simple_web_game_server.Prelude.{
  ℕ, ◌≡◌, ◌↔◌, ◌⊎◌, refl, sym, ap, ◌∙◌, inl, inr, false, String, Option, none, some, List,
  get_elem?, Bool-cases, Option-cases,
}
use simple_web_game_server.TicTacToe.Service.{
  PlayerData, Verifier, Service, Tokens, Doubles, Files, Reply, auth_verifier, mm_verifier,
  game_verifier, nothing_set, plain, Body,
}
use simple_web_game_server.TicTacToe.Service.Routes.{
  read_player, read_entry, read_data, info, login, cancel, refused,
}
use simple_web_game_server.TicTacToe.Service.Submission.{submit}
use simple_web_game_server.TicTacToe.Service.Handler.{
  Route, signup_route, info_route, login_route, submit_route, cancel_route, file_route, take_route,
  file_path, serve_path, serve_file,
}

-- A token that is not decoded, not accepted by the verifier, without the claim "pid" or with one
-- that is no player's id, or that names a player who is not in the database.
pub data Unproved {J Jwt D : Type 0} (api : Tokens J Jwt D) (verifier : Verifier) (jwt_now : ℕ)
    (token : String) (database : List PlayerData) : Type 0 where
  undecoded : api.decode token ≡ none → Unproved api verifier jwt_now token database
  unverified :
      (jwt : Jwt)
      → api.decode token ≡ some jwt
      → api.verify verifier jwt_now jwt ≡ false
      → Unproved api verifier jwt_now token database
  without_pid :
      (jwt : Jwt)
      → api.decode token ≡ some jwt
      → api.payload_claim jwt "pid" ≡ none
      → Unproved api verifier jwt_now token database
  unparsed :
      (jwt : Jwt) (pid_json : J)
      → api.decode token ≡ some jwt
      → api.payload_claim jwt "pid" ≡ some pid_json
      → api.parse_player_id pid_json ≡ none
      → Unproved api verifier jwt_now token database
  unknown :
      (jwt : Jwt) (pid_json : J) (pid : ℕ)
      → api.decode token ≡ some jwt
      → api.payload_claim jwt "pid" ≡ some pid_json
      → api.parse_player_id pid_json ≡ some pid
      → get_elem? database pid ≡ none
      → Unproved api verifier jwt_now token database

-- The token of the route proves no player of the database to the verifier of the route.
abbrev pub UnprovedRoute :
    {J Jwt D : Type 0} → Tokens J Jwt D → ℕ → Route → List PlayerData → Type 0
UnprovedRoute api jwt_now (info_route token) = Unproved api auth_verifier jwt_now token
UnprovedRoute api jwt_now (login_route token) = Unproved api auth_verifier jwt_now token
UnprovedRoute api jwt_now (submit_route token) = Unproved api game_verifier jwt_now token
UnprovedRoute api jwt_now (cancel_route token) = Unproved api mm_verifier jwt_now token
UnprovedRoute api jwt_now _ = λ _. ⊥

-- the answer to a request whose token is no good
abbrev pub rejection : Route → Reply
rejection (submit_route t) = refused
rejection (cancel_route t) = refused
rejection _ = nothing_set

module _ {J Jwt D : Type 0} (api : Tokens J Jwt D) (jwt_now : ℕ) (token : String)
    (database : List PlayerData) where
  -- What a token proves is an entry of the database, or there is no token.
  read_cases :
      (verifier : Verifier)
      → Unproved api verifier jwt_now token database
      → (read_player api verifier jwt_now token ≡ none)
        ⊎ ((jwt : Jwt) × (pid : ℕ) × (read_player api verifier jwt_now token ≡ some (jwt, pid))
            × (get_elem? database pid ≡ none))
  unfolding read_player
  read_cases verifier (undecoded e) = inl (rw (e, read_player) refl)
  read_cases verifier (unverified jwt e f) = inl (rw (e, read_player, f) refl)
  read_cases verifier (without_pid jwt e f) = elim (Bool-cases (api.verify verifier jwt_now jwt)) [
    | inl v ↦ inl (rw (e, read_player, v, f) refl)
    | inr v ↦ inl (rw (e, read_player, v) refl)
  ]
  read_cases verifier (unparsed jwt x e f g) = elim (Bool-cases (api.verify verifier jwt_now jwt)) [
    | inl v ↦ inl (rw (e, read_player, v, f, g) refl)
    | inr v ↦ inl (rw (e, read_player, v) refl)
  ]
  read_cases verifier (unknown jwt x pid e f g h) =
      elim (Bool-cases (api.verify verifier jwt_now jwt)) [
        | inl v ↦ inr (jwt, pid, rw (e, read_player, v, f, g) refl, h)
        | inr v ↦ inl (rw (e, read_player, v) refl)
      ]

  read_entry-none :
      Unproved api auth_verifier jwt_now token database
      → read_entry api jwt_now token database ≡ none
  unfolding read_entry
  read_entry-none u = elim (read_cases auth_verifier u) [
    | inl e ↦ rw (e, read_entry) refl
    | inr (jwt, pid, e, h) ↦ rw (e, read_entry, h) refl
  ]

  read_data-none :
      (verifier : Verifier)
      → Unproved api verifier jwt_now token database
      → read_data api verifier jwt_now token database ≡ none
  unfolding read_data
  read_data-none verifier u = elim (read_cases verifier u) [
    | inl e ↦ rw (e, read_data) refl
    | inr (jwt, pid, e, h) ↦ elim (Option-cases (api.payload_claim jwt "data")) [
      | inl n ↦ rw (e, read_data, n) refl
      | inr (d, n) ↦ rw (e, read_data, n, h) refl
    ]
  ]

module _ {J Jwt D FilePath : Type 0} (api : Tokens J Jwt D) (reals : Doubles D)
    (files : Files FilePath) where
  -- A request for a player's data, a login, a result or a cancellation whose token is not decoded, is
  -- not accepted by the verifier of the route, has no player's id in its claim "pid", or names a
  -- player who is not in the database, changes nothing. It is answered by nothing for the player's
  -- data and for a login, and by a failure for a result and for a cancellation.
  pub unproved :
      (now jwt_now : ℕ) (r : Route) (s : Service)
      → UnprovedRoute api jwt_now r s.player_database
      → take_route api reals files now jwt_now r s ≡ (s, rejection r)
  unfolding take_route info login submit cancel
  unproved now jwt_now (info_route token) s h =
      rw (read_entry-none api jwt_now token s.player_database h, info) refl
  unproved now jwt_now (login_route token) s h =
      rw (read_entry-none api jwt_now token s.player_database h, login) refl
  unproved now jwt_now (submit_route token) s h =
      rw (read_data-none api jwt_now token s.player_database game_verifier h, submit) refl
  unproved now jwt_now (cancel_route token) s h =
      rw (read_data-none api jwt_now token s.player_database mm_verifier h, cancel) refl
  unproved now jwt_now signup_route s h = absurd h
  unproved now jwt_now (file_route uri) s h = absurd h

module _ {FilePath : Type 0} (files : Files FilePath) where
  open files use {static_path, is_greater, content}

  some_text : {o : Option Body} {b c : Body} → o ≡ some b → o ≡ some c → b ≡ c
  some_text {o} {b} {c} e f = some-injective b c (sym e ∙ f)

  no_text : {o : Option Body} {b : Body} → o ≡ none → o ≡ some b → ⊥
  no_text {b = b} e f = none-ne-some b (sym e ∙ f)

  served_path :
      (path : FilePath) (text : String)
      → (serve_path files path).body ≡ some (plain text)
      → (is_greater static_path path ≡ false) × (content path ≡ some text)
  unfolding serve_path
  served_path path text e = elim (Bool-cases (is_greater static_path path)) [
    | inl out ↦ absurd (no_text (rw (out, serve_path) refl) e)
    | inr inside ↦ elim (Option-cases (content path)) [
      | inl n ↦ absurd (no_text (rw (inside, serve_path, n) refl) e)
      | inr (found, g) ↦
          let there : (serve_path files path).body ≡ some (plain found) =
            rw (inside, serve_path, g) refl in
          (inside, g ∙ ap text_of (some_text there e))
    ]
  ]
    where
      text_of : Body → Option String
      text_of (plain t) = some t
      text_of _ = none

  -- A text is served for a URI if and only if it is the content of the canonical path and the path
  -- of public_html is not greater than that path: it need not lie in public_html.
  pub served_files :
      (uri text : String)
      → ((serve_file files uri).body ≡ some (plain text)) ↔ (
          (path : FilePath) × (file_path files uri ≡ some path)
          × (is_greater static_path path ≡ false)
          × (content path ≡ some text))
  unfolding serve_file serve_path
  served_files uri text = (
    λ e. elim (Option-cases (file_path files uri)) [
      | inl n ↦ absurd (no_text (rw (n, serve_file) refl) e)
      | inr (path, f) ↦
          let (inside, g) = served_path path text (sym (rw (f, serve_file) refl) ∙ e) in
          (path, f, inside, g)
    ],
    λ (path, f, inside, g). rw (f, serve_file, inside, g) refl,
  )
