-- ===== src/TicTacToe/Service/Routes.antt =====
-- The routes of `http_handler` in examples/tic_tac_toe/matchmaking_server/matchmaking_server.cpp that
-- read or change the players. Each gives the new state and what it has set on the connection.
use simple_web_game_server.Prelude.Options.{◌>>=◌, ◌>>◌}
use simple_web_game_server.Prelude.{
  ℕ, ◌+◌, Bool, true, false, String, Option, none, some, List, [], ◌∷◌, ◌++◌, leb, length,
  get_elem?, modify, if◌then◌else◌,
}
use simple_web_game_server.Prelude.Int.{pos}
use simple_web_game_server.Base.Link.{incr}
use simple_web_game_server.TicTacToe.Service.{
  max_pids, secret, PlayerData, Service, Verifier, auth_verifier, mm_verifier, Claims, Tokens,
  Reply, outcome, signed_up, profile, plain, nothing_set, replied, json_reply, seconds,
}

abbrev pub require : Bool → Option (Unit {0})
require true = some tt
require false = none

abbrev pub new_player : PlayerData
new_player = record { elo = pos 1500; matchmaking = false; sid = 0; exp_time = 0 }

-- {"success": false} with the status OK
abbrev pub refused : Reply
refused = json_reply (outcome false)

abbrev pub set_matchmaking : Bool → PlayerData → PlayerData
set_matchmaking b p = record p { matchmaking = b }

-- the player with a new session
abbrev pub enlisted : ℕ → Service → PlayerData → PlayerData
enlisted now s p = record p {
  exp_time = now + seconds 1800;
  sid = s.session_count;
  matchmaking = true;
}

unfoldable pub start_matchmaking : ℕ → ℕ → PlayerData → Service → Service × PlayerData
start_matchmaking now pid p s = if p.matchmaking then (s, p) else (
  record s {
    session_count = incr s.session_count;
    player_database = modify pid (enlisted now s) s.player_database;
  },
  enlisted now s p,
)

abbrev pub auth_claims : {J : Type 0} → ℕ → Claims J
auth_claims pid = record {
  issuer = "tic_tac_toe_auth";
  pid = pid;
  sid = none;
  expires_at = none;
  data_json = none;
}

-- `database[pid].matchmaking = b`
abbrev pub with_matchmaking : ℕ → Bool → Service → Service
with_matchmaking pid b s = record s {
  player_database = modify pid (set_matchmaking b) s.player_database;
}

module _ {J Jwt D : Type 0} (api : Tokens J Jwt D) where
  open api use {decode, verify, payload_claim, sign, parse_player_id, rating_json, matched}

  -- The start of each `try` block: the decoded token and its player.
  unfoldable pub read_player : Verifier → ℕ → String → Option (Jwt × ℕ)
  read_player verifier jwt_now token = do
    decoded ← decode token
    require (verify verifier jwt_now decoded)
    pid_json ← payload_claim decoded "pid"
    pid ← parse_player_id pid_json
    some (decoded, pid)

  -- the player of an authentication token, with the entry
  unfoldable pub read_entry : ℕ → String → List PlayerData → Option (ℕ × PlayerData)
  unfolding read_player
  read_entry jwt_now token database = do
    r ← read_player auth_verifier jwt_now token
    p ← get_elem? database r.1
    some (r.1, p)

  -- the player of another token, with its data and the entry
  unfoldable pub read_data : Verifier → ℕ → String → List PlayerData → Option (ℕ × J × PlayerData)
  unfolding read_player
  read_data verifier jwt_now token database = do
    r ← read_player verifier jwt_now token
    data_json ← payload_claim r.0 "data"
    p ← get_elem? database r.1
    some (r.1, data_json, p)

  unfoldable pub signup : Service → Service × Reply
  signup s =
      if leb max_pids (length s.player_database)
      then (
        s,
        record {
          status = none;
          body = some (outcome false);
          content_type = some "application/json";
        },
      )
      else (
        record s { player_database = s.player_database ++ new_player ∷ [] },
        json_reply (signed_up (sign secret (auth_claims (length s.player_database)))),
      )

  unfoldable pub info : ℕ → String → Service → Service × Reply
  unfolding read_entry
  info jwt_now token s = elim (read_entry jwt_now token s.player_database) [
    | none ↦ (s, nothing_set)
    | some (pid, p) ↦ (s, json_reply (profile pid p.elo))
  ]

  abbrev pub match_claims : ℕ → PlayerData → Claims J
  match_claims pid p = record {
    issuer = "tic_tac_toe_auth";
    pid = pid;
    sid = some p.sid;
    expires_at = some p.exp_time;
    data_json = some (rating_json p.elo);
  }

  unfoldable pub login : ℕ → ℕ → String → Service → Service × Reply
  unfolding read_entry start_matchmaking
  login now jwt_now token s = elim (read_entry jwt_now token s.player_database) [
    | none ↦ (s, nothing_set)
    | some (pid, p) ↦
        let r = start_matchmaking now pid p s in
        (r.0, replied "text/plain" (plain (sign secret (match_claims pid r.1))))
  ]

  -- `data` is read after the player's entry, and only if the player is matchmaking
  unfoldable pub cancel_player : ℕ → J → PlayerData → Service → Service × Reply
  cancel_player pid data_json p s =
      if p.matchmaking
      then elim (matched data_json) [
        | none ↦ (s, refused)
        | some true ↦ (s, refused)
        | some false ↦ (with_matchmaking pid false s, json_reply (outcome true))
      ]
      else (s, refused)

  unfoldable pub cancel : ℕ → String → Service → Service × Reply
  unfolding read_data cancel_player
  cancel jwt_now token s = elim (read_data mm_verifier jwt_now token s.player_database) [
    | none ↦ (s, refused)
    | some (pid, data_json, p) ↦ cancel_player pid data_json p s
  ]
