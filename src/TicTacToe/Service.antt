-- ===== src/TicTacToe/Service.antt =====
-- examples/tic_tac_toe/matchmaking_server/matchmaking_server.cpp: the data of its HTTP service, and
-- what the service takes from jwt-cpp, nlohmann's json, the arithmetic of doubles and the file system.
pub mod Routes
pub mod Submission
pub mod Handler
pub mod Startup
pub mod Reads
pub mod Changes
pub mod Sessions
pub mod Authority
pub mod Tickets
pub mod Relogin
pub mod Signing
pub mod Ratings
pub mod Refusal
pub mod Handover
pub mod Results
use simple_web_game_server.Prelude.{
  ℕ, ◌*◌, ◌^◌, Bool, true, false, String, Option, none, some, List, [], ◌∷◌,
}
use simple_web_game_server.Prelude.Int.{ℤ}

abbrev pub max_pids : ℕ
max_pids = 10000000

abbrev pub secret : String
secret = "secret"

-- `player_data`. Times are in nanoseconds.
pub record PlayerData : Type 0 where
  pub elo : ℤ
  pub matchmaking : Bool
  pub sid : ℕ
  pub exp_time : ℕ

-- The globals that requests change.
pub record Service : Type 0 where
  pub session_count : ℕ
  pub player_database : List PlayerData

abbrev pub init : Service
init = record { session_count = 0; player_database = [] }

-- What a jwt::verifier is told to accept: an algorithm by its secret, and an issuer.
pub record Verifier : Type 0 where
  pub key : String
  pub issuer : String

abbrev pub auth_verifier : Verifier
auth_verifier = record { key = secret; issuer = "tic_tac_toe_auth" }

abbrev pub mm_verifier : Verifier
mm_verifier = record { key = secret; issuer = "tic_tac_toe_matchmaker" }

abbrev pub game_verifier : Verifier
game_verifier = record { key = secret; issuer = "tic_tac_toe_game_server" }

-- What is set on a token before it is signed. `sid`, `expires_at` and `data_json` need not be.
pub record Claims (J : Type 0) : Type 0 where
  pub issuer : String
  pub pid : ℕ
  pub sid : Option ℕ
  pub expires_at : Option ℕ
  pub data_json : Option J

-- jwt-cpp, and the readers of JSON. `none` is an exception.
pub record Tokens (J Jwt D : Type 0) : Type 0 where
  pub decode : String → Option Jwt
  pub verify : Verifier → ℕ → Jwt → Bool
  pub payload_claim : Jwt → String → Option J
  pub sign : String → Claims J → String
  pub parse_player_id : J → Option ℕ
  pub rating_json : ℤ → J
  pub players : J → Option (List ℕ)
  pub scores : J → Option (List D)
  pub matched : J → Option Bool

-- The arithmetic of doubles: std::pow(10.0, elo / 400.0), a sum, a quotient, 32.0 times a
-- difference, and `+=` on an int.
pub record Doubles (D : Type 0) : Type 0 where
  pub strength : ℤ → D
  pub add : D → D → D
  pub divide : D → D → D
  pub gain : D → D → D
  pub add_to_int : ℤ → D → ℤ

-- std::filesystem: the path of public_html and of its index.html, the canonical form of a path,
-- `operator>`, the text of a path, and the content of a file. `none` is an exception, or a file that
-- cannot be opened.
pub record Files (FilePath : Type 0) : Type 0 where
  pub static_path : FilePath
  pub index : FilePath
  pub canonical : String → Option FilePath
  pub is_greater : FilePath → FilePath → Bool
  pub string : FilePath → String
  pub content : FilePath → Option String

pub data Status : Type 0 where
  ok method_not_allowed not_found : Status

-- The bodies: {"success": b}, with a token, with a player's data, or text.
pub data Body : Type 0 where
  outcome : Bool → Body
  signed_up : String → Body
  profile : ℕ → ℤ → Body
  plain : String → Body

-- What has been set on the connection.
pub record Reply : Type 0 where
  pub status : Option Status
  pub body : Option Body
  pub content_type : Option String

abbrev pub nothing_set : Reply
nothing_set = record { status = none; body = none; content_type = none }

abbrev pub only_status : Status → Reply
only_status c = record { status = some c; body = none; content_type = none }

abbrev pub replied : String → Body → Reply
replied type b = record { status = some ok; body = some b; content_type = some type }

abbrev pub json_reply : Body → Reply
json_reply = replied "application/json"

abbrev pub seconds : ℕ → ℕ
seconds n = n * 10 ^ 9
