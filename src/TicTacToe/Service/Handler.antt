-- ===== src/TicTacToe/Service/Handler.antt =====
-- `http_handler` of examples/tic_tac_toe/matchmaking_server/matchmaking_server.cpp: its dispatch on the
-- method and the URI, and the files that it serves.
use Prim.Native.String.{slice, len, ◌++◌ as ◌+str◌}
use text.Mathlib.Text.{◌==◌, starts_with, find?}
use simple_web_game_server.Prelude.{
  ℕ, Bool, String, Option, none, some, is_some, ◌||◌, not, if◌then◌else◌,
}
use simple_web_game_server.TicTacToe.Service.{
  Service, Tokens, Doubles, Files, Reply, method_not_allowed, not_found, plain, nothing_set,
  only_status, replied,
}
use simple_web_game_server.TicTacToe.Service.Routes.{signup, info, login, cancel}
use simple_web_game_server.TicTacToe.Service.Submission.{submit}

-- s.find(p) != npos
abbrev pub includes : String → String → Bool
includes p s = is_some (find? s p)

pub data Route : Type 0 where
  signup_route : Route
  info_route login_route submit_route cancel_route file_route : String → Route

pub record Request : Type 0 where
  pub method : String
  pub uri : String
  pub now : ℕ
  pub jwt_now : ℕ

-- a route with the rest of its URI
abbrev pub under : String → (String → Route) → String → Route → Route
under prefix make uri other =
    if starts_with uri prefix then make (slice uri (len prefix) (len uri)) else other

-- the order of the tests
unfoldable pub route : String → Route
route uri =
    if uri == "/signup" || uri == "/signup/"
    then signup_route
    else under "/info/" info_route uri (
        under "/login/" login_route uri
          (under "/submit/" submit_route uri (under "/cancel/" cancel_route uri (file_route uri))))

unfoldable pub mime_type : String → String
mime_type path =
    if includes ".js" path
    then "text/javascript"
    else if includes ".css" path
    then "text/css"
    else if includes ".html" path
    then "text/html"
    else "text/plain"

module _ {FilePath : Type 0} (files : Files FilePath) where
  open files use {static_path, index, canonical, is_greater, string, content}

  unfoldable pub file_path : String → Option FilePath
  file_path uri = if uri == "/" then some index else canonical (string static_path +str uri)

  unfoldable pub serve_path : FilePath → Reply
  unfolding mime_type
  serve_path path =
      if is_greater static_path path then only_status not_found else elim (content path) [
        | none ↦ only_status not_found
        | some text ↦ replied (mime_type (string path)) (plain text)
      ]

  unfoldable pub serve_file : String → Reply
  unfolding file_path serve_path
  serve_file uri = elim (file_path uri) [ none ↦ nothing_set | some path ↦ serve_path path ]

module _ {J Jwt D FilePath : Type 0} (api : Tokens J Jwt D) (reals : Doubles D)
    (files : Files FilePath) where
  unfoldable pub take_route : ℕ → ℕ → Route → Service → Service × Reply
  unfolding signup info login submit cancel serve_file
  take_route now jwt_now signup_route s = signup api s
  take_route now jwt_now (info_route token) s = info api jwt_now token s
  take_route now jwt_now (login_route token) s = login api now jwt_now token s
  take_route now jwt_now (submit_route token) s = submit api reals jwt_now token s
  take_route now jwt_now (cancel_route token) s = cancel api jwt_now token s
  take_route now jwt_now (file_route uri) s = (s, serve_file files uri)

  unfoldable pub http_handler : Request → Service → Service × Reply
  unfolding take_route route
  http_handler req s =
      if not (req.method == "GET")
      then (s, only_status method_not_allowed)
      else take_route req.now req.jwt_now (route req.uri) s
