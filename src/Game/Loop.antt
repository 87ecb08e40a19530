-- ===== src/Game/Loop.antt =====
-- `process_game_updates` and `update_games` of include/simple_web_game_server/game_server.hpp. `none` is a
-- fault, as in Game.Updates.
use simple_web_game_server.Prelude.Options.{◌>>=◌}
use simple_web_game_server.Prelude.{
  ℕ, Bool, true, false, Option, none, some, List, [], ◌∷◌, ◌++◌, ◌&&◌, ltb, if◌then◌else◌,
  ℕ_discrete,
}
use simple_web_game_server.Prelude.Assoc.{Assoc, lookup, erase}
use simple_web_game_server.Locks.{Readings, elapsed_ms}
use simple_web_game_server.Base.{Env, Server}
use simple_web_game_server.Base.Link.{decr, send_message}
use simple_web_game_server.Game.{Message, GameApi, Inbox, GameServer}
use simple_web_game_server.Game.Updates.{put, finish_session, process_connection_updates}

abbrev pub none_of : {A : Type 0} → List A → Bool
none_of [] = true
none_of (x ∷ xs) = false

-- the messages for a session, none if the map has none
abbrev pub messages_at : Option (List Message) → List Message
messages_at none = []
messages_at (some ms) = ms

module _ {J G : Type 0} where
  -- the loop over `finished_games`
  unfoldable pub erase_games : List ℕ → GameServer J G → GameServer J G
  erase_games [] s = s
  erase_games (sid ∷ sids) s = erase_games sids (record s {
    out_messages = erase ℕ_discrete sid s.out_messages;
    games = erase ℕ_discrete sid s.games;
    game_count = decr s.game_count;
  })

  abbrev pub swap_messages : GameServer J G → GameServer J G
  swap_messages s = record s {
    in_messages = s.base.app.messages;
    base = record s.base { app = record s.base.app { messages = s.in_messages } };
  }

module _ {J : Type 0} where
  unfoldable pub send_session : ℕ → List Message → Server J (Inbox J) → Server J (Inbox J)
  send_session sid [] b = b
  send_session sid ((pid, msg) ∷ ms) b =
      send_session sid ms (send_message (record { player = pid; session = sid }) msg b)

  -- the loop over `m_out_messages`
  unfoldable pub send_all : Assoc ℕ (List Message) → Server J (Inbox J) → Server J (Inbox J)
  unfolding send_session
  send_all [] b = b
  send_all ((sid, ms) ∷ outs) b = send_all outs (send_session sid ms b)

abbrev pub emptied : Assoc ℕ (List Message) → Assoc ℕ (List Message)
emptied [] = []
emptied ((sid, ms) ∷ outs) = (sid, []) ∷ emptied outs

unfoldable pub send_out : {J G : Type 0} → GameServer J G → GameServer J G
unfolding send_all
send_out s = record s {
  base = send_all s.out_messages s.base;
  out_messages = emptied s.out_messages;
}

module _ {J G : Type 0} (api : GameApi J G) where
  -- The updates run in parallel; each uses its own game and its own messages.
  unfoldable pub advance_games :
      ℕ
      → Assoc ℕ (List Message)
      → Assoc ℕ G
      → Assoc ℕ (List Message)
      → Option (Assoc ℕ G × Assoc ℕ (List Message))
  advance_games delta ins [] outs = some ([], outs)
  advance_games delta ins ((sid, game) ∷ games) outs = do
    out ← lookup ℕ_discrete sid outs
    let result = api.advance out (messages_at (lookup ℕ_discrete sid ins)) delta game
    rest ← advance_games delta ins games (put sid result.1 outs)
    some ((sid, result.0) ∷ rest.0, rest.1)

  unfoldable pub process_game_updates : ℕ → GameServer J G → Option (GameServer J G)
  unfolding advance_games
  process_game_updates delta s = do
    let s1 = swap_messages s
    result ← advance_games delta s1.in_messages s1.games s1.out_messages
    some (record s1 { games = result.0; out_messages = result.1; in_messages = [] })

-- `update_games` waits: there is no game and no update to take in.
abbrev pub waits : {J G : Type 0} → GameServer J G → Bool
waits s = none_of s.games && none_of s.base.app.updates

-- A round that has waited starts its time when it was woken.
abbrev pub restarted : {J G : Type 0} → Option ℕ → GameServer J G → GameServer J G
restarted none s = s
restarted (some woken) s = record s { time_start = if none_of s.games then woken else s.time_start }

module _ {J Jwt G : Type 0} (env : Env J Jwt) (clock : ℕ → Readings) (api : GameApi J G) where
  -- the loop over `m_games` that looks for the games that are done
  unfoldable pub finish_games : Assoc ℕ G → GameServer J G → GameServer J G
  unfolding finish_session
  finish_games [] s = s
  finish_games ((sid, game) ∷ games) s = finish_games games (
      if api.is_done game
      then (let s' = finish_session env clock api sid (api.get_state game) s in
          record s' { finished_games = s'.finished_games ++ sid ∷ [] })
      else s)

  -- The time-step itself. `delta` is the time since the last one, `start` the reading of the clock.
  unfoldable pub time_step : ℕ → ℕ → GameServer J G → Option (GameServer J G)
  unfolding process_connection_updates erase_games process_game_updates send_out finish_games
  time_step delta start s = do
    s1 ← process_connection_updates env clock api (record s { time_start = start })
    let s2 = record (erase_games s1.finished_games s1) { finished_games = [] }
    s3 ← process_game_updates api delta s2
    let s4 = send_out s3
    some (finish_games s4.games s4)

  -- One round of `update_games`: on a server that runs and has games, or updates to take in. With
  -- neither it waits, and a round that has waited (`woken`, the time then) starts its time anew.
  unfoldable pub update_games : ℕ → ℕ → Option ℕ → ℕ → GameServer J G → Option (GameServer J G)
  unfolding time_step
  update_games timestep now woken start s =
      if s.base.is_running
      then (let delta = elapsed_ms now s.time_start in
          if waits s
          then some s
          else if ltb delta timestep
          then some (restarted woken s)
          else time_step delta start (restarted woken s))
      else some s
