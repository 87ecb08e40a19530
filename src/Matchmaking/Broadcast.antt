-- ===== src/Matchmaking/Broadcast.antt =====
-- What the players of a session are sent of a matchmaker's message, in `match_players` of
-- include/simple_web_game_server/matchmaking_server.hpp: the loop moves out of one string.
use mathlib.Core.List.{append_assoc, append-nil}
use simple_web_game_server.Prelude.{
  ℕ, ◌≡◌, sym, ap, ◌∙◌, inl, inr, String, none, some, List, [], ◌∷◌, ◌++◌, Option-cases,
}
use simple_web_game_server.Prelude.Assoc.{Assoc, lookup}
use simple_web_game_server.Base.{CombinedId, id_discrete, Action, out_message, Server, push}
use simple_web_game_server.Base.Completion.{client}
use simple_web_game_server.Base.Link.{get_connection_hdl_from_id, send_message}
use simple_web_game_server.Matchmaking.{Inbox}
use simple_web_game_server.Matchmaking.Loop.{send_players}

-- The connections of those of some players that have one, in the order of the players.
pub hdls_of : ℕ → Assoc CombinedId ℕ → List ℕ → List ℕ
hdls_of sid idcs [] = []
hdls_of sid idcs (pid ∷ pids) =
    let rest = hdls_of sid idcs pids in
    elim (lookup id_discrete (client pid sid) idcs) [ none ↦ rest | some hdl ↦ hdl ∷ rest ]

-- The first connection gets the message, and each later one what is left of what the one before got.
abbrev pub hand_down : (String → String) → String → List ℕ → List Action
hand_down moved msg [] = []
hand_down moved msg (hdl ∷ hdls) =
    record { type = out_message; hdl = hdl; msg = msg } ∷ hand_down moved (moved msg) hdls

module _ {J : Type 0} (moved : String → String) where
  -- Of the connected players of a session only the first gets the matchmaker's message, and each later
  -- one what std::move has left of what the one before got; nobody else gets anything, and nothing but
  -- the queue of actions changes.
  pub broadcast_hands_down :
      (sid : ℕ) (pids : List ℕ) (msg : String) (b : Server J (Inbox J))
      → send_players moved sid pids msg b ≡ record b {
        actions = b.actions ++ hand_down moved msg (hdls_of sid b.id_connections pids);
      }
  unfolding send_players send_message get_connection_hdl_from_id hdls_of
  broadcast_hands_down sid [] msg b =
      ap (λ (q : List Action). record b { actions = q }) (sym (append-nil b.actions))
  broadcast_hands_down sid (pid ∷ pids) msg b =
      elim (Option-cases (lookup id_discrete (client pid sid) b.id_connections)) [
        | inl e ↦ rw (e, send_players, send_message, hdls_of) (broadcast_hands_down sid pids msg b)
        | inr (hdl, e) ↦
            let a : Action = record { type = out_message; hdl = hdl; msg = msg } in
            rw (e, send_players, send_message, hdls_of)
              (broadcast_hands_down sid pids (moved msg) (push a b)
                ∙ ap (λ (q : List Action). record b { actions = q })
                    (append_assoc b.actions (a ∷ [])
                      (hand_down moved (moved msg) (hdls_of sid b.id_connections pids))))
      ]
