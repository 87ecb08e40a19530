-- ===== src/Base/Shutdown.antt =====
-- What `stop` of include/simple_web_game_server/base_server.hpp closes and what it leaves.
use mathlib.Core.List.{append_assoc, append-nil}
use simple_web_game_server.Prelude.{
  ℕ, ◌≡◌, refl, ap, ◌∙◌, ◌&&◌, is_some, Bool, true, false, String, none, List, [], ◌∷◌, ◌++◌, map,
  arith, ◌==◌, ◌||◌, ℕ_discrete,
}
use simple_web_game_server.Base.{Result, ok, server_error, ◌>>=◌}
use simple_web_game_server.Prelude.{if◌then◌else◌}
use simple_web_game_server.Prelude.Assoc.{Assoc, lookup}
use simple_web_game_server.Prelude.NatSet.{contains, insert, contains-insert}
use simple_web_game_server.BufferedMap
use simple_web_game_server.BufferedMap.Laws.{at-clear_twice}
use simple_web_game_server.Base.{
  CombinedId, Action, ActionType, subscribe, close_connection, WsCall, stop_listening, close,
  Server, Env, ok, server_error, close_hdl,
}
use simple_web_game_server.Base.Lifecycle.{
  after, collect_action, collect_actions, collect_ids, close_all, open_connections, shut_down, stop,
}

abbrev pub closings : String → List ℕ → List WsCall
closings reason = map (λ hdl. close hdl reason)

pub close_all_lem :
    {J H : Type 0} (reason : String) (hdls : List ℕ) (s : Server J H)
    → close_all reason hdls s ≡ record s { calls = s.calls ++ closings reason hdls }
unfolding close_all close_hdl
close_all_lem reason [] s = rw (append-nil) refl
close_all_lem reason (hdl ∷ hdls) s =
    close_all_lem reason hdls (close_hdl hdl reason s)
    ∙ ap (λ (cs : List WsCall). record s { calls = cs })
        (append_assoc s.calls (close hdl reason ∷ []) (closings reason hdls))

-- The actions for which `stop` closes the connection.
abbrev pub closes_on_stop : ActionType → Bool
closes_on_stop subscribe = true
closes_on_stop close_connection = true
closes_on_stop _ = false

-- Such an action of the connection waits in the queue.
abbrev pub waiting : ℕ → List Action → Bool
waiting h [] = false
waiting h (a ∷ q) = closes_on_stop a.type && a.hdl == h || waiting h q

contains-collect_action :
    (h : ℕ) (type : ActionType) (hdl : ℕ) (new : List ℕ)
    → contains h (collect_action type hdl new) ≡ (closes_on_stop type && hdl == h || contains h new)
unfolding collect_action
contains-collect_action h subscribe hdl new = contains-insert hdl h new
contains-collect_action h close_connection hdl new = contains-insert hdl h new
contains-collect_action h _ hdl new = refl

contains-collect_actions :
    (h : ℕ) (q : List Action) (new : List ℕ)
    → contains h (collect_actions q new) ≡ (waiting h q || contains h new)
unfolding collect_actions
contains-collect_actions h [] new = refl
contains-collect_actions h (a ∷ q) new = ground (
  arith,
  contains-collect_actions h q (collect_action a.type a.hdl new),
  contains-collect_action h a.type a.hdl new,
)

contains-collect_ids :
    (h : ℕ) (m : Assoc ℕ CombinedId) (new : List ℕ)
    → contains h (collect_ids m new) ≡ (is_some (lookup ℕ_discrete h m) || contains h new)
unfolding collect_ids lookup
contains-collect_ids h [] new = refl
contains-collect_ids h ((hdl, id) ∷ m) new =
    ground (arith, contains-collect_ids h m (insert hdl new), contains-insert hdl h new)

module _ {J Jwt H : Type 0} (env : Env J Jwt) (s : Server J H) where
  pub shut_down-actions : (shut_down env s).actions ≡ []
  unfolding shut_down
  shut_down-actions = rw close_all_lem refl

  -- `stop` of a running server closes, with the reason for a shutdown, exactly the connections
  -- that have an id, that are new, or that wait in the queue to become known or to be closed; it
  -- leaves no action, no client, no player count and no result of a session, and a second `stop`
  -- throws.
  pub stop_closes :
      s.is_running ≡ true
      → let s' = after s (stop env s) in
        (stop env s ≡ ok s')
        × (s'.calls
            ≡ s.calls
              ++ stop_listening ∷ closings env.reasons.server_shutdown (open_connections env s))
        × ((h : ℕ)
            → contains h (open_connections env s) ≡ (
                is_some (lookup ℕ_discrete h s.connection_ids)
                || (waiting h s.actions || contains h s.new_connections)))
        × (s'.actions ≡ [])
        × (s'.connection_ids ≡ [])
        × (s'.id_connections ≡ [])
        × (s'.player_count ≡ 0)
        × ((k : ℕ) → BufferedMap.at s'.locks.locked k ≡ none)
        × (stop env s' ≡ server_error "stop called on stopped server")
  unfolding stop shut_down
  stop_closes up =
      rw (up, close_all_lem)
        (
          refl,
          append_assoc s.calls (stop_listening ∷ []) _,
          (λ h.
              contains-collect_ids h s.connection_ids (collect_actions s.actions s.new_connections)
              ∙ ap (λ (b : Bool). is_some (lookup ℕ_discrete h s.connection_ids) || b)
                  (contains-collect_actions h s.actions s.new_connections)),
          refl,
          refl,
          refl,
          refl,
          (λ k. at-clear_twice s.locks.locked k),
          refl,
        )

module _ {J Jwt H : Type 0} (env : Env J Jwt) where
  pub shut_down-is_running : (s : Server J H) → (shut_down env s).is_running ≡ false
  unfolding shut_down
  shut_down-is_running s = rw close_all_lem refl

-- A result that was reached under a test was reached because of it.
pub if-ok :
    {A B C : Type 0} (b : Bool) (a : A) (err : String) (f : A → Result B) (g : Result B → Result C)
    {r : C}
    → g (server_error err) ≡ server_error err
    → g ((if b then ok a else server_error err) >>= f) ≡ ok r
    → g (f a) ≡ ok r
if-ok true a err f g strict e = e
if-ok false a err f g strict e = absurd (ground arith)

pub if-stopped :
    {A B : Type 0} (b : Bool) (a : A) (err : String) (f : A → Result B) {r : B}
    → ((if b then server_error err else ok a) >>= f) ≡ ok r
    → (b ≡ false) × (f a ≡ ok r)
if-stopped true a err f e = absurd (ground arith)
if-stopped false a err f e = (refl, e)
