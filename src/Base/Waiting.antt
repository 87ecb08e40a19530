-- ===== src/Base/Waiting.antt =====
-- The clients of a session that is not over, while `complete_session` of
-- include/simple_web_game_server/base_server.hpp ends it or another session.
use mathlib.Core.List.{Mem, append-nil, mem-append_left, mem-append_right}
use simple_web_game_server.Prelude.{
  ℕ, ◌≡◌, ◌≢◌, refl, sym, ap, subst, ◌∙◌, inl, inr, false, some, List, [], ◌++◌, arith, if_neg,
  is_some, ℕ_discrete, Bool-cases,
}
use simple_web_game_server.Prelude.Assoc.{lookup}
use simple_web_game_server.BufferedMap
use simple_web_game_server.BufferedMap.Laws.{contains-at, at-insert}
use simple_web_game_server.Locks.{Locks, Readings, update_session_locks}
use simple_web_game_server.Prelude.{Option-cases, String}
use simple_web_game_server.Base.Link.{get_connection_hdl_from_id, send_message}
use simple_web_game_server.Base.{CombinedId, id_discrete, Action, SessionData, Server, Env}
use simple_web_game_server.Base.Invariant.{IsValid, complete_session-IsValid}
use simple_web_game_server.Base.Sessions.{complete_session, players_of}
use simple_web_game_server.Base.Completion.{
  client, farewell, farewells, close_players_lem, completion_closes,
}

-- No release of completed sessions brings one into the archive.
contains-update :
    {V : Type 0} (r : Readings) (l : Locks V) (k : ℕ)
    → BufferedMap.contains l.locked k ≡ false
    → BufferedMap.contains (update_session_locks r l).locked k ≡ false
unfolding update_session_locks BufferedMap.contains BufferedMap.clear lookup
contains-update r l k h = ground arith

-- A client of a session that is not over, with its connection.
pub record IsWaiting {J H : Type 0} (pid sid hdl : ℕ) (s : Server J H) : Type 0 where
  pub links : IsValid s
  pub not_over : BufferedMap.contains s.locks.locked sid ≡ false
  pub there : lookup id_discrete (client pid sid) s.id_connections ≡ some hdl

module _ {J H : Type 0} (pid sid hdl : ℕ) where
  pub send_message-IsWaiting :
      (id : CombinedId) (msg : String) (s : Server J H)
      → IsWaiting pid sid hdl s
      → IsWaiting pid sid hdl (send_message id msg s)
  unfolding send_message
  send_message-IsWaiting id msg s w = elim (Option-cases (get_connection_hdl_from_id id s)) [
    | inl e ↦ rw (e, send_message) w
    | inr (other, e) ↦
        rw (e, send_message) (record { links = w.links; not_over = w.not_over; there = w.there })
  ]

module _ {J Jwt H : Type 0} (env : Env J Jwt) where
  -- What `complete_session` leaves alone, and that the queue only grows.
  complete_session_frame :
      (r : Readings) (sid result_sid : ℕ) (d : J) (s : Server J H)
      → let s' = complete_session env r sid result_sid d s in
        (s'.id_connections ≡ s.id_connections) × ((q : List Action) × (s'.actions ≡ s.actions ++ q))
  unfolding complete_session
  complete_session_frame r sid result_sid d s =
      elim (Bool-cases (BufferedMap.contains (update_session_locks r s.locks).locked sid)) [
        | inl over ↦ rw (over, complete_session) (refl, ([], sym (append-nil s.actions)))
        | inr free ↦
            rw (free, complete_session, close_players_lem)
              (
                refl,
                (
                  farewells env sid (record { session = result_sid; result = d }) s.id_connections
                      (players_of sid s),
                  refl,
                ),
              )
      ]

  pub complete_session-keeps :
      (r : Readings) (sid result_sid : ℕ) (d : J) (s : Server J H) (a : Action)
      → Mem a s.actions
      → Mem a (complete_session env r sid result_sid d s).actions
  complete_session-keeps r sid result_sid d s a m =
      let (_, (q, e)) = complete_session_frame r sid result_sid d s in
      subst (λ queue. Mem a queue) (sym e) (mem-append_left q m)

  -- Completing another session leaves a session as it was.
  complete_session-not_over :
      (r : Readings) (sid result_sid k : ℕ) (d : J) (s : Server J H)
      → sid ≢ k
      → BufferedMap.contains s.locks.locked k ≡ false
      → BufferedMap.contains (complete_session env r sid result_sid d s).locks.locked k ≡ false
  unfolding complete_session
  complete_session-not_over r sid result_sid k d s ne h =
      let l = update_session_locks r s.locks in
      let fresh = contains-update r s.locks k h in
      elim (Bool-cases (BufferedMap.contains l.locked sid)) [
        | inl over ↦ rw (over, complete_session) fresh
        | inr free ↦
            let result : SessionData J = record { session = result_sid; result = d } in
            let other = at-insert l.locked sid k result free ∙ if_neg (ℕ_discrete sid k) ne _ _ in
            rw (free, complete_session, close_players_lem)
              (contains-at (BufferedMap.insert sid result l.locked) k
                ∙ ap is_some other
                ∙ sym (contains-at l.locked k)
                ∙ fresh)
      ]

  pub complete_session-IsWaiting :
      (r : Readings) (sid result_sid pid k hdl : ℕ) (d : J) (s : Server J H)
      → sid ≢ k
      → IsWaiting pid k hdl s
      → IsWaiting pid k hdl (complete_session env r sid result_sid d s)
  complete_session-IsWaiting r sid result_sid pid k hdl d s ne w = record {
    links = complete_session-IsValid env r sid result_sid d s w.links;
    not_over = complete_session-not_over r sid result_sid k d s ne w.not_over;
    there =
        ap (lookup id_discrete (client pid k)) (complete_session_frame r sid result_sid d s).0
        ∙ w.there;
  }

  -- A client whose session is completed has its last action in the queue.
  pub complete_session-told :
      (r : Readings) (sid result_sid pid hdl : ℕ) (d : J) (s : Server J H)
      → IsWaiting pid sid hdl s
      → Mem
          (farewell env (record { session = result_sid; result = d }) pid hdl)
          (complete_session env r sid result_sid d s).actions
  complete_session-told r sid result_sid pid hdl d s w =
      let (q, e, _, told, _) =
        completion_closes env r sid result_sid d s w.links
          (contains-update r s.locks sid w.not_over) in
      subst
        (λ queue. Mem (farewell env (record { session = result_sid; result = d }) pid hdl) queue)
        (sym e) (mem-append_right s.actions (told pid hdl w.there))
