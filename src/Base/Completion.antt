-- ===== src/Base/Completion.antt =====
-- What `complete_session` of include/simple_web_game_server/base_server.hpp does to the clients of a
-- session.
use mathlib.Core.List.{append_assoc, append-nil, Mem, mem-cons_self, mem-cons_of_mem}
use simple_web_game_server.Prelude.{
  ℕ, ◌≡◌, refl, ap, ◌∙◌, inl, inr, true, false, none, some, List, [], ◌∷◌, ◌++◌, All, arith,
  is_some, ℕ_discrete, Option-cases,
}
use simple_web_game_server.Prelude.Assoc.{Assoc, lookup}
use simple_web_game_server.Prelude.NatSet.{contains}
use simple_web_game_server.BufferedMap
use simple_web_game_server.BufferedMap.Laws.{at-insert_self}
use simple_web_game_server.Locks.{Readings, update_session_locks}
use simple_web_game_server.Base.{
  CombinedId, id_discrete, Action, close_connection, SessionData, Server, Env, push,
}
use simple_web_game_server.Base.Invariant.{IsValid}
use simple_web_game_server.Base.Link.{get_connection_hdl_from_id}
use simple_web_game_server.Base.Sessions.{close_player, close_players, complete_session, players_of}

abbrev pub client : ℕ → ℕ → CombinedId
client pid sid = record { player = pid; session = sid }

module _ {J Jwt : Type 0} (env : Env J Jwt) where
  -- the last action for a client: its result, and the end of its connection
  abbrev pub farewell : SessionData J → ℕ → ℕ → Action
  farewell result pid hdl = record {
    type = close_connection;
    hdl = hdl;
    msg = env.get_result_str (client pid result.session) result.result;
  }

module _ {J Jwt : Type 0} (env : Env J Jwt) (sid : ℕ) (result : SessionData J)
    (idcs : Assoc CombinedId ℕ) where
  pub farewells : List ℕ → List Action
  farewells [] = []
  farewells (pid ∷ pids) =
      let rest = farewells pids in
      elim (lookup id_discrete (client pid sid) idcs) [
        | none ↦ rest
        | some hdl ↦ farewell env result pid hdl ∷ rest
      ]

  -- An action that takes leave of a client of the session.
  abbrev pub IsFarewell : Action → Type 0
  IsFarewell a =
      (pid : ℕ) × (hdl : ℕ) × (lookup id_discrete (client pid sid) idcs ≡ some hdl)
      × (a ≡ farewell env result pid hdl)

  farewells-IsFarewell : (pids : List ℕ) → All IsFarewell (farewells pids)
  unfolding farewells
  farewells-IsFarewell [] = tt
  farewells-IsFarewell (pid ∷ pids) =
      elim (Option-cases (lookup id_discrete (client pid sid) idcs)) [
        | inl e ↦ rw (e, farewells) (farewells-IsFarewell pids)
        | inr (hdl, e) ↦ rw (e, farewells) ((pid, hdl, e, refl), farewells-IsFarewell pids)
      ]

  mem-farewells :
      (pid hdl : ℕ) (pids : List ℕ)
      → contains pid pids ≡ true
      → lookup id_discrete (client pid sid) idcs ≡ some hdl
      → Mem (farewell env result pid hdl) (farewells pids)
  unfolding farewells contains
  mem-farewells pid hdl [] c e = absurd (ground arith)
  mem-farewells pid hdl (p ∷ pids) c e = elim (ℕ_discrete p pid) [
    | yes same ↦
        let f : lookup id_discrete (client p sid) idcs ≡ some hdl = rw same e in
        rw (f, farewells, same) mem-cons_self
    | no other ↦
        let rest = mem-farewells pid hdl pids (ground arith) e in
        elim (Option-cases (lookup id_discrete (client p sid) idcs)) [
          | inl f ↦ rw (f, farewells) rest
          | inr (h, f) ↦ rw (f, farewells) (mem-cons_of_mem _ rest)
        ]
  ]

module _ {J Jwt H : Type 0} (env : Env J Jwt) where
  pub close_players_lem :
      (sid : ℕ) (result : SessionData J) (pids : List ℕ) (s : Server J H)
      → close_players env sid result pids s
        ≡ record s { actions = s.actions ++ farewells env sid result s.id_connections pids }
  unfolding close_players close_player farewells get_connection_hdl_from_id
  close_players_lem sid result [] s = rw append-nil refl
  close_players_lem sid result (pid ∷ pids) s =
      elim (Option-cases (lookup id_discrete (client pid sid) s.id_connections)) [
        | inl e ↦ rw (e, close_player, farewells) (close_players_lem sid result pids s)
        | inr (hdl, e) ↦
            rw (e, close_player, farewells)
              (close_players_lem sid result pids (push (farewell env result pid hdl) s)
                ∙ ap (λ (q : List Action). record s { actions = q })
                    (append_assoc s.actions (farewell env result pid hdl ∷ []) _))
      ]

  -- In a consistent state, completing a session that is not over queues one list of last actions
  -- behind the others: each closes, with the result made for its player, a client of this
  -- session, and every client of the session has one. The result is then in the archive.
  pub completion_closes :
      (r : Readings) (sid result_sid : ℕ) (d : J) (s : Server J H)
      → IsValid s
      → BufferedMap.contains (update_session_locks r s.locks).locked sid ≡ false
      → let s' = complete_session env r sid result_sid d s in
        let result : SessionData J = record { session = result_sid; result = d } in
        (q : List Action) × (s'.actions ≡ s.actions ++ q)
        × All (IsFarewell env sid result s.id_connections) q
        × ((pid hdl : ℕ)
            → lookup id_discrete (client pid sid) s.id_connections ≡ some hdl
            → Mem (farewell env result pid hdl) q)
        × (BufferedMap.at s'.locks.locked sid ≡ some result)
  unfolding complete_session
  completion_closes r sid result_sid d s v free =
      let result : SessionData J = record { session = result_sid; result = d } in
      let players = players_of sid s in
      (
        farewells env sid result s.id_connections players,
        rw (free, complete_session, close_players_lem) refl,
        farewells-IsFarewell env sid result s.id_connections players,
        (λ pid hdl e.
            mem-farewells env sid result s.id_connections pid hdl players
              (v.members pid sid ∙ ap is_some e) e),
        rw (free, complete_session, close_players_lem)
            (at-insert_self (update_session_locks r s.locks).locked sid result free),
      )
