-- ===== src/Matchmaking/Cancelled.antt =====
-- The sessions that `process_connection_updates` of include/simple_web_game_server/matchmaking_server.hpp
-- gives up, told from the updates alone.
use mathlib.Core.List.{append-nil, append_assoc}
use mathlib.Core.Option.{some-injective}
use simple_web_game_server.Prelude.Options.{bind-some}
use simple_web_game_server.Prelude.{
  ℕ, ◌≡◌, refl, sym, ap, subst, ◌∙◌, inl, inr, Bool, Option, none, some, List, [], ◌∷◌, ◌++◌, ◌&&◌,
  ◌||◌, not, ◌==◌, if◌then◌else◌, arith, is_some, ℕ_discrete, Bool-cases, Option-cases,
}
use simple_web_game_server.Prelude.Assoc.{lookup, lookup-erase, lookup-emplace}
use simple_web_game_server.Locks.{Readings}
use simple_web_game_server.Base.{Env}
use simple_web_game_server.Matchmaking.{
  MatchApi, ConnectionUpdate, connected, disconnected, MatchServer,
}
use simple_web_game_server.Matchmaking.Updates.{
  forget_session, add_session, add_player, swap_updates, finish_session, cancel_session,
  process_update, process_updates, process_connection_updates,
}

module _ {J D M : Type 0} (api : MatchApi J D M) where
  -- Which sessions take part after an update, if those of `here` did before it, and whether the
  -- session of the update is given up: by a disconnection if it takes part, and by a connection with
  -- invalid data if it does not.
  abbrev pub settle : ConnectionUpdate J → (ℕ → Bool) → (ℕ → Bool) × List ℕ
  settle (disconnected id) here =
      (λ k. here k && not (k == id.session), if here id.session then id.session ∷ [] else [])
  settle (connected id login) here =
      if here id.session || api.is_valid (api.make login)
      then (λ k. here k || k == id.session, [])
      else (here, id.session ∷ [])

  -- The sessions that some updates give up, in order.
  abbrev pub given_up : List (ConnectionUpdate J) → (ℕ → Bool) → List ℕ
  given_up [] here = []
  given_up (u ∷ us) here = let r = settle u here in r.1 ++ given_up us r.0

-- the sessions with data
abbrev pub taking_part : {J D M : Type 0} → MatchServer J D M → ℕ → Bool
taking_part s k = is_some (lookup ℕ_discrete k s.session_data)

module _ {J Jwt D M : Type 0} (env : Env J Jwt) (clock : ℕ → Readings) (api : MatchApi J D M) where
  abbrev Agree : (ℕ → Bool) → MatchServer J D M → Type 0
  Agree here s = (k : ℕ) → here k ≡ taking_part s k

  -- What is known of the state after an update.
  abbrev Settled : (ℕ → Bool) × List ℕ → MatchServer J D M → Option (MatchServer J D M) → Type 0
  Settled r s none = Unit
  Settled r s (some s') = Agree r.0 s' × (s'.finished_second ≡ s.finished_second ++ r.1)

  process_update-Settled :
      (u : ConnectionUpdate J) (s : MatchServer J D M) (here : ℕ → Bool)
      → Agree here s
      → Settled (settle api u here) s (process_update env clock api u s)
  unfolding process_update cancel_session finish_session forget_session add_session add_player
  process_update-Settled (disconnected id) s here v =
      elim (Option-cases (lookup ℕ_discrete id.session s.session_data)) [
        | inl e ↦
            rw (e, process_update)
              (
                λ k. ground (arith, v k, v id.session, e),
                ground (arith, v id.session, e, append-nil s.finished_second),
              )
        | inr (d, e) ↦
            rw (e, process_update)
              (
                λ k. ground (arith, v k, lookup-erase ℕ_discrete id.session k s.session_data),
                ground (arith, v id.session, e),
              )
      ]
  process_update-Settled (connected id login) s here v =
      elim (Option-cases (lookup ℕ_discrete id.session s.session_data)) [
        | inr (d, e) ↦ elim (Option-cases (lookup ℕ_discrete id.session s.session_players)) [
          | inl f ↦ rw (e, process_update, f) tt
          | inr (players, f) ↦
              rw (e, process_update, f, v id.session ∙ ap is_some e)
                (λ k. ground (arith, v k, e), sym (append-nil s.finished_second))
        ]
        | inl e ↦ elim (Bool-cases (api.is_valid (api.make login))) [
          | inl good ↦
              rw (e, process_update, v id.session ∙ ap is_some e, good)
                (
                  λ k. ground (
                    arith,
                    v k,
                    e,
                    lookup-emplace ℕ_discrete id.session k (api.make login) s.session_data,
                  ),
                  sym (append-nil s.finished_second),
                )
          | inr bad ↦ rw (e, process_update, v id.session ∙ ap is_some e, bad) (v, refl)
        ]
      ]

  process_updates-given_up :
      (us : List (ConnectionUpdate J)) (s s' : MatchServer J D M) (here : ℕ → Bool)
      → Agree here s
      → process_updates env clock api us s ≡ some s'
      → s'.finished_second ≡ s.finished_second ++ given_up api us here
  unfolding process_updates
  process_updates-given_up [] s s' here v e =
      ap (λ (x : MatchServer J D M). x.finished_second) (sym (some-injective s s' e))
      ∙ sym (append-nil s.finished_second)
  process_updates-given_up (u ∷ us) s s' here v e =
      let (s1, f, e1) =
        bind-some (process_update env clock api u s) (process_updates env clock api us) e in
      let r = settle api u here in
      let (v1, g) = subst (Settled r s) f (process_update-Settled u s here v) in
      process_updates-given_up us s1 s' r.0 v1 e1
      ∙ ap (λ (l : List ℕ). l ++ given_up api us r.0) g
      ∙ append_assoc s.finished_second r.1 (given_up api us r.0)

  -- The sessions listed by the connection updates are those that the updates give up.
  pub process_connection_updates-given_up :
      (s s' : MatchServer J D M)
      → process_connection_updates env clock api s ≡ some s'
      → s'.finished_second ≡ s.finished_second ++ given_up api s.base.app.updates (taking_part s)
  unfolding process_connection_updates
  process_connection_updates-given_up s s' e =
      let s0 = swap_updates s in
      let (s1, f, e1) =
        bind-some (process_updates env clock api s.base.app.updates s0)
          (λ x. some (record x { connection_updates = [] })) e in
      ap (λ (x : MatchServer J D M). x.finished_second)
        (sym (some-injective (record s1 { connection_updates = [] }) s' e1))
      ∙ process_updates-given_up s.base.app.updates s0 s1 (taking_part s) (λ k. refl) f
