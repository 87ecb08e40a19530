-- ===== src/Game/Tables.antt =====
-- The tables of games, of messages and of finished games of
-- include/simple_web_game_server/game_server.hpp, and how the connection updates treat them.
use simple_web_game_server.Prelude.{
  ℕ, ◌%◌, ◌≡◌, refl, sym, ap, ◌∙◌, inl, inr, true, none, some, List, [], ◌∷◌, length, arith,
  is_some, ℕ_discrete, Bool-cases, Option-cases, is_some-eq_true,
}
use simple_web_game_server.Prelude.Assoc.{
  Assoc, lookup, erase, emplace, lookup-erase, lookup-emplace, lookup-update,
}
use simple_web_game_server.Prelude.Assoc.Size.{
  Distinct, erase-Distinct, emplace-Distinct, length-erase, length-emplace_new, update-Distinct,
  length-update,
}
use simple_web_game_server.Locks.{Readings}
use simple_web_game_server.Base.{Env}
use simple_web_game_server.Base.Link.{size_mod, incr, decr}
use simple_web_game_server.Game.{
  Message, GameApi, ConnectionUpdate, connected, disconnected, GameServer,
}
use simple_web_game_server.Game.Updates.{
  put, swap_updates, finish_session, with_game, create_game, process_update, process_updates,
  process_connection_updates,
}

pub record IsPaired {G : Type 0} (games : Assoc ℕ G) (outs : Assoc ℕ (List Message)) (n : ℕ)
    : Type 0 where
  pub paired :
      (sid : ℕ) → is_some (lookup ℕ_discrete sid games) ≡ is_some (lookup ℕ_discrete sid outs)
  pub distinct : Distinct ℕ_discrete games
  pub counted : n ≡ length games % size_mod

module _ {G : Type 0} (games : Assoc ℕ G) (outs : Assoc ℕ (List Message)) (n : ℕ) where
  -- A game that is there changes, and its messages with it.
  put-IsPaired :
      (sid : ℕ) (g : G) (ms : List Message)
      → is_some (lookup ℕ_discrete sid games) ≡ true
      → IsPaired games outs n
      → IsPaired (put sid g games) (put sid ms outs) n
  put-IsPaired sid g ms there v = record {
    paired = λ j. ground (
      arith,
      lookup-update ℕ_discrete sid j g (λ _. g) games,
      lookup-update ℕ_discrete sid j ms (λ _. ms) outs,
      v.paired j,
    );
    distinct = update-Distinct ℕ_discrete sid g (λ _. g) games v.distinct;
    counted =
        v.counted
        ∙ ap (λ (k : ℕ). k % size_mod) (sym (length-update ℕ_discrete sid g (λ _. g) games there));
  }

  create-IsPaired :
      (sid : ℕ) (g : G)
      → lookup ℕ_discrete sid games ≡ none
      → IsPaired games outs n
      → IsPaired (emplace ℕ_discrete sid g games) (emplace ℕ_discrete sid [] outs) (incr n)
  create-IsPaired sid g absent v = record {
    paired = λ j. ground (
      arith,
      lookup-emplace ℕ_discrete sid j g games,
      lookup-emplace ℕ_discrete sid j [] outs,
      v.paired j,
    );
    distinct = emplace-Distinct ℕ_discrete sid g games v.distinct;
    counted = omega (arith, length-emplace_new ℕ_discrete sid g games absent, v.counted);
  }

  pub erase-IsPaired :
      (sid : ℕ) {g : G}
      → lookup ℕ_discrete sid games ≡ some g
      → IsPaired games outs n
      → IsPaired (erase ℕ_discrete sid games) (erase ℕ_discrete sid outs) (decr n)
  erase-IsPaired sid {g} there v = record {
    paired = λ j. ground (
      arith,
      lookup-erase ℕ_discrete sid j games,
      lookup-erase ℕ_discrete sid j outs,
      v.paired j,
    );
    distinct = erase-Distinct ℕ_discrete sid games v.distinct;
    counted = omega (arith, length-erase ℕ_discrete sid games g v.distinct there, v.counted);
  }

-- Each session on the list is that of a game, and none is on it twice.
abbrev pub Erasable : {G : Type 0} → List ℕ → Assoc ℕ G → Type 0
Erasable [] games = Unit
Erasable (sid ∷ sids) games =
    (is_some (lookup ℕ_discrete sid games) ≡ true) × Erasable sids (erase ℕ_discrete sid games)

-- Every session of the first table is one of the second.
abbrev pub Within : {V W : Type 0} → Assoc ℕ V → Assoc ℕ W → Type 0
Within m m' =
    (sid : ℕ) → is_some (lookup ℕ_discrete sid m) ≡ true → is_some (lookup ℕ_discrete sid m') ≡ true

pub Erasable-Within :
    {V W : Type 0} (sids : List ℕ) (m : Assoc ℕ V) (m' : Assoc ℕ W)
    → Within m m'
    → Erasable sids m
    → Erasable sids m'
Erasable-Within [] m m' w e = tt
Erasable-Within (sid ∷ sids) m m' w e = (
  w sid e.0,
  Erasable-Within sids (erase ℕ_discrete sid m) (erase ℕ_discrete sid m')
      (λ j h.
        ground (arith, lookup-erase ℕ_discrete sid j m, lookup-erase ℕ_discrete sid j m', w j))
      e.1,
)

-- The state between two steps of the loop.
pub record IsSound {J G : Type 0} (s : GameServer J G) : Type 0 where
  pub tables : IsPaired s.games s.out_messages s.game_count
  pub erasable : Erasable s.finished_games s.games

module _ {J G : Type 0} where
  with_game-IsSound :
      (sid : ℕ) (method : List Message → G → G × List Message) (s : GameServer J G)
      → is_some (lookup ℕ_discrete sid s.games) ≡ true
      → IsSound s
      → (s' : GameServer J G) × (with_game sid method s ≡ some s')
        × IsSound s'
        × (s'.finished_games ≡ s.finished_games)
  unfolding with_game
  with_game-IsSound sid method s there v =
      let (game, g) = is_some-eq_true (lookup ℕ_discrete sid s.games) there in
      let (out, o) =
        is_some-eq_true (lookup ℕ_discrete sid s.out_messages)
          (sym (v.tables.paired sid) ∙ there) in
      let (game', out') = method out game in
      (
        record s { games = put sid game' s.games; out_messages = put sid out' s.out_messages },
        rw (g, o, with_game) refl,
        record {
          tables = put-IsPaired s.games s.out_messages s.game_count sid game' out' there v.tables;
          erasable =
              Erasable-Within s.finished_games s.games (put sid game' s.games)
                (λ j h. ground (arith, lookup-update ℕ_discrete sid j game' (λ _. game') s.games))
                v.erasable;
        },
        refl,
      )

  pub create_game-IsSound :
      (sid : ℕ) (game : G) (s : GameServer J G)
      → lookup ℕ_discrete sid s.games ≡ none
      → IsSound s
      → IsSound (create_game sid game s)
  unfolding create_game
  create_game-IsSound sid game s absent v = record {
    tables = create-IsPaired s.games s.out_messages s.game_count sid game absent v.tables;
    erasable =
        Erasable-Within s.finished_games s.games (emplace ℕ_discrete sid game s.games)
          (λ j h. ground (arith, lookup-emplace ℕ_discrete sid j game s.games)) v.erasable;
  }

  pub create_game-there :
      (sid : ℕ) (game : G) (s : GameServer J G)
      → is_some (lookup ℕ_discrete sid (create_game sid game s).games) ≡ true
  unfolding create_game
  create_game-there sid game s = ground (arith, lookup-emplace ℕ_discrete sid sid game s.games)

module _ {J Jwt G : Type 0} (env : Env J Jwt) (clock : ℕ → Readings) (api : GameApi J G) where
  -- No update meets a missing entry.
  pub process_update-IsSound :
      (u : ConnectionUpdate J) (s : GameServer J G)
      → IsSound s
      → (s' : GameServer J G) × (process_update env clock api u s ≡ some s')
        × IsSound s'
        × (s'.finished_games ≡ s.finished_games)
  unfolding process_update finish_session
  process_update-IsSound (disconnected id) s v =
      elim (Option-cases (lookup ℕ_discrete id.session s.games)) [
        | inl e ↦ (s, rw (e, process_update) refl, v, refl)
        | inr (g, e) ↦ rw (e, process_update) (with_game-IsSound id.session _ s (rw e refl) v)
      ]
  process_update-IsSound (connected id login) s v =
      elim (Option-cases (lookup ℕ_discrete id.session s.games)) [
        | inr (g, e) ↦ rw (e, process_update) (with_game-IsSound id.session _ s (rw e refl) v)
        | inl e ↦ elim (Bool-cases (api.is_valid (api.make login))) [
          | inl ok ↦
              rw (e, process_update, ok)
                (with_game-IsSound id.session _ (create_game id.session (api.make login) s)
                  (create_game-there id.session (api.make login) s)
                  (create_game-IsSound id.session (api.make login) s e v))
          | inr bad ↦ (
            finish_session env clock api id.session (api.get_state (api.make login)) s,
            rw (e, process_update, bad) refl,
            record { tables = v.tables; erasable = v.erasable },
            refl,
          )
        ]
      ]

  process_updates-IsSound :
      (us : List (ConnectionUpdate J)) (s : GameServer J G)
      → IsSound s
      → (s' : GameServer J G) × (process_updates env clock api us s ≡ some s')
        × IsSound s'
        × (s'.finished_games ≡ s.finished_games)
  unfolding process_updates
  process_updates-IsSound [] s v = (s, refl, v, refl)
  process_updates-IsSound (u ∷ us) s v =
      let (s1, e, v1, k1) = process_update-IsSound u s v in
      let (s2, f, v2, k2) = process_updates-IsSound us s1 v1 in (s2, rw e f, v2, k2 ∙ k1)

  pub process_connection_updates-IsSound :
      (s : GameServer J G)
      → IsSound s
      → (s' : GameServer J G) × (process_connection_updates env clock api s ≡ some s')
        × IsSound s'
        × (s'.finished_games ≡ s.finished_games)
  unfolding process_connection_updates
  process_connection_updates-IsSound s v =
      let (s1, e, v1, k1) =
        process_updates-IsSound s.base.app.updates (swap_updates s)
          (record { tables = v.tables; erasable = v.erasable }) in
      (
        record s1 { connection_updates = [] },
        rw e refl,
        record { tables = v1.tables; erasable = v1.erasable },
        k1,
      )
