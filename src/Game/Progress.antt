-- ===== src/Game/Progress.antt =====
-- The time-step of `update_games` in include/simple_web_game_server/game_server.hpp.
use mathlib.Core.List.{append-nil, append_assoc}
use simple_web_game_server.Prelude.{
  ℕ, suc, ◌%◌, ◌≡◌, refl, sym, ap, subst, ◌∙◌, inl, inr, if_pos, true, none, some, List, [], ◌∷◌,
  ◌++◌, All, length, arith, is_some, ℕ_discrete, if◌then◌else◌, Bool-cases, is_some-eq_true,
}
use simple_web_game_server.Prelude.Assoc.{Assoc, lookup, erase, lookup-erase, lookup-update}
use simple_web_game_server.Prelude.Assoc.Size.{Distinct}
use simple_web_game_server.Locks.{Readings}
use simple_web_game_server.Base.{Env}
use simple_web_game_server.Base.Link.{size_mod}
use simple_web_game_server.Game.{Message, GameApi, GameServer}
use simple_web_game_server.Game.Loop.{
  messages_at, erase_games, swap_messages, emptied, send_out, advance_games, process_game_updates,
  finish_games, time_step,
}
use simple_web_game_server.Game.Tables.{
  IsPaired, erase-IsPaired, Erasable, Within, Erasable-Within, IsSound,
  process_connection_updates-IsSound,
}
use simple_web_game_server.Game.Updates.{put, finish_session}

module _ {J G : Type 0} where
  erase_games-IsPaired :
      (sids : List ℕ) (s : GameServer J G)
      → IsPaired s.games s.out_messages s.game_count
      → Erasable sids s.games
      → let s' = erase_games sids s in IsPaired s'.games s'.out_messages s'.game_count
  unfolding erase_games
  erase_games-IsPaired [] s v e = v
  erase_games-IsPaired (sid ∷ sids) s v e =
      let (g, there) = is_some-eq_true (lookup ℕ_discrete sid s.games) e.0 in
      erase_games-IsPaired sids _ (erase-IsPaired s.games s.out_messages s.game_count sid there v)
        e.1

-- Every game of the list has its messages.
abbrev Covered : {G : Type 0} → Assoc ℕ (List Message) → Assoc ℕ G → Type 0
Covered outs [] = Unit
Covered outs ((sid, game) ∷ games) =
    (is_some (lookup ℕ_discrete sid outs) ≡ true) × Covered outs games

Covered-Within :
    {G : Type 0} (games : Assoc ℕ G) (outs outs' : Assoc ℕ (List Message))
    → Within outs outs'
    → Covered outs games
    → Covered outs' games
Covered-Within [] outs outs' w c = tt
Covered-Within ((sid, game) ∷ games) outs outs' w c =
    (w sid c.0, Covered-Within games outs outs' w c.1)

Covered-of_Within :
    {G : Type 0} (games : Assoc ℕ G) (outs : Assoc ℕ (List Message))
    → Distinct ℕ_discrete games
    → Within games outs
    → Covered outs games
unfolding lookup
Covered-of_Within [] outs d w = tt
Covered-of_Within ((sid, game) ∷ games) outs d w =
    (w sid (ground arith), Covered-of_Within games outs d.1 (λ j h. w j (ground arith)))

module _ {J G : Type 0} (api : GameApi J G) (delta : ℕ) (ins : Assoc ℕ (List Message)) where
  -- The result of advancing some games: as many, for the same sessions, with the same messages.
  record Advanced (games : Assoc ℕ G) (outs : Assoc ℕ (List Message))
      (r : Assoc ℕ G × Assoc ℕ (List Message)) : Type 0 where
    keys_kept :
        (sid : ℕ) → is_some (lookup ℕ_discrete sid r.0) ≡ is_some (lookup ℕ_discrete sid games)
    outs_kept :
        (sid : ℕ) → is_some (lookup ℕ_discrete sid r.1) ≡ is_some (lookup ℕ_discrete sid outs)
    distinct : Distinct ℕ_discrete r.0
    same_length : length r.0 ≡ length games

  advance_games-Advanced :
      (games : Assoc ℕ G) (outs : Assoc ℕ (List Message))
      → Distinct ℕ_discrete games
      → Covered outs games
      → (r : Assoc ℕ G × Assoc ℕ (List Message)) × (advance_games api delta ins games outs ≡ some r)
        × Advanced games outs r
  unfolding advance_games lookup
  advance_games-Advanced [] outs d c = (
    ([], outs),
    refl,
    record { keys_kept = λ sid. refl; outs_kept = λ sid. refl; distinct = tt; same_length = refl },
  )
  advance_games-Advanced ((sid, game) ∷ games) outs d c =
      let (out, o) = is_some-eq_true (lookup ℕ_discrete sid outs) c.0 in
      let res = api.advance out (messages_at (lookup ℕ_discrete sid ins)) delta game in
      let outs1 = put sid res.1 outs in
      let (rest, e, a) = advance_games-Advanced games outs1 d.1 (
        Covered-Within games outs outs1
          (λ j h. ground (arith, lookup-update ℕ_discrete sid j res.1 (λ _. res.1) outs)) c.1) in
      (
        ((sid, res.0) ∷ rest.0, rest.1),
        rw (o, advance_games, e) refl,
        record {
          keys_kept = λ j. ground (arith, a.keys_kept j);
          outs_kept = λ j.
              ground (arith, a.outs_kept j, lookup-update ℕ_discrete sid j res.1 (λ _. res.1) outs);
          distinct = (ground (arith, a.keys_kept sid), a.distinct);
          same_length = ap suc a.same_length;
        },
      )

-- The sessions whose games are done.
abbrev pub done_sessions : {J G : Type 0} → GameApi J G → Assoc ℕ G → List ℕ
done_sessions api [] = []
done_sessions api ((sid, game) ∷ games) =
    let rest = done_sessions api games in if api.is_done game then sid ∷ rest else rest

module _ {J G : Type 0} (api : GameApi J G) where
  done_sessions-Erasable :
      (games : Assoc ℕ G) → Distinct ℕ_discrete games → Erasable (done_sessions api games) games
  unfolding lookup
  done_sessions-Erasable [] d = tt
  done_sessions-Erasable ((sid, game) ∷ games) d =
      let rest = done_sessions-Erasable games d.1 in
      elim (Bool-cases (api.is_done game)) [
        | inl done ↦ rw done (
          rw (if_pos (ℕ_discrete sid sid) refl (some game) (lookup ℕ_discrete sid games)) refl,
          Erasable-Within (done_sessions api games) games
              (erase ℕ_discrete sid ((sid, game) ∷ games))
              (λ j h. ground (arith, lookup-erase ℕ_discrete sid j ((sid, game) ∷ games), d.0))
              rest,
        )
        | inr more ↦ rw more (
            Erasable-Within (done_sessions api games) games ((sid, game) ∷ games)
              (λ j h. ground arith) rest)
      ]

is_some-emptied :
    (outs : Assoc ℕ (List Message)) (sid : ℕ)
    → is_some (lookup ℕ_discrete sid (emptied outs)) ≡ is_some (lookup ℕ_discrete sid outs)
unfolding lookup
is_some-emptied [] sid = refl
is_some-emptied ((k, ms) ∷ outs) sid = ground (arith, is_some-emptied outs sid)

messages_at-emptied :
    (outs : Assoc ℕ (List Message)) (sid : ℕ)
    → messages_at (lookup ℕ_discrete sid (emptied outs)) ≡ []
unfolding lookup
messages_at-emptied [] sid = refl
messages_at-emptied ((k, ms) ∷ outs) sid = ground (arith, messages_at-emptied outs sid)

module _ {J Jwt G : Type 0} (env : Env J Jwt) (clock : ℕ → Readings) (api : GameApi J G) where
  -- What `finish_games` leaves alone, and the list that it makes.
  pub record Finished (games : Assoc ℕ G) (s s' : GameServer J G) : Type 0 where
    pub same_games : s'.games ≡ s.games
    pub same_outs : s'.out_messages ≡ s.out_messages
    pub same_count : s'.game_count ≡ s.game_count
    pub listed : s'.finished_games ≡ s.finished_games ++ done_sessions api games

  pub finish_games-Finished :
      (games : Assoc ℕ G) (s : GameServer J G)
      → Finished games s (finish_games env clock api games s)
  unfolding finish_games finish_session
  finish_games-Finished [] s = record {
    same_games = refl;
    same_outs = refl;
    same_count = refl;
    listed = sym (append-nil _);
  }
  finish_games-Finished ((sid, game) ∷ games) s = elim (Bool-cases (api.is_done game)) [
    | inl done ↦
        rw (done, finish_games)
          (let f =
              finish_games-Finished games
                (record (finish_session env clock api sid (api.get_state game) s) {
                  finished_games = s.finished_games ++ sid ∷ [];
                }) in
            record {
              same_games = f.same_games;
              same_outs = f.same_outs;
              same_count = f.same_count;
              listed =
                  rw done
                    (f.listed ∙ append_assoc s.finished_games (sid ∷ []) (done_sessions api games));
            })
    | inr more ↦
        rw (more, finish_games)
          (let f = finish_games-Finished games s in
            record {
              same_games = f.same_games;
              same_outs = f.same_outs;
              same_count = f.same_count;
              listed = rw more f.listed;
            })
  ]

-- A session has no game.
abbrev pub Gone : {G : Type 0} → Assoc ℕ G → ℕ → Type 0
Gone games sid = lookup ℕ_discrete sid games ≡ none

module _ {G : Type 0} where
  Gone-within :
      (games games' : Assoc ℕ G) (sids : List ℕ)
      → ((sid : ℕ) → is_some (lookup ℕ_discrete sid games') ≡ is_some (lookup ℕ_discrete sid games))
      → All (Gone games) sids
      → All (Gone games') sids
  Gone-within games games' [] same h = tt
  Gone-within games games' (sid ∷ sids) same h =
      (ground (arith, same sid), Gone-within games games' sids same h.1)

module _ {J G : Type 0} where
  absent-erase_games :
      (j : ℕ) (sids : List ℕ) (s : GameServer J G)
      → lookup ℕ_discrete j s.games ≡ none
      → lookup ℕ_discrete j (erase_games sids s).games ≡ none
  unfolding erase_games
  absent-erase_games j [] s h = h
  absent-erase_games j (sid ∷ sids) s h =
      absent-erase_games j sids _ (ground (arith, lookup-erase ℕ_discrete sid j s.games))

  erase_games-Gone :
      (sids : List ℕ) (s : GameServer J G) → All (Gone (erase_games sids s).games) sids
  unfolding erase_games
  erase_games-Gone [] s = tt
  erase_games-Gone (sid ∷ sids) s = (
    absent-erase_games sid sids _ (ground (arith, lookup-erase ℕ_discrete sid sid s.games)),
    erase_games-Gone sids _,
  )

module _ {J Jwt G : Type 0} (env : Env J Jwt) (clock : ℕ → Readings) (api : GameApi J G) where
  -- From a sound state a time-step meets no missing entry and ends in a sound state. There the
  -- sessions that wait to be erased are those of the games that are done, every message has been
  -- taken out, and no session that was waiting to be erased before has a game any more.
  pub time_step-IsSound :
      (delta start : ℕ) (s : GameServer J G)
      → IsSound s
      → (s' : GameServer J G) × (time_step env clock api delta start s ≡ some s')
        × IsSound s'
        × (s'.finished_games ≡ done_sessions api s'.games)
        × ((sid : ℕ) → messages_at (lookup ℕ_discrete sid s'.out_messages) ≡ [])
        × All (Gone s'.games) s.finished_games
  unfolding time_step process_game_updates send_out
  time_step-IsSound delta start s v =
      let (s1, e1, v1, k1) =
        process_connection_updates-IsSound env clock api (record s { time_start = start })
          (record { tables = v.tables; erasable = v.erasable }) in
      let e = erase_games s1.finished_games s1 in
      let p = erase_games-IsPaired s1.finished_games s1 v1.tables v1.erasable in
      let s2 = swap_messages (record e { finished_games = [] }) in
      let (r, e3, a) =
        advance_games-Advanced api delta s2.in_messages s2.games s2.out_messages p.distinct (
          Covered-of_Within s2.games s2.out_messages p.distinct
            (λ sid h. sym (p.paired sid) ∙ h)) in
      let s4 = send_out (record s2 { games = r.0; out_messages = r.1; in_messages = [] }) in
      let f = finish_games-Finished env clock api r.0 s4 in
      (
        finish_games env clock api r.0 s4,
        rw (e1, e3) refl,
        record {
          tables =
              rw (f.same_games, f.same_outs, f.same_count)
                (record {
                  paired = λ j.
                      a.keys_kept j
                      ∙ p.paired j
                      ∙ sym (a.outs_kept j)
                      ∙ sym (is_some-emptied r.1 j);
                  distinct = a.distinct;
                  counted = p.counted ∙ ap (λ (k : ℕ). k % size_mod) (sym a.same_length);
                });
          erasable = rw (f.listed, f.same_games) (done_sessions-Erasable api r.0 a.distinct);
        },
        rw f.same_games f.listed,
        (λ sid. rw f.same_outs (messages_at-emptied r.1 sid)),
        rw f.same_games (
            Gone-within e.games r.0 s.finished_games a.keys_kept
              (subst (All (Gone e.games)) k1 (erase_games-Gone s1.finished_games s1))),
      )
