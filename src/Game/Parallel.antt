-- ===== src/Game/Parallel.antt =====
-- The parallel loop of `process_game_updates` in include/simple_web_game_server/game_server.hpp.
use mathlib.Core.Option.{some-injective}
use simple_web_game_server.Prelude.Options.{bind-some}
use simple_web_game_server.Prelude.{
  ℕ, ◌≡◌, refl, ◌≢◌, ap, subst, ◌∙◌, Option, none, some, List, [], ◌∷◌, ℕ_discrete, if_pos, if_neg,
}
use simple_web_game_server.Prelude.Assoc.{Assoc, lookup, lookup-update, lookup-first, lookup-rest}
use simple_web_game_server.Prelude.Assoc.Size.{Distinct}
use simple_web_game_server.Game.{Message, GameApi}
use simple_web_game_server.Game.Loop.{messages_at, advance_games}
use simple_web_game_server.Game.Updates.{put}

module _ {J G : Type 0} (api : GameApi J G) (delta : ℕ) (ins : Assoc ℕ (List Message)) where
  -- A session by itself: its game after an update, and its messages.
  abbrev pub game_alone : ℕ → Option G → Option (List Message) → Option G
  game_alone sid none out = none
  game_alone sid (some game) none = none
  game_alone sid (some game) (some out) =
      some (api.advance out (messages_at (lookup ℕ_discrete sid ins)) delta game).0

  abbrev pub out_alone : ℕ → Option G → Option (List Message) → Option (List Message)
  out_alone sid none out = out
  out_alone sid (some game) none = none
  out_alone sid (some game) (some out) =
      some (api.advance out (messages_at (lookup ℕ_discrete sid ins)) delta game).1

  -- The result has for the session what the session gives by itself.
  abbrev Alone :
      Assoc ℕ G → Assoc ℕ (List Message) → Assoc ℕ G × Assoc ℕ (List Message) → ℕ → Type 0
  Alone games outs r sid =
      let game = lookup ℕ_discrete sid games in
      let out = lookup ℕ_discrete sid outs in
      (lookup ℕ_discrete sid r.0 ≡ game_alone sid game out)
      × (lookup ℕ_discrete sid r.1 ≡ out_alone sid game out)

  Alone-none : (outs : Assoc ℕ (List Message)) (sid : ℕ) → Alone [] outs ([], outs) sid
  unfolding lookup
  Alone-none outs sid = (refl, refl)

  module _ (k : ℕ) (g : G) (out : List Message) (games : Assoc ℕ G) (outs : Assoc ℕ (List Message))
      (rest : Assoc ℕ G × Assoc ℕ (List Message))
      (there : lookup ℕ_discrete k outs ≡ some out) where
    abbrev updated : G × List Message
    updated = api.advance out (messages_at (lookup ℕ_discrete k ins)) delta g

    Alone-first :
        lookup ℕ_discrete k games ≡ none
        → Alone games (put k updated.1 outs) rest k
        → Alone ((k, g) ∷ games) outs ((k, updated.0) ∷ rest.0, rest.1) k
    Alone-first absent h =
        rw (lookup-first ℕ_discrete k g games, lookup-first ℕ_discrete k updated.0 rest.0, there)
          (
            refl,
            h.1
                ∙ ap (λ o. out_alone k o (lookup ℕ_discrete k (put k updated.1 outs))) absent
                ∙ lookup-update ℕ_discrete k k updated.1 (λ _. updated.1) outs
                ∙ if_pos (ℕ_discrete k k) refl _ _,
          )

    Alone-other :
        (sid : ℕ)
        → k ≢ sid
        → Alone games (put k updated.1 outs) rest sid
        → Alone ((k, g) ∷ games) outs ((k, updated.0) ∷ rest.0, rest.1) sid
    Alone-other sid n h =
        let same =
          lookup-update ℕ_discrete k sid updated.1 (λ _. updated.1) outs
          ∙ if_neg (ℕ_discrete k sid) n _ _ in
        rw (lookup-rest ℕ_discrete k sid g games n, lookup-rest ℕ_discrete k sid updated.0 rest.0 n)
          (
            h.0 ∙ ap (game_alone sid (lookup ℕ_discrete sid games)) same,
            h.1 ∙ ap (out_alone sid (lookup ℕ_discrete sid games)) same,
          )

  -- Each session's game and messages after the loop over the games are those of the session by
  -- itself, whatever order the games are in, if the loop gives a result.
  pub each_alone :
      (games : Assoc ℕ G) (outs : Assoc ℕ (List Message)) (r : Assoc ℕ G × Assoc ℕ (List Message))
      (sid : ℕ)
      → Distinct ℕ_discrete games
      → advance_games api delta ins games outs ≡ some r
      → let game = lookup ℕ_discrete sid games in
        let out = lookup ℕ_discrete sid outs in
        (lookup ℕ_discrete sid r.0 ≡ game_alone sid game out)
        × (lookup ℕ_discrete sid r.1 ≡ out_alone sid game out)
  unfolding advance_games
  each_alone [] outs r sid d e =
      subst (λ r. Alone [] outs r sid) (some-injective ([], outs) r e) (Alone-none outs sid)
  each_alone ((k, g) ∷ games) outs r sid d e =
      let (out, there, f) = bind-some (lookup ℕ_discrete k outs) _ e in
      let x = updated k g out games outs ([], outs) there in
      let (rest, f1, f2) = bind-some (advance_games api delta ins games (put k x.1 outs)) _ f in
      subst (λ r. Alone ((k, g) ∷ games) outs r sid)
        (some-injective ((k, x.0) ∷ rest.0, rest.1) r f2)
        (elim (ℕ_discrete k sid) [
          | yes p ↦ subst (Alone ((k, g) ∷ games) outs ((k, x.0) ∷ rest.0, rest.1)) p (
              Alone-first k g out games outs rest there d.0
                (each_alone games (put k x.1 outs) rest k d.1 f1))
          | no n ↦
              Alone-other k g out games outs rest there sid n
                (each_alone games (put k x.1 outs) rest sid d.1 f1)
        ])
