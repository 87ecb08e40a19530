-- ===== src/TicTacToe/Matchmaker/Pairs.antt =====
-- The pairs that `tic_tac_toe_matchmaker` of examples/tic_tac_toe/tic_tac_toe_game.hpp makes.
use mathlib.Core.Path.{subst}
use simple_web_game_server.Prelude.{
  ℕ, ◌≡◌, ◌≢◌, ◌≤◌, ◌^◌, ◌⊎◌, refl, sym, ap, ◌∙◌, true, false, Option, none, some, List, [], ◌∷◌,
  inl, inr, arith, All, Bool-cases, Option-cases, ℕ_discrete,
}
use simple_web_game_server.Prelude.Assoc.{Assoc, lookup}
use simple_web_game_server.Prelude.Assoc.Size.{Distinct}
use simple_web_game_server.Prelude.NatSet.{contains, insert, contains-insert}
use simple_web_game_server.Prelude.Int.{
  ℤ, pos, distance, abs_difference, ltb_ℤ, leb_ℤ, leb-abs_difference,
}
use simple_web_game_server.Matchmaking.{MatchedGame}
use simple_web_game_server.Matchmaking.Progress.{matched_sessions}
use simple_web_game_server.TicTacToe.Matchmaker.{Rated, Json, best_partner, pair, pairs}

-- Every entry of the first table is one of the second.
abbrev Inside : Assoc ℕ Rated → Assoc ℕ Rated → Type 0
Inside sub all =
    (p : ℕ) (d : Rated) → lookup ℕ_discrete p sub ≡ some d → lookup ℕ_discrete p all ≡ some d

-- The best partner so far, if there is one, is a session of the table that is not matched, and the
-- score is that of the two ratings.
abbrev IsPartner : ℤ → List ℕ → Assoc ℕ Rated → Option ℕ × ℤ → Type 0
IsPartner r matched all best =
    (p : ℕ)
    → best.0 ≡ some p
    → (contains p matched ≡ false)
      × (d : Rated) × (lookup ℕ_discrete p all ≡ some d)
      × (best.1 ≡ abs_difference r d.rating)

Inside-tail :
    (sid : ℕ) (d : Rated) (rest : Assoc ℕ Rated)
    → lookup ℕ_discrete sid rest ≡ none
    → Inside rest ((sid, d) ∷ rest)
unfolding lookup
Inside-tail sid d rest new p e h = ground arith

best_partner-IsPartner :
    (r : ℤ) (matched : List ℕ) (sub all : Assoc ℕ Rated) (best : Option ℕ × ℤ)
    → Distinct ℕ_discrete sub
    → Inside sub all
    → IsPartner r matched all best
    → IsPartner r matched all (best_partner r matched sub best)
unfolding best_partner lookup
best_partner-IsPartner r matched [] all best u i v = v
best_partner-IsPartner r matched ((sid, d) ∷ rest) all best (new, u) i v =
    let tail : Inside rest all = λ p e h. i p e (Inside-tail sid d rest new p e h) in
    let here : lookup ℕ_discrete sid all ≡ some d = i sid d (ground arith) in
    elim (Bool-cases (contains sid matched)) [
      | inl taken ↦
          rw (taken, best_partner) (best_partner-IsPartner r matched rest all best u tail v)
      | inr free ↦ elim (Bool-cases (ltb_ℤ (abs_difference r d.rating) best.1)) [
        | inr worse ↦
            rw (free, worse, best_partner) (best_partner-IsPartner r matched rest all best u tail v)
        | inl better ↦
            rw (free, better, best_partner)
              (best_partner-IsPartner r matched rest all (some sid, abs_difference r d.rating) u
                tail
                (λ p h.
                  subst
                    (λ q.
                      (contains q matched ≡ false)
                      × (e : Rated) × (lookup ℕ_discrete q all ≡ some e)
                      × (abs_difference r d.rating ≡ abs_difference r e.rating))
                    (ground arith) (free, d, here, refl)))
      ]
    ]

apart :
    (a b : ℕ) (rest : Assoc ℕ Rated) (e : Rated)
    → lookup ℕ_discrete a rest ≡ none
    → lookup ℕ_discrete b rest ≡ some e
    → a ≢ b
apart a b rest e new there same = cc

-- A game of two different sessions of the table that are not matched yet, with ratings at most 250
-- apart or so far apart that their difference is out of the range of an int.
abbrev pub IsClose : {J : Type 0} → Json J → List ℕ → Assoc ℕ Rated → MatchedGame J → Type 0
IsClose json matched sessions g =
    (a : ℕ) × (b : ℕ) × (d : Rated) × (e : Rated) × (g ≡ pair json a b)
    × (a ≢ b)
    × (contains a matched ≡ false)
    × (contains b matched ≡ false)
    × (lookup ℕ_discrete a sessions ≡ some d)
    × (lookup ℕ_discrete b sessions ≡ some e)
    × ((distance d.rating e.rating ≤ 250) ⊎ (2 ^ 31 ≤ distance d.rating e.rating))

module _ {J : Type 0} (json : Json J) where
  IsClose-tail :
      (matched more : List ℕ) (sub all : Assoc ℕ Rated) (gs : List (MatchedGame J))
      → Inside sub all
      → ((k : ℕ) → contains k more ≡ false → contains k matched ≡ false)
      → All (IsClose json more sub) gs
      → All (IsClose json matched all) gs
  IsClose-tail matched more sub all [] i m h = tt
  IsClose-tail matched more sub all (g ∷ gs) i m ((a, b, d, e, p, n, fa, fb, la, lb, c), h) = (
    (a, b, d, e, p, n, m a fa, m b fb, i a d la, i b e lb, c),
    IsClose-tail matched more sub all gs i m h,
  )

  pairs-IsClose :
      (matched : List ℕ) (sessions : Assoc ℕ Rated)
      → Distinct ℕ_discrete sessions
      → All (IsClose json matched sessions) (pairs json matched sessions)
  unfolding pairs lookup
  pairs-IsClose matched [] u = tt
  pairs-IsClose matched ((sid, d) ∷ rest) (new, u) =
      let tail = Inside-tail sid d rest new in
      let skip : All (IsClose json matched ((sid, d) ∷ rest)) (pairs json matched rest) =
        IsClose-tail matched matched rest ((sid, d) ∷ rest) (pairs json matched rest) tail
          (λ k h. h) (pairs-IsClose matched rest u) in
      let best = best_partner d.rating matched rest (none, pos 100000) in
      elim (Bool-cases (contains sid matched)) [
        | inl taken ↦ rw (taken, pairs) skip
        | inr free ↦ elim (Option-cases best.0) [
          | inl alone ↦ rw (free, alone, pairs) skip
          | inr (partner, f) ↦ elim (Bool-cases (leb_ℤ best.1 (pos 250))) [
            | inr far ↦ rw (free, f, far, pairs) skip
            | inl near ↦
                let (fb, e, lb, score) =
                  best_partner-IsPartner d.rating matched rest rest (none, pos 100000) u
                    (λ p c h. h) (λ p h. ground arith) partner f in
                let more = insert partner (insert sid matched) in
                rw (free, f, near, pairs)
                  (
                    (
                      sid,
                      partner,
                      d,
                      e,
                      refl,
                      apart sid partner rest e new lb,
                      free,
                      fb,
                      ground arith,
                      tail partner e lb,
                      leb-abs_difference d.rating e.rating 250
                          (ap (λ k. leb_ℤ k (pos 250)) (sym score) ∙ near),
                    ),
                    IsClose-tail matched more rest ((sid, d) ∷ rest) (pairs json more rest) tail
                        (λ k h. ground (
                          arith,
                          contains-insert partner k (insert sid matched),
                          contains-insert sid k matched,
                        ))
                        (pairs-IsClose more rest u),
                  )
          ]
        ]
      ]

-- No number stands twice in the list.
abbrev pub NoRepeat : List ℕ → Type 0
NoRepeat [] = Unit
NoRepeat (k ∷ ks) = (contains k ks ≡ false) × NoRepeat ks

module _ {J : Type 0} (json : Json J) where
  -- A session that was matched before is in no game.
  unmatched :
      (k : ℕ) (more : List ℕ) (sub : Assoc ℕ Rated) (gs : List (MatchedGame J))
      → contains k more ≡ true
      → All (IsClose json more sub) gs
      → contains k (matched_sessions gs) ≡ false
  unfolding contains
  unmatched k more sub [] there h = refl
  unmatched k more sub (g ∷ gs) there ((a, b, d, e, p, n, fa, fb, la, lb, c), h) =
      let not_a : k ≢ a = λ q. cc in
      let not_b : k ≢ b = λ q. cc in
      rw p (ground (arith, not_a, not_b, unmatched k more sub gs there h))

  pairs-NoRepeat :
      (matched : List ℕ) (sessions : Assoc ℕ Rated)
      → Distinct ℕ_discrete sessions
      → NoRepeat (matched_sessions (pairs json matched sessions))
  unfolding pairs contains
  pairs-NoRepeat matched [] u = tt
  pairs-NoRepeat matched ((sid, d) ∷ rest) (new, u) =
      let skip = pairs-NoRepeat matched rest u in
      let best = best_partner d.rating matched rest (none, pos 100000) in
      elim (Bool-cases (contains sid matched)) [
        | inl taken ↦ rw (taken, pairs) skip
        | inr free ↦ elim (Option-cases best.0) [
          | inl alone ↦ rw (free, alone, pairs) skip
          | inr (partner, f) ↦ elim (Bool-cases (leb_ℤ best.1 (pos 250))) [
            | inr far ↦ rw (free, f, far, pairs) skip
            | inl near ↦
                let (fb, e, lb, score) =
                  best_partner-IsPartner d.rating matched rest rest (none, pos 100000) u
                    (λ p c h. h) (λ p h. ground arith) partner f in
                let more = insert partner (insert sid matched) in
                let close = pairs-IsClose json more rest u in
                let first =
                  unmatched sid more rest (pairs json more rest)
                    (ground (
                      arith,
                      contains-insert partner sid (insert sid matched),
                      contains-insert sid sid matched,
                    ))
                    close in
                let second =
                  unmatched partner more rest (pairs json more rest)
                    (ground (arith, contains-insert partner partner (insert sid matched))) close in
                rw (free, f, near, pairs)
                  (
                    ground (arith, first, apart sid partner rest e new lb),
                    (second, pairs-NoRepeat more rest u),
                  )
          ]
        ]
      ]

  -- The games that the matchmaker makes of a table of sessions: each is of two different sessions of
  -- the table, with the session of the first one, and their ratings are at most 250 apart or differ
  -- by 2^31 or more, where the difference of two ints overflows. No session is in two of them.
  pub pairing :
      (sessions : Assoc ℕ Rated)
      → Distinct ℕ_discrete sessions
      → All (IsClose json [] sessions) (pairs json [] sessions)
        × NoRepeat (matched_sessions (pairs json [] sessions))
  pairing sessions u = (pairs-IsClose json [] sessions u, pairs-NoRepeat [] sessions u)
