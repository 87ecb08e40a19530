-- ===== src/Minimal/Chat.antt =====
-- What the players of the game in examples/minimal_template/minimal_game.hpp are sent.
use mathlib.Core.List.{append_assoc, append-nil}
use simple_web_game_server.Prelude.{
  ℕ, ◌<◌, ◌≡◌, refl, sym, ap, ◌⊎◌, ltb, ◌∙◌, inl, inr, true, false, String, List, [], ◌∷◌, ◌++◌,
  map, arith, ◌==◌, if◌then◌else◌, Bool-cases,
}
use simple_web_game_server.Prelude.NatSet.{
  contains, insert, remove, contains-insert, contains-remove,
}
use simple_web_game_server.Game.{Message}
use simple_web_game_server.Minimal.{Json, tell_players, tell_all, minimal_game}

-- a set as the model keeps it
abbrev IsAscending : List ℕ → Type 0
IsAscending [] = Unit
IsAscending (x ∷ s) = ((y : ℕ) → contains y s ≡ true → x < y) × IsAscending s

insert-IsAscending : (k : ℕ) (s : List ℕ) → IsAscending s → IsAscending (insert k s)
unfolding insert contains
insert-IsAscending k [] v = (λ y h. ground arith, tt)
insert-IsAscending k (x ∷ s) v = elim (Bool-cases (x == k)) [
  | inl e ↦ rw e v
  | inr e ↦ elim (Bool-cases (ltb k x)) [
    | inl l ↦ rw (e, l) ((λ y h. ground (arith, v.0 y)), v)
    | inr l ↦
        rw (e, l)
          ((λ y h. ground (arith, contains-insert k y s, v.0 y)), insert-IsAscending k s v.1)
  ]
]

remove-IsAscending : (k : ℕ) (s : List ℕ) → IsAscending s → IsAscending (remove k s)
unfolding remove contains
remove-IsAscending k [] v = tt
remove-IsAscending k (x ∷ s) v = elim (Bool-cases (x == k)) [
  | inl e ↦ rw e (remove-IsAscending k s v.1)
  | inr e ↦
      rw e ((λ y h. v.0 y (ground (arith, contains-remove k y s))), remove-IsAscending k s v.1)
]

-- who comes and goes
pub data Visit : Type 0 where
  comes goes : ℕ → Visit

module _ {J : Type 0} (json : Json J) where
  abbrev pub visited : List Visit → List ℕ → List ℕ
  visited [] g = g
  visited (comes pid ∷ vs) g = visited vs ((minimal_game json).connect [] pid g).0
  visited (goes pid ∷ vs) g = visited vs ((minimal_game json).disconnect [] pid g).0

  visited-IsAscending : (vs : List Visit) (g : List ℕ) → IsAscending g → IsAscending (visited vs g)
  visited-IsAscending [] g v = v
  visited-IsAscending (comes pid ∷ vs) g v =
      visited-IsAscending vs (insert pid g) (insert-IsAscending pid g v)
  visited-IsAscending (goes pid ∷ vs) g v =
      visited-IsAscending vs (remove pid g) (remove-IsAscending pid g v)

-- the texts for a player
abbrev pub texts_for : ℕ → List Message → List String
texts_for pid [] = []
texts_for pid (m ∷ ms) = let rest = texts_for pid ms in if m.0 == pid then m.1 ∷ rest else rest

texts_for-append :
    (pid : ℕ) (ms ns : List Message)
    → texts_for pid (ms ++ ns) ≡ texts_for pid ms ++ texts_for pid ns
texts_for-append pid [] ns = refl
texts_for-append pid (m ∷ ms) ns = ground (arith, texts_for-append pid ms ns)

module _ {J : Type 0} (json : Json J) where
  tell_players-texts :
      (pid : ℕ) (msg : Message) (players : List ℕ) (out : List Message)
      → IsAscending players
      → texts_for pid (tell_players json msg players out)
        ≡ texts_for pid out ++ (if contains pid players then json.dump msg.0 msg.1 ∷ [] else [])
  unfolding tell_players contains
  tell_players-texts pid msg [] out v = sym (append-nil (texts_for pid out))
  tell_players-texts pid msg (p ∷ ps) out v =
      let m : Message = (p, json.dump msg.0 msg.1) in
      tell_players-texts pid msg ps (out ++ m ∷ []) v.1
      ∙ ap (λ l. l ++ (if contains pid ps then json.dump msg.0 msg.1 ∷ [] else []))
          (texts_for-append pid out (m ∷ []))
      ∙ append_assoc (texts_for pid out) (texts_for pid (m ∷ [])) _
      ∙ ap (λ l. texts_for pid out ++ l)
          (once (Bool-cases (p == pid)) (Bool-cases (contains pid ps)))
    where
      once :
          (p == pid ≡ true) ⊎ (p == pid ≡ false)
          → (contains pid ps ≡ true) ⊎ (contains pid ps ≡ false)
          → texts_for pid ((p, json.dump msg.0 msg.1) ∷ [])
              ++ (if contains pid ps then json.dump msg.0 msg.1 ∷ [] else [])
            ≡ (if contains pid (p ∷ ps) then json.dump msg.0 msg.1 ∷ [] else [])
      once (inl e) (inl c) = absurd (ground (arith, v.0 pid c))
      once (inl e) (inr c) = rw (e, c) refl
      once (inr e) (inl c) = rw (e, c) refl
      once (inr e) (inr c) = rw (e, c) refl

  tell_all-texts :
      (pid : ℕ) (msgs : List Message) (players : List ℕ) (out : List Message)
      → IsAscending players
      → texts_for pid (tell_all json msgs players out)
        ≡ texts_for pid out
          ++ (if contains pid players then map (λ (m : Message). json.dump m.0 m.1) msgs else [])
  unfolding tell_all
  tell_all-texts pid [] players out v = ground (arith, append-nil (texts_for pid out))
  tell_all-texts pid (msg ∷ msgs) players out v =
      tell_all-texts pid msgs players (tell_players json msg players out) v
      ∙ ap
          (λ l.
            l
            ++ (if contains pid players then map (λ (m : Message). json.dump m.0 m.1) msgs else []))
          (tell_players-texts pid msg players out v)
      ∙ append_assoc (texts_for pid out) _ _
      ∙ ap (λ l. texts_for pid out ++ l) (joined (Bool-cases (contains pid players)))
    where
      joined :
          (contains pid players ≡ true) ⊎ (contains pid players ≡ false)
          → (if contains pid players then json.dump msg.0 msg.1 ∷ [] else [])
              ++ (if contains pid players
                  then map (λ (m : Message). json.dump m.0 m.1) msgs
                  else [])
            ≡ (if contains pid players
                then map (λ (m : Message). json.dump m.0 m.1) (msg ∷ msgs)
                else [])
      joined (inl c) = rw c refl
      joined (inr c) = rw c refl

  -- After any comings and goings, an update sends each player who is there every message of the
  -- update, in order and once, after what waited for the player already; it sends nobody else
  -- anything.
  pub everyone_hears :
      (vs : List Visit) (pid delta : ℕ) (ins out : List Message)
      → let g = visited json vs [] in
        texts_for pid ((minimal_game json).advance out ins delta g).1
        ≡ texts_for pid out
          ++ (if contains pid g then map (λ (m : Message). json.dump m.0 m.1) ins else [])
  everyone_hears vs pid delta ins out =
      tell_all-texts pid ins (visited json vs []) out (visited-IsAscending json vs [] tt)
