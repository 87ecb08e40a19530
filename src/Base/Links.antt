-- ===== src/Base/Links.antt =====
-- The tables that say who is connected, and what a login and a disconnection do to them.
use simple_web_game_server.Prelude.{
  ℕ, ◌%◌, ◌≡◌, ◌≢◌, refl, ite, Option, none, some, List, [], ◌∷◌, length, is_some, arith,
  ℕ_discrete,
}
use simple_web_game_server.Prelude.Assoc.{
  Assoc, lookup, erase, emplace, update, lookup-erase, lookup-emplace, lookup-update,
}
use simple_web_game_server.Prelude.Assoc.Size.{
  Distinct, erase-Distinct, emplace-Distinct, length-erase, length-emplace_new,
}
use simple_web_game_server.Prelude.NatSet.{
  contains, insert, remove, contains-insert, contains-remove, insert-ne-nil,
}
use simple_web_game_server.Base.{CombinedId, id_discrete}
use simple_web_game_server.Base.Link.{size_mod, incr, decr, without_player, players_at}

-- The two tables of connections are inverse to one another, the count is the number of clients,
-- and the sets of players are those of the connected clients, with no empty set.
pub record IsLinked (cids : Assoc ℕ CombinedId) (idcs : Assoc CombinedId ℕ) (sps : Assoc ℕ (List ℕ))
    (n : ℕ) : Type 0 where
  pub ids :
      (h : ℕ) (id : CombinedId)
      → lookup ℕ_discrete h cids ≡ some id
      → lookup id_discrete id idcs ≡ some h
  pub hdls :
      (id : CombinedId) (h : ℕ)
      → lookup id_discrete id idcs ≡ some h
      → lookup ℕ_discrete h cids ≡ some id
  pub distinct : Distinct id_discrete idcs
  pub counted : n ≡ length idcs % size_mod
  pub members :
      (p sid : ℕ)
      → contains p (players_at (lookup ℕ_discrete sid sps))
        ≡ is_some (lookup id_discrete (record { player = p; session = sid }) idcs)
  pub inhabited : (sid : ℕ) → lookup ℕ_discrete sid sps ≢ some []

-- A client that had no connection gets one.
module _ (cids : Assoc ℕ CombinedId) (idcs : Assoc CombinedId ℕ) (sps : Assoc ℕ (List ℕ)) (n : ℕ)
    (hdl : ℕ) (id : CombinedId) where
  pub enter-IsLinked :
      IsLinked cids idcs sps n
      → lookup ℕ_discrete hdl cids ≡ none
      → lookup id_discrete id idcs ≡ none
      → IsLinked
          (emplace ℕ_discrete hdl id cids)
          (emplace id_discrete id hdl idcs)
          (update ℕ_discrete id.session [] (insert id.player) sps)
          (incr n)
  enter-IsLinked v new absent = record {
    ids = λ h j e. ground (
      arith,
      lookup-emplace ℕ_discrete hdl h id cids,
      lookup-emplace id_discrete id j hdl idcs,
      v.ids h j,
    );
    hdls = λ j h e. ground (
      arith,
      lookup-emplace ℕ_discrete hdl h id cids,
      lookup-emplace id_discrete id j hdl idcs,
      v.hdls j h,
    );
    distinct = emplace-Distinct id_discrete id hdl idcs v.distinct;
    counted = omega (arith, length-emplace_new id_discrete id hdl idcs absent, v.counted);
    members = λ p sid. ground (
      arith,
      lookup-update ℕ_discrete id.session sid [] (insert id.player) sps,
      lookup-emplace id_discrete id (record { player = p; session = sid }) hdl idcs,
      contains-insert id.player p (players_at (lookup ℕ_discrete sid sps)),
      v.members p sid,
    );
    inhabited = λ sid e. ground (
      arith,
      lookup-update ℕ_discrete id.session sid [] (insert id.player) sps,
      v.inhabited sid,
      insert-ne-nil id.player (players_at (lookup ℕ_discrete sid sps)),
    );
  }

-- A set that is empty is not kept.
abbrev kept_set : List ℕ → Option (List ℕ)
kept_set [] = none
kept_set (p ∷ ps) = some (p ∷ ps)

lookup-without_player :
    (id : CombinedId) (sid : ℕ) (sps : Assoc ℕ (List ℕ))
    → lookup ℕ_discrete sid (without_player id sps)
      ≡ ite
          (ℕ_discrete id.session sid)
          (kept_set (remove id.player (players_at (lookup ℕ_discrete sid sps))))
          (lookup ℕ_discrete sid sps)
unfolding without_player remove
lookup-without_player id sid sps = ground (
  arith,
  lookup-erase ℕ_discrete id.session sid (update ℕ_discrete id.session [] (remove id.player) sps),
  lookup-update ℕ_discrete id.session sid [] (remove id.player) sps,
)

players_at-kept_set : (ps : List ℕ) → players_at (kept_set ps) ≡ ps
players_at-kept_set [] = refl
players_at-kept_set (p ∷ ps) = refl

kept_set-ne : (ps : List ℕ) → kept_set ps ≢ some []
kept_set-ne [] e = ground arith
kept_set-ne (p ∷ ps) e = ground arith

module _ (cids : Assoc ℕ CombinedId) (idcs : Assoc CombinedId ℕ) (sps : Assoc ℕ (List ℕ)) (n : ℕ)
    (hdl : ℕ) (id : CombinedId) where
  pub leave-IsLinked :
      IsLinked cids idcs sps n
      → lookup ℕ_discrete hdl cids ≡ some id
      → IsLinked
          (erase ℕ_discrete hdl cids)
          (erase id_discrete id idcs)
          (without_player id sps)
          (decr n)
  leave-IsLinked v here = record {
    ids = λ h j e. ground (
      arith,
      lookup-erase ℕ_discrete hdl h cids,
      lookup-erase id_discrete id j idcs,
      v.ids h j,
      v.ids hdl id,
    );
    hdls = λ j h e. ground (
      arith,
      lookup-erase ℕ_discrete hdl h cids,
      lookup-erase id_discrete id j idcs,
      v.hdls j h,
      v.ids hdl id,
    );
    distinct = erase-Distinct id_discrete id idcs v.distinct;
    counted =
        omega
          (arith, length-erase id_discrete id idcs hdl v.distinct (v.ids hdl id here), v.counted);
    members = λ p sid. ground (
      arith,
      lookup-without_player id sid sps,
      lookup-erase id_discrete id (record { player = p; session = sid }) idcs,
      players_at-kept_set (remove id.player (players_at (lookup ℕ_discrete sid sps))),
      contains-remove id.player p (players_at (lookup ℕ_discrete sid sps)),
      v.members p sid,
    );
    inhabited = λ sid e. ground (
      arith,
      lookup-without_player id sid sps,
      v.inhabited sid,
      kept_set-ne (remove id.player (players_at (lookup ℕ_discrete sid sps))),
    );
  }

  -- A client that is there under another connection, `old`, moves to this one.
  pub replace-IsLinked :
      (old : ℕ)
      → IsLinked cids idcs sps n
      → lookup ℕ_discrete hdl cids ≡ none
      → lookup id_discrete id idcs ≡ some old
      → IsLinked
          (emplace ℕ_discrete hdl id (erase ℕ_discrete old cids))
          (emplace id_discrete id hdl (erase id_discrete id idcs))
          (update ℕ_discrete id.session [] (insert id.player) sps)
          n
  replace-IsLinked old v new there = record {
    ids = λ h j e. ground (
      arith,
      lookup-emplace ℕ_discrete hdl h id (erase ℕ_discrete old cids),
      lookup-emplace id_discrete id j hdl (erase id_discrete id idcs),
      lookup-erase ℕ_discrete old h cids,
      lookup-erase id_discrete id j idcs,
      v.ids h j,
      v.hdls id old,
    );
    hdls = λ j h e. ground (
      arith,
      lookup-emplace ℕ_discrete hdl h id (erase ℕ_discrete old cids),
      lookup-emplace id_discrete id j hdl (erase id_discrete id idcs),
      lookup-erase ℕ_discrete old h cids,
      lookup-erase id_discrete id j idcs,
      v.hdls j h,
      v.hdls id old,
    );
    distinct =
        emplace-Distinct id_discrete id hdl _ (erase-Distinct id_discrete id idcs v.distinct);
    counted = omega (
      arith,
      length-erase id_discrete id idcs old v.distinct there,
      length-emplace_new id_discrete id hdl (erase id_discrete id idcs) (absent_now),
      v.counted,
    );
    members = λ p sid. ground (
      arith,
      lookup-update ℕ_discrete id.session sid [] (insert id.player) sps,
      lookup-emplace id_discrete id (record { player = p; session = sid }) hdl
          (erase id_discrete id idcs),
      lookup-erase id_discrete id (record { player = p; session = sid }) idcs,
      contains-insert id.player p (players_at (lookup ℕ_discrete sid sps)),
      v.members p sid,
    );
    inhabited = λ sid e. ground (
      arith,
      lookup-update ℕ_discrete id.session sid [] (insert id.player) sps,
      v.inhabited sid,
      insert-ne-nil id.player (players_at (lookup ℕ_discrete sid sps)),
    );
  }
    where
      absent_now : lookup id_discrete id (erase id_discrete id idcs) ≡ none
      absent_now = ground (arith, lookup-erase id_discrete id id idcs)
