-- ===== src/Locks/Retention.antt =====
-- How long the archive of include/simple_web_game_server/base_server.hpp keeps a result at least.
use simple_web_game_server.Prelude.{
  ℕ, ◌+◌, ◌*◌, ◌≤◌, ◌≡◌, inl, inr, false, some, List, [], ◌∷◌, All, arith, ℕ_discrete, Bool-cases,
}
use simple_web_game_server.Prelude.Assoc.{lookup, lookup-emplace}
use simple_web_game_server.BufferedMap.{contains, insert, at}
use simple_web_game_server.BufferedMap.Laws.{at-clear_first}
use simple_web_game_server.Locks.{
  Locks, Readings, Op, check, completes, readings, ns_per_ms, elapsed_ms, update_session_locks,
  complete, apply, run, update_cases, release_time-complete, release_time-apply,
}

-- At `t0` the session `k` had the result `v`: it stands in the first map, which the next clearing
-- spares, or the next clearing is further off than the release time.
pub data IsKept {V : Type 0} (t0 k : ℕ) (v : V) (l : Locks V) : Type 0 where
  young :
      lookup ℕ_discrete k l.locked.map1 ≡ some v
      → elapsed_ms t0 l.last_update ≤ l.release_time
      → IsKept t0 k v l
  old : at l.locked k ≡ some v → t0 ≤ l.last_update → IsKept t0 k v l

-- An operation that reads the clock at most `release` milliseconds after `t0`.
abbrev pub InTime : {V : Type 0} → ℕ → ℕ → Op V → Type 0
InTime t0 release o =
    (t0 ≤ (readings o).now)
    × ((readings o).now ≤ t0 + release * ns_per_ms)
    × ((readings o).now ≤ (readings o).stamp)

module _ {V : Type 0} (t0 k : ℕ) (v : V) where
  pub IsKept-at : (l : Locks V) → IsKept t0 k v l → at l.locked k ≡ some v
  unfolding at
  IsKept-at l (young h e) = ground arith
  IsKept-at l (old h e) = h

  -- Within the release time of `t0` no update drops the session.
  update-IsKept :
      (r : Readings) (l : Locks V)
      → t0 ≤ r.now
      → r.now ≤ t0 + l.release_time * ns_per_ms
      → r.now ≤ r.stamp
      → IsKept t0 k v l
      → IsKept t0 k v (update_session_locks r l)
  update-IsKept r l after soon ordered (young h e) = elim (update_cases r l) [
    | inl (_, same) ↦ rw same (young h e)
    | inr (inl (_, _, once)) ↦ rw once (old (at-clear_first l.locked k v h) (omega arith))
    | inr (inr (late, _)) ↦ absurd (omega arith)
  ]
  update-IsKept r l after soon ordered (old h e) = elim (update_cases r l) [
    | inl (_, same) ↦ rw same (old h e)
    | inr (inl (late, _, _)) ↦ absurd (omega arith)
    | inr (inr (late, _)) ↦ absurd (omega arith)
  ]

  -- A second completion of a session that is there, or the completion of another one.
  insert-IsKept :
      (j : ℕ) (w : V) (l : Locks V)
      → contains l.locked j ≡ false
      → IsKept t0 k v l
      → IsKept t0 k v (record l { locked = insert j w l.locked })
  unfolding insert at contains
  insert-IsKept j w l free (young h e) =
      young (ground (arith, lookup-emplace ℕ_discrete j k w l.locked.map1)) e
  insert-IsKept j w l free (old h e) =
      old (ground (arith, lookup-emplace ℕ_discrete j k w l.locked.map1)) e

  complete-IsKept :
      (r : Readings) (j : ℕ) (w : V) (l : Locks V)
      → IsKept t0 k v (update_session_locks r l)
      → IsKept t0 k v (complete r j w l)
  unfolding complete
  complete-IsKept r j w l h = elim (Bool-cases (contains (update_session_locks r l).locked j)) [
    | inl there ↦ rw there h
    | inr free ↦ rw free (insert-IsKept j w (update_session_locks r l) free h)
  ]

  pub apply-IsKept :
      (o : Op V) (l : Locks V)
      → InTime t0 l.release_time o
      → IsKept t0 k v l
      → IsKept t0 k v (apply o l)
  unfolding apply
  apply-IsKept (check r) l (a, b, c) h = update-IsKept r l a b c h
  apply-IsKept (completes r j w) l (a, b, c) h = complete-IsKept r j w l (update-IsKept r l a b c h)

  run-IsKept :
      (os : List (Op V)) (l : Locks V)
      → All (InTime t0 l.release_time) os
      → IsKept t0 k v l
      → IsKept t0 k v (run os l)
  unfolding run
  run-IsKept [] l _ h = h
  run-IsKept (o ∷ os) l (a, rest) h =
      run-IsKept os (apply o l) (rw (release_time-apply o l) rest) (apply-IsKept o l a h)

module _ {V : Type 0} (r : Readings) (k : ℕ) (v : V) (l : Locks V) where
  pub fresh-IsKept :
      r.now ≤ r.stamp
      → contains (update_session_locks r l).locked k ≡ false
      → IsKept r.now k v (complete r k v l)
  unfolding complete insert contains
  fresh-IsKept ordered free = rw free (
      young (ground (arith, lookup-emplace ℕ_discrete k k v (update_session_locks r l).locked.map1))
        recent)
    where
      recent :
          elapsed_ms r.now (update_session_locks r l).last_update
          ≤ (update_session_locks r l).release_time
      recent = elim (update_cases r l) [
        | inl (e, same) ↦ rw same e
        | inr (inl (_, _, once)) ↦ rw once (omega arith)
        | inr (inr (_, twice)) ↦ rw twice (omega arith)
      ]

  -- The result of a session that is completed at `r.now` is read back after any later checks and
  -- completions, of this session or of others, whose times lie within the release time of
  -- `r.now`, if the clock does not go back within one of them.
  pub retention :
      (os : List (Op V))
      → r.now ≤ r.stamp
      → contains (update_session_locks r l).locked k ≡ false
      → All (InTime r.now l.release_time) os
      → at (run os (complete r k v l)).locked k ≡ some v
  retention os ordered free times = IsKept-at r.now k v _ (
      run-IsKept r.now k v os (complete r k v l) (rw (release_time-complete r k v l) times)
        (fresh-IsKept ordered free))
