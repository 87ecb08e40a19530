-- ===== src/Locks/Expiry.antt =====
-- How long the archive of include/simple_web_game_server/base_server.hpp keeps a result at most.
use simple_web_game_server.Prelude.{
  ℕ, ◌+◌, ◌*◌, ◌≤◌, ◌<◌, ◌≡◌, ◌≢◌, refl, ◌∙◌, inl, inr, none, some, [], ◌∷◌, List, All, arith,
  ℕ_discrete, Bool-cases, if_pos,
}
use simple_web_game_server.Prelude.Assoc.{lookup, emplace, lookup-emplace}
use simple_web_game_server.BufferedMap
use simple_web_game_server.BufferedMap.{contains, insert, at, clear}
use simple_web_game_server.BufferedMap.Laws.{at-clear_twice}
use simple_web_game_server.Locks.{
  Locks, Readings, Op, check, completes, ns_per_ms, elapsed_ms, update_session_locks, complete,
  apply, run, update_cases, update_early, update_once, release_time-complete, release_time-apply,
}

-- Since `s0` the session `k` was not completed again: nothing was cleared yet, or one clearing has
-- moved it to the second map, or it is gone.
data IsFading {V : Type 0} (s0 gap k : ℕ) (l : Locks V) : Type 0 where
  fresh : l.last_update ≤ s0 → IsFading s0 gap k l
  moved :
      lookup ℕ_discrete k l.locked.map1 ≡ none
      → l.last_update < s0 + (2 * l.release_time + 1) * ns_per_ms + gap
      → IsFading s0 gap k l
  gone : at l.locked k ≡ none → IsFading s0 gap k l

module _ {V : Type 0} (k : ℕ) (b : BufferedMap.BufferedMap V) where
  map1-clear : lookup ℕ_discrete k (clear b).map1 ≡ none
  unfolding clear lookup
  map1-clear = refl

  at-clear_second : lookup ℕ_discrete k b.map1 ≡ none → at (clear b) k ≡ none
  unfolding at clear lookup
  at-clear_second h = ground arith

  map1-of_at : at b k ≡ none → lookup ℕ_discrete k b.map1 ≡ none
  unfolding at
  map1-of_at h = ground arith

  map1-insert_ne :
      (j : ℕ) (w : V) → j ≢ k → lookup ℕ_discrete k (insert j w b).map1 ≡ lookup ℕ_discrete k b.map1
  unfolding insert
  map1-insert_ne j w ne = ground (arith, lookup-emplace ℕ_discrete j k w b.map1)

  at-insert_ne : (j : ℕ) (w : V) → j ≢ k → at (insert j w b) k ≡ at b k
  unfolding insert at
  at-insert_ne j w ne = ground (arith, lookup-emplace ℕ_discrete j k w b.map1)

module _ {V : Type 0} (s0 gap k : ℕ) where
  update-IsFading :
      (r : Readings) (l : Locks V)
      → r.stamp ≤ r.now + gap
      → IsFading s0 gap k l
      → IsFading s0 gap k (update_session_locks r l)
  update-IsFading r l quick f = elim (update_cases r l) [
    | inl (_, same) ↦ rw same f
    | inr (inl (_, soon, once)) ↦ rw once (one f soon)
    | inr (inr (_, twice)) ↦ rw twice (gone (at-clear_twice l.locked k))
  ]
    where
      one :
          IsFading s0 gap k l
          → elapsed_ms r.now l.last_update ≤ 2 * l.release_time
          → IsFading s0 gap k (record l { locked = clear l.locked; last_update = r.stamp })
      one (fresh e) soon = moved (map1-clear k l.locked) (omega arith)
      one (moved h e) soon = gone (at-clear_second k l.locked h)
      one (gone h) soon = gone (at-clear_second k l.locked (map1-of_at k l.locked h))

  insert-IsFading :
      (j : ℕ) (w : V) (l : Locks V)
      → j ≢ k
      → IsFading s0 gap k l
      → IsFading s0 gap k (record l { locked = insert j w l.locked })
  insert-IsFading j w l ne (fresh e) = fresh e
  insert-IsFading j w l ne (moved h e) = moved (rw (map1-insert_ne k l.locked j w ne) h) e
  insert-IsFading j w l ne (gone h) = gone (rw (at-insert_ne k l.locked j w ne) h)

  complete-IsFading :
      (r : Readings) (j : ℕ) (w : V) (l : Locks V)
      → j ≢ k
      → IsFading s0 gap k (update_session_locks r l)
      → IsFading s0 gap k (complete r j w l)
  unfolding complete
  complete-IsFading r j w l ne f =
      elim (Bool-cases (contains (update_session_locks r l).locked j)) [
        | inl there ↦ rw there f
        | inr free ↦ rw free (insert-IsFading j w (update_session_locks r l) ne f)
      ]

-- An operation that does not complete the session `k`, and whose second reading of the clock is at
-- most `gap` after its first.
abbrev pub Spares : {V : Type 0} → ℕ → ℕ → Op V → Type 0
Spares gap k (check r) = r.stamp ≤ r.now + gap
Spares gap k (completes r j w) = (j ≢ k) × (r.stamp ≤ r.now + gap)

module _ {V : Type 0} (s0 gap k : ℕ) where
  apply-IsFading :
      (o : Op V) (l : Locks V)
      → Spares gap k o
      → IsFading s0 gap k l
      → IsFading s0 gap k (apply o l)
  unfolding apply
  apply-IsFading (check r) l quick f = update-IsFading s0 gap k r l quick f
  apply-IsFading (completes r j w) l (ne, quick) f =
      complete-IsFading s0 gap k r j w l ne (update-IsFading s0 gap k r l quick f)

  run-IsFading :
      (os : List (Op V)) (l : Locks V)
      → All (Spares gap k) os
      → IsFading s0 gap k l
      → IsFading s0 gap k (run os l)
  unfolding run
  run-IsFading [] l _ f = f
  run-IsFading (o ∷ os) l (a, rest) f = run-IsFading os (apply o l) rest (apply-IsFading o l a f)

  release_time-run : (os : List (Op V)) (l : Locks V) → (run os l).release_time ≡ l.release_time
  unfolding run
  release_time-run [] l = refl
  release_time-run (o ∷ os) l = release_time-run os (apply o l) ∙ release_time-apply o l

  last_check :
      (e : Readings) (l : Locks V)
      → s0 + (3 * l.release_time + 2) * ns_per_ms + gap ≤ e.now
      → IsFading s0 gap k l
      → at (update_session_locks e l).locked k ≡ none
  last_check e l late f = elim (update_cases e l) [
    | inl (early, same) ↦ rw same (still f early)
    | inr (inl (_, soon, once)) ↦ rw once (one f soon)
    | inr (inr (_, twice)) ↦ rw twice (at-clear_twice l.locked k)
  ]
    where
      still :
          IsFading s0 gap k l
          → elapsed_ms e.now l.last_update ≤ l.release_time
          → at l.locked k ≡ none
      still (fresh h) early = absurd (omega arith)
      still (moved h b) early = absurd (omega arith)
      still (gone h) early = h

      one :
          IsFading s0 gap k l
          → elapsed_ms e.now l.last_update ≤ 2 * l.release_time
          → at (clear l.locked) k ≡ none
      one (fresh h) soon = absurd (omega arith)
      one (moved h b) soon = at-clear_second k l.locked h
      one (gone h) soon = at-clear_second k l.locked (map1-of_at k l.locked h)

module _ {V : Type 0} (r : Readings) (k : ℕ) (v : V) (l : Locks V) where
  last_update-complete : l.last_update ≤ r.stamp → (complete r k v l).last_update ≤ r.stamp
  unfolding complete update_session_locks
  last_update-complete h = ground arith

  -- Whatever checks and completions of other sessions follow the completion of `k`, the first
  -- check later than three release times (and two milliseconds, and the gap between the two
  -- readings of the clock) after it leaves no result for `k`.
  pub expiry :
      (gap : ℕ) (os : List (Op V)) (e : Readings)
      → l.last_update ≤ r.stamp
      → All (Spares gap k) os
      → r.stamp + (3 * l.release_time + 2) * ns_per_ms + gap ≤ e.now
      → at (update_session_locks e (run os (complete r k v l))).locked k ≡ none
  expiry gap os e past spares late =
      last_check r.stamp gap k e _
        (omega (
          arith,
          release_time-run r.stamp gap k os (complete r k v l),
          release_time-complete r k v l,
        ))
        (run-IsFading r.stamp gap k os _ spares (fresh (last_update-complete past)))

-- The state of the archive right after a clearing at `t`.
abbrev pub cleared_at : {V : Type 0} → ℕ → ℕ → Locks V
cleared_at t release = record {
  last_update = t;
  release_time = release;
  locked = record { map1 = []; map2 = [] };
}

-- Both readings of the clock at one moment.
abbrev pub moment : ℕ → Readings
moment t = record { now = t; stamp = t }

abbrev holding : {V : Type 0} → ℕ → ℕ → ℕ → V → Locks V
holding t release k v = record {
  last_update = t;
  release_time = release;
  locked = record { map1 = (k, v) ∷ []; map2 = [] };
}

complete-cleared_at :
    {V : Type 0} (t release k : ℕ) (v : V)
    → complete (moment t) k v (cleared_at t release) ≡ holding t release k v
unfolding complete insert contains lookup emplace
complete-cleared_at {V} t release k v =
    rw (update_early {V = V} (moment t) (cleared_at t release) (omega arith)) refl

-- A result can outlive two release times, whatever the release time: of a session that completes
-- right after a clearing, the result is there after a check three release times later, and a check
-- two release times later has been made too.
pub outlives :
    {V : Type 0} (t release k : ℕ) (v : V)
    → 0 < release
    → at
        (run
          (completes (moment t) k v
            ∷ check (moment (t + 2 * release * ns_per_ms))
            ∷ check (moment (t + 3 * release * ns_per_ms))
            ∷ [])
          (cleared_at t release)).locked
        k
      ≡ some v
unfolding run at clear lookup
outlives t release k v h =
    rw
      (
        complete-cleared_at t release k v,
        update_once (moment (t + 2 * release * ns_per_ms)) (holding t release k v) (omega arith)
            (omega arith),
        update_early (moment (t + 3 * release * ns_per_ms))
            (record (holding t release k v) {
              locked = clear (holding t release k v).locked;
              last_update = t + 2 * release * ns_per_ms;
            })
            (omega arith),
      )
      (if_pos (ℕ_discrete k k) refl _ _)
