-- ===== src/Locks.antt =====
-- The archive of completed sessions of include/simple_web_game_server/base_server.hpp: the members
-- `m_last_session_update_time`, `m_session_release_time` and `m_locked_sessions`, and
-- `update_session_locks`. Times are nanoseconds, as `high_resolution_clock` counts them.
pub mod Retention
pub mod Expiry
use simple_web_game_server.Prelude.{
  ℕ, ◌-◌, ◌*◌, ◌/◌, ◌≤◌, ◌<◌, ◌≡◌, ◌⊎◌, arith, List, [], ◌∷◌, ltb, if◌then◌else◌,
}
use simple_web_game_server.BufferedMap
use simple_web_game_server.BufferedMap.{BufferedMap}

pub record Locks (V : Type 0) : Type 0 where
  pub last_update : ℕ
  -- in milliseconds
  pub release_time : ℕ
  pub locked : BufferedMap V

-- The two calls of `clock::now()` in one `update_session_locks`.
pub record Readings : Type 0 where
  pub now : ℕ
  pub stamp : ℕ

abbrev pub ns_per_ms : ℕ
ns_per_ms = 1000000

-- `duration_cast<milliseconds>(now - last)`. A clock that went back gives a duration that is not
-- positive, and 0 here: both compare alike with a release time.
abbrev pub elapsed_ms : ℕ → ℕ → ℕ
elapsed_ms now last = (now - last) / ns_per_ms

unfoldable pub update_session_locks : {V : Type 0} → Readings → Locks V → Locks V
update_session_locks r l =
    let delta_time = elapsed_ms r.now l.last_update in
    let once = BufferedMap.clear l.locked in
    if ltb l.release_time delta_time
    then record l {
      locked = if ltb (2 * l.release_time) delta_time then BufferedMap.clear once else once;
      last_update = r.stamp;
    }
    else l

-- The part of `complete_session` that reads and writes the archive: a session that is there keeps
-- its result.
unfoldable pub complete : {V : Type 0} → Readings → ℕ → V → Locks V → Locks V
unfolding update_session_locks
complete r k v l =
    let l' = update_session_locks r l in
    if BufferedMap.contains l'.locked k
    then l'
    else record l' { locked = BufferedMap.insert k v l'.locked }

-- What the server does with the archive over time.
pub data Op (V : Type 0) : Type 0 where
  check : Readings → Op V
  completes : Readings → ℕ → V → Op V

abbrev pub readings : {V : Type 0} → Op V → Readings
readings (check r) = r
readings (completes r k v) = r

unfoldable pub apply : {V : Type 0} → Op V → Locks V → Locks V
unfolding complete
apply (check r) l = update_session_locks r l
apply (completes r k v) l = complete r k v l

unfoldable pub run : {V : Type 0} → List (Op V) → Locks V → Locks V
unfolding apply
run [] l = l
run (o ∷ os) l = run os (apply o l)

module _ {V : Type 0} (r : Readings) (l : Locks V) where
  -- The three ways through `update_session_locks`.
  update_cases :
      ((elapsed_ms r.now l.last_update ≤ l.release_time) × (update_session_locks r l ≡ l))
      ⊎ ((l.release_time < elapsed_ms r.now l.last_update)
          × (elapsed_ms r.now l.last_update ≤ 2 * l.release_time)
          × (update_session_locks r l
              ≡ record l { locked = BufferedMap.clear l.locked; last_update = r.stamp }))
      ⊎ ((2 * l.release_time < elapsed_ms r.now l.last_update)
          × (update_session_locks r l ≡ record l {
            locked = BufferedMap.clear (BufferedMap.clear l.locked);
            last_update = r.stamp;
          }))
  unfolding update_session_locks
  update_cases = ground arith

module _ {V : Type 0} (r : Readings) (l : Locks V) where
  update_early : elapsed_ms r.now l.last_update ≤ l.release_time → update_session_locks r l ≡ l
  unfolding update_session_locks
  update_early h = ground arith

  update_once :
      l.release_time < elapsed_ms r.now l.last_update
      → elapsed_ms r.now l.last_update ≤ 2 * l.release_time
      → update_session_locks r l
        ≡ record l { locked = BufferedMap.clear l.locked; last_update = r.stamp }
  unfolding update_session_locks
  update_once h k = ground arith

module _ {V : Type 0} where
  release_time-update :
      (r : Readings) (l : Locks V) → (update_session_locks r l).release_time ≡ l.release_time
  unfolding update_session_locks
  release_time-update r l = ground arith

  pub release_time-complete :
      (r : Readings) (j : ℕ) (w : V) (l : Locks V)
      → (complete r j w l).release_time ≡ l.release_time
  unfolding complete
  release_time-complete r j w l = ground (arith, release_time-update r l)

  pub release_time-apply : (o : Op V) (l : Locks V) → (apply o l).release_time ≡ l.release_time
  unfolding apply
  release_time-apply (check r) l = release_time-update r l
  release_time-apply (completes r j w) l = release_time-complete r j w l
