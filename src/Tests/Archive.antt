-- ===== src/Tests/Archive.antt =====
-- Runs of the archive of completed sessions.
use simple_web_game_server.Prelude.{ℕ, ◌≡◌, refl, false, none, some, [], ◌∷◌, arith}
use simple_web_game_server.Prelude.Assoc.{lookup}
use simple_web_game_server.BufferedMap.{at, contains}
use simple_web_game_server.Locks.{Locks, check, completes, update_session_locks, complete, run}
use simple_web_game_server.Locks.Retention.{retention}
use simple_web_game_server.Locks.Expiry.{expiry, moment, cleared_at}

-- an archive of numbers, cleared at 3 milliseconds, with a release time of 10
abbrev archive : Locks ℕ
archive = cleared_at 3000000 10

archive-free : contains (update_session_locks (moment 4000000) archive).locked 9 ≡ false
unfolding update_session_locks contains lookup
archive-free = refl

retention_example :
    at
      (run
        (check (moment 5000000) ∷ completes (moment 14000000) 9 8 ∷ [])
        (complete (moment 4000000) 9 7 archive)).locked
      9
    ≡ some 7
retention_example =
    retention (moment 4000000) 9 7 archive
      (check (moment 5000000) ∷ completes (moment 14000000) 9 8 ∷ []) (omega arith) archive-free
      ((omega arith, omega arith, omega arith), ((omega arith, omega arith, omega arith), tt))

expiry_example :
    at
      (update_session_locks
        (moment 90000000)
        (run (completes (moment 14000000) 8 5 ∷ []) (complete (moment 4000000) 9 7 archive))).locked
      9
    ≡ none
expiry_example =
    expiry (moment 4000000) 9 7 archive 0 (completes (moment 14000000) 8 5 ∷ []) (moment 90000000)
      (omega arith) ((omega arith, omega arith), tt) (omega arith)
