-- ===== src/TicTacToe/Service/Sessions.antt =====
-- The players of the service of examples/tic_tac_toe/matchmaking_server/matchmaking_server.cpp over
-- histories of requests.
use simple_web_game_server.Prelude.{
  ℕ, suc, ◌+◌, ◌≤◌, ◌<◌, ◌^◌, ◌≡◌, ◌≢◌, ◌⊎◌, some, sym, ap, subst, ◌∙◌, inl, inr, true, List, [],
  ◌∷◌, ◌++◌, arith, length, length-append, get_elem?, modify, length-modify, get_elem?-modify_inv,
  get_elem?-snoc_inv,
}
use simple_web_game_server.Base.Link.{size_mod, incr}
use simple_web_game_server.TicTacToe.Service.{
  max_pids, PlayerData, Service, Tokens, Doubles, Files, init,
}
use simple_web_game_server.TicTacToe.Service.Routes.{new_player, enlisted}
use simple_web_game_server.TicTacToe.Service.Handler.{Request, http_handler}
use simple_web_game_server.TicTacToe.Service.Changes.{
  Relaxed, Change, relaxes, signs_up, enlists, http_handler-Change,
}

-- After `n` requests.
pub record IsRegistered (n : ℕ) (s : Service) : Type 0 where
  pub sized : length s.player_database ≤ max_pids
  pub counted : s.session_count ≤ n
  pub issued :
      (i : ℕ) (p : PlayerData)
      → get_elem? s.player_database i ≡ some p
      → p.matchmaking ≡ true
      → p.sid < s.session_count
  pub distinct :
      (i j : ℕ) (p q : PlayerData)
      → i ≢ j
      → get_elem? s.player_database i ≡ some p
      → get_elem? s.player_database j ≡ some q
      → p.matchmaking ≡ true
      → q.matchmaking ≡ true
      → p.sid ≢ q.sid

init-IsRegistered : IsRegistered 0 init
init-IsRegistered = record {
  sized = omega arith;
  counted = omega arith;
  issued = λ i p e m. absurd (ground arith);
  distinct = λ i j p q n e f m k. absurd (ground arith);
}

module _ (n : ℕ) (s : Service) where
  relaxes-IsRegistered :
      (s' : Service)
      → s'.session_count ≡ s.session_count
      → Relaxed s.player_database s'.player_database
      → IsRegistered n s
      → IsRegistered (suc n) s'
  relaxes-IsRegistered s' same r v = record {
    sized = omega (arith, r.0, v.sized);
    counted = omega (arith, v.counted);
    issued =
        λ i p e m. let (q, f, k, h) = r.1 i p e in omega (arith, v.issued i q f (h m), k, same);
    distinct = λ i j p p' ne e e' m m' same_sid.
        let (q, f, k, h) = r.1 i p e in
        let (q', f', k', h') = r.1 j p' e' in
        v.distinct i j q q' ne f f' (h m) (h' m') (sym k ∙ same_sid ∙ k');
  }

  signs_up-IsRegistered :
      length s.player_database < max_pids
      → IsRegistered n s
      → IsRegistered (suc n) (record s { player_database = s.player_database ++ new_player ∷ [] })
  signs_up-IsRegistered room v = record {
    sized = omega (arith, length-append s.player_database (new_player ∷ []));
    counted = omega (arith, v.counted);
    issued = λ i p e m. v.issued i p (old i p e m) m;
    distinct = λ i j p q ne e f m k. v.distinct i j p q ne (old i p e m) (old j q f k) m k;
  }
    where
      -- who is matchmaking was there before
      old :
          (i : ℕ) (p : PlayerData)
          → get_elem? (s.player_database ++ new_player ∷ []) i ≡ some p
          → p.matchmaking ≡ true
          → get_elem? s.player_database i ≡ some p
      old i p e m = elim (get_elem?-snoc_inv s.player_database new_player p i e) [
        | inl h ↦ h
        | inr (_, h) ↦ absurd (ground arith)
      ]

  -- an entry after a login: the new one, or one that was there
  enlisting_cases :
      (now pid i : ℕ) (p : PlayerData)
      → get_elem? (modify pid (enlisted now s) s.player_database) i ≡ some p
      → ((pid ≡ i) × (p.sid ≡ s.session_count)) ⊎ (get_elem? s.player_database i ≡ some p)
  enlisting_cases now pid i p e =
      let (q, f, cases) = get_elem?-modify_inv pid i (enlisted now s) s.player_database p e in
      elim cases [
        | inl (k, h) ↦ inl (k, ap (λ (x : PlayerData). x.sid) h)
        | inr (_, h) ↦ inr (f ∙ ap some (sym h))
      ]

  enlists-IsRegistered :
      (now pid : ℕ)
      → suc n < size_mod
      → IsRegistered n s
      → IsRegistered (suc n) (record s {
        session_count = incr s.session_count;
        player_database = modify pid (enlisted now s) s.player_database;
      })
  enlists-IsRegistered now pid few v = record {
    sized = omega (arith, length-modify pid (enlisted now s) s.player_database, v.sized);
    counted = omega (arith, v.counted);
    issued = λ i p e m. elim (enlisting_cases now pid i p e) [
      | inl (_, h) ↦ omega (arith, v.counted)
      | inr h ↦ omega (arith, v.counted, v.issued i p h m)
    ];
    distinct = λ i j p q ne e f m k. elim (enlisting_cases now pid i p e) [
      | inl (x, h) ↦ elim (enlisting_cases now pid j q f) [
        | inl (y, _) ↦ absurd (ne (sym x ∙ y))
        | inr g ↦ omega (arith, v.issued j q g k)
      ]
      | inr h ↦ elim (enlisting_cases now pid j q f) [
        | inl (_, g) ↦ omega (arith, v.issued i p h m)
        | inr g ↦ v.distinct i j p q ne h g m k
      ]
    ];
  }

  Change-IsRegistered :
      (s' : Service) → Change s s' → suc n < size_mod → IsRegistered n s → IsRegistered (suc n) s'
  Change-IsRegistered s' (relaxes same r) few v = relaxes-IsRegistered s' same r v
  Change-IsRegistered s' (signs_up room e) few v =
      subst (IsRegistered (suc n)) (sym e) (signs_up-IsRegistered room v)
  Change-IsRegistered s' (enlists now pid p _ _ e) few v =
      subst (IsRegistered (suc n)) (sym e) (enlists-IsRegistered now pid few v)

module _ {J Jwt D FilePath : Type 0} (api : Tokens J Jwt D) (reals : Doubles D)
    (files : Files FilePath) where
  -- the state after some requests
  abbrev pub served : List Request → Service → Service
  served [] s = s
  served (req ∷ reqs) s = served reqs (http_handler api reals files req s).0

  served-IsRegistered :
      (reqs : List Request) (n : ℕ) (s : Service)
      → n + length reqs < size_mod
      → IsRegistered n s
      → IsRegistered (n + length reqs) (served reqs s)
  served-IsRegistered [] n s few v = subst (λ k. IsRegistered k s) (omega arith) v
  served-IsRegistered (req ∷ reqs) n s few v =
      subst (λ k. IsRegistered k (served (req ∷ reqs) s)) (omega arith)
        (served-IsRegistered reqs (suc n) (http_handler api reals files req s).0 (omega arith) (
          Change-IsRegistered n s (http_handler api reals files req s).0
            (http_handler-Change api reals files req s) (omega arith) v))

  -- After fewer than 2^64 requests to a new service there are at most ten million players, as many
  -- sessions as requests at most, and the players that are matchmaking have sessions that were
  -- given out, no two of them the same.
  pub sessions_differ :
      (reqs : List Request) → length reqs < 2 ^ 64 → IsRegistered (length reqs) (served reqs init)
  sessions_differ reqs few =
      subst (λ k. IsRegistered k (served reqs init)) (omega arith)
        (served-IsRegistered reqs 0 init (omega arith) init-IsRegistered)
