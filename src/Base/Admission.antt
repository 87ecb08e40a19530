-- ===== src/Base/Admission.antt =====
-- Which connections `open_session` of include/simple_web_game_server/base_server.hpp gives an id.
use mathlib.Core.Option.{some-injective, none-ne-some}
use simple_web_game_server.Prelude.{
  subst, ℕ, ◌≡◌, ◌↔◌, refl, sym, ap, ◌∙◌, inl, inr, Bool, true, false, String, Option, none, some,
  arith, ℕ_discrete, if_pos, Option-cases, or_some,
}
use simple_web_game_server.Prelude.Assoc.{
  Assoc, lookup, erase, emplace, lookup-emplace, lookup-erase,
}
use simple_web_game_server.BufferedMap
use simple_web_game_server.Locks.{update_session_locks}
use simple_web_game_server.Base.{CombinedId, id_discrete, Server, Env, send_to_hdl, close_hdl}
use simple_web_game_server.Base.Link.{drop_duplicate, setup_connection_id}
use simple_web_game_server.Base.Login.{
  Times, Checked, valid, failed, read_token, with_locks, resend_result, join_session, open_session,
  open_session_cases, resend_result_cases,
}

same_id :
    {J : Type 0} (c : Checked (CombinedId × J)) (id id0 : CombinedId) (d d0 : J)
    → c ≡ valid (id, d)
    → c ≡ valid (id0, d0)
    → id ≡ id0
same_id {J} c id id0 d d0 e f = ap id_of (sym e ∙ f)
  where
    id_of : Checked (CombinedId × J) → CombinedId
    id_of (valid x) = x.0
    id_of (failed error) = id

module _ {J Jwt H : Type 0} (env : Env J Jwt) (t : Times) (hdl : ℕ) (token : String)
    (s : Server J H) (new : lookup ℕ_discrete hdl s.connection_ids ≡ none) where
  join-entered :
      (id : CombinedId) (d : J)
      → lookup ℕ_discrete hdl (join_session env hdl id d (with_locks t s)).connection_ids ≡ some id
  unfolding join_session setup_connection_id close_hdl
  join-entered id d = elim (Option-cases (lookup id_discrete id s.id_connections)) [
    | inl e ↦ rw (e, drop_duplicate) (entered s.connection_ids new)
    | inr (old, e) ↦
        rw (e, drop_duplicate)
          (entered (erase ℕ_discrete old s.connection_ids)
            (ground (arith, lookup-erase ℕ_discrete old hdl s.connection_ids)))
  ]
    where
      entered :
          (m : Assoc ℕ CombinedId)
          → lookup ℕ_discrete hdl m ≡ none
          → lookup ℕ_discrete hdl (emplace ℕ_discrete hdl id m) ≡ some id
      entered m absent =
          lookup-emplace ℕ_discrete hdl hdl id m
          ∙ if_pos (ℕ_discrete hdl hdl) refl _ _
          ∙ ap (λ o. or_some o id) absent

  -- The token proves the id, and the session of the id is not over.
  abbrev pub Admitted : CombinedId → Type 0
  Admitted id =
      (d : J) × (read_token env t.jwt_now token ≡ valid (id, d))
      × (BufferedMap.contains (update_session_locks t.locks s.locks).locked id.session ≡ false)

  abbrev is_over : ℕ → Bool
  is_over sid = BufferedMap.contains (update_session_locks t.locks s.locks).locked sid

  not_entered :
      (id : CombinedId)
      → lookup ℕ_discrete hdl (resend_result env hdl id (with_locks t s)).connection_ids ≡ none
  unfolding close_hdl send_to_hdl
  not_entered id =
      resend_result_cases env (λ s'. lookup ℕ_discrete hdl s'.connection_ids ≡ none) hdl id
        (with_locks t s) new (λ msg reason. new)

  no_some : {o : Option CombinedId} {id : CombinedId} → o ≡ none → o ≡ some id → ⊥
  no_some {id = id} e f = none-ne-some id (sym e ∙ f)

  no_both : {b c : Bool} → b ≡ c → b ≡ true → c ≡ false → ⊥
  no_both e f g = ground (arith, e, f, g)

  -- A connection without an id has an id after its message was read as a token, if and only if the
  -- token proves that id and the session is not over.
  pub admission :
      (id : CombinedId)
      → (lookup ℕ_discrete hdl (open_session env t hdl token s).connection_ids ≡ some id)
        ↔ Admitted id
  unfolding close_hdl send_to_hdl
  admission =
      open_session_cases env
        (λ s'.
          (id : CombinedId) → (lookup ℕ_discrete hdl s'.connection_ids ≡ some id) ↔ Admitted id)
        t hdl token s
        (λ e bad id.
          ((λ h. absurd (ground (arith, new))), (λ (d, good, _). absurd (ground (arith)))))
        (λ id0 d0 good over id. (
          (λ h. absurd (no_some (not_entered id0) h)),
          (λ (d, good2, open_still). absurd (
              no_both
                (ap (λ (i : CombinedId). is_over i.session) (same_id _ id0 id d0 d good good2)) over
                open_still)),
        ))
        (λ id0 d0 good free id. (
          (λ h.
              subst Admitted (some-injective id0 id (sym (join-entered id0 d0) ∙ h))
                (d0, good, free)),
          (λ (d, good2, _). join-entered id0 d0 ∙ ap some (same_id _ id0 id d0 d good good2)),
        ))
