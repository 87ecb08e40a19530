-- ===== src/Base/Directory.antt =====
-- What the two tables of include/simple_web_game_server/base_server.hpp are for: a directory of the
-- clients on connections, which logins, ends of connections and stops change.
pub mod Histories
use mathlib.Core.Path.{fun_ext}
use simple_web_game_server.Prelude.{
  ℕ, ◌≡◌, ◌↔◌, refl, sym, ap, ◌∙◌, inl, inr, ite, Bool, true, false, String, Option, none, some,
  List, [], ◌∷◌, arith, or_some, if◌then◌else◌, ℕ_discrete, Bool-cases, Option-cases,
}
use simple_web_game_server.Prelude.Assoc.{lookup, erase, emplace, lookup-erase, lookup-emplace}
use simple_web_game_server.BufferedMap
use simple_web_game_server.Locks.{Readings, update_session_locks}
use simple_web_game_server.Base.{
  CombinedId, id_discrete, ActionType, subscribe, unsubscribe, in_message, out_message,
  close_connection, Action, Server, Env, init, send_to_hdl, close_hdl,
}
use simple_web_game_server.Base.Invariant.{
  IsValid, live_step-IsValid, live-init-IsValid, empty-IsLinked,
}
use simple_web_game_server.Base.Lifecycle.{
  Event, acts, starts, stops, resets, run, shut_down, stop, reset, live_step, live,
}
use simple_web_game_server.Base.Link.{
  get_connection_hdl_from_id, send_message, drop_duplicate, setup_connection_id, player_disconnect,
}
use simple_web_game_server.Base.Login.{
  Times, Checked, valid, failed, Checked-cases, read_token, with_locks, resend_result, join_session,
  open_session, resend_result_cases,
}
use simple_web_game_server.Base.Sessions.{complete_session}
use simple_web_game_server.Base.Completion.{close_players_lem}
use simple_web_game_server.Base.Worker.{
  Input, opened, closed, received, http, works, sends, completes, on_open, on_close, on_message,
  on_http, process_unsubscribe, process_in_message, process_action, work, step,
}

-- Who is on a connection.
abbrev pub Directory : Type 0
Directory = ℕ → Option CombinedId

abbrev is_client : CombinedId → Option CombinedId → Bool
is_client id none = false
is_client id (some j) = elim (id_discrete id j) [ yes p ↦ true | no n ↦ false ]

-- What a step of the server means to the directory.
pub data Change : Type 0 where
  nothing : Change
  enters : ℕ → CombinedId → Change
  leaves : ℕ → Change
  all_leave : Change

-- A client is on one connection: where it enters another one, it is on the first no more.
pub change : Change → Directory → Directory
change nothing who h = who h
change (enters hdl id) who h =
    ite (ℕ_discrete hdl h) (some id) (if is_client id (who h) then none else who h)
change (leaves hdl) who h = ite (ℕ_discrete hdl h) none (who h)
change all_leave who h = none

abbrev pub directory : {J H : Type 0} → Server J H → Directory
directory s h = lookup ℕ_discrete h s.connection_ids

abbrev login_change : ℕ → Option CombinedId → Option CombinedId → Change
login_change hdl (some id) o = nothing
login_change hdl none none = nothing
login_change hdl none (some id) = enters hdl id

module _ {J Jwt H : Type 0} (env : Env J Jwt) where
  -- The client that a text lets in, if it is a token of a session that is not over.
  pub admitted : Times → String → Server J H → Option CombinedId
  admitted t msg s = elim (read_token env t.jwt_now msg) [
    | failed e ↦ none
    | valid (id, d) ↦
        if BufferedMap.contains (update_session_locks t.locks s.locks).locked id.session
        then none
        else some id
  ]

  -- The end of a connection takes its client out; a first message that lets a client in enters it.
  pub meaning : Times → ActionType → ℕ → String → Server J H → Change
  unfolding admitted
  meaning t unsubscribe hdl msg s = leaves hdl
  meaning t in_message hdl msg s = login_change hdl (directory s hdl) (admitted t msg s)
  meaning t _ hdl msg s = nothing

  setup-directory :
      (reason : String) (hdl : ℕ) (id : CombinedId) (s : Server J H) (h : ℕ)
      → IsValid s
      → directory s hdl ≡ none
      → directory (setup_connection_id reason hdl id s) h ≡ change (enters hdl id) (directory s) h
  unfolding setup_connection_id drop_duplicate change close_hdl
  setup-directory reason hdl id s h v new =
      elim (Option-cases (lookup id_discrete id s.id_connections)) [
        | inl absent ↦
            rw (absent, drop_duplicate)
              (ground (arith, lookup-emplace ℕ_discrete hdl h id s.connection_ids, v.ids h id))
        | inr (old, there) ↦
            rw (there, drop_duplicate)
              (ground (
                arith,
                lookup-emplace ℕ_discrete hdl h id (erase ℕ_discrete old s.connection_ids),
                lookup-erase ℕ_discrete old h s.connection_ids,
                v.ids h id,
                v.hdls id old there,
              ))
      ]

  open-directory :
      (t : Times) (hdl : ℕ) (msg : String) (s : Server J H) (h : ℕ)
      → IsValid s
      → directory s hdl ≡ none
      → directory (open_session env t hdl msg s) h
        ≡ change (login_change hdl none (admitted t msg s)) (directory s) h
  unfolding open_session admitted join_session close_hdl change
  open-directory t hdl msg s h v new = elim (Checked-cases (read_token env t.jwt_now msg)) [
    | inl (e, bad) ↦ rw (bad, open_session, admitted) refl
    | inr ((id, d), good) ↦
        elim (Bool-cases
          (BufferedMap.contains (update_session_locks t.locks s.locks).locked id.session)) [
            | inl over ↦
                rw (good, open_session, admitted, over)
                  (resend_result_cases env (λ s'. directory s' h ≡ directory s h) hdl id
                    (with_locks t s) refl (λ m r. refl))
            | inr free ↦
                rw (good, open_session, admitted, free)
                  (setup-directory env.reasons.duplicate_connection hdl id (with_locks t s) h v new)
          ]
  ]

  pub process_action-directory :
      (t : Times) (type : ActionType) (hdl : ℕ) (msg : String) (s : Server J H) (h : ℕ)
      → IsValid s
      → directory (process_action env t type hdl msg s) h
        ≡ change (meaning t type hdl msg s) (directory s) h
  unfolding process_action process_unsubscribe process_in_message player_disconnect meaning change
      send_to_hdl close_hdl
  process_action-directory t subscribe hdl msg s h v = refl
  process_action-directory t unsubscribe hdl msg s h v =
      elim (Option-cases (lookup ℕ_discrete hdl s.connection_ids)) [
        | inl e ↦ rw (e, process_unsubscribe) (ground arith)
        | inr (id, e) ↦ rw (e, process_unsubscribe) (lookup-erase ℕ_discrete hdl h s.connection_ids)
      ]
  process_action-directory t in_message hdl msg s h v =
      elim (Option-cases (lookup ℕ_discrete hdl s.connection_ids)) [
        | inl e ↦ rw (e, process_in_message, meaning) (open-directory t hdl msg s h v e)
        | inr (id, e) ↦ rw (e, process_in_message, meaning) refl
      ]
  process_action-directory t out_message hdl msg s h v = refl
  process_action-directory t close_connection hdl msg s h v = refl
