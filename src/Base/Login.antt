-- ===== src/Base/Login.antt =====
-- `open_session` of include/simple_web_game_server/base_server.hpp: the first message of a
-- connection is its token.
use simple_web_game_server.Prelude.{
  ℕ, ◌≡◌, refl, ◌⊎◌, inl, inr, Bool-cases, Option-cases, Bool, true, false, String, Option, none,
  some, [], if◌then◌else◌, ℕ_discrete,
}
use simple_web_game_server.Prelude.Assoc.{update}
use simple_web_game_server.Prelude.NatSet
use simple_web_game_server.BufferedMap
use simple_web_game_server.Locks.{Readings, update_session_locks}
use simple_web_game_server.Base.{CombinedId, Server, Env, send_to_hdl, close_hdl}
use simple_web_game_server.Base.Link.{setup_connection_id}

-- The exceptions that a login can meet, one for each `catch`.
pub data LoginError : Type 0 where
  out_of_range token_verification invalid_argument other_exception : LoginError

pub data Checked (A : Type 0) : Type 0 where
  valid : A → Checked A
  failed : LoginError → Checked A

infixl 5 ◌>>=◌ ◌>>◌
abbrev pub ◌>>=◌ : {A B : Type 0} → Checked A → (A → Checked B) → Checked B
valid a >>= f = f a
failed e >>= f = failed e

abbrev pub ◌>>◌ : {B : Type 0} → Checked (Unit {0}) → Checked B → Checked B
m >> k = m >>= λ _. k

abbrev pub or_throw : {A : Type 0} → LoginError → Option A → Checked A
or_throw e none = failed e
or_throw e (some a) = valid a

abbrev pub require : LoginError → Bool → Checked (Unit {0})
require e true = valid tt
require e false = failed e

pub Checked-cases :
    {A : Type 0} (c : Checked A) → ((e : LoginError) × (c ≡ failed e)) ⊎ ((a : A) × (c ≡ valid a))
Checked-cases (valid a) = inr (a, refl)
Checked-cases (failed e) = inl (e, refl)

-- The times that one action reads: those of the archive, and the clock of the verifier.
pub record Times : Type 0 where
  pub locks : Readings
  pub jwt_now : ℕ

module _ {J Jwt : Type 0} (env : Env J Jwt) where
  open env use {decode, verify, claim, parse_player_id, parse_session_id}

  -- the body of the `try`
  unfoldable pub read_token : ℕ → String → Checked (CombinedId × J)
  read_token jwt_now login_token = do
    decoded_token ← or_throw invalid_argument (decode login_token)
    require token_verification (verify jwt_now decoded_token)
    pid_json ← or_throw out_of_range (claim decoded_token "pid")
    pid ← or_throw other_exception (parse_player_id pid_json)
    sid_json ← or_throw out_of_range (claim decoded_token "sid")
    sid ← or_throw other_exception (parse_session_id sid_json)
    login_json ← or_throw out_of_range (claim decoded_token "data")
    valid (record { player = pid; session = sid }, login_json)

abbrev pub with_locks : {J H : Type 0} → Times → Server J H → Server J H
with_locks t s = record s { locks = update_session_locks t.locks s.locks }

module _ {J Jwt H : Type 0} (env : Env J Jwt) where
  open env use {get_result_str, reasons}

  -- The session is over: its result goes out once more.
  unfoldable pub resend_result : ℕ → CombinedId → Server J H → Server J H
  unfolding send_to_hdl close_hdl
  resend_result hdl id s = elim (BufferedMap.at s.locks.locked id.session) [
    | some d ↦
        let told : CombinedId = record { player = id.player; session = d.session } in
        close_hdl hdl reasons.session_complete (send_to_hdl hdl (get_result_str told d.result) s)
    -- std::out_of_range: the caller has asked `contains`
    | none ↦ s
  ]

  unfoldable pub join_session : ℕ → CombinedId → J → Server J H → Server J H
  unfolding setup_connection_id
  join_session hdl id login_json s =
      let s1 = setup_connection_id reasons.duplicate_connection hdl id s in
      record s1 {
        session_players =
            update ℕ_discrete id.session [] (NatSet.insert id.player) s1.session_players;
        app = s1.handlers.handle_open id login_json s1.app;
      }

  unfoldable pub open_session : Times → ℕ → String → Server J H → Server J H
  unfolding read_token resend_result join_session close_hdl
  open_session t hdl login_token s = elim (read_token env t.jwt_now login_token) [
    | failed e ↦ close_hdl hdl reasons.invalid_jwt s
    | valid (id, login_json) ↦
        let s1 = with_locks t s in
        if BufferedMap.contains s1.locks.locked id.session
        then resend_result hdl id s1
        else join_session hdl id login_json s1
  ]

  -- The three ways through `open_session`.
  pub open_session_cases {ℓ} :
      (P : Server J H → Type ℓ) (t : Times) (hdl : ℕ) (login_token : String) (s : Server J H)
      → ((e : LoginError)
          → read_token env t.jwt_now login_token ≡ failed e
          → P (close_hdl hdl reasons.invalid_jwt s))
      → ((id : CombinedId) (d : J)
          → read_token env t.jwt_now login_token ≡ valid (id, d)
          → BufferedMap.contains (update_session_locks t.locks s.locks).locked id.session ≡ true
          → P (resend_result hdl id (with_locks t s)))
      → ((id : CombinedId) (d : J)
          → read_token env t.jwt_now login_token ≡ valid (id, d)
          → BufferedMap.contains (update_session_locks t.locks s.locks).locked id.session ≡ false
          → P (join_session hdl id d (with_locks t s)))
      → P (open_session t hdl login_token s)
  unfolding open_session
  open_session_cases P t hdl login_token s refused over joined =
      elim (Checked-cases (read_token env t.jwt_now login_token)) [
        | inl (e, bad) ↦ rw (bad, open_session) (refused e bad)
        | inr ((id, d), good) ↦
            elim (Bool-cases
              (BufferedMap.contains (update_session_locks t.locks s.locks).locked id.session)) [
                | inl old ↦ rw (good, open_session, old) (over id d good old)
                | inr new ↦ rw (good, open_session, new) (joined id d good new)
              ]
      ]

  pub resend_result_cases {ℓ} :
      (P : Server J H → Type ℓ) (hdl : ℕ) (id : CombinedId) (s : Server J H)
      → P s
      → ((msg reason : String) → P (close_hdl hdl reason (send_to_hdl hdl msg s)))
      → P (resend_result hdl id s)
  unfolding resend_result
  resend_result_cases P hdl id s none_there told =
      elim (Option-cases (BufferedMap.at s.locks.locked id.session)) [
        | inl e ↦ rw (e, resend_result) none_there
        | inr (d, e) ↦ rw (e, resend_result) (told _ _)
      ]
