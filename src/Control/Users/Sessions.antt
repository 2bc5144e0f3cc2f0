-- ===== src/Control/Users/Sessions.antt =====
-- How long a web session lasts.
use omniup_vpn.Base.{
  ℕ, suc, ◌+◌, ◌<◌, ◌≡◌, ◌≢◌, refl, inl, inr, none, some, [], ◌∷◌, arith, Text, text_eq_iff,
  text_key, Bool-cases, Option-cases, if◌then◌else◌, ltb,
}
use omniup_vpn.Base.Map.{Map, get, put, get-put, get-delete, Unique}
use omniup_vpn.Control.State.{WebSession, Store, Env, persist, save, session_ttl}
use omniup_vpn.Control.State.Durable.{persist-s}
use omniup_vpn.Control.Users.{
  purge, session_token, create_session, find_user, session_user, delete_session,
}

get-purge-none :
    (now : ℕ) (token : Text) (m : Map Text WebSession)
    → get token m ≡ none
    → get token (purge now m) ≡ none
unfolding get purge
get-purge-none now token [] g = refl
get-purge-none now token ((k, v) ∷ m) g = ground (arith, get-purge-none now token m)

get-purge :
    (now : ℕ) (token : Text) (m : Map Text WebSession) (sess : WebSession)
    → Unique m
    → get token m ≡ some sess
    → get token (purge now m) ≡ (if ltb sess.expires now then none else some sess)
unfolding get purge
get-purge now token [] sess u g = absurd (ground arith)
get-purge now token ((k, v) ∷ m) sess u g =
    ground (arith, get-purge now token m sess, get-purge-none now token m, text_eq_iff k token)

create_session-s :
    (e : Env) (user_id : Text) (st : Store)
    → (create_session e user_id st).1.s ≡ record st.s {
      sessions =
          put
            (session_token e)
            (record { user_id = user_id; expires = e.now + session_ttl })
            (purge e.now st.s.sessions);
    }
unfolding create_session
create_session-s e user_id st = rw persist-s

-- What names a user: the sessions and the accounts.
session_user_purged :
    (e : Env) (user_id : Text) (st : Store) (token : Text) (later : ℕ)
    → Unique st.s.sessions
    → token ≢ session_token e
    → e.now < suc later
    → session_user later token (create_session e user_id st).1 ≡ session_user later token st
unfolding session_user
session_user_purged e user_id st token later u other after =
    let new : WebSession = record { user_id = user_id; expires = e.now + session_ttl } in
    let kept = purge e.now st.s.sessions in
    let state = create_session-s e user_id st in
    elim (Option-cases (get token st.s.sessions)) [
      | inl g ↦ ground (
        arith,
        state,
        get-put (session_token e) token new kept,
        text_eq_iff (session_token e) token,
        get-purge-none e.now token st.s.sessions g,
      )
      | inr (sess, g) ↦ elim (Bool-cases (ltb sess.expires e.now)) [
        | inl over ↦ ground (
          arith,
          state,
          get-put (session_token e) token new kept,
          text_eq_iff (session_token e) token,
          rw over at (get-purge e.now token st.s.sessions sess u g),
        )
        | inr open_ ↦ ground (
          arith,
          state,
          get-put (session_token e) token new kept,
          text_eq_iff (session_token e) token,
          rw open_ at (get-purge e.now token st.s.sessions sess u g),
        )
      ]
    ]

-- Opening a session, also when the save fails: its token names the user until the session's end,
-- and nobody afterwards.
pub create_session_opens :
    (e : Env) (user_id : Text) (st : Store) (later : ℕ)
    → session_user later (session_token e) (create_session e user_id st).1
      ≡ (if ltb (e.now + session_ttl) later then none else find_user user_id st.s.users)
unfolding create_session session_user persist save
create_session_opens e user_id st later =
    let new : WebSession = record { user_id = user_id; expires = e.now + session_ttl } in
    ground (
      arith,
      get-put (session_token e) (session_token e) new (purge e.now st.s.sessions),
      text_eq_iff (session_token e) (session_token e),
    )

-- Opening a session, whose purge drops sessions that are over, changes nothing for any other token:
-- from then on it names the user that it would have named, as long as no token stands twice.
pub create_session_keeps :
    (e : Env) (user_id : Text) (st : Store) (token : Text) (later : ℕ)
    → Unique st.s.sessions
    → token ≢ session_token e
    → e.now < suc later
    → session_user later token (create_session e user_id st).1 ≡ session_user later token st
unfolding create_session session_user persist save
create_session_keeps e user_id st token later u other after =
    session_user_purged e user_id st token later u other after

-- A session that was closed names nobody, also when the save fails.
pub session_user-delete_session :
    (e : Env) (token : Text) (st : Store) (later : ℕ)
    → session_user later token (delete_session e token st) ≡ none
unfolding delete_session session_user persist save
session_user-delete_session e token st later =
    ground (arith, get-delete token token st.s.sessions, text_eq_iff token token)
