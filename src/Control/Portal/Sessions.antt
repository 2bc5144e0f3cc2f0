-- ===== src/Control/Portal/Sessions.antt =====
-- A session of the portal, from the login to the logout.
use omniup_vpn.Base.{ℕ, ◌⊎◌, inl, inr, ◌≡◌, refl, ◌+◌, Bool, none, some, arith, ltb, if◌then◌else◌}
use omniup_vpn.Unicode.{Unicode}
use omniup_vpn.Control.State.{User, Store, Env, Error, Result, ok, err, session_ttl, persist, save}
use omniup_vpn.Control.Users.{Bcrypt, authenticate, session_token, create_session, find_user}
use omniup_vpn.Control.Users.Sessions.{create_session_opens, session_user-delete_session}
use omniup_vpn.Control.Api.{reply}
use omniup_vpn.Control.Portal.{
  UserLoginRequest, OpenedSession, open_session, handle_user_login, handle_user_logout,
  require_user,
}

Result-cases {ℓ} :
    {A : Type ℓ} → (r : Result A) → ((a : A) × (r ≡ ok a)) ⊎ ((x : Error) × (r ≡ err x))
Result-cases (ok a) = inl (a, refl)
Result-cases (err x) = inr (x, refl)

-- What an answer that opens a session hands out.
open_session_lem :
    (e : Env) (https : Bool) (x : User) (st : Store) (s : OpenedSession)
    → (open_session e https x st).0 ≡ reply s
    → (s.token ≡ session_token e)
      × (s.email ≡ x.email)
      × ((open_session e https x st).1 ≡ (create_session e x.id st).1)
unfolding open_session create_session persist save
open_session_lem e https x st s h = ground arith

module _ (u : Unicode) (b : Bcrypt) (e : Env) (https : Bool) (r : UserLoginRequest)
    (st : Store) where
  -- Only an account that is authenticated is let in.
  login_let_in :
      (s : OpenedSession)
      → (handle_user_login u b e https (some r) st).0 ≡ reply s
      → (x : User) × (authenticate u b r.email r.password st ≡ ok x)
        × (handle_user_login u b e https (some r) st ≡ open_session e https x st)
  unfolding handle_user_login
  login_let_in s h = elim (Result-cases (authenticate u b r.email r.password st)) [
    | inl (x, q) ↦ (x, q, rw q refl)
    | inr (y, q) ↦ absurd (ground (arith, rw q at h))
  ]

  -- A login that is answered with a cookie is one whose address and password authenticate an account,
  -- and the answer names it; until the session's end the cookie makes requests in the name of the
  -- account that the store finds under its id, and afterwards, or once the user has logged out, in
  -- nobody's.
  pub login_session :
      (e' : Env) (s : OpenedSession) (later : ℕ)
      → (handle_user_login u b e https (some r) st).0 ≡ reply s
      → (x : User) × (authenticate u b r.email r.password st ≡ ok x)
        × (s.email ≡ x.email)
        × (require_user later (some s.token) (handle_user_login u b e https (some r) st).1
            ≡ (if ltb (e.now + session_ttl) later then none else find_user x.id st.s.users))
        × (require_user later
              (some s.token)
              (handle_user_logout e' (some s.token) (handle_user_login u b e https (some r) st).1)
            ≡ none)
  unfolding require_user handle_user_logout
  login_session e' s later h =
      let (x, known, opened) = login_let_in s h in
      let (tok, mail, state) = open_session_lem e https x st s (rw opened at h) in
      (
        x,
        known,
        mail,
        rw (opened, state, tok, create_session_opens e x.id st later) refl,
        session_user-delete_session e' s.token (handle_user_login u b e https (some r) st).1 later,
      )
