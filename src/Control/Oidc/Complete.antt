-- ===== src/Control/Oidc/Complete.antt =====
-- Enrolment through the identity provider from the start to the agent's answer, the handler of the
-- callback as a run of its locked regions, and a failure that is never taken back.
use omniup_vpn.Base.{
  ℕ, ◌≡◌, refl, Bool, true, false, some, ◌∷◌, List, arith, Text, text_key, text_eq_refl,
}
use omniup_vpn.Base.Map.{get, put, modify, get-modify_same}
use omniup_vpn.NetText.{NetText}
use omniup_vpn.Unicode.{Unicode}
use omniup_vpn.Control.State.{Device, Store, Env, ok, random_hex}
use omniup_vpn.Control.Devices.{register_device_sso}
use omniup_vpn.Control.Api.{reply, failure}
use omniup_vpn.Control.Oidc.Sessions.{
  OidcProvider, EnrollSession, EnrollStartRequest, Refusal, is_expired, handle_enroll_start,
  handle_enroll_wait, waited, wait_status, enrolled, open_enrolment, new_session, valid_session,
  with_enrolments,
}
use omniup_vpn.Control.Oidc.Identity.{Identity, judge, accepted}
use omniup_vpn.Control.Oidc.Callback.{
  handle_oidc_callback, response, finish_callback, approve, html_escape,
}
use omniup_vpn.Control.Oidc.Steps.{Flight, checking, world, Region, approved}

valid_session_found :
    (now : ℕ) (id : Text) (p : OidcProvider) (s : EnrollSession)
    → get id p.sessions ≡ some s
    → is_expired now s ≡ false
    → s.approved ≡ false
    → valid_session now id p ≡ some s
unfolding valid_session
valid_session_found now id p s g young new = ground arith

waited_result :
    (now : ℕ) (id : Text) (p : OidcProvider) (s : EnrollSession)
    → get id p.sessions ≡ some s
    → is_expired now s ≡ false
    → handle_enroll_wait now id (some p) ≡ wait_status s s.failure
unfolding handle_enroll_wait waited
waited_result now id p s g young = rw (g, young) refl

module _ (t : NetText) (u : Unicode) (e : Env) (id : Text) (who : Identity) (p : OidcProvider)
    (st : Store) where
  -- The callback on a valid session and an identity that is accepted.
  pub callback_accepted :
      (s : EnrollSession) (email : Text) (d : Device) (st' : Store)
      → get id p.sessions ≡ some s
      → is_expired e.now s ≡ false
      → s.approved ≡ false
      → judge u p.cfg who ≡ accepted email
      → register_device_sso t e s.hostname s.public_key email st ≡ (ok d, st')
      → handle_oidc_callback t u e id who (some p) st ≡ (
        reply (record { hostname = html_escape s.hostname; ip = d.ip; owner = html_escape email }),
        (some (with_enrolments p (modify id (approve email d st'.s.cidr) p.sessions)), st'),
      )
  unfolding handle_oidc_callback finish_callback
  callback_accepted s email d st' g young new good made =
      rw (valid_session_found e.now id p s g young new, handle_oidc_callback)
        (rw (good, finish_callback) (rw made refl))

  -- A failed attempt is not taken back by a later success: on a session that has a failure and is
  -- neither expired nor approved, a callback with an identity that is accepted registers the machine
  -- and shows the page of success, but the agent that waits is still refused, at any instant before
  -- the session expires.
  pub failure_sticks :
      (s : EnrollSession) (r : Refusal) (email : Text) (d : Device) (st' : Store) (later : ℕ)
      → get id p.sessions ≡ some s
      → s.failure ≡ some r
      → is_expired e.now s ≡ false
      → s.approved ≡ false
      → judge u p.cfg who ≡ accepted email
      → register_device_sso t e s.hostname s.public_key email st ≡ (ok d, st')
      → is_expired later s ≡ false
      → let after = handle_oidc_callback t u e id who (some p) st in
        (after.0
          ≡ reply
              (record { hostname = html_escape s.hostname; ip = d.ip; owner = html_escape email }))
        × (after.1.1 ≡ st')
        × (handle_enroll_wait later id after.1.0 ≡ failure 403)
  failure_sticks s r email d st' later g bad young new good made young' =
      rw (callback_accepted s email d st' g young new good made) (
        refl,
        refl,
        rw
            (waited_result later id
              (with_enrolments p (modify id (approve email d st'.s.cidr) p.sessions))
              (approve email d st'.s.cidr s)
              (get-modify_same id (approve email d st'.s.cidr) p.sessions s g) young')
            (rw bad refl),
      )

  module _ (fs : List Flight) where
    -- A callback in three regions: it takes the session up; it decides, which may change the store and
    -- leaves the sessions alone; it writes the outcome into the sessions, which leaves the store alone.
    abbrev pub InRegions : EnrollSession → OidcProvider × Store → Type 0
    InRegions s w =
        (f : Flight) × Region t u (world p st fs) (world p st (checking id s ∷ fs))
        × Region t u (world p st (checking id s ∷ fs)) (world p w.1 (f ∷ fs))
        × Region t u (world p w.1 (f ∷ fs)) (world w.0 w.1 fs)

module _ (t : NetText) (u : Unicode) (is_key : Text → Bool) (now : ℕ) (bytes : Text)
    (r : EnrollStartRequest) (p : OidcProvider) where
  started_session :
      get (random_hex bytes) (open_enrolment now (random_hex bytes) r p).sessions
      ≡ some (new_session now r)
  unfolding open_enrolment put get
  started_session = rw (text_eq_refl (random_hex bytes)) refl

  -- Enrolment comes through: when a machine with a valid public key starts, and the callback of its
  -- session comes before it expires with an identity that is accepted and the store registers the
  -- machine for it, then until the session expires the agent that waits is given the identifier,
  -- token and address of that machine and the store's range.
  pub sso_enrolment :
      (e : Env) (who : Identity) (st st' : Store) (email : Text) (d : Device) (later : ℕ)
      → is_key r.public_key ≡ true
      → is_expired e.now (new_session now r) ≡ false
      → is_expired later (new_session now r) ≡ false
      → judge u p.cfg who ≡ accepted email
      → register_device_sso t e (new_session now r).hostname r.public_key email st ≡ (ok d, st')
      → let opened = (handle_enroll_start is_key now bytes (some r) (some p)).1 in
        handle_enroll_wait later
          (random_hex bytes)
          (handle_oidc_callback t u e (random_hex bytes) who opened st).1.0
        ≡ reply (enrolled (some (response d st'.s.cidr)))
  unfolding handle_enroll_start open_enrolment
  sso_enrolment e who st st' email d later valid young young' good made =
      let id = random_hex bytes in
      let q = open_enrolment now id r p in
      let f = approve email d st'.s.cidr in
      rw valid (
        rw
          (callback_accepted t u e id who q st (new_session now r) email d st' started_session young
            refl (unfold open_enrolment in good) made)
          (rw
            (waited_result later id (with_enrolments q (modify id f q.sessions))
              (f (new_session now r))
              (get-modify_same id f q.sessions (new_session now r) started_session) young')
            refl))
