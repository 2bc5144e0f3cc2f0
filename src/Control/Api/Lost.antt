-- ===== src/Control/Api/Lost.antt =====
-- The answer to a poll that carries a new token, when it is lost on its way.
use omniup_vpn.Base.{
  ℕ, suc, ◌+◌, ◌<◌, ◌≡◌, ◌≢◌, refl, true, false, Option, none, some, [], ◌++◌, arith, Text,
  text_key, text_eq, is_blank,
}
use omniup_vpn.Base.Map.{get, Unique, get-modify_same}
use omniup_vpn.NetText.{NetText}
use omniup_vpn.Unicode.{Unicode}
use omniup_vpn.Control.State.{
  Device, Store, Env, Result, ok, err, since_lt, token_rotate_after, token_grace,
}
use omniup_vpn.Control.State.Durable.{persist-s}
use omniup_vpn.Control.Fleet.{rotated, rotate_token_if_due, touched, touch_device, device_by_token}
use omniup_vpn.Control.Fleet.Rotation.{OnlyAt, rotation_expires, devices-rotate}
use omniup_vpn.Control.Api.{
  NetMap, PollRequest, reply, failure, handle_poll, poll, after_touch, net_map, bearer_token,
  bearer_prefix, observed,
}

bearer_token_of : (token : Text) → bearer_token (bearer_prefix ++ token) ≡ token
unfolding bearer_token text_eq
bearer_token_of token = refl

not_due :
    (e : Env) (pub_key : Text) (st : Store) (d : Device)
    → get pub_key st.s.devices ≡ some d
    → since_lt e.now d.token_issued_at token_rotate_after ≡ true
    → rotate_token_if_due e pub_key st ≡ (ok [], st)
unfolding rotate_token_if_due
not_due e pub_key st d known young = rw (known, rotate_token_if_due) (rw young refl)

blank_after :
    (e : Env) (now : ℕ) (self d : Device) (st : Store) (nm : NetMap) (r : Result (Unit {0}))
    → get self.public_key st.s.devices ≡ some d
    → since_lt e.now d.token_issued_at token_rotate_after ≡ true
    → (after_touch e now self (r, st)).0 ≡ reply nm
    → is_blank nm.new_token ≡ true
unfolding net_map
blank_after e now self d st nm (err x) known young h = absurd (ground arith)
blank_after e now self d st nm (ok _) known young h =
    let answered : reply (net_map now [] self st) ≡ reply nm =
      rw (not_due e self.public_key st d known young) at h in
    ground arith

module _ (t : NetText) (u : Unicode) where
  -- A machine whose token is not due is answered a blank one, whatever its poll reports.
  blank_answer :
      (e e' : Env) (now : ℕ) (host : Option Text) (r : PollRequest) (self d : Device) (st : Store)
      (nm : NetMap)
      → get self.public_key st.s.devices ≡ some d
      → since_lt e'.now d.token_issued_at token_rotate_after ≡ true
      → (handle_poll t u e e' now host (some r) self st).0 ≡ reply nm
      → is_blank nm.new_token ≡ true
  unfolding handle_poll touch_device
  blank_answer e e' now host r self d st nm known young h =
      let f = touched t u e.now (observed host r.listen_port) r.endpoints r.advertised_routes in
      let out =
        touch_device t u e self.public_key (observed host r.listen_port) r.endpoints
          r.advertised_routes st in
      let known' : get self.public_key out.1.s.devices ≡ some (f d) =
        rw (known, touch_device)
          (rw persist-s (get-modify_same self.public_key f st.s.devices d known)) in
      blank_after e' now self (f d) out.1 nm out.0 known' young h

  refused_poll :
      (e e' : Env) (now : ℕ) (token : Text) (host : Option Text) (r : Option PollRequest)
      (st : Store)
      → device_by_token e.now token st ≡ none
      → poll t u e e' now (bearer_prefix ++ token) host r st ≡ (failure 401, st)
  unfolding poll
  refused_poll e e' now token host r st gone = rw (bearer_token_of token, gone) refl

  -- A lost answer locks the machine out: after a poll has rotated the token, another poll of the
  -- machine in the next 24 hours does not tell it the new one, and from the end of the hour of grace
  -- on a poll with the old one is refused, with the store left as it is. (The token was due, is
  -- not the new one, and no other machine accepts it; the store has the machine, and no key twice.)
  pub lost_answer :
      (e e1 e1' e2 e2' : Env) (now now' : ℕ) (host host' : Option Text) (r : PollRequest)
      (r' : Option PollRequest) (self d : Device) (st : Store) (nm : NetMap)
      → Unique st.s.devices
      → get self.public_key st.s.devices ≡ some d
      → since_lt e.now d.token_issued_at token_rotate_after ≡ false
      → OnlyAt e2.now d.token self.public_key st.s.devices
      → d.token ≢ (rotated e d).token
      → since_lt e1'.now e.now token_rotate_after ≡ true
      → (handle_poll t u e1 e1' now host
          (some r)
          self
          (rotate_token_if_due e self.public_key st).1).0
        ≡ reply nm
      → e.now + token_grace < suc e2.now
      → (is_blank nm.new_token ≡ true)
        × (poll t u e2 e2' now'
              (bearer_prefix ++ d.token)
              host'
              r'
              (rotate_token_if_due e self.public_key st).1
            ≡ (failure 401, (rotate_token_if_due e self.public_key st).1))
  lost_answer e e1 e1' e2 e2' now now' host host' r r' self d st nm unique known due only other
        young h late =
      let st1 = (rotate_token_if_due e self.public_key st).1 in
      let known' : get self.public_key st1.s.devices ≡ some (rotated e d) =
        rw (devices-rotate e self.public_key st d unique known due)
          (get-modify_same self.public_key (rotated e) st.s.devices d known) in
      (
        blank_answer e1 e1' now host r self (rotated e d) st1 nm known' young h,
        refused_poll e2 e2' now' d.token host' r' st1
            (rotation_expires e self.public_key st d unique known due e2.now only other late),
      )
