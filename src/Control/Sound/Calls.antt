-- ===== src/Control/Sound/Calls.antt =====
-- Any history of calls to the store's operations on machines.
use omniup_vpn.Base.{Option, List, [], ◌∷◌, Bool, Text}
use omniup_vpn.NetText.{NetText}
use omniup_vpn.Unicode.{Unicode}
use omniup_vpn.Control.State.{Store, Env, Duration}
use omniup_vpn.Control.Devices.{create_auth_key_for, register_device, register_device_sso}
use omniup_vpn.Control.Fleet.{
  rotate_token_if_due, touch_device, set_approved_routes, remove_device, remove_owned_device,
}
use omniup_vpn.Control.Sound.{IsSound}
use omniup_vpn.Control.Sound.Enrol.{
  create_auth_key_for-IsSound, register_device-IsSound, register_device_sso-IsSound,
}
use omniup_vpn.Control.Sound.Heartbeat.{
  rotate_token_if_due-IsSound, touch_device-IsSound, set_approved_routes-IsSound,
  remove_device-IsSound, remove_owned_device-IsSound,
}

-- A call with its arguments; each has its own instant, random bytes and file outcomes.
pub data Call : Type 0 where
  create_key : Text → Bool → Duration → Call
  register : Text → Text → Text → Call
  register_sso : Text → Text → Text → Call
  rotate : Text → Call
  touch : Text → Text → Option (List Text) → Option (List Text) → Call
  approve_routes : Text → List Text → Call
  remove : Text → Call
  remove_owned : Text → Text → Call

module _ (t : NetText) (u : Unicode) where
  unfoldable pub perform : Env → Call → Store → Store
  perform e (create_key owner reusable ttl) st = (create_auth_key_for e owner reusable ttl st).1
  perform e (register auth hostname pub_key) st = (register_device t e auth hostname pub_key st).1
  perform e (register_sso hostname pub_key owner) st =
      (register_device_sso t e hostname pub_key owner st).1
  perform e (rotate pub_key) st = (rotate_token_if_due e pub_key st).1
  perform e (touch pub_key endpoint reported advertised) st =
      (touch_device t u e pub_key endpoint reported advertised st).1
  perform e (approve_routes target routes) st = (set_approved_routes t u e target routes st).1
  perform e (remove target) st = (remove_device e target st).1
  perform e (remove_owned owner target) st = (remove_owned_device e owner target st).1

  unfoldable pub history : List (Env × Call) → Store → Store
  history [] st = st
  history ((e, c) ∷ cs) st = history cs (perform e c st)

  perform-IsSound :
      (e : Env) (c : Call) (st : Store) → IsSound t st.s → IsSound t (perform e c st).s
  unfolding perform
  perform-IsSound e (create_key owner reusable ttl) st h =
      create_auth_key_for-IsSound t e owner reusable ttl st h
  perform-IsSound e (register auth hostname pub_key) st h =
      register_device-IsSound t e auth hostname pub_key st h
  perform-IsSound e (register_sso hostname pub_key owner) st h =
      register_device_sso-IsSound t e hostname pub_key owner st h
  perform-IsSound e (rotate pub_key) st h = rotate_token_if_due-IsSound t e pub_key st h
  perform-IsSound e (touch pub_key endpoint reported advertised) st h =
      touch_device-IsSound t u e pub_key endpoint reported advertised st h
  perform-IsSound e (approve_routes target routes) st h =
      set_approved_routes-IsSound t u e target routes st h
  perform-IsSound e (remove target) st h = remove_device-IsSound t e target st h
  perform-IsSound e (remove_owned owner target) st h =
      remove_owned_device-IsSound t e owner target st h

  -- From a well-formed store, whatever operations are called in whatever order, and whether or not
  -- their saves succeed: the machines stay keyed by public key, and each has a host address of the
  -- range (neither the network's nor the broadcast address) that no other machine has.
  pub history-IsSound :
      (cs : List (Env × Call)) (st : Store) → IsSound t st.s → IsSound t (history cs st).s
  unfolding history
  history-IsSound [] st h = h
  history-IsSound ((e, c) ∷ cs) st h =
      history-IsSound cs (perform e c st) (perform-IsSound e c st h)
