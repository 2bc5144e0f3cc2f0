-- ===== src/Agent/Sync/Withdrawn.antt =====
-- Routes that an agent no longer announces.
use omniup_vpn.Base.{◌≡◌, refl, none, some, Option, List, [], Text, text_key}
use omniup_vpn.Base.Map.{get, get-modify_same}
use omniup_vpn.NetText.{NetText}
use omniup_vpn.Unicode.{Unicode}
use omniup_vpn.Control.State.{Device, Store, Env}
use omniup_vpn.Control.State.Durable.{persist-s}
use omniup_vpn.Control.Fleet.{touched, touch_device, active_routes}
use omniup_vpn.Agent.Sync.{Agent, Setup, poll_request}

touch-routes :
    (t : NetText) (u : Unicode) (e : Env) (pub_key endpoint : Text) (reported : Option (List Text))
    (d : Device) (st : Store)
    → get pub_key st.s.devices ≡ some d
    → get pub_key (touch_device t u e pub_key endpoint reported none st).1.s.devices
      ≡ some (touched t u e.now endpoint reported none d)
unfolding touch_device
touch-routes t u e pub_key endpoint reported d st known =
    rw (known, touch_device)
      (rw persist-s
        (get-modify_same pub_key (touched t u e.now endpoint reported none) st.s.devices d known))

-- An announcement is never withdrawn: an agent that is started again without any route to announce
-- sends a request from which the empty list is left out, and the server, which takes that for no
-- change, goes on giving the peers the routes that the machine announced before and that are
-- approved.
pub withdrawn_kept :
    (t : NetText) (u : Unicode) (e : Env) (pub_key endpoint : Text) (o : Setup) (a : Agent)
    (d : Device) (st : Store)
    → o.advertised ≡ []
    → get pub_key st.s.devices ≡ some d
    → let request = poll_request o a in
      (d' : Device) × (get pub_key
          (touch_device t u e pub_key endpoint request.endpoints request.advertised_routes
            st).1.s.devices
        ≡ some d')
      × (active_routes d' ≡ active_routes d)
unfolding poll_request active_routes
withdrawn_kept t u e pub_key endpoint o a d st none_now known =
    let request = poll_request o a in
    (
      touched t u e.now endpoint request.endpoints none d,
      rw none_now (touch-routes t u e pub_key endpoint request.endpoints d st known),
      refl,
    )
