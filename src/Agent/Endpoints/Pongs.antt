-- ===== src/Agent/Endpoints/Pongs.antt =====
-- The way back from the relay.
use omniup_vpn.Base.{
  ℕ, ◌≡◌, Bool, true, false, Option, none, some, Text, arith, text_eq_iff, text_key,
}
use omniup_vpn.Base.Map.{Map, get, get-put, get-delete}
use omniup_vpn.Net.{AddrPort}
use omniup_vpn.Agent.Endpoints.{PendingProbe, EndpointManager, is_relayed, on_pong}

module _ (now later : ℕ) (hs hs' : Option (Map Text ℕ)) (id : Text) (m : EndpointManager) where
  -- A peer that is reached by the relay goes back to the direct path with the first answer to one
  -- of its probes, if the engine takes the endpoint, which is the address that the answer came
  -- from: it is on the relay no more, its rounds are counted anew, and a second answer with the
  -- same probe does nothing.
  pub pong_returns :
      (set_ok' : Bool) (from from' : AddrPort) (pr : PendingProbe)
      → get id m.pending ≡ some pr
      → is_relayed pr.public_key m ≡ true
      → ((on_pong now hs true id from m).1 ≡ some (pr.public_key, from))
        × (is_relayed pr.public_key (on_pong now hs true id from m).0 ≡ false)
        × (get pr.public_key (on_pong now hs true id from m).0.disconnected ≡ some 0)
        × (on_pong later hs' set_ok' id from' (on_pong now hs true id from m).0
            ≡ ((on_pong now hs true id from m).0, none))
  unfolding on_pong
  pong_returns set_ok' from from' pr waits relayed = (
    ground arith,
    ground (
      arith,
      get-delete pr.public_key pr.public_key m.on_relay,
      text_eq_iff pr.public_key pr.public_key,
    ),
    ground (
      arith,
      get-put pr.public_key pr.public_key 0 m.disconnected,
      text_eq_iff pr.public_key pr.public_key,
    ),
    ground (arith, get-delete id id m.pending, text_eq_iff id id),
  )
