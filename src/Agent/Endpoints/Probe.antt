-- ===== src/Agent/Endpoints/Probe.antt =====
-- internal/agent/endpoints.go: a whole call of Probe, with the outcomes of its calls of the engine
-- and the socket as inputs.
use omniup_vpn.Base.{ℕ, Bool, Option, none, some, List, [], ◌∷◌, if◌then◌else◌, Text, text_key}
use omniup_vpn.Base.Map.{Map}
use omniup_vpn.Net.{AddrPort}
use omniup_vpn.Agent.Endpoints.{EndpointManager, Plan, plan, relay_failed, ping_sent}

abbrev pub moved : Bool → Text → EndpointManager → EndpointManager
moved set_ok pub_key m = if set_ok then m else relay_failed pub_key m

-- The loop over toRelay; `set_ok` tells whether the engine takes the relay's endpoint of a peer.
unfoldable pub move_all : (Text → Bool) → List Text → EndpointManager → EndpointManager
move_all set_ok [] m = m
move_all set_ok (k ∷ ks) m = move_all set_ok ks (moved (set_ok k) k m)

abbrev pub pinged : ℕ → Text × AddrPort → Option Text → EndpointManager → EndpointManager
pinged now (pub_key, ap) none m = m
pinged now (pub_key, ap) (some id) m =
    ping_sent id (record { public_key = pub_key; candidate = ap; sent_at = now }) m

-- The loop over toSend, with the identifier that each SendPing gives, or none where it fails.
unfoldable pub send_all :
    ℕ → List (Text × AddrPort) → List (Option Text) → EndpointManager → EndpointManager
send_all now [] ids m = m
send_all now (p ∷ ps) [] m = m
send_all now (p ∷ ps) (id ∷ ids) m = send_all now ps ids (pinged now p id m)

module _ (parse_addr_port : Text → Option AddrPort) (now : ℕ) (set_ok : Text → Bool)
    (ids : List (Option Text)) where
  abbrev pub carried_out : Plan → EndpointManager
  carried_out p = send_all now p.to_send ids (move_all set_ok p.to_relay p.manager)

  -- Probe; `none` is a failure to read the handshakes.
  unfoldable pub probe : Option (Map Text ℕ) → EndpointManager → EndpointManager
  probe none m = m
  probe (some handshakes) m = carried_out (plan parse_addr_port now handshakes m)
