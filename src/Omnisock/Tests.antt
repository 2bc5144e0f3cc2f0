-- ===== src/Omnisock/Tests.antt =====
-- What the theorems about the shared socket say of small packets.
use omniup_vpn.Base.{some, none}
use omniup_vpn.Omnisock.Bind.{Endpoint, send}
use omniup_vpn.Relay.Frames.{build_forward}
use omniup_vpn.Omnisock.Socket.{EndpointText, parse_endpoint, endpoint_string, key_to_b64}
use omniup_vpn.Omnisock.Socket.Switch.{relay_switch}
use omniup_vpn.Base.{◌≡◌, refl, true, false, [], ◌∷◌, Text, arith}
use omniup_vpn.Relay.Demo.{sums, alice, bob, alice_key, bob_key, zeros_15}
use omniup_vpn.Omnisock.Bind.{Bind, direct, to_engine, receive_one}
use omniup_vpn.Omnisock.Bind.Demux.{wireguard_passes}

abbrev socket : Bind
socket = record {
  is_open = true;
  stun_tx = [];
  has_pong_handler = true;
  closed = false;
  mark = 0;
  relay_addr = bob;
  relay_priv = 5 ∷ [];
  relay_self_key = alice_key;
  relay_last_ack = 0;
}

abbrev probe : Text
probe = 1 ∷ 2 ∷ 3 ∷ 4 ∷ 5 ∷ 6 ∷ 7 ∷ 8 ∷ 9 ∷ 10 ∷ 11 ∷ 12 ∷ []

wireguard_passes_example :
    receive_one sums 1 1500 socket (4 ∷ 0 ∷ 0 ∷ 0 ∷ zeros_15) alice
    ≡ (socket, to_engine (4 ∷ 0 ∷ 0 ∷ 0 ∷ zeros_15) (direct alice))
wireguard_passes_example = wireguard_passes sums 1 1500 socket alice 4 zeros_15 (omega arith)

-- Keys whose text is the key itself.
abbrev texts : EndpointText
texts = record {
  b64_encode = λ k. k;
  b64_decode = some;
  decode-encode = λ k. refl;
  resolve = λ s. none;
  addr_port_string = λ a. [];
}

relay_switch_example :
    (ep : Endpoint) × (parse_endpoint texts (endpoint_string (key_to_b64 texts bob_key)) ≡ some ep)
    × (send socket ((7 ∷ []) ∷ []) ep ≡ some ((build_forward bob_key (7 ∷ []), bob) ∷ []))
relay_switch_example = relay_switch texts socket bob_key (7 ∷ []) refl refl refl
