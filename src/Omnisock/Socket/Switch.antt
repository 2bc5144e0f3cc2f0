-- ===== src/Omnisock/Socket/Switch.antt =====
-- A peer that is moved to the relay, and a STUN request and its answer.
use omniup_vpn.Base.{
  ℕ, ◌≡◌, refl, true, some, [], ◌∷◌, arith, Text, text_key, text_eq, text_eq_refl, length, ==_iff,
}
use omniup_vpn.Base.Map.{put, get-put, get-delete}
use omniup_vpn.Net.{AddrPort, is_valid_port}
use omniup_vpn.Stun.{Parsed, parse_response}
use omniup_vpn.Relay.Frames.{build_forward}
use omniup_vpn.Omnisock.Bind.{Bind, Endpoint, via_relay, quiet, handle_stun, send}
use omniup_vpn.Omnisock.Socket.{
  EndpointText, endpoint_string, key_to_b64, key_from_b64, parse_endpoint, dst_to_string,
  stun_begin, stun_end,
}

-- The text of an endpoint behind the relay is parsed back, for a key of 32 bytes.
parse_endpoint-dst_to_string :
    (x : EndpointText) (key : Text)
    → length key ≡ 32
    → parse_endpoint x (dst_to_string x (via_relay key)) ≡ some (via_relay key)
unfolding parse_endpoint dst_to_string endpoint_string key_to_b64 key_from_b64 text_eq
parse_endpoint-dst_to_string x key len =
    rw (x.decode-encode key) (ground (arith, ==_iff (length key) 32))

-- A peer that the agent moves to the relay is reached there: the text that it gives the engine for
-- the peer's key, of 32 bytes, parses, and a packet that the engine then sends to that endpoint goes
-- to the relay's address in a FORWARD frame for that key, if a relay is configured and the socket is
-- open.
pub relay_switch :
    (x : EndpointText) (b : Bind) (key pkt : Text)
    → length key ≡ 32
    → is_valid_port b.relay_addr ≡ true
    → b.is_open ≡ true
    → (ep : Endpoint) × (parse_endpoint x (endpoint_string (key_to_b64 x key)) ≡ some ep)
      × (send b (pkt ∷ []) ep ≡ some ((build_forward key pkt, b.relay_addr) ∷ []))
unfolding send dst_to_string
relay_switch x b key pkt len valid opened =
    (via_relay key, parse_endpoint-dst_to_string x key len, rw (valid, opened) refl)

-- The answer to a STUN request reaches the one that asked, once: a response with the transaction of
-- the request goes to its channel, and a second one, or one that comes after the request has ended,
-- goes nowhere.
pub stun_answer :
    (b : Bind) (id pkt : Text) (ch : ℕ) (mapped : AddrPort)
    → parse_response pkt ≡ Parsed.ok (id, mapped)
    → let asked = stun_begin id ch b in
      ((handle_stun asked pkt).1 ≡ record quiet { answers = (ch, mapped) ∷ [] })
      × ((handle_stun (handle_stun asked pkt).0 pkt).1 ≡ quiet)
      × ((handle_stun (stun_end id asked) pkt).1 ≡ quiet)
unfolding handle_stun stun_begin stun_end
stun_answer b id pkt ch mapped parsed =
    let asked = put id ch b.stun_tx in
    let gone = get-delete id id asked in
    let same = text_eq_refl id in
    (
      rw (parsed, get-put id id ch b.stun_tx, same) refl,
      rw (parsed, gone, same) refl,
      rw (parsed, gone, same) refl,
    )
