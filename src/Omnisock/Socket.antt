-- ===== src/Omnisock/Socket.antt =====
-- internal/omnisock/bind.go: opening, marking and probing, the two ends of a STUN request, and the
-- text forms of endpoints; with KeyToB64, KeyFromB64 and EndpointString of internal/relay/relay.go.
-- The outcomes of system calls are inputs, encoding/base64 and net.ResolveUDPAddr are parameters.
pub mod Switch
use omniup_vpn.Base.{
  ℕ, zero, suc, Bool, true, false, not, ◌&&◌, Option, none, some, List, [], ◌∷◌, ◌++◌, ◌==◌,
  if◌then◌else◌, Text, codes, length, text_key, ◌≡◌,
}
use omniup_vpn.Base.Map.{get, put, delete}
use omniup_vpn.Base.Strings.{cut_prefix}
use omniup_vpn.Net.{AddrPort, no_addr, unmap}
use omniup_vpn.Stun.{build_request}
use omniup_vpn.Omnisock.Disco.{encode_disco, disco_ping}
use omniup_vpn.Omnisock.Bind.{Bind, Endpoint, direct, via_relay, Effects, written}

-- New; the zero netip.AddrPort is not valid, and the keys are 32 zero bytes.
unfoldable pub zeros : ℕ → Text
zeros zero = []
zeros (suc n) = 0 ∷ zeros n

unfoldable pub new_bind : Bind
new_bind = record {
  is_open = false;
  stun_tx = [];
  has_pong_handler = false;
  closed = false;
  mark = 0;
  relay_addr = record { addr = no_addr; port = 0 };
  relay_priv = zeros 32;
  relay_self_key = zeros 32;
  relay_last_ack = 0;
}

-- SetPongHandler
unfoldable pub set_pong_handler : Bool → Bind → Bind
set_pong_handler given b = record b { has_pong_handler = given }

-- Open; `listened` tells whether net.ListenUDP succeeds. The second component is whether there was
-- no error; the failure of a mark is ignored.
unfoldable pub open_bind : Bool → Bind → Bind × Bool
open_bind listened b =
    if b.is_open
    then (b, false)
    else if listened
    then (record b { is_open = true; closed = false }, true)
    else (b, false)

-- SetMark; `marked` is what setSocketMark answers.
unfoldable pub set_mark : Bool → ℕ → Bind → Bind × Bool
set_mark marked mark b =
    let b' = record b { mark = mark } in
    if b.is_open && not (mark == 0) then (b', marked) else (b', true)

-- LocalPort
unfoldable pub local_port : ℕ → Bind → ℕ
local_port bound b = if b.is_open then bound else 0

-- SendPing, under the identifier that was drawn.
unfoldable pub send_ping : Bind → Text → AddrPort → Effects
send_ping b id dst = written b (encode_disco disco_ping id) dst

-- STUNRequest enters the channel that waits for the answer.
unfoldable pub stun_begin : Text → ℕ → Bind → Bind
stun_begin id ch b = record b { stun_tx = put id ch b.stun_tx }

-- The packet that STUNRequest sends at once, and again on every tick.
unfoldable pub stun_packet : Text → AddrPort → Bind → Effects
stun_packet id dst b = written b (build_request id) dst

-- The deferred end of STUNRequest, whatever the outcome.
unfoldable pub stun_end : Text → Bind → Bind
stun_end id b = record b { stun_tx = delete id b.stun_tx }

-- encoding/base64, and the resolution and the text of addresses.
pub record EndpointText : Type 0 where
  pub b64_encode : Text → Text
  pub b64_decode : Text → Option Text
  pub decode-encode : (k : Text) → b64_decode (b64_encode k) ≡ some k
  pub resolve : Text → Option AddrPort
  pub addr_port_string : AddrPort → Text

abbrev pub endpoint_prefix : Text
endpoint_prefix = codes "relay:"

-- EndpointString
unfoldable pub endpoint_string : Text → Text
endpoint_string key = endpoint_prefix ++ key

module _ (x : EndpointText) where
  -- KeyToB64 and KeyFromB64
  unfoldable pub key_to_b64 : Text → Text
  key_to_b64 k = x.b64_encode k

  abbrev pub of_length : Option Text → Option Text
  of_length none = none
  of_length (some raw) = if length raw == 32 then some raw else none

  unfoldable pub key_from_b64 : Text → Option Text
  key_from_b64 s = of_length (x.b64_decode s)

  abbrev pub relay_endpoint : Option Text → Option Endpoint
  relay_endpoint none = none
  relay_endpoint (some key) = some (via_relay key)

  abbrev pub resolved : Option AddrPort → Option Endpoint
  resolved none = none
  resolved (some ap) = some (direct (record ap { addr = unmap ap.addr }))

  abbrev pub endpoint_of : Text → Option Text → Option Endpoint
  endpoint_of s none = resolved (x.resolve s)
  endpoint_of s (some key) = relay_endpoint (key_from_b64 key)

  -- ParseEndpoint
  unfoldable pub parse_endpoint : Text → Option Endpoint
  parse_endpoint s = endpoint_of s (cut_prefix s endpoint_prefix)

  -- DstToString
  unfoldable pub dst_to_string : Endpoint → Text
  dst_to_string (direct ap) = x.addr_port_string ap
  dst_to_string (via_relay key) = endpoint_string (key_to_b64 key)
