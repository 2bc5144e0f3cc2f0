-- ===== src/Omnisock/Bind.antt =====
-- internal/omnisock/bind.go: what the socket does with each packet that it receives, its sending
-- side and the state of its relay. A channel that waits for a STUN answer is a number.
pub mod Demux
use omniup_vpn.Base.{
  ℕ, zero, suc, ◌+◌, ◌*◌, Bool, true, false, not, ◌&&◌, ◌||◌, Option, none, some, List, [], ◌∷◌,
  ◌++◌, ltb, leb, ◌==◌, if◌then◌else◌, Text, text_eq, text_key, length, map,
}
use omniup_vpn.Base.Map.{Map, get, put, delete}
use omniup_vpn.Net.{AddrPort, addr_port_eq, is_valid_port}
use omniup_vpn.Stun
use omniup_vpn.Stun.{Parsed, is_binding_response, parse_response}
use omniup_vpn.Relay.Frames.{
  is_frame, frame_type, type_ack, type_challenge, type_recv, parse_challenge, parse_keyed,
  build_forward, build_register,
}
use omniup_vpn.Relay.Proof.{Crypto, build_proof}
use omniup_vpn.Omnisock.Disco.{is_disco, decode_disco, encode_disco, disco_ping, disco_pong}

pub record Bind : Type 0 where
  pub is_open : Bool
  pub stun_tx : Map Text ℕ
  pub has_pong_handler : Bool
  pub closed : Bool
  pub mark : ℕ
  pub relay_addr : AddrPort
  pub relay_priv : Text
  pub relay_self_key : Text
  pub relay_last_ack : ℕ

-- An endpoint of wireguard-go: an address, or a peer behind the relay.
pub data Endpoint : Type 0 where
  direct : AddrPort → Endpoint
  via_relay : Text → Endpoint

-- What one packet leads to.
pub record Effects : Type 0 where
  pub sent : List (Text × AddrPort)
  pub pongs : List (Text × AddrPort)
  pub answers : List (ℕ × AddrPort)
  pub engine : Option (Text × Endpoint)
  pub panics : Bool

abbrev pub quiet : Effects
quiet = record { sent = []; pongs = []; answers = []; engine = none; panics = false }

abbrev pub to_engine : Text → Endpoint → Effects
to_engine pkt ep = record quiet { engine = some (pkt, ep) }

-- A write, which does nothing once the socket is closed.
abbrev pub written : Bind → Text → AddrPort → Effects
written b pkt dst = if b.is_open then record quiet { sent = (pkt, dst) ∷ [] } else quiet

-- handleDisco
unfoldable pub handle_disco : Bind → Text → AddrPort → Effects
handle_disco b pkt src =
    let (msg_type, id) = decode_disco pkt in
    if msg_type == disco_ping
    then written b (encode_disco disco_pong id) src
    else if (msg_type == disco_pong) && b.has_pong_handler
    then record quiet { pongs = (id, src) ∷ [] }
    else quiet

abbrev pub answered : AddrPort → Option ℕ → Effects
answered mapped none = quiet
answered mapped (some ch) = record quiet { answers = (ch, mapped) ∷ [] }

abbrev pub stun_result : Bind → Parsed (Text × AddrPort) → Bind × Effects
stun_result b (Parsed.ok (id, mapped)) =
    (record b { stun_tx = delete id b.stun_tx }, answered mapped (get id b.stun_tx))
stun_result b (Parsed.err x) = (b, quiet)
stun_result b Parsed.panic = (b, record quiet { panics = true })
stun_result b Parsed.out_of_fuel = (b, quiet)

-- handleSTUN
unfoldable pub handle_stun : Bind → Text → Bind × Effects
handle_stun b pkt = stun_result b (parse_response pkt)

abbrev pub proof_sent : Bind → Option Text → Effects
proof_sent b none = quiet
proof_sent b (some proof) = written b proof b.relay_addr

module _ (c : Crypto) where
  abbrev pub on_challenge : Bind → AddrPort → Option (Text × Text) → Effects
  on_challenge b src none = quiet
  on_challenge b src (some (relay_pub, nonce)) =
      if is_valid_port b.relay_addr && addr_port_eq src b.relay_addr
      then proof_sent b (build_proof c b.relay_priv relay_pub nonce)
      else quiet

  abbrev pub on_recv : ℕ → Option (Text × Text) → Effects
  on_recv buf_len none = quiet
  on_recv buf_len (some (src_key, [])) = quiet
  on_recv buf_len (some (src_key, p ∷ ps)) =
      if leb (length (p ∷ ps)) buf_len then to_engine (p ∷ ps) (via_relay src_key) else quiet

  unfoldable pub handle_relay : ℕ → ℕ → Bind → Text → AddrPort → Bind × Effects
  handle_relay now buf_len b pkt src =
      if frame_type pkt == type_ack
      then (record b { relay_last_ack = now }, quiet)
      else if frame_type pkt == type_challenge
      then (b, on_challenge b src (parse_challenge pkt))
      else if frame_type pkt == type_recv
      then (b, on_recv buf_len (parse_keyed pkt))
      else (b, quiet)

  -- One round of the loop of receive: a packet is taken by disco, STUN or the relay, or it is
  -- WireGuard's. The loop goes on until a packet goes to the engine.
  unfoldable pub receive_one : ℕ → ℕ → Bind → Text → AddrPort → Bind × Effects
  receive_one now buf_len b pkt src =
      if is_disco pkt
      then (b, handle_disco b pkt src)
      else if is_binding_response pkt
      then handle_stun b pkt
      else if is_frame pkt
      then handle_relay now buf_len b pkt src
      else (b, to_engine pkt (direct src))

-- RelayHealthy
unfoldable pub relay_healthy : ℕ → Bind → Bool
relay_healthy now b = is_valid_port b.relay_addr && ltb now (b.relay_last_ack + 35 * 1_000_000_000)

-- Send, to one endpoint: the packets, each to its address or wrapped for the relay; `none` is an
-- error.
abbrev pub send_each : (Text → Text) → AddrPort → List Text → List (Text × AddrPort)
send_each wrap dst [] = []
send_each wrap dst (p ∷ ps) = (wrap p, dst) ∷ send_each wrap dst ps

abbrev pub no_packets : List Text → Bool
no_packets [] = true
no_packets (p ∷ ps) = false

unfoldable pub send : Bind → List Text → Endpoint → Option (List (Text × AddrPort))
send b bufs (direct dst) =
    if b.is_open || no_packets bufs then some (send_each (λ p. p) dst bufs) else none
send b bufs (via_relay key) =
    if is_valid_port b.relay_addr && (b.is_open || no_packets bufs)
    then some (send_each (build_forward key) b.relay_addr bufs)
    else none

-- RelayRegister
unfoldable pub relay_register : Bind → Option (Text × AddrPort)
relay_register b =
    if is_valid_port b.relay_addr && b.is_open
    then some (build_register b.relay_self_key, b.relay_addr)
    else none

abbrev pub configured : AddrPort → Text → Bind → Option Text → Option Bind
configured addr priv b none = none
configured addr priv b (some self_key) =
    some (record b { relay_addr = addr; relay_priv = priv; relay_self_key = self_key })

-- ConfigureRelay; `none` is an error.
unfoldable pub configure_relay : Crypto → AddrPort → Text → Bind → Option Bind
configure_relay c addr priv b = configured addr priv b (c.x25519 priv c.basepoint)

-- Close, when closing the socket itself succeeds.
unfoldable pub close : Bind → Bind
close b = record b { closed = true; is_open = false }
