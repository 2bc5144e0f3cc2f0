-- ===== src/Relay/Server.antt =====
-- internal/relay/server.go: the state of the relay and what it does with one packet. Serve handles
-- the packets one after the other.
pub mod Links
pub mod Authentic
pub mod Proven
pub mod Handshake
use omniup_vpn.Base.{
  ℕ, ◌+◌, ◌*◌, Bool, true, false, not, ◌&&◌, ◌||◌, Option, none, some, List, [], ◌∷◌, ltb, leb,
  ◌==◌, if◌then◌else◌, Text, text_eq, text_key,
}
use omniup_vpn.Base.Map.{Map, get, put, delete}
use omniup_vpn.Net.{AddrPort, addr_port_eq, addr_port_key, no_addr}
use omniup_vpn.Relay.Frames.{
  is_frame, frame_type, type_register, type_forward, type_proof, parse_keyed, ProofFrame,
  parse_proof, build_ack, build_challenge, build_recv,
}
use omniup_vpn.Relay.Proof.{Crypto, verify_proof}

abbrev pub second : ℕ
second = 1_000_000_000

abbrev pub client_ttl : ℕ
client_ttl = 40 * second

abbrev pub challenge_ttl : ℕ
challenge_ttl = 30 * second

pub record Client : Type 0 where
  pub addr : AddrPort
  pub last_seen : ℕ

pub record PendingChallenge : Type 0 where
  pub nonce : Text
  pub expires : ℕ

pub record Server : Type 0 where
  pub priv : Text
  pub self_key : Text
  pub clients : Map Text Client
  pub by_addr : Map AddrPort Text
  pub pending : Map AddrPort PendingChallenge

-- The instant of a packet, and the nonce that rand.Read gives, unless it fails.
pub record Env : Type 0 where
  pub now : ℕ
  pub nonce : Option Text

-- The new state and the packets that are sent.
abbrev pub Outcome : Type 0
Outcome = Server × List (Text × AddrPort)

-- `time.Since(t) < ttl`
abbrev pub fresh_at : ℕ → Client → Bool
fresh_at now c = ltb now (c.last_seen + client_ttl)

abbrev pub challenge : ℕ → AddrPort → Option Text → Server → Outcome
challenge now src none s = (s, [])
challenge now src (some nonce) s = (
  record s {
    pending = put src (record { nonce = nonce; expires = now + challenge_ttl }) s.pending;
  },
  (build_challenge s.self_key nonce, src) ∷ [],
)

abbrev pub is_refresh : ℕ → AddrPort → Option Client → Bool
is_refresh now src none = false
is_refresh now src (some cur) = addr_port_eq cur.addr src && fresh_at now cur

-- REGISTER: a registration that is still valid is refreshed; any other is challenged.
unfoldable pub register : Env → AddrPort → Text → Server → Outcome
register e src key s =
    if is_refresh e.now src (get key s.clients)
    then (
      record s { clients = put key (record { addr = src; last_seen = e.now }) s.clients },
      (build_ack, src) ∷ [],
    )
    else challenge e.now src e.nonce s

abbrev pub answers : ℕ → Text → Option PendingChallenge → Bool
answers now nonce none = false
answers now nonce (some ch) = ltb now ch.expires && text_eq ch.nonce nonce

-- `delete(s.byAddr, old.addr)` if the key was registered elsewhere.
abbrev pub forget_old : AddrPort → Option Client → Map AddrPort Text → Map AddrPort Text
forget_old src none m = m
forget_old src (some old) m = if addr_port_eq old.addr src then m else delete old.addr m

unfoldable pub enter : ℕ → AddrPort → Text → Server → Server
enter now src key s = record s {
  clients = put key (record { addr = src; last_seen = now }) s.clients;
  by_addr = put src key (forget_old src (get key s.clients) s.by_addr);
}

module _ (c : Crypto) where
  -- PROOF: the challenge is consumed before the proof is verified.
  unfoldable pub prove : Env → AddrPort → ProofFrame → Server → Outcome
  prove e src p s =
      if answers e.now p.nonce (get src s.pending)
      then (let s' = record s { pending = delete src s.pending } in
          if verify_proof c s.priv p.client_pub p.nonce p.mac
          then (enter e.now src p.client_pub s', (build_ack, src) ∷ [])
          else (s', []))
      else (s, [])

-- The client of a key, or Go's zero value.
abbrev pub client_or_zero : Option Client → Client
client_or_zero none = record { addr = record { addr = no_addr; port = 0 }; last_seen = 0 }
client_or_zero (some c) = c

abbrev pub forward_to : ℕ → AddrPort → Text → Client → Text → Option Client → List (Text × AddrPort)
forward_to now src src_key sender payload none = []
forward_to now src src_key sender payload (some dst) =
    if not (addr_port_eq sender.addr src) || not (fresh_at now sender) || not (fresh_at now dst)
    then []
    else (build_recv src_key payload, dst.addr) ∷ []

abbrev pub forward_from : ℕ → AddrPort → Text → Text → Server → Option Text → List (Text × AddrPort)
forward_from now src dst_key payload s none = []
forward_from now src dst_key payload s (some src_key) =
    forward_to now src src_key (client_or_zero (get src_key s.clients)) payload
      (get dst_key s.clients)

-- FORWARD: from an authenticated sender whose registration is fresh, to a fresh client.
unfoldable pub forward : Env → AddrPort → Text → Text → Server → Outcome
forward e src dst_key [] s = (s, [])
forward e src dst_key (b ∷ bs) s =
    (s, forward_from e.now src dst_key (b ∷ bs) s (get src s.by_addr))

abbrev pub on_register : Env → AddrPort → Server → Option (Text × Text) → Outcome
on_register e src s none = (s, [])
on_register e src s (some (key, rest)) = register e src key s

abbrev pub on_forward : Env → AddrPort → Server → Option (Text × Text) → Outcome
on_forward e src s none = (s, [])
on_forward e src s (some (dst_key, payload)) = forward e src dst_key payload s

module _ (c : Crypto) where
  abbrev pub on_proof : Env → AddrPort → Server → Option ProofFrame → Outcome
  on_proof e src s none = (s, [])
  on_proof e src s (some p) = prove c e src p s

  -- handle
  unfoldable pub handle : Env → Text → AddrPort → Server → Outcome
  handle e pkt src s =
      if not (is_frame pkt)
      then (s, [])
      else if frame_type pkt == type_register
      then on_register e src s (parse_keyed pkt)
      else if frame_type pkt == type_proof
      then on_proof e src s (parse_proof pkt)
      else if frame_type pkt == type_forward
      then on_forward e src s (parse_keyed pkt)
      else (s, [])

  -- The packets that arrive, each with its instant and its source.
  unfoldable pub serve : List (Env × Text × AddrPort) → Server → Server
  serve [] s = s
  serve ((e, pkt, src) ∷ rest) s = serve rest (handle e pkt src s).0
