-- ===== src/Agent/Endpoints.antt =====
-- internal/agent/endpoints.go: the EndpointManager. A method that releases the lock in its middle is
-- one function for each stretch under the lock. The handshakes of the engine, the outcome of its
-- calls and netip.ParseAddrPort are inputs.
pub mod Candidates
pub mod Pongs
pub mod Probe
pub mod Discover
pub mod Fallback
pub mod Own
use omniup_vpn.Base.{
  is_blank, ℕ, ◌+◌, ◌*◌, Bool, true, false, not, ◌||◌, ◌&&◌, Option, none, some, List, [], ◌∷◌,
  ◌++◌, ltb, if◌then◌else◌, Text, text_key,
}
use omniup_vpn.Base.Map.{Map, get, put, delete}
use omniup_vpn.Net.{AddrPort}
use omniup_vpn.Control.Fleet.{mem_text}
use omniup_vpn.Control.Api.{Peer}

abbrev pub second : ℕ
second = 1_000_000_000

abbrev pub handshake_fresh : ℕ
handshake_fresh = 135 * second

abbrev pub relay_after_rounds : ℕ
relay_after_rounds = 2

abbrev pub probe_ttl : ℕ
probe_ttl = 15 * second

pub record PendingProbe : Type 0 where
  pub public_key : Text
  pub candidate : AddrPort
  pub sent_at : ℕ

pub record EndpointManager : Type 0 where
  pub pending : Map Text PendingProbe
  pub peers : Map Text (List Text)
  pub relay_ok : Bool
  pub disconnected : Map Text ℕ
  pub on_relay : Map Text Bool

-- `m[k]` of a Go map, with the zero value for a missing key.
abbrev pub or_zero : Option ℕ → ℕ
or_zero none = 0
or_zero (some n) = n

abbrev pub or_false : Option Bool → Bool
or_false none = false
or_false (some b) = b

abbrev pub is_relayed : Text → EndpointManager → Bool
is_relayed pub_key m = or_false (get pub_key m.on_relay)

-- The `add` of candidatesOf; what it has seen is what it has appended.
unfoldable pub add_candidate : List Text → Text → List Text
add_candidate out ep = if is_blank ep || mem_text ep out then out else out ++ ep ∷ []

unfoldable pub add_candidates : List Text → List Text → List Text
add_candidates out [] = out
add_candidates out (ep ∷ eps) = add_candidates (add_candidate out ep) eps

-- candidatesOf
unfoldable pub candidates_of : Peer → List Text
candidates_of p = add_candidate (add_candidates [] p.endpoints) p.endpoint

abbrev pub first_of : List Text → Text
first_of [] = []
first_of (c ∷ cs) = c

-- InitialEndpoint
unfoldable pub initial_endpoint : Peer → Text
initial_endpoint p = first_of (candidates_of p)

-- SetRelayAvailable
unfoldable pub set_relay_available : Bool → EndpointManager → EndpointManager
set_relay_available ok m = record m { relay_ok = ok }

unfoldable pub known_peers : Map Text (List Text) → List Peer → Map Text (List Text)
known_peers m [] = m
known_peers m (p ∷ ps) = known_peers (put p.public_key (candidates_of p) m) ps

abbrev pub is_known : Option (List Text) → Bool
is_known none = false
is_known (some cs) = true

-- The entries of the peers that are still on the map.
unfoldable pub kept_for : {A : Type 0} → Map Text (List Text) → Map Text A → Map Text A
kept_for peers [] = []
kept_for peers ((k, a) ∷ m) =
    let rest = kept_for peers m in if is_known (get k peers) then (k, a) ∷ rest else rest

-- Observe
unfoldable pub observe : List Peer → EndpointManager → EndpointManager
observe ps m =
    let peers = known_peers [] ps in
    record m {
      peers = peers;
      disconnected = kept_for peers m.disconnected;
      on_relay = kept_for peers m.on_relay;
    }

-- `time.Since(pr.sentAt) > 15*time.Second`
unfoldable pub purge_probes : ℕ → Map Text PendingProbe → Map Text PendingProbe
purge_probes now [] = []
purge_probes now ((id, pr) ∷ m) =
    let rest = purge_probes now m in
    if ltb (pr.sent_at + probe_ttl) now then rest else (id, pr) ∷ rest

abbrev pub is_fresh : ℕ → Option ℕ → Bool
is_fresh now none = false
is_fresh now (some hs) = ltb now (hs + handshake_fresh)

-- What Probe does next: the peers to move to the relay, and the probes to send.
pub record Plan : Type 0 where
  pub manager : EndpointManager
  pub to_relay : List Text
  pub to_send : List (Text × AddrPort)

module _ (parse_addr_port : Text → Option AddrPort) (now : ℕ) (handshakes : Map Text ℕ) where
  abbrev pub probe_to : Text → Option AddrPort → List (Text × AddrPort)
  probe_to pub_key none = []
  probe_to pub_key (some ap) = (pub_key, ap) ∷ []

  unfoldable pub probes_of : Text → List Text → List (Text × AddrPort)
  probes_of pub_key [] = []
  probes_of pub_key (c ∷ cs) = probe_to pub_key (parse_addr_port c) ++ probes_of pub_key cs

  -- A round without a handshake.
  unfoldable pub count_round : Text → EndpointManager → EndpointManager × List Text
  count_round pub_key m =
      let n = or_zero (get pub_key m.disconnected) + 1 in
      let m' = record m { disconnected = put pub_key n m.disconnected } in
      if m.relay_ok && not (is_relayed pub_key m) && ltb relay_after_rounds n
      then (record m' { on_relay = put pub_key true m.on_relay }, pub_key ∷ [])
      else (m', [])

  unfoldable pub visit : Text → List Text → Plan → Plan
  visit pub_key candidates p =
      let fresh = is_fresh now (get pub_key handshakes) in
      let m = p.manager in
      if fresh && not (is_relayed pub_key m)
      then record p { manager = record m { disconnected = put pub_key 0 m.disconnected } }
      else if fresh
      then record p { to_send = p.to_send ++ probes_of pub_key candidates }
      else record {
        manager = (count_round pub_key m).0;
        to_relay = p.to_relay ++ (count_round pub_key m).1;
        to_send = p.to_send ++ probes_of pub_key candidates;
      }

  unfoldable pub visit_all : Map Text (List Text) → Plan → Plan
  visit_all [] p = p
  visit_all ((k, cs) ∷ m) p = visit_all m (visit k cs p)

  -- Probe, up to the release of the lock.
  unfoldable pub plan : EndpointManager → Plan
  plan m = visit_all m.peers (record {
    manager = record m { pending = purge_probes now m.pending };
    to_relay = [];
    to_send = [];
  })

-- The rest of Probe: a move to the relay that fails is taken back, and a ping that is sent waits.
unfoldable pub relay_failed : Text → EndpointManager → EndpointManager
relay_failed pub_key m = record m { on_relay = delete pub_key m.on_relay }

unfoldable pub ping_sent : Text → PendingProbe → EndpointManager → EndpointManager
ping_sent id pr m = record m { pending = put id pr m.pending }

-- onPong: `handshakes` are read unless that fails, and `set_ok` tells whether the engine takes the
-- endpoint. The second component is the endpoint that it is given.
abbrev pub connected : ℕ → Text → Option (Map Text ℕ) → Bool
connected now pub_key none = false
connected now pub_key (some handshakes) = is_fresh now (get pub_key handshakes)

abbrev pub direct_again :
    Bool → Text → AddrPort → EndpointManager → EndpointManager × Option (Text × AddrPort)
direct_again set_ok pub_key from m =
    if set_ok
    then (
      record m {
        on_relay = delete pub_key m.on_relay;
        disconnected = put pub_key 0 m.disconnected;
      },
      some (pub_key, from),
    )
    else (m, none)

abbrev pub on_probe_pong :
    ℕ
    → Option (Map Text ℕ)
    → Bool
    → Text
    → AddrPort
    → EndpointManager
    → Option PendingProbe
    → EndpointManager × Option (Text × AddrPort)
on_probe_pong now hs set_ok id from m none = (m, none)
on_probe_pong now hs set_ok id from m (some pr) =
    let m' = record m { pending = delete id m.pending } in
    if not (is_relayed pr.public_key m) && connected now pr.public_key hs
    then (m', none)
    else direct_again set_ok pr.public_key from m'

unfoldable pub on_pong :
    ℕ
    → Option (Map Text ℕ)
    → Bool
    → Text
    → AddrPort
    → EndpointManager
    → EndpointManager × Option (Text × AddrPort)
on_pong now hs set_ok id from m = on_probe_pong now hs set_ok id from m (get id m.pending)
