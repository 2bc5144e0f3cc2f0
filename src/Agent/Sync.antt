-- ===== src/Agent/Sync.antt =====
-- internal/agent/agent.go: one round of the loop of Up, the closure `sync`. What the server, the
-- engine, the socket and the file system answer in the round is an input. The packet by which the
-- agent stays registered at the relay is relay_register of Omnisock/Bind, and changes nothing here.
pub mod Token
pub mod Withdrawn
mod Tests
use omniup_vpn.Base.{
  ℕ, ◌+◌, ◌*◌, Bool, true, false, not, Option, none, some, List, [], ◌∷◌, ltb, if◌then◌else◌, Text,
  is_blank,
}
use omniup_vpn.Base.Map.{Map}
use omniup_vpn.Net.{AddrPort}
use omniup_vpn.Unicode.{Unicode}
use omniup_vpn.Control.State.{SaveSteps}
use omniup_vpn.Control.Api.{Peer, NetMap, PollRequest}
use omniup_vpn.Wgnet.Keys.{WgKeys}
use omniup_vpn.Wgnet.Device.{RouteTable, sync_peers, set_routes}
use omniup_vpn.Dnssrv.{DnsServer, update}
use omniup_vpn.Agent.Endpoints.{
  EndpointManager, second, initial_endpoint, set_relay_available, observe,
}
use omniup_vpn.Agent.Endpoints.Probe.{probe}
use omniup_vpn.Agent.Routes.{RouteOptions, filter_routes}
use omniup_vpn.Agent.State.{State, StateDisk, save_state}
use omniup_vpn.Agent.Client.{Called, done, Exchange, call}

abbrev pub stun_refresh : ℕ
stun_refresh = 25 * second

-- The variables of Up that a round reads and writes. Those that only choose what is logged are left
-- out.
pub record Agent : Type 0 where
  pub identity : State
  pub token : Text
  pub disk : StateDisk
  pub my_endpoints : List Text
  pub last_stun : ℕ
  pub known : List Text
  pub routes : RouteTable
  pub manager : EndpointManager
  pub dns : Option DnsServer

-- What Up has settled before the loop.
pub record Setup : Type 0 where
  pub options : RouteOptions
  pub advertised : List Text
  pub relay_enabled : Bool

-- What one round meets.
pub record Round : Type 0 where
  pub now : ℕ
  pub relay_healthy : Bool
  pub discovered : List Text
  pub exchange : PollRequest → Exchange NetMap
  pub io : SaveSteps
  pub ipc_set : Text → Bool
  pub del_ok : Text → Bool
  pub add_ok : Text → Bool
  pub handshakes : Option (Map Text ℕ)
  pub relay_ok : Text → Bool
  pub ping_ids : List (Option Text)

-- The parsers of net, netip and wgtypes.
pub record Parsers : Type 0 where
  pub keys : WgKeys
  pub is_ip : Text → Bool
  pub is_cidr : Text → Bool
  pub network : Text → Option Text
  pub parse_ip : Text → Option Text
  pub parse_addr_port : Text → Option AddrPort

-- `omitempty`: an empty list is left out of the JSON, and is nil for the server.
abbrev pub unless_empty : List Text → Option (List Text)
unless_empty [] = none
unless_empty (x ∷ xs) = some (x ∷ xs)

-- What the client sends.
unfoldable pub poll_request : Setup → Agent → PollRequest
poll_request o a = record {
  listen_port = a.identity.listen_port;
  endpoints = unless_empty a.my_endpoints;
  advertised_routes = unless_empty o.advertised;
}

-- Steps 0 and 1: the relay, and the own endpoints.
abbrev pub or_old : List Text → List Text → List Text
or_old [] old = old
or_old (x ∷ xs) old = x ∷ xs

unfoldable pub with_relay : Setup → Round → Agent → Agent
with_relay o r a =
    if o.relay_enabled
    then record a { manager = set_relay_available r.relay_healthy a.manager }
    else a

unfoldable pub with_stun : Round → Agent → Agent
with_stun r a =
    if ltb (a.last_stun + stun_refresh) r.now
    then record a { my_endpoints = or_old r.discovered a.my_endpoints; last_stun = r.now }
    else a

-- Step 2 bis: the new token is in use whether or not it could be saved.
unfoldable pub with_token : SaveSteps → Text → Agent → Agent
with_token io tok a =
    let identity = record a.identity { device_token = tok } in
    if is_blank tok
    then a
    else record a { identity = identity; token = tok; disk = (save_state io identity a.disk).1 }

module _ (ps : Parsers) (u : Unicode) (o : Setup) (r : Round) where
  abbrev pub with_routes : List Text → Agent → Agent
  with_routes subnets a =
      if o.options.accept_routes
      then record a { routes = (set_routes ps.network r.del_ok r.add_ok subnets a.routes).1 }
      else a

  abbrev pub dns_updated : NetMap → Option DnsServer → Option DnsServer
  dns_updated nm none = none
  dns_updated nm (some s) = some (update u ps.parse_ip nm s)

  -- Steps 5 and 6, and the names.
  unfoldable pub applied : NetMap → List Text → Agent → Agent
  applied nm subnets a =
      let b = with_routes subnets a in
      record b {
        manager =
            probe ps.parse_addr_port r.now r.relay_ok r.ping_ids r.handshakes
              (observe nm.peers b.manager);
        dns = dns_updated nm b.dns;
      }

  abbrev pub after_peers : NetMap → List Text → Agent → Bool × List Text → Agent
  after_peers nm subnets a (true, known) = applied nm subnets (record a { known = known })
  after_peers nm subnets a (false, known) = a

  -- Steps 3 and 4: the routes are filtered, and the peers written to the engine.
  unfoldable pub with_map : NetMap → Agent → Agent
  with_map nm a =
      let (peers, subnets, exit) = filter_routes o.options o.advertised nm.peers in
      after_peers nm subnets a
        (sync_peers ps.keys ps.is_ip ps.is_cidr initial_endpoint r.ipc_set peers a.known)

  abbrev pub after_poll : Agent → Called NetMap → Agent
  after_poll a (done nm) = with_map nm (with_token r.io nm.new_token a)
  after_poll a _ = a

  abbrev pub ready : Agent → Agent
  ready a = with_stun r (with_relay o r a)

  -- sync
  unfoldable pub sync : Agent → Agent
  sync a = after_poll (ready a) (call (r.exchange (poll_request o (ready a))))
