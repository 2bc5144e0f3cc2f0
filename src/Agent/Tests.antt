-- ===== src/Agent/Tests.antt =====
-- What the theorems about the endpoint manager say of one peer.
use omniup_vpn.Wgnet.Device.{without}
use omniup_vpn.Base.{ℕ, arith, not, ◌||◌, ltb}
use omniup_vpn.Agent.Endpoints.{plan}
use omniup_vpn.Agent.Endpoints.Fallback.{rounds, probe_fallback}
use omniup_vpn.Agent.Endpoints.Probe.{probe}
use omniup_vpn.Base.{◌≢◌, ◌&&◌, Text, inl}
use omniup_vpn.Control.Demo.{two, laptop}
use omniup_vpn.Control.Api.{net_map, peers_of, peer_view}
use omniup_vpn.Control.Api.Poll.{AnyEntry}
use omniup_vpn.Wgnet.Device.{
  RouteTable, set_routes, add_missing, desired_routes, want_route, check_route, drop_stale,
}
use omniup_vpn.Agent.Routes.{
  RouteOptions, default_route, filter_routes, is_taken, subnets_of, subnets_from, exit_found,
  with_kept, kept, is_exit,
}
use omniup_vpn.Agent.Routes.Installed.{IsRouter, system_routes_approved}
use omniup_vpn.Base.{◌≡◌, refl, true, false, none, some, [], ◌∷◌, codes, text_eq, text_key}
use omniup_vpn.Base.Map.{Map, get}
use omniup_vpn.Relay.Demo.{alice, bob}
use omniup_vpn.Control.Fleet.{
  mem_text, devices, sorted_by_ip, insert_by_ip, text_lt, active_routes, approved_of,
}
use omniup_vpn.Control.Acl.{visible, allows, clone}
use omniup_vpn.Base.Bytes.{be_bytes}
use omniup_vpn.Control.Api.{Peer}
use omniup_vpn.Agent.Endpoints.{PendingProbe, EndpointManager, is_relayed, on_pong}
use omniup_vpn.Agent.Endpoints.Pongs.{pong_returns}

abbrev peer : Peer
peer = record {
  hostname = codes "desk";
  public_key = codes "k";
  ip = [];
  owner = [];
  endpoint = codes "a:1";
  endpoints = codes "a:1" ∷ [] ∷ codes "b:2" ∷ [];
  routes = [];
  advertised_routes = [];
  last_seen = 0;
  online = true;
}

abbrev waiting_probe : PendingProbe
waiting_probe = record { public_key = peer.public_key; candidate = alice; sent_at = 1 }

abbrev relayed : EndpointManager
relayed = record {
  pending = (codes "id", waiting_probe) ∷ [];
  peers = (peer.public_key, codes "a:1" ∷ []) ∷ [];
  relay_ok = true;
  disconnected = (peer.public_key, 3) ∷ [];
  on_relay = (peer.public_key, true) ∷ [];
}

pong_returns_example :
    ((on_pong 5 none true (codes "id") bob relayed).1 ≡ some (peer.public_key, bob))
    × (is_relayed peer.public_key (on_pong 5 none true (codes "id") bob relayed).0 ≡ false)
    × (get peer.public_key (on_pong 5 none true (codes "id") bob relayed).0.disconnected ≡ some 0)
    × (on_pong 6 none true (codes "id") alice (on_pong 5 none true (codes "id") bob relayed).0
        ≡ ((on_pong 5 none true (codes "id") bob relayed).0, none))
unfolding get text_eq
pong_returns_example =
    pong_returns 5 6 none none (codes "id") relayed true bob alice waiting_probe refl refl

abbrev options : RouteOptions
options = record {
  advertise_routes = [];
  advertise_exit_node = false;
  accept_routes = true;
  exit_node = [];
}

abbrev lan : Text
lan = codes "10.2.0.0/24"

-- A route that the map does not offer stands in the way.
abbrev old_routes : RouteTable
old_routes = record { installed = codes "10.9.0.0/24" ∷ []; system = codes "10.9.0.0/24" ∷ [] }

system_routes_approved_example :
    (c : Text) × (some c ≡ some lan)
    × (c ≢ default_route)
    × (options.accept_routes ≡ true)
    × (mem_text c [] ≡ false)
    × AnyEntry (IsRouter two.s.acl laptop c) two.s.devices
unfolding mem_text set_routes add_missing desired_routes filter_routes subnets_of net_map peers_of
    devices sorted_by_ip insert_by_ip text_lt be_bytes text_eq visible allows clone exit_found
    want_route check_route drop_stale subnets_from is_taken with_kept kept is_exit peer_view
    active_routes approved_of without
system_routes_approved_example =
    system_routes_approved some (λ r. true) (λ r. true) 5 [] laptop two options [] old_routes lan
      (inl refl) refl

-- The third round without a handshake.
abbrev lost : EndpointManager
lost = record relayed { disconnected = (peer.public_key, 2) ∷ []; on_relay = [] }

-- Its last handshake, 200 seconds before.
abbrev seen : Map Text ℕ
seen = (peer.public_key, 5) ∷ []

probe_fallback_example :
    (rounds peer.public_key
        (probe (λ s. some alice) 200_000_000_000 (λ k. true) [] (some seen) lost)
      ≡ 3)
    × (mem_text peer.public_key (plan (λ s. some alice) 200_000_000_000 seen lost).to_relay
        ≡ (not (is_relayed peer.public_key lost) && (lost.relay_ok && ltb 2 3)))
    × (is_relayed peer.public_key
          (probe (λ s. some alice) 200_000_000_000 (λ k. true) [] (some seen) lost)
        ≡ (is_relayed peer.public_key lost
            || ((not (is_relayed peer.public_key lost) && (lost.relay_ok && ltb 2 3)) && true)))
unfolding get text_eq
probe_fallback_example =
    probe_fallback (λ s. some alice) 200_000_000_000 (λ k. true) [] seen lost peer.public_key
      (codes "a:1" ∷ []) (refl, tt) refl (omega arith)
