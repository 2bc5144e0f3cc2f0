-- ===== src/Agent/Sync/Tests.antt =====
-- A round of an agent whose token the server rotates.
use omniup_vpn.Agent.Sync.{with_relay}
use omniup_vpn.Agent.Sync.{with_stun}
use omniup_vpn.Base.Map.{modify}
use omniup_vpn.Control.State.{save}
use omniup_vpn.Control.State.{persist}
use omniup_vpn.Base.{◌≡◌, refl, true, false, none, some, [], ◌∷◌, ◌++◌, codes, text_key, text_eq}
use omniup_vpn.Base.Map.{get}
use omniup_vpn.Control.State.{Device, Env, Store, random_hex}
use omniup_vpn.Control.Fleet.{rotate_token_if_due, touch_device, active_routes}
use omniup_vpn.Control.Api.{NetMap, net_map, handle_poll}
use omniup_vpn.Control.Demo.{net_text, plain, works, full, at, two, laptop}
use omniup_vpn.Wgnet.Demo.{keys}
use omniup_vpn.Agent.Client.{answer, call}
use omniup_vpn.Agent.Sync.{Agent, Setup, Round, Parsers, poll_request, sync, ready}
use omniup_vpn.Agent.Sync.Token.{InStep, sync-InStep}
use omniup_vpn.Agent.Sync.Withdrawn.{withdrawn_kept}

abbrev parsers : Parsers
parsers = record {
  keys = keys;
  is_ip = λ i. true;
  is_cidr = λ r. true;
  network = some;
  parse_ip = some;
  parse_addr_port = λ s. none;
}

abbrev setup : Setup
setup = record {
  options = record {
    advertise_routes = [];
    advertise_exit_node = false;
    accept_routes = true;
    exit_node = [];
  };
  advertised = [];
  relay_enabled = false;
}

abbrev agent : Agent
agent = record {
  identity = record {
    server_url = [];
    private_key = [];
    device_id = laptop.id;
    device_token = laptop.token;
    ip = laptop.ip;
    cidr = [];
    iface = [];
    listen_port = 0;
  };
  token = laptop.token;
  disk = record { file = none; temp = false };
  my_endpoints = [];
  last_stun = 0;
  known = [];
  routes = record { installed = []; system = [] };
  manager = record { pending = []; peers = []; relay_ok = false; disconnected = []; on_relay = [] };
  dns = none;
}

-- Two days after the token was issued, in nanoseconds.
abbrev due : Env
due = record (at 1 works) { now = 172_800_000_000_000 }

abbrev seen : Store
seen = (touch_device net_text plain due laptop.public_key [] none none two).1

abbrev map_given : NetMap
map_given =
    net_map 7 (codes "omtok-" ++ random_hex (1 ∷ 7 ∷ [])) laptop
      (rotate_token_if_due due laptop.public_key seen).1

-- The disk of the agent is full.
abbrev round : Round
round = record {
  now = 1;
  relay_healthy = false;
  discovered = [];
  exchange = λ request. answer 200 (some map_given) none;
  io = full;
  ipc_set = λ text. true;
  del_ok = λ r. true;
  add_ok = λ r. true;
  handshakes = none;
  relay_ok = λ k. true;
  ping_ids = [];
}

sync-InStep_example :
    InStep laptop.public_key
      (handle_poll net_text plain due due 7 none
        (some (poll_request setup (ready parsers plain setup round agent)))
        laptop
        two).1
      (sync parsers plain setup round agent).token
unfolding get text_eq handle_poll touch_device persist save rotate_token_if_due modify poll_request
    with_stun with_relay call
sync-InStep_example =
    sync-InStep net_text plain plain parsers setup round agent due due 7 none laptop two map_given
      (laptop, refl, refl) refl refl

withdrawn_kept_example :
    (d' : Device) × (get laptop.public_key
        (touch_device net_text plain due laptop.public_key []
          (poll_request setup agent).endpoints
          (poll_request setup agent).advertised_routes
          two).1.s.devices
      ≡ some d')
    × (active_routes d' ≡ active_routes laptop)
unfolding get text_eq
withdrawn_kept_example =
    withdrawn_kept net_text plain due laptop.public_key [] setup agent laptop two refl refl
