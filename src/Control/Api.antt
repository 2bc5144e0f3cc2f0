-- ===== src/Control/Api.antt =====
-- internal/control/server.go: authentication of requests, the poll and the views of machines.
pub mod Poll
pub mod Lost
use omniup_vpn.Base.{
  ℕ, zero, suc, ◌+◌, ◌-◌, ◌/◌, ◌%◌, Bool, true, false, not, ◌||◌, ◌&&◌, Option, none, some, List,
  [], ◌∷◌, ◌++◌, ltb, leb, ◌==◌, if◌then◌else◌, Text, codes, text_eq, length, take, drop,
}
use omniup_vpn.NetText.{NetText}
use omniup_vpn.Unicode.{Unicode}
use omniup_vpn.Control.State.{
  Device, StateFile, Store, Env, Result, ok, err, online_threshold, since_lt, AclPolicy, AuthKey,
}
use omniup_vpn.Control.Acl.{visible, clone}
use omniup_vpn.Control.Fleet.{
  device_by_token, rotate_token_if_due, touch_device, active_routes, devices,
}

-- types.Peer
pub record Peer : Type 0 where
  pub hostname : Text
  pub public_key : Text
  pub ip : Text
  pub owner : Text
  pub endpoint : Text
  pub endpoints : List Text
  pub routes : List Text
  pub advertised_routes : List Text
  pub last_seen : ℕ
  pub online : Bool

-- types.NetMap
pub record NetMap : Type 0 where
  pub self : Peer
  pub peers : List Peer
  pub new_token : Text

-- types.PollRequest; the listen port, when it is positive.
pub record PollRequest : Type 0 where
  pub listen_port : ℕ
  pub endpoints : Option (List Text)
  pub advertised_routes : Option (List Text)

-- `!d.LastSeen.IsZero() && now.Sub(d.LastSeen) < OnlineThreshold`
abbrev pub is_online : ℕ → ℕ → Bool
is_online now last_seen = not (last_seen == 0) && since_lt now last_seen online_threshold

unfoldable pub peer_view : ℕ → Device → Peer
peer_view now d = record {
  hostname = d.hostname;
  public_key = d.public_key;
  ip = d.ip;
  owner = d.owner;
  endpoint = d.endpoint;
  endpoints = d.endpoints;
  routes = active_routes d;
  advertised_routes = [];
  last_seen = d.last_seen;
  online = is_online now d.last_seen;
}

unfoldable pub admin_peer_view : ℕ → Device → Peer
admin_peer_view now d = record (peer_view now d) { advertised_routes = d.advertised_routes }

-- An HTTP answer: a body, or an error under its status.
pub data Reply {ℓ} (A : Type ℓ) : Type ℓ where
  reply : A → Reply A
  failure : ℕ → Reply A

-- strconv.Itoa, with fuel; a number has no more digits than one more than itself.
unfoldable pub itoa_fuel : ℕ → ℕ → Text
itoa_fuel zero n = []
itoa_fuel (suc f) n =
    let rest = itoa_fuel f (n / 10) ++ (n % 10 + b'0') ∷ [] in
    if ltb n 10 then (n + b'0') ∷ [] else rest

abbrev pub itoa : ℕ → Text
itoa n = itoa_fuel (n + 1) n

unfoldable pub has_colon : Text → Bool
has_colon [] = false
has_colon (c ∷ cs) = (c == b':') || has_colon cs

-- net.JoinHostPort
unfoldable pub join_host_port : Text → Text → Text
join_host_port host port =
    if has_colon host
    then codes "[" ++ (host ++ (codes "]:" ++ port))
    else host ++ (codes ":" ++ port)

abbrev pub observed : Option Text → ℕ → Text
observed none port = []
observed (some host) port = if port == 0 then [] else join_host_port host (itoa port)

-- The loop of handlePoll over the sorted machines: its own view, and the peers it may know.
unfoldable pub self_view : ℕ → Device → List Device → Peer → Peer
self_view now self [] found = found
self_view now self (d ∷ ds) found =
    self_view now self ds (if text_eq d.public_key self.public_key then peer_view now d else found)

unfoldable pub peers_of : Option AclPolicy → ℕ → Device → List Device → List Peer
peers_of acl now self [] = []
peers_of acl now self (d ∷ ds) =
    let rest = peers_of acl now self ds in
    if text_eq d.public_key self.public_key
    then rest
    else if not (visible acl self d)
    then rest
    else peer_view now d ∷ rest

unfoldable pub net_map : ℕ → Text → Device → Store → NetMap
net_map now new_token self st = record {
  self = self_view now self (devices st) (record (peer_view now self) { online = true });
  peers = peers_of (clone st.s.acl) now self (devices st);
  new_token = new_token;
}

abbrev pub answer_map : ℕ → Device → Result Text × Store → Reply NetMap × Store
answer_map now self (err x, st) = (failure 500, st)
answer_map now self (ok tok, st) = (reply (net_map now tok self st), st)

abbrev pub after_touch : Env → ℕ → Device → Result (Unit {0}) × Store → Reply NetMap × Store
after_touch e now self (err x, st) = (failure 500, st)
after_touch e now self (ok _, st) = answer_map now self (rotate_token_if_due e self.public_key st)

module _ (t : NetText) (u : Unicode) where
  -- handlePoll: the activity is recorded, then the token is rotated if that is due, and the map is
  -- the one of the store as it then is. `host` is that of the remote address, if it splits.
  unfoldable pub handle_poll :
      Env → Env → ℕ → Option Text → Option PollRequest → Device → Store → Reply NetMap × Store
  handle_poll e e' now host none self st = (failure 400, st)
  handle_poll e e' now host (some r) self st = after_touch e' now self (
      touch_device t u e self.public_key (observed host r.listen_port) r.endpoints
        r.advertised_routes st)

  abbrev pub with_device :
      Env
      → Env
      → ℕ
      → Option Text
      → Option PollRequest
      → Store
      → Option Device
      → Reply NetMap × Store
  with_device e e' now host r st none = (failure 401, st)
  with_device e e' now host r st (some d) = handle_poll e e' now host r d st

abbrev pub bearer_prefix : Text
bearer_prefix = codes "Bearer "

-- bearerToken
unfoldable pub bearer_token : Text → Text
bearer_token h = if text_eq (take 7 h) bearer_prefix then drop 7 h else []

module _ (t : NetText) (u : Unicode) where
  -- The poll behind requireDevice.
  unfoldable pub poll :
      Env → Env → ℕ → Text → Option Text → Option PollRequest → Store → Reply NetMap × Store
  poll e e' now header host r st =
      with_device t u e e' now host r st (device_by_token e.now (bearer_token header) st)

-- requireAdmin: whether the request goes on to its handler.
unfoldable pub admin_allowed : Text → Store → Bool
admin_allowed header st = text_eq (bearer_token header) st.s.admin_key

-- maskKey; the ellipsis is three bytes in UTF-8.
unfoldable pub mask_key : Text → Text
mask_key key =
    if leb (length key) 10
    then key
    else take 6 key ++ (0xE2 ∷ 0x80 ∷ 0xA6 ∷ drop (length key - 6) key)
