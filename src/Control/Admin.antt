-- ===== src/Control/Admin.antt =====
-- internal/control/server.go: the enrolment handler and the handlers of the administrator; ACL,
-- SetACL, AuthKeys and CIDR of internal/control/store.go.
pub mod Policy
pub mod Known
use omniup_vpn.Base.{
  is_blank, ℕ, ◌+◌, ◌*◌, Bool, true, false, not, ◌&&◌, Option, none, some, List, [], ◌∷◌, ◌==◌,
  if◌then◌else◌, Text, codes, text_eq, length, map,
}
use omniup_vpn.NetText.{NetText}
use omniup_vpn.Unicode.{Unicode}
use omniup_vpn.Control.State.{
  Device, AuthKey, AclPolicy, Store, Env, Result, ok, err, Error, invalid_auth_key, Duration, pos,
  negsuc, persist, hour,
}
use omniup_vpn.Control.Acl.{clone, validate}
use omniup_vpn.Control.Devices.{create_auth_key_for, register_device}
use omniup_vpn.Control.Fleet.{devices, set_approved_routes, remove_device}
use omniup_vpn.Control.Api.{
  Peer, Reply, reply, failure, peer_view, admin_peer_view, mask_key, is_online,
}

-- ACL and SetACL
unfoldable pub acl_of : Store → Option AclPolicy
acl_of st = clone st.s.acl

unfoldable pub set_acl : Env → AclPolicy → Store → Result (Unit {0}) × Store
set_acl e p st = persist e.io tt (record st { s = record st.s { acl = clone (some p) } })

-- types.RegisterRequest and types.RegisterResponse
pub record RegisterRequest : Type 0 where
  pub auth_key : Text
  pub hostname : Text
  pub public_key : Text

pub record RegisterResponse : Type 0 where
  pub device_id : Text
  pub device_token : Text
  pub ip : Text
  pub cidr : Text

-- types.AuthKeyResponse, types.AuthKeyInfo and types.InfoResponse
pub record AuthKeyResponse : Type 0 where
  pub key : Text
  pub reusable : Bool
  pub expires_at : ℕ

pub record AuthKeyInfo : Type 0 where
  pub key_masked : Text
  pub reusable : Bool
  pub used : Bool
  pub created_at : ℕ
  pub expires_at : ℕ

pub record InfoResponse : Type 0 where
  pub cidr : Text
  pub device_count : ℕ
  pub online_count : ℕ

abbrev pub registered : Result Device × Store → Reply RegisterResponse × Store
registered (ok d, st) =
    (reply (record { device_id = d.id; device_token = d.token; ip = d.ip; cidr = st.s.cidr }), st)
registered (err invalid_auth_key, st) = (failure 401, st)
registered (err x, st) = (failure 500, st)

abbrev pub hostname_or_default : Text → Text
hostname_or_default h = if is_blank h then codes "machine-sans-nom" else h

-- handleRegister; `is_key` tells whether wgtypes.ParseKey accepts the public key.
unfoldable pub handle_register :
    NetText → (Text → Bool) → Env → Option RegisterRequest → Store → Reply RegisterResponse × Store
handle_register t is_key e none st = (failure 400, st)
handle_register t is_key e (some r) st =
    if not (is_key r.public_key)
    then (failure 400, st)
    else registered
        (register_device t e r.auth_key (hostname_or_default r.hostname) r.public_key st)

-- The `ttl` of a query: left out, not a duration, or a duration.
pub data Ttl : Type 0 where
  left_out no_duration : Ttl
  duration : Duration → Ttl

abbrev pub key_made : Result AuthKey × Store → Reply AuthKeyResponse × Store
key_made (ok k, st) =
    (reply (record { key = k.key; reusable = k.reusable; expires_at = k.expires_at }), st)
key_made (err x, st) = (failure 500, st)

-- handleCreateAuthKey
unfoldable pub handle_create_auth_key : Env → Text → Ttl → Store → Reply AuthKeyResponse × Store
handle_create_auth_key e reusable left_out st =
    key_made (create_auth_key_for e [] (text_eq reusable (codes "true")) (pos (24 * hour)) st)
handle_create_auth_key e reusable no_duration st = (failure 400, st)
handle_create_auth_key e reusable (duration (negsuc n)) st = (failure 400, st)
handle_create_auth_key e reusable (duration (pos n)) st =
    key_made (create_auth_key_for e [] (text_eq reusable (codes "true")) (pos n) st)

-- handleListDevices
unfoldable pub handle_list_devices : ℕ → Store → List Peer
handle_list_devices now st = map (admin_peer_view now) (devices st)

abbrev pub routes_set : ℕ → Result Device × Store → Reply Peer × Store
routes_set now (ok d, st) = (reply (admin_peer_view now d), st)
routes_set now (err x, st) = (failure 400, st)

-- handleSetRoutes; `none` is a body that is not the JSON it should be.
unfoldable pub handle_set_routes :
    NetText → Unicode → Env → ℕ → Text → Option (List Text) → Store → Reply Peer × Store
handle_set_routes t u e now target none st = (failure 400, st)
handle_set_routes t u e now target (some routes) st =
    routes_set now (set_approved_routes t u e target routes st)

abbrev pub key_info : AuthKey → AuthKeyInfo
key_info k = record {
  key_masked = mask_key k.key;
  reusable = k.reusable;
  used = k.used;
  created_at = k.created_at;
  expires_at = k.expires_at;
}

-- handleListAuthKeys
unfoldable pub handle_list_auth_keys : Store → List AuthKeyInfo
handle_list_auth_keys st = map key_info st.s.auth_keys

unfoldable pub count_online : ℕ → List Device → ℕ
count_online now [] = 0
count_online now (d ∷ ds) =
    let rest = count_online now ds in if is_online now d.last_seen then rest + 1 else rest

-- handleInfo
unfoldable pub handle_info : ℕ → Store → InfoResponse
handle_info now st = record {
  cidr = st.s.cidr;
  device_count = length (devices st);
  online_count = count_online now (devices st);
}

abbrev pub revoked : ℕ → Result Device × Store → Reply Peer × Store
revoked now (ok d, st) = (reply (peer_view now d), st)
revoked now (err x, st) = (failure 404, st)

-- handleRevokeDevice
unfoldable pub handle_revoke_device : Env → ℕ → Text → Store → Reply Peer × Store
handle_revoke_device e now target st = revoked now (remove_device e target st)

-- handleGetACL
abbrev pub or_empty : Option AclPolicy → AclPolicy
or_empty none = record { rules = [] }
or_empty (some p) = p

unfoldable pub handle_get_acl : Store → AclPolicy
handle_get_acl st = or_empty (acl_of st)

abbrev pub acl_set : AclPolicy → Result (Unit {0}) × Store → Reply AclPolicy × Store
acl_set p (ok _, st) = (reply p, st)
acl_set p (err x, st) = (failure 500, st)

abbrev pub if_valid : Env → AclPolicy → Store → Option ℕ → Reply AclPolicy × Store
if_valid e p st (some bad) = (failure 400, st)
if_valid e p st none = acl_set p (set_acl e p st)

-- handleSetACL
unfoldable pub handle_set_acl : Env → Option AclPolicy → Store → Reply AclPolicy × Store
handle_set_acl e none st = (failure 400, st)
handle_set_acl e (some p) st = if_valid e p st (validate p)
