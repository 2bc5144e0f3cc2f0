-- ===== src/Control/Devices.antt =====
-- internal/control/store.go: enrolment, tokens, activity, routes and revocation of machines.
-- Each operation runs under the store's lock, so it is one function of the whole store.
pub mod SingleUse
pub mod Retry
use omniup_vpn.Base.{
  is_blank, ℕ, ◌+◌, Bool, true, false, not, ◌||◌, ◌&&◌, Option, none, some, List, [], ◌∷◌, ◌++◌,
  ltb, if◌then◌else◌, Text, codes, text_eq, text_key,
}
use omniup_vpn.Base.Map.{Map, get, put, delete, modify}
use omniup_vpn.Net.{Prefix, masked, is4}
use omniup_vpn.NetText.{NetText}
use omniup_vpn.Control.State.{
  Device, AuthKey, StateFile, Store, Env, SaveSteps, Result, ok, err, invalid_auth_key,
  unknown_device, no_match, bad_route, device_not_owned, persist, random_hex, since_lt, unexpired,
  Duration, expiry, token_rotate_after, token_grace,
}
use omniup_vpn.Control.Alloc.{allocate_ip}

abbrev pub with_devices : Store → Map Text Device → Store
with_devices st m = record st { s = record st.s { devices = m } }

abbrev pub with_keys : Store → List AuthKey → Store
with_keys st ks = record st { s = record st.s { auth_keys = ks } }

-- CreateAuthKeyFor; CreateAuthKey is the case of a blank owner.
unfoldable pub create_auth_key_for : Env → Text → Bool → Duration → Store → Result AuthKey × Store
create_auth_key_for e owner reusable ttl st =
    let k : AuthKey = record {
      key = codes "omkey-" ++ random_hex e.secret_bytes;
      owner = owner;
      reusable = reusable;
      used = false;
      created_at = e.now;
      expires_at = expiry e.now ttl;
    } in
    persist e.io k (with_keys st (st.s.auth_keys ++ k ∷ []))

-- The test of RegisterDevice on a key.
unfoldable pub usable : Text → ℕ → AuthKey → Bool
usable auth now k = text_eq k.key auth && (k.reusable || not k.used) && unexpired now k.expires_at

-- The loop's `key = k; break`: the first usable key.
unfoldable pub find_usable : Text → ℕ → List AuthKey → Option AuthKey
find_usable auth now [] = none
find_usable auth now (k ∷ ks) =
    let rest = find_usable auth now ks in if usable auth now k then some k else rest

-- `key.Used = true` through the pointer that the loop has found.
unfoldable pub mark_used : Text → ℕ → List AuthKey → List AuthKey
mark_used auth now [] = []
mark_used auth now (k ∷ ks) =
    let rest = k ∷ mark_used auth now ks in
    if usable auth now k then record k { used = true } ∷ ks else rest

abbrev pub set_hostname : Text → Device → Device
set_hostname h d = record d { hostname = h }

abbrev pub set_owner : Text → Device → Device
set_owner o d = record d { owner = o }

abbrev pub new_device : Env → Text → Text → Text → Text → Device
new_device e hostname public_key owner ip = record {
  id = random_hex e.id_bytes;
  hostname = hostname;
  owner = owner;
  public_key = public_key;
  token = codes "omtok-" ++ random_hex e.secret_bytes;
  token_issued_at = e.now;
  prev_token = [];
  prev_token_until = 0;
  ip = ip;
  endpoint = [];
  endpoints = [];
  advertised_routes = [];
  approved_routes = [];
  created_at = e.now;
  last_seen = 0;
}

module _ (t : NetText) (e : Env) where
  abbrev pub created : Text → Text → Text → Store → Result Text → Result Device × Store
  created hostname pub_key owner st (err x) = (err x, st)
  created hostname pub_key owner st (ok ip) =
      let d = new_device e hostname pub_key owner ip in
      (ok d, with_devices st (put pub_key d st.s.devices))

  -- createDeviceLocked: the machine is in the map, and nothing is saved yet.
  unfoldable pub create_device : Text → Text → Text → Store → Result Device × Store
  create_device hostname pub_key owner st = created hostname pub_key owner st (allocate_ip t st.s)

  -- A known machine takes a new name; the answer is the machine as it then is.
  unfoldable pub renamed : Text → Text → Device → Store → Result Device × Store
  renamed hostname pub_key d st =
      if not (is_blank hostname) && not (text_eq d.hostname hostname)
      then persist e.io (set_hostname hostname d)
          (with_devices st (modify pub_key (set_hostname hostname) st.s.devices))
      else (ok d, st)

  abbrev pub key_spent : Text → Result Device × Store → Result Device × Store
  key_spent auth (err x, st) = (err x, st)
  key_spent auth (ok d, st) = persist e.io d (with_keys st (mark_used auth e.now st.s.auth_keys))

  unfoldable pub enroll_with : Text → Text → Text → Option AuthKey → Store → Result Device × Store
  enroll_with auth hostname pub_key none st = (err invalid_auth_key, st)
  enroll_with auth hostname pub_key (some k) st =
      key_spent auth (create_device hostname pub_key k.owner st)

  -- RegisterDevice
  unfoldable pub register_device : Text → Text → Text → Store → Result Device × Store
  register_device auth hostname pub_key st = elim (get pub_key st.s.devices) [
    | some d ↦ renamed hostname pub_key d st
    | none ↦ enroll_with auth hostname pub_key (find_usable auth e.now st.s.auth_keys) st
  ]

  abbrev pub sso_owner : Text → Device → Device
  sso_owner owner d =
      if not (is_blank owner) && not (text_eq d.owner owner) then set_owner owner d else d

  abbrev pub sso_hostname : Text → Device → Device
  sso_hostname hostname d =
      if not (is_blank hostname) && not (text_eq d.hostname hostname)
      then set_hostname hostname d
      else d

  abbrev pub sso_changed : Text → Text → Device → Bool
  sso_changed hostname owner d =
      (not (is_blank hostname) && not (text_eq d.hostname hostname))
      || (not (is_blank owner) && not (text_eq d.owner owner))

  unfoldable pub updated_sso : Text → Text → Text → Device → Store → Result Device × Store
  updated_sso hostname pub_key owner d st =
      if sso_changed hostname owner d
      then persist e.io (sso_owner owner (sso_hostname hostname d)) (
          with_devices st
            (modify pub_key (λ x. sso_owner owner (sso_hostname hostname x)) st.s.devices))
      else (ok d, st)

  abbrev pub saved : Result Device × Store → Result Device × Store
  saved (err x, st) = (err x, st)
  saved (ok d, st) = persist e.io d st

  -- RegisterDeviceSSO
  unfoldable pub register_device_sso : Text → Text → Text → Store → Result Device × Store
  register_device_sso hostname pub_key owner st = elim (get pub_key st.s.devices) [
    | some d ↦ updated_sso hostname pub_key owner d st
    | none ↦ saved (create_device hostname pub_key owner st)
  ]
