-- ===== src/Control/Fleet.antt =====
-- internal/control/store.go and users.go: what is done to machines that are enrolled: finding one
-- by its token, rotating tokens, heartbeats, routes, revocation and the sorted list.
pub mod Rotation
pub mod Revocation
pub mod Routes
use omniup_vpn.Base.{
  is_blank, ℕ, ◌+◌, Bool, true, false, not, ◌||◌, ◌&&◌, Option, none, some, List, [], ◌∷◌, ◌++◌,
  ltb, ◌==◌, if◌then◌else◌, Text, codes, text_eq, text_key,
}
use omniup_vpn.Base.Map.{Map, get, put, delete, modify}
use omniup_vpn.Net.{Prefix, Addr, masked, is4}
use omniup_vpn.NetText.{NetText}
use omniup_vpn.Unicode.{Unicode}
use omniup_vpn.Control.State.{
  Device, StateFile, Store, Env, SaveSteps, Result, ok, err, unknown_device, no_match, bad_route,
  device_not_owned, persist, random_hex, since_lt, token_rotate_after, token_grace,
}
use omniup_vpn.Control.Devices.{with_devices}

-- The test of DeviceByToken.
unfoldable pub token_valid : ℕ → Text → Device → Bool
token_valid now token d =
    text_eq d.token token || (text_eq d.prev_token token && ltb now d.prev_token_until)

unfoldable pub find_token : ℕ → Text → Map Text Device → Option Device
find_token now token [] = none
find_token now token ((k, d) ∷ m) =
    let rest = find_token now token m in if token_valid now token d then some d else rest

-- DeviceByToken: a blank token is no token.
unfoldable pub device_by_token : ℕ → Text → Store → Option Device
device_by_token now token st = if is_blank token then none else find_token now token st.s.devices

abbrev pub rotated : Env → Device → Device
rotated e d = record d {
  prev_token = d.token;
  prev_token_until = e.now + token_grace;
  token = codes "omtok-" ++ random_hex e.secret_bytes;
  token_issued_at = e.now;
}

-- RotateTokenIfDue: the new token, or a blank text if none was due.
unfoldable pub rotate_token_if_due : Env → Text → Store → Result Text × Store
rotate_token_if_due e pub_key st = elim (get pub_key st.s.devices) [
  | none ↦ (err unknown_device, st)
  | some d ↦
      if since_lt e.now d.token_issued_at token_rotate_after
      then (ok [], st)
      else persist e.io (rotated e d).token
          (with_devices st (modify pub_key (rotated e) st.s.devices))
]

module _ (t : NetText) (u : Unicode) where
  abbrev pub canonical : Prefix → Result Text
  canonical p = if is4 p.addr then ok (t.prefix_string (masked p)) else err (bad_route [])

  -- normalizeCIDR
  unfoldable pub normalize_cidr : Text → Result Text
  normalize_cidr s = elim (t.parse_prefix (u.trim_space s)) [
    | none ↦ err (bad_route s)
    | some p ↦ canonical p
  ]

  abbrev pub keep_ok : Result Text → List Text → List Text
  keep_ok (ok c) cs = c ∷ cs
  keep_ok (err x) cs = cs

  -- The loop of TouchDevice: routes that do not normalise are dropped.
  unfoldable pub valid_routes : List Text → List Text
  valid_routes [] = []
  valid_routes (r ∷ rs) = keep_ok (normalize_cidr r) (valid_routes rs)

  abbrev pub reported_endpoint : Text → Text → Text
  reported_endpoint [] old = old
  reported_endpoint (c ∷ cs) old = c ∷ cs

  abbrev pub given {ℓ} : {A : Type ℓ} → Option A → A → A
  given none old = old
  given (some a) old = a

  abbrev pub routes_given : Option (List Text) → List Text → List Text
  routes_given none old = old
  routes_given (some rs) old = valid_routes rs

  abbrev pub touched : ℕ → Text → Option (List Text) → Option (List Text) → Device → Device
  touched now endpoint reported advertised d = record d {
    last_seen = now;
    endpoint = reported_endpoint endpoint d.endpoint;
    endpoints = given reported d.endpoints;
    advertised_routes = routes_given advertised d.advertised_routes;
  }

  -- TouchDevice; `none` is a nil slice, a field that the request leaves out.
  unfoldable pub touch_device :
      Env
      → Text
      → Text
      → Option (List Text)
      → Option (List Text)
      → Store
      → Result (Unit {0}) × Store
  touch_device e pub_key endpoint reported advertised st = elim (get pub_key st.s.devices) [
    | none ↦ (err unknown_device, st)
    | some d ↦
        persist e.io tt (
          with_devices st
            (modify pub_key (touched e.now endpoint reported advertised) st.s.devices))
  ]

  abbrev pub cons_ok : Text → Result Text → Result (List Text) → Result (List Text)
  cons_ok r (err x) rest = err (bad_route r)
  cons_ok r (ok c) (err x) = err x
  cons_ok r (ok c) (ok cs) = ok (c ∷ cs)

  -- The loop of SetApprovedRoutes: one bad route refuses the whole list.
  unfoldable pub normalize_all : List Text → Result (List Text)
  normalize_all [] = ok []
  normalize_all (r ∷ rs) = cons_ok r (normalize_cidr r) (normalize_all rs)

-- A machine is designated by its address, its name or its id.
unfoldable pub designates : Text → Device → Bool
designates target d = text_eq d.ip target || text_eq d.hostname target || text_eq d.id target

-- The first entry, in the order of the iteration, that passes the test of a loop with `return`.
unfoldable pub find_entry : (Device → Bool) → Map Text Device → Option (Text × Device)
find_entry test [] = none
find_entry test ((k, d) ∷ m) = let rest = find_entry test m in if test d then some (k, d) else rest

abbrev pub set_approved : List Text → Device → Device
set_approved rs d = record d { approved_routes = rs }

module _ (t : NetText) (u : Unicode) (e : Env) where
  abbrev pub approve : Text → Store → Result (List Text) → Result Device × Store
  approve target st (err x) = (err x, st)
  approve target st (ok rs) = elim (find_entry (designates target) st.s.devices) [
    | none ↦ (err no_match, st)
    | some (k, d) ↦
        persist e.io (set_approved rs d) (with_devices st (modify k (set_approved rs) st.s.devices))
  ]

  -- SetApprovedRoutes
  unfoldable pub set_approved_routes : Text → List Text → Store → Result Device × Store
  set_approved_routes target routes st = approve target st (normalize_all t u routes)

-- activeRoutes: what is advertised and approved, in the order of the advertisement.
unfoldable pub mem_text : Text → List Text → Bool
mem_text r [] = false
mem_text r (x ∷ xs) = text_eq x r || mem_text r xs

unfoldable pub approved_of : List Text → List Text → List Text
approved_of approved [] = []
approved_of approved (r ∷ rs) =
    let rest = approved_of approved rs in if mem_text r approved then r ∷ rest else rest

unfoldable pub active_routes : Device → List Text
active_routes d = approved_of d.approved_routes d.advertised_routes

module _ (e : Env) where
  abbrev pub removed : Result Device → Store → Option (Text × Device) → Result Device × Store
  removed missing st none = (missing, st)
  removed missing st (some (k, d)) = persist e.io d (with_devices st (delete k st.s.devices))

  -- RemoveDevice
  unfoldable pub remove_device : Text → Store → Result Device × Store
  remove_device target st = removed (err no_match) st (find_entry (designates target) st.s.devices)

  abbrev pub owned : Text → Text → Device → Bool
  owned owner target d = text_eq d.owner owner && designates target d

  -- RemoveOwnedDevice
  unfoldable pub remove_owned_device : Text → Text → Store → Result Device × Store
  remove_owned_device owner target st =
      removed (err device_not_owned) st (find_entry (owned owner target) st.s.devices)

-- `<` on Go strings.
unfoldable pub text_lt : Text → Text → Bool
text_lt [] [] = false
text_lt [] (y ∷ ys) = true
text_lt (x ∷ xs) [] = false
text_lt (x ∷ xs) (y ∷ ys) = ltb x y || ((x == y) && text_lt xs ys)

unfoldable pub insert_by_ip : Device → List Device → List Device
insert_by_ip d [] = d ∷ []
insert_by_ip d (x ∷ xs) =
    let rest = insert_by_ip d xs in if text_lt x.ip d.ip then x ∷ rest else d ∷ x ∷ xs

unfoldable pub sorted_by_ip : Map Text Device → List Device
sorted_by_ip [] = []
sorted_by_ip ((k, d) ∷ m) = insert_by_ip d (sorted_by_ip m)

-- Devices: all machines, sorted by the text of their address.
unfoldable pub devices : Store → List Device
devices st = sorted_by_ip st.s.devices
