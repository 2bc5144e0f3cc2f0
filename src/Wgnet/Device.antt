-- ===== src/Wgnet/Device.antt =====
-- internal/wgnet/wgnet.go: the configuration that SyncPeers writes, and the system routes. A Go set
-- is a list; what the engine and the routing calls answer is an input.
pub mod Peers
pub mod Routes
pub mod Stale
pub mod System
use omniup_vpn.Base.{
  ℕ, Bool, true, false, not, ◌&&◌, ◌||◌, Option, none, some, List, [], ◌∷◌, ◌++◌, if◌then◌else◌,
  Text, codes, text_eq, is_blank,
}
use mathlib.Core.Option
use omniup_vpn.Control.Fleet.{mem_text}
use omniup_vpn.Control.Api.{Peer}
use omniup_vpn.Wgnet.Keys.{WgKeys, hex_key}

-- One peer in a configuration: set up, or taken away.
pub record PeerBlock : Type 0 where
  pub key : Text
  pub update_only : Bool
  pub endpoint : Text
  pub allowed_ips : List Text

abbrev pub newline : ℕ
newline = 10

abbrev pub line : Text → Text → Text
line key value = key ++ (b'=' ∷ (value ++ newline ∷ []))

unfoldable pub allowed_lines : List Text → Text
allowed_lines [] = []
allowed_lines (a ∷ rest) = line (codes "allowed_ip") a ++ allowed_lines rest

abbrev pub start_line : PeerBlock → Text
start_line b =
    if b.update_only
    then line (codes "update_only") (codes "true")
    else if is_blank b.endpoint
    then []
    else line (codes "endpoint") b.endpoint

-- The text of a block; the keepalive is 25 seconds.
unfoldable pub block_text : PeerBlock → Text
block_text b =
    line (codes "public_key") (hex_key b.key)
    ++ (start_line b
        ++ (line (codes "replace_allowed_ips") (codes "true")
            ++ (allowed_lines b.allowed_ips
                ++ line (codes "persistent_keepalive_interval") (codes "25"))))

unfoldable pub removal_text : Text → Text
removal_text key = line (codes "public_key") (hex_key key) ++ line (codes "remove") (codes "true")

unfoldable pub blocks_text : List PeerBlock → Text
blocks_text [] = []
blocks_text (b ∷ bs) = block_text b ++ blocks_text bs

unfoldable pub removals_text : List Text → Text
removals_text [] = []
removals_text (k ∷ ks) = removal_text k ++ removals_text ks

unfoldable pub valid_cidrs : (Text → Bool) → List Text → List Text
valid_cidrs is_cidr [] = []
valid_cidrs is_cidr (r ∷ rs) =
    let rest = valid_cidrs is_cidr rs in if is_cidr r then r ∷ rest else rest

abbrev pub onto {ℓ} : {A : Type ℓ} → Option A → List A → List A
onto none rest = rest
onto (some a) rest = a ∷ rest

module _ (w : WgKeys) where
  -- The keys to remove: known, and not seen.
  unfoldable pub removals : List Text → List Text → List Text
  removals seen [] = []
  removals seen (k ∷ ks) =
      let rest = removals seen ks in if mem_text k seen then rest else onto (w.parse_key k) rest

  module _ (is_ip : Text → Bool) where
    -- A peer whose key or address does not parse is left out.
    unfoldable pub parsed_peer : Peer → Option Text
    parsed_peer p = if is_ip p.ip then w.parse_key p.public_key else none

    abbrev pub seen_onto : Text → Option Text → List Text → List Text
    seen_onto k none rest = rest
    seen_onto k (some key) rest = k ∷ rest

    -- The `seen` of SyncPeers.
    unfoldable pub seen_keys : List Peer → List Text
    seen_keys [] = []
    seen_keys (p ∷ ps) = seen_onto p.public_key (parsed_peer p) (seen_keys ps)

    -- `is_cidr` tells whether net.ParseCIDR accepts a route.
    module _ (is_cidr : Text → Bool) (initial_endpoint : Peer → Text) where
      abbrev pub block_for : List Text → Peer → Text → PeerBlock
      block_for known p key = record {
        key = key;
        update_only = mem_text p.public_key known;
        endpoint = if mem_text p.public_key known then [] else initial_endpoint p;
        allowed_ips = (p.ip ++ codes "/32") ∷ valid_cidrs is_cidr p.routes;
      }

      unfoldable pub blocks : List Text → List Peer → List PeerBlock
      blocks known [] = []
      blocks known (p ∷ ps) =
          onto (Option.map (block_for known p) (parsed_peer p)) (blocks known ps)

      -- What SyncPeers writes.
      unfoldable pub sync_text : List Peer → List Text → Text
      sync_text ps known =
          blocks_text (blocks known ps) ++ removals_text (removals (seen_keys ps) known)

      -- SyncPeers; `ipc_set` tells whether the engine takes the text. The result is whether there
      -- was no error, and the new set of known peers.
      unfoldable pub sync_peers : (Text → Bool) → List Peer → List Text → Bool × List Text
      sync_peers ipc_set ps known =
          if is_blank (sync_text ps known)
          then (true, known)
          else if ipc_set (sync_text ps known)
          then (true, seen_keys ps)
          else (false, known)

-- The routes that SetRoutes has installed, and those that the system has.
pub record RouteTable : Type 0 where
  pub installed : List Text
  pub system : List Text

unfoldable pub without : Text → List Text → List Text
without c [] = []
without c (x ∷ xs) = let rest = without c xs in if text_eq x c then rest else x ∷ rest

abbrev pub set_onto : Option Text → List Text → List Text
set_onto none rest = rest
set_onto (some n) rest = if mem_text n rest then rest else n ∷ rest

-- `network` gives what net.ParseCIDR makes of a route: its network's text, unless its mask is empty.
-- `del_ok` and `add_ok` tell whether routeDel and routeAdd succeed.
module _ (network : Text → Option Text) (del_ok add_ok : Text → Bool) where
  unfoldable pub desired_routes : List Text → List Text
  desired_routes [] = []
  desired_routes (c ∷ cs) = set_onto (network c) (desired_routes cs)

  abbrev pub drop_route : Text → Bool × RouteTable → Bool × RouteTable
  drop_route c (no_error, t) =
      let t' = record t { installed = without c t.installed } in
      if del_ok c then (no_error, record t' { system = without c t.system }) else (false, t')

  unfoldable pub check_route : List Text → Text → Bool × RouteTable → Bool × RouteTable
  check_route desired c r = if mem_text c desired then r else drop_route c r

  -- The loop over the installed routes.
  unfoldable pub drop_stale : List Text → List Text → Bool × RouteTable → Bool × RouteTable
  drop_stale desired [] r = r
  drop_stale desired (c ∷ cs) r = drop_stale desired cs (check_route desired c r)

  abbrev pub add_route : Text → Bool × RouteTable → Bool × RouteTable
  add_route c (no_error, t) =
      if add_ok c
      then (no_error, record { installed = c ∷ t.installed; system = c ∷ t.system })
      else (false, t)

  unfoldable pub want_route : Text → Bool × RouteTable → Bool × RouteTable
  want_route c r = if mem_text c r.1.installed then r else add_route c r

  -- The loop over the desired routes.
  unfoldable pub add_missing : List Text → Bool × RouteTable → Bool × RouteTable
  add_missing [] r = r
  add_missing (c ∷ cs) r = add_missing cs (want_route c r)

  -- SetRoutes: whether no call has failed, and the new table.
  unfoldable pub set_routes : List Text → RouteTable → Bool × RouteTable
  set_routes cidrs t =
      let desired = desired_routes cidrs in
      add_missing desired (drop_stale desired t.installed (true, t))

module _ (w : WgKeys) where
  abbrev pub endpoint_text : Text → Text → Text
  endpoint_text key ep =
      line (codes "public_key") (hex_key key)
      ++ (line (codes "update_only") (codes "true") ++ line (codes "endpoint") ep)

  -- SetPeerEndpointString; `ipc_set` tells whether the engine takes the text.
  unfoldable pub set_peer_endpoint_string : (Text → Bool) → Text → Text → Bool
  set_peer_endpoint_string ipc_set pub_key ep = elim (w.parse_key pub_key) [
    | none ↦ false
    | some key ↦ ipc_set (endpoint_text key ep)
  ]
