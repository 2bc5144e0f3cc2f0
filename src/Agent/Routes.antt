-- ===== src/Agent/Routes.antt =====
-- internal/agent/agent.go: the routes that the agent announces, and those of its peers that it takes.
-- A Go set is the list of its members.
pub mod Filtered
pub mod Installed
use omniup_vpn.Base.{
  ℕ, Bool, true, false, not, ◌||◌, ◌&&◌, Option, none, some, List, [], ◌∷◌, ◌++◌, map,
  if◌then◌else◌, Text, codes, text_eq, is_blank,
}
use omniup_vpn.Net.{Prefix, masked}
use omniup_vpn.NetText.{NetText}
use omniup_vpn.Unicode.{Unicode}
use omniup_vpn.Control.Fleet.{mem_text}
use omniup_vpn.Control.Api.{Peer}

-- The Options that the routes depend on.
pub record RouteOptions : Type 0 where
  pub advertise_routes : List Text
  pub advertise_exit_node : Bool
  pub accept_routes : Bool
  pub exit_node : Text

abbrev pub default_route : Text
default_route = codes "0.0.0.0/0"

module _ (t : NetText) (u : Unicode) where
  abbrev pub announce_onto : List Text → Text → List Text
  announce_onto out c = if mem_text c out then out else out ++ c ∷ []

  -- The loop of advertisedRoutes; `none` is a route that does not parse. The set myRoutes and the
  -- list `advertised` have the same members.
  unfoldable pub announce : List Text → List Text → Option (List Text)
  announce out [] = some out
  announce out (r ∷ rs) = elim (t.parse_prefix (u.trim_space r)) [
    | none ↦ none
    | some p ↦ announce (announce_onto out (t.prefix_string (masked p))) rs
  ]

  abbrev pub all_announced : RouteOptions → List Text
  all_announced o =
      if o.advertise_exit_node then o.advertise_routes ++ default_route ∷ [] else o.advertise_routes

  -- advertisedRoutes
  unfoldable pub advertised_routes : RouteOptions → Option (List Text)
  advertised_routes o = announce [] (all_announced o)

module _ (o : RouteOptions) (my_routes : List Text) where
  unfoldable pub is_exit : Peer → Bool
  is_exit p =
      not (is_blank o.exit_node) && (text_eq p.ip o.exit_node || text_eq p.hostname o.exit_node)

  -- Whether a route that is not the default one is taken.
  unfoldable pub is_taken : Text → Bool
  is_taken r = o.accept_routes && not (mem_text r my_routes)

  -- The `keep` of the inner loop of filterRoutes.
  unfoldable pub kept : Bool → List Text → List Text
  kept exit [] = []
  kept exit (r ∷ rs) =
      let rest = kept exit rs in
      if text_eq r default_route
      then (if exit then r ∷ rest else rest)
      else if is_taken r
      then r ∷ rest
      else rest

  abbrev pub subnet_onto : List Text → Text → List Text
  subnet_onto out r =
      if text_eq r default_route || not (is_taken r) || mem_text r out then out else out ++ r ∷ []

  -- The `subnets` of the inner loop, whose members are those of `seen`.
  unfoldable pub subnets_from : List Text → List Text → List Text
  subnets_from out [] = out
  subnets_from out (r ∷ rs) = subnets_from (subnet_onto out r) rs

  -- The loop over the peers.
  unfoldable pub subnets_of : List Text → List Peer → List Text
  subnets_of out [] = out
  subnets_of out (p ∷ ps) = subnets_of (subnets_from out p.routes) ps

  unfoldable pub exit_found : List Peer → Bool
  exit_found [] = false
  exit_found (p ∷ ps) = (is_exit p && mem_text default_route p.routes) || exit_found ps

  unfoldable pub with_kept : Peer → Peer
  with_kept p = record p { routes = kept (is_exit p) p.routes }

  -- filterRoutes
  unfoldable pub filter_routes : List Peer → List Peer × List Text × Bool
  filter_routes ps = (map with_kept ps, subnets_of [] ps, exit_found ps)
