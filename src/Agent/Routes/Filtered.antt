-- ===== src/Agent/Routes/Filtered.antt =====
-- Which routes of its peers the agent takes.
use omniup_vpn.Base.{
  ◌≡◌, refl, Bool, false, not, ◌||◌, ◌&&◌, List, [], ◌∷◌, ◌++◌, arith, Text, text_eq, text_eq_iff,
}
use omniup_vpn.Control.Fleet.{mem_text}
use omniup_vpn.Control.Api.{Peer}
use omniup_vpn.Wgnet.Device.Routes.{mem-cons}
use omniup_vpn.Agent.Routes.{
  RouteOptions, default_route, is_taken, kept, subnet_onto, subnets_from, subnets_of, filter_routes,
}

pub mem-append :
    (r : Text) (xs ys : List Text) → mem_text r (xs ++ ys) ≡ (mem_text r xs || mem_text r ys)
unfolding mem_text
mem-append r [] ys = refl
mem-append r (x ∷ xs) ys = ground (arith, mem-append r xs ys)

pub mem_nil : (r : Text) → mem_text r [] ≡ false
unfolding mem_text
mem_nil r = refl

-- No member stands twice.
abbrev pub Distinct : List Text → Type 0
Distinct [] = Unit
Distinct (x ∷ xs) = (mem_text x xs ≡ false) × Distinct xs

pub Distinct-append :
    (r : Text) (xs : List Text) → mem_text r xs ≡ false → Distinct xs → Distinct (xs ++ r ∷ [])
Distinct-append r [] n d = (unfold mem_text in refl, tt)
Distinct-append r (x ∷ xs) n d = (
  ground (
    arith,
    mem-append x xs (r ∷ []),
    mem_nil x,
    mem-cons r x xs,
    mem-cons x r [],
    text_eq_iff x r,
    text_eq_iff r x,
  ),
  Distinct-append r xs (ground (arith, mem-cons r x xs)) d.1,
)

-- Some peer offers the route.
unfoldable pub offered : Text → List Peer → Bool
offered r [] = false
offered r (p ∷ ps) = mem_text r p.routes || offered r ps

module _ (o : RouteOptions) (my : List Text) (r : Text) where
  -- A route is kept for a peer exactly when the peer offers it, and it is the default route of the
  -- chosen exit node or a subnet that is taken.
  pub mem-kept :
      (exit : Bool) (rs : List Text)
      → mem_text r (kept o my exit rs) ≡ (
          mem_text r rs
          && ((text_eq r default_route && exit)
              || (not (text_eq r default_route) && is_taken o my r)))
  unfolding kept
  mem-kept exit [] = ground (arith, mem_nil r)
  mem-kept exit (x ∷ xs) =
      ground (
        arith,
        mem-kept exit xs,
        mem-cons r x xs,
        mem-cons r x (kept o my exit xs),
        text_eq_iff x r,
      )

  mem-subnet_onto :
      (out : List Text) (x : Text)
      → mem_text r (subnet_onto o my out x)
        ≡ (mem_text r out || (text_eq x r && not (text_eq r default_route) && is_taken o my r))
  mem-subnet_onto out x =
      ground (arith, mem-append r out (x ∷ []), mem-cons r x [], mem_nil r, text_eq_iff x r)

  mem-subnets_from :
      (out rs : List Text)
      → mem_text r (subnets_from o my out rs)
        ≡ (mem_text r out || (mem_text r rs && not (text_eq r default_route) && is_taken o my r))
  unfolding subnets_from
  mem-subnets_from out [] = ground (arith, mem_nil r)
  mem-subnets_from out (x ∷ xs) =
      ground (
        arith,
        mem-subnets_from (subnet_onto o my out x) xs,
        mem-subnet_onto out x,
        mem-cons r x xs,
      )

  mem-subnets_of :
      (out : List Text) (ps : List Peer)
      → mem_text r (subnets_of o my out ps)
        ≡ (mem_text r out || (offered r ps && not (text_eq r default_route) && is_taken o my r))
  unfolding subnets_of offered
  mem-subnets_of out [] = ground arith
  mem-subnets_of out (p ∷ ps) =
      ground
        (arith, mem-subnets_of (subnets_from o my out p.routes) ps, mem-subnets_from out p.routes)

module _ (o : RouteOptions) (my : List Text) where
  Distinct-subnet_onto :
      (out : List Text) (x : Text) → Distinct out → Distinct (subnet_onto o my out x)
  Distinct-subnet_onto out x d = ground (arith, Distinct-append x out)

  Distinct-subnets_from : (out rs : List Text) → Distinct out → Distinct (subnets_from o my out rs)
  unfolding subnets_from
  Distinct-subnets_from out [] d = d
  Distinct-subnets_from out (x ∷ xs) d =
      Distinct-subnets_from (subnet_onto o my out x) xs (Distinct-subnet_onto out x d)

  Distinct-subnets_of :
      (out : List Text) (ps : List Peer) → Distinct out → Distinct (subnets_of o my out ps)
  unfolding subnets_of
  Distinct-subnets_of out [] d = d
  Distinct-subnets_of out (p ∷ ps) d =
      Distinct-subnets_of (subnets_from o my out p.routes) ps (Distinct-subnets_from out p.routes d)

  -- The subnets that are to be installed are exactly the routes that some peer offers, other than
  -- the default route, when routes are accepted and the agent does not announce the route itself;
  -- each stands once.
  pub filter_routes_lem :
      (ps : List Peer) (r : Text)
      → (mem_text r (filter_routes o my ps).1
          ≡ (offered r ps && not (text_eq r default_route) && is_taken o my r))
        × Distinct (filter_routes o my ps).1
  unfolding filter_routes
  filter_routes_lem ps r =
      (ground (arith, mem-subnets_of o my r [] ps, mem_nil r), Distinct-subnets_of [] ps tt)
