-- ===== src/Wgnet/Device/Routes.antt =====
-- What SetRoutes leaves installed.
use omniup_vpn.Base.{
  ◌≡◌, refl, Bool, true, not, ◌&&◌, ◌||◌, Option, List, [], ◌∷◌, Text, text_eq, text_eq_iff, arith,
}
use omniup_vpn.Control.Fleet.{mem_text}
use omniup_vpn.Wgnet.Device.{
  RouteTable, without, desired_routes, drop_stale, add_missing, set_routes, drop_route, add_route,
  check_route, want_route,
}

pub mem-without :
    (r c : Text) (xs : List Text) → mem_text r (without c xs) ≡ (mem_text r xs && not (text_eq c r))
unfolding mem_text without
mem-without r c [] = refl
mem-without r c (x ∷ xs) =
    ground (arith, mem-without r c xs, text_eq_iff x c, text_eq_iff x r, text_eq_iff c r)

pub mem-cons : (r c : Text) (cs : List Text) → mem_text r (c ∷ cs) ≡ (text_eq c r || mem_text r cs)
unfolding mem_text
mem-cons r c cs = refl

module _ (network : Text → Option Text) (del_ok add_ok : Text → Bool) where
  mem-drop_route :
      (r c : Text) (p : Bool × RouteTable)
      → mem_text r (drop_route network del_ok add_ok c p).1.installed
        ≡ (mem_text r p.1.installed && not (text_eq c r))
  mem-drop_route r c (b, t) = ground (arith, mem-without r c t.installed)

  mem-check_route :
      (r c : Text) (desired : List Text) (p : Bool × RouteTable)
      → mem_text r (check_route network del_ok add_ok desired c p).1.installed
        ≡ (mem_text r p.1.installed && (mem_text c desired || not (text_eq c r)))
  unfolding check_route
  mem-check_route r c desired p = ground (arith, mem-drop_route r c p)

  -- A route stays installed through the first loop unless it is one of those looked at, and not
  -- desired.
  pub mem-drop_stale :
      (r : Text) (desired cs : List Text) (p : Bool × RouteTable)
      → mem_text r (drop_stale network del_ok add_ok desired cs p).1.installed
        ≡ (mem_text r p.1.installed && (mem_text r desired || not (mem_text r cs)))
  unfolding drop_stale
  mem-drop_stale r desired [] p = unfold mem_text in ground arith
  mem-drop_stale r desired (c ∷ cs) p = ground (
    arith,
    mem-drop_stale r desired cs (check_route network del_ok add_ok desired c p),
    mem-check_route r c desired p,
    mem-cons r c cs,
    text_eq_iff c r,
  )

  mem-add_route :
      (r c : Text) (p : Bool × RouteTable)
      → mem_text r (add_route network del_ok add_ok c p).1.installed
        ≡ (mem_text r p.1.installed || (text_eq c r && add_ok r))
  mem-add_route r c (b, t) = ground (arith, mem-cons r c t.installed, text_eq_iff c r)

  pub mem-want_route :
      (r c : Text) (p : Bool × RouteTable)
      → mem_text r (want_route network del_ok add_ok c p).1.installed
        ≡ (mem_text r p.1.installed || (text_eq c r && add_ok r))
  unfolding want_route
  mem-want_route r c p = ground (arith, mem-add_route r c p, text_eq_iff c r)

  mem-add_missing :
      (r : Text) (cs : List Text) (p : Bool × RouteTable)
      → mem_text r (add_missing network del_ok add_ok cs p).1.installed
        ≡ (mem_text r p.1.installed || (mem_text r cs && add_ok r))
  unfolding add_missing
  mem-add_missing r [] p = unfold mem_text in ground arith
  mem-add_missing r (c ∷ cs) p = ground (
    arith,
    mem-add_missing r cs (want_route network del_ok add_ok c p),
    mem-want_route r c p,
    mem-cons r c cs,
    text_eq_iff c r,
  )

  -- SetRoutes in one equation: a route is installed afterwards exactly when it is among the networks
  -- of the routes that are asked for, and was installed before or is now added without error.
  pub set_routes-installed :
      (cidrs : List Text) (t : RouteTable) (r : Text)
      → mem_text r (set_routes network del_ok add_ok cidrs t).1.installed ≡ (
          mem_text r (desired_routes network del_ok add_ok cidrs)
          && (mem_text r t.installed || add_ok r))
  unfolding set_routes
  set_routes-installed cidrs t r =
      let desired = desired_routes network del_ok add_ok cidrs in
      let dropped = drop_stale network del_ok add_ok desired t.installed (true, t) in
      ground
        (arith, mem-add_missing r desired dropped, mem-drop_stale r desired t.installed (true, t))
