-- ===== src/Wgnet/Device/System.antt =====
-- What SetRoutes leaves in the system's table.
use omniup_vpn.Base.{
  ◌≡◌, Bool, true, not, ◌&&◌, ◌||◌, Option, List, [], ◌∷◌, Text, text_eq, text_eq_iff, arith,
}
use omniup_vpn.Control.Fleet.{mem_text}
use omniup_vpn.Wgnet.Device.{
  RouteTable, desired_routes, drop_stale, add_missing, set_routes, check_route, want_route,
}
use omniup_vpn.Wgnet.Device.Routes.{mem-without, mem-cons, mem-drop_stale, mem-want_route}

module _ (network : Text → Option Text) (del_ok add_ok : Text → Bool) (r : Text) where
  system-check_route :
      (c : Text) (desired : List Text) (p : Bool × RouteTable)
      → mem_text r (check_route network del_ok add_ok desired c p).1.system
        ≡ (mem_text r p.1.system && (mem_text c desired || not (text_eq c r && del_ok r)))
  unfolding check_route
  system-check_route c desired p = ground (arith, mem-without r c p.1.system, text_eq_iff c r)

  system-drop_stale :
      (desired cs : List Text) (p : Bool × RouteTable)
      → mem_text r (drop_stale network del_ok add_ok desired cs p).1.system
        ≡ (mem_text r p.1.system && (mem_text r desired || not (mem_text r cs && del_ok r)))
  unfolding drop_stale
  system-drop_stale desired [] p = unfold mem_text in ground arith
  system-drop_stale desired (c ∷ cs) p = ground (
    arith,
    system-drop_stale desired cs (check_route network del_ok add_ok desired c p),
    system-check_route c desired p,
    mem-cons r c cs,
    text_eq_iff c r,
  )

  system-want_route :
      (c : Text) (p : Bool × RouteTable)
      → mem_text r (want_route network del_ok add_ok c p).1.system
        ≡ (mem_text r p.1.system || (text_eq c r && (add_ok r && not (mem_text r p.1.installed))))
  unfolding want_route
  system-want_route c p = ground (arith, mem-cons r c p.1.system, text_eq_iff c r)

  system-add_missing :
      (cs : List Text) (p : Bool × RouteTable)
      → mem_text r (add_missing network del_ok add_ok cs p).1.system
        ≡ (mem_text r p.1.system || (mem_text r cs && (add_ok r && not (mem_text r p.1.installed))))
  unfolding add_missing
  system-add_missing [] p = unfold mem_text in ground arith
  system-add_missing (c ∷ cs) p = ground (
    arith,
    system-add_missing cs (want_route network del_ok add_ok c p),
    system-want_route c p,
    mem-want_route network del_ok add_ok r c p,
    mem-cons r c cs,
    text_eq_iff c r,
  )

  -- A route is in the system's table afterwards exactly when it was there and is wanted, or was there
  -- and is none of the agent's or is not removed, or when it is wanted, new and added without error.
  pub system-set_routes :
      (cidrs : List Text) (t : RouteTable)
      → let desired = desired_routes network del_ok add_ok cidrs in
        mem_text r (set_routes network del_ok add_ok cidrs t).1.system ≡ (
          (mem_text r t.system && (mem_text r desired || not (mem_text r t.installed && del_ok r)))
          || (mem_text r desired && (add_ok r && not (mem_text r t.installed))))
  unfolding set_routes
  system-set_routes cidrs t =
      let desired = desired_routes network del_ok add_ok cidrs in
      let dropped = drop_stale network del_ok add_ok desired t.installed (true, t) in
      ground (
        arith,
        system-add_missing desired dropped,
        system-drop_stale desired t.installed (true, t),
        mem-drop_stale network del_ok add_ok r desired t.installed (true, t),
      )
