-- ===== src/Wgnet/Device/Stale.antt =====
-- A route whose removal fails.
use omniup_vpn.Base.{
  ◌≡◌, Bool, true, false, not, ◌&&◌, Option, List, [], ◌∷◌, Text, text_eq, text_eq_iff, arith,
}
use omniup_vpn.Control.Fleet.{mem_text}
use omniup_vpn.Wgnet.Device.{
  RouteTable, desired_routes, drop_stale, add_missing, set_routes, check_route, want_route,
}
use omniup_vpn.Wgnet.Device.Routes.{mem-without, mem-cons, set_routes-installed}

module _ (network : Text → Option Text) (del_ok add_ok : Text → Bool) (r : Text) where
  -- The first loop leaves the system's route alone if it does not look at it or cannot remove it.
  check_route-system :
      (c : Text) (desired : List Text) (p : Bool × RouteTable)
      → mem_text r p.1.system ≡ true
      → (text_eq c r && del_ok r && not (mem_text r desired)) ≡ false
      → mem_text r (check_route network del_ok add_ok desired c p).1.system ≡ true
  unfolding check_route
  check_route-system c desired p m h = ground (arith, mem-without r c p.1.system, text_eq_iff c r)

  drop_stale-system :
      (desired cs : List Text) (p : Bool × RouteTable)
      → mem_text r p.1.system ≡ true
      → (mem_text r cs && del_ok r && not (mem_text r desired)) ≡ false
      → mem_text r (drop_stale network del_ok add_ok desired cs p).1.system ≡ true
  unfolding drop_stale
  drop_stale-system desired [] p m h = m
  drop_stale-system desired (c ∷ cs) p m h =
      drop_stale-system desired cs (check_route network del_ok add_ok desired c p)
        (check_route-system c desired p m (ground (arith, mem-cons r c cs)))
        (ground (arith, mem-cons r c cs))

  want_route-system :
      (c : Text) (p : Bool × RouteTable)
      → mem_text r p.1.system ≡ true
      → mem_text r (want_route network del_ok add_ok c p).1.system ≡ true
  unfolding want_route
  want_route-system c p m = ground (arith, mem-cons r c p.1.system)

  add_missing-system :
      (cs : List Text) (p : Bool × RouteTable)
      → mem_text r p.1.system ≡ true
      → mem_text r (add_missing network del_ok add_ok cs p).1.system ≡ true
  unfolding add_missing
  add_missing-system [] p m = m
  add_missing-system (c ∷ cs) p m =
      add_missing-system cs (want_route network del_ok add_ok c p) (want_route-system c p m)

  pub set_routes-system :
      (cidrs : List Text) (t : RouteTable)
      → mem_text r t.system ≡ true
      → (mem_text r t.installed && del_ok r) ≡ false
      → mem_text r (set_routes network del_ok add_ok cidrs t).1.system ≡ true
  unfolding set_routes
  set_routes-system cidrs t m h =
      let desired = desired_routes network del_ok add_ok cidrs in
      add_missing-system desired (drop_stale network del_ok add_ok desired t.installed (true, t))
        (drop_stale-system desired t.installed (true, t) m (ground arith))

-- A route that the agent no longer wants, and whose removal fails once, stays in the system's table:
-- it is installed no more for SetRoutes, so that the next call, which does not want it either,
-- leaves it there whatever the system would answer.
pub removal_forgotten :
    (network : Text → Option Text) (del_ok add_ok del_ok' add_ok' : Text → Bool)
    (cidrs cidrs' : List Text) (t : RouteTable) (r : Text)
    → mem_text r t.system ≡ true
    → mem_text r (desired_routes network del_ok add_ok cidrs) ≡ false
    → del_ok r ≡ false
    → (mem_text r (set_routes network del_ok add_ok cidrs t).1.installed ≡ false)
      × (mem_text r
            (set_routes network del_ok' add_ok' cidrs'
              (set_routes network del_ok add_ok cidrs t).1).1.system
          ≡ true)
removal_forgotten network del_ok add_ok del_ok' add_ok' cidrs cidrs' t r m gone fails =
    let forgotten : mem_text r (set_routes network del_ok add_ok cidrs t).1.installed ≡ false =
      ground (arith, set_routes-installed network del_ok add_ok cidrs t r) in
    (
      forgotten,
      set_routes-system network del_ok' add_ok' r cidrs'
          (set_routes network del_ok add_ok cidrs t).1
          (set_routes-system network del_ok add_ok r cidrs t m (ground arith)) (ground arith),
    )
