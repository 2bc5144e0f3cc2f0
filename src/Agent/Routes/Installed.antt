-- ===== src/Agent/Routes/Installed.antt =====
-- From the administrator's approval to the system's routes: the server's map, filterRoutes and
-- SetRoutes together.
use omniup_vpn.Base.{
  ℕ, ◌≡◌, ◌≢◌, ◌⊎◌, inl, inr, Bool, true, false, Option, some, List, [], ◌∷◌, arith, Text, text_eq,
  text_eq_iff, Bool-cases, Option-cases,
}
use omniup_vpn.Control.State.{Device, Store, AclPolicy}
use omniup_vpn.Control.Acl.{visible}
use omniup_vpn.Control.Acl.Meaning.{Meets, visible-Meets, clone_self}
use omniup_vpn.Control.Fleet.{mem_text, sorted_by_ip, devices, active_routes}
use omniup_vpn.Control.Fleet.Routes.{active_routes_lem}
use omniup_vpn.Control.Api.{peer_view, peers_of, net_map}
use omniup_vpn.Control.Api.Poll.{AnyDevice, AnyEntry, sorted-any}
use omniup_vpn.Wgnet.Device.{RouteTable, desired_routes, set_routes}
use omniup_vpn.Wgnet.Device.Routes.{mem-cons}
use omniup_vpn.Wgnet.Device.System.{system-set_routes}
use omniup_vpn.Agent.Routes.{RouteOptions, default_route, is_taken, filter_routes}
use omniup_vpn.Agent.Routes.Filtered.{offered, mem_nil, filter_routes_lem}

-- A machine other than `self`, where the policy lets one of the two reach the other, which both
-- announces the route and has it approved.
abbrev pub IsRouter : Option AclPolicy → Device → Text → Device → Type 0
IsRouter acl self r d =
    (d.public_key ≢ self.public_key)
    × Meets acl self d
    × (mem_text r d.advertised_routes ≡ true)
    × (mem_text r d.approved_routes ≡ true)

offered-peers_of :
    (acl : Option AclPolicy) (now : ℕ) (self : Device) (r : Text) (ds : List Device)
    → offered r (peers_of acl now self ds) ≡ true
    → AnyDevice (IsRouter acl self r) ds
unfolding offered peers_of peer_view
offered-peers_of acl now self r [] h = absurd (ground arith)
offered-peers_of acl now self r (d ∷ ds) h =
    elim (Bool-cases (text_eq d.public_key self.public_key)) [
      | inl q ↦ inr (offered-peers_of acl now self r ds (rw q at h))
      | inr q ↦ elim (Bool-cases (visible acl self d)) [
        | inr hidden ↦ inr (offered-peers_of acl now self r ds (rw (q, hidden) at h))
        | inl seen ↦ elim (Bool-cases (mem_text r (active_routes d))) [
          | inr no_route ↦ inr (offered-peers_of acl now self r ds (rw (q, seen, no_route) at h))
          | inl active ↦
              let both = (active_routes_lem d r).0 in
              inl (
                (λ same. ground (arith, text_eq_iff d.public_key self.public_key)),
                (visible-Meets acl self d).0 seen,
                ground arith,
                ground arith,
              )
        ]
      ]
    ]

module _ (network : Text → Option Text) (del_ok add_ok : Text → Bool) where
  -- A route of the list has the network `r`.
  desired-source :
      (r : Text) (cs : List Text)
      → mem_text r (desired_routes network del_ok add_ok cs) ≡ true
      → (c : Text) × (mem_text c cs ≡ true) × (network c ≡ some r)
  unfolding desired_routes
  desired-source r [] h = absurd (ground (arith, mem_nil r))
  desired-source r (c ∷ cs) h = elim (Option-cases (network c)) [
    | inl q ↦
        let (s, m, e) = desired-source r cs (rw q at h) in (s, ground (arith, mem-cons s c cs), e)
    | inr (n, q) ↦ elim (Bool-cases (text_eq n r)) [
      | inl same ↦
          (c, ground (arith, mem-cons c c cs, text_eq_iff c c), rw ((text_eq_iff n r).0 same) at q)
      | inr other ↦
          let (s, m, e) =
            desired-source r cs
              (ground (arith, rw q at h, mem-cons r n (desired_routes network del_ok add_ok cs))) in
          (s, ground (arith, mem-cons s c cs), e)
    ]
  ]

  -- What is asked of the system by the map of a poll.
  wanted_approved :
      (now : ℕ) (token : Text) (self : Device) (st : Store) (o : RouteOptions) (my : List Text)
      (r : Text)
      → let subnets = (filter_routes o my (net_map now token self st).peers).1 in
        mem_text r (desired_routes network del_ok add_ok subnets) ≡ true
        → (c : Text) × (network c ≡ some r)
          × (c ≢ default_route)
          × (o.accept_routes ≡ true)
          × (mem_text c my ≡ false)
          × AnyEntry (IsRouter st.s.acl self c) st.s.devices
  unfolding net_map devices is_taken
  wanted_approved now token self st o my r wanted =
      let peers = (net_map now token self st).peers in
      let subnets = (filter_routes o my peers).1 in
      let (c, m, e) = desired-source r subnets wanted in
      let taken = (filter_routes_lem o my peers c).0 in
      let given : offered c peers ≡ true = ground arith in
      (
        c,
        e,
        (λ p. ground (arith, text_eq_iff c default_route)),
        ground arith,
        ground arith,
        (sorted-any (IsRouter st.s.acl self c) st.s.devices).0 (
            offered-peers_of st.s.acl now self c (sorted_by_ip st.s.devices)
              (rw clone_self at given)),
      )

  -- After the agent has applied the map of a poll, a route of the system's table that was not in the
  -- table before, or that the agent had installed and whose removal would succeed, is the network of
  -- a route that is not the default one and not its own, which it accepts, and which some other
  -- machine of the store announces and has approved, where the policy lets one of the two machines
  -- reach the other.
  pub system_routes_approved :
      (now : ℕ) (token : Text) (self : Device) (st : Store) (o : RouteOptions) (my : List Text)
      (table : RouteTable) (r : Text)
      → (mem_text r table.system ≡ false)
        ⊎ ((mem_text r table.installed ≡ true) × (del_ok r ≡ true))
      → let subnets = (filter_routes o my (net_map now token self st).peers).1 in
        mem_text r (set_routes network del_ok add_ok subnets table).1.system ≡ true
        → (c : Text) × (network c ≡ some r)
          × (c ≢ default_route)
          × (o.accept_routes ≡ true)
          × (mem_text c my ≡ false)
          × AnyEntry (IsRouter st.s.acl self c) st.s.devices
  system_routes_approved now token self st o my table r before h =
      let subnets = (filter_routes o my (net_map now token self st).peers).1 in
      wanted_approved now token self st o my r
        (ground (arith, system-set_routes network del_ok add_ok r subnets table, before))
