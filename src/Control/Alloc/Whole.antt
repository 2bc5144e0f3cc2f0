-- ===== src/Control/Alloc/Whole.antt =====
-- The scan of a whole prefix, from the address behind the network address.
use mathlib.Core.Path.{ap₂, subst}
use omniup_vpn.Base.{
  ℕ, suc, ◌-◌, ◌*◌, ◌^◌, ◌≤◌, ◌<◌, ◌≡◌, ◌≢◌, ◌⊎◌, inl, inr, refl, sym, ap, ◌∙◌, Bool, true, false,
  arith,
}
use omniup_vpn.Net.{
  Family, v4, v6, same_family, Addr, no_addr, ip, InWidth, number, width, Prefix, next, contains,
  block,
}
use omniup_vpn.Control.Alloc.{found, exhausted, out_of_fuel, scan, scan_prefix}
use omniup_vpn.Control.Alloc.Lowest.{IsHost, at, block_pos, scan_found, scan_exhausted, scan_ends}

-- A found address is a host address of the prefix, free, and the lowest such.
pub record IsFirstFree (p : Prefix) (used : Addr → Bool) (a : Addr) : Type 0 where
  pub in_width : InWidth a
  pub is_host : IsHost p a
  pub free : used a ≡ false
  pub lowest : (b : Addr) → InWidth b → IsHost p b → number b < number a → used b ≡ true

-- Every host address of the prefix is used.
abbrev pub AllUsed : Prefix → (Addr → Bool) → Type 0
AllUsed p used = (b : Addr) → InWidth b → IsHost p b → used b ≡ true

same_family→eq : (f g : Family) → same_family f g ≡ true → f ≡ g
same_family→eq v4 v4 h = refl
same_family→eq v4 v6 h = absurd (ground arith)
same_family→eq v6 v4 h = absurd (ground arith)
same_family→eq v6 v6 h = refl

module _ (f : Family) (q bits : ℕ) (w : q * block f bits < 2 ^ width f) (used : Addr → Bool) where
  abbrev base : ℕ
  base = q * block f bits

  abbrev net : Prefix
  net = at f base bits

  host_family : (b : Addr) → IsHost net b → b ≡ ip f (number b)
  unfolding contains
  host_family no_addr h = absurd (ground arith)
  host_family (ip g m) h = ap (λ x. ip x m) (sym (same_family→eq f g (ground arith)))

  at_start :
      ((next (ip f base) ≡ ip f (suc base)) × InWidth (ip f (suc base)))
      ⊎ ((next (ip f base) ≡ no_addr) × (2 ^ width f ≤ suc base))
  unfolding next
  at_start = ground arith

  no_start : (fuel : ℕ) → scan (suc fuel) used net no_addr ≡ exhausted
  unfolding scan contains
  no_start fuel = refl

  run_start :
      ((scan_prefix used net ≡ scan (block f bits) used net (ip f (suc base)))
        × InWidth (ip f (suc base)))
      ⊎ ((scan_prefix used net ≡ exhausted) × (2 ^ width f ≤ suc base))
  unfolding scan_prefix
  run_start = elim at_start [
    | inl (e, r) ↦ inl (rw e, r)
    | inr (e, r) ↦
        let k : block f bits ≡ suc (block f bits - 1) = omega (arith, block_pos f bits) in
        inr (ap₂ (λ x y. scan x used net y) k e ∙ no_start (block f bits - 1), r)
  ]

  pub scan_all-found : (a : Addr) → scan_prefix used net ≡ found a → IsFirstFree net used a
  scan_all-found a h = elim run_start [
    | inl (e, r) ↦
        let g = scan_found f used base bits (block f bits) (suc base) a r (sym e ∙ h) in
        record {
          in_width = rw g.is_at g.in_width;
          is_host = rw g.is_at (g.inner, g.from_start);
          free = rw g.is_at g.free;
          lowest =
              λ b wb hb lt. rw (host_family b hb) (g.lowest (number b) hb.1 (rw g.is_at at lt));
        }
    | inr (e, r) ↦ absurd (ground arith)
  ]

  exhausted_at :
      (m : ℕ)
      → scan_prefix used net ≡ exhausted
      → InWidth (ip f m)
      → IsHost net (ip f m)
      → used (ip f m) ≡ true
  exhausted_at m h wb hb = elim run_start [
    | inl (e, r) ↦
        scan_exhausted f used base bits (block f bits) (suc base) (omega arith) (sym e ∙ h) m hb.1
          wb hb.0
    | inr (e, r) ↦ absurd (omega arith)
  ]

  pub scan_all-exhausted : scan_prefix used net ≡ exhausted → AllUsed net used
  scan_all-exhausted h b wb hb =
      let e = host_family b hb in
      rw e (exhausted_at (number b) h (subst InWidth e wb) (subst (IsHost net) e hb))

  pub scan_all-ends : scan_prefix used net ≢ out_of_fuel
  scan_all-ends h = elim run_start [
    | inl (e, r) ↦
        scan_ends f used base bits (block f bits) (suc base) q refl (block_pos f bits) (omega arith)
          (omega arith) (sym e ∙ h)
    | inr (e, r) ↦ ground arith
  ]
