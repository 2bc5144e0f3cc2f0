-- ===== src/Control/Alloc/Free.antt =====
-- The address that a new machine gets.
use omniup_vpn.Base.{ℕ, ◌*◌, ◌/◌, ◌<◌, ◌^◌, ◌≡◌, ◌⊎◌, inl, inr, refl, ap, Bool, some, arith}
use omniup_vpn.Net.{Addr, width, Prefix, masked, block}
use omniup_vpn.NetText.{NetText, IsPrefix}
use omniup_vpn.Control.State.{StateFile, ok, err, ip_exhausted}
use omniup_vpn.Control.Alloc.{
  Scan, found, exhausted, out_of_fuel, scan_prefix, used_in, scan_result, allocate_ip,
}
use omniup_vpn.Control.Alloc.Lowest.{at}
use omniup_vpn.Control.Alloc.Whole.{
  IsFirstFree, AllUsed, scan_all-found, scan_all-exhausted, scan_all-ends,
}

-- The prefix at its network address.
masked_lem :
    (p : Prefix) (h : IsPrefix p)
    → masked p ≡ at h.family (h.base / block h.family p.bits * block h.family p.bits) p.bits
unfolding masked
masked_lem p h = ground arith

net_lt :
    (p : Prefix) (h : IsPrefix p)
    → h.base / block h.family p.bits * block h.family p.bits < 2 ^ width h.family
net_lt p h = grind arith

-- How the scan of a parsed prefix ends: at its first free host address, or because all are used.
pub scan_cases :
    (p : Prefix) (h : IsPrefix p) (used : Addr → Bool)
    → ((a : Addr) × (scan_prefix used (masked p) ≡ found a) × IsFirstFree (masked p) used a)
      ⊎ ((scan_prefix used (masked p) ≡ exhausted) × AllUsed (masked p) used)
scan_cases p h used = rw (masked_lem p h) (go (scan_prefix used net) refl)
  where
    q : ℕ
    q = h.base / block h.family p.bits

    net : Prefix
    net = at h.family (q * block h.family p.bits) p.bits

    go :
        (r : Scan)
        → scan_prefix used net ≡ r
        → ((a : Addr) × (scan_prefix used net ≡ found a) × IsFirstFree net used a)
          ⊎ ((scan_prefix used net ≡ exhausted) × AllUsed net used)
    go (found a) e = inl (a, e, scan_all-found h.family q p.bits (net_lt p h) used a e)
    go exhausted e = inr (e, scan_all-exhausted h.family q p.bits (net_lt p h) used e)
    go out_of_fuel e = absurd (scan_all-ends h.family q p.bits (net_lt p h) used e)

-- On a state whose range parses, the allocation ends, in one of two ways: it gives the text of the
-- lowest host address (neither the network's nor the broadcast address) that no machine has, or,
-- every host address being taken, it reports that the range is exhausted.
pub allocate_ip_cases :
    (t : NetText) (s : StateFile) (p : Prefix)
    → t.parse_prefix s.cidr ≡ some p
    → ((a : Addr) × (allocate_ip t s ≡ ok (t.addr_string a))
        × IsFirstFree (masked p) (used_in t s) a)
      ⊎ ((allocate_ip t s ≡ err ip_exhausted) × AllUsed (masked p) (used_in t s))
unfolding allocate_ip
allocate_ip_cases t s p e = elim (scan_cases p (t.parse_prefix-IsPrefix s.cidr p e) (used_in t s)) [
  | inl (a, q, first) ↦ inl (a, rw (e, allocate_ip) (ap (scan_result t) q), first)
  | inr (q, all) ↦ inr (rw (e, allocate_ip) (ap (scan_result t) q), all)
]
