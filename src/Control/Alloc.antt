-- ===== src/Control/Alloc.antt =====
-- allocateIPLocked of internal/control/store.go: the first free host address of the network.
pub mod Lowest
pub mod Whole
pub mod Free
use omniup_vpn.Base.{
  ℕ, zero, suc, Bool, true, false, ◌||◌, ◌&&◌, Option, none, some, List, [], ◌∷◌, if◌then◌else◌,
  Text, text_eq,
}
use omniup_vpn.Base.Map.{Map}
use omniup_vpn.Net.{Family, Addr, no_addr, ip, Prefix, next, masked, contains, block, width}
use omniup_vpn.NetText.{NetText}
use omniup_vpn.Control.State.{Device, StateFile, Result, ok, err, ip_exhausted, bad_cidr, stuck}

-- `used[text]`: some machine has this address.
unfoldable pub in_use : Text → Map Text Device → Bool
in_use a [] = false
in_use a ((k, d) ∷ m) = text_eq d.ip a || in_use a m

pub data Scan : Type 0 where
  found : Addr → Scan
  exhausted out_of_fuel : Scan

-- The `for` loop from the address `a`, with fuel for its rounds.
unfoldable pub scan : ℕ → (Addr → Bool) → Prefix → Addr → Scan
scan zero used p a = out_of_fuel
scan (suc fuel) used p a =
    let rest = scan fuel used p (next a) in
    if contains p a && contains p (next a) then (if used a then rest else found a) else exhausted

-- As many rounds as the prefix has addresses.
abbrev pub rounds_of : Addr → ℕ → ℕ
rounds_of no_addr bits = 1
rounds_of (ip f n) bits = block f bits

abbrev pub rounds : Prefix → ℕ
rounds p = rounds_of p.addr p.bits

unfoldable pub scan_prefix : (Addr → Bool) → Prefix → Scan
scan_prefix used p = scan (rounds p) used p (next p.addr)

module _ (t : NetText) where
  open t use {parse_prefix, addr_string}

  abbrev pub scan_result : Scan → Result Text
  scan_result (found a) = ok (addr_string a)
  scan_result exhausted = err ip_exhausted
  scan_result out_of_fuel = err stuck

  abbrev pub used_in : StateFile → Addr → Bool
  used_in s a = in_use (addr_string a) s.devices

  unfoldable pub allocate_ip : StateFile → Result Text
  allocate_ip s = elim (parse_prefix s.cidr) [
    | none ↦ err bad_cidr
    | some p ↦ scan_result (scan_prefix (used_in s) (masked p))
  ]
