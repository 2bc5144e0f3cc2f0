-- ===== src/NetText.antt =====
-- The text forms of netip's addresses and prefixes: a parameter of the modules that parse or print
-- them, with what its documentation says of them.
use omniup_vpn.Base.{ℕ, ◌≡◌, ◌≤◌, Option, some, Text}
use omniup_vpn.Net.{Addr, Prefix, InWidth, Family, ip, width}

-- A prefix as ParsePrefix gives it: an address, and no more bits than its family has.
pub record IsPrefix (p : Prefix) : Type 0 where
  pub family : Family
  pub base : ℕ
  pub is_ip : p.addr ≡ ip family base
  pub in_width : InWidth (ip family base)
  pub bits_le : p.bits ≤ width family

pub record NetText : Type 0 where
  pub parse_prefix : Text → Option Prefix
  pub addr_string : Addr → Text
  pub prefix_string : Prefix → Text
  -- two addresses have two texts
  pub addr_string_injective :
      (a b : Addr) → InWidth a → InWidth b → addr_string a ≡ addr_string b → a ≡ b
  pub parse_prefix-IsPrefix : (s : Text) (p : Prefix) → parse_prefix s ≡ some p → IsPrefix p
