-- ===== src/Net.antt =====
-- The values of Go's net/netip that the program computes with: addresses of both families,
-- prefixes and address-port pairs. Their text forms are a parameter (NetText.antt).
use omniup_vpn.Base.{
  ℕ, ◌+◌, ◌-◌, ◌*◌, ◌/◌, ◌%◌, ◌^◌, ◌<◌, ◌≡◌, ◌↔◌, Bool, true, false, ◌&&◌, arith, ◌==◌,
  if◌then◌else◌, Eq,
}

pub data Family : Type 0 where
  v4 v6 : Family

abbrev pub width : Family → ℕ
width v4 = 32
width v6 = 128

abbrev pub same_family : Family → Family → Bool
same_family v4 v4 = true
same_family v6 v6 = true
same_family _ _ = false

-- `no_addr` is the zero netip.Addr, which is not valid.
pub data Addr : Type 0 where
  no_addr : Addr
  ip : Family → ℕ → Addr

abbrev pub is_valid : Addr → Bool
is_valid no_addr = false
is_valid (ip f n) = true

abbrev pub is4 : Addr → Bool
is4 (ip v4 n) = true
is4 _ = false

-- An address of its family's width.
abbrev pub InWidth : Addr → Type 0
InWidth no_addr = ⊥
InWidth (ip f n) = n < 2 ^ width f

abbrev pub number : Addr → ℕ
number no_addr = 0
number (ip f n) = n

-- Addr.Next: behind the last address there is none.
unfoldable pub next : Addr → Addr
next no_addr = no_addr
next (ip f n) = if n + 1 == 2 ^ width f then no_addr else ip f (n + 1)

-- Addr.Unmap: an IPv4 address mapped into IPv6 is taken as IPv4.
unfoldable pub unmap : Addr → Addr
unmap (ip v6 n) = if n / 2 ^ 32 == 0xffff then ip v4 (n % 2 ^ 32) else ip v6 n
unmap a = a

pub record Prefix : Type 0 where
  pub addr : Addr
  pub bits : ℕ

-- The number of addresses of a prefix.
abbrev pub block : Family → ℕ → ℕ
block f bits = 2 ^ (width f - bits)

abbrev pub masked_addr : Addr → ℕ → Addr
masked_addr no_addr bits = no_addr
masked_addr (ip f n) bits = ip f (n / block f bits * block f bits)

-- Prefix.Masked clears the bits behind the prefix.
unfoldable pub masked : Prefix → Prefix
masked p = record p { addr = masked_addr p.addr p.bits }

abbrev pub contains_addr : Addr → ℕ → Addr → Bool
contains_addr (ip f b) bits (ip g a) = same_family f g && (a / block f bits == b / block f bits)
contains_addr _ _ _ = false

-- Prefix.Contains
unfoldable pub contains : Prefix → Addr → Bool
contains p a = contains_addr p.addr p.bits a

pub record AddrPort : Type 0 where
  pub addr : Addr
  pub port : ℕ

abbrev pub addr_eq : Addr → Addr → Bool
addr_eq no_addr no_addr = true
addr_eq (ip f a) (ip g b) = same_family f g && (a == b)
addr_eq _ _ = false

pub addr_eq_iff : (a b : Addr) → (addr_eq a b ≡ true) ↔ (a ≡ b)
addr_eq_iff no_addr no_addr = ground arith
addr_eq_iff no_addr (ip g b) = ground arith
addr_eq_iff (ip f a) no_addr = ground arith
addr_eq_iff (ip f a) (ip g b) = ground arith

unfoldable pub addr_port_eq : AddrPort → AddrPort → Bool
addr_port_eq a b = addr_eq a.addr b.addr && (a.port == b.port)

pub addr_port_eq_iff : (a b : AddrPort) → (addr_port_eq a b ≡ true) ↔ (a ≡ b)
unfolding addr_port_eq
addr_port_eq_iff a b = ground (arith, addr_eq_iff a.addr b.addr)

instance abbrev pub addr_port_key : Eq AddrPort
addr_port_key = record { beq = addr_port_eq; beq_iff = addr_port_eq_iff }

-- AddrPort.IsValid
abbrev pub is_valid_port : AddrPort → Bool
is_valid_port ap = is_valid ap.addr
