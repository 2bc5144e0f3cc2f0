-- ===== src/Agent/Endpoints/Discover.antt =====
-- internal/agent/endpoints.go: the candidates that the agent finds for itself, and the servers that
-- it derives from the coordination server's URL. Interfaces, STUN answers and parsed URLs are inputs.
use omniup_vpn.Base.{
  ℕ, Bool, false, not, ◌&&◌, ◌||◌, Option, none, some, List, [], ◌∷◌, ◌++◌, leb, ltb, ◌==◌,
  if◌then◌else◌, Text, is_blank, codes, take, length, text_eq,
}
use omniup_vpn.Control.Fleet.{mem_text}
use omniup_vpn.Control.Api.{join_host_port, itoa}

-- An address of an interface: its four bytes, if it is IPv4, whether it is a global unicast address,
-- and its text.
pub record IfaceAddr : Type 0 where
  pub to4 : Option (ℕ × ℕ × ℕ × ℕ)
  pub is_global : Bool
  pub text : Text

pub record Iface : Type 0 where
  pub name : Text
  pub is_up : Bool
  pub is_loopback : Bool
  pub addrs : Option (List IfaceAddr)

-- inOverlay: 100.64.0.0/10
unfoldable pub in_overlay : ℕ × ℕ × ℕ × ℕ → Bool
in_overlay (a, b, c, d) = (a == 100) && (leb 64 b && ltb b 128)

abbrev pub is_candidate : IfaceAddr → Option (ℕ × ℕ × ℕ × ℕ) → Bool
is_candidate x none = false
is_candidate x (some four) = x.is_global && not (in_overlay four)

unfoldable pub addrs_of : List IfaceAddr → List Text
addrs_of [] = []
addrs_of (x ∷ xs) = let rest = addrs_of xs in if is_candidate x x.to4 then x.text ∷ rest else rest

abbrev pub readable : Option (List IfaceAddr) → List IfaceAddr
readable none = []
readable (some xs) = xs

abbrev pub is_skipped : Text → Iface → Bool
is_skipped skip i = not i.is_up || (i.is_loopback || text_eq i.name skip)

-- localIPv4; `none` is a failure to list the interfaces.
unfoldable pub addrs_on : Text → List Iface → List Text
addrs_on skip [] = []
addrs_on skip (i ∷ is) =
    let rest = addrs_on skip is in
    if is_skipped skip i then rest else addrs_of (readable i.addrs) ++ rest

abbrev pub local_ipv4 : Text → Option (List Iface) → List Text
local_ipv4 skip none = []
local_ipv4 skip (some is) = addrs_on skip is

-- dedup; what it has seen is what it has appended.
unfoldable pub dedup_onto : List Text → List Text → List Text
dedup_onto out [] = out
dedup_onto out (s ∷ ss) = dedup_onto (if mem_text s out then out else out ++ s ∷ []) ss

unfoldable pub dedup : List Text → List Text
dedup ss = dedup_onto [] ss

-- The STUN servers in their order, with what each answers: the first answer ends the loop.
unfoldable pub first_mapped : List (Option Text) → List Text
first_mapped [] = []
first_mapped (none ∷ rest) = first_mapped rest
first_mapped (some mapped ∷ rest) = mapped ∷ []

unfoldable pub with_port : ℕ → List Text → List Text
with_port port [] = []
with_port port (ip ∷ ips) = join_host_port ip (itoa port) ∷ with_port port ips

-- DiscoverEndpoints
unfoldable pub discover_endpoints : ℕ → List (Option Text) → Text → Option (List Iface) → List Text
discover_endpoints port stun skip ifaces =
    if port == 0 then [] else dedup (first_mapped stun ++ with_port port (local_ipv4 skip ifaces))

-- hostWithPort; `host` is what url.Parse makes of the URL's host name.
abbrev pub host_with_port : Option Text → Text → Text
host_with_port none port = []
host_with_port (some host) port = if is_blank host then [] else join_host_port host port

-- DefaultSTUNServer and DefaultRelayServer
unfoldable pub default_stun_server : Option Text → Text
default_stun_server host = host_with_port host (codes "3478")

unfoldable pub default_relay_server : Option Text → Text
default_relay_server host = host_with_port host (codes "3479")

-- shortKey; the ellipsis is three bytes in UTF-8.
unfoldable pub short_key : Text → Text
short_key k = if ltb 12 (length k) then take 12 k ++ (0xE2 ∷ 0x80 ∷ 0xA6 ∷ []) else k
