-- ===== src/Dnssrv.antt =====
-- internal/dnssrv/dnssrv.go: the names of the network's machines. The wire format of DNS is the
-- library's; net.ParseIP and To4 are parameters.
pub mod Labels
pub mod Names
mod Tests
use omniup_vpn.Base.{
  ℕ, Bool, true, false, not, ◌||◌, ◌&&◌, Option, none, some, List, [], ◌∷◌, ◌++◌, leb, ◌==◌, take,
  if◌then◌else◌, Text, codes, text_eq, text_key, is_blank,
}
use omniup_vpn.Base.Map.{Map, get, put}
use omniup_vpn.Base.Strings.{trim, has_suffix}
use omniup_vpn.Unicode.{Unicode}
use omniup_vpn.Control.Api.{Peer, NetMap}

unfoldable pub is_label_byte : ℕ → Bool
is_label_byte c = (leb b'a' c && leb c b'z') || ((leb b'0' c && leb c b'9') || (c == b'-'))

abbrev pub label_onto : ℕ → Text → Text
label_onto c rest =
    if is_label_byte c
    then c ∷ rest
    else if (c == b'.') || ((c == b'_') || (c == b' '))
    then b'-' ∷ rest
    else rest

-- The loop of sanitizeLabel. Any other rune is left out, and every byte of a rune that is not ASCII
-- is above 127, so that the loop may go by bytes.
unfoldable pub label_bytes : Text → Text
label_bytes [] = []
label_bytes (c ∷ cs) = label_onto c (label_bytes cs)

-- sanitizeLabel
unfoldable pub sanitize_label : Unicode → Text → Text
sanitize_label u hostname = take 63 (trim b'-' (label_bytes (u.to_lower hostname)))

pub record DnsServer : Type 0 where
  pub zone : Text
  pub records : Map Text Text

-- New
unfoldable pub new_server : Unicode → Text → DnsServer
new_server u zone = record { zone = trim b'.' (u.to_lower zone) ++ codes "."; records = [] }

module _ (u : Unicode) (parse_ip : Text → Option Text) where
  abbrev pub record_name : Text → Peer → Text
  record_name zone p = sanitize_label u p.hostname ++ (codes "." ++ zone)

  abbrev pub entry_of : Peer → Option Text
  entry_of p = if is_blank (sanitize_label u p.hostname) then none else parse_ip p.ip

  abbrev pub put_entry : Text → Option Text → Map Text Text → Map Text Text
  put_entry name none m = m
  put_entry name (some ip) m = put name ip m

  -- The `add` of Update.
  unfoldable pub add_record : Text → Peer → Map Text Text → Map Text Text
  add_record zone p m = put_entry (record_name zone p) (entry_of p) m

  unfoldable pub add_all : Text → List Peer → Map Text Text → Map Text Text
  add_all zone [] m = m
  add_all zone (p ∷ ps) m = add_all zone ps (add_record zone p m)

  -- Update
  unfoldable pub update : NetMap → DnsServer → DnsServer
  update nm s = record s { records = add_all s.zone (nm.self ∷ nm.peers) [] }

pub record Question : Type 0 where
  pub name : Text
  pub qtype : ℕ

abbrev pub type_a : ℕ
type_a = 1

abbrev pub type_any : ℕ
type_any = 255

-- The answer's code, and the A records: a name and an address, which is nil for one that is not
-- IPv4.
pub data Rcode : Type 0 where
  success format_error refused name_error : Rcode

pub record DnsAnswer : Type 0 where
  pub rcode : Rcode
  pub answers : List (Text × Option Text)

abbrev pub bare : Rcode → DnsAnswer
bare r = record { rcode = r; answers = [] }

module _ (u : Unicode) (to4 : Text → Option Text) where
  abbrev pub record_answer : Question → Option Text → DnsAnswer
  record_answer q none = bare name_error
  record_answer q (some ip) =
      if (q.qtype == type_a) || (q.qtype == type_any)
      then record { rcode = success; answers = (q.name, to4 ip) ∷ [] }
      else bare success

  abbrev pub in_zone : Text → Text → Bool
  in_zone zone name = has_suffix name (codes "." ++ zone) || text_eq name zone

  abbrev pub answer_one : DnsServer → Question → DnsAnswer
  answer_one s q =
      if in_zone s.zone (u.to_lower q.name)
      then record_answer q (get (u.to_lower q.name) s.records)
      else bare refused

  -- ServeDNS
  unfoldable pub serve_dns : DnsServer → List Question → DnsAnswer
  serve_dns s [] = bare format_error
  serve_dns s (q ∷ []) = answer_one s q
  serve_dns s (q ∷ r ∷ qs) = bare format_error
