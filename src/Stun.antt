-- ===== src/Stun.antt =====
-- internal/stun/stun.go and server.go: Binding requests and responses.
-- A slice expression that is out of bounds panics in Go: that is a result here.
pub mod Requests
pub mod Responses
pub mod Panics
mod Tests
use Prim.Native.Nat.{bit_and, bit_xor}
use omniup_vpn.Base.{
  ℕ, zero, suc, ◌+◌, ◌-◌, ◌*◌, ◌/◌, ◌%◌, Bool, true, false, not, ◌&&◌, ◌||◌, Option, none, some,
  List, [], ◌∷◌, ◌++◌, leb, ltb, ◌==◌, if◌then◌else◌, Text, length, take, drop, get_or,
}
use omniup_vpn.Base.Bytes.{from_be, be_bytes, xor_bytes}
use omniup_vpn.Net.{Family, v4, v6, Addr, no_addr, ip, AddrPort, unmap}

abbrev pub header_len : ℕ
header_len = 20

abbrev pub magic_cookie : ℕ
magic_cookie = 0x2112A442

-- MagicCookie in network order, and its upper half.
abbrev pub cookie_bytes : Text
cookie_bytes = 0x21 ∷ 0x12 ∷ 0xA4 ∷ 0x42 ∷ []

abbrev pub cookie_high : ℕ
cookie_high = 0x2112

abbrev pub type_binding_request : ℕ
type_binding_request = 0x0001

abbrev pub type_binding_response : ℕ
type_binding_response = 0x0101

abbrev pub attr_mapped_address : ℕ
attr_mapped_address = 0x0001

abbrev pub attr_xor_mapped_address : ℕ
attr_xor_mapped_address = 0x0020

-- binary.BigEndian.Uint16(b[i:i+2])
abbrev pub uint16_at : Text → ℕ → ℕ
uint16_at b i = get_or b i 0 * 256 + get_or b (i + 1) 0

-- IsMessage
unfoldable pub is_message : Text → Bool
is_message b =
    leb header_len (length b)
    && (bit_and (get_or b 0 0) 0xC0 == 0)
    && (from_be 0 (take 4 (drop 4 b)) == magic_cookie)

unfoldable pub is_binding_response : Text → Bool
is_binding_response b = is_message b && (uint16_at b 0 == type_binding_response)

-- BuildBindingRequest; a TxID is a text of 12 bytes.
unfoldable pub build_request : Text → Text
build_request id = 0 ∷ 1 ∷ 0 ∷ 0 ∷ (cookie_bytes ++ id)

abbrev pub ip_len : Family → ℕ
ip_len v4 = 4
ip_len v6 = 16

abbrev pub family_byte : Family → ℕ
family_byte v4 = 0x01
family_byte v6 = 0x02

abbrev pub xor_key : Text → Text
xor_key id = cookie_bytes ++ id

abbrev pub attribute : Text → Family → ℕ → ℕ → Text
attribute id f n port =
    be_bytes 2 attr_xor_mapped_address
    ++ (be_bytes 2 (4 + ip_len f)
        ++ (0
            ∷ family_byte f
            ∷ (be_bytes 2 (bit_xor port cookie_high)
                ++ xor_bytes (be_bytes (ip_len f) n) (xor_key id))))

abbrev pub response_for : Text → ℕ → Addr → Option Text
response_for id port no_addr = none
response_for id port (ip f n) =
    some (1 ∷ 1 ∷ (be_bytes 2 (8 + ip_len f) ++ (cookie_bytes ++ (id ++ attribute id f n port))))

-- BuildBindingResponse; the zero address has no bytes, and indexing them panics: `none`.
unfoldable pub build_response : Text → AddrPort → Option Text
build_response id ap = response_for id ap.port (unmap ap.addr)

pub data StunError : Type 0 where
  not_stun not_request not_response truncated no_address : StunError

pub data Parsed {ℓ} (A : Type ℓ) : Type ℓ where
  ok : A → Parsed A
  err : StunError → Parsed A
  panic : Parsed A
  out_of_fuel : Parsed A

-- ParseBindingRequest
unfoldable pub parse_request : Text → Parsed Text
parse_request b =
    if not (is_message b)
    then err not_stun
    else if not (uint16_at b 0 == type_binding_request)
    then err not_request
    else ok (take 12 (drop 8 b))

abbrev pub value_family : Text → Family
value_family v = if get_or v 1 0 == 0x02 then v6 else v4

-- The address bytes and port, with the exclusive or undone if `xored`.
abbrev pub decoded : Text → Text → Bool → Family → AddrPort
decoded v id true f = record {
  addr = unmap (ip f (from_be 0 (xor_bytes (take (ip_len f) (drop 4 v)) (xor_key id))));
  port = bit_xor (uint16_at v 2) cookie_high;
}
decoded v id false f = record {
  addr = unmap (ip f (from_be 0 (take (ip_len f) (drop 4 v))));
  port = uint16_at v 2;
}

-- decodeAddress; `none` is an attribute that is too short.
unfoldable pub decode_address : Text → Text → Bool → Option AddrPort
decode_address v id xored =
    if ltb (length v) 8
    then none
    else if ltb (length v) (4 + ip_len (value_family v))
    then none
    else some (decoded v id xored (value_family v))

abbrev pub or_else {ℓ} : {A : Type ℓ} → Option A → Option A → Option A
or_else none b = b
or_else (some a) b = some a

abbrev pub at_end : Text → Option AddrPort → Parsed (Text × AddrPort)
at_end id none = err no_address
at_end id (some mapped) = ok (id, mapped)

-- What an attribute says: the answer itself, or what is kept of it for the end.
abbrev pub xor_answer : ℕ → Text → Text → Option AddrPort
xor_answer ty id value =
    if ty == attr_xor_mapped_address then decode_address value id true else none

abbrev pub kept : ℕ → Text → Text → Option AddrPort → Option AddrPort
kept ty id value mapped =
    if ty == attr_mapped_address then or_else (decode_address value id false) mapped else mapped

-- `(n + 3) &^ 3`
abbrev pub aligned : ℕ → ℕ
aligned n = (n + 3) / 4 * 4

abbrev pub unless_answered :
    Text → Option AddrPort → Parsed (Text × AddrPort) → Parsed (Text × AddrPort)
unless_answered id (some ap) rest = ok (id, ap)
unless_answered id none rest = rest

-- The loop over the attributes, with fuel. `attrs[4+aligned:]` panics where the padding of the
-- last attribute is not there.
unfoldable pub attr_loop : ℕ → Text → Text → Option AddrPort → Parsed (Text × AddrPort)
attr_loop zero id attrs mapped = out_of_fuel
attr_loop (suc fuel) id attrs mapped =
    let ty = uint16_at attrs 0 in
    let len = uint16_at attrs 2 in
    let value = take len (drop 4 attrs) in
    let rest = attr_loop fuel id (drop (4 + aligned len) attrs) (kept ty id value mapped) in
    if ltb (length attrs) 4
    then at_end id mapped
    else if ltb (length attrs) (4 + len)
    then at_end id mapped
    else unless_answered id (xor_answer ty id value)
        (if ltb (length attrs) (4 + aligned len) then panic else rest)

-- ParseBindingResponse
unfoldable pub parse_response : Text → Parsed (Text × AddrPort)
parse_response b =
    let id = take 12 (drop 8 b) in
    let msg_len = uint16_at b 2 in
    if not (is_binding_response b)
    then err not_response
    else if ltb (length b) (header_len + msg_len)
    then err truncated
    else attr_loop (suc msg_len) id (take msg_len (drop header_len b)) none

abbrev pub reply_to : AddrPort → Parsed Text → Option Text
reply_to src (ok id) = build_response id (record src { addr = unmap src.addr })
reply_to src _ = none

-- What Serve answers to a packet: nothing unless it is a Binding request.
unfoldable pub serve : Text → AddrPort → Option Text
serve pkt src = reply_to src (parse_request pkt)
