-- ===== src/Stun/Responses.antt =====
-- The observed address comes back through a response.
use Prim.Native.Nat.{bit_xor}
use omniup_vpn.Base.{
  ℕ, suc, ◌+◌, ◌*◌, ◌/◌, ◌%◌, ◌^◌, ◌<◌, ◌≡◌, refl, sym, ap, ◌∙◌, true, none, some, ◌∷◌, ◌++◌, Text,
  length, arith, take_all, take-append_exact, drop-append_exact, length-append,
}
use omniup_vpn.Base.Bits.{bit_xor_cancel, bit_xor-lt}
use omniup_vpn.Base.Bytes.{
  from_be, be_bytes, xor_bytes, xor_bytes_cancel, length-xor_bytes, length-be_bytes,
  from_be-be_bytes,
}
use omniup_vpn.Net.{Family, v4, v6, Addr, no_addr, ip, AddrPort, unmap}
use omniup_vpn.Stun.Requests.{parse_request-build_request}
use omniup_vpn.Stun.{
  is_message, is_binding_response, build_request, build_response, response_for, parse_response,
  attr_loop, decode_address, ok, serve, xor_key, ip_len, family_byte, cookie_high, cookie_bytes,
}

unmap_idem : (a : Addr) → unmap (unmap a) ≡ unmap a
unfolding unmap
unmap_idem no_addr = refl
unmap_idem (ip v4 n) = refl
unmap_idem (ip v6 n) = ground arith

module _ (id : Text) (hi lo : ℕ) (xs : Text) where
  -- The value of an XOR-MAPPED-ADDRESS attribute, and the address and port that it means.
  abbrev value : Family → Text
  value f = 0 ∷ family_byte f ∷ hi ∷ lo ∷ xs

  abbrev meant : Family → AddrPort
  meant f = record {
    addr = unmap (ip f (from_be 0 (xor_bytes xs (xor_key id))));
    port = bit_xor (hi * 256 + lo) cookie_high;
  }

  decode_value :
      (f : Family) → length xs ≡ ip_len f → decode_address (value f) id true ≡ some (meant f)
  unfolding decode_address
  decode_value v4 len = ground (arith, take_all 4 xs (omega arith))
  decode_value v6 len = ground (arith, take_all 16 xs (omega arith))

  loop_value :
      (f : Family) (fuel : ℕ)
      → length xs ≡ ip_len f
      → attr_loop (suc fuel) id (0 ∷ 0x20 ∷ 0 ∷ (4 + ip_len f) ∷ value f) none ≡ ok (id, meant f)
  unfolding attr_loop
  loop_value v4 fuel len = ground (arith, take_all 4 xs (omega arith), decode_value v4 len)
  loop_value v6 fuel len = ground (arith, take_all 16 xs (omega arith), decode_value v6 len)

-- A well-formed response with one attribute of the length that its header states.
pub parse_one :
    (id body : Text) (n : ℕ)
    → length id ≡ 12
    → length body ≡ n
    → n < 256
    → parse_response (1 ∷ 1 ∷ 0 ∷ n ∷ (cookie_bytes ++ (id ++ body)))
      ≡ attr_loop (suc n) id body none
unfolding parse_response is_binding_response is_message from_be
parse_one id body n h k small = ground (
  arith,
  length-append id body,
  take-append_exact 12 id body h,
  drop-append_exact 12 id body h,
  take_all n body (omega arith),
)

-- The two bytes of the exclusive or of a port with the cookie.
abbrev port_high : ℕ → ℕ
port_high port = bit_xor port cookie_high / 256 % 256

abbrev port_low : ℕ → ℕ
port_low port = bit_xor port cookie_high % 256

abbrev xored : Text → Family → ℕ → Text
xored id f n = xor_bytes (be_bytes (ip_len f) n) (xor_key id)

response_lem :
    (id : Text) (f : Family) (n port : ℕ)
    → response_for id port (ip f n)
      ≡ some (
          1
          ∷ 1
          ∷ 0
          ∷ (8 + ip_len f)
          ∷ (cookie_bytes
              ++ (id
                  ++ (0
                      ∷ 0x20
                      ∷ 0
                      ∷ (4 + ip_len f)
                      ∷ value id (port_high port) (port_low port) (xored id f n) f))))
unfolding be_bytes
response_lem id v4 n port = refl
response_lem id v6 n port = refl

module _ (id : Text) (h : length id ≡ 12) (f : Family) (n port : ℕ) (w : n < 256 ^ ip_len f)
    (p : port < 65536) where
  length-xored : length (xored id f n) ≡ ip_len f
  length-xored =
      length-xor_bytes (be_bytes (ip_len f) n) (xor_key id) ∙ length-be_bytes (ip_len f) n

  meant_lem :
      meant id (port_high port) (port_low port) (xored id f n) f
      ≡ record { addr = unmap (ip f n); port = port }
  meant_lem = cc (
    xor_bytes_cancel (be_bytes (ip_len f) n) (xor_key id),
    from_be-be_bytes (ip_len f) n w,
    two_bytes (bit_xor port cookie_high) (bit_xor-lt 16 port cookie_high p (omega arith)),
    bit_xor_cancel port cookie_high,
  )
    where
      two_bytes : (x : ℕ) → x < 2 ^ 16 → x / 256 % 256 * 256 + x % 256 ≡ x
      two_bytes x q = omega arith

  parse_xored :
      ip_len f < 100
      → parse_response (
          1
          ∷ 1
          ∷ 0
          ∷ (8 + ip_len f)
          ∷ (cookie_bytes
              ++ (id
                  ++ (0
                      ∷ 0x20
                      ∷ 0
                      ∷ (4 + ip_len f)
                      ∷ value id (port_high port) (port_low port) (xored id f n) f))))
        ≡ ok (id, record { addr = unmap (ip f n); port = port })
  parse_xored small =
      parse_one id _ (8 + ip_len f) h (omega (arith, length-xored)) (omega arith)
      ∙ loop_value id (port_high port) (port_low port) (xored id f n) f (8 + ip_len f) length-xored
      ∙ ap (λ a. ok (id, a)) meant_lem

-- A Binding response carries the source's address and port to the client that asked: the packet
-- that the server sends for the request of a transaction of 12 bytes is read back by the client as
-- that transaction's, with the address and port that the server saw, an IPv4 address mapped into
-- IPv6 as IPv4. (Addresses are in their family's width, the port is 16 bits.)
pub serve_round_trip :
    (id : Text) (f : Family) (n : ℕ) (src : AddrPort)
    → length id ≡ 12
    → unmap src.addr ≡ ip f n
    → n < 256 ^ ip_len f
    → src.port < 65536
    → (pkt : Text) × (serve (build_request id) src ≡ some pkt)
      × (parse_response pkt ≡ ok (id, record { addr = ip f n; port = src.port }))
unfolding serve build_response
serve_round_trip id f n src h seen w p =
    let again : unmap (unmap src.addr) ≡ ip f n = unmap_idem src.addr ∙ seen in
    let same : unmap (ip f n) ≡ ip f n = ap unmap (sym seen) ∙ again in
    (
      _,
      rw (parse_request-build_request id h, again) (response_lem id f n src.port),
      parse_xored id h f n src.port w p (small f)
          ∙ ap (λ a. ok (id, record { addr = a; port = src.port })) same,
    )
  where
    small : (g : Family) → ip_len g < 100
    small v4 = omega arith
    small v6 = omega arith
