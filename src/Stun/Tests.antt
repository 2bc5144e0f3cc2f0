-- ===== src/Stun/Tests.antt =====
-- What the theorems about STUN say of small packets.
use omniup_vpn.Net.{unmap}
use omniup_vpn.Base.{◌≡◌, ◌≢◌, refl, some, [], ◌∷◌, ◌++◌, Text, arith}
use omniup_vpn.Net.{ip, v4, v6, AddrPort}
use omniup_vpn.Stun.{build_request, serve, parse_response, ok, out_of_fuel, cookie_bytes}
use omniup_vpn.Stun.Responses.{serve_round_trip}
use omniup_vpn.Stun.Panics.{parse_response-ends}

abbrev id : Text
id = 1 ∷ 2 ∷ 3 ∷ 4 ∷ 5 ∷ 6 ∷ 7 ∷ 8 ∷ 9 ∷ 10 ∷ 11 ∷ 12 ∷ []

-- 10.0.0.1 as an IPv4 address mapped into IPv6
abbrev mapped : AddrPort
mapped = record { addr = ip v6 281470849515521; port = 41641 }

serve_round_trip_example :
    (pkt : Text) × (serve (build_request id) mapped ≡ some pkt)
    × (parse_response pkt ≡ ok (id, record { addr = ip v4 167772161; port = 41641 }))
unfolding unmap
serve_round_trip_example =
    serve_round_trip id v4 167772161 mapped refl refl (omega arith) (omega arith)

abbrev unpadded : Text
unpadded = 1 ∷ 1 ∷ 0 ∷ 6 ∷ (cookie_bytes ++ (id ++ (0x80 ∷ 0x22 ∷ 0 ∷ 2 ∷ 1 ∷ 2 ∷ [])))

parse_response-ends_example : parse_response unpadded ≢ out_of_fuel
parse_response-ends_example = parse_response-ends unpadded
