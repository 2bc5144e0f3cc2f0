-- ===== src/Stun/Requests.antt =====
-- A Binding request is recognised and its transaction read back.
use omniup_vpn.Base.{◌≡◌, Text, length, arith, take_all}
use omniup_vpn.Base.Bytes.{from_be}
use omniup_vpn.Stun.{is_message, build_request, parse_request, ok}

pub parse_request-build_request :
    (id : Text) → length id ≡ 12 → parse_request (build_request id) ≡ ok id
unfolding parse_request build_request is_message from_be
parse_request-build_request id h = ground (arith, take_all 12 id (omega arith))
