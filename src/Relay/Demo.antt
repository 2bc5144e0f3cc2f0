-- ===== src/Relay/Demo.antt =====
-- A small relay for the tests: functions in the place of Curve25519 and HMAC, two addresses and two
-- clients. A point is a number below 256 with 31 zero bytes behind it.
use omniup_vpn.Base.{ℕ, ◌+◌, ◌%◌, ◌≡◌, refl, some, [], ◌∷◌, ◌++◌, Text, length, arith}
use omniup_vpn.Net.{ip, v4, AddrPort}
use omniup_vpn.Relay.Frames.{proof_frame}
use omniup_vpn.Relay.Proof.{Crypto}
use omniup_vpn.Relay.Server.{Server, Env}

abbrev pub total : Text → ℕ
total [] = 0
total (x ∷ xs) = x + total xs

abbrev pub zeros_15 : Text
zeros_15 = 0 ∷ 0 ∷ 0 ∷ 0 ∷ 0 ∷ 0 ∷ 0 ∷ 0 ∷ 0 ∷ 0 ∷ 0 ∷ 0 ∷ 0 ∷ 0 ∷ 0 ∷ []

abbrev pub point : ℕ → Text
point n = n % 256 ∷ 0 ∷ (zeros_15 ++ zeros_15)

pub length-point : (a p c : Text) → some (point (total a + total p)) ≡ some c → length c ≡ 32
length-point a p c h = ground arith

pub point_comm :
    (a b a_pub b_pub : Text)
    → some (point (total a + total (point 0))) ≡ some a_pub
    → some (point (total b + total (point 0))) ≡ some b_pub
    → some (point (total a + total b_pub)) ≡ some (point (total b + total a_pub))
point_comm a b a_pub b_pub h k = ground arith

-- Two sums commute, as two exponents do.
abbrev pub sums : Crypto
sums = record {
  x25519 = λ a p. some (point (total a + total p));
  basepoint = point 0;
  hmac_sha256 = λ key message. point (total key + total message);
  length-x25519 = length-point;
  length-hmac = λ key message. refl;
  x25519_comm = point_comm;
}

abbrev pub alice : AddrPort
alice = record { addr = ip v4 167772161; port = 41641 }

abbrev pub bob : AddrPort
bob = record { addr = ip v4 167772162; port = 41641 }

abbrev pub alice_priv : Text
alice_priv = 5 ∷ []

abbrev pub alice_key : Text
alice_key = point 5

abbrev pub bob_key : Text
bob_key = point 6

abbrev pub relay_key : Text
relay_key = point 9

abbrev pub nonce : Text
nonce = 1 ∷ zeros_15

-- The proof that the holder of a key builds for the nonce.
abbrev pub proof : Text → Text
proof key = proof_frame key nonce (point (total key + 9 + (1 + total key)))

abbrev pub at : ℕ → Env
at now = record { now = now; nonce = some nonce }

abbrev pub started : Server
started = record { priv = 9 ∷ []; self_key = relay_key; clients = []; by_addr = []; pending = [] }
