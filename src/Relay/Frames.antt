-- ===== src/Relay/Frames.antt =====
-- internal/relay/relay.go: the frames of the relay protocol. A [32]byte or [16]byte is a text of
-- that length; what `copy` writes into a fresh slice is written as an append.
pub mod RoundTrip
use omniup_vpn.Base.{
  ℕ, ◌+◌, ◌-◌, Bool, true, false, ◌&&◌, Option, none, some, List, [], ◌∷◌, ◌++◌, leb, ltb, ◌==◌,
  if◌then◌else◌, Text, text_eq, length, take, drop, get_or,
}

abbrev pub header_len : ℕ
header_len = 6

abbrev pub key_len : ℕ
key_len = 32

abbrev pub nonce_len : ℕ
nonce_len = 16

abbrev pub mac_len : ℕ
mac_len = 32

abbrev pub type_register : ℕ
type_register = 0x01

abbrev pub type_ack : ℕ
type_ack = 0x02

abbrev pub type_forward : ℕ
type_forward = 0x03

abbrev pub type_recv : ℕ
type_recv = 0x04

abbrev pub type_challenge : ℕ
type_challenge = 0x05

abbrev pub type_proof : ℕ
type_proof = 0x06

abbrev pub magic : Text
magic = 0xC6 ∷ b'O' ∷ b'M' ∷ b'N' ∷ b'R' ∷ []

unfoldable pub is_frame : Text → Bool
is_frame b =
    leb header_len (length b)
    && (get_or b 0 0 == 0xC6)
    && text_eq (take 4 (drop 1 b)) (drop 1 magic)

unfoldable pub frame_type : Text → ℕ
frame_type b = get_or b 5 0

unfoldable pub build_register : Text → Text
build_register self_key = magic ++ type_register ∷ self_key

unfoldable pub build_ack : Text
build_ack = magic ++ type_ack ∷ []

unfoldable pub build_forward : Text → Text → Text
build_forward dst_key payload = magic ++ type_forward ∷ (dst_key ++ payload)

unfoldable pub build_recv : Text → Text → Text
build_recv src_key payload = magic ++ type_recv ∷ (src_key ++ payload)

unfoldable pub parse_keyed : Text → Option (Text × Text)
parse_keyed b =
    if ltb (length b) (header_len + key_len)
    then none
    else some (take key_len (drop header_len b), drop (header_len + key_len) b)

unfoldable pub build_challenge : Text → Text → Text
build_challenge relay_pub nonce = magic ++ type_challenge ∷ (relay_pub ++ nonce)

unfoldable pub parse_challenge : Text → Option (Text × Text)
parse_challenge b =
    if length b == header_len + key_len + nonce_len
    then some (take key_len (drop header_len b), drop (header_len + key_len) b)
    else none

unfoldable pub proof_frame : Text → Text → Text → Text
proof_frame client_pub nonce mac = magic ++ type_proof ∷ (client_pub ++ (nonce ++ mac))

pub record ProofFrame : Type 0 where
  pub client_pub : Text
  pub nonce : Text
  pub mac : Text

unfoldable pub parse_proof : Text → Option ProofFrame
parse_proof b =
    if length b == header_len + key_len + nonce_len + mac_len
    then some (record {
      client_pub = take key_len (drop header_len b);
      nonce = take nonce_len (drop (header_len + key_len) b);
      mac = drop (header_len + key_len + nonce_len) b;
    })
    else none
