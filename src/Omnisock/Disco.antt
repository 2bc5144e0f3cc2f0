-- ===== src/Omnisock/Disco.antt =====
-- internal/omnisock/disco.go: the ping and pong probes.
use omniup_vpn.Base.{ℕ, Bool, ◌&&◌, [], ◌∷◌, ◌++◌, ◌==◌, Text, text_eq, length, take, drop, get_or}

abbrev pub disco_len : ℕ
disco_len = 18

abbrev pub disco_magic : Text
disco_magic = 0xC5 ∷ b'O' ∷ b'M' ∷ b'N' ∷ b'I' ∷ []

abbrev pub disco_ping : ℕ
disco_ping = 0x01

abbrev pub disco_pong : ℕ
disco_pong = 0x02

unfoldable pub is_disco : Text → Bool
is_disco b = (length b == disco_len) && text_eq (take 5 b) disco_magic

-- A DiscoTxID is a text of 12 bytes.
unfoldable pub encode_disco : ℕ → Text → Text
encode_disco msg_type id = disco_magic ++ msg_type ∷ id

unfoldable pub decode_disco : Text → ℕ × Text
decode_disco b = (get_or b 5 0, drop 6 b)
