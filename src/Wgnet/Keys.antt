-- ===== src/Wgnet/Keys.antt =====
-- golang.zx2c4.com/wireguard/wgctrl/wgtypes: the text form of keys, which is base64 of 32 bytes; and
-- hexKey and base64Key of internal/wgnet/wgnet.go.
use omniup_vpn.Base.{
  is_blank, false, ◌≡◌, Option, none, some, [], ◌==◌, if◌then◌else◌, Text, length, arith,
}
use omniup_vpn.Base.Hex.{hex_encode, hex_decode, IsBytes, hex_decode-encode}

pub record WgKeys : Type 0 where
  pub parse_key : Text → Option Text
  pub key_string : Text → Text
  -- 32 bytes have 44 characters
  pub key_string_nonblank : (k : Text) → length k ≡ 32 → is_blank (key_string k) ≡ false
  pub length-parse_key : (s k : Text) → parse_key s ≡ some k → length k ≡ 32
  pub parse_key-string : (k : Text) → length k ≡ 32 → IsBytes k → parse_key (key_string k) ≡ some k

abbrev pub hex_key : Text → Text
hex_key k = hex_encode k

module _ (w : WgKeys) where
  abbrev pub key_of : Option Text → Text
  key_of none = []
  key_of (some raw) = if length raw == 32 then w.key_string raw else []

  -- base64Key; the engine's texts have no blanks around a key, which TrimSpace would take away.
  unfoldable pub base64_key : Text → Text
  base64_key s = key_of (hex_decode s)

  -- The base64 form of a key is found again from the hexadecimal form that the engine is given.
  pub base64_key-hex_key :
      (k : Text) → length k ≡ 32 → IsBytes k → base64_key (hex_key k) ≡ w.key_string k
  unfolding base64_key
  base64_key-hex_key k len bytes = rw (hex_decode-encode k bytes) (ground arith)
