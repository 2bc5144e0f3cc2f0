-- ===== src/Wgnet/Demo.antt =====
-- A text form of keys for the tests.
use omniup_vpn.Base.{
  is_blank, refl, false, [], ◌∷◌, ◌≡◌, ◌==◌, Option, none, some, Text, length, arith, if◌then◌else◌,
}
use omniup_vpn.Base.Hex.{IsBytes}
use omniup_vpn.Wgnet.Keys.{WgKeys}

-- Keys whose text is the key itself.
abbrev pub parse : Text → Option Text
parse s = if length s == 32 then some s else none

pub length-parse : (s k : Text) → parse s ≡ some k → length k ≡ 32
length-parse s k h = ground arith

pub parse_own : (k : Text) → length k ≡ 32 → IsBytes k → parse k ≡ some k
parse_own k h b = ground arith

pub text_nonblank : (k : Text) → length k ≡ 32 → is_blank k ≡ false
text_nonblank [] h = absurd (ground arith)
text_nonblank (b ∷ bs) h = refl

abbrev pub keys : WgKeys
keys = record {
  parse_key = parse;
  key_string = λ k. k;
  length-parse_key = length-parse;
  parse_key-string = parse_own;
  key_string_nonblank = text_nonblank;
}
