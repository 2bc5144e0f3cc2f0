-- ===== src/Base/Hex.antt =====
-- encoding/hex: lower-case digits, two to a byte.
use Prim.Native.Nat.{ℕ, ◌+◌, ◌-◌, ◌*◌, ◌/◌, ◌%◌, ◌<◌}
use mathlib.Core.Path.{◌≡◌, refl, ap, ◌≡⟨◌⟩◌, ◌∎}
use mathlib.Core.Bool.{◌&&◌}
use mathlib.Core.Option.{Option, none, some}
use mathlib.Core.List.{[], ◌∷◌}
use native.Mathlib.Omega.{arith}
use omniup_vpn.Base.Bools.{leb, ltb, if◌then◌else◌}
use omniup_vpn.Base.Keys.{Text}

abbrev pub hex_digit : ℕ → ℕ
hex_digit n = if ltb n 10 then n + b'0' else n + 87

-- hex.EncodeToString
unfoldable pub hex_encode : Text → Text
hex_encode [] = []
hex_encode (b ∷ bs) = hex_digit (b / 16) ∷ hex_digit (b % 16) ∷ hex_encode bs

abbrev pub digit_value : ℕ → Option ℕ
digit_value c =
    if leb b'0' c && leb c b'9'
    then some (c - b'0')
    else if leb b'a' c && leb c b'f'
    then some (c - 87)
    else if leb b'A' c && leb c b'F'
    then some (c - 55)
    else none

abbrev pub byte_onto : Option ℕ → Option ℕ → Option Text → Option Text
byte_onto (some h) (some l) (some bs) = some ((h * 16 + l) ∷ bs)
byte_onto _ _ _ = none

-- hex.DecodeString
unfoldable pub hex_decode : Text → Option Text
hex_decode [] = some []
hex_decode (c ∷ []) = none
hex_decode (h ∷ l ∷ cs) = byte_onto (digit_value h) (digit_value l) (hex_decode cs)

-- Each element is a byte.
abbrev pub IsBytes : Text → Type 0
IsBytes [] = Unit
IsBytes (b ∷ bs) = (b < 256) × IsBytes bs

pub digit_value-hex_digit : (n : ℕ) → n < 16 → digit_value (hex_digit n) ≡ some n
digit_value-hex_digit n h = ground arith

pub hex_decode-encode : (bs : Text) → IsBytes bs → hex_decode (hex_encode bs) ≡ some bs
unfolding hex_decode hex_encode
hex_decode-encode [] h = refl
hex_decode-encode (b ∷ bs) h =
    let high = digit_value-hex_digit (b / 16) (omega arith) in
    let low = digit_value-hex_digit (b % 16) (omega arith) in
    byte_onto (digit_value (hex_digit (b / 16))) (digit_value (hex_digit (b % 16)))
      (hex_decode (hex_encode bs))
    ≡⟨ (rw (high, low, hex_decode-encode bs h.1)) ⟩ some ((b / 16 * 16 + b % 16) ∷ bs)
    ≡⟨ ap (λ n. some (n ∷ bs)) (omega arith) ⟩ some (b ∷ bs) ∎
