-- ===== src/Base/Bytes.antt =====
-- Big-endian numbers of encoding/binary, and the exclusive or of byte slices.
use Prim.Native.Nat.{bit_xor}
use native.Mathlib.Nat.{pow-suc}
use omniup_vpn.Base.Lists.{length, length-append}
use omniup_vpn.Base.Keys.{Text}
use omniup_vpn.Base.Bits.{bit_xor_cancel}
use Prim.Native.Nat.{ℕ, zero, suc, ◌+◌, ◌*◌, ◌/◌, ◌%◌, ◌^◌, ◌<◌}
use mathlib.Core.Path.{◌≡◌, refl, ap₂}
use mathlib.Core.List.{[], ◌∷◌, ◌++◌}
use native.Mathlib.Omega.{arith}

-- The number that a slice holds.
unfoldable pub from_be : ℕ → Text → ℕ
from_be acc [] = acc
from_be acc (b ∷ bs) = from_be (acc * 256 + b) bs

-- The k bytes of a number.
unfoldable pub be_bytes : ℕ → ℕ → Text
be_bytes zero n = []
be_bytes (suc k) n = be_bytes k (n / 256) ++ (n % 256) ∷ []

-- `xs[i] ^ key[i]` for every index of `xs`, where the key is long enough.
unfoldable pub xor_bytes : Text → Text → Text
xor_bytes [] ks = []
xor_bytes (x ∷ xs) [] = x ∷ xs
xor_bytes (x ∷ xs) (k ∷ ks) = bit_xor x k ∷ xor_bytes xs ks

pub xor_bytes_cancel : (xs ks : Text) → xor_bytes (xor_bytes xs ks) ks ≡ xs
unfolding xor_bytes
xor_bytes_cancel [] ks = refl
xor_bytes_cancel (x ∷ xs) [] = refl
xor_bytes_cancel (x ∷ xs) (k ∷ ks) = ap₂ ◌∷◌ (bit_xor_cancel x k) (xor_bytes_cancel xs ks)

pub length-xor_bytes : (xs ks : Text) → length (xor_bytes xs ks) ≡ length xs
unfolding xor_bytes
length-xor_bytes [] ks = refl
length-xor_bytes (x ∷ xs) [] = refl
length-xor_bytes (x ∷ xs) (k ∷ ks) = omega (arith, length-xor_bytes xs ks)

pub length-be_bytes : (k n : ℕ) → length (be_bytes k n) ≡ k
unfolding be_bytes
length-be_bytes zero n = refl
length-be_bytes (suc k) n =
    omega
      (arith, length-append (be_bytes k (n / 256)) ((n % 256) ∷ []), length-be_bytes k (n / 256))

from_be-append :
    (acc : ℕ) (xs : Text) (b : ℕ) → from_be acc (xs ++ b ∷ []) ≡ from_be acc xs * 256 + b
unfolding from_be
from_be-append acc [] b = refl
from_be-append acc (x ∷ xs) b = from_be-append (acc * 256 + x) xs b

pub from_be-be_bytes : (k n : ℕ) → n < 256 ^ k → from_be 0 (be_bytes k n) ≡ n
unfolding be_bytes
from_be-be_bytes zero n h = unfold from_be in omega arith
from_be-be_bytes (suc k) n h = omega (
  arith,
  from_be-append 0 (be_bytes k (n / 256)) (n % 256),
  from_be-be_bytes k (n / 256) (omega (arith, pow-suc 256 k)),
)
