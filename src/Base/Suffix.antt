-- ===== src/Base/Suffix.antt =====
-- What strings.HasSuffix tells.
use Prim.Native.Nat.{ℕ, zero, suc, ◌+◌, ◌-◌}
use mathlib.Core.Path.{◌≡◌, refl, sym, ap, ◌∙◌}
use mathlib.Core.Logic.{◌↔◌}
use mathlib.Core.Bool.{true}
use mathlib.Core.List.{List, [], ◌∷◌, ◌++◌}
use native.Mathlib.Omega.{arith}
use omniup_vpn.Base.Lists.{length, take, drop, length-append, drop-append_exact}
use omniup_vpn.Base.Keys.{Text, text_eq_iff}
use omniup_vpn.Base.Strings.{has_suffix}

take-drop {ℓ} : {A : Type ℓ} → (n : ℕ) (xs : List A) → take n xs ++ drop n xs ≡ xs
take-drop zero xs = refl
take-drop (suc n) [] = refl
take-drop (suc n) (x ∷ xs) = ap (◌∷◌ x) (take-drop n xs)

-- A text has a suffix exactly when it is some text followed by it.
pub has_suffix_iff :
    (s suffix : Text) → (has_suffix s suffix ≡ true) ↔ ((x : Text) × (s ≡ x ++ suffix))
has_suffix_iff s suffix = (
  λ h.
      let n = length s - length suffix in
      let tail : drop n s ≡ suffix = ground (arith, text_eq_iff (drop n s) suffix) in
      (take n s, sym (take-drop n s) ∙ ap (λ t. take n s ++ t) tail),
  λ (x, e).
      let n = length s - length suffix in
      let long : length s ≡ length x + length suffix = rw e (length-append x suffix) in
      let tail : drop n s ≡ suffix =
        ap (drop n) e ∙ drop-append_exact n x suffix (omega (arith, long)) in
      ground (arith, long, text_eq_iff (drop n s) suffix),
)
