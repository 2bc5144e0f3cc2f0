-- ===== src/Dnssrv/Labels.antt =====
-- What sanitizeLabel makes of any name.
use omniup_vpn.Base.{
  ℕ, ◌≡◌, ◌≤◌, refl, ◌⊎◌, inr, ==_iff, true, [], ◌∷◌, arith, Text, length, take, length-take, zero,
  suc,
}
use omniup_vpn.Base.Strings.{trim, trim_left, trim_right}
use omniup_vpn.Unicode.{Unicode}
use omniup_vpn.Dnssrv.{is_label_byte, label_onto, label_bytes, sanitize_label}

-- A lower case letter of ASCII, a decimal digit or the hyphen, by their codes.
abbrev pub IsLabelByte : ℕ → Type 0
IsLabelByte c = ((97 ≤ c) × (c ≤ 122)) ⊎ ((48 ≤ c) × (c ≤ 57)) ⊎ (c ≡ 45)

-- Lower case letters, digits and hyphens only.
abbrev pub AllLabel : Text → Type 0
AllLabel [] = Unit
AllLabel (c ∷ cs) = IsLabelByte c × AllLabel cs

hyphen-IsLabelByte : IsLabelByte b'-'
hyphen-IsLabelByte = inr (inr refl)

is_label_byte-IsLabelByte : (c : ℕ) → is_label_byte c ≡ true → IsLabelByte c
unfolding is_label_byte
is_label_byte-IsLabelByte c h = ground (arith, ==_iff c 45)

label_onto-AllLabel : (c : ℕ) (cs : Text) → AllLabel cs → AllLabel (label_onto c cs)
label_onto-AllLabel c cs h = ground (arith, hyphen-IsLabelByte, is_label_byte-IsLabelByte c)

label_bytes-AllLabel : (s : Text) → AllLabel (label_bytes s)
unfolding label_bytes
label_bytes-AllLabel [] = tt
label_bytes-AllLabel (c ∷ cs) = label_onto-AllLabel c (label_bytes cs) (label_bytes-AllLabel cs)

trim_left-AllLabel : (x : ℕ) (s : Text) → AllLabel s → AllLabel (trim_left x s)
unfolding trim_left
trim_left-AllLabel x [] h = tt
trim_left-AllLabel x (c ∷ cs) h = ground (arith, trim_left-AllLabel x cs)

trim_right-AllLabel : (x : ℕ) (s : Text) → AllLabel s → AllLabel (trim_right x s)
unfolding trim_right
trim_right-AllLabel x [] h = tt
trim_right-AllLabel x (c ∷ cs) h = ground (arith, trim_right-AllLabel x cs)

take-AllLabel : (n : ℕ) (s : Text) → AllLabel s → AllLabel (take n s)
take-AllLabel zero s h = tt
take-AllLabel (suc n) [] h = tt
take-AllLabel (suc n) (c ∷ cs) h = (h.0, take-AllLabel n cs h.1)

-- Whatever a machine is called, its label has at most 63 bytes, each of them a lower case letter, a
-- digit or a hyphen.
pub sanitize_label-AllLabel :
    (u : Unicode) (hostname : Text)
    → (length (sanitize_label u hostname) ≤ 63) × AllLabel (sanitize_label u hostname)
unfolding sanitize_label
sanitize_label-AllLabel u hostname =
    let letters = label_bytes (u.to_lower hostname) in
    (
      omega (arith, length-take 63 (trim b'-' letters)),
      take-AllLabel 63 (trim b'-' letters) (
          trim_right-AllLabel b'-' (trim_left b'-' letters)
            (trim_left-AllLabel b'-' letters (label_bytes-AllLabel (u.to_lower hostname)))),
    )
