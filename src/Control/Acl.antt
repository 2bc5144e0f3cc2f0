-- ===== src/Control/Acl.antt =====
-- internal/control/acl.go: which machines may know one another.
pub mod Meaning
use omniup_vpn.Base.{
  ℕ, suc, Bool, true, false, ◌||◌, ◌&&◌, Option, none, some, List, [], ◌∷◌, if◌then◌else◌, Text,
  codes, text_eq,
}
use omniup_vpn.Control.State.{Device, AclRule, AclPolicy}

abbrev pub is_empty {ℓ} : {A : Type ℓ} → List A → Bool
is_empty [] = true
is_empty (x ∷ xs) = false

-- The index of the first rule with an empty side, which Validate reports; none: valid.
unfoldable pub validate_from : ℕ → List AclRule → Option ℕ
validate_from i [] = none
validate_from i (r ∷ rs) =
    let rest = validate_from (suc i) rs in if is_empty r.src || is_empty r.dst then some i else rest

unfoldable pub validate : AclPolicy → Option ℕ
unfolding validate_from
validate p = validate_from 0 p.rules

unfoldable pub match_any : List Text → Device → Bool
match_any [] d = false
match_any (e ∷ es) d =
    let rest = match_any es d in
    if text_eq e (codes "*") || text_eq e d.hostname || text_eq e d.ip then true else rest

unfoldable pub allows_rules : List AclRule → Device → Device → Bool
allows_rules [] src dst = false
allows_rules (r ∷ rs) src dst =
    let rest = allows_rules rs src dst in
    if match_any r.src src && match_any r.dst dst then true else rest

-- Allows: no policy and no rule allow all.
unfoldable pub allows : Option AclPolicy → Device → Device → Bool
allows none src dst = true
allows (some p) src dst = if is_empty p.rules then true else allows_rules p.rules src dst

unfoldable pub visible : Option AclPolicy → Device → Device → Bool
visible p a b = allows p a b || allows p b a

clone_rules : List AclRule → List AclRule
clone_rules [] = []
clone_rules (r ∷ rs) = record { src = r.src; dst = r.dst } ∷ clone_rules rs

-- clone copies the slices, so that a caller shares none with the store.
unfoldable pub clone : Option AclPolicy → Option AclPolicy
unfolding clone_rules
clone none = none
clone (some p) = some (record { rules = clone_rules p.rules })
