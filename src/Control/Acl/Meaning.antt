-- ===== src/Control/Acl/Meaning.antt =====
-- What a policy means, told without its loops.

use omniup_vpn.Base.{
  ◌≡◌, ◌↔◌, ◌⊎◌, inl, inr, refl, true, Option, none, some, List, [], ◌∷◌, arith, Text, codes,
  text_eq_iff, Bool-cases,
}
use omniup_vpn.Control.State.{Device, AclRule, AclPolicy}
use omniup_vpn.Control.Acl.{match_any, allows_rules, allows, visible, clone_rules, clone}

-- An entry names a machine: "*", its name or its address.
abbrev pub Names : Text → Device → Type 0
Names e d = (e ≡ codes "*") ⊎ (e ≡ d.hostname) ⊎ (e ≡ d.ip)

abbrev pub AnyNames : List Text → Device → Type 0
AnyNames [] d = ⊥
AnyNames (e ∷ es) d = Names e d ⊎ AnyNames es d

-- Some rule has the source among its sources and the destination among its destinations.
abbrev pub AnyRule : List AclRule → Device → Device → Type 0
AnyRule [] a b = ⊥
AnyRule (r ∷ rs) a b = (AnyNames r.src a × AnyNames r.dst b) ⊎ AnyRule rs a b

match_any_iff : (es : List Text) (d : Device) → (match_any es d ≡ true) ↔ AnyNames es d
unfolding match_any
match_any_iff [] d = (λ h. ground arith, λ h. elim h [ ])
match_any_iff (e ∷ es) d =
    let ih = match_any_iff es d in
    (
      λ h.
          ground
            (arith, ih, text_eq_iff e (codes "*"), text_eq_iff e d.hostname, text_eq_iff e d.ip),
      λ h.
          ground
            (arith, ih, text_eq_iff e (codes "*"), text_eq_iff e d.hostname, text_eq_iff e d.ip),
    )

allows_rules_iff :
    (rs : List AclRule) (a b : Device) → (allows_rules rs a b ≡ true) ↔ AnyRule rs a b
unfolding allows_rules
allows_rules_iff [] a b = (λ h. ground arith, λ h. elim h [ ])
allows_rules_iff (r ∷ rs) a b =
    let ih = allows_rules_iff rs a b in
    let s = match_any_iff r.src a in
    let d = match_any_iff r.dst b in (λ h. ground (arith, ih, s, d), λ h. ground (arith, ih, s, d))

-- Traffic is allowed exactly when the policy has no rule or one of its rules names both machines.
pub allows_iff :
    (p : AclPolicy) (a b : Device)
    → (allows (some p) a b ≡ true) ↔ ((p.rules ≡ []) ⊎ AnyRule p.rules a b)
unfolding allows
allows_iff p a b = go p.rules (allows_rules_iff p.rules a b)
  where
    go :
        (rs : List AclRule)
        → ((allows_rules rs a b ≡ true) ↔ AnyRule rs a b)
        → (allows (some (record { rules = rs })) a b ≡ true) ↔ ((rs ≡ []) ⊎ AnyRule rs a b)
    go [] ih = (λ h. inl refl, λ h. refl)
    go (r ∷ rs) ih = (λ h. inr (ih.0 h), λ h. ground (arith, ih))

-- The policy in force lets the source reach the destination: there is none, it has no rule, or one of
-- its rules names the two.
abbrev pub Reaches : Option AclPolicy → Device → Device → Type 0
Reaches none a b = Unit
Reaches (some p) a b = (p.rules ≡ []) ⊎ AnyRule p.rules a b

-- One of the two may reach the other.
abbrev pub Meets : Option AclPolicy → Device → Device → Type 0
Meets p a b = Reaches p a b ⊎ Reaches p b a

allows-Reaches : (p : Option AclPolicy) (a b : Device) → (allows p a b ≡ true) ↔ Reaches p a b
unfolding allows
allows-Reaches none a b = (λ h. tt, λ h. refl)
allows-Reaches (some p) a b = allows_iff p a b

pub visible-Meets : (p : Option AclPolicy) (a b : Device) → (visible p a b ≡ true) ↔ Meets p a b
unfolding visible
visible-Meets p a b =
    let there = allows-Reaches p a b in
    let back = allows-Reaches p b a in
    (
      λ h. elim (Bool-cases (allows p a b)) [
        | inl q ↦ inl (there.0 q)
        | inr q ↦ inr (back.0 (rw q at h))
      ],
      λ h. elim h [
        | inl r ↦ let q = there.1 r in ground arith
        | inr r ↦ let q = back.1 r in ground arith
      ],
    )

-- Two machines see one another or neither sees the other.
pub visible_symm : (p : Option AclPolicy) (a b : Device) → visible p a b ≡ visible p b a
unfolding visible
visible_symm p a b = ground arith

clone_rules_self : (rs : List AclRule) → clone_rules rs ≡ rs
unfolding clone_rules
clone_rules_self [] = refl
clone_rules_self (r ∷ rs) = ground (arith, clone_rules_self rs)

pub clone_self : (p : Option AclPolicy) → clone p ≡ p
unfolding clone
clone_self none = refl
clone_self (some p) = ground (arith, clone_rules_self p.rules)
