-- ===== src/Control/Admin/Policy.antt =====
-- What the administrator's answers are good for.
use omniup_vpn.Base.{
  ℕ, suc, ◌≡◌, ◌≢◌, ◌↔◌, ◌⊎◌, inl, inr, refl, true, none, some, List, [], ◌∷◌, arith, Text,
  Bool-cases, Option-cases,
}
use omniup_vpn.Control.State.{AclRule, AclPolicy, Store, Env, persist, save}
use omniup_vpn.Control.Acl.{clone, is_empty, validate, validate_from}
use omniup_vpn.Control.Acl.Meaning.{clone_self}
use omniup_vpn.Control.Api.{reply, failure}
use omniup_vpn.Control.Admin.{acl_of, set_acl, handle_set_acl, handle_get_acl}

-- Every rule has a source and a destination.
abbrev pub AllComplete : List AclRule → Type 0
AllComplete [] = Unit
AllComplete (r ∷ rs) = ((r.src ≢ []) × (r.dst ≢ [])) × AllComplete rs

-- Some rule has no sources or no destinations.
abbrev pub AnyIncomplete : List AclRule → Type 0
AnyIncomplete [] = ⊥
AnyIncomplete (r ∷ rs) = ((r.src ≡ []) ⊎ (r.dst ≡ [])) ⊎ AnyIncomplete rs

is_empty_iff : (xs : List Text) → (is_empty xs ≡ true) ↔ (xs ≡ [])
is_empty_iff [] = (λ h. refl, λ h. refl)
is_empty_iff (x ∷ xs) = (λ h. absurd (ground arith), λ h. absurd (ground arith))

validate_from-AllComplete : (i : ℕ) (rs : List AclRule) → validate_from i rs ≡ none → AllComplete rs
unfolding validate_from
validate_from-AllComplete i [] h = tt
validate_from-AllComplete i (r ∷ rs) h =
    let s = is_empty_iff r.src in
    let d = is_empty_iff r.dst in
    (
      ((λ e. let q = s.1 e in ground arith), (λ e. let q = d.1 e in ground arith)),
      validate_from-AllComplete (suc i) rs (ground arith),
    )

validate_from-AnyIncomplete :
    (i n : ℕ) (rs : List AclRule) → validate_from i rs ≡ some n → AnyIncomplete rs
unfolding validate_from
validate_from-AnyIncomplete i n [] h = absurd (ground arith)
validate_from-AnyIncomplete i n (r ∷ rs) h = elim (Bool-cases (is_empty r.src)) [
  | inl s ↦ inl (inl ((is_empty_iff r.src).0 s))
  | inr s ↦ elim (Bool-cases (is_empty r.dst)) [
    | inl d ↦ inl (inr ((is_empty_iff r.dst).0 d))
    | inr d ↦ inr (validate_from-AnyIncomplete (suc i) n rs (ground arith))
  ]
]

set_complete :
    (e : Env) (p : AclPolicy) (st : Store)
    → validate p ≡ none
    → (((handle_set_acl e (some p) st).0 ≡ reply p)
        × (handle_get_acl (handle_set_acl e (some p) st).1 ≡ p)
        × ((handle_set_acl e (some p) st).1.disk.file ≡ some (handle_set_acl e (some p) st).1.s))
      ⊎ (((handle_set_acl e (some p) st).0 ≡ failure 500)
          × (handle_get_acl (handle_set_acl e (some p) st).1 ≡ p)
          × ((handle_set_acl e (some p) st).1.disk.file ≡ st.disk.file))
unfolding handle_set_acl handle_get_acl set_acl acl_of persist save
set_complete e p st q = rw q (ground (arith, clone_self (some p), clone_self (clone (some p))))

-- A policy that the administrator sets is answered back, in force and on the disk; or it is in
-- force although its save has failed and the answer is an error; or it has a rule without sources
-- or destinations, and is refused with no change. In the first two cases every rule has both.
pub handle_set_acl_lem :
    (e : Env) (p : AclPolicy) (st : Store)
    → ((validate p ≡ none)
        × AllComplete p.rules
        × ((handle_set_acl e (some p) st).0 ≡ reply p)
        × (handle_get_acl (handle_set_acl e (some p) st).1 ≡ p)
        × ((handle_set_acl e (some p) st).1.disk.file ≡ some (handle_set_acl e (some p) st).1.s))
      ⊎ ((validate p ≡ none)
          × AllComplete p.rules
          × ((handle_set_acl e (some p) st).0 ≡ failure 500)
          × (handle_get_acl (handle_set_acl e (some p) st).1 ≡ p)
          × ((handle_set_acl e (some p) st).1.disk.file ≡ st.disk.file))
      ⊎ ((n : ℕ) × (validate p ≡ some n)
          × AnyIncomplete p.rules
          × (handle_set_acl e (some p) st ≡ (failure 400, st)))
unfolding handle_set_acl handle_get_acl set_acl acl_of persist save
handle_set_acl_lem e p st = elim (Option-cases (validate p)) [
  | inl q ↦
      let complete : AllComplete p.rules =
        validate_from-AllComplete 0 p.rules (unfold validate in q) in
      elim (set_complete e p st q) [
        | inl (r, g, d) ↦ inl (q, complete, r, g, d)
        | inr (r, g, d) ↦ inr (inl (q, complete, r, g, d))
      ]
  | inr (n, q) ↦
      inr (inr (n, q, validate_from-AnyIncomplete 0 n p.rules (unfold validate in q), rw q refl))
]
