-- ===== src/Control/Fleet/Routes.antt =====
-- Which routes reach the peers.
use omniup_vpn.Base.{◌≡◌, inl, inr, refl, ◌&&◌, List, [], ◌∷◌, arith, Text, text_eq_iff, Bool-cases}
use omniup_vpn.Control.State.{Device}
use omniup_vpn.Control.Fleet.{mem_text, approved_of, active_routes}

-- A list is left after dropping elements of another, in order.
pub data IsSublist : List Text → List Text → Type 0 where
  done : IsSublist [] []
  keep : {xs ys : List Text} (x : Text) → IsSublist xs ys → IsSublist (x ∷ xs) (x ∷ ys)
  skip : {xs ys : List Text} (y : Text) → IsSublist xs ys → IsSublist xs (y ∷ ys)

mem-approved_of :
    (r : Text) (approved routes : List Text)
    → mem_text r (approved_of approved routes) ≡ (mem_text r routes && mem_text r approved)
unfolding mem_text approved_of
mem-approved_of r approved [] = refl
mem-approved_of r approved (x ∷ xs) = ground (arith, text_eq_iff x r, mem-approved_of r approved xs)

approved_of-IsSublist :
    (approved routes : List Text) → IsSublist (approved_of approved routes) routes
unfolding approved_of
approved_of-IsSublist approved [] = done
approved_of-IsSublist approved (x ∷ xs) = elim (Bool-cases (mem_text x approved)) [
  | inl q ↦ rw q (keep x (approved_of-IsSublist approved xs))
  | inr q ↦ rw q (skip x (approved_of-IsSublist approved xs))
]

-- The routes that the peers are given are those that are both advertised and approved, in the
-- order in which the machine advertises them.
pub active_routes_lem :
    (d : Device) (r : Text)
    → (mem_text r (active_routes d)
        ≡ (mem_text r d.advertised_routes && mem_text r d.approved_routes))
      × IsSublist (active_routes d) d.advertised_routes
unfolding active_routes
active_routes_lem d r = (
  mem-approved_of r d.approved_routes d.advertised_routes,
  approved_of-IsSublist d.approved_routes d.advertised_routes,
)
