-- ===== src/Agent/Endpoints/Candidates.antt =====
-- The candidates of a peer.
use omniup_vpn.Base.{
  is_blank, ◌≡◌, refl, false, not, ◌||◌, ◌&&◌, List, [], ◌∷◌, ◌++◌, Text, text_eq, text_eq_iff,
  arith,
}
use omniup_vpn.Control.Fleet.{mem_text}
use omniup_vpn.Control.Api.{Peer}
use omniup_vpn.Agent.Endpoints.{add_candidate, add_candidates, candidates_of}

-- No text stands twice.
abbrev pub IsDistinct : List Text → Type 0
IsDistinct [] = Unit
IsDistinct (x ∷ xs) = (mem_text x xs ≡ false) × IsDistinct xs

mem-append :
    (c x : Text) (xs : List Text) → mem_text c (xs ++ x ∷ []) ≡ (mem_text c xs || text_eq x c)
unfolding mem_text
mem-append c x [] = ground arith
mem-append c x (y ∷ ys) = ground (arith, mem-append c x ys)

append-IsDistinct :
    (x : Text) (xs : List Text) → IsDistinct xs → mem_text x xs ≡ false → IsDistinct (xs ++ x ∷ [])
unfolding mem_text
append-IsDistinct x [] d n = (refl, tt)
append-IsDistinct x (y ∷ ys) d n =
    ground (arith, append-IsDistinct x ys, mem-append y x ys, text_eq_iff x y, text_eq_iff y x)

add_candidate-IsDistinct :
    (out : List Text) (ep : Text) → IsDistinct out → IsDistinct (add_candidate out ep)
unfolding add_candidate
add_candidate-IsDistinct out ep d = ground (arith, append-IsDistinct ep out)

mem-add_candidate :
    (c : Text) (out : List Text) (ep : Text)
    → mem_text c (add_candidate out ep) ≡ (mem_text c out || (not (is_blank ep) && text_eq ep c))
unfolding add_candidate
mem-add_candidate c out ep = ground (arith, mem-append c ep out, text_eq_iff ep c)

add_candidates-IsDistinct :
    (out eps : List Text) → IsDistinct out → IsDistinct (add_candidates out eps)
unfolding add_candidates
add_candidates-IsDistinct out [] d = d
add_candidates-IsDistinct out (ep ∷ eps) d =
    add_candidates-IsDistinct (add_candidate out ep) eps (add_candidate-IsDistinct out ep d)

mem-add_candidates :
    (c : Text) (out eps : List Text)
    → is_blank c ≡ false
    → mem_text c (add_candidates out eps) ≡ (mem_text c out || mem_text c eps)
unfolding add_candidates mem_text
mem-add_candidates c out [] n = ground arith
mem-add_candidates c out (ep ∷ eps) n = ground (
  arith,
  mem-add_candidates c (add_candidate out ep) eps n,
  mem-add_candidate c out ep,
  text_eq_iff ep c,
)

-- The candidates of a peer are the endpoints that it reports and the one that the server observed,
-- those that are not blank, each once.
pub candidates_of_lem :
    (p : Peer) (c : Text)
    → is_blank c ≡ false
    → (mem_text c (candidates_of p) ≡ (mem_text c p.endpoints || text_eq p.endpoint c))
      × IsDistinct (candidates_of p)
unfolding candidates_of mem_text
candidates_of_lem p c n = (
  ground (
    arith,
    mem-add_candidate c (add_candidates [] p.endpoints) p.endpoint,
    mem-add_candidates c [] p.endpoints n,
    text_eq_iff p.endpoint c,
  ),
  add_candidate-IsDistinct (add_candidates [] p.endpoints) p.endpoint
      (add_candidates-IsDistinct [] p.endpoints tt),
)
