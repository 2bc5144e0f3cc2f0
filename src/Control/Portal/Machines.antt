-- ===== src/Control/Portal/Machines.antt =====
-- The machines that a user of the portal sees.
use omniup_vpn.Base.{ℕ, ◌≡◌, ◌↔◌, true, List, [], ◌∷◌, Text, arith, text_eq_iff}
use omniup_vpn.Control.State.{Device, User, Store}
use omniup_vpn.Control.Fleet.{devices, sorted_by_ip}
use omniup_vpn.Control.Api.{peer_view}
use omniup_vpn.Control.Api.Poll.{has_peer, AnyDevice, AnyEntry, sorted-any}
use omniup_vpn.Control.Portal.{owned_by, handle_user_me}

-- The machine has the key `k` and the owner.
abbrev pub IsOwn : Text → Text → Device → Type 0
IsOwn email k d = (d.public_key ≡ k) × (d.owner ≡ email)

has_peer-owned_by :
    (now : ℕ) (email k : Text) (ds : List Device)
    → (has_peer k (owned_by now email ds) ≡ true) ↔ AnyDevice (IsOwn email k) ds
unfolding has_peer owned_by peer_view
has_peer-owned_by now email k [] = (λ h. ground arith, λ h. elim h [ ])
has_peer-owned_by now email k (d ∷ ds) =
    let ih = has_peer-owned_by now email k ds in
    let own = text_eq_iff d.owner email in
    let asked = text_eq_iff d.public_key k in
    (λ h. ground (arith, ih, own, asked), λ h. ground (arith, ih, own, asked))

-- The profile of a user lists a machine's key exactly when some machine of the store has that key
-- and belongs to the user's address.
pub handle_user_me_lem :
    (now : ℕ) (x : User) (st : Store) (k : Text)
    → (has_peer k (handle_user_me now x st).machines ≡ true)
      ↔ AnyEntry (IsOwn x.email k) st.s.devices
unfolding handle_user_me devices
handle_user_me_lem now x st k =
    let sorted = sorted-any (IsOwn x.email k) st.s.devices in
    let listed = has_peer-owned_by now x.email k (sorted_by_ip st.s.devices) in
    (λ h. sorted.0 (listed.0 h), λ h. listed.1 (sorted.1 h))
