-- ===== src/Control/Admin/Known.antt =====
-- What a machine learns of another by the map of a poll, and what that is worth at enrolment.
use omniup_vpn.Base.{
  ℕ, ◌≡◌, ◌⊎◌, refl, ap, inl, inr, Bool, true, false, Option, some, List, [], ◌∷◌, Text, text_key,
  text_eq, is_blank, Bool-cases,
}
use omniup_vpn.Base.Map.{get, All, Unique}
use omniup_vpn.NetText.{NetText}
use omniup_vpn.Control.State.{Device, Store, Env, AclPolicy}
use omniup_vpn.Control.Acl.{visible}
use omniup_vpn.Control.Acl.Meaning.{clone_self}
use omniup_vpn.Control.Fleet.{sorted_by_ip, devices}
use omniup_vpn.Control.Devices.Retry.{known_again}
use omniup_vpn.Control.Api.{Peer, reply, peer_view, peers_of, net_map}
use omniup_vpn.Control.Api.Poll.{AnyDevice, AnyEntry, sorted-any, entry_of}
use omniup_vpn.Control.Admin.{handle_register}

-- The list holds the peer.
abbrev pub AnyPeer : Peer → List Peer → Type 0
AnyPeer p [] = ⊥
AnyPeer p (x ∷ xs) = (x ≡ p) ⊎ AnyPeer p xs

abbrev pub IsShown : ℕ → Peer → Device → Type 0
IsShown now p d = peer_view now d ≡ p

AnyPeer-peers_of :
    (acl : Option AclPolicy) (now : ℕ) (self : Device) (p : Peer) (ds : List Device)
    → AnyPeer p (peers_of acl now self ds)
    → AnyDevice (IsShown now p) ds
unfolding peers_of
AnyPeer-peers_of acl now self p [] h = elim h [ ]
AnyPeer-peers_of acl now self p (d ∷ ds) h =
    elim (Bool-cases (text_eq d.public_key self.public_key)) [
      | inl q ↦ inr (AnyPeer-peers_of acl now self p ds (rw q at h))
      | inr q ↦ elim (Bool-cases (visible acl self d)) [
        | inr hidden ↦ inr (AnyPeer-peers_of acl now self p ds (rw (q, hidden) at h))
        | inl seen ↦
            let shown : AnyPeer p (peer_view now d ∷ peers_of acl now self ds) =
              rw (q, seen) at h in
            elim shown [ inl e ↦ inl e | inr rest ↦ inr (AnyPeer-peers_of acl now self p ds rest) ]
      ]
    ]

-- Every machine can take the token of each of its peers: when the store is keyed by public key and no
-- key stands twice, a registration request with the public key and the name that the map of a poll
-- shows for a peer, and with any enrolment key at all, is answered with the identifier, the token and
-- the address of that peer, and leaves the store as it is. (The peer's key parses, and it has a
-- name.)
pub peers_disclose :
    (t : NetText) (is_key : Text → Bool) (e : Env) (now : ℕ) (token auth : Text) (self : Device)
    (st : Store) (p : Peer)
    → All (λ k d. d.public_key ≡ k) st.s.devices
    → Unique st.s.devices
    → AnyPeer p (net_map now token self st).peers
    → is_key p.public_key ≡ true
    → is_blank p.hostname ≡ false
    → (d : Device) × (get p.public_key st.s.devices ≡ some d)
      × (handle_register t is_key e
            (some (record { auth_key = auth; hostname = p.hostname; public_key = p.public_key }))
            st
          ≡ (
            reply
                (record { device_id = d.id; device_token = d.token; ip = d.ip; cidr = st.s.cidr }),
            st,
          ))
unfolding net_map devices handle_register peer_view
peers_disclose t is_key e now token auth self st p keyed unique shown valid named =
    let entry : AnyEntry (IsShown now p) st.s.devices =
      (sorted-any (IsShown now p) st.s.devices).0 (
        AnyPeer-peers_of st.s.acl now self p (sorted_by_ip st.s.devices)
          (rw clone_self at shown)) in
    let (d, g, view) =
      entry_of (IsShown now p) p.public_key st.s.devices keyed unique
        (λ d v. ap (λ (x : Peer). x.public_key) v) entry in
    let known =
      known_again t e auth p.hostname p.public_key st d g (ap (λ (x : Peer). x.hostname) view) in
    (d, g, rw (valid, named, known) refl)
