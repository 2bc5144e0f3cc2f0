-- ===== src/Wgnet/Device/Peers.antt =====
-- The peers that the agent takes for known after SyncPeers.
use omniup_vpn.Base.{
  ◌≡◌, refl, Bool, true, false, ◌⊎◌, ◌↔◌, inl, inr, some, List, [], ◌∷◌, Text, text_eq, text_eq_iff,
  arith, Bool-cases, is_blank, Option-cases,
}
use omniup_vpn.Control.Fleet.{mem_text}
use omniup_vpn.Control.Api.{Peer}
use omniup_vpn.Wgnet.Keys.{WgKeys}
use omniup_vpn.Wgnet.Device.{parsed_peer, seen_keys, sync_text, sync_peers}
use omniup_vpn.Wgnet.Device.Routes.{mem-cons}

module _ (w : WgKeys) (is_ip : Text → Bool) where
  -- Some peer of the list has the key `k`, and parses.
  abbrev pub AnyValid : Text → List Peer → Type 0
  AnyValid k [] = ⊥
  AnyValid k (p ∷ ps) =
      ((p.public_key ≡ k) × (key : Text) × (parsed_peer w is_ip p ≡ some key)) ⊎ AnyValid k ps

  mem-seen_keys :
      (k : Text) (ps : List Peer) → (mem_text k (seen_keys w is_ip ps) ≡ true) ↔ AnyValid k ps
  unfolding seen_keys
  mem-seen_keys k [] = unfold mem_text in (λ h. ground arith, λ h. elim h [ ])
  mem-seen_keys k (p ∷ ps) =
      let ih = mem-seen_keys k ps in
      elim (Option-cases (parsed_peer w is_ip p)) [
        | inl q ↦ rw q (λ h. inr (ih.0 h), λ h. elim h [ inl v ↦ cc | inr v ↦ ih.1 v ])
        | inr (key, q) ↦
            let head = mem-cons k p.public_key (seen_keys w is_ip ps) in
            rw q (
              λ h. elim (Bool-cases (text_eq p.public_key k)) [
                | inl same ↦ inl ((text_eq_iff p.public_key k).0 same, key, refl)
                | inr other ↦ inr (ih.0 (ground (arith, head)))
              ],
              λ h. elim h [
                | inl v ↦ ground (arith, head, text_eq_iff p.public_key k)
                | inr v ↦ ground (arith, head, ih.1 v)
              ],
            )
      ]

  -- After a synchronisation that writes something the engine takes, the agent knows exactly the
  -- peers of the map whose key and address parse; where the engine refuses, it knows those that it
  -- knew before, and tries the same again.
  pub sync_peers_lem :
      (is_cidr : Text → Bool) (initial_endpoint : Peer → Text) (ipc_set : Text → Bool)
      (ps : List Peer) (known : List Text) (k : Text)
      → is_blank (sync_text w is_ip is_cidr initial_endpoint ps known) ≡ false
      → ((ipc_set (sync_text w is_ip is_cidr initial_endpoint ps known) ≡ true)
          × ((sync_peers w is_ip is_cidr initial_endpoint ipc_set ps known).0 ≡ true)
          × ((mem_text k (sync_peers w is_ip is_cidr initial_endpoint ipc_set ps known).1 ≡ true)
              ↔ AnyValid k ps))
        ⊎ ((ipc_set (sync_text w is_ip is_cidr initial_endpoint ps known) ≡ false)
            × (sync_peers w is_ip is_cidr initial_endpoint ipc_set ps known ≡ (false, known)))
  unfolding sync_peers
  sync_peers_lem is_cidr initial_endpoint ipc_set ps known k text =
      elim (Bool-cases (ipc_set (sync_text w is_ip is_cidr initial_endpoint ps known))) [
        | inl q ↦ inl (q, rw (text, q) refl, rw (text, q) (mem-seen_keys k ps))
        | inr q ↦ inr (q, rw (text, q) refl)
      ]
