-- ===== src/Relay/Server/Handshake.antt =====
-- What an honest client obtains: its registration, once, and the delivery of its packets.
use omniup_vpn.Base.{
  ℕ, ◌+◌, ◌<◌, ◌≡◌, refl, ◌∙◌, inl, inr, true, Option, none, some, List, [], ◌∷◌, arith, Text,
  text_eq_iff, text_eq_refl, text_key, Option-cases, length,
}
use omniup_vpn.Base.Map.{get, put, delete, get-put, get-delete}
use omniup_vpn.Net.{AddrPort, addr_port_eq_iff, addr_port_key}
use omniup_vpn.Relay.Frames.{
  is_frame, frame_type, type_forward, type_proof, parse_keyed, ProofFrame, parse_proof, build_recv,
  build_forward, proof_frame, build_ack, build_register, build_challenge,
}
use omniup_vpn.Relay.Frames.RoundTrip.{parse_keyed_forward, parse_keyed_register, parse_proof-build}
use omniup_vpn.Relay.Proof.{Crypto, verify_proof, build_proof, verify_proof-build_proof}
use omniup_vpn.Relay.Server.{
  Client, Server, Env, fresh_at, register, answers, forget_old, enter, prove, forward, on_forward,
  handle, challenge_ttl,
}
use omniup_vpn.Relay.Server.Links.{IsLinked}

module _ (c : Crypto) (e : Env) (src : AddrPort) (s : Server) where
  handle_frame :
      (pkt : Text) (o : Option (Text × Text))
      → is_frame pkt ≡ true
      → frame_type pkt ≡ type_forward
      → parse_keyed pkt ≡ o
      → handle c e pkt src s ≡ on_forward e src s o
  unfolding handle
  handle_frame pkt o f t p = ground arith

  handle_register :
      (key : Text) → length key ≡ 32 → handle c e (build_register key) src s ≡ register e src key s
  unfolding handle
  handle_register key h = let r = parse_keyed_register key h in ground (arith, r.0, r.1, r.2)

  handle_proof :
      (client_pub nonce mac : Text)
      → length client_pub ≡ 32
      → length nonce ≡ 16
      → length mac ≡ 32
      → handle c e (proof_frame client_pub nonce mac) src s
        ≡ prove c e src (record { client_pub = client_pub; nonce = nonce; mac = mac }) s
  unfolding handle
  handle_proof client_pub nonce mac h k l =
      let r = parse_proof-build client_pub nonce mac h k l in ground (arith, r.0, r.1, r.2)

  -- A packet with a payload that is sent to the 32-byte key of a client whose registration is
  -- fresh, from the address of a sender whose registration is fresh, goes to that client's address
  -- and bears the sender's key; the relay's state stays as it is. (The addresses of the relay stand
  -- for the keys that are registered at them.)
  pub forward_delivers :
      (dst_key src_key : Text) (b : ℕ) (bs : Text) (sender dst : Client)
      → IsLinked s
      → length dst_key ≡ 32
      → get src s.by_addr ≡ some src_key
      → get src_key s.clients ≡ some sender
      → get dst_key s.clients ≡ some dst
      → fresh_at e.now sender ≡ true
      → fresh_at e.now dst ≡ true
      → handle c e (build_forward dst_key (b ∷ bs)) src s
        ≡ (s, (build_recv src_key (b ∷ bs), dst.addr) ∷ [])
  unfolding forward
  forward_delivers dst_key src_key b bs sender dst linked len known g g' fresh fresh' =
      let r = parse_keyed_forward dst_key (b ∷ bs) len in
      let (sender', gs, at) = linked.link src src_key known in
      rw (handle_frame (build_forward dst_key (b ∷ bs)) (some (dst_key, b ∷ bs)) r.0 r.1 r.2)
        (ground (arith, addr_port_eq_iff sender.addr src))

  -- Whatever a FORWARD makes the relay send is one RECV, to a client whose registration is fresh,
  -- that bears the key registered at the packet's own source address, and that registration is
  -- fresh. (The addresses of the relay stand for the keys that are registered at them.)
  pub forward_speaks_for_sender :
      (dst_key payload : Text) (out : Text × AddrPort) (more : List (Text × AddrPort))
      → IsLinked s
      → (forward e src dst_key payload s).1 ≡ out ∷ more
      → (src_key : Text) × (sender dst : Client) × (get src s.by_addr ≡ some src_key)
        × (get src_key s.clients ≡ some sender)
        × (sender.addr ≡ src)
        × (fresh_at e.now sender ≡ true)
        × (get dst_key s.clients ≡ some dst)
        × (fresh_at e.now dst ≡ true)
        × (out ≡ (build_recv src_key payload, dst.addr))
        × (more ≡ [])
  unfolding forward
  forward_speaks_for_sender dst_key [] out more linked h = absurd (ground arith)
  forward_speaks_for_sender dst_key (b ∷ bs) out more linked h =
      elim (Option-cases (get src s.by_addr)) [
        | inl n ↦ absurd (ground arith)
        | inr (src_key, known) ↦
            let (sender, g, at) = linked.link src src_key known in
            elim (Option-cases (get dst_key s.clients)) [
              | inl n ↦ absurd (ground arith)
              | inr (dst, g') ↦ (
                src_key,
                sender,
                dst,
                known,
                g,
                at,
                ground arith,
                g',
                ground arith,
                ground arith,
                ground arith,
              )
            ]
      ]

  pending-prove :
      (p : ProofFrame)
      → answers e.now p.nonce (get src s.pending) ≡ true
      → get src (prove c e src p s).0.pending ≡ none
  unfolding prove enter
  pending-prove p h = ground (arith, get-delete src src s.pending, addr_port_eq_iff src src)

  -- With no challenge waiting for its source, a PROOF is ignored.
  ignored :
      (pkt : Text)
      → get src s.pending ≡ none
      → frame_type pkt ≡ type_proof
      → handle c e pkt src s ≡ (s, [])
  unfolding handle prove
  ignored pkt none_pending ty = elim (Option-cases (parse_proof pkt)) [
    | inl n ↦ ground arith
    | inr (p, n) ↦ ground arith
  ]

-- A challenge serves once: after a PROOF that bears its nonce in time, accepted or not, every
-- PROOF from the same address, the same packet again among them, changes nothing and is answered
-- by nothing, at whatever time it comes, as long as no new challenge is sent there.
pub proof_once :
    (c : Crypto) (e later : Env) (src : AddrPort) (s : Server) (p : ProofFrame) (pkt : Text)
    → answers e.now p.nonce (get src s.pending) ≡ true
    → frame_type pkt ≡ type_proof
    → handle c later pkt src (prove c e src p s).0 ≡ ((prove c e src p s).0, [])
proof_once c e later src s p pkt h ty =
    ignored c later src (prove c e src p s).0 pkt (pending-prove c e src s p h) ty

module _ (c : Crypto) (src : AddrPort) (s : Server) (client_priv client_pub nonce : Text) where
  challenged : ℕ → Server
  challenged now = record s {
    pending = put src (record { nonce = nonce; expires = now + challenge_ttl }) s.pending;
  }

  spent : ℕ → Server
  spent now = record (challenged now) { pending = delete src (challenged now).pending }

  register_challenges :
      (first : Env)
      → length client_pub ≡ 32
      → get client_pub s.clients ≡ none
      → first.nonce ≡ some nonce
      → handle c first (build_register client_pub) src s
        ≡ (challenged first.now, (build_challenge s.self_key nonce, src) ∷ [])
  unfolding challenged register
  register_challenges first len new n =
      rw (handle_register c first src s client_pub len) (ground arith)

  prove_enters :
      (first second : Env) (mac : Text)
      → second.now < first.now + challenge_ttl
      → verify_proof c s.priv client_pub nonce mac ≡ true
      → prove c second src
          (record { client_pub = client_pub; nonce = nonce; mac = mac })
          (challenged first.now)
        ≡ (enter second.now src client_pub (spent first.now), (build_ack, src) ∷ [])
  unfolding challenged spent prove
  prove_enters first second mac soon v = ground (
    arith,
    get-put src src (record { nonce = nonce; expires = first.now + challenge_ttl }) s.pending,
    addr_port_eq_iff src src,
    text_eq_refl nonce,
  )

  entered :
      (now : ℕ) (s' : Server)
      → (get client_pub (enter now src client_pub s').clients
          ≡ some (record { addr = src; last_seen = now }))
        × (get src (enter now src client_pub s').by_addr ≡ some client_pub)
  unfolding enter
  entered now s' = (
    ground (
      arith,
      get-put client_pub client_pub (record { addr = src; last_seen = now }) s'.clients,
      text_eq_iff client_pub client_pub,
    ),
    ground (
      arith,
      get-put src src client_pub (forget_old src (get client_pub s'.clients) s'.by_addr),
      addr_port_eq_iff src src,
    ),
  )

  -- The whole handshake: a client that is not yet registered, and that holds the private key of the
  -- key that it registers, is challenged; the proof that it builds from the challenge, if it comes
  -- back from the same address before the challenge expires, is acknowledged, and from then on the
  -- key is registered at that address and the address stands for the key. (The relay announces the
  -- public key of its private key, its nonce is drawn and has 16 bytes, and X25519 lets the client
  -- build a proof.)
  pub handshake :
      (first second : Env) (frame : Text)
      → c.x25519 s.priv c.basepoint ≡ some s.self_key
      → c.x25519 client_priv c.basepoint ≡ some client_pub
      → get client_pub s.clients ≡ none
      → first.nonce ≡ some nonce
      → length nonce ≡ 16
      → build_proof c client_priv s.self_key nonce ≡ some frame
      → second.now < first.now + challenge_ttl
      → ((handle c first (build_register client_pub) src s).1
          ≡ (build_challenge s.self_key nonce, src) ∷ [])
        × (let s' = (handle c first (build_register client_pub) src s).0 in
            ((handle c second frame src s').1 ≡ (build_ack, src) ∷ [])
            × (get client_pub (handle c second frame src s').0.clients
                ≡ some (record { addr = src; last_seen = second.now }))
            × (get src (handle c second frame src s').0.by_addr ≡ some client_pub))
  handshake first second frame relay own new n len built soon =
      let len_pub = c.length-x25519 client_priv c.basepoint client_pub own in
      let (mac, is_proof, len_mac, v) =
        verify_proof-build_proof c client_priv client_pub s.priv s.self_key nonce frame own relay
          built in
      let steps =
        handle_proof c second src (challenged first.now) client_pub nonce mac len_pub len len_mac
        ∙ prove_enters first second mac soon v in
      let r = register_challenges first len_pub new n in
      rw (r, is_proof, steps)
        (
          refl,
          (
            refl,
            (entered second.now (spent first.now)).0,
            (entered second.now (spent first.now)).1,
          ),
        )
