-- ===== src/Relay/Server/Authentic.antt =====
-- Who can be registered, and for whom the relay speaks.
use omniup_vpn.Base.{
  ℕ, ◌<◌, ◌≡◌, refl, ◌⊎◌, inl, inr, true, Option, none, some, [], ◌∷◌, arith, Text, text_eq,
  text_eq_iff, text_key, Bool-cases, Option-cases, ◌==◌,
}
use omniup_vpn.Base.Map.{get, get-put}
use omniup_vpn.Net.{AddrPort, addr_port_eq_iff, addr_port_key}
use omniup_vpn.Relay.Frames.{
  is_frame, frame_type, type_register, type_forward, type_proof, parse_keyed, ProofFrame,
  parse_proof,
}
use omniup_vpn.Relay.Proof.{Crypto, verify_proof, proof_mac, verify_proof_iff}
use omniup_vpn.Relay.Server.{
  Client, PendingChallenge, Server, Env, is_refresh, register, answers, enter, prove, forward,
  on_register, on_forward, on_proof, handle,
}

-- The packet proves that its source holds the private key of `key`, in answer to the challenge
-- that waits for this source.
pub record Proves (c : Crypto) (e : Env) (pkt : Text) (s : Server) (key : Text) (src : AddrPort)
    : Type 0 where
  pub frame : ProofFrame
  pub parsed : parse_proof pkt ≡ some frame
  pub claims : frame.client_pub ≡ key
  pub waiting : PendingChallenge
  pub waits : get src s.pending ≡ some waiting
  pub same_nonce : waiting.nonce ≡ frame.nonce
  pub in_time : e.now < waiting.expires
  pub verified : proof_mac c s.priv key key frame.nonce ≡ some frame.mac

answers_lem :
    (now : ℕ) (nonce : Text) (o : Option PendingChallenge)
    → answers now nonce o ≡ true
    → (ch : PendingChallenge) × (o ≡ some ch) × (ch.nonce ≡ nonce) × (now < ch.expires)
answers_lem now nonce none h = absurd (ground arith)
answers_lem now nonce (some ch) h = (
  ch,
  refl,
  ground (arith, text_eq_iff ch.nonce nonce),
  ground (arith, text_eq_iff ch.nonce nonce),
)

-- The client was there at this address, or the packet proves its key.
abbrev pub Entitled : Crypto → Env → Text → AddrPort → Server → Text → Client → Type 0
Entitled c e pkt src s key new =
    ((old : Client) × (get key s.clients ≡ some old) × (old.addr ≡ new.addr))
    ⊎ ((new.addr ≡ src) × Proves c e pkt s key src)

module _ (c : Crypto) (e : Env) (pkt : Text) (src : AddrPort) (s : Server) (key : Text)
    (new : Client) where
  on_register-Entitled :
      (o : Option (Text × Text))
      → get key (on_register e src s o).0.clients ≡ some new
      → Entitled c e pkt src s key new
  unfolding register
  on_register-Entitled none g = inl (new, g, refl)
  on_register-Entitled (some (k, rest)) g =
      elim (Bool-cases (is_refresh e.now src (get k s.clients))) [
        | inl q ↦ elim (Option-cases (get k s.clients)) [
          | inl n ↦ absurd (ground arith)
          | inr (old, n) ↦ elim (Bool-cases (text_eq k key)) [
            | inl same ↦ inl (
              old,
              ground (arith, text_eq_iff k key),
              ground (
                arith,
                get-put k key (record { addr = src; last_seen = e.now }) s.clients,
                addr_port_eq_iff old.addr src,
              ),
            )
            | inr other ↦ inl (
              new,
              ground (arith, get-put k key (record { addr = src; last_seen = e.now }) s.clients),
              refl,
            )
          ]
        ]
        | inr q ↦ inl (new, ground arith, refl)
      ]

  on_proof-Entitled :
      (o : Option ProofFrame)
      → parse_proof pkt ≡ o
      → get key (on_proof c e src s o).0.clients ≡ some new
      → Entitled c e pkt src s key new
  unfolding prove enter
  on_proof-Entitled none p g = inl (new, g, refl)
  on_proof-Entitled (some f) p g = elim (Bool-cases (text_eq f.client_pub key)) [
    | inr other ↦ inl (
      new,
      ground (arith, get-put f.client_pub key (record { addr = src; last_seen = e.now }) s.clients),
      refl,
    )
    | inl same ↦ elim (Bool-cases (answers e.now f.nonce (get src s.pending))) [
      | inr q ↦ inl (new, ground arith, refl)
      | inl q ↦ elim (Bool-cases (verify_proof c s.priv f.client_pub f.nonce f.mac)) [
        | inr v ↦ inl (new, ground arith, refl)
        | inl v ↦
            let (ch, there, same_text, soon) = answers_lem e.now f.nonce (get src s.pending) q in
            inr (
              ground (
                arith,
                get-put f.client_pub key (record { addr = src; last_seen = e.now }) s.clients,
              ),
              record {
                frame = f;
                parsed = p;
                claims = (text_eq_iff f.client_pub key).0 same;
                waiting = ch;
                waits = there;
                same_nonce = same_text;
                in_time = soon;
                verified =
                    (verify_proof_iff c s.priv key f.nonce f.mac).0
                      (rw (← (text_eq_iff f.client_pub key).0 same) v);
              },
            )
      ]
    ]
  ]

  on_forward-Entitled :
      (o : Option (Text × Text))
      → get key (on_forward e src s o).0.clients ≡ some new
      → Entitled c e pkt src s key new
  unfolding forward
  on_forward-Entitled none g = inl (new, g, refl)
  on_forward-Entitled (some (k, [])) g = inl (new, g, refl)
  on_forward-Entitled (some (k, b ∷ bs)) g = inl (new, g, refl)

  -- After any packet a client stands under a key only if it stood there at the same address, or
  -- if the packet came from its address and is a PROOF whose nonce is the one of the unexpired
  -- challenge that waits for that address, and whose MAC is the one that the secret shared with
  -- the key gives.
  pub handle-Entitled :
      get key (handle c e pkt src s).0.clients ≡ some new → Entitled c e pkt src s key new
  unfolding handle
  handle-Entitled g = elim (Bool-cases (is_frame pkt)) [
    | inr f ↦ inl (new, ground arith, refl)
    | inl f ↦ elim (Bool-cases (frame_type pkt == type_register)) [
      | inl a ↦ on_register-Entitled (parse_keyed pkt) (rw (f, a) at g)
      | inr a ↦ elim (Bool-cases (frame_type pkt == type_proof)) [
        | inl b ↦ on_proof-Entitled (parse_proof pkt) refl (rw (f, a, b) at g)
        | inr b ↦ elim (Bool-cases (frame_type pkt == type_forward)) [
          | inl d ↦ on_forward-Entitled (parse_keyed pkt) (rw (f, a, b, d) at g)
          | inr d ↦ inl (new, ground arith, refl)
        ]
      ]
    ]
  ]
