-- ===== src/Omnisock/Bind/Demux.antt =====
-- The protocols on the shared socket do not interfere.
use omniup_vpn.Base.{
  ℕ, ◌<◌, ◌≡◌, refl, Bool, true, false, inl, inr, ◌&&◌, [], ◌∷◌, arith, Text, text_eq, length,
  get_or, leb, Bool-cases,
}
use omniup_vpn.Net.{AddrPort}
use omniup_vpn.Stun.{is_binding_response}
use omniup_vpn.Relay.Frames.{is_frame, build_recv}
use omniup_vpn.Relay.Frames.RoundTrip.{parse_keyed_recv}
use omniup_vpn.Relay.Proof.{Crypto}
use omniup_vpn.Omnisock.Disco.{is_disco, decode_disco, encode_disco, disco_ping, disco_pong}
use omniup_vpn.Omnisock.Bind.{
  Bind, direct, via_relay, quiet, to_engine, handle_disco, handle_relay, receive_one,
}

-- The first byte of a packet tells the protocols apart.
disco_first : (b : Text) → is_disco b ≡ true → get_or b 0 0 ≡ 0xC5
unfolding is_disco text_eq
disco_first [] h = absurd (ground arith)
disco_first (x ∷ xs) h = ground arith

stun_first : (b : Text) → is_binding_response b ≡ true → get_or b 0 0 < 2
unfolding is_binding_response
stun_first b h = ground arith

frame_first : (b : Text) → is_frame b ≡ true → get_or b 0 0 ≡ 0xC6
unfolding is_frame
frame_first b h = ground arith

-- No packet is taken for two protocols.
pub classes_disjoint :
    (b : Text)
    → (is_disco b && is_binding_response b ≡ false)
      × (is_disco b && is_frame b ≡ false)
      × (is_binding_response b && is_frame b ≡ false)
classes_disjoint b =
    let d = disco_first b in
    let s = stun_first b in
    let f = frame_first b in
    (
      elim (Bool-cases (is_disco b)) [
        | inl p ↦ elim (Bool-cases (is_binding_response b)) [
          | inl q ↦ absurd (ground (arith, d p, s q))
          | inr q ↦ rw (p, q) refl
        ]
        | inr p ↦ rw p refl
      ],
      elim (Bool-cases (is_disco b)) [
        | inl p ↦ elim (Bool-cases (is_frame b)) [
          | inl q ↦ absurd (ground (arith, d p, f q))
          | inr q ↦ rw (p, q) refl
        ]
        | inr p ↦ rw p refl
      ],
      elim (Bool-cases (is_binding_response b)) [
        | inl p ↦ elim (Bool-cases (is_frame b)) [
          | inl q ↦ absurd (ground (arith, s p, f q))
          | inr q ↦ rw (p, q) refl
        ]
        | inr p ↦ rw p refl
      ],
    )

other_class : {x y : Bool} → x && y ≡ false → y ≡ true → x ≡ false
other_class {x} {y} h k = ground arith

encode-is_disco : (ty : ℕ) (id : Text) → length id ≡ 12 → is_disco (encode_disco ty id) ≡ true
unfolding is_disco encode_disco text_eq
encode-is_disco ty id n = ground arith

wireguard_not_disco : (ty : ℕ) (rest : Text) → ty < 5 → is_disco (ty ∷ rest) ≡ false
wireguard_not_disco ty rest hi = elim (Bool-cases (is_disco (ty ∷ rest))) [
  | inl p ↦ absurd (omega (arith, disco_first (ty ∷ rest) p, hi))
  | inr p ↦ p
]

wireguard_not_frame : (ty : ℕ) (rest : Text) → ty < 5 → is_frame (ty ∷ rest) ≡ false
wireguard_not_frame ty rest hi = elim (Bool-cases (is_frame (ty ∷ rest))) [
  | inl p ↦ absurd (omega (arith, frame_first (ty ∷ rest) p, hi))
  | inr p ↦ p
]

wireguard_not_stun : (ty : ℕ) (rest : Text) → is_binding_response (ty ∷ 0 ∷ rest) ≡ false
unfolding is_binding_response
wireguard_not_stun ty rest = ground arith

module _ (c : Crypto) (now buf_len : ℕ) (b : Bind) (src : AddrPort) where
  -- A packet whose first byte is below 5, with three zero bytes behind it, as WireGuard's are, goes
  -- to the engine as it is, from its source's address, and nothing else happens.
  pub wireguard_passes :
      (ty : ℕ) (rest : Text)
      → ty < 5
      → receive_one c now buf_len b (ty ∷ 0 ∷ 0 ∷ 0 ∷ rest) src
        ≡ (b, to_engine (ty ∷ 0 ∷ 0 ∷ 0 ∷ rest) (direct src))
  unfolding receive_one
  wireguard_passes ty rest hi =
      rw
        (
          wireguard_not_disco ty (0 ∷ 0 ∷ 0 ∷ rest) hi,
          wireguard_not_stun ty (0 ∷ 0 ∷ rest),
          wireguard_not_frame ty (0 ∷ 0 ∷ 0 ∷ rest) hi,
        )
        refl

  -- A payload that the relay delivers under a 32-byte key goes to the engine, without its frame, as
  -- one of the peer's with that key, if it is not empty and fits the engine's buffer.
  pub relayed_payload :
      (key : Text) (p : ℕ) (ps : Text)
      → length key ≡ 32
      → leb (length (p ∷ ps)) buf_len ≡ true
      → receive_one c now buf_len b (build_recv key (p ∷ ps)) src
        ≡ (b, to_engine (p ∷ ps) (via_relay key))
  unfolding receive_one handle_relay
  relayed_payload key p ps k fits =
      let pkt = build_recv key (p ∷ ps) in
      let (framed, typed, parsed) = parse_keyed_recv key (p ∷ ps) k in
      let (_, d, s) = classes_disjoint pkt in
      rw
        (
          other_class {x = is_disco pkt} {y = is_frame pkt} d framed,
          other_class {x = is_binding_response pkt} {y = is_frame pkt} s framed,
          framed,
          typed,
          parsed,
          fits,
        )
        refl

module _ (c : Crypto) (now buf_len : ℕ) (a b : Bind) (addr_a addr_b : AddrPort) (id : Text) where
  -- A probe of 12 bytes is answered, and its answer is reported: an open socket that receives a
  -- ping writes a packet to its source, and when that packet comes back, a socket with a pong
  -- handler hands it the probe and the address it came from.
  pub ping_pong :
      length id ≡ 12
      → b.is_open ≡ true
      → a.has_pong_handler ≡ true
      → (pong : Text) × (receive_one c now buf_len b (encode_disco disco_ping id) addr_a
          ≡ (b, record quiet { sent = (pong, addr_a) ∷ [] }))
        × (receive_one c now buf_len a pong addr_b
            ≡ (a, record quiet { pongs = (id, addr_b) ∷ [] }))
  unfolding receive_one handle_disco decode_disco encode_disco
  ping_pong n opened handler = (
    encode_disco disco_pong id,
    rw (encode-is_disco disco_ping id n, opened) refl,
    rw (encode-is_disco disco_pong id n, handler) refl,
  )
