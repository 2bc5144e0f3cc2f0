-- ===== src/Relay/Frames/RoundTrip.antt =====
-- What is built is read back.
use omniup_vpn.Base.{
  ℕ, ◌+◌, ◌≡◌, refl, true, some, [], ◌∷◌, ◌++◌, arith, Text, length, drop, length-append,
  take-append_exact, drop-append_exact, append_assoc, append-nil, text_eq,
}
use omniup_vpn.Relay.Frames.{
  magic, is_frame, frame_type, build_register, build_forward, build_recv, parse_keyed,
  build_challenge, parse_challenge, proof_frame, parse_proof, type_forward, type_recv,
  type_challenge, type_proof, type_register,
}

pub is_frame-magic : (ty : ℕ) (rest : Text) → is_frame (magic ++ ty ∷ rest) ≡ true
unfolding is_frame text_eq
is_frame-magic ty rest = ground arith

ruleset cuts = (take-append_exact, drop-append_exact, length-append)

module _ (key payload : Text) (h : length key ≡ 32) where
  parse_keyed_behind : (ty : ℕ) → parse_keyed (magic ++ ty ∷ (key ++ payload)) ≡ some (key, payload)
  unfolding parse_keyed
  parse_keyed_behind ty = ground (
    arith,
    length-append key payload,
    take-append_exact 32 key payload h,
    drop-append_exact 32 key payload h,
  )

  -- FORWARD and RECV frames are told apart, and each gives back its key and its payload.
  pub parse_keyed_forward :
      (is_frame (build_forward key payload) ≡ true)
      × (frame_type (build_forward key payload) ≡ type_forward)
      × (parse_keyed (build_forward key payload) ≡ some (key, payload))
  unfolding frame_type build_forward
  parse_keyed_forward = (is_frame-magic type_forward _, refl, parse_keyed_behind type_forward)

  pub parse_keyed_recv :
      (is_frame (build_recv key payload) ≡ true)
      × (frame_type (build_recv key payload) ≡ type_recv)
      × (parse_keyed (build_recv key payload) ≡ some (key, payload))
  unfolding frame_type build_recv
  parse_keyed_recv = (is_frame-magic type_recv _, refl, parse_keyed_behind type_recv)

pub parse_keyed_register :
    (key : Text)
    → length key ≡ 32
    → (is_frame (build_register key) ≡ true)
      × (frame_type (build_register key) ≡ type_register)
      × (parse_keyed (build_register key) ≡ some (key, []))
unfolding frame_type build_register
parse_keyed_register key h = (
  is_frame-magic type_register _,
  refl,
  rw append-nil at (parse_keyed_behind key [] h type_register),
)

pub parse_challenge-build :
    (relay_pub nonce : Text)
    → length relay_pub ≡ 32
    → length nonce ≡ 16
    → (is_frame (build_challenge relay_pub nonce) ≡ true)
      × (frame_type (build_challenge relay_pub nonce) ≡ type_challenge)
      × (parse_challenge (build_challenge relay_pub nonce) ≡ some (relay_pub, nonce))
unfolding frame_type build_challenge parse_challenge
parse_challenge-build relay_pub nonce h k = (
  is_frame-magic type_challenge _,
  refl,
  ground (
    arith,
    length-append relay_pub nonce,
    take-append_exact 32 relay_pub nonce h,
    drop-append_exact 32 relay_pub nonce h,
  ),
)

-- A list cut behind its first two parts.
drop_two :
    (n m k : ℕ) (a b c : Text)
    → length a ≡ n
    → length b ≡ m
    → k ≡ n + m
    → drop k (a ++ (b ++ c)) ≡ c
drop_two n m k a b c p q e =
    rw (e, ← append_assoc)
      (drop-append_exact (n + m) (a ++ b) c (omega (arith, length-append {0} a b)))

pub parse_proof-build :
    (client_pub nonce mac : Text)
    → length client_pub ≡ 32
    → length nonce ≡ 16
    → length mac ≡ 32
    → (is_frame (proof_frame client_pub nonce mac) ≡ true)
      × (frame_type (proof_frame client_pub nonce mac) ≡ type_proof)
      × (parse_proof (proof_frame client_pub nonce mac)
          ≡ some (record { client_pub = client_pub; nonce = nonce; mac = mac }))
unfolding frame_type proof_frame parse_proof
parse_proof-build client_pub nonce mac h k l = (
  is_frame-magic type_proof _,
  refl,
  ground (
    arith,
    length-append client_pub (nonce ++ mac),
    length-append nonce mac,
    take-append_exact 32 client_pub (nonce ++ mac) h,
    drop-append_exact 32 client_pub (nonce ++ mac) h,
    take-append_exact 16 nonce mac k,
    drop_two 32 16 48 client_pub nonce mac h k refl,
  ),
)
