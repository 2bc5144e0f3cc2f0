-- ===== src/Relay/Proof.antt =====
-- internal/relay/relay.go: the challenge-response. Curve25519 and HMAC-SHA256 are parameters.
use omniup_vpn.Base.{
  ◌≡◌, Bool, true, false, Option, none, some, Text, ◌++◌, length, arith, text_eq, Option-cases, inl,
  inr, text_eq_refl, text_eq_iff, ◌↔◌,
}
use omniup_vpn.Relay.Frames.{proof_frame}

-- golang.org/x/crypto/curve25519 and crypto/hmac over crypto/sha256. X25519 fails on the points
-- that give the all-zero secret. The two sides of an exchange compute one secret.
pub record Crypto : Type 0 where
  pub x25519 : Text → Text → Option Text
  pub basepoint : Text
  pub hmac_sha256 : Text → Text → Text
  pub length-x25519 : (a b c : Text) → x25519 a b ≡ some c → length c ≡ 32
  pub length-hmac : (key message : Text) → length (hmac_sha256 key message) ≡ 32
  pub x25519_comm :
      (a b a_pub b_pub : Text)
      → x25519 a basepoint ≡ some a_pub
      → x25519 b basepoint ≡ some b_pub
      → x25519 a b_pub ≡ x25519 b a_pub

module _ (c : Crypto) where
  open c use {x25519, basepoint, hmac_sha256}

  -- proofMAC: HMAC of nonce and claimed key, under the shared secret.
  abbrev pub mac_under : Text → Text → Option Text → Option Text
  mac_under client_pub nonce none = none
  mac_under client_pub nonce (some shared) = some (hmac_sha256 shared (nonce ++ client_pub))

  unfoldable pub proof_mac : Text → Text → Text → Text → Option Text
  proof_mac priv pub_key client_pub nonce = mac_under client_pub nonce (x25519 priv pub_key)

  abbrev pub framed : Text → Text → Option Text → Option Text
  framed client_pub nonce none = none
  framed client_pub nonce (some mac) = some (proof_frame client_pub nonce mac)

  abbrev pub proof_of : Text → Text → Text → Option Text → Option Text
  proof_of client_priv relay_pub nonce none = none
  proof_of client_priv relay_pub nonce (some client_pub) =
      framed client_pub nonce (proof_mac client_priv relay_pub client_pub nonce)

  -- BuildProof
  unfoldable pub build_proof : Text → Text → Text → Option Text
  build_proof client_priv relay_pub nonce =
      proof_of client_priv relay_pub nonce (x25519 client_priv basepoint)

  abbrev pub mac_equal : Text → Option Text → Bool
  mac_equal mac none = false
  mac_equal mac (some expected) = text_eq expected mac

  -- VerifyProof
  unfoldable pub verify_proof : Text → Text → Text → Text → Bool
  verify_proof relay_priv client_pub nonce mac =
      mac_equal mac (proof_mac relay_priv client_pub client_pub nonce)

  -- The proof that the holder of a private key builds for a challenge of the relay is a PROOF frame
  -- of its public key and the nonce, and the relay accepts its MAC. (Either side's X25519 fails
  -- when the other's does; then no proof is built.)
  pub verify_proof-build_proof :
      (client_priv client_pub relay_priv relay_pub nonce frame : Text)
      → x25519 client_priv basepoint ≡ some client_pub
      → x25519 relay_priv basepoint ≡ some relay_pub
      → build_proof client_priv relay_pub nonce ≡ some frame
      → (mac : Text) × (frame ≡ proof_frame client_pub nonce mac)
        × (length mac ≡ 32)
        × (verify_proof relay_priv client_pub nonce mac ≡ true)
  unfolding build_proof verify_proof proof_mac
  verify_proof-build_proof client_priv client_pub relay_priv relay_pub nonce frame e f b =
      let same = c.x25519_comm client_priv relay_priv client_pub relay_pub e f in
      elim (Option-cases (x25519 client_priv relay_pub)) [
        | inl q ↦ absurd (ground arith)
        | inr (shared, q) ↦
            let mac : Text = hmac_sha256 shared (nonce ++ client_pub) in
            (
              mac,
              ground arith,
              c.length-hmac shared (nonce ++ client_pub),
              ground (arith, same, text_eq_refl mac),
            )
      ]

  -- A MAC that is accepted is the one that the shared secret gives.
  pub verify_proof_iff :
      (relay_priv client_pub nonce mac : Text)
      → (verify_proof relay_priv client_pub nonce mac ≡ true)
        ↔ (proof_mac relay_priv client_pub client_pub nonce ≡ some mac)
  unfolding verify_proof
  verify_proof_iff relay_priv client_pub nonce mac =
      elim (Option-cases (proof_mac relay_priv client_pub client_pub nonce)) [
        | inl q ↦ rw q (λ h. ground arith, λ h. ground arith)
        | inr (expected, q) ↦ rw q (
          λ h. ground (arith, text_eq_iff expected mac),
          λ h. ground (arith, text_eq_iff expected mac),
        )
      ]
