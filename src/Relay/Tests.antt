-- ===== src/Relay/Tests.antt =====
-- What the theorems about the relay say of a small run: two clients register and one writes to the
-- other.
use omniup_vpn.Base.Map.{delete}
use omniup_vpn.Net.{addr_port_eq}
use omniup_vpn.Base.Map.{put}
use omniup_vpn.Base.{text_eq}
use omniup_vpn.Base.{ℕ, ◌≡◌, refl, text_key, true, some, List, [], ◌∷◌, Text, arith}
use omniup_vpn.Base.Map.{get}
use omniup_vpn.Net.{AddrPort, addr_port_key}
use omniup_vpn.Relay.Frames.{
  is_frame, frame_type, parse_keyed, proof_frame, parse_proof, build_register, build_forward,
  build_recv, build_challenge, build_ack,
}
use omniup_vpn.Relay.Proof.{build_proof, verify_proof, proof_mac}
use omniup_vpn.Relay.Server.{
  Server, Env, Client, fresh_at, handle, serve, register, prove, enter, forward,
}
use omniup_vpn.Relay.Server.Links.{IsLinked, serve-IsLinked}
use omniup_vpn.Relay.Server.Handshake.{
  forward_delivers, forward_speaks_for_sender, proof_once, handshake,
}
use omniup_vpn.Relay.Server.Proven.{ProvedIn, registered_proved}
use omniup_vpn.Relay.Demo.{
  point, sums, alice, bob, alice_priv, alice_key, bob_key, relay_key, nonce, proof, at, started,
}

-- The registration of both.
abbrev packets : List (Env × Text × AddrPort)
packets =
    (at 0, build_register alice_key, alice)
    ∷ (at 1, proof alice_key, alice)
    ∷ (at 2, build_register bob_key, bob)
    ∷ (at 3, proof bob_key, bob)
    ∷ []

abbrev client : AddrPort → ℕ → Client
client addr now = record { addr = addr; last_seen = now }

abbrev both : Server
both = serve sums packets started

started-IsLinked : IsLinked started
unfolding get
started-IsLinked = record { link = λ a k g. absurd (ground arith) }

abbrev challenged : Server
challenged = (handle sums (at 0) (build_register alice_key) alice started).0

serve-IsLinked_example : IsLinked (serve sums packets started)
serve-IsLinked_example = serve-IsLinked sums packets started started-IsLinked

handshake_example :
    ((handle sums (at 0) (build_register alice_key) alice started).1
      ≡ (build_challenge relay_key nonce, alice) ∷ [])
    × (((handle sums
            (at 7)
            (proof alice_key)
            alice
            (handle sums (at 0) (build_register alice_key) alice started).0).1
          ≡ (build_ack, alice) ∷ [])
        × (get alice_key
              (handle sums
                (at 7)
                (proof alice_key)
                alice
                (handle sums (at 0) (build_register alice_key) alice started).0).0.clients
            ≡ some (client alice 7))
        × (get alice
              (handle sums
                (at 7)
                (proof alice_key)
                alice
                (handle sums (at 0) (build_register alice_key) alice started).0).0.by_addr
            ≡ some alice_key))
unfolding build_proof proof_mac get
handshake_example =
    handshake sums alice started alice_priv alice_key nonce (at 0) (at 7) (proof alice_key) refl
      refl refl refl refl refl (omega arith)

forward_delivers_example :
    handle sums (at 4) (build_forward bob_key (1 ∷ 2 ∷ [])) alice both
    ≡ (both, (build_recv alice_key (1 ∷ 2 ∷ []), bob) ∷ [])
unfolding serve handle register prove enter get is_frame proof_frame text_eq frame_type parse_proof
    build_register parse_keyed put addr_port_eq verify_proof proof_mac delete
forward_delivers_example =
    forward_delivers sums (at 4) alice both bob_key alice_key 1 (2 ∷ []) (client alice 1)
      (client bob 3) serve-IsLinked_example refl refl refl refl refl refl

abbrev out : Text × AddrPort
out = (build_recv alice_key (1 ∷ []), bob)

abbrev no_more : List (Text × AddrPort)
no_more = []

forward_speaks_for_sender_example :
    (src_key : Text) × (sender dst : Client) × (get alice both.by_addr ≡ some src_key)
    × (get src_key both.clients ≡ some sender)
    × (sender.addr ≡ alice)
    × (fresh_at 4 sender ≡ true)
    × (get bob_key both.clients ≡ some dst)
    × (fresh_at 4 dst ≡ true)
    × (out ≡ (build_recv src_key (1 ∷ []), dst.addr))
    × (no_more ≡ [])
unfolding serve handle register prove enter get forward is_frame proof_frame text_eq frame_type
    parse_proof build_register parse_keyed put addr_port_eq verify_proof proof_mac delete
forward_speaks_for_sender_example =
    forward_speaks_for_sender sums (at 4) alice both bob_key (1 ∷ []) out no_more
      serve-IsLinked_example refl

proof_once_example :
    handle sums
      (at 8)
      (proof alice_key)
      alice
      (prove sums
        (at 1)
        alice
        (record { client_pub = alice_key; nonce = nonce; mac = point 0 })
        challenged).0
    ≡ (
      (prove sums
          (at 1)
          alice
          (record { client_pub = alice_key; nonce = nonce; mac = point 0 })
          challenged).0,
      [],
    )
unfolding handle register get is_frame build_register text_eq frame_type parse_keyed put
    addr_port_eq proof_frame
proof_once_example =
    proof_once sums (at 1) (at 8) alice challenged
      (record { client_pub = alice_key; nonce = nonce; mac = point 0 }) (proof alice_key) refl refl

registered_proved_example : ProvedIn sums alice_key alice packets started
unfolding serve handle register prove enter get is_frame proof_frame text_eq frame_type parse_proof
    build_register parse_keyed put addr_port_eq verify_proof proof_mac delete
registered_proved_example =
    registered_proved sums alice_key packets started (client alice 1) refl refl
