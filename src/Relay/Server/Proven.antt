-- ===== src/Relay/Server/Proven.antt =====
-- Who is registered after any run of the relay.
use omniup_vpn.Base.{◌≡◌, refl, sym, ◌∙◌, ◌⊎◌, inl, inr, some, List, [], ◌∷◌, Text, text_key, arith}
use omniup_vpn.Base.Map.{get}
use omniup_vpn.Net.{AddrPort}
use omniup_vpn.Relay.Proof.{Crypto}
use omniup_vpn.Relay.Server.{Client, Server, Env, handle, serve}
use omniup_vpn.Relay.Server.Authentic.{Proves, handle-Entitled}

module _ (c : Crypto) (key : Text) (addr : AddrPort) where
  -- One of the packets of a run came from the address and proved the key, in the state that the
  -- relay had when it came.
  abbrev pub ProvedIn : List (Env × Text × AddrPort) → Server → Type 0
  ProvedIn [] s = ⊥
  ProvedIn ((e, pkt, src) ∷ rest) s =
      ((addr ≡ src) × Proves c e pkt s key src) ⊎ ProvedIn rest (handle c e pkt src s).0

module _ (c : Crypto) (key : Text) where
  -- A client was registered before the run, at the same address, or proves its key in it.
  serve-ProvedIn :
      (packets : List (Env × Text × AddrPort)) (s : Server) (new : Client)
      → get key (serve c packets s).clients ≡ some new
      → ((old : Client) × (get key s.clients ≡ some old) × (old.addr ≡ new.addr))
        ⊎ ProvedIn c key new.addr packets s
  unfolding serve
  serve-ProvedIn [] s new g = inl (new, g, refl)
  serve-ProvedIn ((e, pkt, src) ∷ rest) s new g =
      elim (serve-ProvedIn rest (handle c e pkt src s).0 new g) [
        | inr later ↦ inr (inr later)
        | inl (mid, gm, at) ↦ elim (handle-Entitled c e pkt src s key mid gm) [
          | inl (old, go, at') ↦ inl (old, go, at' ∙ at)
          | inr (here, p) ↦ inr (inl (sym at ∙ here, p))
        ]
      ]

  -- Nobody is registered under another's key: if the relay starts without clients, then whatever
  -- packets come from whatever addresses, a key that is registered at an address has been proved
  -- from that address, by a PROOF whose nonce answers the unexpired challenge that waited for that
  -- address and whose MAC is the one that the secret shared with the key gives.
  pub registered_proved :
      (packets : List (Env × Text × AddrPort)) (s : Server) (new : Client)
      → s.clients ≡ []
      → get key (serve c packets s).clients ≡ some new
      → ProvedIn c key new.addr packets s
  unfolding get
  registered_proved packets s new empty g = elim (serve-ProvedIn packets s new g) [
    | inl (old, go, at) ↦ absurd (ground (arith, empty))
    | inr p ↦ p
  ]
